-- ===== src/Lock/Runs.antt =====
-- Concrete runs of the lock manager, and its theorems at concrete inputs.
use simple_nfsd.Prelude.{ℕ, ◌+◌, ◌≡◌, ◌↔◌, refl, true, false, not, List, [], ◌∷◌, none, some, arith}
use simple_nfsd.Map.{insert, sweep, nat_key}
use simple_nfsd.Lock.Range.{Covers, overlaps-iff-Covers}
use simple_nfsd.Lock.Conflict.{is_granted, acquire-check_conflict}
use simple_nfsd.Lock.Exclusion.{Exclusive, Request, acquires, unlocks, run, run-Exclusive}
use simple_nfsd.Lock.{
  shared, exclusive, LockOwner, FileLock, LockManager, NlmLock, file_lock, range_end, overlaps,
  is_expired, same_owner, lock_manager, remove_expired_locks, can_acquire_lock, acquire_lock,
  check_lock_conflict, nlm_test,
}

abbrev alice : LockOwner
alice = record { client_id = 1; process_id = 10; client_address = "10.0.0.1"; acquired_at = 0 }

abbrev bob : LockOwner
bob = record { client_id = 2; process_id = 20; client_address = "10.0.0.2"; acquired_at = 0 }

abbrev first_lock : FileLock
unfolding file_lock
first_lock = file_lock 5 "/a" exclusive 0 100 alice

abbrev one_lock : LockManager
unfolding file_lock
one_lock = record { locks = (1, first_lock) ∷ []; next_lock_id = 2 }

abbrev no_conflict : NlmLock
no_conflict = record {
  lock_id = 0;
  file_path = "";
  type = shared;
  offset = 0;
  length = 0;
  owner = bob;
  granted = false;
}

first_grant : acquire_lock 5 "/a" exclusive 0 100 alice lock_manager ≡ (one_lock, some 1)
unfolding acquire_lock lock_manager remove_expired_locks can_acquire_lock insert sweep file_lock
first_grant = refl

bob_refused : (acquire_lock 6 "/a" shared 50 10 bob one_lock).1 ≡ none
unfolding acquire_lock remove_expired_locks can_acquire_lock insert sweep file_lock same_owner
    overlaps range_end is_expired
bob_refused = refl

overlaps-iff-Covers_example : (overlaps first_lock (file_lock 6 "/a" shared 50 10 bob) ≡ true) ↔ (
    (first_lock.file_path ≡ (file_lock 6 "/a" shared 50 10 bob).file_path)
    × ((x : ℕ) × Covers first_lock x × Covers (file_lock 6 "/a" shared 50 10 bob) x))
unfolding file_lock range_end
overlaps-iff-Covers_example =
    overlaps-iff-Covers first_lock (file_lock 6 "/a" shared 50 10 bob) (omega arith) (omega arith)

acquire-check_conflict_example :
    (is_granted (acquire_lock 6 "/a" shared 50 10 bob one_lock).1
      ≡ not (check_lock_conflict 6 "/a" shared 50 10 bob one_lock))
    × ((nlm_test 6 "/a" shared 50 10 bob no_conflict one_lock).1.0
        ≡ check_lock_conflict 6 "/a" shared 50 10 bob one_lock)
acquire-check_conflict_example = acquire-check_conflict 6 "/a" shared 50 10 bob no_conflict one_lock

abbrev history : List (ℕ × Request)
history =
    (5, acquires "/a" exclusive 0 100 alice)
    ∷ (1, acquires "/a" shared 50 10 bob)
    ∷ (1, unlocks "/a" 0 0 alice)
    ∷ []

run-Exclusive_example :
    Exclusive ((run 0 history lock_manager).0 + 3) (run 0 history lock_manager).1.locks
run-Exclusive_example = run-Exclusive 0 3 history
