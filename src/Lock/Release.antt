-- ===== src/Lock/Release.antt =====
-- What the releasing calls take out of the table, and what they leave.
use simple_nfsd.Prelude.{
  ℕ, ◌≡◌, refl, String, Bool, false, ◌&&◌, not, Option, none, some, if◌then◌else◌, ◌==◌, any_of,
  arith,
}
use simple_nfsd.Map.{find, Sorted, nat_key}
use simple_nfsd.Map.Laws.{sweep_lem, find-erase, find-keep_if, retained}
use simple_nfsd.Lock.{
  LockOwner, FileLock, LockManager, same_owner, release_lock, release_locks_for_owner, nlm_unlock,
  unlock_matches,
}

-- The entry belongs to the owner.
abbrev pub owned_by : LockOwner → Option FileLock → Bool
owned_by owner none = false
owned_by owner (some l) = same_owner l.owner owner

-- releaseLock answers true exactly when the id names a lock of the caller; then that id is gone and
-- every other entry stays, else the table is unchanged.
release_lock_lem :
    (id j : ℕ) (owner : LockOwner) (m : LockManager)
    → ((release_lock id owner m).1 ≡ owned_by owner (find id m.locks))
      × (find j (release_lock id owner m).0.locks
          ≡ (if owned_by owner (find id m.locks) && id == j then none else find j m.locks))
unfolding release_lock
release_lock_lem id j owner m = ground (arith, find-erase id j m.locks)

-- releaseLocksForOwner takes out the owner's locks, all of them and no other's, and answers whether
-- there was one.
release_locks_for_owner_lem :
    (owner : LockOwner) (j : ℕ) (m : LockManager)
    → Sorted m.locks
    → (find j (release_locks_for_owner owner m).0.locks
        ≡ retained (λ l. not (same_owner l.owner owner)) (find j m.locks))
      × ((release_locks_for_owner owner m).1 ≡ any_of (λ e. same_owner e.1.owner owner) m.locks)
unfolding release_locks_for_owner
release_locks_for_owner_lem owner j m s =
    rw (sweep_lem (λ e. same_owner e.1.owner owner) m.locks)
      (find-keep_if (λ e. not (same_owner e.1.owner owner)) j m.locks s, refl)

-- nlmUnlock takes out the caller's locks on the file that meet the range, and leaves every other
-- entry.
nlm_unlock_lem :
    (now : ℕ) (path : String) (off len : ℕ) (owner : LockOwner) (j : ℕ) (m : LockManager)
    → Sorted m.locks
    → find j (nlm_unlock now path off len owner m).0.locks
      ≡ retained (λ l. not (unlock_matches now path off len owner l)) (find j m.locks)
unfolding nlm_unlock
nlm_unlock_lem now path off len owner j m s = ground (
  arith,
  sweep_lem (λ e. unlock_matches now path off len owner e.1) m.locks,
  find-keep_if (λ e. not (unlock_matches now path off len owner e.1)) j m.locks s,
)
