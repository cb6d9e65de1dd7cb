-- ===== src/Lock/Conflict.antt =====
-- canAcquireLock, checkLockConflict and nlmTest share one conflict rule; this file states the rule
-- once and relates the three loops and acquireLock to it.
use simple_nfsd.Prelude.{
  ℕ, ◌≡◌, refl, ap, String, Bool, true, false, ◌&&◌, ◌||◌, not, [], ◌∷◌, Option, none, some,
  if◌then◌else◌, ◌==◌, any_of, arith,
}
use simple_nfsd.Map.{find, erase_if, nat_key}
use simple_nfsd.Map.Laws.{sweep_lem, find-insert}
use simple_nfsd.Lock.{
  LockType, LockOwner, FileLock, Locks, LockManager, NlmLock, is_exclusive, file_lock, overlaps,
  is_expired, same_owner, remove_expired_locks, can_acquire_lock, acquire_lock, conflict_loop,
  check_lock_conflict, nlm_test_loop, nlm_test, get_lock,
}

-- The lock still counts at the instant `now`.
unfoldable pub live : ℕ → FileLock → Bool
live now l = l.is_valid && not (is_expired now l)

-- A live lock of another owner that overlaps the requested one, one of the two being exclusive.
unfoldable pub blocks : ℕ → FileLock → FileLock → Bool
blocks now requested l =
    live now l
    && (not (same_owner l.owner requested.owner)
        && (overlaps requested l && (is_exclusive requested.type || is_exclusive l.type)))

abbrev pub blocked : ℕ → FileLock → Locks → Bool
blocked now requested m = any_of (λ e. blocks now requested e.1) m

pub remove_expired-locks :
    (now : ℕ) (m : LockManager)
    → (remove_expired_locks now m).locks
      ≡ erase_if (λ e. is_expired now e.1 || not e.1.is_valid) m.locks
unfolding remove_expired_locks
remove_expired-locks now m = ap (λ r. r.0) (sweep_lem _ m.locks)

pub can_acquire-blocked :
    (now : ℕ) (q : FileLock) (m : Locks) → can_acquire_lock now q q.owner m ≡ not (blocked now q m)
unfolding can_acquire_lock blocks live
can_acquire-blocked now q [] = refl
can_acquire-blocked now q ((id, l) ∷ m) = ground (arith, can_acquire-blocked now q m)

pub conflict_loop-blocked :
    (now : ℕ) (q : FileLock) (m : Locks) → conflict_loop now q q.type q.owner m ≡ blocked now q m
unfolding conflict_loop blocks live
conflict_loop-blocked now q [] = refl
conflict_loop-blocked now q ((id, l) ∷ m) = ground (arith, conflict_loop-blocked now q m)

nlm_test_loop-blocked :
    (now : ℕ) (q : FileLock) (out : NlmLock) (m : Locks)
    → (nlm_test_loop now q q.type q.owner out m).0 ≡ blocked now q m
unfolding nlm_test_loop blocks live
nlm_test_loop-blocked now q out [] = refl
nlm_test_loop-blocked now q out ((id, l) ∷ m) = ground (arith, nlm_test_loop-blocked now q out m)

-- Erasing the expired and invalid entries changes no answer.
pub blocked-remove_expired :
    (now : ℕ) (q : FileLock) (m : Locks)
    → blocked now q (erase_if (λ e. is_expired now e.1 || not e.1.is_valid) m) ≡ blocked now q m
unfolding blocks live
blocked-remove_expired now q [] = refl
blocked-remove_expired now q ((id, l) ∷ m) = ground (arith, blocked-remove_expired now q m)

abbrev pub is_granted : Option ℕ → Bool
is_granted none = false
is_granted (some id) = true

-- acquireLock grants a lock exactly when checkLockConflict, asked at the same instant, finds no
-- conflict; and nlmTest answers what checkLockConflict answers.
pub acquire-check_conflict :
    (now : ℕ) (path : String) (t : LockType) (off len : ℕ) (owner : LockOwner) (out : NlmLock)
    (m : LockManager)
    → (is_granted (acquire_lock now path t off len owner m).1
        ≡ not (check_lock_conflict now path t off len owner m))
      × ((nlm_test now path t off len owner out m).1.0
          ≡ check_lock_conflict now path t off len owner m)
unfolding acquire_lock check_lock_conflict nlm_test file_lock
acquire-check_conflict now path t off len owner out m =
    let q : FileLock = file_lock now path t off len owner in
    rw (conflict_loop-blocked now q m.locks) (
      ground (
        arith,
        remove_expired-locks now m,
        blocked-remove_expired now q m.locks,
        can_acquire-blocked now q (remove_expired_locks now m).locks,
      ),
      ground (
        arith,
        remove_expired-locks now m,
        blocked-remove_expired now q m.locks,
        nlm_test_loop-blocked now q out (remove_expired_locks now m).locks,
      ),
    )

-- A granted lock is found under its id at once, with the range and the owner asked for and 24 hours
-- to live; every other id is looked up as in the table without the expired locks.
get_lock-acquire :
    (now : ℕ) (path : String) (t : LockType) (off len : ℕ) (owner : LockOwner) (m m' : LockManager)
    (id j : ℕ)
    → acquire_lock now path t off len owner m ≡ (m', some id)
    → (get_lock now id m' ≡ some (file_lock now path t off len owner))
      × (find j m'.locks ≡ (
          if id == j
          then some (file_lock now path t off len owner)
          else find j (remove_expired_locks now m).locks))
unfolding acquire_lock get_lock file_lock is_expired
get_lock-acquire now path t off len owner m m' id j e =
    let q : FileLock = file_lock now path t off len owner in
    (
      ground (arith, find-insert id id q (remove_expired_locks now m).locks),
      ground (arith, find-insert id j q (remove_expired_locks now m).locks),
    )
