-- ===== src/Lock/Ids.antt =====
-- The ids of the lock table: one entry for each, in order, and fresh until the counter wraps.
use simple_nfsd.Prelude.{
  ℕ, ◌+◌, ◌%◌, ◌<◌, ◌≡◌, subst, String, Bool, false, ◌||◌, not, List, [], ◌∷◌, none, some, arith,
  All, All-keep_if, All-map,
}
use simple_nfsd.Map.{find, insert, erase, sweep, Sorted, nat_key}
use simple_nfsd.Map.Laws.{sweep_lem, Sorted-insert, Sorted-keep_if, All-insert, Fresh-find}
use simple_nfsd.Lock.Conflict.{remove_expired-locks}
use simple_nfsd.Lock.Exclusion.{
  Request, acquires, releases, releases_owner, releases_file, cleans_up, clears, tests, locks_nlm,
  unlocks, step, run,
}
use simple_nfsd.Lock.{
  LockType, LockOwner, FileLock, Locks, LockManager, uint32_mod, file_lock, is_expired,
  remove_expired_locks, acquire_lock, release_lock, release_locks_for_owner, release_locks_for_file,
  cleanup_expired_locks, clear_all_locks, nlm_test, nlm_lock, nlm_unlock,
}

remove_expired-Sorted :
    (now : ℕ) (m : LockManager) → Sorted m.locks → Sorted (remove_expired_locks now m).locks
remove_expired-Sorted now m s = rw (remove_expired-locks now m) (Sorted-keep_if _ m.locks s)

sweep-Sorted : (p : ℕ × FileLock → Bool) (m : Locks) → Sorted m → Sorted (sweep p m).0
sweep-Sorted p m s = rw (sweep_lem p m) (Sorted-keep_if _ m s)

acquire-Sorted :
    (now : ℕ) (path : String) (t : LockType) (off len : ℕ) (owner : LockOwner) (m : LockManager)
    → Sorted m.locks
    → Sorted (acquire_lock now path t off len owner m).0.locks
unfolding acquire_lock
acquire-Sorted now path t off len owner m s =
    let m' = remove_expired_locks now m in
    let q = file_lock now path t off len owner in
    let s' = remove_expired-Sorted now m s in
    ground (arith, s', Sorted-insert m'.next_lock_id q m'.locks s')

release-Sorted :
    (id : ℕ) (owner : LockOwner) (m : LockManager)
    → Sorted m.locks
    → Sorted (release_lock id owner m).0.locks
unfolding release_lock erase
release-Sorted id owner m s =
    ground (arith, Sorted-keep_if (λ e. not (nat_key.same e.0 id)) m.locks s)

step-Sorted :
    (now : ℕ) (r : Request) (m : LockManager) → Sorted m.locks → Sorted (step now r m).locks
unfolding step release_locks_for_owner release_locks_for_file cleanup_expired_locks clear_all_locks
    nlm_test nlm_lock nlm_unlock
step-Sorted now (acquires path t off len owner) m s = acquire-Sorted now path t off len owner m s
step-Sorted now (releases id owner) m s = release-Sorted id owner m s
step-Sorted now (releases_owner owner) m s = sweep-Sorted _ m.locks s
step-Sorted now (releases_file path) m s = sweep-Sorted _ m.locks s
step-Sorted now cleans_up m s = remove_expired-Sorted now m s
step-Sorted now clears m s = tt
step-Sorted now (tests path t off len owner out) m s = remove_expired-Sorted now m s
step-Sorted now (locks_nlm path t off len owner) m s = acquire-Sorted now path t off len owner m s
step-Sorted now (unlocks path off len owner) m s = sweep-Sorted _ m.locks s

-- Every history keeps one entry for each id, in the order of the ids.
pub run-Sorted :
    (now : ℕ) (rs : List (ℕ × Request)) (m : LockManager)
    → Sorted m.locks
    → Sorted (run now rs m).1.locks
unfolding run
run-Sorted now [] m s = s
run-Sorted now ((wait, r) ∷ rs) m s =
    run-Sorted (now + wait) rs (step (now + wait) r m) (step-Sorted (now + wait) r m s)

-- Every id in the table is below the bound.
abbrev pub IdsBelow : ℕ → Locks → Type 0
IdsBelow n m = All (λ e. e.0 < n) m

IdsBelow-Fresh : (n : ℕ) (m : Locks) → IdsBelow n m → find n m ≡ none
IdsBelow-Fresh n m h =
    Fresh-find n m
      (All-map (λ e. e.0 < n) (λ e. nat_key.same e.0 n ≡ false) (λ e b. ground arith) m h)

IdsBelow-suc : (n : ℕ) (m : Locks) → IdsBelow n m → IdsBelow (n + 1) m
IdsBelow-suc n m = All-map (λ e. e.0 < n) (λ e. e.0 < n + 1) (λ e b. omega arith) m

-- The state after a grant.
granted : FileLock → LockManager → LockManager
granted q m = record {
  locks = insert m.next_lock_id q m.locks;
  next_lock_id = (m.next_lock_id + 1) % uint32_mod;
}

acquire_lock-granted :
    (now : ℕ) (path : String) (t : LockType) (off len : ℕ) (owner : LockOwner) (m m' : LockManager)
    (id : ℕ)
    → acquire_lock now path t off len owner m ≡ (m', some id)
    → (granted (file_lock now path t off len owner) (remove_expired_locks now m) ≡ m')
      × (id ≡ m.next_lock_id)
unfolding acquire_lock granted remove_expired_locks
acquire_lock-granted now path t off len owner m m' id e = (ground arith, ground arith)

granted-IdsBelow :
    (now : ℕ) (q : FileLock) (m : LockManager)
    → IdsBelow m.next_lock_id m.locks
    → m.next_lock_id + 1 < uint32_mod
    → IdsBelow
        (granted q (remove_expired_locks now m)).next_lock_id
        (granted q (remove_expired_locks now m)).locks
unfolding granted remove_expired_locks
granted-IdsBelow now q m b h =
    let e : (m.next_lock_id + 1) % uint32_mod ≡ m.next_lock_id + 1 = omega arith in
    rw (e, sweep_lem (λ e. is_expired now e.1 || not e.1.is_valid) m.locks)
      (All-insert (λ e. e.0 < m.next_lock_id + 1) m.next_lock_id q _ (omega arith)
        (All-keep_if _ _ m.locks (IdsBelow-suc m.next_lock_id m.locks b)))

-- While the id counter has not reached 2 ^ 32 - 1, a grant takes an id that is not in the table, and
-- leaves every id below the counter.
acquire_lock-fresh :
    (now : ℕ) (path : String) (t : LockType) (off len : ℕ) (owner : LockOwner) (m m' : LockManager)
    (id : ℕ)
    → IdsBelow m.next_lock_id m.locks
    → m.next_lock_id + 1 < uint32_mod
    → acquire_lock now path t off len owner m ≡ (m', some id)
    → (find id m.locks ≡ none) × IdsBelow m'.next_lock_id m'.locks
acquire_lock-fresh now path t off len owner m m' id b h e =
    let (after, taken) = acquire_lock-granted now path t off len owner m m' id e in
    (
      rw taken (IdsBelow-Fresh m.next_lock_id m.locks b),
      subst (λ (r : LockManager). IdsBelow r.next_lock_id r.locks) after
          (granted-IdsBelow now (file_lock now path t off len owner) m b h),
    )
