-- ===== src/Lock/Exclusion.antt =====
-- Mutual exclusion: no two live locks of different owners conflict, whatever is called and when.
use simple_nfsd.Prelude.{
  ℕ, ◌+◌, ◌≤◌, ◌≡◌, String, Bool, true, false, ◌&&◌, not, List, [], ◌∷◌, if◌then◌else◌, keep_if,
  arith, Bool-cases, inl, inr, All, All-keep_if, All-map,
}
use simple_nfsd.Map.{insert, erase, sweep, nat_key}
use simple_nfsd.Map.Laws.{sweep_lem, All-insert}
use simple_nfsd.Lock.Range.{overlaps_comm}
use simple_nfsd.Lock.Conflict.{live, blocks, blocked, remove_expired-locks, can_acquire-blocked}
use simple_nfsd.Lock.{
  LockType, LockOwner, FileLock, Locks, LockManager, NlmLock, file_lock, is_expired, same_owner,
  lock_manager, remove_expired_locks, can_acquire_lock, acquire_lock, release_lock,
  release_locks_for_owner, release_locks_for_file, cleanup_expired_locks, clear_all_locks, nlm_test,
  nlm_lock, nlm_unlock,
}

-- The two locks may stand side by side: one of them is over, or they have one owner, or they do not
-- overlap, or both are shared.
unfoldable pub compatible : ℕ → FileLock → FileLock → Bool
compatible now a b = not (live now a && blocks now a b)

-- Any two entries are compatible.
abbrev pub Exclusive : ℕ → Locks → Type 0
Exclusive now [] = Unit {0}
Exclusive now ((i, a) ∷ m) = All (λ e. compatible now a e.1 ≡ true) m × Exclusive now m

compatible_comm : (now : ℕ) (a b : FileLock) → compatible now a b ≡ compatible now b a
unfolding compatible blocks same_owner
compatible_comm now a b = ground (arith, overlaps_comm a b)

compatible_later :
    (now later : ℕ) (a b : FileLock)
    → now ≤ later
    → compatible now a b ≡ true
    → compatible later a b ≡ true
unfolding compatible blocks live is_expired
compatible_later now later a b h c = ground arith

-- Time only ends locks.
pub Exclusive-later :
    (now later : ℕ) (m : Locks) → now ≤ later → Exclusive now m → Exclusive later m
Exclusive-later now later [] h x = tt
Exclusive-later now later ((i, a) ∷ m) h x = (
  All-map (λ e. compatible now a e.1 ≡ true) (λ e. compatible later a e.1 ≡ true)
      (λ e. compatible_later now later a e.1 h) m x.0,
  Exclusive-later now later m h x.1,
)

pub Exclusive-keep_if :
    (now : ℕ) (p : ℕ × FileLock → Bool) (m : Locks) → Exclusive now m → Exclusive now (keep_if p m)
Exclusive-keep_if now p [] x = tt
Exclusive-keep_if now p ((i, a) ∷ m) x = go (p (i, a)) (Exclusive-keep_if now p m x.1)
  where
    go :
        (b : Bool)
        → Exclusive now (keep_if p m)
        → Exclusive now (if b then (i, a) ∷ keep_if p m else keep_if p m)
    go true r = (All-keep_if _ p m x.0, r)
    go false r = r

Exclusive-insert :
    (now k : ℕ) (q : FileLock) (m : Locks)
    → All (λ e. compatible now q e.1 ≡ true) m
    → Exclusive now m
    → Exclusive now (insert k q m)
unfolding insert
Exclusive-insert now k q [] c x = (tt, tt)
Exclusive-insert now k q ((i, a) ∷ m) c x = elim (Bool-cases (nat_key.same i k)) [
  | inl hit ↦ rw hit (c.1, x.1)
  | inr miss ↦ elim (Bool-cases (nat_key.before k i)) [
    | inl lower ↦ rw (miss, lower) (c, x)
    | inr higher ↦
        rw (miss, higher)
          (
            All-insert (λ e. compatible now a e.1 ≡ true) k q m (rw (compatible_comm now a q) c.0)
                x.0,
            Exclusive-insert now k q m c.1 x.1,
          )
  ]
]

not_blocked-compatible :
    (now : ℕ) (q : FileLock) (m : Locks)
    → blocked now q m ≡ false
    → All (λ e. compatible now q e.1 ≡ true) m
unfolding compatible
not_blocked-compatible now q [] h = tt
not_blocked-compatible now q ((i, a) ∷ m) h =
    (ground arith, not_blocked-compatible now q m (ground arith))

remove_expired-Exclusive :
    (now : ℕ) (m : LockManager)
    → Exclusive now m.locks
    → Exclusive now (remove_expired_locks now m).locks
remove_expired-Exclusive now m x =
    rw (remove_expired-locks now m) (Exclusive-keep_if now _ m.locks x)

sweep-Exclusive :
    (now : ℕ) (p : ℕ × FileLock → Bool) (m : Locks) → Exclusive now m → Exclusive now (sweep p m).0
sweep-Exclusive now p m x = rw (sweep_lem p m) (Exclusive-keep_if now _ m x)

acquire-Exclusive :
    (now : ℕ) (path : String) (t : LockType) (off len : ℕ) (owner : LockOwner) (m : LockManager)
    → Exclusive now m.locks
    → Exclusive now (acquire_lock now path t off len owner m).0.locks
unfolding acquire_lock file_lock
acquire-Exclusive now path t off len owner m x =
    let m' = remove_expired_locks now m in
    let q = file_lock now path t off len owner in
    let x' = remove_expired-Exclusive now m x in
    elim (Bool-cases (can_acquire_lock now q owner m'.locks)) [
      | inl granted ↦ rw granted (
          Exclusive-insert now m'.next_lock_id q m'.locks
            (not_blocked-compatible now q m'.locks
              (ground (arith, can_acquire-blocked now q m'.locks)))
            x')
      | inr refused ↦ rw refused x'
    ]

release-Exclusive :
    (now id : ℕ) (owner : LockOwner) (m : LockManager)
    → Exclusive now m.locks
    → Exclusive now (release_lock id owner m).0.locks
unfolding release_lock erase
release-Exclusive now id owner m x =
    ground (arith, Exclusive-keep_if now (λ e. not (nat_key.same e.0 id)) m.locks x)

-- The calls of the manager that may change its table.
pub data Request : Type 0 where
  acquires : String → LockType → ℕ → ℕ → LockOwner → Request
  releases : ℕ → LockOwner → Request
  releases_owner : LockOwner → Request
  releases_file : String → Request
  cleans_up : Request
  clears : Request
  tests : String → LockType → ℕ → ℕ → LockOwner → NlmLock → Request
  locks_nlm : String → LockType → ℕ → ℕ → LockOwner → Request
  unlocks : String → ℕ → ℕ → LockOwner → Request

unfoldable pub step : ℕ → Request → LockManager → LockManager
step now (acquires path t off len owner) m = (acquire_lock now path t off len owner m).0
step now (releases id owner) m = (release_lock id owner m).0
step now (releases_owner owner) m = (release_locks_for_owner owner m).0
step now (releases_file path) m = (release_locks_for_file path m).0
step now cleans_up m = cleanup_expired_locks now m
step now clears m = clear_all_locks m
step now (tests path t off len owner out) m = (nlm_test now path t off len owner out m).0
step now (locks_nlm path t off len owner) m = (nlm_lock now path t off len owner m).0
step now (unlocks path off len owner) m = (nlm_unlock now path off len owner m).0

-- Every call keeps the table exclusive at the instant of the call.
pub step-Exclusive :
    (now : ℕ) (r : Request) (m : LockManager)
    → Exclusive now m.locks
    → Exclusive now (step now r m).locks
unfolding step release_locks_for_owner release_locks_for_file cleanup_expired_locks clear_all_locks
    nlm_test nlm_lock nlm_unlock
step-Exclusive now (acquires path t off len owner) m x =
    acquire-Exclusive now path t off len owner m x
step-Exclusive now (releases id owner) m x = release-Exclusive now id owner m x
step-Exclusive now (releases_owner owner) m x = sweep-Exclusive now _ m.locks x
step-Exclusive now (releases_file path) m x = sweep-Exclusive now _ m.locks x
step-Exclusive now cleans_up m x = remove_expired-Exclusive now m x
step-Exclusive now clears m x = tt
step-Exclusive now (tests path t off len owner out) m x = remove_expired-Exclusive now m x
step-Exclusive now (locks_nlm path t off len owner) m x =
    acquire-Exclusive now path t off len owner m x
step-Exclusive now (unlocks path off len owner) m x = sweep-Exclusive now _ m.locks x

-- A history: each call with the time since the call before it.
unfoldable pub run : ℕ → List (ℕ × Request) → LockManager → ℕ × LockManager
run now [] m = (now, m)
run now ((wait, r) ∷ rs) m = run (now + wait) rs (step (now + wait) r m)

run-Exclusive_from :
    (now : ℕ) (rs : List (ℕ × Request)) (m : LockManager)
    → Exclusive now m.locks
    → Exclusive (run now rs m).0 (run now rs m).1.locks
unfolding run
run-Exclusive_from now [] m x = x
run-Exclusive_from now ((wait, r) ∷ rs) m x =
    run-Exclusive_from (now + wait) rs (step (now + wait) r m)
      (step-Exclusive (now + wait) r m (Exclusive-later now (now + wait) m.locks (omega arith) x))

-- After any history of calls from an empty manager, and at any later time, two live locks of
-- different owners conflict nowhere in the table.
pub run-Exclusive :
    (start wait : ℕ) (rs : List (ℕ × Request))
    → Exclusive ((run start rs lock_manager).0 + wait) (run start rs lock_manager).1.locks
run-Exclusive start wait rs =
    Exclusive-later (run start rs lock_manager).0 _ (run start rs lock_manager).1.locks
      (omega arith) (run-Exclusive_from start rs lock_manager empty)
  where
    empty : Exclusive start lock_manager.locks
    empty = unfold lock_manager in tt
