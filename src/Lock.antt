-- ===== src/Lock.antt =====
-- include/simple-nfsd/core/lock.hpp and src/simple-nfsd/core/lock.cpp: the lock manager.
-- Each method holds the manager's mutex from entry to exit, so it is one step. The steady clock is
-- an argument `now`, in nanoseconds, read once for a call.
pub mod Range
pub mod Exclusion
pub mod Conflict
pub mod Release
pub mod Ids
mod Runs
use simple_nfsd.Prelude.{
  ℕ, ◌+◌, ◌*◌, ◌%◌, ◌^◌, String, Bool, true, false, ◌&&◌, ◌||◌, not, List, [], ◌∷◌, Option, none,
  some, ltb, leb, ◌==◌, if◌then◌else◌, keep_if, str_eq, map,
}
use simple_nfsd.Prelude.{length as list_length}
use simple_nfsd.Map.{find, insert, erase, sweep, values, nat_key}

abbrev pub uint32_mod : ℕ
uint32_mod = 2 ^ 32

abbrev pub uint64_mod : ℕ
uint64_mod = 2 ^ 64

abbrev pub uint64_max : ℕ
uint64_max = 0xffff_ffff_ffff_ffff

-- std::chrono::hours(24)
abbrev pub lock_lifetime : ℕ
lock_lifetime = 24 * 3600 * 1_000_000_000

pub data LockType : Type 0 where
  shared exclusive : LockType

abbrev pub is_exclusive : LockType → Bool
is_exclusive shared = false
is_exclusive exclusive = true

pub record LockOwner : Type 0 where
  pub client_id : ℕ
  pub process_id : ℕ
  pub client_address : String
  pub acquired_at : ℕ

pub record FileLock : Type 0 where
  pub file_path : String
  pub type : LockType
  pub offset : ℕ
  pub length : ℕ
  pub owner : LockOwner
  pub expires_at : ℕ
  pub is_valid : Bool

-- The constructor of a valid lock.
unfoldable pub file_lock : ℕ → String → LockType → ℕ → ℕ → LockOwner → FileLock
file_lock now path t off len own = record {
  file_path = path;
  type = t;
  offset = off;
  length = len;
  owner = own;
  expires_at = now + lock_lifetime;
  is_valid = true;
}

-- A lock of length 0 runs to the end; the sum of two uint64_t wraps.
unfoldable pub range_end : FileLock → ℕ
range_end l = if l.length == 0 then uint64_max else (l.offset + l.length) % uint64_mod

unfoldable pub overlaps : FileLock → FileLock → Bool
overlaps a b =
    if str_eq a.file_path b.file_path
    then not (leb (range_end a) b.offset || leb (range_end b) a.offset)
    else false

unfoldable pub is_expired : ℕ → FileLock → Bool
is_expired now l = ltb l.expires_at now

unfoldable pub same_owner : LockOwner → LockOwner → Bool
same_owner a b = a.client_id == b.client_id && a.process_id == b.process_id

abbrev pub Locks : Type 0
Locks = List (ℕ × FileLock)

pub record LockManager : Type 0 where
  pub locks : Locks
  pub next_lock_id : ℕ

unfoldable pub lock_manager : LockManager
lock_manager = record { locks = []; next_lock_id = 1 }

unfoldable pub remove_expired_locks : ℕ → LockManager → LockManager
remove_expired_locks now m = record m {
  locks = (sweep (λ e. is_expired now e.1 || not e.1.is_valid) m.locks).0;
}

-- The loop of canAcquireLock over the entries not yet seen.
unfoldable pub can_acquire_lock : ℕ → FileLock → LockOwner → Locks → Bool
can_acquire_lock now requested owner [] = true
can_acquire_lock now requested owner ((id, existing) ∷ rest) =
    let next = can_acquire_lock now requested owner rest in
    if not existing.is_valid || is_expired now existing
    then next
    else (if same_owner existing.owner owner
        then next
        else (if overlaps requested existing
            then (if is_exclusive requested.type || is_exclusive existing.type then false else next)
            else next))

-- `none` is the result false; `some id` is true, with `lock_id` set.
unfoldable pub acquire_lock :
    ℕ → String → LockType → ℕ → ℕ → LockOwner → LockManager → LockManager × Option ℕ
acquire_lock now path t off len owner m =
    let m' = remove_expired_locks now m in
    let requested = file_lock now path t off len owner in
    if can_acquire_lock now requested owner m'.locks
    then (
      record {
        locks = insert m'.next_lock_id requested m'.locks;
        next_lock_id = (m'.next_lock_id + 1) % uint32_mod;
      },
      some m'.next_lock_id,
    )
    else (m', none)

-- What releaseLock does with the entry found under the id.
unfoldable pub release_found : ℕ → LockOwner → LockManager → Option FileLock → LockManager × Bool
release_found id owner m none = (m, false)
release_found id owner m (some l) =
    if same_owner l.owner owner then (record m { locks = erase id m.locks }, true) else (m, false)

unfoldable pub release_lock : ℕ → LockOwner → LockManager → LockManager × Bool
unfolding release_found
release_lock id owner m = release_found id owner m (find id m.locks)

unfoldable pub release_locks_for_owner : LockOwner → LockManager → LockManager × Bool
release_locks_for_owner owner m =
    let (rest, released) = sweep (λ e. same_owner e.1.owner owner) m.locks in
    (record m { locks = rest }, released)

unfoldable pub release_locks_for_file : String → LockManager → LockManager × Bool
release_locks_for_file path m =
    let (rest, released) = sweep (λ e. str_eq e.1.file_path path) m.locks in
    (record m { locks = rest }, released)

unfoldable pub has_lock : ℕ → LockManager → Bool
has_lock id m = elim (find id m.locks) [ none ↦ false | some l ↦ true ]

unfoldable pub get_lock : ℕ → ℕ → LockManager → Option FileLock
get_lock now id m = elim (find id m.locks) [
  | none ↦ none
  | some l ↦ if l.is_valid && not (is_expired now l) then some l else none
]

unfoldable pub get_locks_for_file : ℕ → String → LockManager → List FileLock
get_locks_for_file now path m =
    keep_if (λ l. str_eq l.file_path path && (l.is_valid && not (is_expired now l)))
      (values m.locks)

unfoldable pub get_locks_for_owner : ℕ → LockOwner → LockManager → List FileLock
get_locks_for_owner now owner m =
    keep_if (λ l. same_owner l.owner owner && (l.is_valid && not (is_expired now l)))
      (values m.locks)

-- The loop of checkLockConflict.
unfoldable pub conflict_loop : ℕ → FileLock → LockType → LockOwner → Locks → Bool
conflict_loop now requested t owner [] = false
conflict_loop now requested t owner ((id, existing) ∷ rest) =
    let next = conflict_loop now requested t owner rest in
    if not existing.is_valid || is_expired now existing
    then next
    else (if same_owner existing.owner owner
        then next
        else (if overlaps requested existing
            then (if is_exclusive t || is_exclusive existing.type then true else next)
            else next))

unfoldable pub check_lock_conflict : ℕ → String → LockType → ℕ → ℕ → LockOwner → LockManager → Bool
check_lock_conflict now path t off len owner m =
    conflict_loop now (file_lock now path t off len owner) t owner m.locks

unfoldable pub cleanup_expired_locks : ℕ → LockManager → LockManager
unfolding remove_expired_locks
cleanup_expired_locks now m = remove_expired_locks now m

unfoldable pub clear_all_locks : LockManager → LockManager
clear_all_locks m = record m { locks = [] }

unfoldable pub get_lock_count : LockManager → ℕ
get_lock_count m = list_length m.locks

pub record NlmLock : Type 0 where
  pub lock_id : ℕ
  pub file_path : String
  pub type : LockType
  pub offset : ℕ
  pub length : ℕ
  pub owner : LockOwner
  pub granted : Bool

-- The loop of nlmTest: the result, and what `conflicting_lock` holds then.
unfoldable pub nlm_test_loop :
    ℕ → FileLock → LockType → LockOwner → NlmLock → Locks → Bool × NlmLock
nlm_test_loop now requested t owner out [] = (false, record out { granted = true })
nlm_test_loop now requested t owner out ((id, existing) ∷ rest) =
    let next = nlm_test_loop now requested t owner out rest in
    if not existing.is_valid || is_expired now existing
    then next
    else (if same_owner existing.owner owner
        then next
        else (if overlaps requested existing
            then (if is_exclusive t || is_exclusive existing.type
                then (
                  true,
                  record {
                    lock_id = id;
                    file_path = existing.file_path;
                    type = existing.type;
                    offset = existing.offset;
                    length = existing.length;
                    owner = existing.owner;
                    granted = false;
                  },
                )
                else next)
            else next))

unfoldable pub nlm_test :
    ℕ
    → String
    → LockType
    → ℕ
    → ℕ
    → LockOwner
    → NlmLock
    → LockManager
    → LockManager × (Bool × NlmLock)
nlm_test now path t off len owner out m =
    let m' = remove_expired_locks now m in
    (m', nlm_test_loop now (file_lock now path t off len owner) t owner out m'.locks)

unfoldable pub nlm_lock :
    ℕ → String → LockType → ℕ → ℕ → LockOwner → LockManager → LockManager × Option ℕ
unfolding acquire_lock
nlm_lock now path t off len owner m = acquire_lock now path t off len owner m

-- Whether nlmUnlock erases a lock.
unfoldable pub unlock_matches : ℕ → String → ℕ → ℕ → LockOwner → FileLock → Bool
unlock_matches now path off len owner l =
    if str_eq l.file_path path && same_owner l.owner owner
    then (if off == 0 && len == 0
        then true
        else overlaps l (file_lock now path shared off len owner))
    else false

unfoldable pub nlm_unlock : ℕ → String → ℕ → ℕ → LockOwner → LockManager → LockManager × Bool
nlm_unlock now path off len owner m =
    let (rest, released) = sweep (λ e. unlock_matches now path off len owner e.1) m.locks in
    (record m { locks = rest }, released)
