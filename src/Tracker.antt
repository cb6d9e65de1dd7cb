-- ===== src/Tracker.antt =====
-- include/simple-nfsd/utils/access_tracker.hpp and src/simple-nfsd/utils/access_tracker.cpp: which
-- files are open, by whom and how shared.
-- The mutex is not recursive, and openFile calls canOpenFile with it held, so it is modelled: a call
-- that locks it while it holds it never returns, `stuck`. The steady clock is an argument, in
-- nanoseconds.
pub mod Sharing
pub mod Opening
mod Runs
use simple_nfsd.Prelude.{
  ℕ, ◌+◌, ◌-◌, ◌*◌, ◌%◌, ◌^◌, String, Bool, true, false, ◌&&◌, ◌||◌, not, List, [], ◌∷◌, Option,
  none, some, ltb, ◌==◌, if◌then◌else◌, keep_if, any_of, str_eq,
}
use simple_nfsd.Prelude.{length}
use simple_nfsd.Map.{find, insert, erase, sweep, values, nat_key}

pub data FileAccessMode : Type 0 where
  read_only write_only read_write append : FileAccessMode

pub data FileSharingMode : Type 0 where
  exclusive shared_read shared_write shared_all : FileSharingMode

pub record FileOpenState : Type 0 where
  pub file_path : String
  pub client_id : ℕ
  pub process_id : ℕ
  pub access_mode : FileAccessMode
  pub sharing_mode : FileSharingMode
  pub opened_at : ℕ
  pub last_accessed : ℕ
  pub is_valid : Bool

abbrev pub Opens : Type 0
Opens = List (ℕ × FileOpenState)

pub record FileAccessTracker : Type 0 where
  pub locked : Bool
  pub open_files : Opens
  pub next_open_id : ℕ

unfoldable pub tracker : FileAccessTracker
tracker = record { locked = false; open_files = []; next_open_id = 1 }

-- What a call does: it returns a value and the tracker, or it waits for a mutex that it holds.
pub data Result {ℓ} (A : Type ℓ) : Type ℓ where
  returns : A → FileAccessTracker → Result A
  stuck : Result A

infixl 5 ◌>>=◌
abbrev pub ◌>>=◌ {ℓ κ} :
    {A : Type ℓ} {B : Type κ} → Result A → (A × FileAccessTracker → Result B) → Result B
returns a t >>= f = f (a, t)
stuck >>= f = stuck

abbrev pub unlock {ℓ} : {A : Type ℓ} → Result A → Result A
unlock (returns a t) = returns a (record t { locked = false })
unlock stuck = stuck

-- std::lock_guard around a body.
unfoldable pub guarded {ℓ} :
    {A : Type ℓ} → FileAccessTracker → (FileAccessTracker → Result A) → Result A
guarded t body = if t.locked then stuck else unlock (body (record t { locked = true }))

abbrev pub is_writing : FileAccessMode → Bool
is_writing read_only = false
is_writing write_only = true
is_writing read_write = true
is_writing append = true

abbrev pub is_exclusive : FileSharingMode → Bool
is_exclusive exclusive = true
is_exclusive other = false

abbrev pub shares_writes : FileSharingMode → Bool
shares_writes exclusive = false
shares_writes shared_read = false
shares_writes shared_write = true
shares_writes shared_all = true

unfoldable pub check_sharing_conflict : FileOpenState → FileAccessMode → FileSharingMode → Bool
check_sharing_conflict existing mode sharing =
    if is_exclusive existing.sharing_mode || is_exclusive sharing
    then true
    else (if is_writing existing.access_mode && is_writing mode
        then (if not (shares_writes existing.sharing_mode) && not (shares_writes sharing)
            then true
            else false)
        else false)

-- The loop of canOpenFile.
unfoldable pub can_open_loop : String → FileAccessMode → FileSharingMode → ℕ → Opens → Bool
can_open_loop path mode sharing client [] = true
can_open_loop path mode sharing client ((id, existing) ∷ rest) =
    let next = can_open_loop path mode sharing client rest in
    if not existing.is_valid
    then next
    else (if existing.client_id == client && str_eq existing.file_path path
        then next
        else (if str_eq existing.file_path path
            then (if check_sharing_conflict existing mode sharing then false else next)
            else next))

unfoldable pub can_open_file :
    String → FileAccessMode → FileSharingMode → ℕ → FileAccessTracker → Result Bool
can_open_file path mode sharing client t =
    guarded t (λ u. returns (can_open_loop path mode sharing client u.open_files) u)

-- std::chrono::hours(1)
abbrev pub open_timeout : ℕ
open_timeout = 3600 * 1_000_000_000

abbrev pub is_stale : ℕ → FileOpenState → Bool
is_stale now o = ltb open_timeout (now - o.last_accessed) || not o.is_valid

unfoldable pub remove_expired_opens : ℕ → FileAccessTracker → FileAccessTracker
remove_expired_opens now t = record t {
  open_files = (sweep (λ e. is_stale now e.1) t.open_files).0;
}

-- What openFile does after the answer of canOpenFile: `none` is false, `some id` sets `open_id`.
unfoldable pub open_allowed :
    ℕ
    → String
    → ℕ
    → ℕ
    → FileAccessMode
    → FileSharingMode
    → Bool
    → FileAccessTracker
    → Result (Option ℕ)
open_allowed now path client process mode sharing allowed t =
    if not allowed
    then returns none t
    else returns (some t.next_open_id) (record t {
      next_open_id = (t.next_open_id + 1) % 2 ^ 32;
      open_files =
          insert t.next_open_id
            (record {
              file_path = path;
              client_id = client;
              process_id = process;
              access_mode = mode;
              sharing_mode = sharing;
              opened_at = now;
              last_accessed = now;
              is_valid = true;
            })
            t.open_files;
    })

unfoldable pub open_file :
    ℕ → String → ℕ → ℕ → FileAccessMode → FileSharingMode → FileAccessTracker → Result (Option ℕ)
open_file now path client process mode sharing t = guarded t λ u.
    can_open_file path mode sharing client (remove_expired_opens now u) >>= λ r.
    open_allowed now path client process mode sharing r.0 r.1

unfoldable pub close_found : ℕ → ℕ → Option FileOpenState → FileAccessTracker → Result Bool
close_found id client none t = returns false t
close_found id client (some o) t =
    if o.client_id == client
    then returns true (record t { open_files = erase id t.open_files })
    else returns false t

unfoldable pub close_file : ℕ → ℕ → FileAccessTracker → Result Bool
close_file id client t = guarded t (λ u. close_found id client (find id u.open_files) u)

-- The erasing loop over the opens that pass the test.
abbrev pub close_if : (FileOpenState → Bool) → FileAccessTracker → Result Bool
close_if p u =
    let (rest, closed) = sweep (λ e. p e.1) u.open_files in
    returns closed (record u { open_files = rest })

unfoldable pub close_file_for_client : ℕ → FileAccessTracker → Result Bool
close_file_for_client client t = guarded t (close_if (λ o. o.client_id == client))

unfoldable pub close_file_for_path : String → FileAccessTracker → Result Bool
close_file_for_path path t = guarded t (close_if (λ o. str_eq o.file_path path))

unfoldable pub is_file_open : String → FileAccessTracker → Result Bool
is_file_open path t =
    guarded t
      (λ u. returns (any_of (λ e. str_eq e.1.file_path path && e.1.is_valid) u.open_files) u)

unfoldable pub get_open_files : String → FileAccessTracker → Result (List FileOpenState)
get_open_files path t = guarded t (λ u.
    returns (values (keep_if (λ e. str_eq e.1.file_path path && e.1.is_valid) u.open_files)) u)

unfoldable pub get_open_files_for_client : ℕ → FileAccessTracker → Result (List FileOpenState)
get_open_files_for_client client t =
    guarded t (λ u.
      returns (values (keep_if (λ e. e.1.client_id == client && e.1.is_valid) u.open_files)) u)

-- The two update methods: a change of a valid open, and a new access time.
unfoldable pub update_found :
    ℕ → ℕ → (FileOpenState → FileOpenState) → Option FileOpenState → FileAccessTracker → Result Bool
update_found now id change none t = returns false t
update_found now id change (some o) t =
    if o.is_valid
    then returns true (record t {
      open_files = insert id (record (change o) { last_accessed = now }) t.open_files;
    })
    else returns false t

unfoldable pub update_access_mode : ℕ → ℕ → FileAccessMode → FileAccessTracker → Result Bool
update_access_mode now id mode t =
    guarded t
      (λ u. update_found now id (λ o. record o { access_mode = mode }) (find id u.open_files) u)

unfoldable pub update_sharing_mode : ℕ → ℕ → FileSharingMode → FileAccessTracker → Result Bool
update_sharing_mode now id mode t =
    guarded t
      (λ u. update_found now id (λ o. record o { sharing_mode = mode }) (find id u.open_files) u)

unfoldable pub cleanup_expired_opens : ℕ → FileAccessTracker → Result (Unit {0})
cleanup_expired_opens now t = guarded t (λ u. returns tt (remove_expired_opens now u))

unfoldable pub clear_all_opens : FileAccessTracker → Result (Unit {0})
clear_all_opens t = guarded t (λ u. returns tt (record u { open_files = [] }))

unfoldable pub get_open_file_count : FileAccessTracker → Result ℕ
get_open_file_count t = guarded t (λ u. returns (length u.open_files) u)
