-- ===== src/Nfs2.antt =====
-- What the NFSv2 procedures of src/simple-nfsd/core/server_simple.cpp stand on: the state they share,
-- the files they are given, and the way a procedure ends. Paths and names are bytes. A procedure fails
-- by a test or by an exception, which it catches, and counts either in failed_requests_; `faults` is
-- a read outside the message. Counters are atomic, and log output is left out.
pub mod Attributes
pub mod Reading
pub mod Changing
pub mod Links
pub mod Stuck
pub mod Bootstrap
pub mod Creation
pub mod Uncounted
pub mod Only
pub mod Targets
pub mod Guarded
pub mod Lookup
pub mod Counting
pub mod Overruns
pub mod Contents
pub mod Samples
mod Runs
pub mod Calls
use simple_nfsd.Prelude.{
  ℕ, ◌+◌, ◌%◌, ◌^◌, Bool, true, false, ◌&&◌, not, List, [], ◌∷◌, ◌++◌, Option, none, some, leb,
  ◌==◌, if◌then◌else◌, length, is_some,
}
use simple_nfsd.Bytes.{Outcome, ok, thrown, fault, read_uint32, slice}
use simple_nfsd.Rpc.{RpcMessage, auth_none, create_reply}
use simple_nfsd.Auth.{AuthContext, check_path_access}
use simple_nfsd.Security.{SecurityManager}
use simple_nfsd.Text.{starts_with}
use simple_nfsd.Server.Handles.{Handles, get_handle_for_path, get_path_from_handle}

-- What the operating system and std::filesystem answer and do; `none` is an exception.
pub record Files (F : Type 0) : Type 0 where
  pub exists : F → List ℕ → Option Bool
  pub is_directory : F → List ℕ → Option Bool
  pub is_regular_file : F → List ℕ → Option Bool
  pub is_empty : F → List ℕ → Option Bool
  pub file_size : F → List ℕ → Option ℕ
  pub permissions : F → List ℕ → Option ℕ
  pub canonical : F → List ℕ → Option (List ℕ)
  -- capacity and available of space_info
  pub space : F → List ℕ → Option (ℕ × ℕ)
  -- the names that directory_iterator yields until its end or an error
  pub entries : F → List ℕ → List (List ℕ)
  -- the bytes of a file that opens for reading
  pub contents : F → List ℕ → Option (List ℕ)
  -- an ofstream opened with std::ios::app: false where opening or writing fails
  pub append : F → List ℕ → List ℕ → F × Bool
  -- an ofstream opened and closed: whether it opened
  pub create_file : F → List ℕ → F × Bool
  pub touch : F → List ℕ → F × Option (Unit {0})
  pub create_directory : F → List ℕ → F × Option Bool
  pub remove : F → List ℕ → F × Option Bool
  pub rename : F → List ℕ → List ℕ → F × Option (Unit {0})
  pub create_hard_link : F → List ℕ → List ℕ → F × Option (Unit {0})
  pub create_symlink : F → List ℕ → List ℕ → F × Option (Unit {0})

-- The members of NfsServerSimple that the procedures use, with the files.
pub record State (F : Type 0) : Type 0 where
  pub files : F
  pub handles : Handles
  pub has_auth_manager : Bool
  pub security : SecurityManager
  pub root_path : List ℕ
  pub successful_requests : ℕ
  pub failed_requests : ℕ
  pub bytes_read : ℕ
  pub bytes_written : ℕ

pub data Attempt (A : Type 0) : Type 0 where
  done : A → Attempt A
  fails faults : Attempt A

-- A part of a procedure: the state is kept where it fails.
abbrev pub Handler : Type 0 → Type 0 → Type 0
Handler F A = State F → State F × Attempt A

abbrev pub and_then :
    {F A B : Type 0} → (A → Handler F B) → State F × Attempt A → State F × Attempt B
and_then f (s, done a) = f a s
and_then f (s, fails) = (s, fails)
and_then f (s, faults) = (s, faults)

infixl 5 ◌>>=◌ ◌>>◌
abbrev pub ◌>>=◌ : {F A B : Type 0} → Handler F A → (A → Handler F B) → Handler F B
◌>>=◌ m f s = and_then f (m s)

abbrev pub ◌>>◌ : {F A B : Type 0} → Handler F A → Handler F B → Handler F B
m >> k = m >>= λ u. k

abbrev pub attempt : {A : Type 0} → Option A → Attempt A
attempt none = fails
attempt (some a) = done a

-- `if (!test) { failed_requests_++; return; }`
abbrev pub holds : Bool → Attempt (Unit {0})
holds true = done tt
holds false = fails

unfoldable pub require : {F : Type 0} → Bool → Handler F (Unit {0})
require test s = (s, holds test)

-- A question to the files, and a call that changes them; an exception fails.
unfoldable pub ask : {F A : Type 0} → (F → Option A) → Handler F A
ask question s = (s, attempt (question s.files))

unfoldable pub change : {F A : Type 0} → (F → F × Option A) → Handler F A
change call s = let r = call s.files in (record s { files = r.0 }, attempt r.1)

abbrev pub read_word : Outcome ℕ → Attempt ℕ
read_word (ok v) = done v
read_word (thrown e) = faults
read_word fault = faults

-- memcpy of 4 bytes of the message, and ntohl.
unfoldable pub word : {F : Type 0} → List ℕ → ℕ → Handler F ℕ
word bytes offset s = (s, read_word (read_uint32 bytes offset))

-- `n` bytes of the message.
unfoldable pub bytes_at : {F : Type 0} → List ℕ → ℕ → ℕ → Handler F (List ℕ)
bytes_at bytes offset n s =
    (s, if leb (offset + n) (length bytes) then done (slice bytes offset n) else faults)

abbrev pub is_nonempty : List ℕ → Bool
is_nonempty path = not (length path == 0)

-- getPathFromHandle, and the test that follows it everywhere.
unfoldable pub path_of : {F : Type 0} → ℕ → Handler F (List ℕ)
path_of handle s =
    let path = get_path_from_handle handle s.handles in
    (s, if is_nonempty path then done path else fails)

unfoldable pub check_access :
    {F : Type 0} → List ℕ → AuthContext → Bool → Bool → Handler F (Unit {0})
check_access path context read write s =
    (s, holds (s.has_auth_manager && check_path_access path context read write))

abbrev pub ends_in_slash : List ℕ → Bool
ends_in_slash [] = false
ends_in_slash (c ∷ []) = c == b'/'
ends_in_slash (c ∷ d ∷ s) = ends_in_slash (d ∷ s)

-- `full_path = dir; if (full_path.back() != '/') full_path += "/"; full_path += name;`
unfoldable pub child : List ℕ → List ℕ → List ℕ
child dir name =
    (if is_nonempty dir && not (ends_in_slash dir) then dir ++ (b'/' ∷ []) else dir) ++ name

abbrev pub is_absolute : List ℕ → Bool
is_absolute [] = false
is_absolute (c ∷ s) = c == b'/'

-- std::filesystem::path(root) / path
unfoldable pub join : List ℕ → List ℕ → List ℕ
unfolding child
join root path = if is_absolute path then path else child root path

abbrev pub is_below : Option (List ℕ) → Option (List ℕ) → Bool
is_below none path = false
is_below (some root) none = false
is_below (some root) (some path) = starts_with path root

-- The members of the class that the procedures call.
module _ {F : Type 0} (os : Files F) where
  unfoldable pub validate_path : List ℕ → State F → Bool
  unfolding join
  validate_path path s =
      is_below (os.canonical s.files s.root_path) (os.canonical s.files (join s.root_path path))

  unfoldable pub require_valid : List ℕ → Handler F (Unit {0})
  require_valid path s = (s, holds (validate_path path s))

-- config_.root_path / path
unfoldable pub full_path : {F : Type 0} → List ℕ → Handler F (List ℕ)
full_path path s = (s, done (join s.root_path path))

unfoldable pub handle_for : {F : Type 0} → List ℕ → Handler F ℕ
handle_for path s =
    let r = get_handle_for_path path s.handles in (record s { handles = r.1 }, done r.0)

unfoldable pub reply_with : {F : Type 0} → RpcMessage → List ℕ → Handler F RpcMessage
reply_with message bytes s =
    (s, done (create_reply message.header.xid 0 bytes (record { flavor = auth_none; body = [] })))

abbrev pub count_failed : {F : Type 0} → State F → State F
count_failed s = record s { failed_requests = (s.failed_requests + 1) % 2 ^ 64 }

-- How a procedure ends: the reply handed to sendReply, if any.
abbrev pub conclude :
    {F : Type 0} → State F × Attempt RpcMessage → Outcome (State F × Option RpcMessage)
conclude (s, done reply) = ok (s, some reply)
conclude (s, fails) = ok (count_failed s, none)
conclude (s, faults) = fault
