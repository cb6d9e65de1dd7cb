-- ===== src/Filesystem.antt =====
-- FilesystemManager of include/simple-nfsd/core/filesystem.hpp and
-- src/simple-nfsd/core/filesystem.cpp: its state, its life cycle and its table of file handles. Paths
-- are their bytes. What std::filesystem and the system answer is a parameter, `Host`; a steady clock
-- is an argument `now`, in nanoseconds. Left out are the export cache, which nothing reads or fills,
-- the lock manager, which is only handed out, and the monitoring thread itself.
pub mod Files
pub mod Caches
pub mod Exports
pub mod Quotas
pub mod History
pub mod Effects
pub mod Freshness
pub mod Contents
pub mod Limits
pub mod Subtree
mod Runs
use simple_nfsd.Prelude.{
  ℕ, ◌+◌, ◌%◌, ◌^◌, Bool, true, false, List, [], Option, none, some, if◌then◌else◌,
}
use simple_nfsd.Map.{nat_key, find, insert, erase}

-- What stat fills in.
pub record Stat : Type 0 where
  pub st_nlink : ℕ
  pub st_uid : ℕ
  pub st_gid : ℕ
  pub st_size : ℕ
  pub st_blocks : ℕ
  pub st_rdev : ℕ
  pub st_blksize : ℕ
  pub st_dev : ℕ
  pub st_atime : ℕ
  pub st_mtime : ℕ
  pub st_ctime : ℕ

-- The system at one instant. `none` is an exception, or a call that fails. `status` gives the type
-- and the permissions as numbers, `entries` the name and the path of each entry of a directory,
-- `open_input` the contents of a file that std::ifstream opens.
pub record Host : Type 0 where
  pub canonical : List ℕ → Option (List ℕ)
  pub lexically_normal : List ℕ → List ℕ
  pub exists : List ℕ → Option Bool
  pub is_directory : List ℕ → Option Bool
  pub is_regular_file : List ℕ → Option Bool
  pub is_symlink : List ℕ → Option Bool
  pub status : List ℕ → Option (ℕ × ℕ)
  pub stat : List ℕ → Option Stat
  pub hash : List ℕ → ℕ
  pub entries : List ℕ → Option (List (List ℕ × List ℕ))
  pub open_input : List ℕ → Option (List ℕ)

pub data FileType : Type 0 where
  directory regular not_found : FileType

pub record FileHandle : Type 0 where
  pub handle_id : ℕ
  pub path : List ℕ
  pub type : FileType
  pub created_at : ℕ
  pub last_accessed : ℕ

pub record FileAttributes : Type 0 where
  pub type : ℕ
  pub mode : ℕ
  pub nlink : ℕ
  pub uid : ℕ
  pub gid : ℕ
  pub size : ℕ
  pub blocks : ℕ
  pub rdev : ℕ
  pub blocksize : ℕ
  pub fsid : ℕ
  pub fileid : ℕ
  pub atime : ℕ
  pub mtime : ℕ
  pub ctime : ℕ

-- NfsServerConfig::Export and NfsServerConfig, of include/simple-nfsd/core/server_simple.hpp; the
-- fields about sockets are left out.
pub record Export : Type 0 where
  pub name : List ℕ
  pub path : List ℕ
  pub clients : List ℕ
  pub options : List ℕ
  pub comment : List ℕ

pub record NfsServerConfig : Type 0 where
  pub root_path : List ℕ
  pub exports : List Export

pub record CachedAttributes : Type 0 where
  pub attrs : FileAttributes
  pub cached_at : ℕ

pub record CachedContent : Type 0 where
  pub content : List ℕ
  pub cached_at : ℕ

pub record QuotaEntry : Type 0 where
  pub uid : ℕ
  pub soft_limit : ℕ
  pub hard_limit : ℕ
  pub used_bytes : ℕ

pub record FilesystemManager : Type 0 where
  pub config : NfsServerConfig
  pub file_handles : List (ℕ × FileHandle)
  pub next_handle_id : ℕ
  pub initialized : Bool
  pub attribute_cache : List (List ℕ × CachedAttributes)
  pub content_cache : List (List ℕ × CachedContent)
  pub monitoring_enabled : Bool
  pub recent_changes : List (List ℕ)
  pub quota_map : List ((List ℕ × ℕ) × QuotaEntry)

-- FilesystemManager(), over the configuration that its member holds.
unfoldable pub filesystem_manager : NfsServerConfig → FilesystemManager
filesystem_manager config = record {
  config = config;
  file_handles = [];
  next_handle_id = 1;
  initialized = false;
  attribute_cache = [];
  content_cache = [];
  monitoring_enabled = false;
  recent_changes = [];
  quota_map = [];
}

-- `created` is whether create_directories returns.
unfoldable pub initialize : Bool → NfsServerConfig → FilesystemManager → FilesystemManager × Bool
initialize created config m =
    if m.initialized
    then (m, true)
    else (if created
        then (record m { config = config; initialized = true }, true)
        else (record m { config = config }, false))

unfoldable pub shutdown : FilesystemManager → FilesystemManager
shutdown m = if m.initialized then record m { file_handles = []; initialized = false } else m

-- canonical, or lexically_normal where it throws.
abbrev or_normal : Host → List ℕ → Option (List ℕ) → List ℕ
or_normal host path (some normalized) = normalized
or_normal host path none = host.lexically_normal path

unfoldable pub sanitize_path : Host → List ℕ → List ℕ
sanitize_path host path = or_normal host path (host.canonical path)

-- The type of a handle, from what exists and is_directory answer; an exception is a missing file.
abbrev type_from : Option Bool → Option Bool → FileType
type_from (some true) (some true) = directory
type_from (some true) (some false) = regular
type_from (some true) none = not_found
type_from (some false) d = not_found
type_from none d = not_found

unfoldable pub create_file_handle : ℕ → Host → List ℕ → FilesystemManager → FilesystemManager × ℕ
create_file_handle now host path m =
    let p = sanitize_path host path in
    (
      record m {
        next_handle_id = (m.next_handle_id + 1) % 2 ^ 32;
        file_handles =
            insert m.next_handle_id
              (record {
                handle_id = m.next_handle_id;
                path = p;
                type = type_from (host.exists p) (host.is_directory p);
                created_at = now;
                last_accessed = now;
              })
              m.file_handles;
      },
      m.next_handle_id,
    )

-- updateFileHandleAccess on the entry found.
unfoldable pub touch : ℕ → ℕ → FileHandle → FilesystemManager → FilesystemManager
touch now id handle m = record m {
  file_handles = insert id (record handle { last_accessed = now }) m.file_handles;
}

abbrev pub get_found :
    ℕ → ℕ → FilesystemManager → Option FileHandle → FilesystemManager × Option FileHandle
get_found now id m none = (m, none)
get_found now id m (some handle) = (touch now id handle m, some handle)

-- The handle as it was before the access; `none` is false.
unfoldable pub get_file_handle : ℕ → ℕ → FilesystemManager → FilesystemManager × Option FileHandle
get_file_handle now id m = get_found now id m (find id m.file_handles)

abbrev pub validate_existing :
    ℕ → ℕ → FilesystemManager → FileHandle → Option Bool → Option (FilesystemManager × Bool)
validate_existing now id m handle none = none
validate_existing now id m handle (some true) = some (touch now id handle m, true)
validate_existing now id m handle (some false) =
    some (record m { file_handles = erase id m.file_handles }, false)

abbrev pub validate_known :
    ℕ → Host → ℕ → FilesystemManager → Option FileHandle → Option (FilesystemManager × Bool)
validate_known now host id m none = some (m, false)
validate_known now host id m (some handle) =
    validate_existing now id m handle (host.exists handle.path)

-- `none` is an exception of std::filesystem::exists, which is not caught.
unfoldable pub validate_file_handle :
    ℕ → Host → ℕ → FilesystemManager → Option (FilesystemManager × Bool)
validate_file_handle now host id m = validate_known now host id m (find id m.file_handles)

unfoldable pub release_file_handle : ℕ → FilesystemManager → FilesystemManager
release_file_handle id m = record m { file_handles = erase id m.file_handles }
