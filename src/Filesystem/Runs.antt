-- ===== src/Filesystem/Runs.antt =====
-- FilesystemManager, src/simple-nfsd/core/filesystem.cpp, at concrete inputs.
use simple_nfsd.Prelude.{
  ℕ, ◌≡◌, refl, true, false, ◌||◌, List, [], ◌∷◌, none, some, leb, ◌==◌, arith,
}
use simple_nfsd.Text.{codes, equal, starts_with, contains}
use simple_nfsd.Map.{find, insert}
use simple_nfsd.Filesystem.{
  Host, Export, NfsServerConfig, FilesystemManager, FileAttributes, filesystem_manager,
  sanitize_path,
}
use simple_nfsd.Filesystem.Files.{get_file_attributes, generate_file_id}
use simple_nfsd.Filesystem.Caches.{
  get_cached_file_attributes, cached_or_fetched, fetch_attributes, valid_attributes, is_cache_valid,
  get_cached_file_content,
}
use simple_nfsd.Filesystem.Exports.{
  is_under, first_export, is_path_exported, is_subtree_check_enabled, parents, visited, admits,
  found_export, all_found, validate_subtree_access,
}
use simple_nfsd.Filesystem.Quotas.{check_quota, same_quota}
use simple_nfsd.Filesystem.History.{
  ManagerCall, stats_path, stores_content, loads_content, limits_user, step, after,
}
use simple_nfsd.Filesystem.Freshness.{IsFresh, get_cached_file_attributes-IsFresh}
use simple_nfsd.Filesystem.Contents.{stored, promised, get_cached_file_content-promised}
use simple_nfsd.Filesystem.Limits.{last_limit, check_quota-last_limit}
use simple_nfsd.Filesystem.Subtree.{IsAdmitted, validate_subtree_access-IsAdmitted}

-- A system where every path is canonical, and a regular file of the size given.
abbrev host_of_size : ℕ → Host
host_of_size size = record {
  canonical = some;
  lexically_normal = λ path. path;
  exists = λ path. some true;
  is_directory = λ path. some false;
  is_regular_file = λ path. some true;
  is_symlink = λ path. some false;
  status = λ path. some (1, 420);
  stat = λ path. some (record {
    st_nlink = 1;
    st_uid = 1000;
    st_gid = 1000;
    st_size = size;
    st_blocks = 8;
    st_rdev = 0;
    st_blksize = 4096;
    st_dev = 1;
    st_atime = 5;
    st_mtime = 5;
    st_ctime = 5;
  });
  hash = λ path. 7;
  entries = λ path. some [];
  open_input = λ path. some [];
}

abbrev export_at : List ℕ → List ℕ → Export
export_at path options = record {
  name = [];
  path = path;
  clients = [];
  options = options;
  comment = [];
}

abbrev config_with : List Export → NfsServerConfig
config_with exports = record { root_path = codes "/srv"; exports = exports }

-- getFileAttributes of the system above.
abbrev attributes_of_size : ℕ → FileAttributes
attributes_of_size size = record {
  type = 1;
  mode = 420;
  nlink = 1;
  uid = 1000;
  gid = 1000;
  size = size;
  blocks = 8;
  rdev = 0;
  blocksize = 4096;
  fsid = 1;
  fileid = 7;
  atime = 5;
  mtime = 5;
  ctime = 5;
}

-- The file was asked for at second 5, when it held 10 bytes.
abbrev asked : List (ℕ × Host × ManagerCall)
asked = (5_000_000_000, host_of_size 10, stats_path (codes "/srv/f")) ∷ []

-- Within 30 s the old size is answered, though the file has grown.
old_size :
    get_cached_file_attributes 34_000_000_000
      (host_of_size 99)
      (codes "/srv/f")
      (after (config_with []) asked)
    ≡ some (after (config_with []) asked, some (attributes_of_size 10))
unfolding after step get_cached_file_attributes cached_or_fetched fetch_attributes valid_attributes
    is_cache_valid get_file_attributes generate_file_id sanitize_path filesystem_manager find insert
    equal
old_size = refl

get_cached_file_attributes-IsFresh_example :
    IsFresh
      ((34_000_000_000, host_of_size 99, stats_path (codes "/srv/f")) ∷ asked)
      (codes "/srv/f")
      34_000_000_000
      (attributes_of_size 10)
get_cached_file_attributes-IsFresh_example =
    get_cached_file_attributes-IsFresh 34_000_000_000 (host_of_size 99) (codes "/srv/f")
      (config_with []) asked (after (config_with []) asked) (attributes_of_size 10) old_size

-- Stored at second 1 and again at second 40; looked for at second 70 in between another path.
abbrev storing : List (ℕ × Host × ManagerCall)
storing =
    (70_000_000_000, host_of_size 1, loads_content (codes "/srv/g"))
    ∷ ((40_000_000_000, host_of_size 1, stores_content (codes "/srv/f") (2 ∷ 3 ∷ []))
        ∷ ((1_000_000_000, host_of_size 1, stores_content (codes "/srv/f") (1 ∷ [])) ∷ []))

get_cached_file_content-promised_example :
    (get_cached_file_content 99_000_000_000 (codes "/srv/f") (after (config_with []) storing)).1
    ≡ promised 99_000_000_000 (stored (codes "/srv/f") storing)
get_cached_file_content-promised_example =
    get_cached_file_content-promised 99_000_000_000 (codes "/srv/f") (config_with []) storing
      (omega arith, (omega arith, (omega arith, tt)))

-- What is promised there: the second content, until it is 60 s old.
promised_content :
    (promised 99_000_000_000 (stored (codes "/srv/f") storing) ≡ some (2 ∷ 3 ∷ []))
    × (promised 100_000_000_000 (stored (codes "/srv/f") storing) ≡ none)
unfolding promised stored equal
promised_content = (refl, refl)

abbrev limiting : List (ℕ × Host × ManagerCall)
limiting = (1, host_of_size 1, limits_user (codes "/srv") 1000 50 100) ∷ []

check_quota-last_limit_example :
    check_quota (codes "/srv") 1000 101 (after (config_with []) limiting) ≡ (
      last_limit (codes "/srv") 1000 limiting == 0
      || leb 101 (last_limit (codes "/srv") 1000 limiting))
check_quota-last_limit_example =
    check_quota-last_limit (codes "/srv") 1000 101 (config_with []) limiting (omega arith)

-- The limit holds for the user that it is set for, and no other.
limits :
    (last_limit (codes "/srv") 1000 limiting ≡ 100) × (last_limit (codes "/srv") 1001 limiting ≡ 0)
unfolding last_limit same_quota equal
limits = (refl, refl)

abbrev checking : FilesystemManager
checking = record (filesystem_manager (config_with [])) {
  config = config_with (export_at (codes "/srv") (codes "rw,subtree_check") ∷ []);
}

-- An export two levels deep, whose options say that there is no check.
abbrev deep : FilesystemManager
deep = record (filesystem_manager (config_with [])) {
  config = config_with (export_at (codes "/srv/nfs") (codes "rw,no_subtree_check") ∷ []);
}

validate_subtree_access-IsAdmitted_example :
    IsAdmitted (host_of_size 1) (codes "10.0.0.1") (codes "/srv") checking.config.exports
unfolding sanitize_path is_subtree_check_enabled validate_subtree_access all_found found_export
    admits is_under first_export visited parents equal starts_with contains
validate_subtree_access-IsAdmitted_example =
    validate_subtree_access-IsAdmitted (host_of_size 1) (codes "/srv/f") (codes "10.0.0.1")
      (codes "srv") (codes "f") checking (refl, (refl, (refl, tt))) refl refl refl

-- It checks all the same, and refuses the path that it exports; a path beside it counts as exported.
deep_export :
    (is_subtree_check_enabled (host_of_size 1) (codes "/srv/nfs/f") deep ≡ true)
    × (validate_subtree_access (host_of_size 1) (codes "/srv/nfs/f") (codes "10.0.0.1") deep
        ≡ false)
    × (is_path_exported (host_of_size 1) (codes "/srv/nfs-private/f") deep ≡ true)
unfolding sanitize_path is_subtree_check_enabled validate_subtree_access all_found found_export
    admits is_under first_export visited parents equal starts_with contains is_path_exported
deep_export = (refl, refl, refl)
