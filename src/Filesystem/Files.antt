-- ===== src/Filesystem/Files.antt =====
-- What FilesystemManager, src/simple-nfsd/core/filesystem.cpp, reads of files and directories.
-- Writing, renaming and removing, and the extended attributes, are single calls of the system and
-- left out.
use simple_nfsd.Prelude.{
  ℕ, ◌%◌, ◌^◌, Bool, true, false, List, [], ◌∷◌, Option, none, some, take, drop,
}
use simple_nfsd.Filesystem.{Host, Stat, FileAttributes, sanitize_path}

-- In these four, `none` is an exception, which is not caught.
unfoldable pub file_exists : Host → List ℕ → Option Bool
file_exists host path = host.exists (sanitize_path host path)

unfoldable pub is_directory : Host → List ℕ → Option Bool
is_directory host path = host.is_directory (sanitize_path host path)

unfoldable pub is_file : Host → List ℕ → Option Bool
is_file host path = host.is_regular_file (sanitize_path host path)

unfoldable pub is_symlink : Host → List ℕ → Option Bool
is_symlink host path = host.is_symlink (sanitize_path host path)

unfoldable pub generate_file_id : Host → List ℕ → ℕ
generate_file_id host path = host.hash path % 2 ^ 32

abbrev filled : Host → List ℕ → Option (ℕ × ℕ) → Option Stat → Option FileAttributes
filled host path none st = none
filled host path (some s) none = none
filled host path (some (type, perms)) (some st) = some (record {
  type = type;
  mode = perms % 2 ^ 32;
  nlink = st.st_nlink % 2 ^ 32;
  uid = st.st_uid % 2 ^ 32;
  gid = st.st_gid % 2 ^ 32;
  size = st.st_size % 2 ^ 64;
  blocks = st.st_blocks % 2 ^ 64;
  rdev = st.st_rdev % 2 ^ 32;
  blocksize = st.st_blksize % 2 ^ 64;
  fsid = st.st_dev % 2 ^ 64;
  fileid = generate_file_id host path;
  atime = st.st_atime % 2 ^ 64;
  mtime = st.st_mtime % 2 ^ 64;
  ctime = st.st_ctime % 2 ^ 64;
})

abbrev where_existing : Host → List ℕ → Option Bool → Option (Option FileAttributes)
where_existing host path none = none
where_existing host path (some false) = some none
where_existing host path (some true) = some (filled host path (host.status path) (host.stat path))

-- `none` is an exception of the first test, which is not caught; `some none` is false.
unfoldable pub get_file_attributes : Host → List ℕ → Option (Option FileAttributes)
get_file_attributes host path =
    let p = sanitize_path host path in where_existing host p (host.exists p)

abbrev part_of : ℕ → ℕ → Option (List ℕ) → Option (List ℕ)
part_of offset count none = none
part_of offset count (some contents) = some (take count (drop offset contents))

-- `none` is false.
unfoldable pub read_file : Host → List ℕ → ℕ → ℕ → Option (List ℕ)
read_file host path offset count = part_of offset count (host.open_input (sanitize_path host path))

abbrev push_entry :
    List ℕ
    → Option (Option FileAttributes)
    → Option (List (List ℕ × FileAttributes))
    → Option (List (List ℕ × FileAttributes))
push_entry name none rest = none
push_entry name (some none) rest = rest
push_entry name (some (some attrs)) none = none
push_entry name (some (some attrs)) (some rest) = some ((name, attrs) ∷ rest)

-- The entries whose attributes can be read; an exception on any of them ends the listing.
unfoldable pub list_directory :
    Host → List (List ℕ × List ℕ) → Option (List (List ℕ × FileAttributes))
list_directory host [] = some []
list_directory host ((name, path) ∷ es) =
    push_entry name (get_file_attributes host path) (list_directory host es)

abbrev listing_of : Host → Option (List (List ℕ × List ℕ)) → Option (List (List ℕ × FileAttributes))
listing_of host none = none
listing_of host (some es) = list_directory host es

-- Names and attributes; the member fileid of an entry is never set. `none` is false.
unfoldable pub read_directory : Host → List ℕ → Option (List (List ℕ × FileAttributes))
read_directory host path = listing_of host (host.entries (sanitize_path host path))
