-- ===== src/Server/Runs.antt =====
-- The server's version, handle and string theorems at concrete inputs.
use simple_nfsd.Prelude.{ℕ, List, ◌⊎◌, ◌+◌, ◌^◌, ◌≤◌, ◌<◌, ◌≡◌, refl, true, [], ◌∷◌, arith}
use simple_nfsd.Server.Versions.{
  get_supported_nfs_versions, is_nfs_version_supported, negotiate_nfs_version, best_version,
  or_highest, max_element, negotiate_nfs_version_lem,
}
use simple_nfsd.Text.{codes}
use simple_nfsd.Server.Handles.{
  Handles, no_handles, get_handle_for_path, get_path_from_handle, run, get_path_from_handle-run,
}

version_9 : negotiate_nfs_version 9 ≡ 4
unfolding negotiate_nfs_version get_supported_nfs_versions is_nfs_version_supported best_version
    or_highest max_element
version_9 = refl

version_1 : negotiate_nfs_version 1 ≡ 4
unfolding negotiate_nfs_version get_supported_nfs_versions is_nfs_version_supported best_version
    or_highest max_element
version_1 = refl

negotiate_nfs_version_lem_example :
    (is_nfs_version_supported (negotiate_nfs_version 9) ≡ true)
    × ((3 ≤ negotiate_nfs_version 9) ⊎ (9 < 3))
    × ((negotiate_nfs_version 9 ≤ 9) ⊎ ((9 < 3) × (3 ≤ negotiate_nfs_version 9)))
unfolding is_nfs_version_supported get_supported_nfs_versions
negotiate_nfs_version_lem_example = negotiate_nfs_version_lem 9 3 refl

-- A table that has wrapped round to handle 1, with its first path's entry taken over.
abbrev wrapped : Handles
wrapped = record {
  file_handles = (1, (codes "/a")) ∷ (2, (codes "/b")) ∷ [];
  next_handle_id = 2 ^ 32 + 1;
}

get_path_from_handle-run_example :
    let (h, s) = get_handle_for_path (codes "/b") (run ((codes "/a") ∷ []) no_handles) in
    (get_path_from_handle h (run ((codes "/a") ∷ (codes "/c") ∷ []) s) ≡ (codes "/b"))
    × (get_handle_for_path (codes "/b") (run ((codes "/a") ∷ (codes "/c") ∷ []) s)
        ≡ (h, run ((codes "/a") ∷ (codes "/c") ∷ []) s))
get_path_from_handle-run_example =
    get_path_from_handle-run ((codes "/a") ∷ []) ((codes "/a") ∷ (codes "/c") ∷ []) (codes "/b")
      (omega arith)

abbrev word : List ℕ
word = 1 ∷ 2 ∷ 3 ∷ 4 ∷ []
