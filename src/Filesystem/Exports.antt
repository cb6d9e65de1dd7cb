-- ===== src/Filesystem/Exports.antt =====
-- The exports of FilesystemManager, src/simple-nfsd/core/filesystem.cpp: which paths they hold, what
-- they allow, and the check of a path and all its parents. `find(p) == 0` is a prefix test.
use simple_nfsd.Prelude.{
  ℕ, Bool, true, false, ◌&&◌, ◌||◌, not, List, [], ◌∷◌, ◌++◌, Option, none, some, ◌==◌,
  if◌then◌else◌, length, map, any_of,
}
use simple_nfsd.Text.{codes, equal, starts_with, contains}
use simple_nfsd.Filesystem.{Host, Export, FilesystemManager, sanitize_path}

-- sanitized_path.find(export_path) == 0
unfoldable pub is_under : Host → List ℕ → Export → Bool
is_under host sanitized export = starts_with sanitized (sanitize_path host export.path)

-- isPathExported, isPathWithinExport and validateExportPath, which are the same code.
unfoldable pub is_path_exported : Host → List ℕ → FilesystemManager → Bool
is_path_exported host path m =
    let p = sanitize_path host path in
    if length m.config.exports == 0
    then starts_with p m.config.root_path
    else any_of (is_under host p) m.config.exports

-- The first export that holds the path.
unfoldable pub first_export : Host → List ℕ → List Export → Option Export
first_export host sanitized [] = none
first_export host sanitized (e ∷ es) =
    let rest = first_export host sanitized es in if is_under host sanitized e then some e else rest

unfoldable pub get_export_info : Host → List ℕ → FilesystemManager → Option Export
get_export_info host path m = first_export host (sanitize_path host path) m.config.exports

unfoldable pub resolve_export_path : Host → List ℕ → FilesystemManager → List ℕ
resolve_export_path host nfs_path m = sanitize_path host (m.config.root_path ++ nfs_path)

unfoldable pub list_exported_paths : FilesystemManager → List (List ℕ)
list_exported_paths m =
    if length m.config.exports == 0
    then m.config.root_path ∷ []
    else map (λ e. e.path) m.config.exports

abbrev checks_subtree : Option Export → Bool
checks_subtree none = false
checks_subtree (some e) = contains e.options (codes "subtree_check")

unfoldable pub is_subtree_check_enabled : Host → List ℕ → FilesystemManager → Bool
is_subtree_check_enabled host path m =
    checks_subtree (first_export host (sanitize_path host path) m.config.exports)

abbrev pub is_started : List ℕ → Bool
is_started [] = false
is_started (c ∷ front) = true

-- current_path and its parents, down to what is not empty and not `/`: for a path without doubled
-- slashes, as sanitizePath gives, parent_path cuts off the last slash and what follows.
-- `front` is what has been read of the path.
unfoldable pub parents : List ℕ → List ℕ → List (List ℕ) → List (List ℕ)
parents front [] found = front ∷ found
parents front (c ∷ s) found =
    if c == 47 && is_started front
    then parents (front ++ (c ∷ [])) s (front ∷ found)
    else parents (front ++ (c ∷ [])) s found

unfoldable pub visited : List ℕ → List (List ℕ)
visited path = if equal path [] || equal path (codes "/") then [] else parents [] path []

-- One export holds the path checked and lets the client in.
unfoldable pub admits : Host → List ℕ → List ℕ → Export → Bool
admits host client_ip checked e =
    (equal checked (sanitize_path host e.path) || is_under host checked e)
    && (length e.clients == 0 || contains e.clients client_ip)

unfoldable pub found_export : Host → List ℕ → FilesystemManager → List ℕ → Bool
found_export host client_ip m checked = any_of (admits host client_ip checked) m.config.exports

-- The loop over the path and its parents, which stops at the first that no export lets through.
unfoldable pub all_found : Host → List ℕ → FilesystemManager → List (List ℕ) → Bool
all_found host client_ip m [] = true
all_found host client_ip m (checked ∷ rest) =
    found_export host client_ip m checked && all_found host client_ip m rest

unfoldable pub validate_subtree_access : Host → List ℕ → List ℕ → FilesystemManager → Bool
validate_subtree_access host path client_ip m =
    if not (is_subtree_check_enabled host path m)
    then true
    else all_found host client_ip m (visited (sanitize_path host path))
