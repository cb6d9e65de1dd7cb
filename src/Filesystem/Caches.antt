-- ===== src/Filesystem/Caches.antt =====
-- The attribute and content caches and the list of recent changes of FilesystemManager,
-- src/simple-nfsd/core/filesystem.cpp.
use simple_nfsd.Prelude.{
  ℕ, ◌-◌, ◌/◌, Bool, true, false, List, [], ◌∷◌, ◌++◌, Option, none, some, ltb, if◌then◌else◌,
  length, drop,
}
use simple_nfsd.Map.{find, insert, erase}
use simple_nfsd.Text.Order.{text_key}
use simple_nfsd.Filesystem.{
  Host, FileAttributes, CachedAttributes, CachedContent, FilesystemManager,
}
use simple_nfsd.Filesystem.Files.{get_file_attributes}

-- The age in whole seconds.
abbrev pub age : ℕ → ℕ → ℕ
age now at = (now - at) / 1_000_000_000

unfoldable pub is_cache_valid : ℕ → CachedAttributes → Bool
is_cache_valid now cached = ltb (age now cached.cached_at) 30

-- The attributes of an entry that is found and valid.
unfoldable pub valid_attributes : ℕ → Option CachedAttributes → Option FileAttributes
valid_attributes now none = none
valid_attributes now (some cached) = if is_cache_valid now cached then some cached.attrs else none

unfoldable pub fetch_attributes :
    ℕ
    → List ℕ
    → FilesystemManager
    → Option (Option FileAttributes)
    → Option (FilesystemManager × Option FileAttributes)
fetch_attributes now path m none = none
fetch_attributes now path m (some none) = some (m, none)
fetch_attributes now path m (some (some attrs)) = some (
  record m {
    attribute_cache = insert path (record { attrs = attrs; cached_at = now }) m.attribute_cache;
  },
  some attrs,
)

unfoldable pub cached_or_fetched :
    ℕ
    → Host
    → List ℕ
    → FilesystemManager
    → Option FileAttributes
    → Option (FilesystemManager × Option FileAttributes)
cached_or_fetched now host path m (some attrs) = some (m, some attrs)
cached_or_fetched now host path m none = fetch_attributes now path m (get_file_attributes host path)

-- `none` is an exception, `some (m, none)` is false.
unfoldable pub get_cached_file_attributes :
    ℕ → Host → List ℕ → FilesystemManager → Option (FilesystemManager × Option FileAttributes)
get_cached_file_attributes now host path m =
    cached_or_fetched now host path m (valid_attributes now (find path m.attribute_cache))

unfoldable pub invalidate_attribute_cache : List ℕ → FilesystemManager → FilesystemManager
invalidate_attribute_cache path m = record m { attribute_cache = erase path m.attribute_cache }

unfoldable pub clear_attribute_cache : FilesystemManager → FilesystemManager
clear_attribute_cache m = record m { attribute_cache = [] }

unfoldable pub content_found :
    ℕ → List ℕ → FilesystemManager → Option CachedContent → FilesystemManager × Option (List ℕ)
content_found now path m none = (m, none)
content_found now path m (some cached) =
    if ltb (age now cached.cached_at) 60
    then (m, some cached.content)
    else (record m { content_cache = erase path m.content_cache }, none)

unfoldable pub get_cached_file_content :
    ℕ → List ℕ → FilesystemManager → FilesystemManager × Option (List ℕ)
get_cached_file_content now path m = content_found now path m (find path m.content_cache)

unfoldable pub cache_file_content : ℕ → List ℕ → List ℕ → FilesystemManager → FilesystemManager
cache_file_content now path content m = record m {
  content_cache = insert path (record { content = content; cached_at = now }) m.content_cache;
}

unfoldable pub invalidate_content_cache : List ℕ → FilesystemManager → FilesystemManager
invalidate_content_cache path m = record m { content_cache = erase path m.content_cache }

unfoldable pub clear_content_cache : FilesystemManager → FilesystemManager
clear_content_cache m = record m { content_cache = [] }

-- reloadExports clears the export cache, which holds nothing, and answers true.
unfoldable pub reload_export_config : FilesystemManager → FilesystemManager × Bool
reload_export_config m = (clear_content_cache (clear_attribute_cache m), true)

unfoldable pub start_monitoring : FilesystemManager → FilesystemManager × Bool
start_monitoring m =
    if m.monitoring_enabled
    then (m, true)
    else (record m { monitoring_enabled = true; recent_changes = [] }, true)

unfoldable pub stop_monitoring : FilesystemManager → FilesystemManager
stop_monitoring m = if m.monitoring_enabled then record m { monitoring_enabled = false } else m

-- What the monitoring thread does with an event that has a name.
unfoldable pub notice_change : List ℕ → FilesystemManager → FilesystemManager
notice_change name m =
    let changes = m.recent_changes ++ (name ∷ []) in
    record m { recent_changes = if ltb 100 (length changes) then drop 1 changes else changes }
