-- ===== src/Filesystem/Effects.antt =====
-- What the calls of FilesystemManager, src/simple-nfsd/core/filesystem.cpp, leave alone.
use simple_nfsd.Prelude.{ℕ, ◌≡◌, refl, Bool, true, false, Option, none, some, List, arith}
use simple_nfsd.Filesystem.{
  Host, NfsServerConfig, FilesystemManager, FileHandle, FileAttributes, CachedContent, initialize,
  shutdown, get_found, validate_existing, validate_known, touch,
}
use simple_nfsd.Filesystem.Caches.{
  cached_or_fetched, fetch_attributes, content_found, start_monitoring, stop_monitoring,
}
use simple_nfsd.Filesystem.History.{unless_thrown}

-- The quotas and the caches are as they were.
pub record Same (m n : FilesystemManager) : Type 0 where
  pub quotas : n.quota_map ≡ m.quota_map
  pub attributes : n.attribute_cache ≡ m.attribute_cache
  pub contents : n.content_cache ≡ m.content_cache

abbrev same : (m : FilesystemManager) → Same m m
same m = record { quotas = refl; attributes = refl; contents = refl }

pub initialize-Same :
    (created : Bool) (config : NfsServerConfig) (m : FilesystemManager)
    → Same m (initialize created config m).0
unfolding initialize
initialize-Same created config m = record {
  quotas = ground arith;
  attributes = ground arith;
  contents = ground arith;
}

pub shutdown-Same : (m : FilesystemManager) → Same m (shutdown m)
unfolding shutdown
shutdown-Same m = record {
  quotas = ground arith;
  attributes = ground arith;
  contents = ground arith;
}

pub get_found-Same :
    (now id : ℕ) (m : FilesystemManager) (found : Option FileHandle)
    → Same m (get_found now id m found).0
unfolding touch
get_found-Same now id m none = same m
get_found-Same now id m (some h) = record { quotas = refl; attributes = refl; contents = refl }

validate_existing-Same :
    (now id : ℕ) (m : FilesystemManager) (h : FileHandle) (there : Option Bool)
    → Same m (unless_thrown m (validate_existing now id m h there))
unfolding touch
validate_existing-Same now id m h none = same m
validate_existing-Same now id m h (some true) = record {
  quotas = refl;
  attributes = refl;
  contents = refl;
}
validate_existing-Same now id m h (some false) = record {
  quotas = refl;
  attributes = refl;
  contents = refl;
}

pub validate_known-Same :
    (now : ℕ) (host : Host) (id : ℕ) (m : FilesystemManager) (found : Option FileHandle)
    → Same m (unless_thrown m (validate_known now host id m found))
validate_known-Same now host id m none = same m
validate_known-Same now host id m (some h) = validate_existing-Same now id m h (host.exists h.path)

pub start_monitoring-Same : (m : FilesystemManager) → Same m (start_monitoring m).0
unfolding start_monitoring
start_monitoring-Same m = record {
  quotas = ground arith;
  attributes = ground arith;
  contents = ground arith;
}

pub stop_monitoring-Same : (m : FilesystemManager) → Same m (stop_monitoring m)
unfolding stop_monitoring
stop_monitoring-Same m = record {
  quotas = ground arith;
  attributes = ground arith;
  contents = ground arith;
}

-- A look at the content cache: only that cache can change.
pub content_found-caches :
    (now : ℕ) (path : List ℕ) (m : FilesystemManager) (found : Option CachedContent)
    → ((content_found now path m found).0.quota_map ≡ m.quota_map)
      × ((content_found now path m found).0.attribute_cache ≡ m.attribute_cache)
unfolding content_found
content_found-caches now path m none = (refl, refl)
content_found-caches now path m (some c) = (ground arith, ground arith)

fetch_attributes-caches :
    (now : ℕ) (path : List ℕ) (m : FilesystemManager) (r : Option (Option FileAttributes))
    → ((unless_thrown m (fetch_attributes now path m r)).quota_map ≡ m.quota_map)
      × ((unless_thrown m (fetch_attributes now path m r)).content_cache ≡ m.content_cache)
unfolding fetch_attributes
fetch_attributes-caches now path m none = (refl, refl)
fetch_attributes-caches now path m (some none) = (refl, refl)
fetch_attributes-caches now path m (some (some a)) = (refl, refl)

-- A look at the attribute cache: only that cache can change.
pub cached_or_fetched-caches :
    (now : ℕ) (host : Host) (path : List ℕ) (m : FilesystemManager) (valid : Option FileAttributes)
    → ((unless_thrown m (cached_or_fetched now host path m valid)).quota_map ≡ m.quota_map)
      × ((unless_thrown m (cached_or_fetched now host path m valid)).content_cache
          ≡ m.content_cache)
unfolding cached_or_fetched
cached_or_fetched-caches now host path m (some a) = (refl, refl)
cached_or_fetched-caches now host path m none = fetch_attributes-caches now path m _
