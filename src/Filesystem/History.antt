-- ===== src/Filesystem/History.antt =====
-- Histories of calls of FilesystemManager, src/simple-nfsd/core/filesystem.cpp: each call with the
-- time and the system that it meets, the last call first.
use simple_nfsd.Prelude.{ℕ, Bool, List, [], ◌∷◌, Option, none, some}
use simple_nfsd.Filesystem.{
  Host, NfsServerConfig, FilesystemManager, filesystem_manager, initialize, shutdown,
  create_file_handle, get_file_handle, validate_file_handle, release_file_handle,
}
use simple_nfsd.Filesystem.Caches.{
  get_cached_file_attributes, invalidate_attribute_cache, clear_attribute_cache,
  get_cached_file_content, cache_file_content, invalidate_content_cache, clear_content_cache,
  reload_export_config, start_monitoring, stop_monitoring, notice_change,
}
use simple_nfsd.Filesystem.Quotas.{set_quota}

pub data ManagerCall : Type 0 where
  initializes : Bool → NfsServerConfig → ManagerCall
  opens : List ℕ → ManagerCall
  gets validates releases : ℕ → ManagerCall
  stats_path forgets_path : List ℕ → ManagerCall
  loads_content forgets_content : List ℕ → ManagerCall
  stores_content : List ℕ → List ℕ → ManagerCall
  limits_user : List ℕ → ℕ → ℕ → ℕ → ManagerCall
  notices : List ℕ → ManagerCall
  clears_attributes clears_content reloads watches unwatches closes_manager : ManagerCall

-- An exception leaves the manager as it was.
abbrev pub unless_thrown {ℓ} :
    {A : Type ℓ} → FilesystemManager → Option (FilesystemManager × A) → FilesystemManager
unless_thrown m none = m
unless_thrown m (some (n, a)) = n

unfoldable pub step : ℕ → Host → ManagerCall → FilesystemManager → FilesystemManager
step now host (initializes created config) m = (initialize created config m).0
step now host (opens path) m = (create_file_handle now host path m).0
step now host (gets id) m = (get_file_handle now id m).0
step now host (validates id) m = unless_thrown m (validate_file_handle now host id m)
step now host (releases id) m = release_file_handle id m
step now host (stats_path path) m = unless_thrown m (get_cached_file_attributes now host path m)
step now host (forgets_path path) m = invalidate_attribute_cache path m
step now host (loads_content path) m = (get_cached_file_content now path m).0
step now host (forgets_content path) m = invalidate_content_cache path m
step now host (stores_content path content) m = cache_file_content now path content m
step now host (limits_user path uid soft hard) m = (set_quota path uid soft hard m).0
step now host (notices name) m = notice_change name m
step now host clears_attributes m = clear_attribute_cache m
step now host clears_content m = clear_content_cache m
step now host reloads m = (reload_export_config m).0
step now host watches m = (start_monitoring m).0
step now host unwatches m = stop_monitoring m
step now host closes_manager m = shutdown m

-- A new manager after the calls, the last of which stands first.
unfoldable pub after : NfsServerConfig → List (ℕ × Host × ManagerCall) → FilesystemManager
after config [] = filesystem_manager config
after config ((now, host, call) ∷ calls) = step now host call (after config calls)
