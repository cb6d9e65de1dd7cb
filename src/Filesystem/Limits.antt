-- ===== src/Filesystem/Limits.antt =====
-- What checkQuota promises: the limit that was last set, and no account of what is in use.
use simple_nfsd.Prelude.{
  ℕ, ◌+◌, ◌%◌, ◌^◌, ◌<◌, ◌≡◌, refl, ◌||◌, List, [], ◌∷◌, Option, none, some, leb, ◌==◌,
  if◌then◌else◌, arith, Bool-cases, inl, inr,
}
use simple_nfsd.Map.{nat_key, find}
use simple_nfsd.Text.Order.{text_key}
use simple_nfsd.Map.Laws.{find-insert}
use simple_nfsd.Filesystem.{
  Host, NfsServerConfig, FilesystemManager, QuotaEntry, filesystem_manager, create_file_handle,
  get_file_handle, validate_file_handle, release_file_handle,
}
use simple_nfsd.Filesystem.Caches.{
  get_cached_file_attributes, valid_attributes, invalidate_attribute_cache, clear_attribute_cache,
  get_cached_file_content, cache_file_content, invalidate_content_cache, clear_content_cache,
  reload_export_config, notice_change,
}
use simple_nfsd.Filesystem.Quotas.{
  quota_key, same_quota, quota_info, get_quota_info, check_quota, set_quota,
}
use simple_nfsd.Filesystem.Effects.{
  initialize-Same, shutdown-Same, get_found-Same, validate_known-Same, start_monitoring-Same,
  stop_monitoring-Same, content_found-caches, cached_or_fetched-caches,
}
use simple_nfsd.Filesystem.History.{
  ManagerCall, initializes, opens, gets, validates, releases, stats_path, forgets_path,
  loads_content, forgets_content, stores_content, limits_user, notices, clears_attributes,
  clears_content, reloads, watches, unwatches, closes_manager, step, after,
}

-- The hard limit that was last set for the path and the user, and 0 before.
unfoldable pub last_limit : List ℕ → ℕ → List (ℕ × Host × ManagerCall) → ℕ
last_limit path uid [] = 0
last_limit path uid ((now, host, limits_user p u soft hard) ∷ calls) =
    let earlier = last_limit path uid calls in
    if same_quota (p, u) (path, uid) then hard else earlier
last_limit path uid ((now, host, call) ∷ calls) = last_limit path uid calls

-- An entry holds the limit and no usage; no entry is no limit.
unfoldable Agrees : ℕ → Option QuotaEntry → Type 0
Agrees limit none = limit ≡ 0
Agrees limit (some e) = (e.used_bytes ≡ 0) × (e.hard_limit ≡ limit)

set_quota-Agrees :
    (path : List ℕ) (uid : ℕ) (p : List ℕ) (u soft hard : ℕ) (m : FilesystemManager) (limit : ℕ)
    → Agrees limit (find (path, uid) m.quota_map)
    → Agrees
        (if same_quota (p, u) (path, uid) then hard else limit)
        (find (path, uid) (set_quota p u soft hard m).0.quota_map)
unfolding set_quota Agrees
set_quota-Agrees path uid p u soft hard m limit a =
    elim (Bool-cases (same_quota (p, u) (path, uid))) [
      | inl same ↦ rw (find-insert (p, u) (path, uid) _ m.quota_map, same) (refl, refl)
      | inr other ↦ rw (find-insert (p, u) (path, uid) _ m.quota_map, other) a
    ]

-- Where the quotas are as they were, what they hold stays in agreement.
step-Agrees :
    (path : List ℕ) (uid now : ℕ) (host : Host) (call : ManagerCall)
    → (m : FilesystemManager) (calls : List (ℕ × Host × ManagerCall))
    → Agrees (last_limit path uid calls) (find (path, uid) m.quota_map)
    → Agrees
        (last_limit path uid ((now, host, call) ∷ calls))
        (find (path, uid) (step now host call m).quota_map)
unfolding step last_limit get_file_handle validate_file_handle get_cached_file_attributes
    get_cached_file_content create_file_handle release_file_handle invalidate_attribute_cache
    clear_attribute_cache cache_file_content invalidate_content_cache clear_content_cache
    reload_export_config notice_change
step-Agrees path uid now host (initializes created config) m calls a =
    rw (initialize-Same created config m).quotas a
step-Agrees path uid now host (opens p) m calls a = a
step-Agrees path uid now host (gets id) m calls a =
    rw (get_found-Same now id m (find id m.file_handles)).quotas a
step-Agrees path uid now host (validates id) m calls a =
    rw (validate_known-Same now host id m (find id m.file_handles)).quotas a
step-Agrees path uid now host (releases id) m calls a = a
step-Agrees path uid now host (stats_path p) m calls a =
    rw (cached_or_fetched-caches now host p m (valid_attributes now (find p m.attribute_cache))).0 a
step-Agrees path uid now host (forgets_path p) m calls a = a
step-Agrees path uid now host (loads_content p) m calls a =
    rw (content_found-caches now p m (find p m.content_cache)).0 a
step-Agrees path uid now host (forgets_content p) m calls a = a
step-Agrees path uid now host (stores_content p content) m calls a = a
step-Agrees path uid now host (limits_user p u soft hard) m calls a =
    set_quota-Agrees path uid p u soft hard m _ a
step-Agrees path uid now host (notices name) m calls a = a
step-Agrees path uid now host clears_attributes m calls a = a
step-Agrees path uid now host clears_content m calls a = a
step-Agrees path uid now host reloads m calls a = a
step-Agrees path uid now host watches m calls a = rw (start_monitoring-Same m).quotas a
step-Agrees path uid now host unwatches m calls a = rw (stop_monitoring-Same m).quotas a
step-Agrees path uid now host closes_manager m calls a = rw (shutdown-Same m).quotas a

after-Agrees :
    (path : List ℕ) (uid : ℕ) (config : NfsServerConfig) (calls : List (ℕ × Host × ManagerCall))
    → Agrees (last_limit path uid calls) (find (path, uid) (after config calls).quota_map)
unfolding after last_limit Agrees filesystem_manager find
after-Agrees path uid config [] = refl
after-Agrees path uid config ((now, host, call) ∷ calls) =
    step-Agrees path uid now host call (after config calls) calls
      (after-Agrees path uid config calls)

check-Agrees :
    (limit requested : ℕ) (q : Option QuotaEntry)
    → requested < 2 ^ 64
    → Agrees limit q
    → ((quota_info q).hard_limit == 0
        || leb (((quota_info q).used_bytes + requested) % 2 ^ 64) (quota_info q).hard_limit)
      ≡ (limit == 0 || leb requested limit)
unfolding quota_info Agrees
check-Agrees limit requested none h a = rw a refl
check-Agrees limit requested (some e) h a = rw (a.0, a.1) (ground arith)

-- After any history of calls of a new FilesystemManager, checkQuota allows a request below 2^64 bytes
-- exactly where no hard limit is set for the path and the user, or the request alone is within the
-- limit that was last set: what the user holds already, or was allowed before, never counts.
pub check_quota-last_limit :
    (path : List ℕ) (uid requested : ℕ) (config : NfsServerConfig)
    → (calls : List (ℕ × Host × ManagerCall)) → requested < 2 ^ 64
    → check_quota path uid requested (after config calls)
      ≡ (last_limit path uid calls == 0 || leb requested (last_limit path uid calls))
unfolding check_quota get_quota_info
check_quota-last_limit path uid requested config calls h =
    check-Agrees _ requested _ h (after-Agrees path uid config calls)
