-- ===== src/Filesystem/Freshness.antt =====
-- Where the attributes come from that getCachedFileAttributes answers with.
use mathlib.Core.List.{Memᴰ}
use simple_nfsd.Prelude.{
  ℕ, ◌<◌, ◌≡◌, refl, List, [], ◌∷◌, Option, none, some, ltb, arith, Bool-cases, inl, inr, All,
  All-map, All-keep_if,
}
use simple_nfsd.Map.{nat_key, find, erase}
use simple_nfsd.Map.Laws.{All-insert, All-find}
use simple_nfsd.Text.Order.{text_key}
use simple_nfsd.Filesystem.{
  Host, NfsServerConfig, FilesystemManager, FileAttributes, CachedAttributes, filesystem_manager,
  create_file_handle, get_file_handle, validate_file_handle, release_file_handle,
}
use simple_nfsd.Filesystem.Files.{get_file_attributes}
use simple_nfsd.Filesystem.Caches.{
  age, is_cache_valid, get_cached_file_attributes, cached_or_fetched, fetch_attributes,
  valid_attributes, invalidate_attribute_cache, clear_attribute_cache, get_cached_file_content,
  cache_file_content, invalidate_content_cache, clear_content_cache, reload_export_config,
  notice_change,
}
use simple_nfsd.Filesystem.Quotas.{set_quota}
use simple_nfsd.Filesystem.Effects.{
  initialize-Same, shutdown-Same, get_found-Same, validate_known-Same, start_monitoring-Same,
  stop_monitoring-Same, content_found-caches,
}
use simple_nfsd.Filesystem.History.{
  ManagerCall, initializes, opens, gets, validates, releases, stats_path, forgets_path,
  loads_content, forgets_content, stores_content, limits_user, notices, clears_attributes,
  clears_content, reloads, watches, unwatches, closes_manager, step, after, unless_thrown,
}

-- Some call of getCachedFileAttributes for the path met a system, at that time, whose attributes of
-- the path are these.
pub record WasRead (calls : List (ℕ × Host × ManagerCall)) (path : List ℕ) (at : ℕ)
    (attrs : FileAttributes) : Type 0 where
  pub host : Host
  pub called : Memᴰ (at, host, stats_path path) calls
  pub reads : get_file_attributes host path ≡ some (some attrs)

abbrev EntryWasRead : List (ℕ × Host × ManagerCall) → List ℕ × CachedAttributes → Type 0
EntryWasRead calls (path, cached) = WasRead calls path cached.cached_at cached.attrs

abbrev CacheWasRead : List (ℕ × Host × ManagerCall) → FilesystemManager → Type 0
CacheWasRead calls m = All (EntryWasRead calls) m.attribute_cache

later-EntryWasRead :
    (call : ℕ × Host × ManagerCall) (calls : List (ℕ × Host × ManagerCall))
    → (e : List ℕ × CachedAttributes) → EntryWasRead calls e
    → EntryWasRead (call ∷ calls) e
later-EntryWasRead call calls (path, cached) r = record {
  host = r.host;
  called = Memᴰ.tail r.called;
  reads = r.reads;
}

later-CacheWasRead :
    (call : ℕ × Host × ManagerCall) (calls : List (ℕ × Host × ManagerCall))
    → (m : FilesystemManager) → CacheWasRead calls m
    → CacheWasRead (call ∷ calls) m
later-CacheWasRead call calls m h =
    All-map (EntryWasRead calls) (EntryWasRead (call ∷ calls)) (later-EntryWasRead call calls) _ h

fetch_attributes-CacheWasRead :
    (now : ℕ) (host : Host) (path : List ℕ) (m : FilesystemManager)
    → (r : Option (Option FileAttributes)) (calls : List (ℕ × Host × ManagerCall))
    → get_file_attributes host path ≡ r
    → CacheWasRead ((now, host, stats_path path) ∷ calls) m
    → CacheWasRead
        ((now, host, stats_path path) ∷ calls)
        (unless_thrown m (fetch_attributes now path m r))
unfolding fetch_attributes
fetch_attributes-CacheWasRead now host path m none calls e h = h
fetch_attributes-CacheWasRead now host path m (some none) calls e h = h
fetch_attributes-CacheWasRead now host path m (some (some attrs)) calls e h =
    All-insert (EntryWasRead ((now, host, stats_path path) ∷ calls)) path _ m.attribute_cache
      (record { host = host; called = Memᴰ.head refl; reads = e }) h

cached_or_fetched-CacheWasRead :
    (now : ℕ) (host : Host) (path : List ℕ) (m : FilesystemManager)
    → (valid : Option FileAttributes) (calls : List (ℕ × Host × ManagerCall))
    → CacheWasRead ((now, host, stats_path path) ∷ calls) m
    → CacheWasRead
        ((now, host, stats_path path) ∷ calls)
        (unless_thrown m (cached_or_fetched now host path m valid))
unfolding cached_or_fetched
cached_or_fetched-CacheWasRead now host path m (some attrs) calls h = h
cached_or_fetched-CacheWasRead now host path m none calls h =
    fetch_attributes-CacheWasRead now host path m _ calls refl h

step-CacheWasRead :
    (now : ℕ) (host : Host) (call : ManagerCall) (m : FilesystemManager)
    → (calls : List (ℕ × Host × ManagerCall)) → CacheWasRead ((now, host, call) ∷ calls) m
    → CacheWasRead ((now, host, call) ∷ calls) (step now host call m)
unfolding step get_file_handle validate_file_handle get_cached_file_attributes
    get_cached_file_content create_file_handle release_file_handle invalidate_attribute_cache
    clear_attribute_cache cache_file_content invalidate_content_cache clear_content_cache
    reload_export_config notice_change set_quota erase
step-CacheWasRead now host (initializes created config) m calls h =
    rw (initialize-Same created config m).attributes h
step-CacheWasRead now host (opens p) m calls h = h
step-CacheWasRead now host (gets id) m calls h =
    rw (get_found-Same now id m (find id m.file_handles)).attributes h
step-CacheWasRead now host (validates id) m calls h =
    rw (validate_known-Same now host id m (find id m.file_handles)).attributes h
step-CacheWasRead now host (releases id) m calls h = h
step-CacheWasRead now host (stats_path p) m calls h =
    cached_or_fetched-CacheWasRead now host p m _ calls h
step-CacheWasRead now host (forgets_path p) m calls h = All-keep_if _ _ m.attribute_cache h
step-CacheWasRead now host (loads_content p) m calls h =
    rw (content_found-caches now p m (find p m.content_cache)).1 h
step-CacheWasRead now host (forgets_content p) m calls h = h
step-CacheWasRead now host (stores_content p content) m calls h = h
step-CacheWasRead now host (limits_user p u soft hard) m calls h = h
step-CacheWasRead now host (notices name) m calls h = h
step-CacheWasRead now host clears_attributes m calls h = tt
step-CacheWasRead now host clears_content m calls h = h
step-CacheWasRead now host reloads m calls h = tt
step-CacheWasRead now host watches m calls h = rw (start_monitoring-Same m).attributes h
step-CacheWasRead now host unwatches m calls h = rw (stop_monitoring-Same m).attributes h
step-CacheWasRead now host closes_manager m calls h = rw (shutdown-Same m).attributes h

after-CacheWasRead :
    (config : NfsServerConfig) (calls : List (ℕ × Host × ManagerCall))
    → CacheWasRead calls (after config calls)
unfolding after filesystem_manager
after-CacheWasRead config [] = tt
after-CacheWasRead config ((now, host, call) ∷ calls) =
    step-CacheWasRead now host call (after config calls) calls (
      later-CacheWasRead (now, host, call) calls (after config calls)
        (after-CacheWasRead config calls))

-- Read for the path, by one of the calls, less than 30 s before.
pub record IsFresh (calls : List (ℕ × Host × ManagerCall)) (path : List ℕ) (now : ℕ)
    (attrs : FileAttributes) : Type 0 where
  pub at : ℕ
  pub young : age now at < 30
  pub was_read : WasRead calls path at attrs

fetch_attributes-IsFresh :
    (now : ℕ) (host : Host) (path : List ℕ) (m n : FilesystemManager) (attrs : FileAttributes)
    → (r : Option (Option FileAttributes)) (calls : List (ℕ × Host × ManagerCall))
    → get_file_attributes host path ≡ r
    → fetch_attributes now path m r ≡ some (n, some attrs)
    → IsFresh ((now, host, stats_path path) ∷ calls) path now attrs
unfolding fetch_attributes
fetch_attributes-IsFresh now host path m n attrs none calls e answer = absurd (cc)
fetch_attributes-IsFresh now host path m n attrs (some none) calls e answer = absurd (cc)
fetch_attributes-IsFresh now host path m n attrs (some (some a)) calls e answer = record {
  at = now;
  young = ground arith;
  was_read = record { host = host; called = Memᴰ.head refl; reads = cc };
}

found-IsFresh :
    (now : ℕ) (host : Host) (path : List ℕ) (m n : FilesystemManager) (attrs : FileAttributes)
    → (found : Option CachedAttributes) (calls : List (ℕ × Host × ManagerCall))
    → find path m.attribute_cache ≡ found
    → CacheWasRead calls m
    → cached_or_fetched now host path m (valid_attributes now found) ≡ some (n, some attrs)
    → IsFresh ((now, host, stats_path path) ∷ calls) path now attrs
unfolding cached_or_fetched valid_attributes is_cache_valid
found-IsFresh now host path m n attrs none calls e h answer =
    fetch_attributes-IsFresh now host path m n attrs _ calls refl answer
found-IsFresh now host path m n attrs (some cached) calls e h answer =
    elim (Bool-cases (ltb (age now cached.cached_at) 30)) [
      | inl valid ↦
          let r = All-find (EntryWasRead calls) path m.attribute_cache cached h e in
          record {
            at = cached.cached_at;
            young = ground arith;
            was_read = record {
              host = r.host;
              called = Memᴰ.tail r.called;
              reads = ground (arith, r.reads, answer, valid);
            };
          }
      | inr old ↦
          fetch_attributes-IsFresh now host path m n attrs _ calls refl
            (ground (arith, answer, old))
    ]

-- After any history of calls of a new FilesystemManager, at any times, the attributes that
-- getCachedFileAttributes answers with are those that getFileAttributes read of the path, in this call
-- or in an earlier call of getCachedFileAttributes for the path, less than 30 s before.
pub get_cached_file_attributes-IsFresh :
    (now : ℕ) (host : Host) (path : List ℕ) (config : NfsServerConfig)
    → (calls : List (ℕ × Host × ManagerCall)) (n : FilesystemManager) (attrs : FileAttributes)
    → get_cached_file_attributes now host path (after config calls) ≡ some (n, some attrs)
    → IsFresh ((now, host, stats_path path) ∷ calls) path now attrs
unfolding get_cached_file_attributes
get_cached_file_attributes-IsFresh now host path config calls n attrs answer =
    found-IsFresh now host path (after config calls) n attrs _ calls refl
      (after-CacheWasRead config calls) answer
