-- ===== src/Filesystem/Contents.antt =====
-- What getCachedFileContent promises, without the entries that it erases.
use simple_nfsd.Prelude.{
  ℕ, ◌≤◌, ◌≡◌, refl, sym, subst, true, false, List, [], ◌∷◌, Option, none, some, ltb, if◌then◌else◌,
  arith, Bool-cases, inl, inr,
}
use simple_nfsd.Map.{nat_key, find, insert, erase}
use simple_nfsd.Map.Laws.{find-insert, find-erase}
use simple_nfsd.Text.{equal}
use simple_nfsd.Text.Order.{text_key, equal_iff}
use simple_nfsd.Filesystem.{
  Host, NfsServerConfig, FilesystemManager, CachedContent, filesystem_manager, create_file_handle,
  get_file_handle, validate_file_handle, release_file_handle,
}
use simple_nfsd.Filesystem.Caches.{
  age, get_cached_file_attributes, valid_attributes, invalidate_attribute_cache,
  clear_attribute_cache, get_cached_file_content, content_found, cache_file_content,
  invalidate_content_cache, clear_content_cache, reload_export_config, notice_change,
}
use simple_nfsd.Filesystem.Quotas.{set_quota}
use simple_nfsd.Filesystem.Effects.{
  initialize-Same, shutdown-Same, get_found-Same, validate_known-Same, start_monitoring-Same,
  stop_monitoring-Same, cached_or_fetched-caches,
}
use simple_nfsd.Filesystem.History.{
  ManagerCall, initializes, opens, gets, validates, releases, stats_path, forgets_path,
  loads_content, forgets_content, stores_content, limits_user, notices, clears_attributes,
  clears_content, reloads, watches, unwatches, closes_manager, step, after,
}

-- The times do not go back, up to `now`.
abbrev pub InOrder : ℕ → List (ℕ × Host × ManagerCall) → Type 0
InOrder now [] = Unit {0}
InOrder now ((at, host, call) ∷ calls) = (at ≤ now) × InOrder at calls

-- The content last stored for the path and not invalidated since, with its time.
unfoldable pub stored : List ℕ → List (ℕ × Host × ManagerCall) → Option (ℕ × List ℕ)
stored path [] = none
stored path ((now, host, stores_content p content) ∷ calls) =
    let earlier = stored path calls in if equal p path then some (now, content) else earlier
stored path ((now, host, forgets_content p) ∷ calls) =
    let earlier = stored path calls in if equal p path then none else earlier
stored path ((now, host, clears_content) ∷ calls) = none
stored path ((now, host, reloads) ∷ calls) = none
stored path ((now, host, call) ∷ calls) = stored path calls

-- What is stored is shown for 60 s.
unfoldable pub promised : ℕ → Option (ℕ × List ℕ) → Option (List ℕ)
promised now none = none
promised now (some (at, content)) = if ltb (age now at) 60 then some content else none

-- The entry is what was stored, or gone for its age.
unfoldable Holds : ℕ → Option (ℕ × List ℕ) → Option CachedContent → Type 0
Holds now none none = Unit {0}
Holds now none (some c) = true ≡ false
Holds now (some (at, content)) none = 60 ≤ age now at
Holds now (some (at, content)) (some c) = (c.cached_at ≡ at) × (c.content ≡ content)

later-Holds :
    (now later : ℕ) (s : Option (ℕ × List ℕ)) (found : Option CachedContent)
    → now ≤ later
    → Holds now s found
    → Holds later s found
unfolding Holds
later-Holds now later none none le h = tt
later-Holds now later none (some c) le h = h
later-Holds now later (some (at, content)) none le h = omega (arith, le, h)
later-Holds now later (some (at, content)) (some c) le h = h

erased-Holds :
    (now : ℕ) (s : Option (ℕ × List ℕ)) (c : CachedContent)
    → ltb (age now c.cached_at) 60 ≡ false
    → Holds now s (some c)
    → Holds now s none
unfolding Holds
erased-Holds now none c old h = tt
erased-Holds now (some (at, content)) c old h = ground (arith, h.0)

loaded-Holds :
    (now : ℕ) (path p : List ℕ) (m : FilesystemManager) (s : Option (ℕ × List ℕ))
    → (found : Option CachedContent) → find p m.content_cache ≡ found
    → Holds now s (find path m.content_cache)
    → Holds now s (find path (content_found now p m found).0.content_cache)
unfolding content_found
loaded-Holds now path p m s none e h = h
loaded-Holds now path p m s (some c) e h = elim (Bool-cases (ltb (age now c.cached_at) 60)) [
  | inl young ↦ rw young h
  | inr old ↦ elim (Bool-cases (equal p path)) [
    | inl hit ↦
        let q = (equal_iff p path).0 hit in
        rw (old, find-erase p path m.content_cache, hit)
          (erased-Holds now s c old
            (subst (Holds now s) e (subst (λ x. Holds now s (find x m.content_cache)) (sym q) h)))
    | inr miss ↦ rw (old, find-erase p path m.content_cache, miss) h
  ]
]

removed-Holds :
    (now : ℕ) (path p : List ℕ) (m : FilesystemManager) (s : Option (ℕ × List ℕ))
    → Holds now s (find path m.content_cache)
    → Holds now (if equal p path then none else s) (find path (erase p m.content_cache))
unfolding Holds
removed-Holds now path p m s h = elim (Bool-cases (equal p path)) [
  | inl hit ↦ rw (find-erase p path m.content_cache, hit) tt
  | inr miss ↦ rw (find-erase p path m.content_cache, miss) h
]

written-Holds :
    (now : ℕ) (path p content : List ℕ) (m : FilesystemManager) (s : Option (ℕ × List ℕ))
    → Holds now s (find path m.content_cache)
    → Holds now
        (if equal p path then some (now, content) else s)
        (find path (insert p (record { content = content; cached_at = now }) m.content_cache))
unfolding Holds
written-Holds now path p content m s h = elim (Bool-cases (equal p path)) [
  | inl hit ↦ rw (find-insert p path _ m.content_cache, hit) (refl, refl)
  | inr miss ↦ rw (find-insert p path _ m.content_cache, miss) h
]

empty-Holds : (now : ℕ) (path : List ℕ) → Holds now none (find path [])
unfolding Holds find
empty-Holds now path = tt

step-Holds :
    (path : List ℕ) (now : ℕ) (host : Host) (call : ManagerCall) (m : FilesystemManager)
    → (calls : List (ℕ × Host × ManagerCall))
    → Holds now (stored path calls) (find path m.content_cache)
    → Holds now
        (stored path ((now, host, call) ∷ calls))
        (find path (step now host call m).content_cache)
unfolding step stored get_file_handle validate_file_handle get_cached_file_attributes
    get_cached_file_content create_file_handle release_file_handle invalidate_attribute_cache
    clear_attribute_cache cache_file_content invalidate_content_cache clear_content_cache
    reload_export_config notice_change set_quota
step-Holds path now host (initializes created config) m calls h =
    rw (initialize-Same created config m).contents h
step-Holds path now host (opens p) m calls h = h
step-Holds path now host (gets id) m calls h =
    rw (get_found-Same now id m (find id m.file_handles)).contents h
step-Holds path now host (validates id) m calls h =
    rw (validate_known-Same now host id m (find id m.file_handles)).contents h
step-Holds path now host (releases id) m calls h = h
step-Holds path now host (stats_path p) m calls h =
    rw (cached_or_fetched-caches now host p m (valid_attributes now (find p m.attribute_cache))).1 h
step-Holds path now host (forgets_path p) m calls h = h
step-Holds path now host (loads_content p) m calls h =
    loaded-Holds now path p m (stored path calls) _ refl h
step-Holds path now host (forgets_content p) m calls h =
    removed-Holds now path p m (stored path calls) h
step-Holds path now host (stores_content p content) m calls h =
    written-Holds now path p content m (stored path calls) h
step-Holds path now host (limits_user p u soft hard) m calls h = h
step-Holds path now host (notices name) m calls h = h
step-Holds path now host clears_attributes m calls h = h
step-Holds path now host clears_content m calls h = empty-Holds now path
step-Holds path now host reloads m calls h = empty-Holds now path
step-Holds path now host watches m calls h = rw (start_monitoring-Same m).contents h
step-Holds path now host unwatches m calls h = rw (stop_monitoring-Same m).contents h
step-Holds path now host closes_manager m calls h = rw (shutdown-Same m).contents h

after-Holds :
    (path : List ℕ) (now : ℕ) (config : NfsServerConfig) (calls : List (ℕ × Host × ManagerCall))
    → InOrder now calls
    → Holds now (stored path calls) (find path (after config calls).content_cache)
unfolding after stored filesystem_manager
after-Holds path now config [] o = empty-Holds now path
after-Holds path now config ((at, host, call) ∷ calls) (le, o) =
    later-Holds at now _ _ le
      (step-Holds path at host call (after config calls) calls (after-Holds path at config calls o))

answer-Holds :
    (now : ℕ) (path : List ℕ) (m : FilesystemManager) (s : Option (ℕ × List ℕ))
    → (found : Option CachedContent) → Holds now s found
    → (content_found now path m found).1 ≡ promised now s
unfolding content_found promised Holds
answer-Holds now path m none none h = refl
answer-Holds now path m none (some c) h = absurd (cc)
answer-Holds now path m (some (at, content)) none h = ground (arith, h)
answer-Holds now path m (some (at, content)) (some c) h = rw (h.0, h.1) (ground arith)

-- After any history of calls of a new FilesystemManager, at times that do not go back, asked no
-- earlier than the last of them, getCachedFileContent answers with the content that was last stored
-- for the path, unless it was invalidated since, or is 60 s old: what other paths, lookups and
-- erasures of old entries did in between does not show.
pub get_cached_file_content-promised :
    (now : ℕ) (path : List ℕ) (config : NfsServerConfig) (calls : List (ℕ × Host × ManagerCall))
    → InOrder now calls
    → (get_cached_file_content now path (after config calls)).1 ≡ promised now (stored path calls)
unfolding get_cached_file_content
get_cached_file_content-promised now path config calls o =
    answer-Holds now path (after config calls) (stored path calls) _
      (after-Holds path now config calls o)
