-- ===== src/Security/Sessions.antt =====
-- The sessions of SecurityManager, src/simple-nfsd/security/security.cpp. The identifier that
-- generateSessionId draws is an argument.
use simple_nfsd.Prelude.{
  ℕ, ◌-◌, ◌/◌, Bool, ◌||◌, not, List, [], Option, none, some, ltb, ◌==◌, if◌then◌else◌, length, map,
}
use simple_nfsd.Map.{find, insert, erase, sweep}
use simple_nfsd.Text.Order.{text_key}
use simple_nfsd.Security.{SecurityContext, SecurityManager}

-- The age of the context in whole seconds, against session_timeout.
unfoldable pub is_session_expired : ℕ → SecurityManager → SecurityContext → Bool
is_session_expired now m context =
    ltb m.config.session_timeout ((now - context.auth_time) / 1_000_000_000)

-- stats_.active_sessions = active_sessions_.size()
abbrev pub count_sessions : SecurityManager → SecurityManager
count_sessions m = record m {
  stats = record (m.stats) { active_sessions = length m.active_sessions };
}

unfoldable pub create_session :
    List ℕ → SecurityContext → SecurityManager → SecurityManager × List ℕ
create_session id context m =
    if not m.initialized
    then (m, [])
    else (count_sessions (record m { active_sessions = insert id context m.active_sessions }), id)

-- What validateSession does with the entry found; the result `some context` is true with the
-- context set, `none` is false.
unfoldable pub validate_found :
    ℕ → List ℕ → SecurityManager → Option SecurityContext → SecurityManager × Option SecurityContext
validate_found now id m none = (m, none)
validate_found now id m (some context) =
    if is_session_expired now m context
    then (record m { active_sessions = erase id m.active_sessions }, none)
    else (m, some context)

unfoldable pub validate_session :
    ℕ → List ℕ → SecurityManager → SecurityManager × Option SecurityContext
validate_session now id m =
    if not m.initialized || length id == 0
    then (m, none)
    else validate_found now id m (find id m.active_sessions)

unfoldable pub destroy_session : List ℕ → SecurityManager → SecurityManager
destroy_session id m =
    if not m.initialized || length id == 0
    then m
    else count_sessions (record m { active_sessions = erase id m.active_sessions })

unfoldable pub cleanup_expired_sessions : ℕ → SecurityManager → SecurityManager
cleanup_expired_sessions now m =
    if not m.initialized
    then m
    else count_sessions (record m {
      active_sessions = (sweep (λ e. is_session_expired now m e.1) m.active_sessions).0;
    })

unfoldable pub get_active_sessions : SecurityManager → List (List ℕ)
get_active_sessions m = map (λ e. e.0) m.active_sessions
