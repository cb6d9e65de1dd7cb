-- ===== src/Security/Audit.antt =====
-- Histories of calls of SecurityManager: the audit log stays bounded and the counters balance.
use simple_nfsd.Prelude.{
  ℕ, ◌+◌, ◌%◌, ◌^◌, ◌≤◌, ◌≡◌, refl, Bool, true, false, List, [], ◌∷◌, ◌++◌, Option, none, some, ltb,
  if◌then◌else◌, length, length-append, length-drop, arith, Bool-cases, inl, inr,
}
use simple_nfsd.Bytes.{Outcome, ok, thrown, fault}
use simple_nfsd.Rpc.{RpcMessage}
use simple_nfsd.Text.{codes}
use simple_nfsd.Map.{insert, erase}
use simple_nfsd.Text.Order.{text_key}
use simple_nfsd.Acl.{FileAcl, has_permission}
use simple_nfsd.Security.{
  SecurityContext, security_context, SecurityConfig, SecurityManager, AuditEntry, security_manager,
  initialize, shutdown, set_config, reset_stats, trim, log_audit_event, log_access,
}
use simple_nfsd.Security.Credentials.{Parse, accepts, rejects, bad}
use simple_nfsd.Security.Login.{
  Login, log_authentication, count_success, count_failure, granted, refused, after_auth_sys,
  after_auth_dh, after_kerberos, authenticate,
}
use simple_nfsd.Security.Access.{
  check_path_access, check_file_access, check_acl, set_file_acl, remove_file_acl, log_authorization,
  count_acl_operation, check_unix_permissions,
}
use simple_nfsd.Security.Sessions.{
  create_session, validate_session, validate_found, is_session_expired, destroy_session,
  cleanup_expired_sessions,
}

pub data Call : Type 0 where
  initializes configures : SecurityConfig → Call
  shuts_down resets cleans_up : Call
  logs_in : RpcMessage → SecurityContext → Call
  checks : SecurityContext → List ℕ → ℕ → (List ℕ → Option ℕ) → Call
  sets_acl : List ℕ → FileAcl → Call
  removes_acl : List ℕ → Call
  creates : List ℕ → SecurityContext → Call
  validates destroys : List ℕ → Call

-- A login that faulted would leave no manager to speak of; none does.
abbrev pub after_login : SecurityManager → Outcome Login → SecurityManager
after_login m (ok r) = r.0
after_login m (thrown e) = m
after_login m fault = m

unfoldable pub step : ℕ → Call → SecurityManager → SecurityManager
step now (initializes config) m = (initialize config m).0
step now (configures config) m = set_config config m
step now shuts_down m = shutdown m
step now resets m = reset_stats m
step now cleans_up m = cleanup_expired_sessions now m
step now (logs_in message context) m = after_login m (authenticate now message context m)
step now (checks context path requested status) m =
    (check_path_access now context path requested status m).0
step now (sets_acl path acl) m = (set_file_acl now path acl m).0
step now (removes_acl path) m = (remove_file_acl now path m).0
step now (creates id context) m = (create_session id context m).0
step now (validates id) m = (validate_session now id m).0
step now (destroys id) m = destroy_session id m

unfoldable pub run : List (ℕ × Call) → SecurityManager → SecurityManager
run [] m = m
run ((now, c) ∷ cs) m = run cs (step now c m)

-- At most 10000 entries are kept, and each authentication counted is a success or a failure.
pub record IsSound (m : SecurityManager) : Type 0 where
  pub bounded : length m.audit_log ≤ 10000
  pub balanced :
      m.stats.total_authentications
      ≡ (m.stats.successful_authentications + m.stats.failed_authentications) % 2 ^ 64

le-of-ltb : (n : ℕ) → ltb 10000 n ≡ false → n ≤ 10000
le-of-ltb n h = ground arith

length-trim-le : (log : List AuditEntry) → length log ≤ 10001 → length (trim log) ≤ 10000
unfolding trim
length-trim-le log h = elim (Bool-cases (ltb 10000 (length log))) [
  | inl past ↦ rw (past, length-drop 1000 log) omega arith
  | inr within ↦ rw within (le-of-ltb _ within)
]

log_audit_event-IsSound :
    (e : AuditEntry) (m : SecurityManager) → IsSound m → IsSound (log_audit_event e m)
unfolding log_audit_event
log_audit_event-IsSound e m s =
    ground (arith, length-append m.audit_log (e ∷ []), length-trim-le (m.audit_log ++ (e ∷ [])))

log_access-IsSound :
    (now : ℕ) (c : SecurityContext) (op res : List ℕ) (b : Bool) (d : List ℕ) (m : SecurityManager)
    → IsSound m
    → IsSound (log_access now c op res b d m)
unfolding log_access
log_access-IsSound now c op res b d m s = log_audit_event-IsSound _ m s

count_success-IsSound : (m : SecurityManager) → IsSound m → IsSound (count_success m)
unfolding count_success
count_success-IsSound m s = ground arith

count_failure-IsSound : (m : SecurityManager) → IsSound m → IsSound (count_failure m)
unfolding count_failure
count_failure-IsSound m s = ground arith

granted-IsSound :
    (now flavor : ℕ) (d : List ℕ) (c : SecurityContext) (m : SecurityManager)
    → IsSound m
    → IsSound (granted now flavor d c m).0
unfolding granted log_authentication
granted-IsSound now flavor d c m s = count_success-IsSound _ (
    log_access-IsSound now (record c { auth_flavor = flavor; authenticated = true })
      (codes "AUTHENTICATION") (codes "SYSTEM") true d m s)

refused-IsSound :
    (now : ℕ) (d : List ℕ) (c : SecurityContext) (m : SecurityManager)
    → IsSound m
    → IsSound (refused now d c m).0
unfolding refused log_authentication
refused-IsSound now d c m s =
    count_failure-IsSound _
      (log_access-IsSound now c (codes "AUTHENTICATION") (codes "SYSTEM") false d m s)

after_auth_sys-IsSound :
    (now : ℕ) (m : SecurityManager) (p : Parse (Unit {0}))
    → IsSound m
    → IsSound (after_login m (after_auth_sys now m p))
unfolding after_auth_sys
after_auth_sys-IsSound now m bad s = s
after_auth_sys-IsSound now m (rejects c) s = s
after_auth_sys-IsSound now m (accepts u o c) s = granted-IsSound now _ _ c m s

after_auth_dh-IsSound :
    (now : ℕ) (m : SecurityManager) (p : Parse (Unit {0}))
    → IsSound m
    → IsSound (after_login m (after_auth_dh now m p))
unfolding after_auth_dh
after_auth_dh-IsSound now m bad s = s
after_auth_dh-IsSound now m (rejects c) s = refused-IsSound now _ c m s
after_auth_dh-IsSound now m (accepts u o c) s = granted-IsSound now _ _ c m s

after_kerberos-IsSound :
    (now : ℕ) (m : SecurityManager) (p : Parse (Unit {0}))
    → IsSound m
    → IsSound (after_login m (after_kerberos now m p))
unfolding after_kerberos
after_kerberos-IsSound now m bad s = s
after_kerberos-IsSound now m (rejects c) s = refused-IsSound now _ c m s
after_kerberos-IsSound now m (accepts u o c) s = granted-IsSound now _ _ c m s

if-IsSound :
    (m : SecurityManager) (b : Bool) (x y : Outcome Login)
    → IsSound (after_login m x)
    → IsSound (after_login m y)
    → IsSound (after_login m (if b then x else y))
if-IsSound m true x y h k = h
if-IsSound m false x y h k = k

authenticate-IsSound :
    (now : ℕ) (message : RpcMessage) (context : SecurityContext) (m : SecurityManager)
    → IsSound m
    → IsSound (after_login m (authenticate now message context m))
unfolding authenticate
authenticate-IsSound now message context m s =
    search (if-IsSound, after_auth_sys-IsSound, after_auth_dh-IsSound, after_kerberos-IsSound, s)
      depth 12

-- What a conditional leaves is sound when both branches are.
choice-IsSound :
    {A : Type 0} (b : Bool) (x y : SecurityManager × A)
    → IsSound x.0
    → IsSound y.0
    → IsSound (if b then x else y).0
choice-IsSound true x y h k = h
choice-IsSound false x y h k = k

check_acl-IsSound :
    (now : ℕ) (c : SecurityContext) (path : List ℕ) (n : ℕ) (status : List ℕ → Option ℕ)
    → (m : SecurityManager) (found : Option FileAcl) → IsSound m
    → IsSound (check_acl now c path n status m found).0
unfolding check_acl log_authorization
check_acl-IsSound now c path n status m (some acl) s =
    log_access-IsSound now c (codes "AUTHORIZATION") path (has_permission c.uid c.gid c.gids n acl)
      (codes "ACL-based access check") m s
check_acl-IsSound now c path n status m none s =
    log_access-IsSound now c (codes "AUTHORIZATION") path (check_unix_permissions c (status path) n)
      (codes "Unix permissions check") m s

check_path_access-IsSound :
    (now : ℕ) (c : SecurityContext) (path : List ℕ) (n : ℕ) (status : List ℕ → Option ℕ)
    → (m : SecurityManager) → IsSound m
    → IsSound (check_path_access now c path n status m).0
unfolding check_path_access check_file_access log_authorization
check_path_access-IsSound now c path n status m s =
    search (choice-IsSound, log_access-IsSound, check_acl-IsSound, s) depth 12

acl_operation-IsSound :
    (acls : List (List ℕ × FileAcl)) (m : SecurityManager)
    → IsSound m
    → IsSound (count_acl_operation (record m { file_acls = acls }))
acl_operation-IsSound acls m s = record { bounded = s.bounded; balanced = s.balanced }

set_file_acl-IsSound :
    (now : ℕ) (path : List ℕ) (acl : FileAcl) (m : SecurityManager)
    → IsSound m
    → IsSound (set_file_acl now path acl m).0
unfolding set_file_acl
set_file_acl-IsSound now path acl m s =
    search
      (
        choice-IsSound,
        log_access-IsSound now (security_context now) (codes "SET_ACL") path true
            (codes "ACL set for file") _ (acl_operation-IsSound (insert path acl m.file_acls) m s),
        s,
      )
      depth 12

remove_file_acl-IsSound :
    (now : ℕ) (path : List ℕ) (m : SecurityManager)
    → IsSound m
    → IsSound (remove_file_acl now path m).0
unfolding remove_file_acl
remove_file_acl-IsSound now path m s =
    search
      (
        choice-IsSound,
        log_access-IsSound now (security_context now) (codes "REMOVE_ACL") path true
            (codes "ACL removed for file") _ (acl_operation-IsSound (erase path m.file_acls) m s),
        s,
      )
      depth 12

sessions-IsSound :
    (now : ℕ) (id : List ℕ) (c : SecurityContext) (m : SecurityManager)
    → IsSound m
    → IsSound (create_session id c m).0
      × IsSound (destroy_session id m)
      × IsSound (cleanup_expired_sessions now m)
unfolding create_session destroy_session cleanup_expired_sessions
sessions-IsSound now id c m s = (ground arith, ground arith, ground arith)

validate_found-IsSound :
    (now : ℕ) (id : List ℕ) (m : SecurityManager) (found : Option SecurityContext)
    → IsSound m
    → IsSound (validate_found now id m found).0
unfolding validate_found
validate_found-IsSound now id m none s = s
validate_found-IsSound now id m (some c) s =
    choice-IsSound (is_session_expired now m c)
      (record m { active_sessions = erase id m.active_sessions }, none) (m, some c)
      (record { bounded = s.bounded; balanced = s.balanced }) s

validate_session-IsSound :
    (now : ℕ) (id : List ℕ) (m : SecurityManager)
    → IsSound m
    → IsSound (validate_session now id m).0
unfolding validate_session
validate_session-IsSound now id m s = search (choice-IsSound, validate_found-IsSound, s) depth 12

lifecycle-IsSound :
    (config : SecurityConfig) (m : SecurityManager)
    → IsSound m
    → IsSound (initialize config m).0
      × IsSound (shutdown m)
      × IsSound (set_config config m)
      × IsSound (reset_stats m)
unfolding initialize shutdown set_config reset_stats
lifecycle-IsSound config m s = (ground arith, ground arith, ground arith, ground arith)

step-IsSound : (now : ℕ) (c : Call) (m : SecurityManager) → IsSound m → IsSound (step now c m)
unfolding step
step-IsSound now (initializes config) m s = (lifecycle-IsSound config m s).0
step-IsSound now (configures config) m s = (lifecycle-IsSound config m s).2
step-IsSound now shuts_down m s = (lifecycle-IsSound m.config m s).1
step-IsSound now resets m s = (lifecycle-IsSound m.config m s).3
step-IsSound now cleans_up m s = (sessions-IsSound now [] (security_context now) m s).2
step-IsSound now (logs_in message context) m s = authenticate-IsSound now message context m s
step-IsSound now (checks c path n status) m s = check_path_access-IsSound now c path n status m s
step-IsSound now (sets_acl path acl) m s = set_file_acl-IsSound now path acl m s
step-IsSound now (removes_acl path) m s = remove_file_acl-IsSound now path m s
step-IsSound now (creates id c) m s = (sessions-IsSound now id c m s).0
step-IsSound now (validates id) m s = validate_session-IsSound now id m s
step-IsSound now (destroys id) m s = (sessions-IsSound now id (security_context now) m s).1

from-IsSound : (cs : List (ℕ × Call)) (m : SecurityManager) → IsSound m → IsSound (run cs m)
unfolding run
from-IsSound [] m s = s
from-IsSound ((now, c) ∷ cs) m s = from-IsSound cs (step now c m) (step-IsSound now c m s)

-- After any history of calls of a new SecurityManager, at any times, the audit log in memory holds at
-- most 10000 entries, and the authentications counted are, modulo 2^64, the successes and the failures
-- counted.
pub run-IsSound : (cs : List (ℕ × Call)) → IsSound (run cs security_manager)
unfolding security_manager
run-IsSound cs =
    from-IsSound cs security_manager (record { bounded = ground arith; balanced = refl })
