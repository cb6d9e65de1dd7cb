-- ===== src/Security.antt =====
-- SecurityManager of include/simple-nfsd/security/security.hpp and
-- src/simple-nfsd/security/security.cpp: its state, its life cycle, its statistics and its audit log.
-- Strings are their bytes. The system clock is an argument `now`, in nanoseconds. What is written to
-- the audit file and the log, and encryption, which is OpenSSL's, are left out.
pub mod Credentials
pub mod Login
pub mod Access
pub mod Sessions
pub mod Audit
pub mod Bounds
pub mod Identity
pub mod Paths
pub mod Ledger
pub mod Agreement
pub mod Lifetime
pub mod Netname
mod Runs
use simple_nfsd.Prelude.{
  ℕ, ◌+◌, ◌%◌, ◌^◌, Bool, true, false, ◌||◌, not, List, [], ◌∷◌, ◌++◌, ltb, if◌then◌else◌, length,
  drop,
}
use simple_nfsd.Acl.{FileAcl}

pub record SecurityContext : Type 0 where
  pub authenticated : Bool
  pub uid : ℕ
  pub gid : ℕ
  pub gids : List ℕ
  pub username : List ℕ
  pub machine_name : List ℕ
  pub client_ip : List ℕ
  pub auth_flavor : ℕ
  pub session_id : List ℕ
  pub auth_time : ℕ
  pub attributes : List (List ℕ × List ℕ)

-- SecurityContext()
abbrev pub security_context : ℕ → SecurityContext
security_context now = record {
  authenticated = false;
  uid = 0;
  gid = 0;
  gids = [];
  username = [];
  machine_name = [];
  client_ip = [];
  auth_flavor = 0;
  session_id = [];
  auth_time = now;
  attributes = [];
}

pub record SecurityConfig : Type 0 where
  pub enable_auth_sys : Bool
  pub enable_auth_dh : Bool
  pub enable_kerberos : Bool
  pub enable_acl : Bool
  pub enable_encryption : Bool
  pub enable_audit_logging : Bool
  pub root_squash : Bool
  pub anonymous_access : Bool
  pub session_timeout : ℕ
  pub kerberos_realm : List ℕ
  pub kerberos_keytab : List ℕ
  pub encryption_cert : List ℕ
  pub encryption_key : List ℕ
  pub audit_log_file : List ℕ

-- SecurityConfig()
abbrev pub security_config : SecurityConfig
security_config = record {
  enable_auth_sys = true;
  enable_auth_dh = false;
  enable_kerberos = false;
  enable_acl = true;
  enable_encryption = false;
  enable_audit_logging = true;
  root_squash = true;
  anonymous_access = false;
  session_timeout = 3600;
  kerberos_realm = [];
  kerberos_keytab = [];
  encryption_cert = [];
  encryption_key = [];
  audit_log_file = [];
}

pub record AuditEntry : Type 0 where
  pub timestamp : ℕ
  pub client_ip : List ℕ
  pub username : List ℕ
  pub operation : List ℕ
  pub resource : List ℕ
  pub success : Bool
  pub details : List ℕ

pub record SecurityStats : Type 0 where
  pub total_authentications : ℕ
  pub successful_authentications : ℕ
  pub failed_authentications : ℕ
  pub total_authorizations : ℕ
  pub successful_authorizations : ℕ
  pub failed_authorizations : ℕ
  pub active_sessions : ℕ
  pub acl_operations : ℕ
  pub audit_events : ℕ

-- SecurityStats{}
abbrev pub security_stats : SecurityStats
security_stats = record {
  total_authentications = 0;
  successful_authentications = 0;
  failed_authentications = 0;
  total_authorizations = 0;
  successful_authorizations = 0;
  failed_authorizations = 0;
  active_sessions = 0;
  acl_operations = 0;
  audit_events = 0;
}

pub record SecurityManager : Type 0 where
  pub initialized : Bool
  pub config : SecurityConfig
  pub active_sessions : List (List ℕ × SecurityContext)
  pub file_acls : List (List ℕ × FileAcl)
  pub audit_log : List AuditEntry
  pub stats : SecurityStats

unfoldable pub security_manager : SecurityManager
security_manager = record {
  initialized = false;
  config = security_config;
  active_sessions = [];
  file_acls = [];
  audit_log = [];
  stats = security_stats;
}

unfoldable pub initialize : SecurityConfig → SecurityManager → SecurityManager × Bool
initialize config m =
    if m.initialized then (m, true) else (record m { config = config; initialized = true }, true)

unfoldable pub shutdown : SecurityManager → SecurityManager
shutdown m = if not m.initialized then m else record m { active_sessions = []; initialized = false }

unfoldable pub set_config : SecurityConfig → SecurityManager → SecurityManager
set_config config m = record m { config = config }

unfoldable pub reset_stats : SecurityManager → SecurityManager
reset_stats m = record m { stats = security_stats }

unfoldable pub is_healthy : SecurityManager → Bool
is_healthy m = m.initialized

-- ++ on a counter.
abbrev pub inc : ℕ → ℕ
inc n = (n + 1) % 2 ^ 64

-- Only the last 10000 entries stay in memory: past them, the first 1000 go.
unfoldable pub trim : List AuditEntry → List AuditEntry
trim log = if ltb 10000 (length log) then drop 1000 log else log

unfoldable pub log_audit_event : AuditEntry → SecurityManager → SecurityManager
log_audit_event entry m =
    if not m.initialized || not m.config.enable_audit_logging then m else record m {
      audit_log = trim (m.audit_log ++ (entry ∷ []));
      stats = record (m.stats) { audit_events = inc m.stats.audit_events };
    }

-- logAccess, which logAuthentication and logAuthorization are at a fixed operation or resource.
unfoldable pub log_access :
    ℕ → SecurityContext → List ℕ → List ℕ → Bool → List ℕ → SecurityManager → SecurityManager
log_access now context operation resource success details m =
    log_audit_event
      (record {
        timestamp = now;
        client_ip = context.client_ip;
        username = context.username;
        operation = operation;
        resource = resource;
        success = success;
        details = details;
      })
      m
