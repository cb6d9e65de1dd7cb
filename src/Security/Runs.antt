-- ===== src/Security/Runs.antt =====
-- Concrete credentials, paths and histories of SecurityManager, and the theorems at these inputs.
use simple_nfsd.Prelude.{
  ℕ, ◌%◌, ◌^◌, ◌≡◌, ◌↔◌, refl, true, false, List, [], ◌∷◌, ◌++◌, Option, some, length, arith,
}
use simple_nfsd.Bytes.{ok, bytes32}
use simple_nfsd.Rpc.{RpcMessage, auth_sys, call, no_auth}
use simple_nfsd.Acl.{FileAcl}
use simple_nfsd.Text.{codes, to_string, digits}
use simple_nfsd.Security.{
  SecurityContext, security_context, SecurityConfig, security_config, SecurityManager,
  security_manager,
}
use simple_nfsd.Security.Credentials.{accepts, parse_auth_dh_credentials}
use simple_nfsd.Security.Login.{Login, authenticate}
use simple_nfsd.Security.Access.{check_file_access, check_path_access}
use simple_nfsd.Security.Audit.{
  Call, initializes, logs_in, checks, shuts_down, IsSound, run, run-IsSound,
}
use simple_nfsd.Security.Bounds.{authenticate_lem}
use simple_nfsd.Security.Identity.{IsJustified, authenticate-IsJustified}
use simple_nfsd.Security.Paths.{IsAdmissible, check_path_access_iff}
use simple_nfsd.Security.Netname.{dh_credentials, unix_netname, parse_auth_dh_credentials-to_string}
use simple_nfsd.Security.Ledger.{
  SessionCall, empty_ledger, starts, ends, cleans, opens, asks, closes, promises, answers,
}
use simple_nfsd.Security.Lifetime.{answers-refine}

abbrev client : SecurityContext
client = security_context 5_000_000_000

abbrev message_with : ℕ → List ℕ → RpcMessage
message_with flavor body = record {
  header = record {
    xid = 7;
    type = call;
    rpcvers = 2;
    prog = 100003;
    vers = 3;
    proc = 0;
    cred = record { flavor = flavor; length = length body; body = body };
    verf = no_auth;
  };
  payload = [];
}

-- An AUTH_SYS body for uid 7 and gid 8 that says it has one group, which is missing.
abbrev short_body : List ℕ
short_body = bytes32 1 ++ (bytes32 2 ++ (97 ∷ 98 ∷ (bytes32 7 ++ (bytes32 8 ++ bytes32 1))))

abbrev running : SecurityManager
running = record security_manager { initialized = true }

authenticate_lem_example :
    (r : Login) × (authenticate 9 (message_with auth_sys short_body) client running ≡ ok r)
authenticate_lem_example = authenticate_lem 9 (message_with auth_sys short_body) client running

abbrev history : List (ℕ × Call)
history =
    (1, initializes security_config)
    ∷ (2, logs_in (message_with auth_sys short_body) client)
    ∷ (3, logs_in (message_with auth_sys []) client)
    ∷ (4, checks client (codes "/srv/a") 4 (λ path. some 420))
    ∷ (5, shuts_down)
    ∷ []

run-IsSound_example : IsSound (run history security_manager)
run-IsSound_example = run-IsSound history

parse_auth_dh_credentials-to_string_example :
    (offset : ℕ) × (d : SecurityContext) × (parse_auth_dh_credentials
        (dh_credentials (codes "host") (unix_netname 0 (codes "x")) (1 ∷ []) (2 ∷ []) 60 [])
        client
      ≡ accepts tt offset d)
    × (d.uid ≡ 0 % 2 ^ 32)
    × (d.gid ≡ 0 % 2 ^ 32)
unfolding to_string digits
parse_auth_dh_credentials-to_string_example =
    parse_auth_dh_credentials-to_string 0 (codes "host") (codes "x") (1 ∷ []) (2 ∷ []) 60 [] client
      (omega arith) (omega arith) (omega arith) (omega arith) (omega arith) (omega arith)

abbrev open_manager : SecurityManager
open_manager = record running { config = record security_config { anonymous_access = true } }

abbrev visitor : SecurityContext
visitor = record client {
  authenticated = true;
  auth_flavor = 0;
  uid = 65534;
  gid = 65534;
  username = codes "anonymous";
}

visitor_enters :
    authenticate 9 (message_with 0 []) client open_manager ≡ ok (open_manager, visitor, true)
unfolding authenticate security_manager
visitor_enters = refl

authenticate-IsJustified_example : IsJustified open_manager 0 [] client visitor
authenticate-IsJustified_example =
    authenticate-IsJustified 9 (message_with 0 []) client open_manager (open_manager, visitor, true)
      visitor_enters refl

abbrev readable : List ℕ → Option ℕ
readable path = some 420

check_path_access_iff_example :
    ((check_path_access 9 visitor (codes "/srv/a") 4 readable running).1 ≡ true) ↔ (
      (running.initialized ≡ true)
      × (visitor.authenticated ≡ true)
      × IsAdmissible (codes "/srv/a")
      × ((check_file_access 9 visitor (codes "/srv/a") 4 readable running).1 ≡ true))
check_path_access_iff_example = check_path_access_iff 9 visitor (codes "/srv/a") 4 readable running

abbrev closed_list : FileAcl
closed_list = record { entries = []; default_mask = 0; is_directory = false }

-- A session of one second is opened, asked for in time, asked for too late, cleaned up and closed.
abbrev a_second : SecurityConfig
a_second = record security_config { session_timeout = 1 }

abbrev session_history : List (ℕ × SessionCall)
session_history =
    (5_000_000_000, starts a_second)
    ∷ (5_000_000_000, opens (codes "s") client)
    ∷ (6_000_000_000, asks (codes "s"))
    ∷ (7_500_000_000, asks (codes "s"))
    ∷ (7_500_000_000, cleans)
    ∷ (8_000_000_000, closes (codes "s"))
    ∷ (8_000_000_000, ends)
    ∷ []

answers-refine_example :
    answers session_history security_manager ≡ promises session_history empty_ledger
answers-refine_example = answers-refine session_history (
  omega arith,
  (omega arith, (omega arith, (omega arith, (omega arith, (omega arith, (omega arith, tt)))))),
)
