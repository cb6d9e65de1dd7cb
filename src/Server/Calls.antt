-- ===== src/Server/Calls.antt =====
-- The way of a message through the server: processRpcMessage, handleRpcCall, authenticateRequest and
-- handlePortmapperCall of src/simple-nfsd/core/server_simple.cpp. What they hand on, a reply to
-- sendReply or a call to the procedures of a version, is the effect; the counts of the procedures
-- themselves come on top, and all counters are atomic.
use simple_nfsd.Prelude.{
  ℕ, Bool, true, false, not, ◌||◌, List, [], Option, none, some, ◌==◌, if◌then◌else◌,
}
use simple_nfsd.Bytes.{Outcome, ok, thrown, fault}
use simple_nfsd.Rpc.{
  RpcMessage, call, auth_none, deserialize_message, validate_message, create_reply,
}
use simple_nfsd.Portmapper.{Portmapper, inc, handle_rpc_call as portmapper_call}
use simple_nfsd.Auth.{
  AuthManager, AuthContext, Parsed, accept, reject, bad, is_success, authenticate,
}
use simple_nfsd.Server.Versions.{negotiate_nfs_version}

pub record NfsServerSimple : Type 0 where
  pub auth_manager : Option AuthManager
  pub portmapper : Option Portmapper
  pub total_requests : ℕ
  pub successful_requests : ℕ
  pub failed_requests : ℕ

pub data Effect : Type 0 where
  ends : Effect
  sends_reply : RpcMessage → Effect
  runs_procedure : ℕ → RpcMessage → AuthContext → Effect

-- RpcProgram and RpcAcceptState.
abbrev pub portmap_program : ℕ
portmap_program = 100000

abbrev pub nfs_program : ℕ
nfs_program = 100003

abbrev pub prog_unavail : ℕ
prog_unavail = 1

abbrev pub prog_mismatch : ℕ
prog_mismatch = 2

abbrev pub garbage_args : ℕ
garbage_args = 4

abbrev pub system_err : ℕ
system_err = 5

abbrev pub count_failed : NfsServerSimple → NfsServerSimple
count_failed s = record s { failed_requests = inc s.failed_requests }

-- failed_requests_++, then createReply and sendReply.
abbrev pub send_error : RpcMessage → ℕ → NfsServerSimple → NfsServerSimple × Effect
send_error message state s = (
  count_failed s,
  sends_reply (create_reply message.header.xid state [] (record { flavor = auth_none; body = [] })),
)

-- The context that handleRpcCall declares.
abbrev pub no_context : AuthContext
no_context = record { authenticated = false; uid = 0; gid = 0; gids = []; machine_name = [] }

unfoldable pub authenticate_request : Option AuthManager → RpcMessage → Parsed (Bool × AuthContext)
authenticate_request none message = accept (false, no_context)
authenticate_request (some m) message =
    elim (authenticate m message.header.cred.body message.header.verf.body no_context) [
      | accept r ↦ accept (is_success r.0, r.1)
      | reject ↦ reject
      | bad ↦ bad
    ]

unfoldable pub handle_portmapper_call : ℕ → RpcMessage → NfsServerSimple → NfsServerSimple
handle_portmapper_call now message s = elim s.portmapper [
  | none ↦ count_failed s
  | some p ↦ record s { portmapper = some (portmapper_call now message p) }
]

-- The switch on the negotiated version.
unfoldable pub serve : ℕ → RpcMessage → AuthContext → NfsServerSimple → NfsServerSimple × Effect
serve version message context s =
    if version == 2 || (version == 3 || version == 4)
    then (
      record s { successful_requests = inc s.successful_requests },
      runs_procedure version message context,
    )
    else send_error message prog_mismatch s

-- What handleRpcCall does with the result of authenticateRequest, which is never `reject`.
unfoldable pub serve_authenticated :
    RpcMessage → NfsServerSimple → Parsed (Bool × AuthContext) → Outcome (NfsServerSimple × Effect)
serve_authenticated message s bad = fault
serve_authenticated message s reject = fault
serve_authenticated message s (accept (false, context)) = ok (send_error message system_err s)
serve_authenticated message s (accept (true, context)) =
    let version = negotiate_nfs_version message.header.vers in
    if version == 0
    then ok (send_error message prog_mismatch s)
    else ok (serve version message context s)

unfoldable pub handle_rpc_call :
    ℕ → RpcMessage → NfsServerSimple → Outcome (NfsServerSimple × Effect)
handle_rpc_call now message s =
    if message.header.prog == portmap_program
    then ok (handle_portmapper_call now message s, ends)
    else (if not (message.header.prog == nfs_program)
        then ok (send_error message prog_unavail s)
        else serve_authenticated message s (authenticate_request s.auth_manager message))

-- What processRpcMessage does with the result of deserializeMessage.
unfoldable pub handle_parsed :
    ℕ → NfsServerSimple → Outcome RpcMessage → Outcome (NfsServerSimple × Effect)
handle_parsed now s fault = fault
handle_parsed now s (thrown e) = ok (count_failed s, ends)
handle_parsed now s (ok message) =
    if not (validate_message message)
    then ok (send_error message garbage_args s)
    else (if message.header.type == call
        then handle_rpc_call now message s
        else ok (count_failed s, ends))

unfoldable pub process_rpc_message :
    ℕ → List ℕ → NfsServerSimple → Outcome (NfsServerSimple × Effect)
process_rpc_message now raw s =
    handle_parsed now (record s { total_requests = inc s.total_requests }) (deserialize_message raw)
