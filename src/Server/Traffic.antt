-- ===== src/Server/Traffic.antt =====
-- A concrete message through the server.
use simple_nfsd.Prelude.{ℕ, ◌≡◌, ◌≢◌, refl, true, List, [], ◌∷◌, ◌++◌, none, some, arith}
use simple_nfsd.Bytes.{ok, fault, words, read_uint32, be32, align4}
use simple_nfsd.Rpc.{
  RpcMessage, call, auth_none, no_auth, deserialize_message, deserialize_body, read_opaque,
  validate_message,
}
use simple_nfsd.Auth.{AuthContext, auth_manager, accept, authenticate, anonymous}
use simple_nfsd.Server.Versions.{
  negotiate_nfs_version, is_nfs_version_supported, get_supported_nfs_versions,
}
use simple_nfsd.Server.Calls.{
  NfsServerSimple, runs_procedure, nfs_program, authenticate_request, serve, serve_authenticated,
  handle_rpc_call, handle_parsed, process_rpc_message,
}
use simple_nfsd.Server.Access.{process_rpc_message-runs}
use simple_nfsd.Server.Root.{process_rpc_message-root}

-- A NULL call of NFS version 3 with credentials 1, 0, 0, 0.
abbrev raw : List ℕ
raw = words (7 ∷ 0 ∷ 2 ∷ 100003 ∷ 3 ∷ 0 ∷ 0 ∷ 4 ∷ []) ++ (1 ∷ 0 ∷ 0 ∷ 0 ∷ words (0 ∷ 0 ∷ []))

abbrev null_call : RpcMessage
null_call = record {
  header = record {
    xid = 7;
    type = call;
    rpcvers = 2;
    prog = 100003;
    vers = 3;
    proc = 0;
    cred = record { flavor = auth_none; length = 4; body = 1 ∷ 0 ∷ 0 ∷ 0 ∷ [] };
    verf = no_auth;
  };
  payload = [];
}

abbrev anybody : AuthContext
anybody = record { authenticated = true; uid = 0; gid = 0; gids = []; machine_name = anonymous }

abbrev server : NfsServerSimple
server = record {
  auth_manager = some auth_manager;
  portmapper = none;
  total_requests = 0;
  successful_requests = 0;
  failed_requests = 0;
}

abbrev server_after : NfsServerSimple
server_after = record server { total_requests = 1; successful_requests = 1 }

null_call_runs :
    process_rpc_message 0 raw server ≡ ok (server_after, runs_procedure 3 null_call anybody)
unfolding process_rpc_message handle_parsed handle_rpc_call serve_authenticated serve
    authenticate_request authenticate negotiate_nfs_version is_nfs_version_supported
    get_supported_nfs_versions deserialize_message deserialize_body read_opaque read_uint32 be32
    align4 validate_message
null_call_runs = refl

null_call_parses : deserialize_message raw ≢ fault
unfolding deserialize_message deserialize_body read_opaque read_uint32 be32 align4
null_call_parses e = cc

process_rpc_message-runs_example :
    (deserialize_message raw ≡ ok null_call)
    × (null_call.header.type ≡ call)
    × (null_call.header.prog ≡ nfs_program)
    × (3 ≡ negotiate_nfs_version null_call.header.vers)
    × (authenticate_request server.auth_manager null_call ≡ accept (true, anybody))
    × (anybody.authenticated ≡ true)
process_rpc_message-runs_example =
    process_rpc_message-runs 0 raw server server_after 3 null_call anybody null_call_runs

process_rpc_message-root_example : (rest : List ℕ) × (null_call.header.cred.body ≡ 1 ∷ rest)
unfolding auth_manager
process_rpc_message-root_example =
    process_rpc_message-root 0 raw server server_after 3 null_call anybody auth_manager refl refl
      (omega arith) null_call_runs refl
