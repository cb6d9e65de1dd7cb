-- ===== src/Nfs2/Samples.antt =====
-- A disk with one file, servers on it, and messages to them, for the tests of the procedures.
use simple_nfsd.Prelude.{
  ℕ, Bool, true, false, ◌||◌, List, [], ◌∷◌, ◌++◌, none, some, if◌then◌else◌, length,
}
use simple_nfsd.Rpc.{RpcMessage, call, no_auth}
use simple_nfsd.Auth.{AuthContext}
use simple_nfsd.Text.{codes, equal}
use simple_nfsd.Security.{security_manager}
use simple_nfsd.Server.Handles.{no_handles}
use simple_nfsd.Nfs2.{Files, State}

-- The directory /srv with the file /srv/a, whose bytes are the state.
abbrev pub is_root : List ℕ → Bool
is_root path = equal path (codes "/srv")

abbrev pub is_file : List ℕ → Bool
is_file path = equal path (codes "/srv/a")

abbrev pub extended : Bool → List ℕ → List ℕ → List ℕ × Bool
extended true f b = (f ++ b, true)
extended false f b = (f, false)

abbrev pub disk : Files (List ℕ)
disk = record {
  exists = λ f p. some (is_root p || is_file p);
  is_directory = λ f p. some (is_root p);
  is_regular_file = λ f p. some (is_file p);
  is_empty = λ f p. some false;
  file_size = λ f p. some (length f);
  permissions = λ f p. some 420;
  canonical = λ f p. if is_root p || is_file p then some p else none;
  space = λ f p. some (1_000_000_000, 500_000_000);
  entries = λ f p. codes "a" ∷ [];
  contents = λ f p. if is_file p then some f else none;
  append = λ f p b. extended (is_file p) f b;
  create_file = λ f p. (f, false);
  touch = λ f p. (f, some tt);
  create_directory = λ f p. (f, none);
  remove = λ f p. (f, none);
  rename = λ f p q. (f, none);
  create_hard_link = λ f p q. (f, none);
  create_symlink = λ f p q. (f, none);
}

abbrev pub hello : List ℕ
hello = codes "hello"

-- A server that has just been made, and one that has given out a handle.
abbrev pub new_server : State (List ℕ)
new_server = record {
  files = hello;
  handles = no_handles;
  has_auth_manager = true;
  security = record security_manager { initialized = true };
  root_path = codes "/srv";
  successful_requests = 0;
  failed_requests = 0;
  bytes_read = 0;
  bytes_written = 0;
}

abbrev pub server : State (List ℕ)
server = record new_server {
  handles = record { file_handles = (1, codes "a") ∷ []; next_handle_id = 2 };
}

abbrev pub user : AuthContext
user = record { authenticated = true; uid = 7; gid = 7; gids = []; machine_name = [] }

abbrev pub message_for : ℕ → List ℕ → RpcMessage
message_for proc payload = record {
  header = record {
    xid = 9;
    type = call;
    rpcvers = 2;
    prog = 100003;
    vers = 2;
    proc = proc;
    cred = no_auth;
    verf = no_auth;
  };
  payload = payload;
}
