-- ===== src/Rpc.antt =====
-- include/simple-nfsd/core/rpc_protocol.hpp and src/simple-nfsd/core/rpc_protocol.cpp: RPC messages,
-- their byte form and AUTH_SYS credentials.
-- An enum over uint32_t is its number, since static_cast takes any; `payload` is RpcMessage::data.
pub mod Layout
pub mod Overflow
pub mod RoundTrip
pub mod AuthSys
pub mod Replies
mod Runs
use simple_nfsd.Prelude.{
  ℕ, zero, suc, ◌+◌, ◌*◌, ◌%◌, ◌^◌, Bool, true, false, ◌&&◌, ◌||◌, not, List, [], ◌∷◌, ◌++◌, ltb,
  leb, ◌==◌, if◌then◌else◌, length, drop,
}
use simple_nfsd.Bytes.{
  Outcome, ok, thrown, fault, ◌>>=◌, RpcException, message_too_short, credentials_too_long,
  verifier_too_long, invalid_flavor, auth_sys_too_short, machinename_too_long, gids_too_long,
  align4, read_uint32, slice, bytes32,
}
use simple_nfsd.Bytes.Cursor.{
  Cursor, fresh_buffer, put_bytes, write_uint32, write_words, copy_bytes, align_cursor,
}

abbrev pub call : ℕ
call = 0

abbrev pub reply : ℕ
reply = 1

abbrev pub auth_none : ℕ
auth_none = 0

abbrev pub auth_sys : ℕ
auth_sys = 1

abbrev pub msg_denied : ℕ
msg_denied = 1

pub record RpcAuthData : Type 0 where
  pub flavor : ℕ
  pub body : List ℕ

pub record RpcOpaqueAuth : Type 0 where
  pub flavor : ℕ
  pub length : ℕ
  pub body : List ℕ

pub record RpcMessageHeader : Type 0 where
  pub xid : ℕ
  pub type : ℕ
  pub rpcvers : ℕ
  pub prog : ℕ
  pub vers : ℕ
  pub proc : ℕ
  pub cred : RpcOpaqueAuth
  pub verf : RpcOpaqueAuth

pub record RpcMessage : Type 0 where
  pub header : RpcMessageHeader
  pub payload : List ℕ

pub record AuthSysCredentials : Type 0 where
  pub stamp : ℕ
  pub machinename : List ℕ
  pub uid : ℕ
  pub gid : ℕ
  pub gids : List ℕ

-- serializeMessage: the size that it allocates.
unfoldable pub total_size : RpcMessage → ℕ
total_size m =
    let with_cred = align4 (4 * 7 + (4 + m.header.cred.length) % 2 ^ 32) in
    align4 (with_cred + (4 + m.header.verf.length) % 2 ^ 32) + length m.payload

-- The flavor, the length, the body and the alignment of an RpcOpaqueAuth.
unfoldable pub write_opaque : RpcOpaqueAuth → Cursor → Outcome Cursor
write_opaque a c = do
  c1 ← write_words (a.flavor ∷ a.length ∷ []) c
  c2 ← copy_bytes a.length a.body c1
  ok (align_cursor c2)

-- The six words in front of the credentials.
abbrev pub header_words : RpcMessageHeader → List ℕ
header_words h = h.xid ∷ h.type ∷ h.rpcvers ∷ h.prog ∷ h.vers ∷ h.proc ∷ []

-- The writes of serializeMessage into a vector of `size` bytes.
unfoldable pub serialize_into : ℕ → RpcMessage → Outcome (List ℕ)
serialize_into size m = do
  c1 ← write_words (header_words m.header) (fresh_buffer size)
  c2 ← write_opaque m.header.cred c1
  c3 ← write_opaque m.header.verf c2
  c4 ← copy_bytes (length m.payload) m.payload c3
  ok c4.buf

unfoldable pub serialize_message : RpcMessage → Outcome (List ℕ)
serialize_message m = serialize_into (total_size m) m

-- deserializeMessage reads the flavor and the length, checks and copies the body, and aligns; the
-- result is the authenticator and the offset behind it.
unfoldable pub read_opaque : RpcException → List ℕ → ℕ → Outcome (RpcOpaqueAuth × ℕ)
read_opaque too_long bytes offset = do
  flavor ← read_uint32 bytes offset
  len ← read_uint32 bytes (offset + 4)
  if ltb 0 len
      then (if ltb (length bytes) (offset + 8 + len)
          then thrown too_long
          else ok (
            record { flavor = flavor; length = len; body = slice bytes (offset + 8) len },
            align4 (offset + 8 + len),
          ))
      else ok (record { flavor = flavor; length = len; body = [] }, align4 (offset + 8))

-- What deserializeMessage does after the test of the size.
unfoldable pub deserialize_body : List ℕ → Outcome RpcMessage
deserialize_body bytes = do
  xid ← read_uint32 bytes 0
  type ← read_uint32 bytes 4
  rpcvers ← read_uint32 bytes 8
  prog ← read_uint32 bytes 12
  vers ← read_uint32 bytes 16
  proc ← read_uint32 bytes 20
  (cred, offset) ← read_opaque credentials_too_long bytes 24
  (verf, offset') ← read_opaque verifier_too_long bytes offset
  ok (record {
    header = record {
      xid = xid;
      type = type;
      rpcvers = rpcvers;
      prog = prog;
      vers = vers;
      proc = proc;
      cred = cred;
      verf = verf;
    };
    payload = if ltb offset' (length bytes) then drop offset' bytes else [];
  })

unfoldable pub deserialize_message : List ℕ → Outcome RpcMessage
deserialize_message bytes =
    if ltb (length bytes) 28 then thrown message_too_short else deserialize_body bytes

-- createAuthSys: the size that it allocates.
unfoldable pub auth_sys_size : AuthSysCredentials → ℕ
auth_sys_size c = 4 + (4 + length c.machinename) + 4 + 4 + (4 + length c.gids * 4)

unfoldable pub create_auth_sys : AuthSysCredentials → Outcome RpcAuthData
create_auth_sys creds = do
  c1 ←
      write_words (creds.stamp ∷ length creds.machinename ∷ []) (fresh_buffer (auth_sys_size creds))
  c2 ← put_bytes creds.machinename c1
  c3 ← write_words (creds.uid ∷ creds.gid ∷ length creds.gids ∷ []) (align_cursor c2)
  c4 ← write_words creds.gids c3
  ok (record { flavor = auth_sys; body = c4.buf })

-- The loop over the group ids, `count` of them to come.
unfoldable pub parse_gids : ℕ → List ℕ → ℕ → Outcome (List ℕ)
parse_gids zero bytes offset = ok []
parse_gids (suc count) bytes offset = elim (ltb (length bytes) (offset + 4)) [
  | true ↦ thrown gids_too_long
  | false ↦ do
    gid ← read_uint32 bytes offset
    gids ← parse_gids count bytes (offset + 4)
    ok (gid ∷ gids)
]

-- What parseAuthSys does after the tests of the flavor and the size.
unfoldable pub parse_auth_sys_body : List ℕ → Outcome AuthSysCredentials
parse_auth_sys_body bytes = do
  stamp ← read_uint32 bytes 0
  name_len ← read_uint32 bytes 4
  name ←
      if ltb (length bytes) (8 + name_len)
      then thrown machinename_too_long
      else ok (slice bytes 8 name_len)
  let offset = align4 (8 + name_len)
  uid ← read_uint32 bytes offset
  gid ← read_uint32 bytes (offset + 4)
  gid_count ← read_uint32 bytes (offset + 8)
  gids ← parse_gids gid_count bytes (offset + 12)
  ok (record { stamp = stamp; machinename = name; uid = uid; gid = gid; gids = gids })

unfoldable pub parse_auth_sys : RpcAuthData → Outcome AuthSysCredentials
parse_auth_sys auth =
    if not (auth.flavor == auth_sys)
    then thrown invalid_flavor
    else (if ltb (length auth.body) 16
        then thrown auth_sys_too_short
        else parse_auth_sys_body auth.body)

abbrev pub no_auth : RpcOpaqueAuth
no_auth = record { flavor = auth_none; length = 0; body = [] }

unfoldable pub create_call : ℕ → ℕ → ℕ → ℕ → List ℕ → RpcAuthData → RpcMessage
create_call xid program version procedure args cred = record {
  header = record {
    xid = xid;
    type = call;
    rpcvers = 2;
    prog = program;
    vers = version;
    proc = procedure;
    cred = record { flavor = cred.flavor; length = length cred.body; body = cred.body };
    verf = no_auth;
  };
  payload = args;
}

-- A reply without credentials; `state` is the RpcAcceptState argument.
unfoldable pub create_reply : ℕ → ℕ → List ℕ → RpcAuthData → RpcMessage
create_reply xid state results verf = record {
  header = record {
    xid = xid;
    type = reply;
    rpcvers = 2;
    prog = 0;
    vers = 0;
    proc = 0;
    cred = no_auth;
    verf = record { flavor = verf.flavor; length = length verf.body; body = verf.body };
  };
  payload = results;
}

unfoldable pub create_error_reply : ℕ → ℕ → RpcMessage
create_error_reply xid error = record {
  header = record {
    xid = xid;
    type = reply;
    rpcvers = 2;
    prog = 0;
    vers = 0;
    proc = 0;
    cred = no_auth;
    verf = no_auth;
  };
  payload = bytes32 msg_denied ++ bytes32 error;
}

unfoldable pub validate_message : RpcMessage → Bool
validate_message m =
    if not (m.header.rpcvers == 2)
    then false
    else (if not (m.header.type == call) && not (m.header.type == reply)
        then false
        else (if m.header.prog == 0 then false else (if m.header.vers == 0 then false else true)))

unfoldable pub get_message_size : RpcMessage → ℕ
get_message_size m =
    let with_cred = align4 (4 * 7 + (4 + m.header.cred.length) % 2 ^ 32) in
    align4 (with_cred + (4 + m.header.verf.length) % 2 ^ 32) + length m.payload
