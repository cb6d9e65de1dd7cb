-- ===== src/Auth.antt =====
-- include/simple-nfsd/security/auth.hpp and src/simple-nfsd/security/auth.cpp: what the server makes
-- of the credentials of a call. The user and group databases and the verifier's clock are left out.
pub mod Parse
pub mod Squash
mod Runs
use simple_nfsd.Prelude.{
  ℕ, zero, suc, ◌+◌, ◌%◌, Bool, true, false, ◌&&◌, ◌||◌, not, List, [], ◌∷◌, ltb, leb, ◌==◌,
  if◌then◌else◌, length,
}
use simple_nfsd.Bytes.{Outcome, ok, thrown, fault, read_uint32, slice}
use simple_nfsd.Rpc.{AuthSysCredentials}

pub data AuthResult : Type 0 where
  success failed invalid_credentials unsupported_auth_type : AuthResult

pub record AuthContext : Type 0 where
  pub authenticated : Bool
  pub uid : ℕ
  pub gid : ℕ
  pub gids : List ℕ
  pub machine_name : List ℕ

-- The squash options of the manager.
pub record AuthManager : Type 0 where
  pub root_squash : Bool
  pub all_squash : Bool
  pub anon_uid : ℕ
  pub anon_gid : ℕ

unfoldable pub auth_manager : AuthManager
auth_manager = record { root_squash = true; all_squash = false; anon_uid = 65534; anon_gid = 65534 }

-- A parser returns false, `reject`, or goes on with a value; `bad` is an access outside the vector.
pub data Parsed {ℓ} (A : Type ℓ) : Type ℓ where
  accept : A → Parsed A
  reject : Parsed A
  bad : Parsed A

infixl 5 ◌>>=◌
abbrev pub ◌>>=◌ {ℓ κ} : {A : Type ℓ} {B : Type κ} → Parsed A → (A → Parsed B) → Parsed B
accept a >>= f = f a
reject >>= f = reject
bad >>= f = bad

abbrev pub lift : Outcome ℕ → Parsed ℕ
lift (ok v) = accept v
lift (thrown e) = bad
lift fault = bad

-- `if (offset + 4 > data.size()) return false;`, then memcpy and ntohl.
unfoldable pub checked_uint32 : List ℕ → ℕ → Parsed ℕ
checked_uint32 bytes offset =
    if ltb (length bytes) (offset + 4) then reject else lift (read_uint32 bytes offset)

-- `while (offset % 4 != 0) { offset++; if (offset > size) return false; }`, for `fuel` rounds.
unfoldable pub align_within : ℕ → ℕ → ℕ → Parsed ℕ
align_within zero size offset = bad
align_within (suc fuel) size offset = elim (offset % 4 == 0) [
  | true ↦ accept offset
  | false ↦ elim (ltb size (offset + 1)) [
    | true ↦ reject
    | false ↦ align_within fuel size (offset + 1)
  ]
]

-- The loop over the group ids, which stops at the end of the data.
unfoldable pub read_gids : ℕ → List ℕ → ℕ → Parsed (List ℕ)
read_gids zero bytes offset = accept []
read_gids (suc count) bytes offset = elim (leb (offset + 4) (length bytes)) [
  | false ↦ accept []
  | true ↦ do
    gid ← lift (read_uint32 bytes offset)
    gids ← read_gids count bytes (offset + 4)
    accept (gid ∷ gids)
]

-- The machine name, if it lies within the data.
unfoldable pub checked_slice : List ℕ → ℕ → ℕ → Parsed (List ℕ)
checked_slice bytes offset n =
    if ltb (length bytes) (offset + n) then reject else accept (slice bytes offset n)

unfoldable pub parse_auth_sys_credentials : List ℕ → Parsed AuthSysCredentials
parse_auth_sys_credentials bytes = if ltb (length bytes) 20 then reject else do
  stamp ← checked_uint32 bytes 1
  name_len ← checked_uint32 bytes 5
  name ← checked_slice bytes 9 name_len
  offset ← align_within 4 (length bytes) (9 + name_len)
  uid ← checked_uint32 bytes offset
  gid ← checked_uint32 bytes (offset + 4)
  gids_count ← checked_uint32 bytes (offset + 8)
  gids ← read_gids gids_count bytes (offset + 12)
  accept (record { stamp = stamp; machinename = name; uid = uid; gid = gid; gids = gids })

unfoldable pub is_valid_uid : ℕ → Bool
is_valid_uid uid = leb uid 65535

unfoldable pub is_valid_gid : ℕ → Bool
is_valid_gid gid = leb gid 65535

-- The loop over the additional groups.
unfoldable pub validate_gids : List ℕ → AuthResult
validate_gids [] = success
validate_gids (gid ∷ gids) =
    if not (is_valid_gid gid) then invalid_credentials else validate_gids gids

unfoldable pub validate_auth_sys_credentials : AuthSysCredentials → AuthResult
validate_auth_sys_credentials creds =
    if length creds.machinename == 0
    then invalid_credentials
    else (if not (is_valid_uid creds.uid) || not (is_valid_gid creds.gid)
        then invalid_credentials
        else validate_gids creds.gids)

abbrev pub is_success : AuthResult → Bool
is_success success = true
is_success other = false

-- The anonymous user in place of the user of the context.
abbrev pub squashed : AuthManager → AuthContext → AuthContext
squashed m c = record c { uid = m.anon_uid; gid = m.anon_gid; gids = m.anon_gid ∷ [] }

unfoldable pub squash : AuthManager → AuthContext → AuthContext
squash m c =
    if m.all_squash then squashed m c else (if m.root_squash && c.uid == 0 then squashed m c else c)

-- The case AUTH_SYS of authenticate, once the credentials are parsed.
unfoldable pub accept_auth_sys :
    AuthManager → AuthContext → Parsed AuthSysCredentials → Parsed (AuthResult × AuthContext)
accept_auth_sys m context reject = accept (invalid_credentials, context)
accept_auth_sys m context bad = bad
accept_auth_sys m context (accept creds) =
    let result = validate_auth_sys_credentials creds in
    if is_success result
    then accept (
      result,
      squash m (record {
        authenticated = true;
        uid = creds.uid;
        gid = creds.gid;
        gids = creds.gids;
        machine_name = creds.machinename;
      }),
    )
    else accept (result, context)

-- "anonymous"
abbrev pub anonymous : List ℕ
anonymous = 97 ∷ 110 ∷ 111 ∷ 110 ∷ 121 ∷ 109 ∷ 111 ∷ 117 ∷ 115 ∷ []

-- The result, and the context as the call leaves it.
unfoldable pub authenticate :
    AuthManager → List ℕ → List ℕ → AuthContext → Parsed (AuthResult × AuthContext)
authenticate m [] verifier context = accept (invalid_credentials, context)
authenticate m (auth_type ∷ rest) verifier context =
    if auth_type == 1
    then accept (
      success,
      record context { authenticated = true; uid = 0; gid = 0; machine_name = anonymous },
    )
    else (if auth_type == 2
        then accept_auth_sys m context (parse_auth_sys_credentials (auth_type ∷ rest))
        else accept (unsupported_auth_type, context))

unfoldable pub check_path_access : List ℕ → AuthContext → Bool → Bool → Bool
check_path_access path context read write =
    if not context.authenticated then false else (if context.uid == 0 then true else true)
