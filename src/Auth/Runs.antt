-- ===== src/Auth/Runs.antt =====
-- Concrete credentials, and the theorems at concrete inputs.
use simple_nfsd.Prelude.{ℕ, ◌≡◌, ◌≢◌, refl, true, false, List, [], ◌∷◌, ◌++◌, arith}
use simple_nfsd.Bytes.{bytes32, be32, read_uint32}
use simple_nfsd.Rpc.{AuthSysCredentials}
use simple_nfsd.Auth.{
  success, AuthContext, accept, auth_manager, align_within, parse_auth_sys_credentials,
  authenticate, squash, checked_uint32, checked_slice, read_gids, accept_auth_sys,
  validate_auth_sys_credentials, validate_gids, is_valid_uid, is_valid_gid,
}
use simple_nfsd.Auth.Squash.{authenticate-no_root}

abbrev nobody : AuthContext
nobody = record { authenticated = false; uid = 0; gid = 0; gids = []; machine_name = [] }

-- Type 2, a stamp, the name "abc", uid 0, gid 0 and one more group.
abbrev root_body : List ℕ
root_body =
    2 ∷ 0 ∷ 0 ∷ 0 ∷ 1 ∷ 0 ∷ 0 ∷ 0 ∷ 3 ∷ 97 ∷ 98 ∷ 99 ∷ bytes32 0
    ++ (bytes32 0 ++ (bytes32 1 ++ bytes32 5))

abbrev squashed_root : AuthContext
squashed_root = record {
  authenticated = true;
  uid = 65534;
  gid = 65534;
  gids = 65534 ∷ [];
  machine_name = 97 ∷ 98 ∷ 99 ∷ [];
}

root_is_squashed : authenticate auth_manager root_body [] nobody ≡ accept (success, squashed_root)
unfolding authenticate auth_manager accept_auth_sys parse_auth_sys_credentials checked_uint32
    checked_slice align_within read_gids read_uint32 be32 validate_auth_sys_credentials
    validate_gids is_valid_uid is_valid_gid squash
root_is_squashed = refl

authenticate-no_root_example : (squashed_root.uid ≢ 0) × (squashed_root.authenticated ≡ true)
unfolding auth_manager
authenticate-no_root_example =
    authenticate-no_root auth_manager _ [] nobody squashed_root refl (omega arith) root_is_squashed

abbrev root : AuthSysCredentials
root = record { stamp = 1; machinename = 104 ∷ 111 ∷ 115 ∷ 116 ∷ []; uid = 0; gid = 0; gids = [] }
