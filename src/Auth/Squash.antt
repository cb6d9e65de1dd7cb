-- ===== src/Auth/Squash.antt =====
-- Who an authenticated caller is taken for.
use simple_nfsd.Prelude.{
  ℕ, ◌%◌, ◌^◌, ◌<◌, ◌≡◌, ◌≢◌, refl, subst, true, ◌||◌, List, [], ◌∷◌, ◌==◌, length, arith,
  Bool-cases, inl, inr, ◌⊎◌,
}
use simple_nfsd.Bytes.{ok}
use simple_nfsd.Rpc.{AuthSysCredentials, create_auth_sys, RpcAuthData}
use simple_nfsd.Rpc.AuthSys.{auth_sys_layout, create_auth_sys-layout, create_auth_sys-fault}
use native.Mathlib.Decide.{ℕ_discrete}
use simple_nfsd.Auth.{
  AuthResult, success, invalid_credentials, unsupported_auth_type, AuthContext, AuthManager, Parsed,
  accept, reject, bad, parse_auth_sys_credentials, validate_auth_sys_credentials, is_success,
  squash, accept_auth_sys, authenticate, anonymous,
}
use simple_nfsd.Auth.Parse.{parse_auth_sys_credentials-ne-bad}

-- Under root or all squash no AUTH_SYS caller is taken for uid 0, if the anonymous user is not.
pub authenticate-no_root :
    (m : AuthManager) (rest verifier : List ℕ) (c c' : AuthContext)
    → (m.root_squash || m.all_squash) ≡ true
    → m.anon_uid ≢ 0
    → authenticate m (2 ∷ rest) verifier c ≡ accept (success, c')
    → (c'.uid ≢ 0) × (c'.authenticated ≡ true)
unfolding authenticate accept_auth_sys squash
authenticate-no_root m rest verifier c c' on anon e = ground arith

-- Credentials whose first byte is 1 are taken for uid 0 and gid 0, whatever follows that byte and
-- whatever the squash options say.
authenticate-none_is_root :
    (m : AuthManager) (rest verifier : List ℕ) (c : AuthContext)
    → (c' : AuthContext) × (authenticate m (1 ∷ rest) verifier c ≡ accept (success, c'))
      × (c'.authenticated ≡ true)
      × (c'.uid ≡ 0)
      × (c'.gid ≡ 0)
unfolding authenticate
authenticate-none_is_root m rest verifier c = (
  record c { authenticated = true; uid = 0; gid = 0; machine_name = anonymous },
  refl,
  refl,
  refl,
  refl,
)

accept_auth_sys_total :
    (m : AuthManager) (c : AuthContext) (p : Parsed AuthSysCredentials)
    → p ≢ bad
    → (r : AuthResult) × (c' : AuthContext) × (accept_auth_sys m c p ≡ accept (r, c'))
      × ((is_success r ≡ true) ⊎ (c' ≡ c))
unfolding accept_auth_sys
accept_auth_sys_total m c bad h = absurd (h refl)
accept_auth_sys_total m c reject h = (invalid_credentials, c, refl, inr refl)
accept_auth_sys_total m c (accept creds) h =
    let r = validate_auth_sys_credentials creds in
    elim (Bool-cases (is_success r)) [
      | inl good ↦ rw good (r, _, refl, inl good)
      | inr wrong ↦ rw wrong (r, c, refl, inr refl)
    ]

-- authenticate reads nothing outside the credentials, and a call that it does not grant leaves the
-- context as it was.
pub authenticate_total :
    (m : AuthManager) (credentials verifier : List ℕ) (c : AuthContext)
    → (r : AuthResult) × (c' : AuthContext) × (authenticate m credentials verifier c
        ≡ accept (r, c'))
      × ((is_success r ≡ true) ⊎ (c' ≡ c))
unfolding authenticate
authenticate_total m [] verifier c = (invalid_credentials, c, refl, inr refl)
authenticate_total m (t ∷ rest) verifier c = elim (Bool-cases (t == 1)) [
  | inl none_type ↦ rw none_type (
    success,
    record c { authenticated = true; uid = 0; gid = 0; machine_name = anonymous },
    refl,
    inl refl,
  )
  | inr other ↦ elim (Bool-cases (t == 2)) [
    | inl sys ↦
        rw (other, sys)
          (accept_auth_sys_total m c (parse_auth_sys_credentials (t ∷ rest))
            (parse_auth_sys_credentials-ne-bad (t ∷ rest)))
    | inr unknown ↦ rw (other, unknown) (unsupported_auth_type, c, refl, inr refl)
  ]
]

-- Credentials that createAuthSys writes with a stamp below 2 ^ 24 are refused as an unsupported type:
-- their first byte is the high byte of the stamp, and no authentication type.
authenticate-create_auth_sys :
    (m : AuthManager) (creds : AuthSysCredentials) (a : RpcAuthData) (verifier : List ℕ)
    (c : AuthContext)
    → creds.stamp < 2 ^ 24
    → create_auth_sys creds ≡ ok a
    → authenticate m a.body verifier c ≡ accept (unsupported_auth_type, c)
authenticate-create_auth_sys m creds a verifier c h e =
    elim (ℕ_discrete (length creds.machinename % 4) 0) [
      | yes aligned ↦
          let same : auth_sys_layout creds ≡ a.body =
            ground (arith, create_auth_sys-layout creds aligned) in
          subst (λ (b : List ℕ). authenticate m b verifier c ≡ accept (unsupported_auth_type, c))
            same (unfold authenticate in ground arith)
      | no odd ↦ ground (arith, create_auth_sys-fault creds odd)
    ]
