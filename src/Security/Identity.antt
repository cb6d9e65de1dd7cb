-- ===== src/Security/Identity.antt =====
-- Who a login is, and how the client came to be that user.
use simple_nfsd.Prelude.{
  ℕ, ◌≡◌, refl, subst, Bool, true, false, ◌&&◌, not, List, ◌==◌, if◌then◌else◌, arith,
}
use simple_nfsd.Bytes.{Outcome, ok, thrown, fault}
use simple_nfsd.Rpc.{RpcMessage, auth_sys}
use simple_nfsd.Text.{codes}
use simple_nfsd.Security.{SecurityContext, SecurityConfig, SecurityManager}
use simple_nfsd.Security.Credentials.{
  Parse, accepts, rejects, bad, parse_auth_sys_credentials, parse_auth_dh_credentials,
  parse_kerberos_credentials,
}
use simple_nfsd.Security.Login.{
  Login, auth_dh, rpcsec_gss, granted, refused, after_auth_sys, after_auth_dh, after_kerberos,
  authenticate, authenticate_auth_sys, authenticate_auth_dh, authenticate_kerberos,
}

-- The method is on, the credentials are its own, and they parse; the context records the method.
pub record ByMethod (enabled : Bool) (method flavor : ℕ) (parsed : Parse (Unit {0}))
    (c : SecurityContext) : Type 0 where
  pub allowed : enabled ≡ true
  pub chosen : flavor ≡ method
  pub offset : ℕ
  pub user : SecurityContext
  pub parses : parsed ≡ accepts tt offset user
  pub context : c ≡ record user { auth_flavor = method; authenticated = true }

-- The ways in.
pub data Entrance (config : SecurityConfig) (flavor : ℕ) (body : List ℕ)
    (before after : SecurityContext) : Type 0 where
  by_auth_sys :
      ByMethod config.enable_auth_sys auth_sys flavor (parse_auth_sys_credentials body before) after
      → Entrance config flavor body before after
  by_auth_dh :
      ByMethod config.enable_auth_dh auth_dh flavor (parse_auth_dh_credentials body before) after
      → Entrance config flavor body before after
  by_kerberos :
      ByMethod config.enable_kerberos rpcsec_gss flavor
        (parse_kerberos_credentials body before)
        after
      → Entrance config flavor body before after
  anonymously :
      config.anonymous_access ≡ true
      → after ≡ record before {
        authenticated = true;
        auth_flavor = 0;
        uid = 65534;
        gid = 65534;
        username = codes "anonymous";
      }
      → Entrance config flavor body before after

-- The manager runs, and the context came in by one of the ways.
pub record IsJustified (m : SecurityManager) (flavor : ℕ) (body : List ℕ)
    (before after : SecurityContext) : Type 0 where
  pub running : m.initialized ≡ true
  pub entrance : Entrance m.config flavor body before after

-- What holds of the context of a login that succeeds.
Grants : (SecurityContext → Type 0) → Outcome Login → Type 0
Grants P (ok (m, c, true)) = P c
Grants P (ok (m, c, false)) = Unit {0}
Grants P (thrown e) = Unit {0}
Grants P fault = Unit {0}

if-Grants :
    (P : SecurityContext → Type 0) (b : Bool) (x y : Outcome Login)
    → (b ≡ true → Grants P x)
    → (b ≡ false → Grants P y)
    → Grants P (if b then x else y)
if-Grants P true x y h k = h refl
if-Grants P false x y h k = k refl

Grants_elim : (P : SecurityContext → Type 0) (r : Login) → Grants P (ok r) → r.2 ≡ true → P r.1
unfolding Grants
Grants_elim P (m, c, true) g e = g
Grants_elim P (m, c, false) g e = absurd (cc)

after_auth_sys-Grants :
    (now : ℕ) (m : SecurityManager) (on : Bool) (flavor : ℕ) (p : Parse (Unit {0}))
    → on ≡ true
    → flavor ≡ auth_sys
    → Grants (ByMethod on auth_sys flavor p) (after_auth_sys now m p)
unfolding Grants after_auth_sys granted
after_auth_sys-Grants now m on flavor bad allowed chosen = tt
after_auth_sys-Grants now m on flavor (rejects c) allowed chosen = tt
after_auth_sys-Grants now m on flavor (accepts u k c) allowed chosen = record {
  allowed = allowed;
  chosen = chosen;
  offset = k;
  user = c;
  parses = refl;
  context = refl;
}

after_auth_dh-Grants :
    (now : ℕ) (m : SecurityManager) (on : Bool) (flavor : ℕ) (p : Parse (Unit {0}))
    → on ≡ true
    → flavor ≡ auth_dh
    → Grants (ByMethod on auth_dh flavor p) (after_auth_dh now m p)
unfolding Grants after_auth_dh granted refused
after_auth_dh-Grants now m on flavor bad allowed chosen = tt
after_auth_dh-Grants now m on flavor (rejects c) allowed chosen = tt
after_auth_dh-Grants now m on flavor (accepts u k c) allowed chosen = record {
  allowed = allowed;
  chosen = chosen;
  offset = k;
  user = c;
  parses = refl;
  context = refl;
}

after_kerberos-Grants :
    (now : ℕ) (m : SecurityManager) (on : Bool) (flavor : ℕ) (p : Parse (Unit {0}))
    → on ≡ true
    → flavor ≡ rpcsec_gss
    → Grants (ByMethod on rpcsec_gss flavor p) (after_kerberos now m p)
unfolding Grants after_kerberos granted refused
after_kerberos-Grants now m on flavor bad allowed chosen = tt
after_kerberos-Grants now m on flavor (rejects c) allowed chosen = tt
after_kerberos-Grants now m on flavor (accepts u k c) allowed chosen = record {
  allowed = allowed;
  chosen = chosen;
  offset = k;
  user = c;
  parses = refl;
  context = refl;
}

Grants-map :
    (P Q : SecurityContext → Type 0) (o : Outcome Login)
    → ((c : SecurityContext) → P c → Q c)
    → Grants P o
    → Grants Q o
unfolding Grants
Grants-map P Q (ok (m, c, true)) f g = f c g
Grants-map P Q (ok (m, c, false)) f g = g
Grants-map P Q (thrown e) f g = g
Grants-map P Q fault f g = g

not-false : (b : Bool) → not b ≡ false → b ≡ true
not-false b e = ground arith

authenticate-Grants :
    (now : ℕ) (message : RpcMessage) (before : SecurityContext) (m : SecurityManager)
    → Grants
        (IsJustified m message.header.cred.flavor message.header.cred.body before)
        (authenticate now message before m)
unfolding authenticate authenticate_auth_sys authenticate_auth_dh authenticate_kerberos Grants
authenticate-Grants now message before m =
    let flavor = message.header.cred.flavor in
    let body = message.header.cred.body in
    let P = IsJustified m flavor body before in
    if-Grants P (not m.initialized) _ _ (λ off. tt)
      (λ ready.
        let i = not-false m.initialized ready in
        if-Grants P (m.config.enable_auth_sys && flavor == auth_sys) _ _
          (λ on.
            if-Grants P (not (flavor == auth_sys)) _ _ (λ other. tt)
              (λ chosen.
                Grants-map _ P _ (λ c b. record { running = i; entrance = by_auth_sys b })
                  (after_auth_sys-Grants now m m.config.enable_auth_sys flavor
                    (parse_auth_sys_credentials body before) (ground (arith, on))
                    (ground (arith, on)))))
          (λ not_sys.
            if-Grants P (m.config.enable_auth_dh && flavor == auth_dh) _ _
              (λ on.
                if-Grants P (not (flavor == auth_dh)) _ _ (λ other. tt)
                  (λ chosen.
                    Grants-map _ P _ (λ c b. record { running = i; entrance = by_auth_dh b })
                      (after_auth_dh-Grants now m m.config.enable_auth_dh flavor
                        (parse_auth_dh_credentials body before) (ground (arith, on))
                        (ground (arith, on)))))
              (λ not_dh.
                if-Grants P (m.config.enable_kerberos && flavor == rpcsec_gss) _ _
                  (λ on.
                    if-Grants P (not (flavor == rpcsec_gss)) _ _ (λ other. tt)
                      (λ chosen.
                        Grants-map _ P _ (λ c b. record { running = i; entrance = by_kerberos b })
                          (after_kerberos-Grants now m m.config.enable_kerberos flavor
                            (parse_kerberos_credentials body before) (ground (arith, on))
                            (ground (arith, on)))))
                  (λ not_kerberos.
                    if-Grants P m.config.anonymous_access _ _
                      (λ anyone. record { running = i; entrance = anonymously anyone refl })
                      (λ closed. tt)))))

-- A login that succeeds in authenticate happens in a running manager, and by an enabled method that
-- the flavor names and whose parser accepts the credentials, the context being the user that the
-- parser fills in, marked authenticated with that flavor; or anonymously, where that is configured,
-- as uid and gid 65534.
pub authenticate-IsJustified :
    (now : ℕ) (message : RpcMessage) (before : SecurityContext) (m : SecurityManager) (r : Login)
    → authenticate now message before m ≡ ok r
    → r.2 ≡ true
    → IsJustified m message.header.cred.flavor message.header.cred.body before r.1
authenticate-IsJustified now message before m r e answer =
    let P = IsJustified m message.header.cred.flavor message.header.cred.body before in
    Grants_elim P r (subst (Grants P) e (authenticate-Grants now message before m)) answer
