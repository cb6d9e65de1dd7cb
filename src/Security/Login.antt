-- ===== src/Security/Login.antt =====
-- authenticate of SecurityManager and its three methods, src/simple-nfsd/security/security.cpp. The
-- result is the manager, the context as the call leaves it, and the answer.
use simple_nfsd.Prelude.{ℕ, Bool, true, false, ◌&&◌, not, List, ◌==◌, length, if◌then◌else◌}
use simple_nfsd.Bytes.{Outcome, ok, fault}
use simple_nfsd.Rpc.{RpcMessage, auth_sys}
use simple_nfsd.Text.{codes}
use simple_nfsd.Security.{SecurityContext, SecurityManager, inc, log_access}
use simple_nfsd.Security.Credentials.{
  Parse, accepts, rejects, bad, parse_auth_sys_credentials, parse_auth_dh_credentials,
  parse_kerberos_credentials,
}

abbrev pub auth_dh : ℕ
auth_dh = 3

abbrev pub rpcsec_gss : ℕ
rpcsec_gss = 6

abbrev pub Login : Type 0
Login = SecurityManager × SecurityContext × Bool

unfoldable pub log_authentication :
    ℕ → SecurityContext → Bool → List ℕ → SecurityManager → SecurityManager
unfolding log_access
log_authentication now context success details m =
    log_access now context (codes "AUTHENTICATION") (codes "SYSTEM") success details m

unfoldable pub count_success : SecurityManager → SecurityManager
count_success m = record m {
  stats = record (m.stats) {
    total_authentications = inc m.stats.total_authentications;
    successful_authentications = inc m.stats.successful_authentications;
  };
}

unfoldable pub count_failure : SecurityManager → SecurityManager
count_failure m = record m {
  stats = record (m.stats) {
    total_authentications = inc m.stats.total_authentications;
    failed_authentications = inc m.stats.failed_authentications;
  };
}

-- The common end of the three methods.
unfoldable pub granted : ℕ → ℕ → List ℕ → SecurityContext → SecurityManager → Login
granted now flavor details context m =
    let c = record context { auth_flavor = flavor; authenticated = true } in
    (count_success (log_authentication now c true details m), c, true)

unfoldable pub refused : ℕ → List ℕ → SecurityContext → SecurityManager → Login
refused now details context m =
    (count_failure (log_authentication now context false details m), context, false)

-- What each method does with the result of its parser.
unfoldable pub after_auth_sys : ℕ → SecurityManager → Parse (Unit {0}) → Outcome Login
after_auth_sys now m bad = fault
after_auth_sys now m (rejects context) = ok (m, context, false)
after_auth_sys now m (accepts u offset context) =
    ok (granted now auth_sys (codes "AUTH_SYS authentication successful") context m)

unfoldable pub after_auth_dh : ℕ → SecurityManager → Parse (Unit {0}) → Outcome Login
after_auth_dh now m bad = fault
after_auth_dh now m (rejects context) =
    ok (refused now (codes "AUTH_DH credential parsing failed") context m)
after_auth_dh now m (accepts u offset context) =
    ok (granted now auth_dh (codes "AUTH_DH authentication successful") context m)

unfoldable pub after_kerberos : ℕ → SecurityManager → Parse (Unit {0}) → Outcome Login
after_kerberos now m bad = fault
after_kerberos now m (rejects context) =
    ok (refused now (codes "Kerberos credential parsing failed") context m)
after_kerberos now m (accepts u offset context) =
    ok (granted now rpcsec_gss (codes "Kerberos authentication successful") context m)

unfoldable pub authenticate_auth_sys :
    ℕ → RpcMessage → SecurityContext → SecurityManager → Outcome Login
authenticate_auth_sys now message context m =
    if not (message.header.cred.flavor == auth_sys)
    then ok (m, context, false)
    else after_auth_sys now m (parse_auth_sys_credentials message.header.cred.body context)

unfoldable pub authenticate_auth_dh :
    ℕ → RpcMessage → SecurityContext → SecurityManager → Outcome Login
authenticate_auth_dh now message context m =
    if not (message.header.cred.flavor == auth_dh)
    then ok (m, context, false)
    else after_auth_dh now m (parse_auth_dh_credentials message.header.cred.body context)

unfoldable pub authenticate_kerberos :
    ℕ → RpcMessage → SecurityContext → SecurityManager → Outcome Login
authenticate_kerberos now message context m =
    if not (message.header.cred.flavor == rpcsec_gss)
    then ok (m, context, false)
    else after_kerberos now m (parse_kerberos_credentials message.header.cred.body context)

-- nobody and nogroup
abbrev pub anonymous_user : SecurityContext → SecurityContext
anonymous_user c = record c {
  authenticated = true;
  auth_flavor = 0;
  uid = 65534;
  gid = 65534;
  username = codes "anonymous";
}

unfoldable pub authenticate : ℕ → RpcMessage → SecurityContext → SecurityManager → Outcome Login
unfolding authenticate_auth_sys authenticate_auth_dh authenticate_kerberos
authenticate now message context m =
    let flavor = message.header.cred.flavor in
    if not m.initialized
    then ok (m, context, false)
    else (if m.config.enable_auth_sys && flavor == auth_sys
        then authenticate_auth_sys now message context m
        else (if m.config.enable_auth_dh && flavor == auth_dh
            then authenticate_auth_dh now message context m
            else (if m.config.enable_kerberos && flavor == rpcsec_gss
                then authenticate_kerberos now message context m
                else (if m.config.anonymous_access
                    then ok (m, anonymous_user context, true)
                    else ok (m, context, false)))))

unfoldable pub validate_credentials : SecurityContext → Bool
validate_credentials context = context.authenticated && not (length context.username == 0)
