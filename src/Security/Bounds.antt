-- ===== src/Security/Bounds.antt =====
-- The parsers of credentials stay within their data, so authenticate does not fault.
use simple_nfsd.Prelude.{
  ℕ, ◌+◌, ◌≤◌, ◌≡◌, ◌≢◌, refl, Bool, true, false, List, leb, drop, if◌then◌else◌, length, arith,
}
use simple_nfsd.Bytes.{Outcome, ok, read_uint32, be32}
use simple_nfsd.Rpc.{RpcMessage}
use simple_nfsd.Auth.{Parsed, bad as out_of_bounds, accept, reject}
use simple_nfsd.Auth.Parse.{checked-ne-bad, slice-ne-bad, align-ne-bad, gids-ne-bad}
use simple_nfsd.Security.{SecurityContext, SecurityManager}
use simple_nfsd.Security.Credentials.{
  Parse, accepts, rejects, bad, Parser, ◌>>=◌, from_parsed, take_uint32, raw_uint32, take_bytes,
  align, take_gids, update, take_opaque, require, parse_auth_sys_user, parse_auth_sys_fields,
  parse_auth_sys_credentials, parse_auth_dh_fields, parse_auth_dh_credentials, parse_gss_fields,
  parse_kerberos_fields, parse_kerberos_credentials,
}
use simple_nfsd.Security.Login.{Login, after_auth_sys, after_auth_dh, after_kerberos, authenticate}

-- A parser that reads nothing outside its data, from any offset.
abbrev Stays : {A : Type 0} → Parser A → Type 0
Stays p = (offset : ℕ) (context : SecurityContext) → p offset context ≢ bad

>>=-Stays :
    {A B : Type 0} (m : Parser A) (f : A → Parser B)
    → Stays m
    → ((a : A) → Stays (f a))
    → Stays (m >>= f)
>>=-Stays m f h k offset context = go (m offset context) (h offset context)
  where
    go :
        (r : Parse _)
        → r ≢ bad
        → (elim r [
          | accepts a offset' context' ↦ f a offset' context'
          | rejects context' ↦ rejects context'
          | bad ↦ bad
        ])
          ≢ bad
    go (accepts a o c) n = k a o c
    go (rejects c) n = λ e. cc
    go bad n = λ e. n refl

from_parsed-Stays :
    {A : Type 0} (moved : A → ℕ) (p : Parsed A) (context : SecurityContext)
    → p ≢ out_of_bounds
    → from_parsed moved p context ≢ bad
from_parsed-Stays moved (accept a) context h = λ e. cc
from_parsed-Stays moved reject context h = λ e. cc
from_parsed-Stays moved out_of_bounds context h = λ e. h refl

take_uint32-Stays : (bytes : List ℕ) → Stays (take_uint32 bytes)
unfolding take_uint32
take_uint32-Stays bytes offset context = from_parsed-Stays _ _ context (checked-ne-bad bytes offset)

take_bytes-Stays : (bytes : List ℕ) (n : ℕ) → Stays (take_bytes bytes n)
unfolding take_bytes
take_bytes-Stays bytes n offset context =
    from_parsed-Stays _ _ context (slice-ne-bad bytes offset n)

align-Stays : (bytes : List ℕ) → Stays (align bytes)
unfolding align
align-Stays bytes offset context =
    from_parsed-Stays _ _ context (align-ne-bad (length bytes) offset)

take_gids-Stays : (bytes : List ℕ) (count : ℕ) → Stays (take_gids bytes count)
unfolding take_gids
take_gids-Stays bytes count offset context =
    from_parsed-Stays _ _ context (gids-ne-bad count bytes offset)

update-Stays : (f : SecurityContext → SecurityContext) → Stays (update f)
unfolding update
update-Stays f offset context e = cc

require-Stays : (b : Bool) → Stays (require b)
require-Stays true offset context e = cc
require-Stays false offset context e = cc

take_opaque-Stays : (bytes : List ℕ) → Stays (take_opaque bytes)
unfolding take_opaque
take_opaque-Stays bytes = >>=-Stays _ _ (take_uint32-Stays bytes) (take_bytes-Stays bytes)

ruleset stays = (
  >>=-Stays, take_uint32-Stays, take_bytes-Stays, align-Stays, take_gids-Stays, update-Stays,
  require-Stays, take_opaque-Stays,
)

pub raw_uint32_lem :
    (bytes : List ℕ) (offset : ℕ) (context : SecurityContext)
    → offset + 4 ≤ length bytes
    → raw_uint32 bytes offset context ≡ accepts (be32 (drop offset bytes)) (offset + 4) context
unfolding raw_uint32 read_uint32
raw_uint32_lem bytes offset context room =
    let fits : leb (offset + 4) (length bytes) ≡ true = ground arith in
    rw (fits, raw_uint32, read_uint32) refl

-- The length of the machine name stands behind the stamp.
pub parse_auth_sys_fields_lem :
    (bytes : List ℕ) (context : SecurityContext)
    → 8 ≤ length bytes
    → parse_auth_sys_fields bytes 0 context
      ≡ parse_auth_sys_user bytes (be32 (drop 4 bytes)) 8 context
unfolding parse_auth_sys_fields
parse_auth_sys_fields_lem bytes context room =
    rw
      (
        raw_uint32_lem bytes 0 context (omega arith),
        ◌>>=◌,
        raw_uint32_lem bytes 4 context (omega arith),
        ◌>>=◌,
      )
      refl

parse_auth_sys_user-Stays : (bytes : List ℕ) (n : ℕ) → Stays (parse_auth_sys_user bytes n)
unfolding parse_auth_sys_user
parse_auth_sys_user-Stays bytes n = search stays depth 20

parse_auth_dh_fields-Stays : (bytes : List ℕ) → Stays (parse_auth_dh_fields bytes)
unfolding parse_auth_dh_fields
parse_auth_dh_fields-Stays bytes = search stays depth 30

parse_gss_fields-Stays : (bytes : List ℕ) → Stays (parse_gss_fields bytes)
unfolding parse_gss_fields
parse_gss_fields-Stays bytes = search stays

parse_kerberos_fields-Stays : (bytes : List ℕ) → Stays (parse_kerberos_fields bytes)
unfolding parse_kerberos_fields
parse_kerberos_fields-Stays bytes = search (stays, parse_gss_fields-Stays)

parse_auth_sys_credentials-ne-bad :
    (bytes : List ℕ) (context : SecurityContext) → parse_auth_sys_credentials bytes context ≢ bad
unfolding parse_auth_sys_credentials
parse_auth_sys_credentials-ne-bad bytes context e = ground (
  arith,
  parse_auth_sys_fields_lem bytes context,
  parse_auth_sys_user-Stays bytes (be32 (drop 4 bytes)) 8 context,
)

parse_auth_dh_credentials-ne-bad :
    (bytes : List ℕ) (context : SecurityContext) → parse_auth_dh_credentials bytes context ≢ bad
unfolding parse_auth_dh_credentials
parse_auth_dh_credentials-ne-bad bytes context e =
    ground (arith, parse_auth_dh_fields-Stays bytes 0 context)

parse_kerberos_credentials-ne-bad :
    (bytes : List ℕ) (context : SecurityContext) → parse_kerberos_credentials bytes context ≢ bad
unfolding parse_kerberos_credentials
parse_kerberos_credentials-ne-bad bytes context e =
    ground (arith, parse_kerberos_fields-Stays bytes 0 context)

-- The call returns.
abbrev Returns : Outcome Login → Type 0
Returns o = (r : Login) × (o ≡ ok r)

if-Returns : (b : Bool) (x y : Outcome Login) → Returns x → Returns y → Returns (if b then x else y)
if-Returns true x y h k = h
if-Returns false x y h k = k

after_auth_sys-Returns :
    (now : ℕ) (m : SecurityManager) (p : Parse (Unit {0}))
    → p ≢ bad
    → Returns (after_auth_sys now m p)
unfolding after_auth_sys
after_auth_sys-Returns now m bad h = absurd (h refl)
after_auth_sys-Returns now m (rejects c) h = (_, refl)
after_auth_sys-Returns now m (accepts u o c) h = (_, refl)

after_auth_dh-Returns :
    (now : ℕ) (m : SecurityManager) (p : Parse (Unit {0}))
    → p ≢ bad
    → Returns (after_auth_dh now m p)
unfolding after_auth_dh
after_auth_dh-Returns now m bad h = absurd (h refl)
after_auth_dh-Returns now m (rejects c) h = (_, refl)
after_auth_dh-Returns now m (accepts u o c) h = (_, refl)

after_kerberos-Returns :
    (now : ℕ) (m : SecurityManager) (p : Parse (Unit {0}))
    → p ≢ bad
    → Returns (after_kerberos now m p)
unfolding after_kerberos
after_kerberos-Returns now m bad h = absurd (h refl)
after_kerberos-Returns now m (rejects c) h = (_, refl)
after_kerberos-Returns now m (accepts u o c) h = (_, refl)

ok-Returns : (r : Login) → (l : Login) × (ok r ≡ ok l)
ok-Returns r = (r, refl)

-- authenticate of the security manager returns for every message: no parser of credentials reads
-- outside its data.
pub authenticate_lem :
    (now : ℕ) (message : RpcMessage) (context : SecurityContext) (m : SecurityManager)
    → (r : Login) × (authenticate now message context m ≡ ok r)
unfolding authenticate
authenticate_lem now message context m =
    search
      (
        if-Returns, ok-Returns, after_auth_sys-Returns, after_auth_dh-Returns,
        after_kerberos-Returns, parse_auth_sys_credentials-ne-bad, parse_auth_dh_credentials-ne-bad,
        parse_kerberos_credentials-ne-bad,
      )
      depth 14
