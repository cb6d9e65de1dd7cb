-- ===== src/Security/Credentials.antt =====
-- The parsers of credentials of SecurityManager, src/simple-nfsd/security/security.cpp. They fill the
-- context in as they go: a parser that rejects leaves what it has written.
use simple_nfsd.Prelude.{
  ℕ, ◌+◌, ◌-◌, ◌*◌, ◌%◌, ◌^◌, Bool, true, false, List, [], ◌∷◌, ◌++◌, Option, none, some, ltb, ◌==◌,
  if◌then◌else◌, length, take, drop,
}
use simple_nfsd.Bytes.{ok, thrown, fault, read_uint32}
use simple_nfsd.Auth.{
  Parsed, accept, reject, bad as out_of_bounds, checked_uint32, checked_slice, align_within,
  read_gids,
}
use simple_nfsd.Map.{insert}
use simple_nfsd.Text.{codes, starts_with, find_char, to_string, stoul}
use simple_nfsd.Text.Order.{text_key}
use simple_nfsd.Security.{SecurityContext}

-- `bad` is an access outside the data.
pub data Parse (A : Type 0) : Type 0 where
  accepts : A → ℕ → SecurityContext → Parse A
  rejects : SecurityContext → Parse A
  bad : Parse A

-- A parser moves the offset on and writes to the context.
abbrev pub Parser : Type 0 → Type 0
Parser A = ℕ → SecurityContext → Parse A

infixl 5 ◌>>=◌ ◌>>◌
abbrev pub ◌>>=◌ : {A B : Type 0} → Parser A → (A → Parser B) → Parser B
◌>>=◌ m f offset context = elim (m offset context) [
  | accepts a offset' context' ↦ f a offset' context'
  | rejects context' ↦ rejects context'
  | bad ↦ bad
]

abbrev pub ◌>>◌ : {A B : Type 0} → Parser A → Parser B → Parser B
m >> k = m >>= λ _. k

-- `moved` is the new offset.
abbrev pub from_parsed : {A : Type 0} → (A → ℕ) → Parsed A → SecurityContext → Parse A
from_parsed moved (accept a) context = accepts a (moved a) context
from_parsed moved reject context = rejects context
from_parsed moved out_of_bounds context = bad

-- A uint32_t behind a test of the size, and one without.
unfoldable pub take_uint32 : List ℕ → Parser ℕ
take_uint32 bytes offset context =
    from_parsed (λ v. offset + 4) (checked_uint32 bytes offset) context

unfoldable pub raw_uint32 : List ℕ → Parser ℕ
raw_uint32 bytes offset context = elim (read_uint32 bytes offset) [
  | ok v ↦ accepts v (offset + 4) context
  | thrown e ↦ bad
  | fault ↦ bad
]

unfoldable pub take_bytes : List ℕ → ℕ → Parser (List ℕ)
take_bytes bytes n offset context =
    from_parsed (λ s. offset + n) (checked_slice bytes offset n) context

unfoldable pub align : List ℕ → Parser ℕ
align bytes offset context = from_parsed (λ o. o) (align_within 4 (length bytes) offset) context

unfoldable pub take_gids : List ℕ → ℕ → Parser (List ℕ)
take_gids bytes count offset context =
    from_parsed (λ gids. offset + 4 * length gids) (read_gids count bytes offset) context

unfoldable pub update : (SecurityContext → SecurityContext) → Parser (Unit {0})
update f offset context = accepts tt offset (f context)

-- A length and as many bytes.
unfoldable pub take_opaque : List ℕ → Parser (List ℕ)
take_opaque bytes = do n ← take_uint32 bytes; take_bytes bytes n

-- The context for credentials without data.
abbrev pub default_user : SecurityContext → SecurityContext
default_user c = record c {
  uid = 1000;
  gid = 1000;
  gids = 1000 ∷ [];
  username = codes "user";
  machine_name = codes "client";
}

-- What follows the length of the machine name.
unfoldable pub parse_auth_sys_user : List ℕ → ℕ → Parser (Unit {0})
parse_auth_sys_user bytes name_len = do
  name ← take_bytes bytes name_len
  update (λ c. record c { machine_name = name })
  uid ← take_uint32 bytes
  update (λ c. record c { uid = uid })
  gid ← take_uint32 bytes
  update (λ c. record c { gid = gid })
  count ← take_uint32 bytes
  gids ← take_gids bytes count
  update (λ c. record c { gids = gids; username = codes "user" ++ to_string uid })

unfoldable pub parse_auth_sys_fields : List ℕ → Parser (Unit {0})
parse_auth_sys_fields bytes = do
  stamp ← raw_uint32 bytes
  name_len ← raw_uint32 bytes
  parse_auth_sys_user bytes name_len

unfoldable pub parse_auth_sys_credentials : List ℕ → SecurityContext → Parse (Unit {0})
parse_auth_sys_credentials bytes context =
    if length bytes == 0
    then accepts tt 0 (default_user context)
    else (if ltb (length bytes) 16 then rejects context else parse_auth_sys_fields bytes 0 context)

-- The user of a netname `unix.<uid>@<domain>`; one without an @ leaves the user as it is.
abbrev pub with_uid : Option ℕ → SecurityContext → SecurityContext
with_uid none c = record c { uid = 1000; gid = 1000 }
with_uid (some v) c = record c { uid = v % 2 ^ 32; gid = v % 2 ^ 32 }

abbrev pub unix_uid : List ℕ → Option ℕ → SecurityContext → SecurityContext
unix_uid netname none c = c
unix_uid netname (some at_pos) c = with_uid (stoul (take (at_pos - 5) (drop 5 netname))) c

unfoldable pub set_netname : List ℕ → SecurityContext → SecurityContext
set_netname netname c =
    if starts_with netname (codes "unix.")
    then unix_uid netname (find_char b'@' netname) c
    else record c { uid = 1000; gid = 1000 }

unfoldable pub parse_auth_dh_fields : List ℕ → Parser (Unit {0})
parse_auth_dh_fields bytes = do
  client_name ← take_opaque bytes
  align bytes
  netname ← take_opaque bytes
  align bytes
  public_key ← take_opaque bytes
  align bytes
  encrypted_timestamp ← take_opaque bytes
  align bytes
  window ← take_uint32 bytes
  update (λ c. set_netname netname (record c { machine_name = client_name; username = netname }))
  update (λ c. record c {
    attributes = insert (codes "auth_dh_window") (to_string window) (
        insert (codes "auth_dh_timestamp") encrypted_timestamp
          (insert (codes "auth_dh_public_key") public_key c.attributes));
  })

unfoldable pub parse_auth_dh_credentials : List ℕ → SecurityContext → Parse (Unit {0})
parse_auth_dh_credentials bytes context =
    if length bytes == 0 then rejects context else parse_auth_dh_fields bytes 0 context

-- The fields behind the version.
unfoldable pub parse_gss_fields : List ℕ → Parser (Unit {0})
parse_gss_fields bytes = do
  procedure ← take_uint32 bytes
  sequence ← take_uint32 bytes
  service ← take_uint32 bytes
  gss_token ← take_opaque bytes
  update (λ c. record c {
    attributes = insert (codes "gss_token") gss_token (
        insert (codes "gss_service") (to_string service) (
          insert (codes "gss_sequence") (to_string sequence)
            (insert (codes "gss_procedure") (to_string procedure) c.attributes)));
    username = codes "kerberos_user";
    uid = 1000;
    gid = 1000;
    machine_name = codes "kerberos_client";
    session_id = codes "gss_" ++ to_string sequence;
  })

-- `if (version != 1) return false;`
abbrev pub require : Bool → Parser (Unit {0})
require true offset context = accepts tt offset context
require false offset context = rejects context

unfoldable pub parse_kerberos_fields : List ℕ → Parser (Unit {0})
parse_kerberos_fields bytes = do
  version ← take_uint32 bytes
  require (version == 1)
  parse_gss_fields bytes

unfoldable pub parse_kerberos_credentials : List ℕ → SecurityContext → Parse (Unit {0})
parse_kerberos_credentials bytes context =
    if ltb (length bytes) 16 then rejects context else parse_kerberos_fields bytes 0 context
