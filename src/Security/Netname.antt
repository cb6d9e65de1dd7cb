-- ===== src/Security/Netname.antt =====
-- The user of an AUTH_DH netname, src/simple-nfsd/security/security.cpp.
use simple_nfsd.Prelude.{
  ℕ, zero, suc, ◌+◌, ◌-◌, ◌/◌, ◌%◌, ◌^◌, ◌<◌, ◌≤◌, ◌≡◌, refl, Bool, true, false, List, [], ◌∷◌,
  ◌++◌, some, ltb, ◌==◌, if◌then◌else◌, length, drop, All, arith, length-append, length-drop,
  length-replicate, sym, ap, ◌∙◌,
}
use mathlib.Core.List.{append_assoc}
use simple_nfsd.Bytes.{bytes32, align4}
use simple_nfsd.Bytes.Laws.{
  take-append, drop-advance, read_uint32-at, slice-at, pad, padding, align4-pad,
}
use simple_nfsd.Auth.{accept, checked_uint32, checked_slice, align_within}
use simple_nfsd.Auth.Parse.{align_within_lem}
use simple_nfsd.Text.{codes, starts_with, find_char, digits, to_string}
use simple_nfsd.Text.Numbers.{stoul-to_string}
use simple_nfsd.Security.{SecurityContext}
use simple_nfsd.Security.Credentials.{
  Parser, Parse, accepts, rejects, bad, ◌>>=◌, ◌>>◌, take_opaque, take_uint32, take_bytes, align,
  set_netname, parse_auth_dh_fields, parse_auth_dh_credentials, update,
}

find_char_first :
    (c : ℕ) (s t : List ℕ)
    → All (λ d. (d == c) ≡ false) s
    → find_char c (s ++ (c ∷ t)) ≡ some (length s)
unfolding find_char
find_char_first c [] t h = ground arith
find_char_first c (d ∷ s) t h = ground (arith, h.0, find_char_first c s t h.1)

-- Of two lists, the one taken.
if-All :
    (b : Bool) (s t : List ℕ)
    → (b ≡ true → All (λ d. (d == b'@') ≡ false) s)
    → All (λ d. (d == b'@') ≡ false) t
    → All (λ d. (d == b'@') ≡ false) (if b then s else t)
if-All true s t h k = h refl
if-All false s t h k = k

digits_lem :
    (fuel n : ℕ) (rest : List ℕ)
    → All (λ d. (d == b'@') ≡ false) rest
    → All (λ d. (d == b'@') ≡ false) (digits fuel n rest)
unfolding digits
digits_lem zero n rest h = h
digits_lem (suc fuel) n rest h =
    if-All (ltb n 10) ((48 + n) ∷ rest) (digits fuel (n / 10) ((48 + n % 10) ∷ rest))
      (λ small. (ground arith, h))
      (digits_lem fuel (n / 10) ((48 + n % 10) ∷ rest) (ground arith, h))

past_prefix : (k : ℕ) → suc (suc (suc (suc (suc k)))) - 5 ≡ k
past_prefix k = omega arith

digits_at : (n : ℕ) → All (λ d. (d == b'@') ≡ false) (to_string n)
unfolding to_string
digits_at n = digits_lem 20 n [] tt

-- The user that the netname `unix.<n>@<domain>` stands for.
set_netname-to_string :
    (n : ℕ) (domain : List ℕ) (c : SecurityContext)
    → n < 2 ^ 64
    → set_netname (codes "unix." ++ (to_string n ++ (b'@' ∷ domain))) c
      ≡ record c { uid = n % 2 ^ 32; gid = n % 2 ^ 32 }
unfolding set_netname starts_with find_char
set_netname-to_string n domain c h =
    rw
      (
        find_char_first b'@' (to_string n) domain (digits_at n),
        past_prefix (length (to_string n)),
        take-append (to_string n) (b'@' ∷ domain),
        stoul-to_string n h,
      )
      refl

-- The four opaque fields, each padded to a whole number of words, and the window; anything may follow.
abbrev pub opaque : List ℕ → List ℕ
opaque xs = bytes32 (length xs) ++ (xs ++ pad (length xs))

abbrev pub dh_credentials : List ℕ → List ℕ → List ℕ → List ℕ → ℕ → List ℕ → List ℕ
dh_credentials client_name netname public_key timestamp window rest =
    opaque client_name
    ++ (opaque netname ++ (opaque public_key ++ (opaque timestamp ++ (bytes32 window ++ rest))))

length-opaque : (xs : List ℕ) → length (opaque xs) ≡ 4 + length xs + padding (length xs)
length-opaque xs =
    omega
      (arith, length-append xs (pad (length xs)), length-replicate {A = ℕ} (padding (length xs)) 0)

after_accepts :
    {A B : Type 0} (m : Parser A) (f : A → Parser B) (off o : ℕ) (c d : SecurityContext) (a : A)
    → m off c ≡ accepts a o d
    → (m >>= f) off c ≡ f a o d
after_accepts {A} {B} m f off o c d a e =
    ap
      (λ (r : Parse A). elim r as (λ x. Parse B) [
        | accepts b p h ↦ f b p h
        | rejects h ↦ rejects h
        | bad ↦ bad
      ])
      e

take_uint32-at :
    (bytes : List ℕ) (off v : ℕ) (rest : List ℕ) (c : SecurityContext)
    → drop off bytes ≡ bytes32 v ++ rest
    → v < 2 ^ 32
    → take_uint32 bytes off c ≡ accepts v (off + 4) c
unfolding take_uint32 checked_uint32
take_uint32-at bytes off v rest c e small =
    let size : length bytes - off ≡ 4 + length rest =
      sym (length-drop off bytes) ∙ ap length e ∙ omega arith in
    let number = read_uint32-at bytes off v rest e small in
    let fits : ltb (length bytes) (off + 4) ≡ false = ground (arith, size) in rw (fits, number) refl

take_bytes-at :
    (bytes : List ℕ) (off : ℕ) (xs rest : List ℕ) (c : SecurityContext)
    → drop off bytes ≡ xs ++ rest
    → off ≤ length bytes
    → take_bytes bytes (length xs) off c ≡ accepts xs (off + length xs) c
unfolding take_bytes checked_slice
take_bytes-at bytes off xs rest c e within =
    let size : length bytes - off ≡ length xs + length rest =
      sym (length-drop off bytes) ∙ ap length e ∙ length-append xs rest in
    let text = slice-at bytes off xs rest e in
    let fits : ltb (length bytes) (off + length xs) ≡ false = ground (arith, size) in
    rw (fits, text) refl

align-at :
    (bytes : List ℕ) (off o : ℕ) (c : SecurityContext)
    → align4 off ≡ o
    → o ≤ length bytes
    → align bytes off c ≡ accepts o o c
unfolding align
align-at bytes off o c e within =
    let aligned : align_within 4 (length bytes) off ≡ accept o =
      align_within_lem (length bytes) off ∙ ground (arith, e) in
    rw aligned refl

-- An opaque field that stands at an offset is read, and the offset moves behind its padding.
opaque_first :
    {A : Type 0} (bytes : List ℕ) (off : ℕ) (xs rest : List ℕ) (c : SecurityContext)
    (k : List ℕ → Parser A)
    → drop off bytes ≡ opaque xs ++ rest
    → off % 4 ≡ 0
    → length xs < 2 ^ 32
    → (take_opaque bytes >>= (λ a. align bytes >> k a)) off c ≡ k xs (off + length (opaque xs)) c
unfolding take_opaque
opaque_first bytes off xs rest c k e whole small =
    let behind : List ℕ = pad (length xs) ++ rest in
    let here : drop off bytes ≡ bytes32 (length xs) ++ (xs ++ behind) =
      e ∙ ap (λ u. bytes32 (length xs) ++ u) (append_assoc xs (pad (length xs)) rest) in
    let body : drop (off + 4) bytes ≡ xs ++ behind =
      drop-advance off bytes (bytes32 (length xs)) (xs ++ behind) here in
    let long = length-opaque xs in
    let size : length bytes - off ≡ length (opaque xs) + length rest =
      sym (length-drop off bytes) ∙ ap length e ∙ length-append (opaque xs) rest in
    let rounds : align4 (off + 4 + length xs) ≡ off + length (opaque xs) =
      align4-pad (off + 4 + length xs) ∙ omega (arith, long, whole) in
    let number = take_uint32-at bytes off (length xs) (xs ++ behind) c here small in
    let text = take_bytes-at bytes (off + 4) xs behind c body (omega (arith, size, long)) in
    let aligned =
      align-at bytes (off + 4 + length xs) (off + length (opaque xs)) c rounds
        (omega (arith, size, long)) in
    after_accepts (take_opaque bytes) _ off (off + 4 + length xs) c c xs (
      after_accepts (take_uint32 bytes) (take_bytes bytes) off (off + 4) c c (length xs) number
      ∙ text)
    ∙ after_accepts (align bytes) _ (off + 4 + length xs) (off + length (opaque xs)) c c _ aligned

-- What the parser makes of AUTH_DH credentials in their byte form.
parse_auth_dh_fields-dh_credentials :
    (client_name netname public_key timestamp : List ℕ) (window : ℕ) (rest : List ℕ)
    → (c : SecurityContext) → length client_name < 2 ^ 32
    → length netname < 2 ^ 32
    → length public_key < 2 ^ 32
    → length timestamp < 2 ^ 32
    → window < 2 ^ 32
    → (o : ℕ) × (d : SecurityContext) × (parse_auth_dh_fields
          (dh_credentials client_name netname public_key timestamp window rest)
          0
          c
        ≡ accepts tt o d)
      × (d.uid
          ≡ (set_netname netname (record c { machine_name = client_name; username = netname })).uid)
      × (d.gid
          ≡ (set_netname netname (record c { machine_name = client_name; username = netname })).gid)
unfolding parse_auth_dh_fields update
parse_auth_dh_fields-dh_credentials a b p t w rest c ha hb hp ht hw =
    let bytes = dh_credentials a b p t w rest in
    let r4 : List ℕ = bytes32 w ++ rest in
    let r3 : List ℕ = opaque t ++ r4 in
    let r2 : List ℕ = opaque p ++ r3 in
    let r1 : List ℕ = opaque b ++ r2 in
    let o1 = 0 + length (opaque a) in
    let o2 = o1 + length (opaque b) in
    let o3 = o2 + length (opaque p) in
    let o4 = o3 + length (opaque t) in
    let e1 : drop o1 bytes ≡ r1 = drop-advance 0 bytes (opaque a) r1 refl in
    let e2 : drop o2 bytes ≡ r2 = drop-advance o1 bytes (opaque b) r2 e1 in
    let e3 : drop o3 bytes ≡ r3 = drop-advance o2 bytes (opaque p) r3 e2 in
    let e4 : drop o4 bytes ≡ r4 = drop-advance o3 bytes (opaque t) r4 e3 in
    let w1 : o1 % 4 ≡ 0 = omega (arith, length-opaque a) in
    let w2 : o2 % 4 ≡ 0 = omega (arith, length-opaque b, w1) in
    let w3 : o3 % 4 ≡ 0 = omega (arith, length-opaque p, w2) in
    (
      _,
      _,
      opaque_first bytes 0 a r1 c _ refl refl ha
          ∙ opaque_first bytes o1 b r2 c _ e1 w1 hb
          ∙ opaque_first bytes o2 p r3 c _ e2 w2 hp
          ∙ opaque_first bytes o3 t r4 c _ e3 w3 ht
          ∙ after_accepts (take_uint32 bytes) _ o4 (o4 + 4) c c w
              (take_uint32-at bytes o4 w rest c e4 hw),
      refl,
      refl,
    )

-- The netname `unix.<n>@<domain>`.
abbrev pub unix_netname : ℕ → List ℕ → List ℕ
unix_netname n domain = codes "unix." ++ (to_string n ++ (b'@' ∷ domain))

-- AUTH_DH credentials in their byte form, whose fields fit in 32 bits and whose netname is
-- `unix.<n>@<domain>`, for any n below 2^64 and any domain, are accepted, and the user has n modulo
-- 2^32 as uid and gid, whatever the name of the client, the public key, the timestamp, the window,
-- and what follows them, are.
pub parse_auth_dh_credentials-to_string :
    (n : ℕ) (client_name domain public_key timestamp : List ℕ) (window : ℕ) (rest : List ℕ)
    → (c : SecurityContext) → n < 2 ^ 64
    → length client_name < 2 ^ 32
    → length (unix_netname n domain) < 2 ^ 32
    → length public_key < 2 ^ 32
    → length timestamp < 2 ^ 32
    → window < 2 ^ 32
    → (offset : ℕ) × (d : SecurityContext) × (parse_auth_dh_credentials
          (dh_credentials client_name (unix_netname n domain) public_key timestamp window rest)
          c
        ≡ accepts tt offset d)
      × (d.uid ≡ n % 2 ^ 32)
      × (d.gid ≡ n % 2 ^ 32)
unfolding parse_auth_dh_credentials
parse_auth_dh_credentials-to_string n a domain p t w rest c small ha hb hp ht hw =
    let netname = unix_netname n domain in
    let (o, d, parsed, uid, gid) =
      parse_auth_dh_fields-dh_credentials a netname p t w rest c ha hb hp ht hw in
    let user =
      set_netname-to_string n domain (record c { machine_name = a; username = netname }) small in
    let present : (length (dh_credentials a netname p t w rest) == 0) ≡ false = ground arith in
    (o, d, rw present parsed, uid ∙ ap (λ x. x.uid) user, gid ∙ ap (λ x. x.gid) user)
