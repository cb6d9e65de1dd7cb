-- ===== src/Auth/Parse.antt =====
-- The parser of AUTH_SYS credentials stays within its data, and ends.
use simple_nfsd.Prelude.{
  ℕ, zero, suc, ◌+◌, ◌%◌, ◌≤◌, ◌≡◌, ◌≢◌, inl, inr, refl, List, ltb, leb, ◌==◌, if◌then◌else◌,
  length, arith, Bool-cases, ◌||◌,
}
use simple_nfsd.Bytes.{read_uint32, align4}
use simple_nfsd.Auth.{
  Parsed, accept, reject, bad, ◌>>=◌, lift, checked_uint32, align_within, read_gids, checked_slice,
  parse_auth_sys_credentials,
}

-- The aligning loop ends within four rounds, at the next multiple of 4 if the data reach so far.
pub align_within_lem :
    (size offset : ℕ)
    → align_within 4 size offset
      ≡ (if offset % 4 == 0 || leb (align4 offset) size then accept (align4 offset) else reject)
unfolding align_within align4
align_within_lem size offset = ground arith

>>=-ne-bad {ℓ κ} :
    {A : Type ℓ} {B : Type κ} (m : Parsed A) (f : A → Parsed B)
    → m ≢ bad
    → ((a : A) → f a ≢ bad)
    → (m >>= f) ≢ bad
>>=-ne-bad (accept a) f h k = k a
>>=-ne-bad reject f h k = λ e. cc
>>=-ne-bad bad f h k = λ e. h refl

lift-ne-bad :
    (bytes : List ℕ) (offset : ℕ)
    → offset + 4 ≤ length bytes
    → lift (read_uint32 bytes offset) ≢ bad
unfolding read_uint32
lift-ne-bad bytes offset h e = ground arith

pub checked-ne-bad : (bytes : List ℕ) (offset : ℕ) → checked_uint32 bytes offset ≢ bad
unfolding checked_uint32
checked-ne-bad bytes offset e = ground (arith, lift-ne-bad bytes offset)

pub slice-ne-bad : (bytes : List ℕ) (offset n : ℕ) → checked_slice bytes offset n ≢ bad
unfolding checked_slice
slice-ne-bad bytes offset n e = ground arith

pub align-ne-bad : (size offset : ℕ) → align_within 4 size offset ≢ bad
align-ne-bad size offset e = ground (arith, align_within_lem size offset)

pub gids-ne-bad : (count : ℕ) (bytes : List ℕ) (offset : ℕ) → read_gids count bytes offset ≢ bad
unfolding read_gids
gids-ne-bad zero bytes offset e = cc
gids-ne-bad (suc count) bytes offset e = elim (Bool-cases (leb (offset + 4) (length bytes))) [
  | inl more ↦
      >>=-ne-bad (lift (read_uint32 bytes offset)) _ (lift-ne-bad bytes offset (ground arith))
        (λ g.
          >>=-ne-bad (read_gids count bytes (offset + 4)) _ (gids-ne-bad count bytes (offset + 4))
            (λ gs p. cc))
        (rw (more, read_gids) at e)
  | inr last ↦ cc (rw (last, read_gids) at e)
]

-- parseAuthSysCredentials reads nothing outside its data, whatever these are: it accepts or rejects.
pub parse_auth_sys_credentials-ne-bad : (bytes : List ℕ) → parse_auth_sys_credentials bytes ≢ bad
unfolding parse_auth_sys_credentials
parse_auth_sys_credentials-ne-bad bytes = elim (Bool-cases (ltb (length bytes) 20)) [
  | inl short ↦ rw short (λ e. cc)
  | inr long ↦ rw long (
      >>=-ne-bad _ _ (checked-ne-bad bytes 1) λ stamp.
        >>=-ne-bad _ _ (checked-ne-bad bytes 5) λ len.
          >>=-ne-bad _ _ (slice-ne-bad bytes 9 len) λ name.
            >>=-ne-bad _ _ (align-ne-bad (length bytes) (9 + len)) λ off.
              >>=-ne-bad _ _ (checked-ne-bad bytes off) λ uid.
                >>=-ne-bad _ _ (checked-ne-bad bytes (off + 4)) λ gid.
                  >>=-ne-bad _ _ (checked-ne-bad bytes (off + 8))
                    λ count. >>=-ne-bad _ _ (gids-ne-bad count bytes (off + 12)) λ gids e. cc)
]
