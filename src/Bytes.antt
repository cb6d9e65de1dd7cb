-- ===== src/Bytes.antt =====
-- Vectors of bytes and the accesses the code makes to them: readUint32, writeUint32 and align4 of
-- src/simple-nfsd/core/rpc_protocol.cpp, memcpy with ntohl and htonl, and vector::assign.
-- A byte is a number below 256. An access outside the vector is undefined in C++: it is `fault`.
pub mod Laws
pub mod Cursor
use simple_nfsd.Prelude.{
  ℕ, zero, suc, ◌+◌, ◌*◌, ◌/◌, ◌%◌, ◌^◌, ◌<◌, ◌≡◌, refl, ◌⊎◌, inl, inr, List, [], ◌∷◌, ◌++◌, leb,
  if◌then◌else◌, length, take, drop, All, map,
}

-- What the std::runtime_error of a parser says.
pub data RpcException : Type 0 where
  message_too_short credentials_too_long verifier_too_long : RpcException
  invalid_flavor auth_sys_too_short machinename_too_long gids_too_long : RpcException

pub data Outcome {ℓ} (A : Type ℓ) : Type ℓ where
  ok : A → Outcome A
  thrown : RpcException → Outcome A
  fault : Outcome A

infixl 5 ◌>>=◌
abbrev pub ◌>>=◌ {ℓ κ} : {A : Type ℓ} {B : Type κ} → Outcome A → (A → Outcome B) → Outcome B
fault >>= next = fault
thrown what >>= next = thrown what
ok value >>= next = next value

abbrev pub IsByte : ℕ → Type 0
IsByte b = b < 256

abbrev pub IsU32 : ℕ → Type 0
IsU32 v = v < 2 ^ 32

-- Four bytes, the most significant first: the shifted bytes share no bit, so `|` is `+`.
unfoldable pub be32 : List ℕ → ℕ
be32 (a ∷ b ∷ c ∷ d ∷ rest) = a * 2 ^ 24 + b * 2 ^ 16 + c * 2 ^ 8 + d
be32 other = 0

-- (value >> 24) & 0xFF, and so on down.
abbrev pub bytes32 : ℕ → List ℕ
bytes32 v = (v / 2 ^ 24 % 256) ∷ (v / 2 ^ 16 % 256) ∷ (v / 2 ^ 8 % 256) ∷ (v % 256) ∷ []

-- The words of an array in turn.
abbrev pub words : List ℕ → List ℕ
words [] = []
words (v ∷ vs) = bytes32 v ++ words vs

unfoldable pub align4 : ℕ → ℕ
align4 offset = (offset + 3) / 4 * 4

-- data[offset], …, data[offset + 3]; the caller moves the offset on by 4.
unfoldable pub read_uint32 : List ℕ → ℕ → Outcome ℕ
unfolding be32
read_uint32 bytes offset =
    if leb (offset + 4) (length bytes) then ok (be32 (drop offset bytes)) else fault

-- The bytes from `offset` up to `offset + n`.
abbrev pub slice : List ℕ → ℕ → ℕ → List ℕ
slice bytes offset n = take n (drop offset bytes)

module _ {ℓ κ} {A : Type ℓ} {B : Type κ} where
  -- A step and its continuation succeed together.
  pub >>=-eq-ok :
      {y : B} (first : Outcome A) (next : A → Outcome B)
      → (first >>= next) ≡ ok y
      → (x : A) × (first ≡ ok x) × (next x ≡ ok y)
  >>=-eq-ok fault next e = cc
  >>=-eq-ok (thrown what) next e = cc
  >>=-eq-ok (ok x) next e = (x, refl, e)

  -- An exception is that of the step, or of the continuation.
  pub >>=-eq-thrown :
      {what : RpcException} (first : Outcome A) (next : A → Outcome B)
      → (first >>= next) ≡ thrown what
      → (first ≡ thrown what) ⊎ ((x : A) × (first ≡ ok x) × (next x ≡ thrown what))
  >>=-eq-thrown fault next e = absurd (cc)
  >>=-eq-thrown (thrown other) next e = inl (cc)
  >>=-eq-thrown (ok x) next e = inr (x, refl, e)

module _ {ℓ} {A : Type ℓ} where
  pub Outcome-cases :
      (m : Outcome A)
      → ((x : A) × (m ≡ ok x)) ⊎ (((what : RpcException) × (m ≡ thrown what)) ⊎ (m ≡ fault))
  Outcome-cases fault = inr (inr refl)
  Outcome-cases (thrown what) = inr (inl (what, refl))
  Outcome-cases (ok x) = inl (x, refl)
