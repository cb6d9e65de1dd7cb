-- ===== src/Bytes/Laws.antt =====
-- Reading back what stands at an offset.
use simple_nfsd.Prelude.{
  ℕ, zero, suc, ◌+◌, ◌-◌, ◌*◌, ◌/◌, ◌%◌, ◌≤◌, ◌≡◌, refl, sym, ◌∙◌, ap, List, [], ◌∷◌, ◌++◌, length,
  take, drop, replicate, length-drop, arith,
}
use simple_nfsd.Bytes.{ok, IsU32, be32, bytes32, align4, read_uint32, slice}

pub be32-bytes32 : (v : ℕ) (rest : List ℕ) → IsU32 v → be32 (bytes32 v ++ rest) ≡ v
unfolding be32
be32-bytes32 v rest h = omega arith

module _ {ℓ} {A : Type ℓ} where
  pub drop-append : (xs ys : List A) → drop (length xs) (xs ++ ys) ≡ ys
  drop-append [] ys = refl
  drop-append (x ∷ xs) ys = drop-append xs ys

  pub take-append : (xs ys : List A) → take (length xs) (xs ++ ys) ≡ xs
  take-append [] ys = refl
  take-append (x ∷ xs) ys = ap (◌∷◌ x) (take-append xs ys)

  pub drop-nil : (n : ℕ) → drop {A = A} n [] ≡ []
  drop-nil zero = refl
  drop-nil (suc n) = refl

  pub drop-drop : (m n : ℕ) (xs : List A) → drop n (drop m xs) ≡ drop (m + n) xs
  drop-drop zero n xs = ground arith
  drop-drop (suc m) n [] = drop-nil n ∙ sym (drop-nil (suc m + n))
  drop-drop (suc m) n (x ∷ xs) =
      let e : suc m + n ≡ suc (m + n) = omega arith in rw e (drop-drop m n xs)

  pub length-take-le : (n : ℕ) (xs : List A) → n ≤ length xs → length (take n xs) ≡ n
  length-take-le zero xs h = refl
  length-take-le (suc n) [] h = absurd (omega arith)
  length-take-le (suc n) (x ∷ xs) h = ap suc (length-take-le n xs (omega arith))

  -- Past the piece that stands at an offset stands what follows it.
  pub drop-advance :
      (off : ℕ) (bytes xs rest : List A)
      → drop off bytes ≡ xs ++ rest
      → drop (off + length xs) bytes ≡ rest
  drop-advance off bytes xs rest e =
      sym (drop-drop off (length xs) bytes) ∙ rw e (drop-append xs rest)

pub read_uint32-at :
    (bytes : List ℕ) (off v : ℕ) (rest : List ℕ)
    → drop off bytes ≡ bytes32 v ++ rest
    → IsU32 v
    → read_uint32 bytes off ≡ ok v
unfolding read_uint32
read_uint32-at bytes off v rest e h =
    let n : length bytes - off ≡ 4 + length rest =
      sym (length-drop off bytes) ∙ ap length e ∙ omega arith in
    ground (arith, n, e, be32-bytes32 v rest h)

pub slice-at :
    (bytes : List ℕ) (off : ℕ) (xs rest : List ℕ)
    → drop off bytes ≡ xs ++ rest
    → slice bytes off (length xs) ≡ xs
slice-at bytes off xs rest e = rw e (take-append xs rest)

module _ {ℓ} {A : Type ℓ} where
  pub replicate-add : (m k : ℕ) (a : A) → replicate (m + k) a ≡ replicate m a ++ replicate k a
  replicate-add zero k a = ground arith
  replicate-add (suc m) k a =
      let e : suc m + k ≡ suc (m + k) = omega arith in rw e (ap (◌∷◌ a) (replicate-add m k a))

  pub drop-replicate : (n k : ℕ) (a : A) → drop n (replicate (n + k) a) ≡ replicate k a
  drop-replicate zero k a = ground arith
  drop-replicate (suc n) k a =
      let e : suc n + k ≡ suc (n + k) = omega arith in rw e (drop-replicate n k a)

-- How far the next multiple of 4 is.
abbrev pub padding : ℕ → ℕ
padding n = (4 - n % 4) % 4

abbrev pub pad : ℕ → List ℕ
pad n = replicate (padding n) 0

pub align4-pad : (n : ℕ) → align4 n ≡ n + padding n
unfolding align4
align4-pad n = omega arith

pub align4_lem : (n : ℕ) → align4 n ≡ (n + 3) / 4 * 4
unfolding align4
align4_lem n = refl
