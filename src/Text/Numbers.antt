-- ===== src/Text/Numbers.antt =====
-- std::stoul reads back what std::to_string writes.
use simple_nfsd.Prelude.{
  ℕ, zero, suc, ◌+◌, ◌*◌, ◌/◌, ◌%◌, ◌^◌, ◌<◌, ◌≡◌, refl, true, List, [], ◌∷◌, some, ltb, arith,
  Bool-cases, inl, inr,
}
use simple_nfsd.Text.{digits, to_string, read_digits, stoul, skip_spaces, is_digit}

abbrev power10 : ℕ → ℕ
power10 zero = 1
power10 (suc fuel) = 10 * power10 fuel

-- Digits behind the number are read on from it.
read_digits-digits :
    (fuel n : ℕ) (rest : List ℕ)
    → n < power10 fuel
    → read_digits 0 (digits fuel n rest) ≡ read_digits n rest
unfolding digits read_digits
read_digits-digits zero n rest h = ground arith
read_digits-digits (suc fuel) n rest h = elim (Bool-cases (ltb n 10)) [
  | inl last ↦ rw last (ground arith)
  | inr more ↦ rw more (ground (arith, read_digits-digits fuel (n / 10) ((48 + n % 10) ∷ rest)))
]

digits-head :
    (fuel n : ℕ) (rest : List ℕ)
    → n < power10 (suc fuel)
    → (c : ℕ) × (s : List ℕ) × (digits (suc fuel) n rest ≡ c ∷ s) × (is_digit c ≡ true)
unfolding digits
digits-head zero n rest h = elim (Bool-cases (ltb n 10)) [
  | inl last ↦ (48 + n, rest, rw last refl, ground arith)
  | inr more ↦ absurd (ground arith)
]
digits-head (suc fuel) n rest h = elim (Bool-cases (ltb n 10)) [
  | inl last ↦ (48 + n, rest, rw last refl, ground arith)
  | inr more ↦
      let (c, s, e, d) = digits-head fuel (n / 10) ((48 + n % 10) ∷ rest) (omega arith) in
      (c, s, rw more e, d)
]

printed : (n : ℕ) → n < 2 ^ 64 → read_digits 0 (digits 20 n []) ≡ n
unfolding read_digits
printed n h = read_digits-digits 20 n [] (omega arith)

stoul-digit :
    (c n : ℕ) (s : List ℕ)
    → is_digit c ≡ true
    → read_digits 0 (c ∷ s) ≡ n
    → n < 2 ^ 64
    → stoul (c ∷ s) ≡ some n
unfolding stoul skip_spaces
stoul-digit c n s d value small = ground arith

-- std::stoul gives back the number that std::to_string printed, for every number of 64 bits.
pub stoul-to_string : (n : ℕ) → n < 2 ^ 64 → stoul (to_string n) ≡ some n
unfolding to_string
stoul-to_string n h =
    let (c, s, e, d) = digits-head 19 n [] (omega arith) in
    rw e (stoul-digit c n s d (rw (← e) (printed n h)) h)
