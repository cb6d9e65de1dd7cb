-- ===== src/Text.antt =====
-- std::string as the code uses it, byte by byte: comparison, find, substr, to_string and stoul.
pub mod Order
pub mod Numbers
use Prim.Native.Char.{code}
use Prim.Native.String.{String}
use simple_nfsd.Prelude.{
  ℕ, zero, suc, ◌+◌, ◌-◌, ◌*◌, ◌/◌, ◌%◌, ◌^◌, ◌<◌, Bool, true, false, ◌&&◌, ◌||◌, List, [], ◌∷◌,
  ◌++◌, Option, none, some, ltb, leb, ◌==◌, if◌then◌else◌, drop, All,
}

-- The bytes of an ASCII literal.
abbrev pub codes : String → List ℕ
codes String.[] = []
codes (String.◌∷◌ c s) = code c ∷ codes s

-- s == t
unfoldable pub equal : List ℕ → List ℕ → Bool
equal [] [] = true
equal [] (d ∷ t) = false
equal (c ∷ s) [] = false
equal (c ∷ s) (d ∷ t) = c == d && equal s t

-- s < t, byte by byte.
unfoldable pub before : List ℕ → List ℕ → Bool
before s [] = false
before [] (d ∷ t) = true
before (c ∷ s) (d ∷ t) = ltb c d || (c == d && before s t)

-- s.find(t) == 0
unfoldable pub starts_with : List ℕ → List ℕ → Bool
starts_with s [] = true
starts_with [] (d ∷ t) = false
starts_with (c ∷ s) (d ∷ t) = c == d && starts_with s t

-- s.find(t) != std::string::npos
unfoldable pub contains : List ℕ → List ℕ → Bool
contains [] t = starts_with [] t
contains (c ∷ s) t = starts_with (c ∷ s) t || contains s t

-- s.find(c)
unfoldable pub find_char : ℕ → List ℕ → Option ℕ
find_char c [] = none
find_char c (d ∷ s) =
    if d == c then some 0 else elim (find_char c s) [ none ↦ none | some n ↦ some (suc n) ]

-- The decimal digits of a number below 10 ^ fuel, in front of `rest`.
unfoldable pub digits : ℕ → ℕ → List ℕ → List ℕ
digits zero n rest = rest
digits (suc fuel) n rest =
    let more = digits fuel (n / 10) ((48 + n % 10) ∷ rest) in
    if ltb n 10 then (48 + n) ∷ rest else more

-- std::to_string of an unsigned number of at most 64 bits.
unfoldable pub to_string : ℕ → List ℕ
unfolding digits
to_string n = digits 20 n []

abbrev pub is_digit : ℕ → Bool
is_digit c = leb 48 c && leb c 57

abbrev pub is_space : ℕ → Bool
is_space c = c == 32 || (leb 9 c && leb c 13)

-- The digits at the front, as a number that goes on from `n`.
unfoldable pub read_digits : ℕ → List ℕ → ℕ
read_digits n [] = n
read_digits n (c ∷ s) = if is_digit c then read_digits (n * 10 + (c - 48)) s else n

-- The magnitude and the sign: std::invalid_argument without a digit, std::out_of_range from 2 ^ 64 on.
abbrev pub magnitude : List ℕ → Option ℕ
magnitude [] = none
magnitude (c ∷ s) =
    if is_digit c
    then (if ltb (read_digits 0 (c ∷ s)) (2 ^ 64) then some (read_digits 0 (c ∷ s)) else none)
    else none

abbrev pub negate : Option ℕ → Option ℕ
negate none = none
negate (some n) = some ((2 ^ 64 - n) % 2 ^ 64)

abbrev pub signed : List ℕ → Option ℕ
signed [] = none
signed (c ∷ s) =
    if c == 45 then negate (magnitude s) else (if c == 43 then magnitude s else magnitude (c ∷ s))

unfoldable pub skip_spaces : List ℕ → List ℕ
skip_spaces [] = []
skip_spaces (c ∷ s) = if is_space c then skip_spaces s else c ∷ s

-- std::stoul; `none` is an exception.
unfoldable pub stoul : List ℕ → Option ℕ
unfolding skip_spaces read_digits
stoul s = signed (skip_spaces s)
