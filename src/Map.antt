-- ===== src/Map.antt =====
-- std::map as the code uses it: entries in key order, one for each key.
pub mod Laws
use simple_nfsd.Prelude.{
  ℕ, ◌≡◌, ◌↔◌, Bool, not, List, [], ◌∷◌, Option, none, some, ltb, ◌==◌, ==_iff, if◌then◌else◌,
  keep_if, map, All, true, false, arith,
}

-- A key type: `same` decides equality, `before` is std::less.
pub record Key {ℓ} (K : Type ℓ) : Type ℓ where
  pub same : K → K → Bool
  pub before : K → K → Bool
  pub same_iff : (a b : K) → (same a b ≡ true) ↔ (a ≡ b)
  pub before_ne : (a b : K) → before a b ≡ true → same a b ≡ false
  pub before_trans : (a b c : K) → before a b ≡ true → before b c ≡ true → before a c ≡ true
  pub before_total : (a b : K) → same a b ≡ false → before b a ≡ false → before a b ≡ true

pub ltb_ne : (a b : ℕ) → ltb a b ≡ true → (a == b) ≡ false
ltb_ne a b h = ground arith

pub ltb_trans : (a b c : ℕ) → ltb a b ≡ true → ltb b c ≡ true → ltb a c ≡ true
ltb_trans a b c h k = ground arith

pub ltb_total : (a b : ℕ) → (a == b) ≡ false → ltb b a ≡ false → ltb a b ≡ true
ltb_total a b h k = ground arith

instance abbrev pub nat_key : Key ℕ
nat_key = record {
  same = ◌==◌;
  before = ltb;
  same_iff = ==_iff;
  before_ne = ltb_ne;
  before_trans = ltb_trans;
  before_total = ltb_total;
}

module _ {ℓ κ} {K : Type ℓ} {V : Type κ} ⦃o : Key K⦄ where
  -- m.find(k)
  unfoldable pub find : K → List (K × V) → Option V
  find k [] = none
  find k ((j, v) ∷ m) = if o.same j k then some v else find k m

  -- m[k] = v
  unfoldable pub insert : K → V → List (K × V) → List (K × V)
  insert k v [] = (k, v) ∷ []
  insert k v ((j, w) ∷ m) =
      if o.same j k
      then (k, v) ∷ m
      else (if o.before k j then (k, v) ∷ (j, w) ∷ m else (j, w) ∷ insert k v m)

  -- m.erase(k)
  unfoldable pub erase : K → List (K × V) → List (K × V)
  erase k m = keep_if (λ e. not (o.same e.0 k)) m

  -- No entry has the key `k`.
  abbrev pub Fresh : K → List (K × V) → Type 0
  Fresh k m = All (λ e. o.same e.0 k ≡ false) m

  -- The key `k` comes before every key of the map.
  abbrev pub First : K → List (K × V) → Type 0
  First k m = All (λ e. o.before k e.0 ≡ true) m

  -- Entries stand in strict key order, so each key stands once.
  abbrev pub Sorted : List (K × V) → Type 0
  Sorted [] = Unit {0}
  Sorted ((k, v) ∷ m) = First k m × Sorted m

module _ {ℓ κ} {K : Type ℓ} {V : Type κ} where
  -- The entries that fail the test.
  abbrev pub erase_if : (K × V → Bool) → List (K × V) → List (K × V)
  erase_if p m = keep_if (λ e. not (p e)) m

  abbrev pub values : List (K × V) → List V
  values m = map (λ e. e.1) m

  -- `while (it != end) if (p(*it)) { it = m.erase(it); found = true; } else ++it;`
  unfoldable pub sweep : (K × V → Bool) → List (K × V) → List (K × V) × Bool
  sweep p [] = ([], false)
  sweep p (e ∷ m) = let (rest, found) = sweep p m in if p e then (rest, true) else (e ∷ rest, found)
