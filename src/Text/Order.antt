-- ===== src/Text/Order.antt =====
-- The order of byte strings, for the keys of a map.
use simple_nfsd.Prelude.{ℕ, ◌≡◌, ◌↔◌, refl, true, false, List, [], ◌∷◌, arith}
use simple_nfsd.Map.{Key}
use simple_nfsd.Text.{equal, before}

equal_sound : (s t : List ℕ) → equal s t ≡ true → s ≡ t
unfolding equal
equal_sound [] [] e = refl
equal_sound [] (d ∷ t) e = absurd (cc)
equal_sound (c ∷ s) [] e = absurd (cc)
equal_sound (c ∷ s) (d ∷ t) e = ground (arith, equal_sound s t)

equal_refl : (s : List ℕ) → equal s s ≡ true
unfolding equal
equal_refl [] = refl
equal_refl (c ∷ s) = ground (arith, equal_refl s)

equal_complete : (s t : List ℕ) → s ≡ t → equal s t ≡ true
equal_complete s t e = rw (← e) (equal_refl s)

pub equal_iff : (s t : List ℕ) → (equal s t ≡ true) ↔ (s ≡ t)
equal_iff s t = (equal_sound s t, equal_complete s t)

pub before_ne : (s t : List ℕ) → before s t ≡ true → equal s t ≡ false
unfolding before equal
before_ne [] [] e = absurd (cc)
before_ne (c ∷ s) [] e = absurd (cc)
before_ne [] (d ∷ t) e = refl
before_ne (c ∷ s) (d ∷ t) e = ground (arith, before_ne s t)

pub before_trans : (s t u : List ℕ) → before s t ≡ true → before t u ≡ true → before s u ≡ true
unfolding before
before_trans [] [] u e h = absurd (cc)
before_trans (c ∷ s) [] u e h = absurd (cc)
before_trans [] (d ∷ t) [] e h = absurd (cc)
before_trans (c ∷ s) (d ∷ t) [] e h = absurd (cc)
before_trans [] (d ∷ t) (b ∷ u) e h = refl
before_trans (c ∷ s) (d ∷ t) (b ∷ u) e h = ground (arith, before_trans s t u)

pub before_total : (s t : List ℕ) → equal s t ≡ false → before t s ≡ false → before s t ≡ true
unfolding before equal
before_total [] [] e h = absurd (cc)
before_total (c ∷ s) [] e h = absurd (cc)
before_total [] (d ∷ t) e h = refl
before_total (c ∷ s) (d ∷ t) e h = ground (arith, before_total s t)

instance abbrev pub text_key : Key (List ℕ)
text_key = record {
  same = equal;
  before = before;
  same_iff = equal_iff;
  before_ne = before_ne;
  before_trans = before_trans;
  before_total = before_total;
}
