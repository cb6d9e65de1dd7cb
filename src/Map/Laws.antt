-- ===== src/Map/Laws.antt =====
-- Laws of lookup, insertion and erasure.
use simple_nfsd.Prelude.{
  ◌+◌, ◌≤◌, ◌≡◌, refl, subst, Bool, true, false, any_of, List, [], ◌∷◌, Option, none, some,
  if◌then◌else◌, keep_if, length, All, arith, Bool-cases, All-keep_if, All-map, inl, inr,
}
use simple_nfsd.Map.{Key, find, insert, erase, Fresh, First, Sorted, erase_if, sweep}

-- What a filter leaves of a lookup.
abbrev pub retained {κ} : {V : Type κ} → (V → Bool) → Option V → Option V
retained p none = none
retained p (some v) = if p v then some v else none

module _ {ℓ κ} {K : Type ℓ} {V : Type κ} ⦃o : Key K⦄ where
  pub find-insert :
      (k j : K) (v : V) (m : List (K × V))
      → find j (insert k v m) ≡ (if o.same k j then some v else find j m)
  unfolding find insert
  find-insert k j v [] = refl
  find-insert k j v ((i, w) ∷ m) =
      ground (arith, o.same_iff i k, o.same_iff i j, o.same_iff k j, find-insert k j v m)

  pub find-insert_self : (k : K) (v : V) (m : List (K × V)) → find k (insert k v m) ≡ some v
  find-insert_self k v m = rw (find-insert k k v m, (o.same_iff k k).1 refl)

  pub find-erase :
      (k j : K) (m : List (K × V)) → find j (erase k m) ≡ (if o.same k j then none else find j m)
  unfolding find erase
  find-erase k j [] = ground arith
  find-erase k j ((i, w) ∷ m) =
      ground (arith, o.same_iff i k, o.same_iff i j, o.same_iff k j, find-erase k j m)

  pub length-insert-le : (k : K) (v : V) (m : List (K × V)) → length (insert k v m) ≤ length m + 1
  unfolding insert
  length-insert-le k v [] = omega arith
  length-insert-le k v ((j, w) ∷ m) = ground (arith, length-insert-le k v m)

  pub All-insert {μ} :
      (P : K × V → Type μ) (k : K) (v : V) (m : List (K × V))
      → P (k, v)
      → All P m
      → All P (insert k v m)
  unfolding insert
  All-insert P k v [] p h = (p, tt)
  All-insert P k v ((j, w) ∷ m) p h = go (o.same j k) (o.before k j) (All-insert P k v m p h.1)
    where
      go :
          (a b : Bool)
          → All P (insert k v m)
          → All P
              (if a then (k, v) ∷ m else (if b then (k, v) ∷ (j, w) ∷ m else (j, w) ∷ insert k v m))
      go true b r = (p, h.1)
      go false true r = (p, h)
      go false false r = (h.0, r)

  -- An entry that is found satisfies what all entries satisfy.
  pub All-find {μ} :
      (P : K × V → Type μ) (k : K) (m : List (K × V)) (v : V)
      → All P m
      → find k m ≡ some v
      → P (k, v)
  unfolding find
  All-find P k [] v h e = absurd (cc)
  All-find P k ((j, w) ∷ m) v h e = elim (Bool-cases (o.same j k)) [
    | inl hit ↦ subst P (ground (arith, (o.same_iff j k).0 hit)) h.0
    | inr miss ↦ All-find P k m v h.1 (ground arith)
  ]

  pub Fresh-find : (k : K) (m : List (K × V)) → Fresh k m → find k m ≡ none
  unfolding find
  Fresh-find k [] h = refl
  Fresh-find k ((j, w) ∷ m) h = rw h.0 (Fresh-find k m h.1)

  First-Fresh : (k : K) (m : List (K × V)) → First k m → Fresh k m
  First-Fresh k m h =
      All-map (λ e. o.before k e.0 ≡ true) (λ e. o.same e.0 k ≡ false)
        (λ e b. ground (arith, o.same_iff e.0 k, o.same_iff k e.0, o.before_ne k e.0)) m h

  First-trans : (j k : K) (m : List (K × V)) → o.before j k ≡ true → First k m → First j m
  First-trans j k m b h =
      All-map (λ e. o.before k e.0 ≡ true) (λ e. o.before j e.0 ≡ true)
        (λ e. o.before_trans j k e.0 b) m h

  pub Sorted-insert : (k : K) (v : V) (m : List (K × V)) → Sorted m → Sorted (insert k v m)
  unfolding insert
  Sorted-insert k v [] u = (tt, tt)
  Sorted-insert k v ((j, w) ∷ m) u = elim (Bool-cases (o.same j k)) [
    | inl hit ↦ rw hit (subst (λ i. First i m) ((o.same_iff j k).0 hit) u.0, u.1)
    | inr miss ↦ elim (Bool-cases (o.before k j)) [
      | inl lower ↦ rw (miss, lower) ((lower, First-trans k j m lower u.0), u)
      | inr higher ↦
          rw (miss, higher)
            (
              All-insert (λ e. o.before j e.0 ≡ true) k v m (o.before_total j k miss higher) u.0,
              Sorted-insert k v m u.1,
            )
    ]
  ]

  pub Sorted-keep_if : (p : K × V → Bool) (m : List (K × V)) → Sorted m → Sorted (keep_if p m)
  Sorted-keep_if p [] u = tt
  Sorted-keep_if p ((k, v) ∷ m) u = go (p (k, v)) (Sorted-keep_if p m u.1)
    where
      go :
          (b : Bool)
          → Sorted (keep_if p m)
          → Sorted (if b then (k, v) ∷ keep_if p m else keep_if p m)
      go true r = (All-keep_if _ p m u.0, r)
      go false r = r

  -- A lookup after the filter: the entry is there unless its own value is let go.
  pub find-keep_if :
      (p : K × V → Bool) (k : K) (m : List (K × V))
      → Sorted m
      → find k (keep_if p m) ≡ retained (λ v. p (k, v)) (find k m)
  unfolding find
  find-keep_if p k [] u = refl
  find-keep_if p k ((j, w) ∷ m) u = elim (Bool-cases (o.same j k)) [
    | inl hit ↦ ground (arith, (o.same_iff j k).0 hit, absent hit)
    | inr miss ↦ ground (arith, find-keep_if p k m u.1)
  ]
    where
      absent : o.same j k ≡ true → find k (keep_if p m) ≡ none
      absent hit = Fresh-find k _ (
          All-keep_if _ p m (First-Fresh k m (subst (λ i. First i m) ((o.same_iff j k).0 hit) u.0)))

module _ {ℓ κ} {K : Type ℓ} {V : Type κ} where
  -- The erasing loop filters, and reports whether it erased anything.
  pub sweep_lem : (p : K × V → Bool) (m : List (K × V)) → sweep p m ≡ (erase_if p m, any_of p m)
  unfolding sweep
  sweep_lem p [] = refl
  sweep_lem p (e ∷ m) = ground (arith, sweep_lem p m)
