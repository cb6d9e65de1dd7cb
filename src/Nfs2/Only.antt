-- ===== src/Nfs2/Only.antt =====
-- What holds wherever a part of a procedure succeeds.
use simple_nfsd.Prelude.{
  ℕ, ◌≡◌, refl, ap, subst, sym, ◌∙◌, Bool, true, false, List, if◌then◌else◌, arith, Bool-cases, inl,
  inr, leb, length, drop, ◌+◌,
}
use simple_nfsd.Nfs2.{
  State, Handler, Attempt, done, fails, faults, and_then, ◌>>=◌, holds, is_nonempty, word, path_of,
  bytes_at, require,
}
use simple_nfsd.Bytes.{be32, read_uint32, slice}
use simple_nfsd.Server.Handles.{get_path_from_handle}
use simple_nfsd.Nfs2.Reading.{named}
use simple_nfsd.Nfs2.Links.{name_at}
use simple_nfsd.Nfs2.Contents.{named_lem, named_short}
use simple_nfsd.Nfs2.Stuck.{Quiet, quiet, named-Quiet, name_at-Quiet}

-- The part succeeds only where P holds.
unfoldable pub Only : {F A : Type 0} → Type 0 → Handler F A → State F → Type 0
Only P m s = (a : _) → (m s).1 ≡ done a → P

pub here-Only :
    {F A B : Type 0} (P : Type 0) (m : Handler F A) (f : A → Handler F B) (s : State F)
    → Only P m s
    → Only P (m >>= f) s
unfolding Only
here-Only P m f s h = go (m s) h
  where
    go :
        (r : State _ × Attempt _)
        → ((a : _) → r.1 ≡ done a → P)
        → (b : _) → (and_then f r).1 ≡ done b
        → P
    go (u, done a) h b e = h a refl
    go (u, fails) h b e = absurd (cc)
    go (u, faults) h b e = absurd (cc)

pub rest-Only :
    {F A B : Type 0} (P : Type 0) (m : Handler F A) (f : A → Handler F B) (s : State F)
    → Quiet m s
    → ((a : A) → Only P (f a) s)
    → Only P (m >>= f) s
unfolding Only Quiet
rest-Only P m f s q h = go (m s) q
  where
    go : (r : State _ × Attempt _) → r.0 ≡ s → (b : _) → (and_then f r).1 ≡ done b → P
    go (u, done a) e b g = h a b (ap (λ v. (f a v).1) (sym e) ∙ g)
    go (u, fails) e b g = absurd (cc)
    go (u, faults) e b g = absurd (cc)

pub if-Only :
    {F A : Type 0} (P : Type 0) (b : Bool) (x y : Handler F A) (s : State F)
    → Only P x s
    → Only P y s
    → Only P (if b then x else y) s
if-Only P true x y s h k = h
if-Only P false x y s h k = k

pub skip-Only :
    {F A : Type 0} (P : Type 0) (b : Bool) (x y : Handler F A) (s : State F)
    → b ≡ false
    → Only P y s
    → Only P (if b then x else y) s
skip-Only P true x y s e k = absurd (cc)
skip-Only P false x y s e k = k

pub split-Only :
    {F A : Type 0} (P : Type 0) (b : Bool) (x y : Handler F A) (s : State F)
    → (b ≡ true → Only P x s)
    → (b ≡ false → Only P y s)
    → Only P (if b then x else y) s
split-Only P true x y s h k = h refl
split-Only P false x y s h k = k refl

pub holds-true : (b : Bool) (u : Unit {0}) → holds b ≡ done u → b ≡ true
holds-true true u e = refl
holds-true false u e = absurd (cc)

when-Only :
    {F A B : Type 0} (P : Type 0) (m : Handler F A) (f : A → Handler F B) (s : State F)
    → Quiet m s
    → ((a : A) → (m s).1 ≡ done a → Only P (f a) s)
    → Only P (m >>= f) s
unfolding Only Quiet
when-Only P m f s q h = go (m s) q h
  where
    go :
        (r : State _ × Attempt _)
        → r.0 ≡ s
        → ((a : _) → r.1 ≡ done a → (b : _) → (f a s).1 ≡ done b → P)
        → (b : _) → (and_then f r).1 ≡ done b
        → P
    go (u, done a) e h b g = h a refl b (ap (λ v. (f a v).1) (sym e) ∙ g)
    go (u, fails) e h b g = absurd (cc)
    go (u, faults) e h b g = absurd (cc)

pub chosen_done :
    {A : Type 0} (passes fits : Bool) (x a : A)
    → (if passes then (if fits then done x else faults) else fails) ≡ done a
    → x ≡ a
chosen_done true true x a e = cc
chosen_done true false x a e = absurd (cc)
chosen_done false fits x a e = absurd (cc)

pub named-done :
    {F : Type 0} (bytes : List ℕ) (s : State F) (a : ℕ × List ℕ)
    → (named bytes s).1 ≡ done a
    → (be32 bytes, slice bytes 8 (be32 (drop 4 bytes))) ≡ a
named-done bytes s a e = elim (Bool-cases (leb 8 (length bytes))) [
  | inl room ↦ chosen_done _ _ _ a (sym (named_lem bytes s (ground (arith, room))) ∙ e)
  | inr short ↦ absurd (cc (e, named_short bytes s short))
]

name_at-done :
    {F : Type 0} (bytes : List ℕ) (offset more : ℕ) (s : State F) (a : List ℕ)
    → (name_at bytes offset more s).1 ≡ done a
    → slice bytes (offset + 4) (be32 (drop offset bytes)) ≡ a
unfolding name_at word read_uint32 require bytes_at
name_at-done bytes offset more s a e = elim (Bool-cases (leb (offset + 4) (length bytes))) [
  | inr short ↦ absurd (ground (arith, e, short))
  | inl room ↦
      let n = be32 (drop offset bytes) in
      elim (Bool-cases (leb (offset + 4 + n + more) (length bytes))) [
        | inr refused ↦ absurd (ground (arith, e, room, refused))
        | inl passes ↦ elim (Bool-cases (leb (offset + 4 + n) (length bytes))) [
          | inr outside ↦ absurd (ground (arith, passes, outside))
          | inl inside ↦ ground (arith, e, room, passes, inside)
        ]
      ]
]

-- Steps whose result is known.
module _ {F B : Type 0} (P : Type 0) (s : State F) where
  pub path_first :
      (handle : ℕ) (f : List ℕ → Handler F B)
      → Only P (f (get_path_from_handle handle s.handles)) s
      → Only P (path_of handle >>= f) s
  unfolding path_of Only
  path_first handle f h = elim (Bool-cases (is_nonempty (get_path_from_handle handle s.handles))) [
    | inl named ↦ rw named h
    | inr unknown ↦ rw unknown (λ a e. absurd (cc))
  ]

  pub word_first :
      (bytes : List ℕ) (offset : ℕ) (f : ℕ → Handler F B)
      → Only P (f (be32 (drop offset bytes))) s
      → Only P (word bytes offset >>= f) s
  unfolding word read_uint32 Only
  word_first bytes offset f h = elim (Bool-cases (leb (offset + 4) (length bytes))) [
    | inl fits ↦ rw fits h
    | inr short ↦ rw short (λ a e. absurd (cc))
  ]

  pub name_at_first :
      (bytes : List ℕ) (offset more : ℕ) (f : List ℕ → Handler F B)
      → Only P (f (slice bytes (offset + 4) (be32 (drop offset bytes)))) s
      → Only P (name_at bytes offset more >>= f) s
  name_at_first bytes offset more f h =
      when-Only P (name_at bytes offset more) f s (name_at-Quiet bytes offset more s)
        (λ a e. subst (λ b. Only P (f b) s) (name_at-done bytes offset more s a e) h)

  pub named_first :
      (bytes : List ℕ) (f : ℕ × List ℕ → Handler F B)
      → Only P (f (be32 bytes, slice bytes 8 (be32 (drop 4 bytes)))) s
      → Only P (named bytes >>= f) s
  named_first bytes f h =
      when-Only P (named bytes) f s (named-Quiet bytes s)
        (λ a e. subst (λ b. Only P (f b) s) (named-done bytes s a e) h)

pub ruleset only = (quiet, named-Quiet, name_at-Quiet, here-Only, rest-Only)

pub ruleset known = (path_first, word_first, named_first, name_at_first, only)
