-- ===== src/Nfs2/Stuck.antt =====
-- Procedures that fail before they change anything.
use simple_nfsd.Prelude.{ℕ, ◌≡◌, ◌≢◌, ◌⊎◌, refl, ap, subst, sym, Bool, List, Option, none, inl, inr}
use simple_nfsd.Bytes.{ok, fault}
use simple_nfsd.Rpc.{RpcMessage}
use simple_nfsd.Auth.{AuthContext}
use simple_nfsd.Nfs2.Reading.{named}
use simple_nfsd.Nfs2.Links.{name_at}
use simple_nfsd.Nfs2.{
  Files, State, Attempt, Handler, done, fails, faults, and_then, ◌>>=◌, require, ask, word,
  bytes_at, path_of, check_access, require_valid, full_path, count_failed, conclude,
}

-- The part leaves the state as it is.
unfoldable pub Quiet : {F A : Type 0} → Handler F A → State F → Type 0
Quiet m s = (m s).0 ≡ s

-- The part leaves the state as it is, and does not succeed.
unfoldable pub Stuck : {F A : Type 0} → Handler F A → State F → Type 0
Stuck m s = ((m s).0 ≡ s) × ((a : _) → (m s).1 ≢ done a)

pub first-Stuck :
    {F A B : Type 0} (m : Handler F A) (f : A → Handler F B) (s : State F)
    → Stuck m s
    → Stuck (m >>= f) s
unfolding Stuck
first-Stuck m f s h = go (m s) h
  where
    go :
        (r : State _ × Attempt _)
        → ((r.0 ≡ s) × ((a : _) → r.1 ≢ done a))
        → ((and_then f r).0 ≡ s) × ((b : _) → (and_then f r).1 ≢ done b)
    go (u, done a) h = absurd (h.1 a refl)
    go (u, fails) h = (h.0, λ b e. cc)
    go (u, faults) h = (h.0, λ b e. cc)

pub rest-Stuck :
    {F A B : Type 0} (m : Handler F A) (f : A → Handler F B) (s : State F)
    → Quiet m s
    → ((a : A) → Stuck (f a) s)
    → Stuck (m >>= f) s
unfolding Stuck Quiet
rest-Stuck m f s q h = go (m s) q
  where
    go :
        (r : State _ × Attempt _)
        → r.0 ≡ s
        → ((and_then f r).0 ≡ s) × ((b : _) → (and_then f r).1 ≢ done b)
    go (u, done a) e = subst (λ v. ((f a v).0 ≡ s) × ((b : _) → (f a v).1 ≢ done b)) (sym e) (h a)
    go (u, fails) e = (e, λ b e. cc)
    go (u, faults) e = (e, λ b e. cc)

module _ {F : Type 0} (s : State F) where
  pub require-Quiet : (b : Bool) → Quiet (require b) s
  unfolding require Quiet
  require-Quiet b = refl

  pub ask-Quiet : {A : Type 0} (q : F → Option A) → Quiet (ask q) s
  unfolding ask Quiet
  ask-Quiet q = refl

  pub word-Quiet : (bytes : List ℕ) (offset : ℕ) → Quiet (word bytes offset) s
  unfolding word Quiet
  word-Quiet bytes offset = refl

  pub bytes_at-Quiet : (bytes : List ℕ) (offset n : ℕ) → Quiet (bytes_at bytes offset n) s
  unfolding bytes_at Quiet
  bytes_at-Quiet bytes offset n = refl

  pub path_of-Quiet : (handle : ℕ) → Quiet (path_of handle) s
  unfolding path_of Quiet
  path_of-Quiet handle = refl

  pub check_access-Quiet :
      (path : List ℕ) (c : AuthContext) (r w : Bool) → Quiet (check_access path c r w) s
  unfolding check_access Quiet
  check_access-Quiet path c r w = refl

  pub require_valid-Quiet : (os : Files F) (path : List ℕ) → Quiet (require_valid os path) s
  unfolding require_valid Quiet
  require_valid-Quiet os path = refl

  pub full_path-Quiet : (path : List ℕ) → Quiet (full_path path) s
  unfolding full_path Quiet
  full_path-Quiet path = refl

  pub return-Quiet : {A : Type 0} (a : A) → Quiet (λ u. (u, done a)) s
  unfolding Quiet
  return-Quiet a = refl

pub rest-Quiet :
    {F A B : Type 0} (m : Handler F A) (f : A → Handler F B) (s : State F)
    → Quiet m s
    → ((a : A) → Quiet (f a) s)
    → Quiet (m >>= f) s
unfolding Quiet
rest-Quiet m f s q h = go (m s) q
  where
    go : (r : State _ × Attempt _) → r.0 ≡ s → (and_then f r).0 ≡ s
    go (u, done a) e = subst (λ v. (f a v).0 ≡ s) (sym e) (h a)
    go (u, fails) e = e
    go (u, faults) e = e

pub ruleset quiet = (
  require-Quiet, ask-Quiet, word-Quiet, bytes_at-Quiet, path_of-Quiet, check_access-Quiet,
  require_valid-Quiet, full_path-Quiet, return-Quiet, rest-Quiet,
)

-- The name of a request is read without a change.
pub named-Quiet : {F : Type 0} (bytes : List ℕ) (s : State F) → Quiet (named bytes) s
unfolding named
named-Quiet bytes s = search quiet depth 20

pub name_at-Quiet :
    {F : Type 0} (bytes : List ℕ) (offset more : ℕ) (s : State F)
    → Quiet (name_at bytes offset more) s
unfolding name_at
name_at-Quiet bytes offset more s = search quiet depth 20

pub ruleset stuck = (quiet, named-Quiet, name_at-Quiet, first-Stuck, rest-Stuck)

-- A procedure that fails without a change: the failure is counted, or the message was read past its
-- end.
pub conclude-Stuck :
    {F : Type 0} (h : Handler F RpcMessage) (s : State F)
    → Stuck h s
    → (conclude (h s) ≡ fault) ⊎ (conclude (h s) ≡ ok (count_failed s, none))
unfolding Stuck
conclude-Stuck h s k = go (h s) k
  where
    go :
        (r : State _ × Attempt _)
        → ((r.0 ≡ s) × ((a : _) → r.1 ≢ done a))
        → (conclude r ≡ fault) ⊎ (conclude r ≡ ok (count_failed s, none))
    go (u, done a) k = absurd (k.1 a refl)
    go (u, fails) k = inr (ap (λ v. ok (count_failed v, none)) k.0)
    go (u, faults) k = inl refl
