-- ===== src/Nfs2/Overruns.antt =====
-- Where the NFSv2 procedures that take a name read past their message, in
-- src/simple-nfsd/core/server_simple.cpp.
use simple_nfsd.Prelude.{
  ℕ, ◌+◌, ◌%◌, ◌^◌, ◌<◌, ◌≤◌, ◌≡◌, ◌≢◌, ◌↔◌, refl, Bool, true, false, ◌||◌, List, Option, none,
  some, if◌then◌else◌, arith, Bool-cases, inl, inr, length, drop, ◌==◌, ==_iff,
}
use simple_nfsd.Bytes.{be32, fault}
use simple_nfsd.Rpc.{RpcMessage}
use simple_nfsd.Auth.{AuthContext}
use simple_nfsd.Nfs2.{
  Files, State, Attempt, Handler, done, fails, faults, and_then, ◌>>=◌, require, holds, attempt,
  ask, change, path_of, check_access, require_valid, full_path, handle_for, reply_with, conclude,
}
use simple_nfsd.Nfs2.Attributes.{size_of}
use simple_nfsd.Nfs2.Reading.{named, handle_lookup}
use simple_nfsd.Nfs2.Changing.{new_place, handle_create, handle_mk_dir, handle_remove}
use simple_nfsd.Nfs2.Calls.{procedure, handle_nfsv2_call}
use simple_nfsd.Nfs2.Contents.{named-faults}

-- The part does not read outside the message, in any state.
Sure : {F A : Type 0} → Handler F A → Type 0
Sure m = (s : State _) → (m s).1 ≢ faults

holds-sure : (b : Bool) → holds b ≢ faults
holds-sure true e = absurd (cc)
holds-sure false e = absurd (cc)

attempt-sure : {A : Type 0} (o : Option A) → attempt o ≢ faults
attempt-sure none e = absurd (cc)
attempt-sure (some a) e = absurd (cc)

chosen_sure : {A : Type 0} (b : Bool) (a : A) → (if b then done a else fails) ≢ faults
chosen_sure true a e = absurd (cc)
chosen_sure false a e = absurd (cc)

after-Sure :
    {F A B : Type 0} (m : Handler F A) (f : A → Handler F B)
    → Sure m
    → ((a : A) → Sure (f a))
    → Sure (m >>= f)
unfolding Sure
after-Sure m f h k s = go (m s) (h s)
  where
    go : (r : State _ × Attempt _) → r.1 ≢ faults → (and_then f r).1 ≢ faults
    go (u, done a) n = k a u
    go (u, fails) n = λ e. absurd (cc)
    go (u, faults) n = absurd (n refl)

if-Sure :
    {F A : Type 0} (b : Bool) (x y : Handler F A) → Sure x → Sure y → Sure (if b then x else y)
if-Sure true x y h k = h
if-Sure false x y h k = k

module _ (F : Type 0) where
  require-Sure : (b : Bool) → Sure (require {F = F} b)
  unfolding Sure require
  require-Sure b s = holds-sure b

  ask-Sure : {A : Type 0} (q : F → Option A) → Sure (ask q)
  unfolding Sure ask
  ask-Sure q s = attempt-sure (q s.files)

  change-Sure : {A : Type 0} (call : F → F × Option A) → Sure (change call)
  unfolding Sure change
  change-Sure call s = attempt-sure (call s.files).1

  path_of-Sure : (handle : ℕ) → Sure (path_of {F = F} handle)
  unfolding Sure path_of
  path_of-Sure handle s = chosen_sure _ _

  check_access-Sure :
      (path : List ℕ) (c : AuthContext) (r w : Bool) → Sure (check_access {F = F} path c r w)
  unfolding Sure check_access
  check_access-Sure path c r w s = holds-sure _

  require_valid-Sure : (os : Files F) (path : List ℕ) → Sure (require_valid os path)
  unfolding Sure require_valid
  require_valid-Sure os path s = holds-sure _

  full_path-Sure : (path : List ℕ) → Sure (full_path {F = F} path)
  unfolding Sure full_path
  full_path-Sure path s e = absurd (cc)

  handle_for-Sure : (path : List ℕ) → Sure (handle_for {F = F} path)
  unfolding Sure handle_for
  handle_for-Sure path s e = absurd (cc)

  reply_with-Sure : (m : RpcMessage) (bytes : List ℕ) → Sure (reply_with {F = F} m bytes)
  unfolding Sure reply_with
  reply_with-Sure m bytes s e = absurd (cc)

  return-Sure : {A : Type 0} (a : A) → Sure {F = F} (λ s. (s, done a))
  unfolding Sure
  return-Sure a s e = absurd (cc)

ruleset sure = (
  require-Sure, ask-Sure, change-Sure, path_of-Sure, check_access-Sure, require_valid-Sure,
  full_path-Sure, handle_for-Sure, reply_with-Sure, return-Sure, if-Sure, after-Sure,
)

size_of-Sure : {F : Type 0} (os : Files F) (path : List ℕ) → Sure (size_of os path)
unfolding size_of
size_of-Sure os path = search sure depth 20

new_place-Sure :
    {F : Type 0} (os : Files F) (handle : ℕ) (name : List ℕ) (c : AuthContext)
    → Sure (new_place os handle name c)
unfolding new_place
new_place-Sure os handle name c = search sure depth 40 fits 20000

-- The message holds the handle and the length of the name, whose sum with 8 wraps round 2^32 to no
-- more than the size of the message, though the name does not fit.
pub record Overruns (bytes : List ℕ) : Type 0 where
  pub long : 8 ≤ length bytes
  pub passes : (8 + be32 (drop 4 bytes)) % 2 ^ 32 ≤ length bytes
  pub outside : length bytes < 8 + be32 (drop 4 bytes)

-- The part reads past the message exactly where the name overruns it.
FaultsWith : {F A : Type 0} → List ℕ → Handler F A → Type 0
FaultsWith bytes m = (s : State _) → ((m s).1 ≡ faults) ↔ Overruns bytes

named-FaultsWith :
    {F B : Type 0} (bytes : List ℕ) (f : ℕ × List ℕ → Handler F B)
    → ((a : ℕ × List ℕ) → Sure (f a))
    → FaultsWith bytes (named bytes >>= f)
unfolding FaultsWith Sure
named-FaultsWith bytes f sure_rest s = go (named bytes s) (named-faults bytes s)
  where
    go :
        (r : State _ × Attempt _)
        → ((r.1 ≡ faults) ↔ (
            (8 ≤ length bytes)
            × ((8 + be32 (drop 4 bytes)) % 2 ^ 32 ≤ length bytes)
            × (length bytes < 8 + be32 (drop 4 bytes))))
        → ((and_then f r).1 ≡ faults) ↔ Overruns bytes
    go (u, done a) h = (
      (λ e. absurd (sure_rest a u e)),
      λ o. absurd (let e = h.1 (o.long, o.passes, o.outside) in cc),
    )
    go (u, fails) h =
        ((λ e. absurd (cc)), λ o. absurd (let e = h.1 (o.long, o.passes, o.outside) in cc))
    go (u, faults) h =
        ((λ e. let w = h.0 refl in record { long = w.0; passes = w.1; outside = w.2 }), λ o. refl)

module _ {F : Type 0} (os : Files F) (m : RpcMessage) (c : AuthContext) where
  lookup-FaultsWith : FaultsWith m.payload (handle_lookup os m c)
  unfolding handle_lookup
  lookup-FaultsWith = search (sure, size_of-Sure, named-FaultsWith) depth 40 fits 20000

  create-FaultsWith : FaultsWith m.payload (handle_create os m c)
  unfolding handle_create
  create-FaultsWith = search (sure, new_place-Sure, named-FaultsWith) depth 40 fits 20000

  mk_dir-FaultsWith : FaultsWith m.payload (handle_mk_dir os m c)
  unfolding handle_mk_dir
  mk_dir-FaultsWith = search (sure, new_place-Sure, named-FaultsWith) depth 40 fits 20000

  remove-FaultsWith : FaultsWith m.payload (handle_remove os m c)
  unfolding handle_remove
  remove-FaultsWith = search (sure, named-FaultsWith) depth 40 fits 20000

conclude-faults :
    {F : Type 0} (r : State F × Attempt RpcMessage) → (conclude r ≡ fault) ↔ (r.1 ≡ faults)
conclude-faults (u, done a) = ((λ e. absurd (cc)), λ e. absurd (cc))
conclude-faults (u, fails) = ((λ e. absurd (cc)), λ e. absurd (cc))
conclude-faults (u, faults) = ((λ e. refl), λ e. refl)

-- LOOKUP, CREATE, MKDIR and REMOVE, by the numbers of the switch.
abbrev pub takes_name : RpcMessage → Bool
takes_name m =
    m.header.proc == 3 || (m.header.proc == 8 || (m.header.proc == 9 || m.header.proc == 11))

procedure-FaultsWith :
    {F : Type 0} (os : Files F) (m : RpcMessage) (c : AuthContext)
    → takes_name m ≡ true
    → FaultsWith m.payload (procedure os m c)
unfolding procedure handle_lookup reply_with handle_create handle_mk_dir handle_remove
procedure-FaultsWith os m c takes = elim (Bool-cases (m.header.proc == 3)) [
  | inl e ↦ rw ((==_iff m.header.proc 3).0 e) (lookup-FaultsWith os m c)
  | inr no_lookup ↦ elim (Bool-cases (m.header.proc == 8)) [
    | inl e ↦ rw ((==_iff m.header.proc 8).0 e) (create-FaultsWith os m c)
    | inr no_create ↦ elim (Bool-cases (m.header.proc == 9)) [
      | inl e ↦ rw ((==_iff m.header.proc 9).0 e) (mk_dir-FaultsWith os m c)
      | inr no_mk_dir ↦
          let e : m.header.proc ≡ 11 = ground (arith, takes, no_lookup, no_create, no_mk_dir) in
          rw e (remove-FaultsWith os m c)
    ]
  ]
]

-- A call of LOOKUP, CREATE, MKDIR or REMOVE reads past the end of its message exactly where the
-- message holds the two words in front of the name, and the length in the second one, plus 8, wraps
-- round 2^32 to no more than the size of the message, though the name does not fit.
pub handle_nfsv2_call-Overruns :
    {F : Type 0} (os : Files F) (m : RpcMessage) (c : AuthContext) (s : State F)
    → takes_name m ≡ true
    → (handle_nfsv2_call os m c s ≡ fault) ↔ Overruns m.payload
unfolding handle_nfsv2_call FaultsWith
handle_nfsv2_call-Overruns os m c s takes =
    let ends = conclude-faults (procedure os m c s) in
    let reads = procedure-FaultsWith os m c takes s in
    ((λ e. reads.0 (ends.0 e)), λ o. ends.1 (reads.1 o))
