-- ===== src/Nfs3/Anonymous.antt =====
-- What clients that are not authenticated do to the server through NFSv3,
-- src/simple-nfsd/core/server_simple.cpp.
use simple_nfsd.Prelude.{
  ℕ, ◌≡◌, refl, sym, subst, ap, ◌∙◌, Bool, true, false, List, [], ◌∷◌, Option, arith, ◌==◌,
  if◌then◌else◌, Bool-cases, inl, inr, All,
}
use simple_nfsd.Bytes.{ok}
use simple_nfsd.Rpc.{RpcMessage}
use simple_nfsd.Auth.{AuthContext}
use simple_nfsd.Nfs2.{
  State, Handler, Attempt, done, fails, faults, and_then, ◌>>=◌, conclude, count_failed, reply_with,
}
use simple_nfsd.Nfs2.Calls.{handle_null}
use simple_nfsd.Nfs2.Lookup.{if-Quiet}
use simple_nfsd.Nfs2.Stuck.{Quiet, quiet}
use simple_nfsd.Nfs3.{
  Disk, size_of, link_or_file, type_of, attributes_of, count_successful, succeed,
}
use simple_nfsd.Nfs3.Reading.{existing, may, handle_access}
use simple_nfsd.Nfs3.Changing.{handle_mk_nod}
use simple_nfsd.Nfs3.Calls.{later_procedure, procedure, handle_nfsv3_call, run}
use simple_nfsd.Nfs3.Refused.{reads, handle_nfsv3_call-refused}
use simple_nfsd.Nfs3.History.{run_from-eq-ok}

-- The files and the table of handles stay as they are.
abbrev Same : {F : Type 0} → State F → State F → Type 0
Same s t = (t.files ≡ s.files) × (t.handles ≡ s.handles)

Keeps : {F A : Type 0} → Handler F A → State F → Type 0
Keeps m s = Same s (m s).0

rest-Keeps :
    {F A B : Type 0} (m : Handler F A) (f : A → Handler F B) (s : State F)
    → Quiet m s
    → ((a : A) → Keeps (f a) s)
    → Keeps (m >>= f) s
unfolding Quiet Keeps
rest-Keeps m f s q h = go (m s) q
  where
    go : (r : State _ × Attempt _) → r.0 ≡ s → Same s (and_then f r).0
    go (u, done a) e = subst (λ v. Same s (f a v).0) (sym e) (h a)
    go (u, fails) e = (ap (λ v. v.files) e, ap (λ v. v.handles) e)
    go (u, faults) e = (ap (λ v. v.files) e, ap (λ v. v.handles) e)

succeed-Keeps :
    {F : Type 0} (m : RpcMessage) (bytes : List ℕ) (s : State F) → Keeps (succeed m bytes) s
unfolding Keeps succeed count_successful reply_with
succeed-Keeps m bytes s = (refl, refl)

module _ {F : Type 0} (disk : Disk F) (path : List ℕ) (s : State F) where
  pub size_of-Quiet : Quiet (size_of disk path) s
  unfolding size_of
  size_of-Quiet = search (if-Quiet, quiet) depth 30

  pub link_or_file-Quiet : Quiet (link_or_file disk path) s
  unfolding link_or_file
  link_or_file-Quiet = search quiet depth 30

  pub type_of-Quiet : Quiet (type_of disk path) s
  unfolding type_of
  type_of-Quiet = search (link_or_file-Quiet, if-Quiet, quiet) depth 30

  pub attributes_of-Quiet : (handle : ℕ) → Quiet (attributes_of disk path handle) s
  unfolding attributes_of
  attributes_of-Quiet handle = search (size_of-Quiet, type_of-Quiet, quiet) depth 30

  pub existing-Quiet : Quiet (existing disk path) s
  unfolding existing
  existing-Quiet = search quiet depth 30

pub may-Quiet :
    {F : Type 0} (path : List ℕ) (c : AuthContext) (r w : Bool) (s : State F)
    → Quiet (may path c r w) s
unfolding may Quiet
may-Quiet path c r w s = refl

access-Keeps :
    {F : Type 0} (disk : Disk F) (m : RpcMessage) (c : AuthContext) (s : State F)
    → Keeps (handle_access disk m c) s
unfolding handle_access
access-Keeps disk m c s =
    search (succeed-Keeps, rest-Keeps, existing-Quiet, may-Quiet, attributes_of-Quiet, reads) depth
      40 fits 20000

conclude-Same :
    {F : Type 0} (s t : State F) (reply : Option RpcMessage) (r : State F × Attempt RpcMessage)
    → Same s r.0
    → conclude r ≡ ok (t, reply)
    → Same s t
conclude-Same s t reply (u, done a) h e = let same : u ≡ t = cc in rw (← same) h
conclude-Same s t reply (u, fails) h e = let same : count_failed u ≡ t = cc in rw (← same) h
conclude-Same s t reply (u, faults) h e = absurd (cc)

chosen : {F : Type 0} (b : Bool) (x y : Handler F RpcMessage) → b ≡ true → (if b then x else y) ≡ x
chosen true x y e = refl
chosen false x y e = absurd (cc)

module _ {F : Type 0} (disk : Disk F) (m : RpcMessage) (c : AuthContext) (s t : State F)
    (reply : Option RpcMessage) (returns : handle_nfsv3_call disk m c s ≡ ok (t, reply)) where
  -- The procedure is the one of its number.
  abbrev IsCall : ℕ → Handler F RpcMessage → Type 0
  IsCall n h = (m.header.proc == n) ≡ true → procedure disk m c ≡ h

  null-IsCall : IsCall 0 (handle_null m)
  unfolding procedure
  null-IsCall e = chosen _ _ _ e

  access-IsCall : IsCall 4 (handle_access disk m c)
  unfolding procedure
  access-IsCall e = ground (arith, e)

  mk_nod-IsCall : IsCall 11 (handle_mk_nod m c)
  unfolding procedure later_procedure
  mk_nod-IsCall e = ground (arith, e)

  of_call : (h : Handler F RpcMessage) → procedure disk m c ≡ h → Keeps h s → Same s t
  unfolding handle_nfsv3_call Keeps
  of_call h is keeps =
      conclude-Same s t reply (h s) keeps (ap (λ g. conclude (g s)) (sym is) ∙ returns)

  null-Keeps : Keeps (handle_null m) s
  unfolding handle_null reply_with Keeps
  null-Keeps = (refl, refl)

  mk_nod-Keeps : Keeps (handle_mk_nod m c) s
  unfolding handle_mk_nod
  mk_nod-Keeps = succeed-Keeps m [] s

  call-Same : c.authenticated ≡ false → Same s t
  call-Same anonymous = elim (Bool-cases (m.header.proc == 0)) [
    | inl null ↦ of_call _ (null-IsCall null) null-Keeps
    | inr not_null ↦ elim (Bool-cases (m.header.proc == 4)) [
      | inl access ↦ of_call _ (access-IsCall access) (access-Keeps disk m c s)
      | inr not_access ↦ elim (Bool-cases (m.header.proc == 11)) [
        | inl mk_nod ↦ of_call _ (mk_nod-IsCall mk_nod) mk_nod-Keeps
        | inr not_mk_nod ↦
            elim (handle_nfsv3_call-refused disk m c s (inl anonymous) not_null not_access
              not_mk_nod) [
                | inl crash ↦ absurd (cc)
                | inr e ↦ let same : count_failed s ≡ t = cc in rw (← same) (refl, refl)
              ]
      ]
    ]
  ]

-- No history of NFSv3 calls by clients that are not authenticated changes a file or the table of
-- handles.
pub run-anonymous :
    {F : Type 0} (disk : Disk F) (calls : List (RpcMessage × AuthContext)) (s t : State F)
    (replies : List (Option RpcMessage))
    → All (λ call. call.1.authenticated ≡ false) calls
    → run disk calls s ≡ ok (t, replies)
    → (t.files ≡ s.files) × (t.handles ≡ s.handles)
unfolding run
run-anonymous disk [] s t replies h e = let same : s ≡ t = cc in rw (← same) (refl, refl)
run-anonymous disk ((m, c) ∷ calls) s t replies h e =
    let (u, reply, rest, first, later) = run_from-eq-ok disk (run disk calls) _ e in
    let now = call-Same disk m c s u reply first h.0 in
    let then_on = run-anonymous disk calls u t rest h.1 later in
    (then_on.0 ∙ now.0, then_on.1 ∙ now.1)
