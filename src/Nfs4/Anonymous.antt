-- ===== src/Nfs4/Anonymous.antt =====
-- What clients that are not authenticated do to the server through NFSv4,
-- src/simple-nfsd/core/server_simple.cpp.
use simple_nfsd.Prelude.{ℕ, ◌≡◌, refl, ◌∙◌, Bool, false, List, [], ◌∷◌, Option, arith, All}
use simple_nfsd.Bytes.{ok}
use simple_nfsd.Rpc.{RpcMessage}
use simple_nfsd.Auth.{AuthContext, check_path_access}
use simple_nfsd.Nfs2.{State, Attempt, done, fails, faults, conclude, count_failed, check_access}
use simple_nfsd.Nfs2.Stuck.{Stuck}
use simple_nfsd.Nfs3.History.{run_from-eq-ok}
use simple_nfsd.Nfs4.{Store}
use simple_nfsd.Nfs4.Calls.{procedure, handle_nfsv4_call, run}
use simple_nfsd.Nfs4.Keeps.{Same, Keeps, procedure-Keeps}

anonymous-Denied :
    {F : Type 0} (c : AuthContext) (s : State F)
    → c.authenticated ≡ false
    → (path : List ℕ) (r w : Bool) → Stuck (check_access path c r w) s
unfolding Stuck check_access check_path_access
anonymous-Denied c s anonymous path r w = (refl, λ a e. ground (arith, anonymous))

conclude-Same :
    {F : Type 0} (s t : State F) (reply : Option RpcMessage) (r : State F × Attempt RpcMessage)
    → Same s r.0
    → conclude r ≡ ok (t, reply)
    → Same s t
conclude-Same s t reply (u, done a) h e = let same : u ≡ t = cc in rw (← same) h
conclude-Same s t reply (u, fails) h e = let same : count_failed u ≡ t = cc in rw (← same) h
conclude-Same s t reply (u, faults) h e = absurd (cc)

call-Same :
    {F : Type 0} (store : Store F) (now : ℕ) (m : RpcMessage) (c : AuthContext) (s t : State F)
    (reply : Option RpcMessage)
    → c.authenticated ≡ false
    → handle_nfsv4_call store now m c s ≡ ok (t, reply)
    → Same s t
unfolding handle_nfsv4_call Keeps
call-Same store now m c s t reply anonymous e =
    conclude-Same s t reply (procedure store now m c s)
      (procedure-Keeps store now m c s (anonymous-Denied c s anonymous)) e

-- No history of NFSv4 calls by clients that are not authenticated changes a file, the table of
-- handles, or the state of the security manager.
pub run-harmless :
    {F : Type 0} (store : Store F) (calls : List (ℕ × RpcMessage × AuthContext)) (s t : State F)
    (replies : List (Option RpcMessage))
    → All (λ call. call.2.authenticated ≡ false) calls
    → run store calls s ≡ ok (t, replies)
    → (t.files ≡ s.files) × (t.handles ≡ s.handles) × (t.security ≡ s.security)
unfolding run
run-harmless store [] s t replies h e = let same : s ≡ t = cc in rw (← same) (refl, refl, refl)
run-harmless store ((now, m, c) ∷ calls) s t replies h e =
    let (u, reply, rest, first, later) = run_from-eq-ok store.disk (run store calls) _ e in
    let now_same = call-Same store now m c s u reply h.0 first in
    let then_same = run-harmless store calls u t rest h.1 later in
    (then_same.0 ∙ now_same.0, then_same.1 ∙ now_same.1, then_same.2 ∙ now_same.2)
