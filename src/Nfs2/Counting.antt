-- ===== src/Nfs2/Counting.antt =====
-- The failed NFSv2 calls and their count, src/simple-nfsd/core/server_simple.cpp.
use simple_nfsd.Prelude.{
  ℕ, ◌+◌, ◌%◌, ◌^◌, ◌<◌, ◌≡◌, subst, List, [], ◌∷◌, Option, none, some, arith,
}
use simple_nfsd.Bytes.{Outcome, ok, thrown, fault}
use simple_nfsd.Rpc.{RpcMessage}
use simple_nfsd.Auth.{AuthContext}
use simple_nfsd.Nfs2.{Files, State, Attempt, done, fails, faults, conclude, count_failed}
use simple_nfsd.Nfs2.Calls.{procedure, handle_nfsv2_call, run, run_from, and_reply}
use simple_nfsd.Nfs2.Uncounted.{Uncounted, procedure-Uncounted}

-- The calls without a reply.
pub failures : List (Option RpcMessage) → ℕ
failures [] = 0
failures (none ∷ replies) = failures replies + 1
failures (some reply ∷ replies) = failures replies

Counts : {F : Type 0} → ℕ → Outcome (State F × List (Option RpcMessage)) → Type 0
Counts n (ok (t, replies)) = t.failed_requests ≡ (n + failures replies) % 2 ^ 64
Counts n (thrown e) = Unit {0}
Counts n fault = Unit {0}

and_reply-Counts :
    {F : Type 0} (os : Files F) (n k : ℕ) (reply : Option RpcMessage)
    → (o : Outcome (State F × List (Option RpcMessage))) → k ≡ (n + failures (reply ∷ [])) % 2 ^ 64
    → Counts k o
    → Counts n (and_reply os reply o)
unfolding Counts failures
and_reply-Counts os n k none (ok (t, replies)) e h = ground arith
and_reply-Counts os n k (some reply) (ok (t, replies)) e h = ground arith
and_reply-Counts os n k reply (thrown x) e h = tt
and_reply-Counts os n k reply fault e h = tt

run_from-Counts :
    {F : Type 0} (os : Files F) (rest : State F → Outcome (State F × List (Option RpcMessage)))
    → (n : ℕ) (r : State F × Attempt RpcMessage) → n < 2 ^ 64
    → r.0.failed_requests ≡ n
    → ((u : State F) → u.failed_requests < 2 ^ 64 → Counts u.failed_requests (rest u))
    → Counts n (run_from os rest (conclude r))
unfolding Counts failures
run_from-Counts os rest n (u, done reply) b e h =
    and_reply-Counts os n u.failed_requests (some reply) (rest u) (ground (arith, e))
      (h u (ground (arith, e)))
run_from-Counts os rest n (u, fails) b e h =
    and_reply-Counts os n _ none (rest (count_failed u)) (ground (arith, e))
      (h (count_failed u) (ground arith))
run_from-Counts os rest n (u, faults) b e h = tt

run-Counts :
    {F : Type 0} (os : Files F) (calls : List (RpcMessage × AuthContext)) (s : State F)
    → s.failed_requests < 2 ^ 64
    → Counts s.failed_requests (run os calls s)
unfolding run handle_nfsv2_call Counts failures Uncounted
run-Counts os [] s b = ground arith
run-Counts os ((m, c) ∷ calls) s b =
    run_from-Counts os (run os calls) s.failed_requests (procedure os m c s) b
      (procedure-Uncounted os m c s) (run-Counts os calls)

-- Over any history of NFSv2 calls that comes to its end, failed_requests_ grows by the number of calls
-- without a reply, modulo 2^64: each call is answered or counted as failed, and none is both.
run-failed_requests :
    {F : Type 0} (os : Files F) (calls : List (RpcMessage × AuthContext)) (s t : State F)
    → (replies : List (Option RpcMessage)) → s.failed_requests < 2 ^ 64
    → run os calls s ≡ ok (t, replies)
    → t.failed_requests ≡ (s.failed_requests + failures replies) % 2 ^ 64
unfolding Counts
run-failed_requests os calls s t replies b e =
    subst (Counts s.failed_requests) e (run-Counts os calls s b)
