-- ===== src/Nfs3/History.antt =====
-- Histories of NFSv3 calls, src/simple-nfsd/core/server_simple.cpp: their counts, and the handles that
-- they leave standing.
use simple_nfsd.Prelude.{
  ℕ, ◌+◌, ◌%◌, ◌^◌, ◌<◌, ◌⊎◌, ◌≡◌, refl, sym, ◌∙◌, ap, List, [], ◌∷◌, Option, none, Option-cases,
  arith, ◌==◌, if◌then◌else◌, Bool-cases, inl, inr, length,
}
use native.Mathlib.Decide.{dec_lt}
use simple_nfsd.Bytes.{Outcome, ok, thrown, fault}
use simple_nfsd.Rpc.{RpcMessage}
use simple_nfsd.Auth.{AuthContext}
use simple_nfsd.Server.Handles.{
  Handles, handle_of, get_handle_for_path, get_path_from_handle, Knows, Knows_lem, run-Knows,
}
use simple_nfsd.Server.Handles
use simple_nfsd.Nfs2.{State, Attempt, done, fails, faults, conclude, reply_with}
use simple_nfsd.Nfs2.Calls.{handle_null, run_from, and_reply}
use simple_nfsd.Nfs3.{Disk}
use simple_nfsd.Nfs3.Calls.{
  procedure, handle_nfsv3_call, run, count_served, serve_nfsv3, serve_calls,
}
use simple_nfsd.Nfs3.Effects.{Counted, Tallied, Grown, Grown-trans, Grown-refl}
use simple_nfsd.Nfs3.Counting.{procedure-Counted}

-- A history that comes to its end begins with a call that does, and goes on from there.
module _ {F : Type 0} (disk : Disk F) where
  and_reply-eq-ok :
      {t : State F} {replies : List (Option RpcMessage)} (reply : Option RpcMessage)
      (o : Outcome (State F × List (Option RpcMessage)))
      → and_reply disk.files reply o ≡ ok (t, replies)
      → (rest : List (Option RpcMessage)) × (o ≡ ok (t, rest))
  and_reply-eq-ok reply (ok (u, rest)) e = (rest, cc)
  and_reply-eq-ok reply (thrown x) e = absurd (cc)
  and_reply-eq-ok reply fault e = absurd (cc)

  pub run_from-eq-ok :
      {t : State F} {replies : List (Option RpcMessage)}
      (next : State F → Outcome (State F × List (Option RpcMessage)))
      (o : Outcome (State F × Option RpcMessage))
      → run_from disk.files next o ≡ ok (t, replies)
      → (u : State F) × (reply : Option RpcMessage) × (rest : List (Option RpcMessage)) × (o
          ≡ ok (u, reply))
        × (next u ≡ ok (t, rest))
  run_from-eq-ok next (ok (u, reply)) e =
      let (rest, g) = and_reply-eq-ok reply (next u) e in (u, reply, rest, refl, g)
  run_from-eq-ok next (thrown x) e = absurd (cc)
  run_from-eq-ok next fault e = absurd (cc)

-- Each path has no handle when it is asked for, and so is given one.
unfoldable pub IsGiven : List (List ℕ) → Handles → Type 0
IsGiven [] s = Unit {0}
IsGiven (path ∷ paths) s =
    (handle_of path s.file_handles ≡ none) × IsGiven paths (get_handle_for_path path s).1

-- Requests for handles that stand change nothing: the others alone lead to the same table.
run-IsGiven :
    (asked : List (List ℕ)) (s : Handles)
    → (paths : List (List ℕ)) × IsGiven paths s × (Handles.run paths s ≡ Handles.run asked s)
unfolding IsGiven Handles.run get_handle_for_path
run-IsGiven [] s = ([], tt, refl)
run-IsGiven (path ∷ asked) s = elim (Option-cases (handle_of path s.file_handles)) [
  | inl new ↦
      let (paths, given, same) = run-IsGiven asked (get_handle_for_path path s).1 in
      (path ∷ paths, (new, given), same)
  | inr (h, known) ↦ let (paths, given, same) = run-IsGiven asked s in (paths, given, rw known same)
]

-- The calls other than NULL.
pub others : List (RpcMessage × AuthContext) → ℕ
others [] = 0
others ((m, c) ∷ calls) = if m.header.proc == 0 then others calls else others calls + 1

-- So many calls are counted between the states, and handles are only given out.
Moves : {F : Type 0} → ℕ → State F → State F → Type 0
Moves n s t =
    ((t.successful_requests + t.failed_requests) % 2 ^ 64
      ≡ (s.successful_requests + s.failed_requests + n) % 2 ^ 64)
    × Grown s.handles t.handles

Moves-trans :
    {F : Type 0} (a b : ℕ) (s t u : State F) → Moves a s t → Moves b t u → Moves (a + b) s u
unfolding Moves
Moves-trans a b s t u (e, g) (e', g') =
    (omega arith, Grown-trans s.handles t.handles u.handles g g')

conclude-Moves :
    {F : Type 0} (s t : State F) (reply : Option RpcMessage) (r : State F × Attempt RpcMessage)
    → Tallied s r
    → conclude r ≡ ok (t, reply)
    → Moves 1 s t
unfolding Moves
conclude-Moves s t reply (u, done a) (failed, successful, grown) e =
    let same : u ≡ t = cc in rw (← same) (ground (arith, failed, successful), grown)
conclude-Moves s t reply (u, fails) h e =
    let same : record u { failed_requests = (u.failed_requests + 1) % 2 ^ 64 } ≡ t = cc in
    rw (← same) (ground (arith, h.failed, h.successful), h.handles)
conclude-Moves s t reply (u, faults) h e = absurd (cc)

module _ {F : Type 0} (disk : Disk F) where
  call-Moves :
      (m : RpcMessage) (c : AuthContext) (s t : State F) (reply : Option RpcMessage)
      → handle_nfsv3_call disk m c s ≡ ok (t, reply)
      → Moves (if m.header.proc == 0 then 0 else 1) s t
  unfolding handle_nfsv3_call procedure handle_null reply_with Counted Moves
  call-Moves m c s t reply e = elim (Bool-cases (m.header.proc == 0)) [
    | inl null ↦
        let same : s ≡ t = cc (null, e) in rw (null, ← same) (omega arith, Grown-refl s.handles)
    | inr other ↦ rw other (conclude-Moves s t reply _ (procedure-Counted disk m c other s) e)
  ]

  run-Moves :
      (calls : List (RpcMessage × AuthContext)) (s t : State F) (replies : List (Option RpcMessage))
      → run disk calls s ≡ ok (t, replies)
      → Moves (others calls) s t
  unfolding run others Moves
  run-Moves [] s t replies e =
      let same : s ≡ t = cc in rw (← same) (omega arith, Grown-refl s.handles)
  run-Moves ((m, c) ∷ calls) s t replies e =
      let (u, reply, rest, first, later) = run_from-eq-ok disk (run disk calls) _ e in
      let (n, g) = call-Moves m c s u reply first in
      let (k, h) = run-Moves calls u t rest later in
      (ground (arith, n, k), Grown-trans s.handles u.handles t.handles g h)

  count_served-counts :
      (o : Outcome (State F × Option RpcMessage)) (t : State F) (reply : Option RpcMessage)
      → count_served disk o ≡ ok (t, reply)
      → (u : State F) × (o ≡ ok (u, reply))
        × (t.failed_requests ≡ u.failed_requests)
        × (t.successful_requests ≡ (u.successful_requests + 1) % 2 ^ 64)
  unfolding count_served
  count_served-counts (ok (u, reply)) t r e = (u, cc, cc, cc)
  count_served-counts (thrown x) t r e = absurd (cc)
  count_served-counts fault t r e = absurd (cc)

  -- Over every history of NFSv3 calls that handleRpcCall serves and that comes to its end,
  -- successful_requests_ and failed_requests_ together grow, modulo 2^64, by one for each NULL and by
  -- two for each other call: the procedure counts it, and handleRpcCall once more.
  pub serve_calls-counts :
      (calls : List (RpcMessage × AuthContext)) (s t : State F) (replies : List (Option RpcMessage))
      → serve_calls disk calls s ≡ ok (t, replies)
      → (t.successful_requests + t.failed_requests) % 2 ^ 64
        ≡ (s.successful_requests + s.failed_requests + length calls + others calls) % 2 ^ 64
  unfolding serve_calls serve_nfsv3 others Moves
  serve_calls-counts [] s t replies e = let same : s ≡ t = cc in rw (← same) (omega arith)
  serve_calls-counts ((m, c) ∷ calls) s t replies e =
      let (v, reply, rest, first, later) = run_from-eq-ok disk (serve_calls disk calls) _ e in
      let (u, ends, failed, successful) = count_served-counts _ v reply first in
      let counted = (call-Moves m c s u reply ends).0 in
      let k = serve_calls-counts calls v t rest later in
      ground (arith, counted, failed, successful, k)

  -- A history of NFSv3 calls that comes to its end moves the table of handles only by giving new
  -- handles to paths that had none, and a handle that the table knew for a path before, when no handle
  -- had wrapped round, resolves to that path after, unless the handles so given out take the next one
  -- past 2^32.
  pub run-handles :
      (calls : List (RpcMessage × AuthContext)) (s t : State F) (replies : List (Option RpcMessage))
      (path : List ℕ) (handle : ℕ)
      → Knows path handle s.handles
      → run disk calls s ≡ ok (t, replies)
      → (paths : List (List ℕ)) × IsGiven paths s.handles
        × (t.handles ≡ Handles.run paths s.handles)
        × ((get_path_from_handle handle t.handles ≡ path)
            ⊎ (2 ^ 32 < s.handles.next_handle_id + length paths))
  unfolding Moves
  run-handles calls s t replies path handle knows e =
      let (asked, moved) = (run-Moves calls s t replies e).1 in
      let (paths, given, same) = run-IsGiven asked s.handles in
      let grown = moved ∙ sym same in
      (
        paths,
        given,
        grown,
        elim (dec_lt (2 ^ 32) (s.handles.next_handle_id + length paths)) [
          | yes over ↦ inr over
          | no room ↦ inl (
              ap (get_path_from_handle handle) grown
              ∙ (Knows_lem path handle (Handles.run paths s.handles)
                  (run-Knows path handle paths s.handles knows (omega arith))).0)
        ],
      )
