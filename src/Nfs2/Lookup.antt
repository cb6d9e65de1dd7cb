-- ===== src/Nfs2/Lookup.antt =====
-- The handle that LOOKUP answers with, src/simple-nfsd/core/server_simple.cpp.
use simple_nfsd.Prelude.{
  ℕ, ◌+◌, ◌^◌, ◌≤◌, ◌≡◌, refl, ap, subst, sym, ◌∙◌, Bool, true, false, List, ◌++◌, if◌then◌else◌,
  length, drop,
}
use simple_nfsd.Bytes.{bytes32, be32, slice}
use simple_nfsd.Rpc.{RpcMessage, create_reply}
use simple_nfsd.Auth.{AuthContext}
use simple_nfsd.Server.Handles
use simple_nfsd.Server.Handles.{
  get_handle_for_path, get_path_from_handle, IsTable, get_path_from_handle-later,
}
use simple_nfsd.Nfs2.{
  Files, State, Attempt, Handler, done, fails, faults, and_then, ◌>>=◌, path_of, child, handle_for,
  reply_with,
}
use simple_nfsd.Nfs2.Attributes.{size_of}
use simple_nfsd.Nfs2.Reading.{named, handle_lookup}
use simple_nfsd.Nfs2.Only.{named-done}
use simple_nfsd.Nfs2.Stuck.{Quiet, quiet, named-Quiet}

-- What holds of the state and the result of a part that succeeds.
unfoldable pub Ends : {F A : Type 0} → (State F → A → Type 0) → State F × Attempt A → Type 0
Ends Q (t, done a) = Q t a
Ends Q (t, fails) = Unit {0}
Ends Q (t, faults) = Unit {0}

unfoldable pub Yields : {F A : Type 0} → (State F → A → Type 0) → Handler F A → State F → Type 0
Yields Q m s = Ends Q (m s)

pub rest-Yields :
    {F A B : Type 0} (Q : State F → B → Type 0) (m : Handler F A) (f : A → Handler F B)
    (s : State F)
    → Quiet m s
    → ((a : A) → (m s).1 ≡ done a → Yields Q (f a) s)
    → Yields Q (m >>= f) s
unfolding Ends Quiet Yields
rest-Yields Q m f s q h = go (m s) q h
  where
    go :
        (r : State _ × Attempt _)
        → r.0 ≡ s
        → ((a : _) → r.1 ≡ done a → Ends Q (f a s))
        → Ends Q (and_then f r)
    go (u, done a) e h = subst (λ v. Ends Q (f a v)) (sym e) (h a refl)
    go (u, fails) e h = tt
    go (u, faults) e h = tt

handle_for-Yields :
    {F B : Type 0} (Q : State F → B → Type 0) (path : List ℕ) (f : ℕ → Handler F B) (s : State F)
    → Yields Q
        (f (get_handle_for_path path s.handles).0)
        (record s { handles = (get_handle_for_path path s.handles).1 })
    → Yields Q (handle_for path >>= f) s
unfolding Yields handle_for
handle_for-Yields Q path f s h = h

kept_done : {A : Type 0} (b : Bool) (x a : A) → (if b then done x else fails) ≡ done a → x ≡ a
kept_done true x a e = cc
kept_done false x a e = absurd (cc)

path_of-done :
    {F : Type 0} (handle : ℕ) (s : State F) (path : List ℕ)
    → (path_of handle s).1 ≡ done path
    → get_path_from_handle handle s.handles ≡ path
unfolding path_of
path_of-done handle s path e = kept_done _ _ path e

pub if-Quiet :
    {F A : Type 0} (b : Bool) (x y : Handler F A) (s : State F)
    → Quiet x s
    → Quiet y s
    → Quiet (if b then x else y) s
if-Quiet true x y s h k = h
if-Quiet false x y s h k = k

size_of-Quiet :
    {F : Type 0} (os : Files F) (path : List ℕ) (s : State F) → Quiet (size_of os path) s
unfolding size_of
size_of-Quiet os path s = search (quiet, if-Quiet)

-- The reply begins with a handle that stands, after the later requests, for the name asked for in the
-- directory asked for.
pub record IsFound {F : Type 0} (s : State F) (message : RpcMessage) (later : List (List ℕ))
    (t : State F) (reply : RpcMessage) : Type 0 where
  pub handle : ℕ
  pub rest : List ℕ
  pub begins : reply.payload ≡ bytes32 handle ++ rest
  pub stands :
      get_path_from_handle handle (Handles.run later t.handles)
      ≡ child
          (get_path_from_handle (be32 message.payload) s.handles)
          (slice message.payload 8 (be32 (drop 4 message.payload)))

asked :
    {F : Type 0} (m : RpcMessage) (s : State F) (request : ℕ × List ℕ) (dir : List ℕ)
    → (be32 m.payload, slice m.payload 8 (be32 (drop 4 m.payload))) ≡ request
    → get_path_from_handle request.0 s.handles ≡ dir
    → child dir request.1
      ≡ child
          (get_path_from_handle (be32 m.payload) s.handles)
          (slice m.payload 8 (be32 (drop 4 m.payload)))
asked m s request dir e d = cc (ap (λ q. q.0) e, ap (λ q. q.1) e, d)

-- The last step of LOOKUP, in the state after the handle is known.
reply-IsFound :
    {F : Type 0} (m : RpcMessage) (later : List (List ℕ)) (s : State F) (request : ℕ × List ℕ)
    (dir rest : List ℕ)
    → IsTable s.handles
    → s.handles.next_handle_id + length later + 1 ≤ 2 ^ 32
    → (named m.payload s).1 ≡ done request
    → (path_of request.0 s).1 ≡ done dir
    → Yields
        (IsFound s m later)
        (reply_with m (bytes32 (get_handle_for_path (child dir request.1) s.handles).0 ++ rest))
        (record s { handles = (get_handle_for_path (child dir request.1) s.handles).1 })
unfolding Ends Yields reply_with create_reply
reply-IsFound m later s request dir rest table room is_named is_dir = record {
  handle = (get_handle_for_path (child dir request.1) s.handles).0;
  rest = rest;
  begins = refl;
  stands =
      get_path_from_handle-later (child dir request.1) later s.handles table room
      ∙ asked m s request dir (named-done m.payload s request is_named)
          (path_of-done request.0 s dir is_dir);
}

handle_lookup-Yields :
    {F : Type 0} (os : Files F) (m : RpcMessage) (c : AuthContext) (later : List (List ℕ))
    (s : State F)
    → IsTable s.handles
    → s.handles.next_handle_id + length later + 1 ≤ 2 ^ 32
    → Yields (IsFound s m later) (handle_lookup os m c) s
unfolding handle_lookup
handle_lookup-Yields os m c later s table room =
    search
      (
        reply-IsFound, handle_for-Yields, rest-Yields, quiet, named-Quiet, size_of-Quiet, table,
        room,
      )
      depth 40 fits 20000

-- A LOOKUP that is answered replies with a handle that resolves to the name in the message, in the
-- directory whose handle the message begins with, and still does after any later requests for handles,
-- on a table whose handles have not wrapped round, as long as these requests leave room below 2^32.
pub handle_lookup-IsFound :
    {F : Type 0} (os : Files F) (m : RpcMessage) (c : AuthContext) (later : List (List ℕ))
    (s t : State F) (r : RpcMessage)
    → IsTable s.handles
    → s.handles.next_handle_id + length later + 1 ≤ 2 ^ 32
    → handle_lookup os m c s ≡ (t, done r)
    → IsFound s m later t r
unfolding Ends Yields
handle_lookup-IsFound os m c later s t r table room e =
    subst (Ends (IsFound s m later)) e (handle_lookup-Yields os m c later s table room)
