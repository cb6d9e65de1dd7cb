-- ===== src/Nfs2/Bootstrap.antt =====
-- What a server without handles can do, in the NFSv2 procedures of
-- src/simple-nfsd/core/server_simple.cpp.
use simple_nfsd.Prelude.{
  ℕ, ◌≡◌, ◌⊎◌, refl, ap, Bool, true, false, List, [], ◌∷◌, Option, none, some, ◌==◌, if◌then◌else◌,
  map, ◌∙◌, arith, Bool-cases, inl, inr,
}
use simple_nfsd.Bytes.{ok, fault}
use simple_nfsd.Rpc.{RpcMessage, auth_none, create_reply}
use simple_nfsd.Auth.{AuthContext}
use simple_nfsd.Map.{find}
use simple_nfsd.Server.Handles.{Handles, get_path_from_handle}
use simple_nfsd.Nfs2.{Files, State, Handler, path_of, count_failed, reply_with}
use simple_nfsd.Nfs2.Reading.{
  handle_get_attr, handle_lookup, handle_read, handle_read_dir, handle_stat_fs,
}
use simple_nfsd.Nfs2.Changing.{
  handle_write, handle_set_attr, handle_create, handle_mk_dir, handle_rm_dir, handle_remove,
  new_place,
}
use simple_nfsd.Nfs2.Links.{handle_rename, handle_link, handle_sym_link}
use simple_nfsd.Nfs2.Calls.{handle_null, unsupported, procedure, handle_nfsv2_call, run}
use simple_nfsd.Nfs2.Stuck.{Stuck, stuck, conclude-Stuck}

pub get_path-empty :
    (handle : ℕ) (h : Handles) → h.file_handles ≡ [] → get_path_from_handle handle h ≡ []
unfolding get_path_from_handle find
get_path-empty handle h e = rw (ap (find handle) e) refl

module _ {F : Type 0} (os : Files F) (m : RpcMessage) (c : AuthContext) (s : State F)
    (empty : s.handles.file_handles ≡ []) where
  path_of-Stuck : (handle : ℕ) → Stuck (path_of {F = F} handle) s
  unfolding path_of Stuck
  path_of-Stuck handle = (refl, λ path e. ground (arith, get_path-empty handle s.handles empty))

  new_place-Stuck : (handle : ℕ) (name : List ℕ) → Stuck (new_place os handle name c) s
  unfolding new_place
  new_place-Stuck handle name = search (stuck, path_of-Stuck) depth 30

  handle_get_attr-Stuck : Stuck (handle_get_attr os m c) s
  unfolding handle_get_attr
  handle_get_attr-Stuck = search (stuck, path_of-Stuck) depth 30

  handle_lookup-Stuck : Stuck (handle_lookup os m c) s
  unfolding handle_lookup
  handle_lookup-Stuck = search (stuck, path_of-Stuck) depth 30

  handle_set_attr-Stuck : Stuck (handle_set_attr os m c) s
  unfolding handle_set_attr
  handle_set_attr-Stuck = search (stuck, path_of-Stuck) depth 40

  handle_link-Stuck : Stuck (handle_link os m c) s
  unfolding handle_link
  handle_link-Stuck = search (stuck, path_of-Stuck) depth 40

  handle_read-Stuck : Stuck (handle_read os m c) s
  unfolding handle_read
  handle_read-Stuck = search (stuck, path_of-Stuck) depth 40

  handle_sym_link-Stuck : Stuck (handle_sym_link os m c) s
  unfolding handle_sym_link
  handle_sym_link-Stuck = search (stuck, new_place-Stuck) depth 40

  handle_write-Stuck : Stuck (handle_write os m c) s
  unfolding handle_write
  handle_write-Stuck = search (stuck, path_of-Stuck) depth 40

  handle_create-Stuck : Stuck (handle_create os m c) s
  unfolding handle_create
  handle_create-Stuck = search (stuck, new_place-Stuck) depth 40

  handle_mk_dir-Stuck : Stuck (handle_mk_dir os m c) s
  unfolding handle_mk_dir
  handle_mk_dir-Stuck = search (stuck, new_place-Stuck) depth 40

  handle_rm_dir-Stuck : Stuck (handle_rm_dir os m c) s
  unfolding handle_rm_dir
  handle_rm_dir-Stuck = search (stuck, path_of-Stuck) depth 40

  handle_remove-Stuck : Stuck (handle_remove os m c) s
  unfolding handle_remove
  handle_remove-Stuck = search (stuck, path_of-Stuck) depth 40

  handle_rename-Stuck : Stuck (handle_rename os m c) s
  unfolding handle_rename
  handle_rename-Stuck = search (stuck, path_of-Stuck) depth 40

  handle_read_dir-Stuck : Stuck (handle_read_dir os m c) s
  unfolding handle_read_dir
  handle_read_dir-Stuck = search (stuck, path_of-Stuck) depth 40

  handle_stat_fs-Stuck : Stuck (handle_stat_fs os m c) s
  unfolding handle_stat_fs
  handle_stat_fs-Stuck = search (stuck, path_of-Stuck) depth 40

  unsupported-Stuck : Stuck (unsupported {F = F}) s
  unfolding unsupported Stuck
  unsupported-Stuck = (refl, λ r e. cc)

pub skip-Stuck :
    {F : Type 0} (b : Bool) (x y : Handler F RpcMessage) (s : State F)
    → b ≡ false
    → Stuck y s
    → Stuck (if b then x else y) s
skip-Stuck true x y s e k = absurd (cc)
skip-Stuck false x y s e k = k

pub if-Stuck :
    {F : Type 0} (b : Bool) (x y : Handler F RpcMessage) (s : State F)
    → Stuck x s
    → Stuck y s
    → Stuck (if b then x else y) s
if-Stuck true x y s h k = h
if-Stuck false x y s h k = k

module _ {F : Type 0} (os : Files F) (m : RpcMessage) (c : AuthContext) (s : State F)
    (empty : s.handles.file_handles ≡ []) where
  procedure-Stuck : (m.header.proc == 0) ≡ false → Stuck (procedure os m c) s
  unfolding procedure
  procedure-Stuck other = skip-Stuck (m.header.proc == 0) (handle_null m) _ s other (
      search
        (
          if-Stuck, handle_get_attr-Stuck, handle_set_attr-Stuck, handle_lookup-Stuck,
          handle_link-Stuck, handle_read-Stuck, handle_sym_link-Stuck, handle_write-Stuck,
          handle_create-Stuck, handle_mk_dir-Stuck, handle_rm_dir-Stuck, handle_remove-Stuck,
          handle_rename-Stuck, handle_read_dir-Stuck, handle_stat_fs-Stuck, unsupported-Stuck,
        )
        depth 30)

-- The reply to a NULL call.
abbrev pub null_reply : RpcMessage → RpcMessage
null_reply m = create_reply m.header.xid 0 [] (record { flavor = auth_none; body = [] })

-- What a server without handles answers: NULL alone.
abbrev pub bare_reply : RpcMessage × AuthContext → Option RpcMessage
bare_reply (m, c) = if m.header.proc == 0 then some (null_reply m) else none

module _ {F : Type 0} (os : Files F) where
  refused_call :
      (m : RpcMessage) (c : AuthContext) (s : State F)
      → s.handles.file_handles ≡ []
      → (m.header.proc == 0) ≡ false
      → (handle_nfsv2_call os m c s ≡ fault)
        ⊎ (handle_nfsv2_call os m c s ≡ ok (count_failed s, none))
  unfolding handle_nfsv2_call
  refused_call m c s empty other =
      conclude-Stuck (procedure os m c) s (procedure-Stuck os m c s empty other)

  call_without_handles :
      (m : RpcMessage) (c : AuthContext) (s : State F)
      → s.handles.file_handles ≡ []
      → (handle_nfsv2_call os m c s ≡ fault)
        ⊎ (handle_nfsv2_call os m c s
            ≡ ok (if m.header.proc == 0 then s else count_failed s, bare_reply (m, c)))
  unfolding handle_nfsv2_call procedure handle_null reply_with
  call_without_handles m c s empty = elim (Bool-cases (m.header.proc == 0)) [
    | inl null ↦ inr (ground (arith, null))
    | inr other ↦ elim (refused_call m c s empty other) [
      | inl crash ↦ inl crash
      | inr e ↦ inr (e ∙ ground (arith, other))
    ]
  ]

  after_call :
      (m : RpcMessage) (s : State F)
      → ((if m.header.proc == 0 then s else count_failed s).files ≡ s.files)
        × ((if m.header.proc == 0 then s else count_failed s).handles ≡ s.handles)
  after_call m s = (ground arith, ground arith)

  -- While the table of handles is empty, as it is in a new server, every history of NFSv2 calls either
  -- reads past the end of a message, or leaves the files and the table as they are and answers the
  -- NULL calls and no others: no call can give out the first handle, since each wants one.
  pub run-no_handles :
      (calls : List (RpcMessage × AuthContext)) (s : State F)
      → s.handles.file_handles ≡ []
      → (run os calls s ≡ fault)
        ⊎ ((t : State F) × (run os calls s ≡ ok (t, map bare_reply calls))
            × (t.files ≡ s.files)
            × (t.handles ≡ s.handles))
  unfolding run
  run-no_handles [] s empty = inr (s, refl, refl, refl)
  run-no_handles ((m, c) ∷ calls) s empty =
      let s' = if m.header.proc == 0 then s else count_failed s in
      let kept = after_call m s in
      elim (call_without_handles m c s empty) [
        | inl crash ↦ inl (rw crash refl)
        | inr e ↦ elim (run-no_handles calls s' (ap (λ h. h.file_handles) kept.1 ∙ empty)) [
          | inl crash ↦ inl (rw (e, crash) refl)
          | inr r ↦ inr (r.0, rw (e, r.1) refl, r.2 ∙ kept.0, r.3 ∙ kept.1)
        ]
      ]
