-- ===== src/Nfs2/Guarded.antt =====
-- Which NFSv2 calls are answered, src/simple-nfsd/core/server_simple.cpp.
use simple_nfsd.Prelude.{
  List, ℕ, ◌≡◌, ◌⊎◌, Bool, true, false, ◌&&◌, some, arith, Bool-cases, inl, inr, ◌==◌,
}
use simple_nfsd.Rpc.{RpcMessage}
use simple_nfsd.Auth.{AuthContext, check_path_access}
use simple_nfsd.Nfs2.{Files, State, Attempt, done, fails, faults, conclude, check_access}
use simple_nfsd.Bytes.{ok}
use simple_nfsd.Nfs2.Reading.{
  handle_get_attr, handle_lookup, handle_read, handle_read_dir, handle_stat_fs,
}
use simple_nfsd.Nfs2.Changing.{
  new_place, handle_write, handle_set_attr, handle_create, handle_mk_dir, handle_rm_dir,
  handle_remove,
}
use simple_nfsd.Nfs2.Links.{handle_rename, handle_link, handle_sym_link}
use simple_nfsd.Nfs2.Calls.{handle_null, unsupported, procedure, handle_nfsv2_call}
use simple_nfsd.Nfs2.Only.{Only, if-Only, skip-Only, holds-true, only}
use simple_nfsd.Nfs2.Targets.{targets, AllValid, answered-AllValid}

module _ {F : Type 0} (os : Files F) (m : RpcMessage) (c : AuthContext) (s : State F) where
  -- The client is authenticated.
  abbrev pub IsAdmitted : Type 0
  IsAdmitted = c.authenticated ≡ true

  check_access-Only : (path : List ℕ) (r w : Bool) → Only IsAdmitted (check_access path c r w) s
  unfolding check_access check_path_access Only
  check_access-Only path r w u e =
      let h = holds-true (s.has_auth_manager && check_path_access path c r w) u e in
      ground (arith, h)

  unsupported-Only : (P : Type 0) → Only P (unsupported {F = F}) s
  unfolding unsupported Only
  unsupported-Only P a e = absurd (cc)

  place-IsAdmitted : (handle : ℕ) (name : List ℕ) → Only IsAdmitted (new_place os handle name c) s
  unfolding new_place
  place-IsAdmitted handle name = search (only, check_access-Only) depth 40 fits 20000

  get_attr-IsAdmitted : Only IsAdmitted (handle_get_attr os m c) s
  unfolding handle_get_attr
  get_attr-IsAdmitted = search (only, check_access-Only) depth 40 fits 20000

  set_attr-IsAdmitted : Only IsAdmitted (handle_set_attr os m c) s
  unfolding handle_set_attr
  set_attr-IsAdmitted = search (only, check_access-Only) depth 40 fits 20000

  lookup-IsAdmitted : Only IsAdmitted (handle_lookup os m c) s
  unfolding handle_lookup
  lookup-IsAdmitted = search (only, check_access-Only) depth 40 fits 20000

  link-IsAdmitted : Only IsAdmitted (handle_link os m c) s
  unfolding handle_link
  link-IsAdmitted = search (only, check_access-Only) depth 40 fits 20000

  read-IsAdmitted : Only IsAdmitted (handle_read os m c) s
  unfolding handle_read
  read-IsAdmitted = search (only, check_access-Only) depth 40 fits 20000

  sym_link-IsAdmitted : Only IsAdmitted (handle_sym_link os m c) s
  unfolding handle_sym_link
  sym_link-IsAdmitted = search (only, place-IsAdmitted) depth 40 fits 20000

  write-IsAdmitted : Only IsAdmitted (handle_write os m c) s
  unfolding handle_write
  write-IsAdmitted = search (only, check_access-Only) depth 40 fits 20000

  create-IsAdmitted : Only IsAdmitted (handle_create os m c) s
  unfolding handle_create
  create-IsAdmitted = search (only, place-IsAdmitted) depth 40 fits 20000

  mk_dir-IsAdmitted : Only IsAdmitted (handle_mk_dir os m c) s
  unfolding handle_mk_dir
  mk_dir-IsAdmitted = search (only, place-IsAdmitted) depth 40 fits 20000

  rm_dir-IsAdmitted : Only IsAdmitted (handle_rm_dir os m c) s
  unfolding handle_rm_dir
  rm_dir-IsAdmitted = search (only, check_access-Only) depth 40 fits 20000

  remove-IsAdmitted : Only IsAdmitted (handle_remove os m c) s
  unfolding handle_remove
  remove-IsAdmitted = search (only, check_access-Only) depth 40 fits 20000

  rename-IsAdmitted : Only IsAdmitted (handle_rename os m c) s
  unfolding handle_rename
  rename-IsAdmitted = search (only, check_access-Only) depth 40 fits 20000

  read_dir-IsAdmitted : Only IsAdmitted (handle_read_dir os m c) s
  unfolding handle_read_dir
  read_dir-IsAdmitted = search (only, check_access-Only) depth 40 fits 20000

  stat_fs-IsAdmitted : Only IsAdmitted (handle_stat_fs os m c) s
  unfolding handle_stat_fs
  stat_fs-IsAdmitted = search (only, check_access-Only) depth 40 fits 20000

  answered-IsAdmitted : (m.header.proc == 0) ≡ false → Only IsAdmitted (procedure os m c) s
  unfolding procedure
  answered-IsAdmitted other = skip-Only IsAdmitted (m.header.proc == 0) (handle_null m) _ s other (
      search
        (
          if-Only, unsupported-Only, get_attr-IsAdmitted, set_attr-IsAdmitted, lookup-IsAdmitted,
          link-IsAdmitted, read-IsAdmitted, sym_link-IsAdmitted, write-IsAdmitted,
          create-IsAdmitted, mk_dir-IsAdmitted, rm_dir-IsAdmitted, remove-IsAdmitted,
          rename-IsAdmitted, read_dir-IsAdmitted, stat_fs-IsAdmitted,
        )
        depth 40)

conclude-some :
    {F : Type 0} (o : State F × Attempt RpcMessage) (t : State F) (r : RpcMessage)
    → conclude o ≡ ok (t, some r)
    → o.1 ≡ done r
conclude-some (u, done a) t r e = cc
conclude-some (u, fails) t r e = absurd (cc)
conclude-some (u, faults) t r e = absurd (cc)

-- Of the NFSv2 calls but NULL, only those of an authenticated client are answered, and, GETATTR apart,
-- only where validatePath accepts every path that the call acts on: the name in the directory for
-- LOOKUP, SYMLINK, CREATE, MKDIR and REMOVE, the old and the new path for LINK and RENAME, and the
-- path of the handle for the others, each read from the message.
pub handle_nfsv2_call-guarded :
    {F : Type 0} (os : Files F) (m : RpcMessage) (c : AuthContext) (s t : State F) (r : RpcMessage)
    → (m.header.proc == 0) ≡ false
    → handle_nfsv2_call os m c s ≡ ok (t, some r)
    → (c.authenticated ≡ true) × (((m.header.proc == 1) ≡ true) ⊎ AllValid os s (targets m s))
unfolding handle_nfsv2_call Only
handle_nfsv2_call-guarded os m c s t r other e =
    let answered = conclude-some (procedure os m c s) t r e in
    (
      answered-IsAdmitted os m c s other r answered,
      elim (Bool-cases (m.header.proc == 1)) [
        | inl attr ↦ inl attr
        | inr not_attr ↦ inr (answered-AllValid os m c s other not_attr r answered)
      ],
    )
