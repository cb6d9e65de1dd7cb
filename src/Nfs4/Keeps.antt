-- ===== src/Nfs4/Keeps.antt =====
-- NFSv4 procedures that are denied access, src/simple-nfsd/core/server_simple.cpp: they change no
-- file, no handle and no access control list.
use simple_nfsd.Prelude.{ℕ, ◌≡◌, ◌≢◌, refl, sym, subst, ap, Bool, true, false, List, if◌then◌else◌}
use simple_nfsd.Rpc.{RpcMessage}
use simple_nfsd.Auth.{AuthContext}
use simple_nfsd.Nfs2.{
  State, Handler, Attempt, done, fails, faults, and_then, ◌>>=◌, reply_with, check_access,
}
use simple_nfsd.Nfs2.Calls.{unsupported}
use simple_nfsd.Nfs2.Stuck.{Quiet, Stuck}
use simple_nfsd.Nfs3.{count_successful, succeed}
use simple_nfsd.Nfs4.{Store, granted_path, directory_entry}
use simple_nfsd.Nfs4.Reading.{
  handle_get_attr, handle_set_attr, handle_lookup, handle_access, handle_read_link, handle_read,
  handle_read_dir, handle_read_dir_plus, handle_commit,
}
use simple_nfsd.Nfs4.Changing.{
  handle_write, handle_create, handle_mk_dir, handle_sym_link, handle_mk_nod, handle_remove,
  handle_rm_dir, handle_rename, handle_link,
}
use simple_nfsd.Nfs4.Volume.{handle_fs_stat, handle_fs_info, handle_path_conf}
use simple_nfsd.Nfs4.Acls.{handle_get_acl, handle_set_acl}
use simple_nfsd.Nfs4.Sessions.{
  handle_null, handle_compound, handle_deleg_return, handle_fs_locations, handle_release_lock_owner,
  handle_sec_info, handle_fsid_present, handle_exchange_id, handle_create_session,
  handle_destroy_session, handle_sequence, handle_get_device_info, handle_bind_conn_to_session,
  handle_destroy_client_id, handle_reclaim_complete,
}
use simple_nfsd.Nfs4.Calls.{session_procedure, later_procedure, procedure}
use simple_nfsd.Nfs4.Parsing.{parsing}

-- The files, the table of handles and the security manager stay as they are.
abbrev pub Same : {F : Type 0} → State F → State F → Type 0
Same s t = (t.files ≡ s.files) × (t.handles ≡ s.handles) × (t.security ≡ s.security)

unfoldable pub Keeps : {F A : Type 0} → Handler F A → State F → Type 0
Keeps m s = Same s (m s).0

Same-of-eq : {F : Type 0} (s t : State F) → t ≡ s → Same s t
Same-of-eq s t e = (ap (λ v. v.files) e, ap (λ v. v.handles) e, ap (λ v. v.security) e)

rest-Keeps :
    {F A B : Type 0} (m : Handler F A) (f : A → Handler F B) (s : State F)
    → Quiet m s
    → ((a : A) → Keeps (f a) s)
    → Keeps (m >>= f) s
unfolding Quiet Keeps
rest-Keeps m f s q h = go (m s) q
  where
    go : (r : State _ × Attempt _) → r.0 ≡ s → Same s (and_then f r).0
    go (u, done a) e = subst (λ v. Same s (f a v).0) (sym e) (h a)
    go (u, fails) e = Same-of-eq s u e
    go (u, faults) e = Same-of-eq s u e

-- A part that does not succeed, and leaves the state as it is.
stop-Keeps :
    {F A B : Type 0} (m : Handler F A) (f : A → Handler F B) (s : State F)
    → Stuck m s
    → Keeps (m >>= f) s
unfolding Stuck Keeps
stop-Keeps m f s h = go (m s) h
  where
    go :
        (r : State _ × Attempt _) → ((r.0 ≡ s) × ((a : _) → r.1 ≢ done a)) → Same s (and_then f r).0
    go (u, done a) h = absurd (h.1 a refl)
    go (u, fails) h = Same-of-eq s u h.0
    go (u, faults) h = Same-of-eq s u h.0

if-Keeps :
    {F A : Type 0} (b : Bool) (x y : Handler F A) (s : State F)
    → Keeps x s
    → Keeps y s
    → Keeps (if b then x else y) s
if-Keeps true x y s h k = h
if-Keeps false x y s h k = k

module _ {F : Type 0} (s : State F) where
  succeed-Keeps : (m : RpcMessage) (bytes : List ℕ) → Keeps (succeed m bytes) s
  unfolding Keeps succeed count_successful reply_with
  succeed-Keeps m bytes = (refl, refl, refl)

  unsupported-Keeps : Keeps (unsupported {F = F}) s
  unfolding Keeps unsupported
  unsupported-Keeps = (refl, refl, refl)

module _ {F : Type 0} (store : Store F) (now : ℕ) (m : RpcMessage) (c : AuthContext) (s : State F)
    (denied : (path : List ℕ) (r w : Bool) → Stuck (check_access {F = F} path c r w) s) where
  granted_path-Stuck : (bytes : List ℕ) (r w : Bool) → Stuck (granted_path bytes c r w) s
  unfolding granted_path
  granted_path-Stuck bytes r w = search (denied, parsing) depth 30

  directory_entry-Stuck : (bytes : List ℕ) (r w : Bool) → Stuck (directory_entry bytes c r w) s
  unfolding directory_entry
  directory_entry-Stuck bytes r w = search (denied, parsing) depth 30

  get_attr-Keeps : Keeps (handle_get_attr store.disk m c) s
  unfolding handle_get_attr
  get_attr-Keeps = search (stop-Keeps, granted_path-Stuck, rest-Keeps, parsing) depth 40 fits 20000

  set_attr-Keeps : Keeps (handle_set_attr store.disk m c) s
  unfolding handle_set_attr
  set_attr-Keeps = search (stop-Keeps, granted_path-Stuck, rest-Keeps, parsing) depth 40 fits 20000

  lookup-Keeps : Keeps (handle_lookup store.disk m c) s
  unfolding handle_lookup
  lookup-Keeps = search (stop-Keeps, directory_entry-Stuck, rest-Keeps, parsing) depth 40 fits 20000

  access-Keeps : Keeps (handle_access m c) s
  unfolding handle_access
  access-Keeps = search (succeed-Keeps, rest-Keeps, parsing) depth 30

  read_link-Keeps : Keeps (handle_read_link store.disk m c) s
  unfolding handle_read_link
  read_link-Keeps = search (stop-Keeps, granted_path-Stuck, rest-Keeps, parsing) depth 40 fits 20000

  read-Keeps : Keeps (handle_read store.disk m c) s
  unfolding handle_read
  read-Keeps = search (stop-Keeps, granted_path-Stuck, rest-Keeps, parsing) depth 40 fits 20000

  read_dir-Keeps : Keeps (handle_read_dir store.disk m c) s
  unfolding handle_read_dir
  read_dir-Keeps = search (stop-Keeps, granted_path-Stuck, rest-Keeps, parsing) depth 40 fits 20000

  read_dir_plus-Keeps : Keeps (handle_read_dir_plus store.disk m c) s
  unfolding handle_read_dir_plus
  read_dir_plus-Keeps = read_dir-Keeps

  commit-Keeps : Keeps (handle_commit store.disk m c) s
  unfolding handle_commit
  commit-Keeps = search (stop-Keeps, granted_path-Stuck, rest-Keeps, parsing) depth 40 fits 20000

  write-Keeps : Keeps (handle_write store m c) s
  unfolding handle_write
  write-Keeps = search (stop-Keeps, granted_path-Stuck, rest-Keeps, parsing) depth 40 fits 20000

  create-Keeps : Keeps (handle_create store m c) s
  unfolding handle_create
  create-Keeps = search (stop-Keeps, directory_entry-Stuck, rest-Keeps, parsing) depth 40 fits 20000

  mk_dir-Keeps : Keeps (handle_mk_dir store m c) s
  unfolding handle_mk_dir
  mk_dir-Keeps = search (stop-Keeps, directory_entry-Stuck, rest-Keeps, parsing) depth 40 fits 20000

  sym_link-Keeps : Keeps (handle_sym_link store m c) s
  unfolding handle_sym_link
  sym_link-Keeps = search (stop-Keeps, denied, rest-Keeps, parsing) depth 40 fits 20000

  mk_nod-Keeps : Keeps (handle_mk_nod m c) s
  unfolding handle_mk_nod
  mk_nod-Keeps = search (succeed-Keeps, rest-Keeps, parsing) depth 30

  remove-Keeps : Keeps (handle_remove store m c) s
  unfolding handle_remove
  remove-Keeps = search (stop-Keeps, directory_entry-Stuck, rest-Keeps, parsing) depth 40 fits 20000

  rm_dir-Keeps : Keeps (handle_rm_dir store m c) s
  unfolding handle_rm_dir
  rm_dir-Keeps = search (stop-Keeps, directory_entry-Stuck, rest-Keeps, parsing) depth 40 fits 20000

  rename-Keeps : Keeps (handle_rename store m c) s
  unfolding handle_rename
  rename-Keeps = search (stop-Keeps, denied, rest-Keeps, parsing) depth 40 fits 20000

  link-Keeps : Keeps (handle_link store m c) s
  unfolding handle_link
  link-Keeps = search (stop-Keeps, denied, rest-Keeps, parsing) depth 40 fits 20000

  fs_stat-Keeps : Keeps (handle_fs_stat store.disk m c) s
  unfolding handle_fs_stat
  fs_stat-Keeps = search (stop-Keeps, granted_path-Stuck, rest-Keeps, parsing) depth 40 fits 20000

  fs_info-Keeps : Keeps (handle_fs_info m c) s
  unfolding handle_fs_info
  fs_info-Keeps = search (stop-Keeps, granted_path-Stuck, rest-Keeps, parsing) depth 40 fits 20000

  path_conf-Keeps : Keeps (handle_path_conf m c) s
  unfolding handle_path_conf
  path_conf-Keeps = search (stop-Keeps, granted_path-Stuck, rest-Keeps, parsing) depth 40 fits 20000

  get_acl-Keeps : Keeps (handle_get_acl m c) s
  unfolding handle_get_acl
  get_acl-Keeps = search (stop-Keeps, granted_path-Stuck, rest-Keeps, parsing) depth 40 fits 20000

  set_acl-Keeps : Keeps (handle_set_acl now m c) s
  unfolding handle_set_acl
  set_acl-Keeps = search (stop-Keeps, granted_path-Stuck, rest-Keeps, parsing) depth 40 fits 20000

  session_procedure-Keeps : Keeps (session_procedure m) s
  unfolding session_procedure handle_fs_locations handle_release_lock_owner handle_sec_info
      handle_fsid_present handle_exchange_id handle_create_session handle_destroy_session
      handle_sequence handle_get_device_info handle_bind_conn_to_session handle_destroy_client_id
      handle_reclaim_complete
  session_procedure-Keeps =
      search (if-Keeps, succeed-Keeps, rest-Keeps, unsupported-Keeps, parsing) depth 40

  later_procedure-Keeps : Keeps (later_procedure store now m c) s
  unfolding later_procedure handle_deleg_return
  later_procedure-Keeps =
      search
        (
          if-Keeps, succeed-Keeps, mk_nod-Keeps, remove-Keeps, rm_dir-Keeps, rename-Keeps,
          link-Keeps, read_dir-Keeps, read_dir_plus-Keeps, fs_stat-Keeps, fs_info-Keeps,
          path_conf-Keeps, commit-Keeps, get_acl-Keeps, set_acl-Keeps, session_procedure-Keeps,
        )
        depth 40

  pub procedure-Keeps : Keeps (procedure store now m c) s
  unfolding procedure handle_null handle_compound
  procedure-Keeps =
      search
        (
          if-Keeps, succeed-Keeps, rest-Keeps, parsing, get_attr-Keeps, set_attr-Keeps,
          lookup-Keeps, access-Keeps, read_link-Keeps, read-Keeps, write-Keeps, create-Keeps,
          mk_dir-Keeps, sym_link-Keeps, later_procedure-Keeps,
        )
        depth 40
