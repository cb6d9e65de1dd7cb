-- ===== src/Nfs3/Refused.antt =====
-- The NFSv3 calls that are refused, src/simple-nfsd/core/server_simple.cpp.
use simple_nfsd.Prelude.{ℕ, ◌≡◌, ◌⊎◌, refl, Bool, false, List, [], none, arith, inl, inr, ◌==◌}
use simple_nfsd.Bytes.{ok, fault}
use simple_nfsd.Rpc.{RpcMessage}
use simple_nfsd.Auth.{AuthContext, check_path_access}
use simple_nfsd.Nfs2.{State, path_of, check_access, count_failed}
use simple_nfsd.Nfs2.Changing.{new_place}
use simple_nfsd.Nfs2.Calls.{unsupported}
use simple_nfsd.Nfs2.Bootstrap.{skip-Stuck, if-Stuck, get_path-empty}
use simple_nfsd.Nfs2.Stuck.{Quiet, Stuck, stuck, conclude-Stuck}
use simple_nfsd.Nfs3.{Disk, word64, handle_at, text_at, entry_named}
use simple_nfsd.Nfs3.Reading.{
  handle_get_attr, handle_set_attr, handle_lookup, handle_read_link, handle_read, handle_commit,
}
use simple_nfsd.Nfs3.Changing.{
  handle_write, handle_create, handle_mk_dir, handle_sym_link, handle_remove, handle_rm_dir,
  handle_rename, handle_link,
}
use simple_nfsd.Nfs3.Listing.{handle_read_dir, handle_read_dir_plus}
use simple_nfsd.Nfs3.Volume.{handle_fs_stat, handle_fs_info, handle_path_conf}
use simple_nfsd.Nfs3.Reading.{allowed_path}
use simple_nfsd.Nfs3.Changing.{handle_mk_nod}
use simple_nfsd.Nfs3.Calls.{later_procedure, procedure, handle_nfsv3_call}

module _ {F : Type 0} (bytes : List ℕ) (s : State F) where
  pub word64-Quiet : (offset : ℕ) → Quiet (word64 bytes offset) s
  unfolding word64
  word64-Quiet offset = search stuck depth 20

  pub handle_at-Quiet : (offset : ℕ) → Quiet (handle_at bytes offset) s
  unfolding handle_at
  handle_at-Quiet offset = search (word64-Quiet, stuck) depth 20

  pub text_at-Quiet : (offset : ℕ) → Quiet (text_at bytes offset) s
  unfolding text_at
  text_at-Quiet offset = search stuck depth 20

  pub entry_named-Quiet : Quiet (entry_named bytes) s
  unfolding entry_named
  entry_named-Quiet = search (handle_at-Quiet, text_at-Quiet, stuck) depth 20

pub ruleset reads = (word64-Quiet, handle_at-Quiet, text_at-Quiet, entry_named-Quiet, stuck)

-- No handle resolves, or no access is granted.
abbrev pub Refuses : {F : Type 0} → AuthContext → State F → Type 0
Refuses c s =
    ((handle : ℕ) → Stuck (path_of handle) s)
    ⊎ ((path : List ℕ) (r w : Bool) → Stuck (check_access path c r w) s)

module _ {F : Type 0} (disk : Disk F) (m : RpcMessage) (c : AuthContext) (s : State F)
    (refuses : Refuses c s) where
  allowed_path-Stuck : (bytes : List ℕ) (r w : Bool) → Stuck (allowed_path bytes c r w) s
  unfolding allowed_path
  allowed_path-Stuck bytes r w = elim refuses [
    | inl unknown ↦ search (unknown, reads) depth 30
    | inr denied ↦ search (denied, reads) depth 30
  ]

  place-Stuck : (handle : ℕ) (name : List ℕ) → Stuck (new_place disk.files handle name c) s
  unfolding new_place
  place-Stuck handle name = elim refuses [
    | inl unknown ↦ search (unknown, reads) depth 30
    | inr denied ↦ search (denied, reads) depth 30
  ]

  get_attr-Stuck : Stuck (handle_get_attr disk m c) s
  unfolding handle_get_attr
  get_attr-Stuck = search (allowed_path-Stuck, reads) depth 40

  set_attr-Stuck : Stuck (handle_set_attr disk m c) s
  unfolding handle_set_attr
  set_attr-Stuck = search (allowed_path-Stuck, reads) depth 40

  lookup-Stuck : Stuck (handle_lookup disk m c) s
  unfolding handle_lookup
  lookup-Stuck = elim refuses [
    | inl unknown ↦ search (unknown, reads) depth 40
    | inr denied ↦ search (denied, reads) depth 40
  ]

  read_link-Stuck : Stuck (handle_read_link disk m c) s
  unfolding handle_read_link
  read_link-Stuck = search (allowed_path-Stuck, reads) depth 40

  read-Stuck : Stuck (handle_read disk m c) s
  unfolding handle_read
  read-Stuck = search (allowed_path-Stuck, reads) depth 40

  write-Stuck : Stuck (handle_write disk m c) s
  unfolding handle_write
  write-Stuck = search (allowed_path-Stuck, reads) depth 40

  create-Stuck : Stuck (handle_create disk m c) s
  unfolding handle_create
  create-Stuck = search (place-Stuck, reads) depth 40

  mk_dir-Stuck : Stuck (handle_mk_dir disk m c) s
  unfolding handle_mk_dir
  mk_dir-Stuck = search (place-Stuck, reads) depth 40

  sym_link-Stuck : Stuck (handle_sym_link disk m c) s
  unfolding handle_sym_link
  sym_link-Stuck = search (place-Stuck, reads) depth 40

  remove-Stuck : Stuck (handle_remove disk m c) s
  unfolding handle_remove
  remove-Stuck = elim refuses [
    | inl unknown ↦ search (unknown, reads) depth 40
    | inr denied ↦ search (denied, reads) depth 40
  ]

  rm_dir-Stuck : Stuck (handle_rm_dir disk m c) s
  unfolding handle_rm_dir
  rm_dir-Stuck = elim refuses [
    | inl unknown ↦ search (unknown, reads) depth 40
    | inr denied ↦ search (denied, reads) depth 40
  ]

  rename-Stuck : Stuck (handle_rename disk m c) s
  unfolding handle_rename
  rename-Stuck = elim refuses [
    | inl unknown ↦ search (unknown, reads) depth 40
    | inr denied ↦ search (denied, reads) depth 40
  ]

  link-Stuck : Stuck (handle_link disk m c) s
  unfolding handle_link
  link-Stuck = elim refuses [
    | inl unknown ↦ search (unknown, reads) depth 40
    | inr denied ↦ search (denied, reads) depth 40
  ]

  read_dir-Stuck : Stuck (handle_read_dir disk m c) s
  unfolding handle_read_dir
  read_dir-Stuck = search (allowed_path-Stuck, reads) depth 40

  read_dir_plus-Stuck : Stuck (handle_read_dir_plus disk m c) s
  unfolding handle_read_dir_plus
  read_dir_plus-Stuck = search (allowed_path-Stuck, reads) depth 40

  fs_stat-Stuck : Stuck (handle_fs_stat disk m c) s
  unfolding handle_fs_stat
  fs_stat-Stuck = search (allowed_path-Stuck, reads) depth 40

  fs_info-Stuck : Stuck (handle_fs_info disk m c) s
  unfolding handle_fs_info
  fs_info-Stuck = search (allowed_path-Stuck, reads) depth 40

  path_conf-Stuck : Stuck (handle_path_conf disk m c) s
  unfolding handle_path_conf
  path_conf-Stuck = search (allowed_path-Stuck, reads) depth 40

  commit-Stuck : Stuck (handle_commit disk m c) s
  unfolding handle_commit
  commit-Stuck = search (allowed_path-Stuck, reads) depth 40

  unsupported-Stuck : Stuck (unsupported {F = F}) s
  unfolding unsupported Stuck
  unsupported-Stuck = (refl, λ r e. cc)

  later_procedure-Stuck : (m.header.proc == 11) ≡ false → Stuck (later_procedure disk m c) s
  unfolding later_procedure
  later_procedure-Stuck not_mk_nod =
      skip-Stuck (m.header.proc == 11) (handle_mk_nod m c) _ s not_mk_nod (
        search
          (
            if-Stuck, remove-Stuck, rm_dir-Stuck, rename-Stuck, link-Stuck, read_dir-Stuck,
            read_dir_plus-Stuck, fs_stat-Stuck, fs_info-Stuck, path_conf-Stuck, commit-Stuck,
            unsupported-Stuck,
          )
          depth 40)

  pub procedure-Stuck :
      (m.header.proc == 0) ≡ false
      → (m.header.proc == 4) ≡ false
      → (m.header.proc == 11) ≡ false
      → Stuck (procedure disk m c) s
  unfolding procedure
  procedure-Stuck not_null not_access not_mk_nod =
      search
        (
          skip-Stuck, not_null, not_access, if-Stuck, get_attr-Stuck, set_attr-Stuck, lookup-Stuck,
          read_link-Stuck, read-Stuck, write-Stuck, create-Stuck, mk_dir-Stuck, sym_link-Stuck,
          later_procedure-Stuck, not_mk_nod,
        )
        depth 40

module _ {F : Type 0} (c : AuthContext) (s : State F) where
  -- The client is not authenticated, or the server has given out no handle.
  abbrev pub IsBlocked : Type 0
  IsBlocked = (c.authenticated ≡ false) ⊎ (s.handles.file_handles ≡ [])

  pub IsBlocked-Refuses : IsBlocked → Refuses c s
  unfolding Stuck check_access path_of check_path_access
  IsBlocked-Refuses (inl anonymous) = inr (λ path r w. (refl, λ a e. ground (arith, anonymous)))
  IsBlocked-Refuses (inr empty) =
      inl (λ handle. (refl, λ path e. ground (arith, get_path-empty handle s.handles empty)))

-- Of a client that is not authenticated, and of a server that has given out no handle, an NFSv3 call
-- other than NULL, ACCESS and MKNOD gets no reply: it reads past the end of its message, or nothing
-- changes but the count of failures.
pub handle_nfsv3_call-refused :
    {F : Type 0} (disk : Disk F) (m : RpcMessage) (c : AuthContext) (s : State F)
    → IsBlocked c s
    → (m.header.proc == 0) ≡ false
    → (m.header.proc == 4) ≡ false
    → (m.header.proc == 11) ≡ false
    → (handle_nfsv3_call disk m c s ≡ fault)
      ⊎ (handle_nfsv3_call disk m c s ≡ ok (count_failed s, none))
unfolding handle_nfsv3_call
handle_nfsv3_call-refused disk m c s blocked not_null not_access not_mk_nod =
    conclude-Stuck (procedure disk m c) s
      (procedure-Stuck disk m c s (IsBlocked-Refuses c s blocked) not_null not_access not_mk_nod)
