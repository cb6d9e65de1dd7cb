-- ===== src/Nfs3/Counting.antt =====
-- The calls of NFSv3 and their counts, src/simple-nfsd/core/server_simple.cpp: each call but NULL
-- is counted once, as answered or as failed.
use simple_nfsd.Prelude.{ℕ, ◌+◌, ◌≡◌, refl, Bool, true, false, List, [], ◌∷◌, ◌==◌, if◌then◌else◌}
use simple_nfsd.Rpc.{RpcMessage}
use simple_nfsd.Auth.{AuthContext}
use simple_nfsd.Nfs2.{Handler}
use simple_nfsd.Nfs2.Calls.{handle_null, unsupported}
use simple_nfsd.Nfs3.{Disk}
use simple_nfsd.Nfs3.Reading.{
  handle_get_attr, handle_set_attr, handle_lookup, handle_access, handle_read_link, handle_read,
  handle_commit,
}
use simple_nfsd.Nfs3.Changing.{
  handle_write, handle_create, handle_mk_dir, handle_sym_link, handle_mk_nod, handle_remove,
  handle_rm_dir, handle_rename, handle_link,
}
use simple_nfsd.Nfs3.Listing.{handle_read_dir, handle_read_dir_plus}
use simple_nfsd.Nfs3.Volume.{handle_fs_stat, handle_fs_info, handle_path_conf}
use simple_nfsd.Nfs3.Changing.{made}
use simple_nfsd.Nfs3.Listing.{
  directory_at, end_listing, push_attributes, with_attributes, entry_plus, list_entries_plus,
}
use simple_nfsd.Nfs3.Calls.{later_procedure, procedure}
use simple_nfsd.Nfs3.Effects.{
  Uncounted, Counted, Grown-refl, >>=-Counted, if-Counted, succeed-Counted, parts,
}

ruleset counted = (>>=-Counted, if-Counted, succeed-Counted, parts)

module _ {F : Type 0} (disk : Disk F) where
  directory_at-Uncounted : (path : List ℕ) → Uncounted (directory_at disk path)
  unfolding directory_at
  directory_at-Uncounted path = search parts depth 30

  push_attributes-Uncounted :
      (full : List ℕ) (handle : ℕ) (reply : List ℕ)
      → Uncounted (push_attributes disk full handle reply)
  unfolding push_attributes
  push_attributes-Uncounted full handle reply = search parts depth 30

  with_attributes-Uncounted :
      (path : List ℕ) (handle : ℕ) (reply : List ℕ)
      → Uncounted (with_attributes disk path handle reply)
  unfolding with_attributes
  with_attributes-Uncounted path handle reply = search (push_attributes-Uncounted, parts) depth 30

  entry_plus-Uncounted :
      (dir : List ℕ) (i : ℕ) (name reply : List ℕ) → Uncounted (entry_plus disk dir i name reply)
  unfolding entry_plus
  entry_plus-Uncounted dir i name reply = search (with_attributes-Uncounted, parts) depth 30

  list_entries_plus-Uncounted :
      (limit maxcount : ℕ) (dir : List ℕ) (i : ℕ) (names : List (List ℕ)) (reply : List ℕ)
      → Uncounted (list_entries_plus disk limit maxcount dir i names reply)
  unfolding list_entries_plus
  list_entries_plus-Uncounted limit maxcount dir i [] reply = search parts depth 30
  list_entries_plus-Uncounted limit maxcount dir i (name ∷ names) reply =
      let rest = list_entries_plus-Uncounted limit maxcount dir (i + 1) names in
      search (rest, entry_plus-Uncounted, parts) depth 30

  end_listing-Counted :
      (m : RpcMessage) (names : List (List ℕ)) (limit : ℕ) (entries : List ℕ)
      → Counted (end_listing disk m names limit entries)
  unfolding end_listing
  end_listing-Counted m names limit entries = search counted depth 30

  made-Counted :
      (m : RpcMessage) (place : List ℕ × List ℕ) (type nlink size : ℕ)
      → Counted (made disk m place type nlink size)
  unfolding made
  made-Counted m place type nlink size = search counted depth 30

ruleset endings = (
  directory_at-Uncounted, list_entries_plus-Uncounted, end_listing-Counted, made-Counted, counted,
)

module _ {F : Type 0} (disk : Disk F) (m : RpcMessage) (c : AuthContext) where
  get_attr-Counted : Counted (handle_get_attr disk m c)
  unfolding handle_get_attr
  get_attr-Counted = search endings depth 40

  set_attr-Counted : Counted (handle_set_attr disk m c)
  unfolding handle_set_attr
  set_attr-Counted = search endings depth 40

  lookup-Counted : Counted (handle_lookup disk m c)
  unfolding handle_lookup
  lookup-Counted = search endings depth 40

  access-Counted : Counted (handle_access disk m c)
  unfolding handle_access
  access-Counted = search endings depth 40

  read_link-Counted : Counted (handle_read_link disk m c)
  unfolding handle_read_link
  read_link-Counted = search endings depth 40

  read-Counted : Counted (handle_read disk m c)
  unfolding handle_read
  read-Counted = search endings depth 40

  write-Counted : Counted (handle_write disk m c)
  unfolding handle_write
  write-Counted = search endings depth 40

  create-Counted : Counted (handle_create disk m c)
  unfolding handle_create
  create-Counted = search endings depth 40

  mk_dir-Counted : Counted (handle_mk_dir disk m c)
  unfolding handle_mk_dir
  mk_dir-Counted = search endings depth 40

  sym_link-Counted : Counted (handle_sym_link disk m c)
  unfolding handle_sym_link
  sym_link-Counted = search endings depth 40

  remove-Counted : Counted (handle_remove disk m c)
  unfolding handle_remove
  remove-Counted = search endings depth 40

  rm_dir-Counted : Counted (handle_rm_dir disk m c)
  unfolding handle_rm_dir
  rm_dir-Counted = search endings depth 40

  rename-Counted : Counted (handle_rename disk m c)
  unfolding handle_rename
  rename-Counted = search endings depth 40

  link-Counted : Counted (handle_link disk m c)
  unfolding handle_link
  link-Counted = search endings depth 40

  read_dir-Counted : Counted (handle_read_dir disk m c)
  unfolding handle_read_dir
  read_dir-Counted = search endings depth 40

  read_dir_plus-Counted : Counted (handle_read_dir_plus disk m c)
  unfolding handle_read_dir_plus
  read_dir_plus-Counted = search endings depth 40

  fs_stat-Counted : Counted (handle_fs_stat disk m c)
  unfolding handle_fs_stat
  fs_stat-Counted = search endings depth 40

  fs_info-Counted : Counted (handle_fs_info disk m c)
  unfolding handle_fs_info
  fs_info-Counted = search endings depth 40

  path_conf-Counted : Counted (handle_path_conf disk m c)
  unfolding handle_path_conf
  path_conf-Counted = search endings depth 40

  commit-Counted : Counted (handle_commit disk m c)
  unfolding handle_commit
  commit-Counted = search endings depth 40

mk_nod-Counted :
    (F : Type 0) (m : RpcMessage) (c : AuthContext) → Counted (handle_mk_nod {F = F} m c)
unfolding handle_mk_nod
mk_nod-Counted F m c = search counted depth 40

unsupported-Counted : (F : Type 0) → Counted (unsupported {F = F})
unfolding unsupported Counted
unsupported-Counted F s = record {
  failed = refl;
  successful = refl;
  handles = Grown-refl s.handles;
}

skip-Counted :
    {F : Type 0} (b : Bool) (x y : Handler F RpcMessage)
    → b ≡ false
    → Counted y
    → Counted (if b then x else y)
skip-Counted true x y e k = absurd (cc)
skip-Counted false x y e k = k

module _ {F : Type 0} (disk : Disk F) (m : RpcMessage) (c : AuthContext) where
  later_procedure-Counted : Counted (later_procedure disk m c)
  unfolding later_procedure
  later_procedure-Counted =
      search
        (
          if-Counted, mk_nod-Counted, remove-Counted, rm_dir-Counted, rename-Counted, link-Counted,
          read_dir-Counted, read_dir_plus-Counted, fs_stat-Counted, fs_info-Counted,
          path_conf-Counted, commit-Counted, unsupported-Counted,
        )
        depth 40

  pub procedure-Counted : (m.header.proc == 0) ≡ false → Counted (procedure disk m c)
  unfolding procedure
  procedure-Counted other = skip-Counted (m.header.proc == 0) (handle_null m) _ other (
      search
        (
          if-Counted, get_attr-Counted, set_attr-Counted, lookup-Counted, access-Counted,
          read_link-Counted, read-Counted, write-Counted, create-Counted, mk_dir-Counted,
          sym_link-Counted, later_procedure-Counted,
        )
        depth 40)
