-- ===== src/Nfs2/Uncounted.antt =====
-- The parts of an NFSv2 procedure count no failure: that is done once, at its end, in
-- src/simple-nfsd/core/server_simple.cpp.
use simple_nfsd.Prelude.{ℕ, ◌≡◌, refl, ◌∙◌, Bool, true, false, List, Option, if◌then◌else◌}
use simple_nfsd.Rpc.{RpcMessage}
use simple_nfsd.Auth.{AuthContext}
use simple_nfsd.Nfs2.{
  Files, State, Handler, Attempt, done, fails, faults, and_then, ◌>>=◌, require, ask, change, word,
  bytes_at, path_of, check_access, require_valid, full_path, handle_for, reply_with,
}
use simple_nfsd.Nfs2.Attributes.{size_of}
use simple_nfsd.Nfs2.Reading.{
  named, regular_file, count_read, handle_get_attr, handle_lookup, handle_read, handle_read_dir,
  handle_stat_fs,
}
use simple_nfsd.Nfs2.Changing.{
  count_written, new_place, handle_write, handle_set_attr, handle_create, handle_mk_dir,
  handle_rm_dir, handle_remove,
}
use simple_nfsd.Nfs2.Links.{name_at, handle_rename, handle_link, handle_sym_link}
use simple_nfsd.Nfs2.Calls.{handle_null, unsupported, procedure}

-- The part counts no failure of its own.
unfoldable pub Uncounted : {F A : Type 0} → Handler F A → Type 0
Uncounted m = (s : State _) → (m s).0.failed_requests ≡ s.failed_requests

>>=-Uncounted :
    {F A B : Type 0} (m : Handler F A) (f : A → Handler F B)
    → Uncounted m
    → ((a : A) → Uncounted (f a))
    → Uncounted (m >>= f)
unfolding Uncounted
>>=-Uncounted m f h k s = go (m s) (h s)
  where
    go :
        (r : State _ × Attempt _)
        → r.0.failed_requests ≡ s.failed_requests
        → (and_then f r).0.failed_requests ≡ s.failed_requests
    go (u, done a) e = k a u ∙ e
    go (u, fails) e = e
    go (u, faults) e = e

if-Uncounted :
    {F A : Type 0} (b : Bool) (x y : Handler F A)
    → Uncounted x
    → Uncounted y
    → Uncounted (if b then x else y)
if-Uncounted true x y h k = h
if-Uncounted false x y h k = k

module _ (F : Type 0) where
  require-Uncounted : (b : Bool) → Uncounted (require {F = F} b)
  unfolding require Uncounted
  require-Uncounted b s = refl

  ask-Uncounted : {A : Type 0} (q : F → Option A) → Uncounted (ask q)
  unfolding ask Uncounted
  ask-Uncounted q s = refl

  change-Uncounted : {A : Type 0} (q : F → F × Option A) → Uncounted (change q)
  unfolding change Uncounted
  change-Uncounted q s = refl

  word-Uncounted : (bytes : List ℕ) (offset : ℕ) → Uncounted (word {F = F} bytes offset)
  unfolding word Uncounted
  word-Uncounted bytes offset s = refl

  bytes_at-Uncounted : (bytes : List ℕ) (offset n : ℕ) → Uncounted (bytes_at {F = F} bytes offset n)
  unfolding bytes_at Uncounted
  bytes_at-Uncounted bytes offset n s = refl

  path_of-Uncounted : (handle : ℕ) → Uncounted (path_of {F = F} handle)
  unfolding path_of Uncounted
  path_of-Uncounted handle s = refl

  check_access-Uncounted :
      (path : List ℕ) (c : AuthContext) (r w : Bool) → Uncounted (check_access {F = F} path c r w)
  unfolding check_access Uncounted
  check_access-Uncounted path c r w s = refl

  require_valid-Uncounted : (os : Files F) (path : List ℕ) → Uncounted (require_valid os path)
  unfolding require_valid Uncounted
  require_valid-Uncounted os path s = refl

  full_path-Uncounted : (path : List ℕ) → Uncounted (full_path {F = F} path)
  unfolding full_path Uncounted
  full_path-Uncounted path s = refl

  handle_for-Uncounted : (path : List ℕ) → Uncounted (handle_for {F = F} path)
  unfolding handle_for Uncounted
  handle_for-Uncounted path s = refl

  reply_with-Uncounted : (m : RpcMessage) (bytes : List ℕ) → Uncounted (reply_with {F = F} m bytes)
  unfolding reply_with Uncounted
  reply_with-Uncounted m bytes s = refl

  return-Uncounted : {A : Type 0} (f : State F → A) → Uncounted (λ u. (u, done (f u)))
  unfolding Uncounted
  return-Uncounted f s = refl

  unsupported-Uncounted : Uncounted (unsupported {F = F})
  unfolding unsupported Uncounted
  unsupported-Uncounted s = refl

module _ {F : Type 0} (os : Files F) where
  count_read-Uncounted : (n : ℕ) → Uncounted (count_read os n)
  unfolding count_read Uncounted
  count_read-Uncounted n s = refl

  count_written-Uncounted : (n : ℕ) → Uncounted (count_written os n)
  unfolding count_written Uncounted
  count_written-Uncounted n s = refl

ruleset uncounted = (
  >>=-Uncounted, if-Uncounted, require-Uncounted, ask-Uncounted, change-Uncounted, word-Uncounted,
  bytes_at-Uncounted, path_of-Uncounted, check_access-Uncounted, require_valid-Uncounted,
  full_path-Uncounted, handle_for-Uncounted, reply_with-Uncounted, return-Uncounted,
  unsupported-Uncounted, count_read-Uncounted, count_written-Uncounted,
)

named-Uncounted : (F : Type 0) (bytes : List ℕ) → Uncounted (named {F = F} bytes)
unfolding named
named-Uncounted F bytes = search uncounted depth 20

name_at-Uncounted : (F : Type 0) (bytes : List ℕ) (o n : ℕ) → Uncounted (name_at {F = F} bytes o n)
unfolding name_at
name_at-Uncounted F bytes o n = search uncounted depth 20

module _ {F : Type 0} (os : Files F) where
  size_of-Uncounted : (path : List ℕ) → Uncounted (size_of os path)
  unfolding size_of
  size_of-Uncounted path = search uncounted depth 20

  regular_file-Uncounted : (path : List ℕ) → Uncounted (regular_file os path)
  unfolding regular_file
  regular_file-Uncounted path = search uncounted depth 20

  new_place-Uncounted :
      (handle : ℕ) (name : List ℕ) (c : AuthContext) → Uncounted (new_place os handle name c)
  unfolding new_place
  new_place-Uncounted handle name c = search uncounted depth 20

ruleset parts = (
  uncounted, named-Uncounted, name_at-Uncounted, size_of-Uncounted, regular_file-Uncounted,
  new_place-Uncounted,
)

null-Uncounted : (F : Type 0) (m : RpcMessage) → Uncounted (handle_null {F = F} m)
unfolding handle_null
null-Uncounted F m = search parts

module _ {F : Type 0} (os : Files F) (m : RpcMessage) (c : AuthContext) where
  get_attr-Uncounted : Uncounted (handle_get_attr os m c)
  unfolding handle_get_attr
  get_attr-Uncounted = search parts depth 40

  set_attr-Uncounted : Uncounted (handle_set_attr os m c)
  unfolding handle_set_attr
  set_attr-Uncounted = search parts depth 40

  lookup-Uncounted : Uncounted (handle_lookup os m c)
  unfolding handle_lookup
  lookup-Uncounted = search parts depth 40

  link-Uncounted : Uncounted (handle_link os m c)
  unfolding handle_link
  link-Uncounted = search parts depth 40

  read-Uncounted : Uncounted (handle_read os m c)
  unfolding handle_read
  read-Uncounted = search parts depth 40

  sym_link-Uncounted : Uncounted (handle_sym_link os m c)
  unfolding handle_sym_link
  sym_link-Uncounted = search parts depth 40

  write-Uncounted : Uncounted (handle_write os m c)
  unfolding handle_write
  write-Uncounted = search parts depth 40

  create-Uncounted : Uncounted (handle_create os m c)
  unfolding handle_create
  create-Uncounted = search parts depth 40

  mk_dir-Uncounted : Uncounted (handle_mk_dir os m c)
  unfolding handle_mk_dir
  mk_dir-Uncounted = search parts depth 40

  rm_dir-Uncounted : Uncounted (handle_rm_dir os m c)
  unfolding handle_rm_dir
  rm_dir-Uncounted = search parts depth 40

  remove-Uncounted : Uncounted (handle_remove os m c)
  unfolding handle_remove
  remove-Uncounted = search parts depth 40

  rename-Uncounted : Uncounted (handle_rename os m c)
  unfolding handle_rename
  rename-Uncounted = search parts depth 40

  read_dir-Uncounted : Uncounted (handle_read_dir os m c)
  unfolding handle_read_dir
  read_dir-Uncounted = search parts depth 40

  stat_fs-Uncounted : Uncounted (handle_stat_fs os m c)
  unfolding handle_stat_fs
  stat_fs-Uncounted = search parts depth 40

  pub procedure-Uncounted : Uncounted (procedure os m c)
  unfolding procedure
  procedure-Uncounted =
      search
        (
          if-Uncounted, null-Uncounted, unsupported-Uncounted, get_attr-Uncounted,
          set_attr-Uncounted, lookup-Uncounted, link-Uncounted, read-Uncounted, sym_link-Uncounted,
          write-Uncounted, create-Uncounted, mk_dir-Uncounted, rm_dir-Uncounted, remove-Uncounted,
          rename-Uncounted, read_dir-Uncounted, stat_fs-Uncounted,
        )
        depth 40
