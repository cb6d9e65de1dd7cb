-- ===== src/Nfs2/Creation.antt =====
-- The NFSv2 procedures of src/simple-nfsd/core/server_simple.cpp that make a new entry: CREATE, MKDIR,
-- SYMLINK, RENAME and LINK.
use simple_nfsd.Prelude.{
  ℕ, ◌≡◌, ◌⊎◌, refl, Bool, true, not, List, Option, none, some, Bool-cases, inl, inr,
}
use simple_nfsd.Bytes.{ok, fault}
use simple_nfsd.Rpc.{RpcMessage}
use simple_nfsd.Auth.{AuthContext}
use simple_nfsd.Nfs2.{
  Files, State, Handler, ◌>>=◌, ◌>>◌, require, ask, join, is_below, validate_path, require_valid,
  full_path, count_failed,
}
use simple_nfsd.Nfs2.Changing.{handle_create, handle_mk_dir, new_place}
use simple_nfsd.Nfs2.Links.{handle_rename, handle_link, handle_sym_link}
use simple_nfsd.Nfs2.Calls.{procedure, handle_nfsv2_call}
use simple_nfsd.Nfs2.Stuck.{Stuck, quiet, name_at-Quiet, rest-Stuck, stuck, conclude-Stuck}

is_below-some :
    (root path : Option (List ℕ)) → is_below root path ≡ true → (q : List ℕ) × (path ≡ some q)
is_below-some none path e = absurd (cc)
is_below-some (some root) none e = absurd (cc)
is_below-some (some root) (some path) e = (path, refl)

module _ {F : Type 0} (os : Files F)
    (canonical_exists : (f : F) (path target : List ℕ)
      → os.canonical f path ≡ some target
      → os.exists f path ≡ some true)
    (s : State F) where
  validate_path-exists :
      (path : List ℕ)
      → validate_path os path s ≡ true
      → os.exists s.files (join s.root_path path) ≡ some true
  unfolding validate_path
  validate_path-exists path v =
      let r = is_below-some _ _ v in canonical_exists s.files (join s.root_path path) r.0 r.1

  valid_first :
      {A : Type 0} (path : List ℕ) (k : Handler F A)
      → (os.exists s.files (join s.root_path path) ≡ some true → Stuck k s)
      → Stuck (require_valid os path >> k) s
  unfolding require_valid Stuck
  valid_first path k h = elim (Bool-cases (validate_path os path s)) [
    | inl v ↦ rw v (h (validate_path-exists path v))
    | inr v ↦ rw v (refl, λ a e. cc)
  ]

module _ {F : Type 0} (s : State F) where
  full_first :
      {A : Type 0} (path : List ℕ) (f : List ℕ → Handler F A)
      → Stuck (f (join s.root_path path)) s
      → Stuck (full_path path >>= f) s
  unfolding full_path Stuck
  full_first path f h = h

  existing_first :
      {A : Type 0} (q : F → Option Bool) (k : Handler F A)
      → q s.files ≡ some true
      → Stuck (ask q >>= λ found. require (not found) >> k) s
  unfolding ask require Stuck
  existing_first q k e = rw e (refl, λ a e. cc)

module _ {F : Type 0} (os : Files F)
    (canonical_exists : (f : F) (path target : List ℕ)
      → os.canonical f path ≡ some target
      → os.exists f path ≡ some true)
    (m : RpcMessage) (c : AuthContext) (s : State F) where
  new_place-Stuck : (handle : ℕ) (name : List ℕ) → Stuck (new_place os handle name c) s
  unfolding new_place
  new_place-Stuck handle name =
      search (stuck, full_first, existing_first, valid_first os canonical_exists s) depth 30

  handle_create-Stuck : Stuck (handle_create os m c) s
  unfolding handle_create
  handle_create-Stuck = search (stuck, new_place-Stuck) depth 40

  handle_mk_dir-Stuck : Stuck (handle_mk_dir os m c) s
  unfolding handle_mk_dir
  handle_mk_dir-Stuck = search (stuck, new_place-Stuck) depth 40

  handle_sym_link-Stuck : Stuck (handle_sym_link os m c) s
  unfolding handle_sym_link
  handle_sym_link-Stuck = search (stuck, new_place-Stuck) depth 40

  handle_rename-Stuck : Stuck (handle_rename os m c) s
  unfolding handle_rename
  handle_rename-Stuck =
      search (stuck, full_first, existing_first, valid_first os canonical_exists s) depth 40

  handle_link-Stuck : Stuck (handle_link os m c) s
  unfolding handle_link
  handle_link-Stuck =
      search
        (
          quiet,
          name_at-Quiet,
          existing_first,
          full_first,
          valid_first os canonical_exists s,
          rest-Stuck,
        )
        depth 40 fits 20000

-- The procedures that make an entry: LINK, SYMLINK, CREATE, MKDIR and RENAME.
pub data Creates : ℕ → Type 0 where
  link : Creates 4
  sym_link : Creates 6
  create : Creates 8
  mk_dir : Creates 9
  rename : Creates 12

module _ {F : Type 0} (os : Files F) (m : RpcMessage) (c : AuthContext) (s : State F) where
  procedure-Creates :
      ((f : F) (path target : List ℕ)
        → os.canonical f path ≡ some target
        → os.exists f path ≡ some true)
      → (n : ℕ) → m.header.proc ≡ n
      → Creates n
      → Stuck (procedure os m c) s
  unfolding procedure
  procedure-Creates law n e link = rw e (handle_link-Stuck os law _ c s)
  procedure-Creates law n e sym_link = rw e (handle_sym_link-Stuck os law _ c s)
  procedure-Creates law n e create = rw e (handle_create-Stuck os law _ c s)
  procedure-Creates law n e mk_dir = rw e (handle_mk_dir-Stuck os law _ c s)
  procedure-Creates law n e rename = rw e (handle_rename-Stuck os law _ c s)

-- Where canonical finds only paths that exist, CREATE, MKDIR, SYMLINK, LINK and RENAME never succeed:
-- each call is counted as failed, without a reply and with the state as it was, or reads past the end
-- of the message. validatePath wants the new path to exist, and the next test wants it not to.
pub handle_nfsv2_call-Creates :
    {F : Type 0} (os : Files F)
    → ((f : F) (path target : List ℕ)
        → os.canonical f path ≡ some target
        → os.exists f path ≡ some true)
    → (m : RpcMessage) (c : AuthContext) (s : State F) → Creates m.header.proc
    → (handle_nfsv2_call os m c s ≡ fault)
      ⊎ (handle_nfsv2_call os m c s ≡ ok (count_failed s, none))
unfolding handle_nfsv2_call
handle_nfsv2_call-Creates os law m c s k =
    conclude-Stuck (procedure os m c) s (procedure-Creates os m c s law m.header.proc refl k)
