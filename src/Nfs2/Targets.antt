-- ===== src/Nfs2/Targets.antt =====
-- The paths that an NFSv2 call acts on, and that validatePath accepts them where it is answered, in
-- src/simple-nfsd/core/server_simple.cpp.
use simple_nfsd.Prelude.{
  ◌+◌, ◌||◌, List, [], ◌∷◌, length, drop, All, if◌then◌else◌, ℕ, ◌≡◌, Bool, true, false, arith,
  ◌==◌,
}
use simple_nfsd.Rpc.{RpcMessage}
use simple_nfsd.Auth.{AuthContext}
use simple_nfsd.Nfs2.{Files, State, Handler, child, validate_path, require_valid}
use simple_nfsd.Bytes.{be32, slice}
use simple_nfsd.Server.Handles.{get_path_from_handle}
use simple_nfsd.Nfs2.Reading.{
  handle_get_attr, handle_lookup, handle_read, handle_read_dir, handle_stat_fs,
}
use simple_nfsd.Nfs2.Changing.{
  new_place, handle_write, handle_set_attr, handle_create, handle_mk_dir, handle_rm_dir,
  handle_remove,
}
use simple_nfsd.Nfs2.Links.{handle_rename, handle_link, handle_sym_link}
use simple_nfsd.Nfs2.Calls.{handle_null, unsupported, procedure}
use simple_nfsd.Nfs2.Only.{Only, skip-Only, split-Only, holds-true, known}

-- The path of the handle at an offset of the message, and the name whose length stands at an offset.
abbrev pub path_at : {F : Type 0} → RpcMessage → State F → ℕ → List ℕ
path_at m s offset = get_path_from_handle (be32 (drop offset m.payload)) s.handles

abbrev pub text_behind : RpcMessage → ℕ → List ℕ
text_behind m offset = slice m.payload (offset + 4) (be32 (drop offset m.payload))

-- The path that the message begins with, and the name in it that follows.
abbrev pub itself : {F : Type 0} → RpcMessage → State F → List ℕ
itself m s = path_at m s 0

abbrev pub entry : {F : Type 0} → RpcMessage → State F → List ℕ
entry m s = child (itself m s) (text_behind m 4)

-- The new name of LINK and of RENAME.
abbrev pub link_entry : {F : Type 0} → RpcMessage → State F → List ℕ
link_entry m s = child (path_at m s 4) (text_behind m 8)

abbrev pub new_entry : {F : Type 0} → RpcMessage → State F → List ℕ
new_entry m s =
    let n : ℕ = length (text_behind m 4) in child (path_at m s (8 + n)) (text_behind m (12 + n))

-- LOOKUP, SYMLINK, CREATE, MKDIR and REMOVE, by the numbers of the switch.
abbrev pub takes_entry : RpcMessage → Bool
takes_entry m =
    m.header.proc == 3
    || (m.header.proc == 6 || (m.header.proc == 8 || (m.header.proc == 9 || m.header.proc == 11)))

-- The paths that a call acts on: both of LINK and of RENAME, the entry where there is a name, and the
-- path of the handle for the other procedures.
unfoldable pub targets : {F : Type 0} → RpcMessage → State F → List (List ℕ)
targets m s =
    if m.header.proc == 4
    then itself m s ∷ (link_entry m s ∷ [])
    else (if m.header.proc == 12
        then entry m s ∷ (new_entry m s ∷ [])
        else (if takes_entry m then entry m s ∷ [] else itself m s ∷ []))

-- Every path is one that validatePath accepts.
abbrev pub AllValid : {F : Type 0} → Files F → State F → List (List ℕ) → Type 0
AllValid os s paths = All (λ path. validate_path os path s ≡ true) paths

module _ {F : Type 0} (os : Files F) (m : RpcMessage) (c : AuthContext) (s : State F) where
  unsupported-Only : (P : Type 0) → Only P (unsupported {F = F}) s
  unfolding unsupported Only
  unsupported-Only P a e = absurd (cc)

  Valid : List ℕ → Type 0
  Valid path = validate_path os path s ≡ true

  require_valid-Only : (path : List ℕ) → Only (Valid path) (require_valid os path) s
  unfolding require_valid Only Valid
  require_valid-Only path u e = holds-true _ u e

  place-Valid :
      (handle : ℕ) (name : List ℕ)
      → Only
          (Valid (child (get_path_from_handle handle s.handles) name))
          (new_place os handle name c)
          s
  unfolding new_place
  place-Valid handle name = search (known, require_valid-Only) depth 40 fits 20000

  set_attr-Valid : Only (Valid (itself m s)) (handle_set_attr os m c) s
  unfolding handle_set_attr
  set_attr-Valid = search (known, require_valid-Only) depth 40 fits 20000

  read-Valid : Only (Valid (itself m s)) (handle_read os m c) s
  unfolding handle_read
  read-Valid = search (known, require_valid-Only) depth 40 fits 20000

  write-Valid : Only (Valid (itself m s)) (handle_write os m c) s
  unfolding handle_write
  write-Valid = search (known, require_valid-Only) depth 40 fits 20000

  rm_dir-Valid : Only (Valid (itself m s)) (handle_rm_dir os m c) s
  unfolding handle_rm_dir
  rm_dir-Valid = search (known, require_valid-Only) depth 40 fits 20000

  read_dir-Valid : Only (Valid (itself m s)) (handle_read_dir os m c) s
  unfolding handle_read_dir
  read_dir-Valid = search (known, require_valid-Only) depth 40 fits 20000

  stat_fs-Valid : Only (Valid (itself m s)) (handle_stat_fs os m c) s
  unfolding handle_stat_fs
  stat_fs-Valid = search (known, require_valid-Only) depth 40 fits 20000

  lookup-Valid : Only (Valid (entry m s)) (handle_lookup os m c) s
  unfolding handle_lookup
  lookup-Valid = search (known, require_valid-Only) depth 40 fits 20000

  remove-Valid : Only (Valid (entry m s)) (handle_remove os m c) s
  unfolding handle_remove
  remove-Valid = search (known, require_valid-Only) depth 40 fits 20000

  sym_link-Valid : Only (Valid (entry m s)) (handle_sym_link os m c) s
  unfolding handle_sym_link
  sym_link-Valid = search (known, place-Valid) depth 40 fits 20000

  create-Valid : Only (Valid (entry m s)) (handle_create os m c) s
  unfolding handle_create
  create-Valid = search (known, place-Valid) depth 40 fits 20000

  mk_dir-Valid : Only (Valid (entry m s)) (handle_mk_dir os m c) s
  unfolding handle_mk_dir
  mk_dir-Valid = search (known, place-Valid) depth 40 fits 20000

  link-Valid_old : Only (Valid (itself m s)) (handle_link os m c) s
  unfolding handle_link
  link-Valid_old = search (known, require_valid-Only) depth 60 fits 40000

  link-Valid_new : Only (Valid (link_entry m s)) (handle_link os m c) s
  unfolding handle_link
  link-Valid_new = search (known, require_valid-Only) depth 60 fits 40000

  rename-Valid_old : Only (Valid (entry m s)) (handle_rename os m c) s
  unfolding handle_rename
  rename-Valid_old = search (known, require_valid-Only) depth 60 fits 40000

  rename-Valid_new : Only (Valid (new_entry m s)) (handle_rename os m c) s
  unfolding handle_rename
  rename-Valid_new = search (known, require_valid-Only) depth 60 fits 40000

  single-AllValid :
      (h : Handler F RpcMessage) (p : List ℕ)
      → targets m s ≡ p ∷ []
      → Only (Valid p) h s
      → Only (AllValid os s (targets m s)) h s
  unfolding Only Valid
  single-AllValid h p e k a ends = rw e (k a ends, tt)

  double-AllValid :
      (h : Handler F RpcMessage) (p q : List ℕ)
      → targets m s ≡ p ∷ (q ∷ [])
      → Only (Valid p) h s
      → Only (Valid q) h s
      → Only (AllValid os s (targets m s)) h s
  unfolding Only Valid
  double-AllValid h p q e k l a ends = rw e (k a ends, (l a ends, tt))

  pub answered-AllValid :
      (m.header.proc == 0) ≡ false
      → (m.header.proc == 1) ≡ false
      → Only (AllValid os s (targets m s)) (procedure os m c) s
  unfolding procedure targets
  answered-AllValid not_null not_attr =
      let P = AllValid os s (targets m s) in
      skip-Only P (m.header.proc == 0) (handle_null m) _ s not_null (
        skip-Only P (m.header.proc == 1) (handle_get_attr os m c) _ s not_attr (
          split-Only P (m.header.proc == 2) _ _ s
            (λ e. single-AllValid _ _ (ground (arith, e)) set_attr-Valid)
            (λ n2.
              split-Only P (m.header.proc == 3) _ _ s
                (λ e. single-AllValid _ _ (ground (arith, e)) lookup-Valid)
                (λ n3.
                  split-Only P (m.header.proc == 4) _ _ s
                    (λ e. double-AllValid _ _ _ (ground (arith, e)) link-Valid_old link-Valid_new)
                    (λ n4.
                      split-Only P (m.header.proc == 5) _ _ s
                        (λ e. single-AllValid _ _ (ground (arith, e)) read-Valid)
                        (λ n5.
                          split-Only P (m.header.proc == 6) _ _ s
                            (λ e. single-AllValid _ _ (ground (arith, e)) sym_link-Valid)
                            (λ n6.
                              split-Only P (m.header.proc == 7) _ _ s
                                (λ e. single-AllValid _ _ (ground (arith, e)) write-Valid)
                                (λ n7.
                                  split-Only P (m.header.proc == 8) _ _ s
                                    (λ e. single-AllValid _ _ (ground (arith, e)) create-Valid)
                                    (λ n8.
                                      split-Only P (m.header.proc == 9) _ _ s
                                        (λ e. single-AllValid _ _ (ground (arith, e)) mk_dir-Valid)
                                        (λ n9.
                                          split-Only P (m.header.proc == 10) _ _ s
                                            (λ e.
                                              single-AllValid _ _ (ground (arith, e)) rm_dir-Valid)
                                            (λ n10.
                                              split-Only P (m.header.proc == 11) _ _ s
                                                (λ e.
                                                  single-AllValid _ _ (ground (arith, e))
                                                    remove-Valid)
                                                (λ n11.
                                                  split-Only P (m.header.proc == 12) _ _ s
                                                    (λ e.
                                                      double-AllValid _ _ _ (ground (arith, e))
                                                        rename-Valid_old rename-Valid_new)
                                                    (λ n12.
                                                      split-Only P (m.header.proc == 15) _ _ s
                                                        (λ e.
                                                          single-AllValid _ _ (ground (arith, e))
                                                            read_dir-Valid)
                                                        (λ n15.
                                                          split-Only P (m.header.proc == 16) _ _ s
                                                            (λ e.
                                                            single-AllValid _ _ (ground (arith, e))
                                                            stat_fs-Valid)
                                                            (λ n16.
                                                            unsupported-Only P)))))))))))))))
