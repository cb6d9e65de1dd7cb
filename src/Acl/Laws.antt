-- ===== src/Acl/Laws.antt =====
-- The first entry that applies decides, and what edits of the list do to that.
use simple_nfsd.Prelude.{
  ℕ, ◌≡◌, refl, Bool, false, ◌&&◌, not, List, [], ◌∷◌, ◌++◌, ◌==◌, if◌then◌else◌, keep_if, any_of,
  arith, Option, none, some,
}
use simple_nfsd.Acl.{
  AclEntry, FileAcl, grants, matches, permission_loop, has_permission, add_entry, remove_entry,
}

-- The first entry that applies to the user.
abbrev pub first_match : ℕ → ℕ → List ℕ → List AclEntry → Option AclEntry
first_match uid gid gids [] = none
first_match uid gid gids (e ∷ rest) =
    if matches uid gid gids e then some e else first_match uid gid gids rest

abbrev pub decided : ℕ → Option AclEntry → Bool
decided requested none = false
decided requested (some e) = grants e.permissions requested

loop-first_match :
    (uid gid : ℕ) (gids : List ℕ) (requested : ℕ) (es : List AclEntry)
    → permission_loop uid gid gids requested es ≡ decided requested (first_match uid gid gids es)
unfolding permission_loop
loop-first_match uid gid gids requested [] = refl
loop-first_match uid gid gids requested (e ∷ es) =
    ground (arith, loop-first_match uid gid gids requested es)

loop-add :
    (uid gid : ℕ) (gids : List ℕ) (requested : ℕ) (e : AclEntry) (es : List AclEntry)
    → permission_loop uid gid gids requested (es ++ (e ∷ [])) ≡ (
        if any_of (matches uid gid gids) es
        then permission_loop uid gid gids requested es
        else matches uid gid gids e && grants e.permissions requested)
unfolding permission_loop
loop-add uid gid gids requested e [] = ground arith
loop-add uid gid gids requested e (x ∷ es) = ground (arith, loop-add uid gid gids requested e es)

-- An added entry decides for the users to whom no earlier entry applies, and for no others.
has_permission-add_entry :
    (uid gid : ℕ) (gids : List ℕ) (requested : ℕ) (e : AclEntry) (acl : FileAcl)
    → has_permission uid gid gids requested (add_entry e acl) ≡ (
        if any_of (matches uid gid gids) acl.entries
        then has_permission uid gid gids requested acl
        else matches uid gid gids e && grants e.permissions requested)
unfolding has_permission add_entry
has_permission-add_entry uid gid gids requested e acl =
    loop-add uid gid gids requested e acl.entries

loop-remove :
    (uid gid : ℕ) (gids : List ℕ) (requested type id : ℕ) (es : List AclEntry)
    → matches uid gid gids (record { type = type; id = id; permissions = 0; name = [] }) ≡ false
    → permission_loop uid gid gids requested (keep_if (λ e. not (e.type == type && e.id == id)) es)
      ≡ permission_loop uid gid gids requested es
unfolding permission_loop matches
loop-remove uid gid gids requested type id [] h = refl
loop-remove uid gid gids requested type id (x ∷ es) h =
    ground (arith, loop-remove uid gid gids requested type id es)

-- Removing the entries of a type and an id that do not apply to a user leaves that user's
-- permissions as they were.
has_permission-remove_entry :
    (uid gid : ℕ) (gids : List ℕ) (requested type id : ℕ) (acl : FileAcl)
    → matches uid gid gids (record { type = type; id = id; permissions = 0; name = [] }) ≡ false
    → has_permission uid gid gids requested (remove_entry type id acl)
      ≡ has_permission uid gid gids requested acl
unfolding has_permission remove_entry
has_permission-remove_entry uid gid gids requested type id acl h =
    loop-remove uid gid gids requested type id acl.entries h

-- hasPermission is the answer of the first entry that applies to the user, and false without one.
has_permission-first_match :
    (uid gid : ℕ) (gids : List ℕ) (requested : ℕ) (acl : FileAcl)
    → has_permission uid gid gids requested acl
      ≡ decided requested (first_match uid gid gids acl.entries)
unfolding has_permission
has_permission-first_match uid gid gids requested acl =
    loop-first_match uid gid gids requested acl.entries
