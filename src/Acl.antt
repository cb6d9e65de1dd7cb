-- ===== src/Acl.antt =====
-- FileAcl of include/simple-nfsd/security/security.hpp and src/simple-nfsd/security/security.cpp: the
-- entries of an access control list, first match first.
pub mod Laws
mod Runs
use Prim.Native.Nat.{bit_and}
use simple_nfsd.Prelude.{
  ℕ, Bool, true, false, ◌&&◌, ◌||◌, not, List, [], ◌∷◌, ◌++◌, ◌==◌, if◌then◌else◌, keep_if, any_of,
}

pub record AclEntry : Type 0 where
  pub type : ℕ
  pub id : ℕ
  pub permissions : ℕ
  pub name : List ℕ

pub record FileAcl : Type 0 where
  pub entries : List AclEntry
  pub default_mask : ℕ
  pub is_directory : Bool

-- (permissions & requested) == requested
abbrev pub grants : ℕ → ℕ → Bool
grants permissions requested = bit_and permissions requested == requested

-- Whether an entry applies to a user; one of an unknown type is passed over.
unfoldable pub matches : ℕ → ℕ → List ℕ → AclEntry → Bool
matches uid gid gids e =
    if e.type == 1
    then e.id == uid
    else (if e.type == 2
        then e.id == gid || any_of (λ g. g == e.id) gids
        else (if e.type == 3 then true else false))

-- The loop of hasPermission.
unfoldable pub permission_loop : ℕ → ℕ → List ℕ → ℕ → List AclEntry → Bool
permission_loop uid gid gids requested [] = false
permission_loop uid gid gids requested (e ∷ rest) =
    if matches uid gid gids e
    then grants e.permissions requested
    else permission_loop uid gid gids requested rest

unfoldable pub has_permission : ℕ → ℕ → List ℕ → ℕ → FileAcl → Bool
has_permission uid gid gids requested acl = permission_loop uid gid gids requested acl.entries

unfoldable pub add_entry : AclEntry → FileAcl → FileAcl
add_entry e acl = record acl { entries = acl.entries ++ (e ∷ []) }

unfoldable pub remove_entry : ℕ → ℕ → FileAcl → FileAcl
remove_entry type id acl = record acl {
  entries = keep_if (λ e. not (e.type == type && e.id == id)) acl.entries;
}

unfoldable pub clear : FileAcl → FileAcl
clear acl = record acl { entries = [] }
