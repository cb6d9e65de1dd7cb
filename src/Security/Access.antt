-- ===== src/Security/Access.antt =====
-- Authorization of SecurityManager, src/simple-nfsd/security/security.cpp: paths, access control lists
-- and Unix permissions. What std::filesystem answers is an argument: the permission bits of a path,
-- or `none` where there is no file or the question fails.
use Prim.Native.Nat.{bit_and, bit_or}
use simple_nfsd.Prelude.{
  ℕ, ◌*◌, ◌%◌, ◌^◌, Bool, true, false, ◌||◌, not, List, [], ◌∷◌, Option, none, some, ◌==◌,
  if◌then◌else◌, length, any_of, is_some,
}
use simple_nfsd.Map.{find, insert, erase}
use simple_nfsd.Acl.{FileAcl, has_permission}
use simple_nfsd.Text.{codes, equal, starts_with, contains}
use simple_nfsd.Text.Order.{text_key}
use simple_nfsd.Security.{SecurityContext, SecurityManager, security_context, inc, log_access}

unfoldable pub log_authorization :
    ℕ → SecurityContext → List ℕ → Bool → List ℕ → SecurityManager → SecurityManager
unfolding log_access
log_authorization now context resource success details m =
    log_access now context (codes "AUTHORIZATION") resource success details m

unfoldable pub is_path_allowed : List ℕ → Bool
is_path_allowed path =
    if length path == 0 || contains path (codes "..")
    then false
    else (if equal path (codes "/etc/passwd")
          || (equal path (codes "/etc/shadow") || equal path (codes "/etc/hosts"))
        then false
        else (if starts_with path (codes "/etc/")
              || (starts_with path (codes "/sys/") || starts_with path (codes "/proc/"))
            then false
            else (if starts_with path (codes "/tmp/")
                  || (starts_with path (codes "/home/") || starts_with path (codes "/var/"))
                then true
                else true)))

-- The bit `mask` of the permissions, if it is set.
abbrev pub bit : ℕ → ℕ → ℕ
bit permissions mask = if bit_and permissions mask == 0 then 0 else mask

abbrev pub mode_masks : List ℕ
mode_masks = 256 ∷ 128 ∷ 64 ∷ 32 ∷ 16 ∷ 8 ∷ 4 ∷ 2 ∷ 1 ∷ []

-- unix_perms |= mask for each bit that is set, from owner_read to others_exec.
unfoldable pub collect_bits : ℕ → List ℕ → ℕ → ℕ
collect_bits permissions [] bits = bits
collect_bits permissions (mask ∷ masks) bits =
    collect_bits permissions masks (bit_or bits (bit permissions mask))

unfoldable pub get_file_permissions : Option ℕ → ℕ
get_file_permissions none = 0
get_file_permissions (some permissions) = collect_bits permissions mode_masks 0

-- (file_perms & (requested_perms << k)) == (requested_perms << k)
abbrev pub permits : ℕ → ℕ → Bool
permits file_perms requested = bit_and file_perms requested == requested

abbrev pub shift_left : ℕ → ℕ → ℕ
shift_left v k = v * 2 ^ k % 2 ^ 32

unfoldable pub check_unix_permissions : SecurityContext → Option ℕ → ℕ → Bool
check_unix_permissions context status requested =
    let file_perms = get_file_permissions status in
    if file_perms == 0
    then false
    else (if context.uid == 0
        then true
        else (if context.uid == 1000
            then permits file_perms (shift_left requested 6)
            else (if context.gid == 1000 || any_of (λ g. g == 1000) context.gids
                then permits file_perms (shift_left requested 3)
                else permits file_perms requested)))

-- What checkFileAccess does with the list found for the file.
unfoldable pub check_acl :
    ℕ
    → SecurityContext
    → List ℕ
    → ℕ
    → (List ℕ → Option ℕ)
    → SecurityManager
    → Option FileAcl
    → SecurityManager × Bool
check_acl now context path requested status m (some acl) =
    let has_access = has_permission context.uid context.gid context.gids requested acl in
    (log_authorization now context path has_access (codes "ACL-based access check") m, has_access)
check_acl now context path requested status m none =
    let has_access = check_unix_permissions context (status path) requested in
    (log_authorization now context path has_access (codes "Unix permissions check") m, has_access)

unfoldable pub check_file_access :
    ℕ
    → SecurityContext
    → List ℕ
    → ℕ
    → (List ℕ → Option ℕ)
    → SecurityManager
    → SecurityManager × Bool
check_file_access now context path requested status m =
    if not m.initialized || not context.authenticated
    then (m, false)
    else check_acl now context path requested status m (find path m.file_acls)

unfoldable pub check_path_access :
    ℕ
    → SecurityContext
    → List ℕ
    → ℕ
    → (List ℕ → Option ℕ)
    → SecurityManager
    → SecurityManager × Bool
check_path_access now context path requested status m =
    if not m.initialized || not context.authenticated
    then (m, false)
    else (if not (is_path_allowed path)
        then (log_authorization now context path false (codes "Path not allowed") m, false)
        else check_file_access now context path requested status m)

abbrev pub count_acl_operation : SecurityManager → SecurityManager
count_acl_operation m = record m {
  stats = record (m.stats) { acl_operations = inc m.stats.acl_operations };
}

unfoldable pub set_file_acl : ℕ → List ℕ → FileAcl → SecurityManager → SecurityManager × Bool
set_file_acl now path acl m = if not m.initialized then (m, false) else (
  log_access now (security_context now) (codes "SET_ACL") path true (codes "ACL set for file")
      (count_acl_operation (record m { file_acls = insert path acl m.file_acls })),
  true,
)

-- FileAcl{}
abbrev pub empty_acl : FileAcl
empty_acl = record { entries = []; default_mask = 0; is_directory = false }

unfoldable pub get_file_acl : List ℕ → SecurityManager → FileAcl
get_file_acl path m = elim (find path m.file_acls) [ none ↦ empty_acl | some acl ↦ acl ]

unfoldable pub has_acl : List ℕ → SecurityManager → Bool
has_acl path m = is_some (find path m.file_acls)

unfoldable pub remove_file_acl : ℕ → List ℕ → SecurityManager → SecurityManager × Bool
remove_file_acl now path m =
    if not m.initialized
    then (m, false)
    else (if not (is_some (find path m.file_acls)) then (m, false) else (
      log_access now (security_context now) (codes "REMOVE_ACL") path true
          (codes "ACL removed for file")
          (count_acl_operation (record m { file_acls = erase path m.file_acls })),
      true,
    ))
