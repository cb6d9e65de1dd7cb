-- ===== src/Security/Paths.antt =====
-- What the path filter and the access control lists of SecurityManager decide.
use simple_nfsd.Prelude.{
  ℕ, ◌≡◌, ◌↔◌, refl, ap, Bool, true, false, List, [], ◌∷◌, ◌++◌, Option, none, some, if◌then◌else◌,
  ◌∙◌, sym, arith, Bool-cases, inl, inr,
}
use simple_nfsd.Map.{find, insert}
use simple_nfsd.Map.Laws.{find-insert, find-erase}
use simple_nfsd.Acl.{FileAcl, has_permission}
use simple_nfsd.Text.{codes, equal, starts_with, contains}
use simple_nfsd.Text.Order.{text_key, equal_iff}
use simple_nfsd.Security.{SecurityContext, SecurityManager, log_audit_event, log_access}
use simple_nfsd.Security.Access.{
  is_path_allowed, check_unix_permissions, check_acl, check_file_access, check_path_access,
  set_file_acl, remove_file_acl,
}

starts_with_sound : (s t : List ℕ) → starts_with s t ≡ true → (b : List ℕ) × (s ≡ t ++ b)
unfolding starts_with
starts_with_sound s [] e = (s, refl)
starts_with_sound [] (d ∷ t) e = absurd (cc)
starts_with_sound (c ∷ s) (d ∷ t) e =
    let r = starts_with_sound s t (ground arith) in (r.0, ground (arith, r.1))

starts_with_complete : (t b : List ℕ) → starts_with (t ++ b) t ≡ true
unfolding starts_with
starts_with_complete [] b = ground arith
starts_with_complete (d ∷ t) b = ground (arith, starts_with_complete t b)

-- The text occurs in the string.
Occurs : List ℕ → List ℕ → Type 0
Occurs t s = (a : List ℕ) × (b : List ℕ) × (s ≡ a ++ (t ++ b))

contains_sound : (s t : List ℕ) → contains s t ≡ true → Occurs t s
unfolding contains Occurs
contains_sound [] t e = let r = starts_with_sound [] t e in ([], r.0, r.1)
contains_sound (c ∷ s) t e = elim (Bool-cases (starts_with (c ∷ s) t)) [
  | inl here ↦ let r = starts_with_sound (c ∷ s) t here in ([], r.0, r.1)
  | inr later ↦
      let r = contains_sound s t (ground (arith, later)) in (c ∷ r.0, r.1, ap (λ u. c ∷ u) r.2)
]

contains_front : (s t : List ℕ) → starts_with s t ≡ true → contains s t ≡ true
unfolding contains
contains_front [] t e = e
contains_front (c ∷ s) t e = ground (arith, e)

contains_complete : (a t b : List ℕ) → contains (a ++ (t ++ b)) t ≡ true
unfolding contains
contains_complete [] t b = contains_front (t ++ b) t (starts_with_complete t b)
contains_complete (c ∷ a) t b = ground (arith, contains_complete a t b)

-- A test that comes out false, and what it tests for.
starts_with_refuted : (s t : List ℕ) → (starts_with s t ≡ false) ↔ ((b : List ℕ) → ¬ (s ≡ t ++ b))
starts_with_refuted s t = (
  (λ missing b e. absurd (cc (missing, ap (λ u. starts_with u t) e, starts_with_complete t b))),
  λ h. elim (Bool-cases (starts_with s t)) [
    | inl found ↦ absurd (h _ (starts_with_sound s t found).1)
    | inr missing ↦ missing
  ],
)

contains_refuted :
    (s t : List ℕ) → (contains s t ≡ false) ↔ ((a b : List ℕ) → ¬ (s ≡ a ++ (t ++ b)))
unfolding Occurs
contains_refuted s t = (
  (λ missing a b e. absurd (cc (missing, ap (λ u. contains u t) e, contains_complete a t b))),
  λ h. elim (Bool-cases (contains s t)) [
    | inl found ↦ let r = contains_sound s t found in absurd (h r.0 r.1 r.2)
    | inr missing ↦ missing
  ],
)

equal_refuted : (s t : List ℕ) → ¬ (s ≡ t) → equal s t ≡ false
equal_refuted s t h = elim (Bool-cases (equal s t)) [
  | inl found ↦ absurd (h ((equal_iff s t).0 found))
  | inr missing ↦ missing
]

-- A path with a name, without `..` anywhere, and outside /etc/, /sys/ and /proc/.
pub record IsAdmissible (path : List ℕ) : Type 0 where
  pub named : ¬ (path ≡ [])
  pub upward : (a b : List ℕ) → ¬ (path ≡ a ++ (codes ".." ++ b))
  pub not_etc : (b : List ℕ) → ¬ (path ≡ codes "/etc/" ++ b)
  pub not_sys : (b : List ℕ) → ¬ (path ≡ codes "/sys/" ++ b)
  pub not_proc : (b : List ℕ) → ¬ (path ≡ codes "/proc/" ++ b)

is_path_allowed_sound : (path : List ℕ) → is_path_allowed path ≡ true → IsAdmissible path
unfolding is_path_allowed
is_path_allowed_sound path e = record {
  named = λ empty. absurd (cc (e, ap is_path_allowed empty));
  upward = (contains_refuted path (codes "..")).0 (ground arith);
  not_etc = (starts_with_refuted path (codes "/etc/")).0 (ground arith);
  not_sys = (starts_with_refuted path (codes "/sys/")).0 (ground arith);
  not_proc = (starts_with_refuted path (codes "/proc/")).0 (ground arith);
}

is_path_allowed_complete : (path : List ℕ) → IsAdmissible path → is_path_allowed path ≡ true
unfolding is_path_allowed
is_path_allowed_complete [] h = absurd (h.named refl)
is_path_allowed_complete (c ∷ s) h =
    let path = c ∷ s in
    let up = (contains_refuted path (codes "..")).1 h.upward in
    let etc = (starts_with_refuted path (codes "/etc/")).1 h.not_etc in
    let sys = (starts_with_refuted path (codes "/sys/")).1 h.not_sys in
    let proc = (starts_with_refuted path (codes "/proc/")).1 h.not_proc in
    let passwd = equal_refuted path (codes "/etc/passwd") (h.not_etc (codes "passwd")) in
    let shadow = equal_refuted path (codes "/etc/shadow") (h.not_etc (codes "shadow")) in
    let hosts = equal_refuted path (codes "/etc/hosts") (h.not_etc (codes "hosts")) in
    rw (up, etc, sys, proc, passwd, shadow, hosts) (ground arith)

-- checkPathAccess grants exactly where the manager runs, the client is authenticated, checkFileAccess
-- grants, and the path is not empty, holds no `..` and lies outside /etc/, /sys/ and /proc/.
pub check_path_access_iff :
    (now : ℕ) (c : SecurityContext) (path : List ℕ) (n : ℕ) (status : List ℕ → Option ℕ)
    → (m : SecurityManager)
    → ((check_path_access now c path n status m).1 ≡ true) ↔ (
        (m.initialized ≡ true)
        × (c.authenticated ≡ true)
        × IsAdmissible path
        × ((check_file_access now c path n status m).1 ≡ true))
unfolding check_path_access check_file_access
check_path_access_iff now c path n status m = (
  (λ e. (ground arith, ground arith, is_path_allowed_sound path (ground arith), ground arith)),
  λ h. ground (arith, h.0, h.1, is_path_allowed_complete path h.2, h.3),
)

-- The answer of checkFileAccess from the list found for the file.
decides : SecurityContext → List ℕ → ℕ → (List ℕ → Option ℕ) → Option FileAcl → Bool
decides c path n status none = check_unix_permissions c (status path) n
decides c path n status (some acl) = has_permission c.uid c.gid c.gids n acl

check_acl-decides :
    (now : ℕ) (c : SecurityContext) (path : List ℕ) (n : ℕ) (status : List ℕ → Option ℕ)
    → (m : SecurityManager) (found : Option FileAcl)
    → (check_acl now c path n status m found).1 ≡ decides c path n status found
unfolding check_acl decides
check_acl-decides now c path n status m none = refl
check_acl-decides now c path n status m (some acl) = refl

check_file_access-decides :
    (now : ℕ) (c : SecurityContext) (path : List ℕ) (n : ℕ) (status : List ℕ → Option ℕ)
    → (m : SecurityManager) → m.initialized ≡ true
    → c.authenticated ≡ true
    → (check_file_access now c path n status m).1 ≡ decides c path n status (find path m.file_acls)
unfolding check_file_access
check_file_access-decides now c path n status m i a =
    ground (arith, i, a, check_acl-decides now c path n status m (find path m.file_acls))

set_file_acl-file_acls :
    (now : ℕ) (path : List ℕ) (acl : FileAcl) (m : SecurityManager)
    → m.initialized ≡ true
    → ((set_file_acl now path acl m).0.file_acls ≡ insert path acl m.file_acls)
      × ((set_file_acl now path acl m).0.initialized ≡ true)
unfolding set_file_acl log_access log_audit_event
set_file_acl-file_acls now path acl m i = (ground (arith, i), ground (arith, i))

find-set_file_acl :
    (now : ℕ) (path other : List ℕ) (acl : FileAcl) (m : SecurityManager)
    → m.initialized ≡ true
    → find other (set_file_acl now path acl m).0.file_acls
      ≡ (if equal path other then some acl else find other m.file_acls)
find-set_file_acl now path other acl m i =
    ap (find other) (set_file_acl-file_acls now path acl m i).0
    ∙ find-insert path other acl m.file_acls

remove_file_acl-file_acls :
    (now : ℕ) (path other : List ℕ) (m : SecurityManager)
    → m.initialized ≡ true
    → (find other (remove_file_acl now path m).0.file_acls
        ≡ (if equal path other then none else find other m.file_acls))
      × ((remove_file_acl now path m).0.initialized ≡ true)
unfolding remove_file_acl log_access log_audit_event
remove_file_acl-file_acls now path other m i =
    (ground (arith, i, find-erase path other m.file_acls, equal_iff path other), ground (arith, i))

decides-choice :
    (c : SecurityContext) (path : List ℕ) (n : ℕ) (status : List ℕ → Option ℕ) (b d : Bool)
    → (x y : Option FileAcl) → d ≡ decides c path n status y
    → decides c path n status (if b then x else y) ≡ (if b then decides c path n status x else d)
decides-choice c path n status true d x y e = refl
decides-choice c path n status false d x y e = sym e

-- In a running manager and for an authenticated client, a list set on a file alone decides from then
-- on about that file; a list removed leaves the file to its permission bits; and neither changes the
-- decision about any other file.
check_file_access-set_file_acl :
    (now later : ℕ) (c : SecurityContext) (path other : List ℕ) (n : ℕ) (status : List ℕ → Option ℕ)
    → (acl : FileAcl) (m : SecurityManager) → m.initialized ≡ true
    → c.authenticated ≡ true
    → ((check_file_access later c other n status (set_file_acl now path acl m).0).1 ≡ (
        if equal path other
        then has_permission c.uid c.gid c.gids n acl
        else (check_file_access later c other n status m).1))
      × ((check_file_access later c other n status (remove_file_acl now path m).0).1 ≡ (
          if equal path other
          then check_unix_permissions c (status other) n
          else (check_file_access later c other n status m).1))
unfolding decides
check_file_access-set_file_acl now later c path other n status acl m i a =
    let set = set_file_acl now path acl m in
    let removed = remove_file_acl now path m in
    let before = check_file_access-decides later c other n status m i a in
    (
      check_file_access-decides later c other n status set.0
            (set_file_acl-file_acls now path acl m i).1 a
          ∙ ap (decides c other n status) (find-set_file_acl now path other acl m i)
          ∙ decides-choice c other n status (equal path other) _ (some acl) _ before,
      check_file_access-decides later c other n status removed.0
            (remove_file_acl-file_acls now path other m i).1 a
          ∙ ap (decides c other n status) (remove_file_acl-file_acls now path other m i).0
          ∙ decides-choice c other n status (equal path other) _ none _ before,
    )
