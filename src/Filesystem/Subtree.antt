-- ===== src/Filesystem/Subtree.antt =====
-- What the check of a path and all its parents lets through.
use mathlib.Core.List.{Memᴰ, append-nil, append_assoc}
use mathlib.Core.List.Memᴰ
use simple_nfsd.Prelude.{
  ℕ, ◌≡◌, refl, sym, subst, true, false, ◌&&◌, ◌||◌, List, [], ◌∷◌, ◌++◌, ◌==◌, any_of, arith, All,
  Bool-cases, inl, inr, length,
}
use simple_nfsd.Text.{equal, starts_with, contains}
use simple_nfsd.Filesystem.{Host, Export, FilesystemManager, sanitize_path}
use simple_nfsd.Filesystem.Exports.{
  is_under, is_subtree_check_enabled, is_started, parents, visited, admits, found_export, all_found,
  validate_subtree_access,
}

parents-keeps :
    (x front s : List ℕ) (found : List (List ℕ)) → Memᴰ x found → Memᴰ x (parents front s found)
unfolding parents
parents-keeps x front [] found h = Memᴰ.tail h
parents-keeps x front (c ∷ s) found h = elim (Bool-cases (c == 47 && is_started front)) [
  | inl cut ↦ rw cut (parents-keeps x (front ++ (c ∷ [])) s (front ∷ found) (Memᴰ.tail h))
  | inr on ↦ rw on (parents-keeps x (front ++ (c ∷ [])) s found h)
]

-- A component that a slash follows ends one of the parents.
parents-component :
    (d : ℕ) (front t rest : List ℕ) (found : List (List ℕ))
    → All (λ c. (c == 47) ≡ false) t
    → Memᴰ ((d ∷ front) ++ t) (parents (d ∷ front) (t ++ (47 ∷ rest)) found)
unfolding parents
parents-component d front [] rest found u =
    subst (λ x. Memᴰ x (parents (d ∷ front) (47 ∷ rest) found)) (sym (append-nil (d ∷ front)))
      (parents-keeps (d ∷ front) ((d ∷ front) ++ (47 ∷ [])) rest ((d ∷ front) ∷ found)
        (Memᴰ.head refl))
parents-component d front (c ∷ t) rest found (plain, u) = rw plain (
    subst (λ x. Memᴰ x (parents (d ∷ front ++ (c ∷ [])) (t ++ (47 ∷ rest)) found))
      (append_assoc (d ∷ front) (c ∷ []) t)
      (parents-component d (front ++ (c ∷ [])) t rest found u))

visited-top :
    (t rest : List ℕ)
    → All (λ c. (c == 47) ≡ false) t
    → Memᴰ (47 ∷ t) (visited (47 ∷ (t ++ (47 ∷ rest))))
unfolding visited parents equal
visited-top [] rest u = parents-component 47 [] [] rest [] u
visited-top (c ∷ t) rest u = parents-component 47 [] (c ∷ t) rest [] u

all_found-member :
    (host : Host) (client_ip : List ℕ) (m : FilesystemManager) (x : List ℕ) (paths : List (List ℕ))
    → Memᴰ x paths
    → all_found host client_ip m paths ≡ true
    → found_export host client_ip m x ≡ true
unfolding all_found
all_found-member host client_ip m x [] h e = absurd (Memᴰ.not-nil h)
all_found-member host client_ip m x (p ∷ paths) (Memᴰ.head q) e = rw q (ground (arith, e))
all_found-member host client_ip m x (p ∷ paths) (Memᴰ.tail h) e =
    all_found-member host client_ip m x paths h (ground (arith, e))

-- A listed export holds the path checked, and names the client or nobody.
pub record IsAdmitted (host : Host) (client_ip checked : List ℕ) (exports : List Export)
    : Type 0 where
  pub export : Export
  pub listed : Memᴰ export exports
  pub holds : starts_with checked (sanitize_path host export.path) ≡ true
  pub lets_in : (length export.clients == 0 || contains export.clients client_ip) ≡ true

equal-starts_with : (s t : List ℕ) → equal s t ≡ true → starts_with s t ≡ true
unfolding equal starts_with
equal-starts_with [] [] e = refl
equal-starts_with [] (d ∷ t) e = absurd (cc)
equal-starts_with (c ∷ s) [] e = refl
equal-starts_with (c ∷ s) (d ∷ t) e = ground (arith, equal-starts_with s t)

admitted_by :
    (host : Host) (client_ip checked : List ℕ) (exports : List Export)
    → any_of (admits host client_ip checked) exports ≡ true
    → IsAdmitted host client_ip checked exports
unfolding admits is_under
admitted_by host client_ip checked [] e = absurd (cc)
admitted_by host client_ip checked (x ∷ exports) e =
    elim (Bool-cases (admits host client_ip checked x)) [
      | inl here ↦ record {
        export = x;
        listed = Memᴰ.head refl;
        holds = ground (arith, here, equal-starts_with checked (sanitize_path host x.path));
        lets_in = ground (arith, here);
      }
      | inr there ↦
          let r = admitted_by host client_ip checked exports (ground (arith, e, there)) in
          record {
            export = r.export;
            listed = Memᴰ.tail r.listed;
            holds = r.holds;
            lets_in = r.lets_in;
          }
    ]

-- Where the subtree check is on for a path below a top directory `/t`, validateSubtreeAccess lets a
-- client through only if a listed export holds `/t` itself, so that its path is a prefix of `/t`, and
-- names the client or nobody. An export that lies deeper, as `/srv/nfs` does, holds none of its own
-- paths for anybody, unless another export holds the top directory.
pub validate_subtree_access-IsAdmitted :
    (host : Host) (path client_ip t rest : List ℕ) (m : FilesystemManager)
    → All (λ c. (c == 47) ≡ false) t
    → sanitize_path host path ≡ 47 ∷ (t ++ (47 ∷ rest))
    → is_subtree_check_enabled host path m ≡ true
    → validate_subtree_access host path client_ip m ≡ true
    → IsAdmitted host client_ip (47 ∷ t) m.config.exports
unfolding validate_subtree_access found_export
validate_subtree_access-IsAdmitted host path client_ip t rest m u place on through =
    admitted_by host client_ip (47 ∷ t) m.config.exports (
      all_found-member host client_ip m (47 ∷ t) (visited (sanitize_path host path))
        (subst (λ p. Memᴰ (47 ∷ t) (visited p)) (sym place) (visited-top t rest u))
        (ground (arith, on, through)))
