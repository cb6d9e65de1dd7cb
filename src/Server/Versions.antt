-- ===== src/Server/Versions.antt =====
-- negotiateNfsVersion, isNfsVersionSupported and getSupportedNfsVersions of
-- src/simple-nfsd/core/server_simple.cpp.
use simple_nfsd.Prelude.{
  ℕ, ◌≤◌, ◌<◌, ◌⊎◌, ◌≡◌, Bool, true, ◌&&◌, List, [], ◌∷◌, ltb, leb, ◌==◌, if◌then◌else◌, any_of,
  arith,
}

unfoldable pub get_supported_nfs_versions : List ℕ
get_supported_nfs_versions = 4 ∷ 3 ∷ 2 ∷ []

unfoldable pub is_nfs_version_supported : ℕ → Bool
is_nfs_version_supported version = any_of (λ v. v == version) get_supported_nfs_versions

-- The loop for the highest version at or below the client's.
unfoldable pub best_version : ℕ → ℕ → List ℕ → ℕ
best_version client best [] = best
best_version client best (v ∷ vs) =
    best_version client (if leb v client && ltb best v then v else best) vs

-- std::max_element of a list that goes on from `best`.
unfoldable pub max_element : ℕ → List ℕ → ℕ
max_element best [] = best
max_element best (v ∷ vs) = max_element (if ltb best v then v else best) vs

-- The `best_version == 0 && !supported_versions.empty()` fallback.
unfoldable pub or_highest : ℕ → List ℕ → ℕ
or_highest best [] = best
or_highest best (v ∷ vs) = if best == 0 then max_element v vs else best

unfoldable pub negotiate_nfs_version : ℕ → ℕ
negotiate_nfs_version client =
    if is_nfs_version_supported client
    then client
    else or_highest (best_version client 0 get_supported_nfs_versions) get_supported_nfs_versions

-- The negotiated version is a supported one, whatever the client asks for: it is never the 0 that
-- would be answered with PROG_MISMATCH. A supported version is either at most the negotiated one or
-- above the client's; and the negotiated version is above the client's only where every supported
-- version is, and then it is the highest of them.
pub negotiate_nfs_version_lem :
    (client v : ℕ)
    → is_nfs_version_supported v ≡ true
    → (is_nfs_version_supported (negotiate_nfs_version client) ≡ true)
      × ((v ≤ negotiate_nfs_version client) ⊎ (client < v))
      × ((negotiate_nfs_version client ≤ client)
          ⊎ ((client < v) × (v ≤ negotiate_nfs_version client)))
unfolding is_nfs_version_supported get_supported_nfs_versions negotiate_nfs_version or_highest
    best_version max_element
negotiate_nfs_version_lem client v supported = ground arith
