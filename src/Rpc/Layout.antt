-- ===== src/Rpc/Layout.antt =====
-- The byte form that serializeMessage writes and deserializeMessage reads, in plain concatenation.
use simple_nfsd.Prelude.{ℕ, ◌+◌, ◌≡◌, List, [], ◌∷◌, ◌++◌, length, All}
use simple_nfsd.Bytes.{IsU32, words}
use simple_nfsd.Bytes.Laws.{pad}
use simple_nfsd.Rpc.{RpcOpaqueAuth, RpcMessage, header_words}

-- The zeros that bring a piece of `n` bytes to a multiple of 4, behind a multiple of 4.
abbrev pub opaque_layout : RpcOpaqueAuth → List ℕ
opaque_layout a = words (a.flavor ∷ a.length ∷ []) ++ (a.body ++ pad (length a.body))

abbrev pub layout : RpcMessage → List ℕ
layout m =
    words (header_words m.header)
    ++ (opaque_layout m.header.cred ++ (opaque_layout m.header.verf ++ m.payload))

-- An authenticator whose length field is that of its body, and whose words are uint32_t, the sum of
-- 4 and the length included.
pub record IsAuth (a : RpcOpaqueAuth) : Type 0 where
  pub flavor_fits : IsU32 a.flavor
  pub length_fits : IsU32 (4 + a.length)
  pub length_true : a.length ≡ length a.body

pub record IsMessage (m : RpcMessage) : Type 0 where
  pub words_fit : All IsU32 (header_words m.header)
  pub cred_true : IsAuth m.header.cred
  pub verf_true : IsAuth m.header.verf
