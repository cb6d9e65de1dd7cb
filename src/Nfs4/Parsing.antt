-- ===== src/Nfs4/Parsing.antt =====
-- Reading a request of NFSv4 changes nothing, src/simple-nfsd/core/server_simple.cpp.
use simple_nfsd.Prelude.{ℕ, refl, List}
use simple_nfsd.Nfs2.{State}
use simple_nfsd.Nfs2.Stuck.{Quiet}
use simple_nfsd.Nfs3.Refused.{reads}
use simple_nfsd.Nfs3.Anonymous.{may-Quiet}
use simple_nfsd.Nfs4.{decoded, known_handle, checked_word, checked_word64, checked_text}

module _ {F : Type 0} (bytes : List ℕ) (s : State F) where
  decoded-Quiet : (offset : ℕ) → Quiet (decoded bytes offset) s
  unfolding decoded Quiet
  decoded-Quiet offset = refl

  pub known_handle-Quiet : (offset : ℕ) → Quiet (known_handle bytes offset) s
  unfolding known_handle
  known_handle-Quiet offset = search (decoded-Quiet, reads) depth 20

  pub checked_word-Quiet : (offset : ℕ) → Quiet (checked_word bytes offset) s
  unfolding checked_word
  checked_word-Quiet offset = search reads depth 20

  pub checked_word64-Quiet : (offset : ℕ) → Quiet (checked_word64 bytes offset) s
  unfolding checked_word64
  checked_word64-Quiet offset = search reads depth 20

  pub checked_text-Quiet : (offset : ℕ) → Quiet (checked_text bytes offset) s
  unfolding checked_text
  checked_text-Quiet offset = search (checked_word-Quiet, reads) depth 20

pub ruleset parsing = (
  known_handle-Quiet, checked_word-Quiet, checked_word64-Quiet, checked_text-Quiet, may-Quiet,
  reads,
)
