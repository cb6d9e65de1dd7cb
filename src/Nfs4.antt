-- ===== src/Nfs4.antt =====
-- What the NFSv4 procedures of src/simple-nfsd/core/server_simple.cpp stand on: the handles and names
-- of a request, each with its own test of the size, and the way to the file. The state and the steps
-- are those of the other versions. No NFSv4 procedure calls validatePath.
pub mod Reading
pub mod Changing
pub mod Volume
pub mod Acls
pub mod Sessions
pub mod Calls
pub mod Parsing
pub mod Keeps
pub mod Anonymous
pub mod Traversal
pub mod AclForm
mod Runs
use simple_nfsd.Prelude.{ℕ, ◌+◌, Bool, not, List, Option, leb, ◌==◌, length}
use simple_nfsd.Bytes.{Outcome, ok, thrown, fault}
use simple_nfsd.Rpc.{RpcMessage}
use simple_nfsd.Auth.{AuthContext}
use simple_nfsd.Server.Xdr.{decode_nfsv4_handle, encode_nfsv4_handle}
use simple_nfsd.Nfs2.{
  Handler, Attempt, done, faults, ◌>>=◌, ◌>>◌, require, word, bytes_at, path_of, check_access,
  handle_for,
}
use simple_nfsd.Nfs3.{Disk, word64, succeed}

-- What the NFSv4 procedures do to files besides: an ofstream that seeks to an offset and writes,
-- opened for reading and writing, or for writing alone; whether it opened.
pub record Store (F : Type 0) : Type 0 where
  pub disk : Disk F
  pub write_existing : F → List ℕ → ℕ → List ℕ → F × Bool
  pub write_new : F → List ℕ → ℕ → List ℕ → F × Bool

abbrev pub read_decoded : Outcome (ℕ × ℕ) → Attempt (ℕ × ℕ)
read_decoded (ok r) = done r
read_decoded (thrown e) = faults
read_decoded fault = faults

-- decodeNfsv4Handle: the handle, and the offset behind it.
unfoldable pub decoded : {F : Type 0} → List ℕ → ℕ → Handler F (ℕ × ℕ)
decoded bytes offset s = (s, read_decoded (decode_nfsv4_handle bytes offset))

-- `if (handle_id == 0)` fails.
unfoldable pub known_handle : {F : Type 0} → List ℕ → ℕ → Handler F (ℕ × ℕ)
known_handle bytes offset = do
  r ← decoded bytes offset
  require (not (r.0 == 0))
  (λ s. (s, done r))

unfoldable pub checked_word : {F : Type 0} → List ℕ → ℕ → Handler F ℕ
checked_word bytes offset = do require (leb (offset + 4) (length bytes)); word bytes offset

unfoldable pub checked_word64 : {F : Type 0} → List ℕ → ℕ → Handler F ℕ
checked_word64 bytes offset = do require (leb (offset + 8) (length bytes)); word64 bytes offset

-- A name with its length in front: offset and name_len are added as size_t.
unfoldable pub checked_text : {F : Type 0} → List ℕ → ℕ → Handler F (List ℕ)
checked_text bytes offset = do
  name_len ← checked_word bytes offset
  require (leb (offset + 4 + name_len) (length bytes))
  bytes_at bytes (offset + 4) name_len

-- A handle with its path, which the client may read or write: handle, offset behind it, and path.
unfoldable pub granted_path :
    {F : Type 0} → List ℕ → AuthContext → Bool → Bool → Handler F (ℕ × ℕ × List ℕ)
granted_path bytes context read write = do
  handle ← known_handle bytes 0
  path ← path_of handle.0
  check_access path context read write
  (λ s. (s, done (handle.0, handle.1, path)))

-- The path of a directory that the client may read or write, and a name in it.
unfoldable pub directory_entry :
    {F : Type 0} → List ℕ → AuthContext → Bool → Bool → Handler F (List ℕ × List ℕ)
directory_entry bytes context read write = do
  require (leb 8 (length bytes))
  dir ← known_handle bytes 0
  path ← path_of dir.0
  name ← checked_text bytes dir.1
  check_access path context read write
  (λ s. (s, done (path, name)))

-- The reply that holds a handle for a path.
unfoldable pub reply_handle : {F : Type 0} → RpcMessage → List ℕ → Handler F RpcMessage
reply_handle message path = do
  handle ← handle_for path
  succeed message (encode_nfsv4_handle handle)
