-- ===== src/Nfs3.antt =====
-- What the NFSv3 procedures of src/simple-nfsd/core/server_simple.cpp stand on: handles, offsets and
-- sizes of 64 bits, the attributes that a reply carries, and the way a procedure ends. The state and
-- the steps are those of the NFSv2 procedures. The machine is little-endian, as htonll_custom finds
-- out, and log output is left out.
pub mod Reading
pub mod Changing
pub mod Listing
pub mod Volume
pub mod Calls
pub mod Refused
pub mod Effects
pub mod Counting
pub mod History
pub mod Anonymous
pub mod Sizes
pub mod Leaks
mod Runs
use simple_nfsd.Prelude.{
  ℕ, ◌+◌, ◌*◌, ◌/◌, ◌%◌, ◌^◌, Bool, true, false, List, ◌++◌, Option, leb, if◌then◌else◌, length,
  replicate,
}
use Prim.Native.Nat.{bit_and}
use simple_nfsd.Bytes.{bytes32}
use simple_nfsd.Rpc.{RpcMessage}
use simple_nfsd.Nfs2.{Files, Handler, done, ◌>>=◌, ◌>>◌, require, ask, word, bytes_at, reply_with}

-- What the NFSv3 procedures ask of the operating system besides.
pub record Disk (F : Type 0) : Type 0 where
  pub files : Files F
  pub is_symlink : F → List ℕ → Option Bool
  pub read_symlink : F → List ℕ → Option (List ℕ)
  -- capacity, free and available of space_info
  pub space_info : F → List ℕ → Option (ℕ × ℕ × ℕ)
  -- the four bytes of the stack that stand behind the variable eof_flag
  pub beyond_flag : F → List ℕ

-- htonll_custom, as it stands in memory
abbrev pub bytes64 : ℕ → List ℕ
bytes64 v = bytes32 (v / 2 ^ 32) ++ bytes32 v

-- memcpy of 8 bytes of the message, and ntohll_custom.
unfoldable pub word64 : {F : Type 0} → List ℕ → ℕ → Handler F ℕ
word64 bytes offset = do
  high ← word bytes offset
  low ← word bytes (offset + 4)
  (λ s. (s, done (high * 2 ^ 32 + low)))

-- A file handle: static_cast<uint32_t> of the 64 bits.
unfoldable pub handle_at : {F : Type 0} → List ℕ → ℕ → Handler F ℕ
handle_at bytes offset = do handle ← word64 bytes offset; (λ s. (s, done (handle % 2 ^ 32)))

-- A length at the offset and the name behind it; the sum in the test is a uint32_t.
unfoldable pub text_at : {F : Type 0} → List ℕ → ℕ → Handler F (List ℕ)
text_at bytes offset = do
  name_len ← word bytes offset
  require (leb ((offset + 4 + name_len) % 2 ^ 32) (length bytes))
  bytes_at bytes (offset + 4) name_len

-- The handle of a directory and a name in it.
unfoldable pub entry_named : {F : Type 0} → List ℕ → Handler F (ℕ × List ℕ)
entry_named bytes = do
  require (leb 16 (length bytes))
  handle ← handle_at bytes 0
  name ← text_at bytes 8
  (λ s. (s, done (handle, name)))

-- The attributes that every reply writes: owner, device and times are 0, the file system is 1.
unfoldable pub attributes : ℕ → ℕ → ℕ → ℕ → ℕ → List ℕ
attributes type perms nlink size fileid =
    bytes32 type
    ++ (bytes32 (bit_and perms 511)
        ++ (bytes32 nlink
            ++ (bytes32 0
                ++ (bytes32 0
                    ++ (bytes64 size
                        ++ (bytes64 size
                            ++ (bytes64 0
                                ++ (bytes64 1 ++ (bytes64 fileid ++ replicate 48 0)))))))))

module _ {F : Type 0} (disk : Disk F) where
  -- is_regular_file(path) ? file_size(path) : 0
  unfoldable pub size_of : List ℕ → Handler F ℕ
  size_of path = do
    regular ← ask (λ f. disk.files.is_regular_file f path)
    if regular then ask (λ f. disk.files.file_size f path) else (λ s. (s, done 0))

  unfoldable pub link_or_file : List ℕ → Handler F ℕ
  link_or_file path = do
    link ← ask (λ f. disk.is_symlink f path)
    (λ s. (s, done (if link then 5 else 1)))

  -- 2 for a directory, 5 for a symbolic link, 1 for anything else.
  unfoldable pub type_of : List ℕ → Handler F ℕ
  type_of path = do
    directory ← ask (λ f. disk.files.is_directory f path)
    if directory then (λ s. (s, done 2)) else link_or_file path

  -- The attributes of what stands at a path.
  unfoldable pub attributes_of : List ℕ → ℕ → Handler F (List ℕ)
  attributes_of path handle = do
    perms ← ask (λ f. disk.files.permissions f path)
    size ← size_of path
    type ← type_of path
    (λ s. (s, done (attributes type perms 1 size handle)))

-- successful_requests_++
unfoldable pub count_successful : {F : Type 0} → Handler F (Unit {0})
count_successful s =
    (record s { successful_requests = (s.successful_requests + 1) % 2 ^ 64 }, done tt)

-- How a procedure succeeds: createReply, the count, and sendReply.
unfoldable pub succeed : {F : Type 0} → RpcMessage → List ℕ → Handler F RpcMessage
succeed message bytes = do count_successful; reply_with message bytes
