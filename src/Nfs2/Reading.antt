-- ===== src/Nfs2/Reading.antt =====
-- The NFSv2 procedures of src/simple-nfsd/core/server_simple.cpp that change no file: GETATTR, LOOKUP,
-- READ, READDIR and STATFS.
use simple_nfsd.Prelude.{
  ℕ, ◌+◌, ◌/◌, ◌%◌, ◌^◌, Bool, true, false, List, [], ◌∷◌, ◌++◌, Option, none, some, ltb, leb,
  if◌then◌else◌, length, take, drop,
}
use Prim.Native.Nat.{bit_and}
use simple_nfsd.Bytes.{bytes32}
use simple_nfsd.Rpc.{RpcMessage}
use simple_nfsd.Auth.{AuthContext}
use simple_nfsd.Server.Xdr.{push_padding}
use simple_nfsd.Nfs2.{
  Files, State, Handler, done, ◌>>=◌, ◌>>◌, require, ask, word, bytes_at, path_of, check_access,
  child, join, require_valid, full_path, handle_for, reply_with,
}
use simple_nfsd.Nfs2.Attributes.{swap32, attributes, type_of, size_of}

-- The handle and the name of a request: the sum in the second test is a uint32_t.
unfoldable pub named : {F : Type 0} → List ℕ → Handler F (ℕ × List ℕ)
named bytes = do
  require (leb 8 (length bytes))
  handle ← word bytes 0
  name_len ← word bytes 4
  require (leb ((8 + name_len) % 2 ^ 32) (length bytes))
  name ← bytes_at bytes 8 name_len
  (λ s. (s, done (handle, name)))

module _ {F : Type 0} (os : Files F) where
  unfoldable pub handle_get_attr : RpcMessage → AuthContext → Handler F RpcMessage
  handle_get_attr message context = do
    require (leb 4 (length message.payload))
    handle ← word message.payload 0
    path ← path_of handle
    check_access path context true false
    full ← full_path path
    found ← ask (λ f. os.exists f full)
    require found
    perms ← ask (λ f. os.permissions f full)
    directory ← ask (λ f. os.is_directory f full)
    size ← size_of os full
    reply_with message (attributes (type_of directory) (bit_and perms 511) 1 size handle)

  unfoldable pub handle_lookup : RpcMessage → AuthContext → Handler F RpcMessage
  handle_lookup message context = do
    request ← named message.payload
    dir ← path_of request.0
    check_access dir context true false
    require_valid os (child dir request.1)
    full ← full_path (child dir request.1)
    found ← ask (λ f. os.exists f full)
    require found
    handle ← handle_for (child dir request.1)
    directory ← ask (λ f. os.is_directory f full)
    size ← size_of os full
    reply_with message (bytes32 handle ++ attributes (type_of directory) 420 1 size handle)

  -- The regular file of a handle.
  unfoldable pub regular_file : List ℕ → Handler F (List ℕ)
  regular_file path = do
    full ← full_path path
    found ← ask (λ f. os.exists f full)
    require found
    regular ← ask (λ f. os.is_regular_file f full)
    require regular
    (λ s. (s, done full))

  -- readFile: what there is of the file from the offset on; nothing if it does not open.
  unfoldable pub read_file : List ℕ → ℕ → ℕ → F → List ℕ
  read_file path offset count f = elim (os.contents f path) [
    | none ↦ []
    | some bytes ↦ take count (drop offset bytes)
  ]

  -- bytes_read_ += n
  unfoldable pub count_read : ℕ → Handler F (Unit {0})
  count_read n s = (record s { bytes_read = (s.bytes_read + n) % 2 ^ 64 }, done tt)

  unfoldable pub handle_read : RpcMessage → AuthContext → Handler F RpcMessage
  handle_read message context = do
    require (leb 12 (length message.payload))
    handle ← word message.payload 0
    offset ← word message.payload 4
    count ← word message.payload 8
    path ← path_of handle
    check_access path context true false
    require_valid os path
    full ← regular_file path
    bytes ← ask (λ f. some (read_file full offset count f))
    size ← ask (λ f. os.file_size f full)
    count_read (length bytes)
    reply_with message (
        attributes 1 420 1 (size % 2 ^ 32) handle
        ++ (bytes32 (length bytes)
            ++ (bytes32 (if leb (swap32 (size % 2 ^ 32)) (offset + length bytes) then 1 else 0)
                ++ bytes)))

  -- The entries from index `i` up to the limit, behind what the reply holds already.
  unfoldable pub list_entries : ℕ → ℕ → List (List ℕ) → List ℕ → List ℕ
  list_entries limit i [] reply = reply
  list_entries limit i (name ∷ names) reply =
      let rest = list_entries limit (i + 1) names (
        push_padding (reply ++ (bytes32 (i + 1) ++ (bytes32 (length name) ++ name)))
        ++ bytes32 (i + 1)) in
      if ltb i limit then rest else reply

  abbrev pub listing : Option Bool → Option Bool → List (List ℕ) → List (List ℕ)
  listing (some true) (some true) names = names
  listing (some true) (some false) names = []
  listing (some true) none names = []
  listing (some false) directory names = []
  listing none directory names = []

  -- readDirectory: no entries where there is no directory, or a question fails.
  unfoldable pub read_directory : List ℕ → State F → List (List ℕ)
  read_directory path s =
      let full = join s.root_path path in
      listing (os.exists s.files full) (os.is_directory s.files full) (os.entries s.files full)

  unfoldable pub handle_read_dir : RpcMessage → AuthContext → Handler F RpcMessage
  handle_read_dir message context = do
    require (leb 8 (length message.payload))
    handle ← word message.payload 0
    cookie ← word message.payload 4
    dir ← path_of handle
    check_access dir context true false
    require_valid os dir
    full ← full_path dir
    found ← ask (λ f. os.exists f full)
    require found
    directory ← ask (λ f. os.is_directory f full)
    require directory
    names ← (λ s. (s, done (read_directory dir s)))
    reply_with message (
        list_entries ((cookie + 100) % 2 ^ 32) cookie (drop cookie names) []
        ++ bytes32 (if leb (length names) ((cookie + 100) % 2 ^ 32) then 1 else 0))

  -- The block size, too, has gone through htonl before it divides.
  unfoldable pub handle_stat_fs : RpcMessage → AuthContext → Handler F RpcMessage
  handle_stat_fs message context = do
    require (leb 4 (length message.payload))
    handle ← word message.payload 0
    path ← path_of handle
    check_access path context true false
    require_valid os path
    full ← full_path path
    space ← ask (λ f. os.space f full)
    reply_with message (
        bytes32 1
        ++ (bytes32 512
            ++ (bytes32 (space.0 / swap32 512)
                ++ (bytes32 (space.1 / swap32 512)
                    ++ (bytes32 (space.1 / swap32 512)
                        ++ (bytes32 1000 ++ (bytes32 500 ++ bytes32 1)))))))
