-- ===== src/Nfs3/Listing.antt =====
-- READDIR and READDIRPLUS of NFSv3, src/simple-nfsd/core/server_simple.cpp. Either ends its reply with
-- 8 bytes from the address of a variable of 4: the other 4 are what stands behind it on the stack.
use simple_nfsd.Prelude.{
  ℕ, ◌+◌, ◌%◌, ◌^◌, true, false, List, [], ◌∷◌, ◌++◌, ltb, leb, if◌then◌else◌, length, drop,
}
use simple_nfsd.Bytes.{bytes32}
use simple_nfsd.Rpc.{RpcMessage}
use simple_nfsd.Auth.{AuthContext}
use simple_nfsd.Server.Xdr.{push_padding}
use simple_nfsd.Nfs2.{Handler, done, ◌>>=◌, ◌>>◌, require, ask, word, child, full_path, handle_for}
use simple_nfsd.Nfs2.Reading.{read_directory}
use simple_nfsd.Nfs3.{Disk, bytes64, word64, attributes_of, succeed}
use simple_nfsd.Nfs3.Reading.{allowed_path, existing}

-- An entry behind what the reply holds already: file id, name, padding and cookie.
unfoldable pub push_entry : List ℕ → ℕ → List ℕ → ℕ → List ℕ
push_entry reply file_id name cookie =
    push_padding (reply ++ (bytes64 file_id ++ (bytes32 (length name) ++ name))) ++ bytes64 cookie

-- The entries from index `i` up to the limit; the loop ends behind the one that exceeds `count` bytes.
unfoldable pub list_entries : ℕ → ℕ → ℕ → List (List ℕ) → List ℕ → List ℕ
list_entries limit count i [] reply = reply
list_entries limit count i (name ∷ names) reply =
    let longer = push_entry reply (i + 1) name (i + 1) in
    let rest = list_entries limit count (i + 1) names longer in
    if ltb i limit then (if ltb count (length longer) then longer else rest) else reply

module _ {F : Type 0} (disk : Disk F) where
  -- The directory of a handle, with the names in it.
  unfoldable pub directory_at : List ℕ → Handler F (List (List ℕ))
  directory_at path = do
    full ← existing disk path
    directory ← ask (λ f. disk.files.is_directory f full)
    require directory
    (λ s. (s, done (read_directory disk.files path s)))

  -- The end of a listing.
  unfoldable pub end_listing : RpcMessage → List (List ℕ) → ℕ → List ℕ → Handler F RpcMessage
  end_listing message names limit entries = do
    beyond ← (λ s. (s, done (disk.beyond_flag s.files)))
    succeed message (entries ++ (bytes32 (if leb (length names) limit then 1 else 0) ++ beyond))

  unfoldable pub handle_read_dir : RpcMessage → AuthContext → Handler F RpcMessage
  handle_read_dir message context = do
    require (leb 20 (length message.payload))
    cookie ← word64 message.payload 8
    count ← word message.payload 16
    target ← allowed_path message.payload context true false
    names ← directory_at target.1
    end_listing message names ((cookie + 100) % 2 ^ 64)
        (list_entries ((cookie + 100) % 2 ^ 64) count cookie (drop cookie names) [])

  unfoldable pub push_attributes : List ℕ → ℕ → List ℕ → Handler F (List ℕ)
  push_attributes full handle reply = do
    attrs ← attributes_of disk full handle
    (λ s. (s, done (reply ++ attrs)))

  -- The attributes of an entry, if it exists, behind the reply.
  unfoldable pub with_attributes : List ℕ → ℕ → List ℕ → Handler F (List ℕ)
  with_attributes path handle reply = do
    full ← full_path path
    found ← ask (λ f. disk.files.exists f full)
    if found then push_attributes full handle reply else (λ s. (s, done reply))

  -- An entry is given a handle.
  unfoldable pub entry_plus : List ℕ → ℕ → List ℕ → List ℕ → Handler F (List ℕ)
  entry_plus dir i name reply = do
    handle ← handle_for (child dir name)
    with_attributes (child dir name) handle (push_entry reply handle name (i + 1))

  unfoldable pub list_entries_plus :
      ℕ → ℕ → List ℕ → ℕ → List (List ℕ) → List ℕ → Handler F (List ℕ)
  list_entries_plus limit maxcount dir i [] reply = (λ s. (s, done reply))
  list_entries_plus limit maxcount dir i (name ∷ names) reply =
      if ltb i limit
      then (entry_plus dir i name reply >>= (λ longer.
          if ltb maxcount (length longer)
          then (λ s. (s, done longer))
          else list_entries_plus limit maxcount dir (i + 1) names longer))
      else (λ s. (s, done reply))

  -- The length is tested for 20 bytes, and 24 are read.
  unfoldable pub handle_read_dir_plus : RpcMessage → AuthContext → Handler F RpcMessage
  handle_read_dir_plus message context = do
    require (leb 20 (length message.payload))
    cookie ← word64 message.payload 8
    dircount ← word message.payload 16
    maxcount ← word message.payload 20
    target ← allowed_path message.payload context true false
    names ← directory_at target.1
    (let limit : ℕ = (cookie + (if ltb 0 dircount then dircount else 100)) % 2 ^ 64 in
        list_entries_plus limit maxcount target.1 cookie (drop cookie names) []
        >>= (λ entries. end_listing message names limit entries))
