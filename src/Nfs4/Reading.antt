-- ===== src/Nfs4/Reading.antt =====
-- The NFSv4 procedures of src/simple-nfsd/core/server_simple.cpp that read: GETATTR, SETATTR (which
-- sets nothing), LOOKUP, ACCESS, READLINK, READ, READDIR, READDIRPLUS and COMMIT.
use simple_nfsd.Prelude.{
  ℕ, ◌+◌, ◌-◌, ◌%◌, ◌^◌, Bool, true, false, List, [], ◌++◌, leb, if◌then◌else◌, length, take, drop,
}
use Prim.Native.Nat.{bit_and}
use simple_nfsd.Bytes.{bytes32}
use simple_nfsd.Rpc.{RpcMessage}
use simple_nfsd.Auth.{AuthContext}
use simple_nfsd.Server.Xdr.{push_padding}
use simple_nfsd.Nfs2.{Handler, done, ◌>>=◌, ◌>>◌, require, ask, path_of, child, full_path}
use simple_nfsd.Nfs3.{Disk, bytes64, size_of, succeed}
use simple_nfsd.Nfs3.Reading.{may, existing}
use simple_nfsd.Nfs3.Listing.{list_entries, directory_at}
use simple_nfsd.Nfs4.{
  known_handle, checked_word, checked_word64, granted_path, directory_entry, reply_handle,
}

-- READ and LOOKUP for a reader, MODIFY, EXTEND and DELETE for a writer, EXECUTE for a reader.
unfoldable pub access_rights : Bool → Bool → Bool → ℕ
access_rights can_read can_write can_execute =
    (if can_read then 1 + 2 else 0)
    + ((if can_write then 4 + 8 + 16 else 0) + (if can_execute then 32 else 0))

module _ {F : Type 0} (disk : Disk F) where
  unfoldable pub link_or_file : List ℕ → Handler F ℕ
  link_or_file path = do
    link ← ask (λ f. disk.is_symlink f path)
    (λ s. (s, done (if link then 4 else 1)))

  -- NF4DIR, NF4LNK or NF4REG
  unfoldable pub type_of : List ℕ → Handler F ℕ
  type_of path = do
    directory ← ask (λ f. disk.files.is_directory f path)
    if directory then (λ s. (s, done 2)) else link_or_file path

  unfoldable pub handle_get_attr : RpcMessage → AuthContext → Handler F RpcMessage
  handle_get_attr message context = do
    require (leb 4 (length message.payload))
    target ← granted_path message.payload context true false
    full ← existing disk target.2
    perms ← ask (λ f. disk.files.permissions f full)
    size ← size_of disk full
    type ← type_of full
    succeed message (
        bytes32 (2 ^ 32 - 1)
        ++ (bytes32 type ++ (bytes32 (bit_and perms 511) ++ (bytes64 size ++ bytes64 target.0))))

  -- The attributes in the message are not read.
  unfoldable pub handle_set_attr : RpcMessage → AuthContext → Handler F RpcMessage
  handle_set_attr message context = do
    require (leb 8 (length message.payload))
    target ← granted_path message.payload context false true
    full ← full_path target.2
    type ← type_of full
    succeed message (bytes32 (2 ^ 32 - 1) ++ bytes32 type)

  unfoldable pub handle_lookup : RpcMessage → AuthContext → Handler F RpcMessage
  handle_lookup message context = do
    entry ← directory_entry message.payload context true false
    full ← existing disk (child entry.0 entry.1)
    reply_handle message (child entry.0 entry.1)

  unfoldable pub handle_read_link : RpcMessage → AuthContext → Handler F RpcMessage
  handle_read_link message context = do
    require (leb 4 (length message.payload))
    target ← granted_path message.payload context true false
    full ← full_path target.2
    link ← ask (λ f. disk.is_symlink f full)
    require link
    text ← ask (λ f. disk.read_symlink f full)
    succeed message (push_padding (bytes32 (length text) ++ text))

  -- What the file holds from the offset on; the file must open.
  unfoldable pub handle_read : RpcMessage → AuthContext → Handler F RpcMessage
  handle_read message context = do
    require (leb 20 (length message.payload))
    target ← granted_path message.payload context true false
    offset ← checked_word64 message.payload target.1
    count ← checked_word message.payload (target.1 + 8)
    full ← full_path target.2
    regular ← ask (λ f. disk.files.is_regular_file f full)
    require regular
    bytes ← ask (λ f. disk.files.contents f full)
    size ← ask (λ f. disk.files.file_size f full)
    (let part : List ℕ = take count (drop offset bytes) in
        succeed message (
          push_padding (
            bytes32 (if leb size ((offset + length part) % 2 ^ 64) then 1 else 0)
            ++ (bytes32 (length part) ++ part))))

  unfoldable pub handle_read_dir : RpcMessage → AuthContext → Handler F RpcMessage
  handle_read_dir message context = do
    require (leb 20 (length message.payload))
    target ← granted_path message.payload context true false
    cookie ← checked_word64 message.payload target.1
    count ← checked_word message.payload (target.1 + 8)
    names ← directory_at disk target.2
    (let limit : ℕ = (cookie + 100) % 2 ^ 64 in
        succeed message (
          list_entries limit count cookie (drop cookie names) []
          ++ bytes32 (if leb (length names) limit then 1 else 0)))

  unfoldable pub handle_read_dir_plus : RpcMessage → AuthContext → Handler F RpcMessage
  handle_read_dir_plus message context = handle_read_dir message context

  -- `exists(path) && is_regular_file(path)`, where nothing is done.
  unfoldable pub handle_commit : RpcMessage → AuthContext → Handler F RpcMessage
  handle_commit message context = do
    require (leb 20 (length message.payload))
    target ← granted_path message.payload context false true
    offset ← checked_word64 message.payload target.1
    count ← checked_word message.payload (target.1 + 8)
    full ← full_path target.2
    found ← ask (λ f. disk.files.exists f full)
    (if found then ask (λ f. disk.files.is_regular_file f full) else (λ s. (s, done false)))
    succeed message (bytes64 0)

-- What is asked for is read, and not used; EXECUTE stands outside the mask of what is supported.
unfoldable pub handle_access : {F : Type 0} → RpcMessage → AuthContext → Handler F RpcMessage
handle_access message context = do
  require (leb 8 (length message.payload))
  handle ← known_handle message.payload 0
  path ← path_of handle.0
  requested ← checked_word message.payload handle.1
  can_read ← may path context true false
  can_write ← may path context false true
  can_execute ← may path context true false
  succeed message (bytes32 31 ++ bytes32 (access_rights can_read can_write can_execute))
