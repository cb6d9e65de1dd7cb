-- ===== src/Nfs3/Reading.antt =====
-- The NFSv3 procedures of src/simple-nfsd/core/server_simple.cpp on one file or name that change
-- nothing on disk: GETATTR, SETATTR (which sets nothing), LOOKUP, ACCESS, READLINK, READ and COMMIT.
use simple_nfsd.Prelude.{
  ℕ, ◌+◌, ◌%◌, ◌^◌, Bool, true, false, ◌&&◌, List, ◌++◌, some, leb, if◌then◌else◌, length,
}
use simple_nfsd.Bytes.{bytes32}
use simple_nfsd.Rpc.{RpcMessage}
use simple_nfsd.Auth.{AuthContext, check_path_access}
use simple_nfsd.Server.Xdr.{push_padding}
use simple_nfsd.Nfs2.{
  Handler, done, ◌>>=◌, ◌>>◌, require, ask, word, path_of, check_access, child, require_valid,
  full_path, handle_for,
}
use simple_nfsd.Nfs2.Reading.{regular_file, read_file, count_read}
use simple_nfsd.Nfs3.{
  Disk, bytes64, word64, handle_at, entry_named, attributes, attributes_of, succeed,
}

-- The path of the handle that a message begins with, which the client may read or write.
unfoldable pub allowed_path :
    {F : Type 0} → List ℕ → AuthContext → Bool → Bool → Handler F (ℕ × List ℕ)
allowed_path bytes context read write = do
  handle ← handle_at bytes 0
  path ← path_of handle
  check_access path context read write
  (λ s. (s, done (handle, path)))

-- if (can_read) access_mask |= 0x01; if (can_write) access_mask |= 0x02; and 0x08, and 0x10
unfoldable pub access_mask : Bool → Bool → ℕ
access_mask can_read can_write = (if can_read then 1 else 0) + (if can_write then 2 + 8 + 16 else 0)

-- checkAccess as a value
unfoldable pub may : {F : Type 0} → List ℕ → AuthContext → Bool → Bool → Handler F Bool
may path context read write s =
    (s, done (s.has_auth_manager && check_path_access path context read write))

module _ {F : Type 0} (disk : Disk F) where
  -- The place of a path whose file exists.
  unfoldable pub existing : List ℕ → Handler F (List ℕ)
  existing path = do
    full ← full_path path
    found ← ask (λ f. disk.files.exists f full)
    require found
    (λ s. (s, done full))

  unfoldable pub handle_get_attr : RpcMessage → AuthContext → Handler F RpcMessage
  handle_get_attr message context = do
    require (leb 8 (length message.payload))
    target ← allowed_path message.payload context true false
    full ← existing target.1
    attrs ← attributes_of disk full target.0
    succeed message attrs

  -- The attributes in the message are not read.
  unfoldable pub handle_set_attr : RpcMessage → AuthContext → Handler F RpcMessage
  handle_set_attr message context = do
    require (leb 8 (length message.payload))
    target ← allowed_path message.payload context false true
    full ← existing target.1
    attrs ← attributes_of disk full target.0
    succeed message attrs

  -- The attributes of the directory are those of the file once more: the vector is appended to
  -- itself, which the GNU library carries out as a copy.
  unfoldable pub handle_lookup : RpcMessage → AuthContext → Handler F RpcMessage
  handle_lookup message context = do
    request ← entry_named message.payload
    dir ← path_of request.0
    check_access dir context true false
    require_valid disk.files (child dir request.1)
    full ← existing (child dir request.1)
    handle ← handle_for (child dir request.1)
    attrs ← attributes_of disk full handle
    succeed message (bytes64 handle ++ (attrs ++ attrs))

  -- The access asked for is read, and not used.
  unfoldable pub handle_access : RpcMessage → AuthContext → Handler F RpcMessage
  handle_access message context = do
    require (leb 12 (length message.payload))
    handle ← handle_at message.payload 0
    requested ← word message.payload 8
    path ← path_of handle
    full ← existing path
    can_read ← may path context true false
    can_write ← may path context false true
    attrs ← attributes_of disk full handle
    succeed message (attrs ++ bytes32 (access_mask can_read can_write))

  unfoldable pub handle_read_link : RpcMessage → AuthContext → Handler F RpcMessage
  handle_read_link message context = do
    require (leb 8 (length message.payload))
    target ← allowed_path message.payload context true false
    full ← existing target.1
    link ← ask (λ f. disk.is_symlink f full)
    require link
    text ← ask (λ f. disk.read_symlink f full)
    perms ← ask (λ f. disk.files.permissions f full)
    succeed message (
        push_padding
          (attributes 5 perms 1 (length text) target.0 ++ (bytes32 (length text) ++ text)))

  -- The offset is cut to 32 bits for the file, and whole for the test on its end.
  unfoldable pub handle_read : RpcMessage → AuthContext → Handler F RpcMessage
  handle_read message context = do
    require (leb 24 (length message.payload))
    offset ← word64 message.payload 8
    count ← word message.payload 16
    target ← allowed_path message.payload context true false
    full ← regular_file disk.files target.1
    size ← ask (λ f. disk.files.file_size f full)
    bytes ← ask (λ f. some (read_file disk.files full (offset % 2 ^ 32) count f))
    perms ← ask (λ f. disk.files.permissions f full)
    count_read disk.files (length bytes)
    succeed message (
        push_padding (
          attributes 1 perms 1 size target.0
          ++ (bytes32 (length bytes)
              ++ (bytes32 (if leb size ((offset + length bytes) % 2 ^ 64) then 1 else 0)
                  ++ bytes))))

  -- `exists(path) && is_regular_file(path)`, where nothing is done.
  unfoldable pub handle_commit : RpcMessage → AuthContext → Handler F RpcMessage
  handle_commit message context = do
    require (leb 24 (length message.payload))
    offset ← word64 message.payload 8
    count ← word message.payload 16
    target ← allowed_path message.payload context false true
    full ← full_path target.1
    found ← ask (λ f. disk.files.exists f full)
    (if found then ask (λ f. disk.files.is_regular_file f full) else (λ s. (s, done false)))
    succeed message (bytes64 0)
