-- ===== src/Nfs4/Changing.antt =====
-- The NFSv4 procedures of src/simple-nfsd/core/server_simple.cpp that change files and directories:
-- WRITE, CREATE, MKDIR, SYMLINK, MKNOD (which makes nothing), REMOVE, RMDIR, RENAME and LINK.
use simple_nfsd.Prelude.{ℕ, ◌+◌, Bool, true, false, List, [], ◌++◌, leb, length, if◌then◌else◌}
use simple_nfsd.Bytes.{bytes32, align4}
use simple_nfsd.Rpc.{RpcMessage}
use simple_nfsd.Auth.{AuthContext}
use simple_nfsd.Server.Xdr.{encode_nfsv4_handle}
use simple_nfsd.Nfs2.{
  Handler, ◌>>=◌, ◌>>◌, require, change, path_of, check_access, child, full_path,
}
use simple_nfsd.Nfs2.Changing.{reported}
use simple_nfsd.Nfs3.{bytes64, succeed}
use simple_nfsd.Nfs4.{
  Store, known_handle, checked_word, checked_word64, checked_text, granted_path, directory_entry,
  reply_handle,
}

module _ {F : Type 0} (store : Store F) where
  -- The stream is opened for reading and writing, and where that fails for writing.
  unfoldable pub write_at : List ℕ → ℕ → List ℕ → F → F × Bool
  write_at path offset bytes f =
      let first = store.write_existing f path offset bytes in
      if first.1 then first else store.write_new first.0 path offset bytes

  -- The data length stands behind handle, offset, count and stable.
  unfoldable pub handle_write : RpcMessage → AuthContext → Handler F RpcMessage
  handle_write message context = do
    require (leb 20 (length message.payload))
    target ← granted_path message.payload context false true
    offset ← checked_word64 message.payload target.1
    count ← checked_word message.payload (target.1 + 8)
    stable ← checked_word message.payload (target.1 + 12)
    bytes ← checked_text message.payload (align4 (target.1 + 16))
    full ← full_path target.2
    opened ← change (λ f. reported (write_at full offset bytes f))
    require opened
    succeed message (bytes64 0 ++ (bytes32 (length bytes) ++ bytes32 stable))

  -- Whether a file of the name exists is not asked: it is emptied.
  unfoldable pub handle_create : RpcMessage → AuthContext → Handler F RpcMessage
  handle_create message context = do
    entry ← directory_entry message.payload context false true
    full ← full_path (child entry.0 entry.1)
    opened ← change (λ f. reported (store.disk.files.create_file f full))
    require opened
    reply_handle message (child entry.0 entry.1)

  unfoldable pub handle_mk_dir : RpcMessage → AuthContext → Handler F RpcMessage
  handle_mk_dir message context = do
    entry ← directory_entry message.payload context false true
    full ← full_path (child entry.0 entry.1)
    success ← change (λ f. store.disk.files.create_directory f full)
    require success
    reply_handle message (child entry.0 entry.1)

  unfoldable pub handle_sym_link : RpcMessage → AuthContext → Handler F RpcMessage
  handle_sym_link message context = do
    require (leb 12 (length message.payload))
    dir ← known_handle message.payload 0
    path ← path_of dir.0
    name ← checked_text message.payload dir.1
    target ← checked_text message.payload (align4 (dir.1 + 4 + length name))
    check_access path context false true
    full ← full_path (child path name)
    change (λ f. store.disk.files.create_symlink f target full)
    reply_handle message (child path name)

  unfoldable pub handle_remove : RpcMessage → AuthContext → Handler F RpcMessage
  handle_remove message context = do
    entry ← directory_entry message.payload context false true
    full ← full_path (child entry.0 entry.1)
    removed ← change (λ f. store.disk.files.remove f full)
    require removed
    succeed message []

  -- The same calls as for REMOVE: what is removed may be a file.
  unfoldable pub handle_rm_dir : RpcMessage → AuthContext → Handler F RpcMessage
  handle_rm_dir message context = do
    entry ← directory_entry message.payload context false true
    full ← full_path (child entry.0 entry.1)
    removed ← change (λ f. store.disk.files.remove f full)
    require removed
    succeed message []

  unfoldable pub handle_rename : RpcMessage → AuthContext → Handler F RpcMessage
  handle_rename message context = do
    require (leb 16 (length message.payload))
    old_dir ← known_handle message.payload 0
    old_path ← path_of old_dir.0
    old_name ← checked_text message.payload old_dir.1
    new_dir ← known_handle message.payload (align4 (old_dir.1 + 4 + length old_name))
    new_path ← path_of new_dir.0
    new_name ← checked_text message.payload new_dir.1
    check_access old_path context false true
    check_access new_path context false true
    old_full ← full_path (child old_path old_name)
    new_full ← full_path (child new_path new_name)
    change (λ f. store.disk.files.rename f old_full new_full)
    succeed message []

  unfoldable pub handle_link : RpcMessage → AuthContext → Handler F RpcMessage
  handle_link message context = do
    require (leb 16 (length message.payload))
    file ← known_handle message.payload 0
    path ← path_of file.0
    dir ← known_handle message.payload file.1
    dir_path ← path_of dir.0
    name ← checked_text message.payload dir.1
    check_access path context true false
    check_access dir_path context false true
    source ← full_path path
    dest ← full_path (child dir_path name)
    change (λ f. store.disk.files.create_hard_link f source dest)
    succeed message []

-- A handle of 0 is replied.
unfoldable pub handle_mk_nod : {F : Type 0} → RpcMessage → AuthContext → Handler F RpcMessage
handle_mk_nod message context = do
  require (leb 8 (length message.payload))
  dir ← known_handle message.payload 0
  succeed message (encode_nfsv4_handle 0)
