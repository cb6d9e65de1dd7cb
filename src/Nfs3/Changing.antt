-- ===== src/Nfs3/Changing.antt =====
-- The NFSv3 procedures of src/simple-nfsd/core/server_simple.cpp that change files and directories:
-- WRITE, CREATE, MKDIR, SYMLINK, MKNOD (which makes nothing), REMOVE, RMDIR, RENAME and LINK.
use simple_nfsd.Prelude.{
  ℕ, ◌+◌, ◌%◌, ◌^◌, true, false, List, [], ◌++◌, leb, ◌==◌, if◌then◌else◌, length,
}
use simple_nfsd.Bytes.{bytes32, align4}
use simple_nfsd.Rpc.{RpcMessage}
use simple_nfsd.Auth.{AuthContext}
use simple_nfsd.Nfs2.{
  Handler, ◌>>=◌, ◌>>◌, require, ask, change, word, bytes_at, path_of, check_access, child,
  require_valid, full_path, handle_for,
}
use simple_nfsd.Nfs2.Reading.{regular_file}
use simple_nfsd.Nfs2.Changing.{reported, write_file, count_written, new_place}
use simple_nfsd.Nfs2.Links.{name_at}
use simple_nfsd.Nfs3.{Disk, bytes64, word64, handle_at, text_at, entry_named, attributes, succeed}
use simple_nfsd.Nfs3.Reading.{allowed_path, existing}

module _ {F : Type 0} (disk : Disk F) where
  -- The data stands at the offset 24.
  unfoldable pub handle_write : RpcMessage → AuthContext → Handler F RpcMessage
  handle_write message context = do
    require (leb 28 (length message.payload))
    offset ← word64 message.payload 8
    count ← word message.payload 16
    stable ← word message.payload 20
    require (leb ((24 + count) % 2 ^ 32) (length message.payload))
    bytes ← bytes_at message.payload 24 count
    target ← allowed_path message.payload context false true
    full ← regular_file disk.files target.1
    success ← change (λ f. reported (write_file disk.files full (offset % 2 ^ 32) bytes f))
    require success
    perms ← ask (λ f. disk.files.permissions f full)
    size ← ask (λ f. disk.files.file_size f full)
    count_written disk.files (length bytes)
    succeed message (
        attributes 1 perms 1 size target.0
        ++ (bytes32 (length bytes) ++ (bytes32 (if stable == 0 then 1 else 0) ++ bytes64 0)))

  -- The reply on a new file, directory or link: its handle, its attributes, and for those of the
  -- directory the same once more.
  unfoldable pub made : RpcMessage → List ℕ × List ℕ → ℕ → ℕ → ℕ → Handler F RpcMessage
  made message place type nlink size = do
    handle ← handle_for place.0
    perms ← ask (λ f. disk.files.permissions f place.1)
    succeed message (
        bytes64 handle
        ++ (attributes type perms nlink size handle ++ attributes type perms nlink size handle))

  unfoldable pub handle_create : RpcMessage → AuthContext → Handler F RpcMessage
  handle_create message context = do
    request ← entry_named message.payload
    place ← new_place disk.files request.0 request.1 context
    opened ← change (λ f. reported (disk.files.create_file f place.1))
    require opened
    made message place 1 1 0

  unfoldable pub handle_mk_dir : RpcMessage → AuthContext → Handler F RpcMessage
  handle_mk_dir message context = do
    request ← entry_named message.payload
    place ← new_place disk.files request.0 request.1 context
    success ← change (λ f. disk.files.create_directory f place.1)
    require success
    made message place 2 2 0

  unfoldable pub handle_sym_link : RpcMessage → AuthContext → Handler F RpcMessage
  handle_sym_link message context = do
    require (leb 20 (length message.payload))
    dir_handle ← handle_at message.payload 0
    link_name ← name_at message.payload 8 4
    target ← name_at message.payload (align4 (12 + length link_name)) 0
    place ← new_place disk.files dir_handle link_name context
    change (λ f. disk.files.create_symlink f target place.1)
    made message place 5 1 (length target)

  unfoldable pub handle_remove : RpcMessage → AuthContext → Handler F RpcMessage
  handle_remove message context = do
    request ← entry_named message.payload
    dir ← path_of request.0
    check_access dir context false true
    require_valid disk.files (child dir request.1)
    full ← regular_file disk.files (child dir request.1)
    removed ← change (λ f. disk.files.remove f full)
    require removed
    succeed message []

  unfoldable pub handle_rm_dir : RpcMessage → AuthContext → Handler F RpcMessage
  handle_rm_dir message context = do
    request ← entry_named message.payload
    dir ← path_of request.0
    check_access dir context false true
    require_valid disk.files (child dir request.1)
    full ← existing disk (child dir request.1)
    directory ← ask (λ f. disk.files.is_directory f full)
    require directory
    empty ← ask (λ f. disk.files.is_empty f full)
    require empty
    removed ← change (λ f. disk.files.remove f full)
    require removed
    succeed message []

  -- What stands at the new name is not asked.
  unfoldable pub handle_rename : RpcMessage → AuthContext → Handler F RpcMessage
  handle_rename message context = do
    require (leb 24 (length message.payload))
    src_handle ← handle_at message.payload 0
    src_name ← name_at message.payload 8 12
    dst_handle ← handle_at message.payload (align4 (12 + length src_name))
    dst_name ← name_at message.payload (align4 (12 + length src_name) + 8) 0
    src_dir ← path_of src_handle
    dst_dir ← path_of dst_handle
    check_access src_dir context false true
    check_access dst_dir context false true
    require_valid disk.files (child src_dir src_name)
    require_valid disk.files (child dst_dir dst_name)
    src_full ← existing disk (child src_dir src_name)
    dst_full ← full_path (child dst_dir dst_name)
    change (λ f. disk.files.rename f src_full dst_full)
    succeed message []

  unfoldable pub handle_link : RpcMessage → AuthContext → Handler F RpcMessage
  handle_link message context = do
    require (leb 24 (length message.payload))
    file_handle ← handle_at message.payload 0
    dir_handle ← handle_at message.payload 8
    link_name ← text_at message.payload 16
    path ← path_of file_handle
    dir ← path_of dir_handle
    check_access path context false true
    check_access dir context false true
    require_valid disk.files path
    require_valid disk.files (child dir link_name)
    src_full ← regular_file disk.files path
    dst_full ← full_path (child dir link_name)
    change (λ f. disk.files.create_hard_link f src_full dst_full)
    perms ← ask (λ f. disk.files.permissions f src_full)
    size ← ask (λ f. disk.files.file_size f src_full)
    succeed message (attributes 1 perms 2 size file_handle ++ attributes 1 perms 2 size file_handle)

-- No test at all stands before the reply.
unfoldable pub handle_mk_nod : {F : Type 0} → RpcMessage → AuthContext → Handler F RpcMessage
handle_mk_nod message context = succeed message []
