-- ===== src/Nfs2/Changing.antt =====
-- The NFSv2 procedures of src/simple-nfsd/core/server_simple.cpp that change files and directories:
-- WRITE, SETATTR, CREATE, MKDIR, RMDIR and REMOVE.
use simple_nfsd.Prelude.{
  ℕ, ◌+◌, ◌%◌, ◌^◌, Bool, true, false, not, List, [], ◌++◌, Option, some, leb, length,
}
use simple_nfsd.Bytes.{bytes32}
use simple_nfsd.Rpc.{RpcMessage}
use simple_nfsd.Auth.{AuthContext}
use simple_nfsd.Nfs2.{
  Files, Handler, done, ◌>>=◌, ◌>>◌, require, ask, change, word, bytes_at, path_of, check_access,
  child, require_valid, full_path, handle_for, reply_with,
}
use simple_nfsd.Nfs2.Attributes.{attributes, type_of, size_of}
use simple_nfsd.Nfs2.Reading.{named, regular_file}

-- A call that answers whether it worked.
abbrev pub reported : {F : Type 0} → F × Bool → F × Option Bool
reported (f, worked) = (f, some worked)

module _ {F : Type 0} (os : Files F) where
  -- writeFile: the stream is opened with std::ios::app, so that the offset it seeks to is not used.
  unfoldable pub write_file : List ℕ → ℕ → List ℕ → F → F × Bool
  write_file path offset bytes f = os.append f path bytes

  -- bytes_written_ += n
  unfoldable pub count_written : ℕ → Handler F (Unit {0})
  count_written n s = (record s { bytes_written = (s.bytes_written + n) % 2 ^ 64 }, done tt)

  unfoldable pub handle_write : RpcMessage → AuthContext → Handler F RpcMessage
  handle_write message context = do
    require (leb 12 (length message.payload))
    handle ← word message.payload 0
    offset ← word message.payload 4
    data_count ← word message.payload 8
    require (leb ((12 + data_count) % 2 ^ 32) (length message.payload))
    bytes ← bytes_at message.payload 12 data_count
    path ← path_of handle
    check_access path context false true
    require_valid os path
    full ← regular_file os path
    success ← change (λ f. reported (write_file full offset bytes f))
    require success
    size ← ask (λ f. os.file_size f full)
    count_written (length bytes)
    reply_with message (attributes 1 420 1 (size % 2 ^ 32) handle ++ bytes32 (length bytes))

  unfoldable pub handle_set_attr : RpcMessage → AuthContext → Handler F RpcMessage
  handle_set_attr message context = do
    require (leb 8 (length message.payload))
    handle ← word message.payload 0
    requested ← word message.payload 4
    path ← path_of handle
    check_access path context false true
    require_valid os path
    full ← full_path path
    found ← ask (λ f. os.exists f full)
    require found
    change (λ f. os.touch f full)
    directory ← ask (λ f. os.is_directory f full)
    size ← size_of os full
    reply_with message (attributes (type_of directory) 420 1 size handle)

  -- The place of a new entry: the directory of the handle may be written, the path is valid, and
  -- nothing stands there.
  unfoldable pub new_place : ℕ → List ℕ → AuthContext → Handler F (List ℕ × List ℕ)
  new_place handle name context = do
    dir ← path_of handle
    check_access dir context false true
    require_valid os (child dir name)
    full ← full_path (child dir name)
    found ← ask (λ f. os.exists f full)
    require (not found)
    (λ s. (s, done (child dir name, full)))

  unfoldable pub handle_create : RpcMessage → AuthContext → Handler F RpcMessage
  handle_create message context = do
    request ← named message.payload
    place ← new_place request.0 request.1 context
    opened ← change (λ f. reported (os.create_file f place.1))
    require opened
    handle ← handle_for place.0
    reply_with message (bytes32 handle ++ attributes 1 420 1 0 handle)

  unfoldable pub handle_mk_dir : RpcMessage → AuthContext → Handler F RpcMessage
  handle_mk_dir message context = do
    request ← named message.payload
    place ← new_place request.0 request.1 context
    made ← change (λ f. os.create_directory f place.1)
    require made
    handle ← handle_for place.0
    reply_with message (bytes32 handle ++ attributes 2 493 2 0 handle)

  unfoldable pub handle_rm_dir : RpcMessage → AuthContext → Handler F RpcMessage
  handle_rm_dir message context = do
    require (leb 4 (length message.payload))
    handle ← word message.payload 0
    dir ← path_of handle
    check_access dir context false true
    require_valid os dir
    full ← full_path dir
    found ← ask (λ f. os.exists f full)
    require found
    directory ← ask (λ f. os.is_directory f full)
    require directory
    empty ← ask (λ f. os.is_empty f full)
    require empty
    removed ← change (λ f. os.remove f full)
    require removed
    reply_with message []

  unfoldable pub handle_remove : RpcMessage → AuthContext → Handler F RpcMessage
  handle_remove message context = do
    request ← named message.payload
    dir ← path_of request.0
    check_access dir context false true
    require_valid os (child dir request.1)
    full ← full_path (child dir request.1)
    found ← ask (λ f. os.exists f full)
    require found
    directory ← ask (λ f. os.is_directory f full)
    require (not directory)
    removed ← change (λ f. os.remove f full)
    require removed
    reply_with message []
