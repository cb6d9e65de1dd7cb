-- ===== src/Nfs2/Links.antt =====
-- The NFSv2 procedures of src/simple-nfsd/core/server_simple.cpp on two paths: RENAME, LINK and
-- SYMLINK.
use simple_nfsd.Prelude.{ℕ, ◌+◌, true, false, not, List, [], leb, length}
use simple_nfsd.Rpc.{RpcMessage}
use simple_nfsd.Auth.{AuthContext}
use simple_nfsd.Nfs2.{
  Files, Handler, ◌>>=◌, ◌>>◌, require, ask, change, word, bytes_at, path_of, check_access, child,
  require_valid, full_path, reply_with,
}
use simple_nfsd.Nfs2.Changing.{new_place}

-- A length at the offset, behind which `more` bytes must follow the name, and the name.
unfoldable pub name_at : {F : Type 0} → List ℕ → ℕ → ℕ → Handler F (List ℕ)
name_at bytes offset more = do
  name_len ← word bytes offset
  require (leb (offset + 4 + name_len + more) (length bytes))
  bytes_at bytes (offset + 4) name_len

module _ {F : Type 0} (os : Files F) where
  unfoldable pub handle_rename : RpcMessage → AuthContext → Handler F RpcMessage
  handle_rename message context = do
    require (leb 16 (length message.payload))
    src_handle ← word message.payload 0
    src_name ← name_at message.payload 4 8
    dst_handle ← word message.payload (8 + length src_name)
    dst_name ← name_at message.payload (12 + length src_name) 0
    src_dir ← path_of src_handle
    dst_dir ← path_of dst_handle
    check_access src_dir context false true
    check_access dst_dir context false true
    require_valid os (child src_dir src_name)
    require_valid os (child dst_dir dst_name)
    src_full ← full_path (child src_dir src_name)
    src_found ← ask (λ f. os.exists f src_full)
    require src_found
    dst_full ← full_path (child dst_dir dst_name)
    dst_found ← ask (λ f. os.exists f dst_full)
    require (not dst_found)
    change (λ f. os.rename f src_full dst_full)
    reply_with message []

  unfoldable pub handle_link : RpcMessage → AuthContext → Handler F RpcMessage
  handle_link message context = do
    require (leb 16 (length message.payload))
    src_handle ← word message.payload 0
    dst_handle ← word message.payload 4
    dst_name ← name_at message.payload 8 0
    src_path ← path_of src_handle
    dst_dir ← path_of dst_handle
    check_access src_path context true false
    check_access dst_dir context false true
    require_valid os src_path
    require_valid os (child dst_dir dst_name)
    src_full ← full_path src_path
    src_found ← ask (λ f. os.exists f src_full)
    require src_found
    directory ← ask (λ f. os.is_directory f src_full)
    require (not directory)
    dst_full ← full_path (child dst_dir dst_name)
    dst_found ← ask (λ f. os.exists f dst_full)
    require (not dst_found)
    change (λ f. os.create_hard_link f src_full dst_full)
    reply_with message []

  unfoldable pub handle_sym_link : RpcMessage → AuthContext → Handler F RpcMessage
  handle_sym_link message context = do
    require (leb 16 (length message.payload))
    dst_handle ← word message.payload 0
    link_name ← name_at message.payload 4 4
    target ← name_at message.payload (8 + length link_name) 0
    place ← new_place os dst_handle link_name context
    change (λ f. os.create_symlink f target place.1)
    reply_with message []
