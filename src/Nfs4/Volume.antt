-- ===== src/Nfs4/Volume.antt =====
-- FSSTAT, FSINFO and PATHCONF of NFSv4, src/simple-nfsd/core/server_simple.cpp.
use simple_nfsd.Prelude.{ℕ, true, false, List, ◌++◌, leb, length}
use simple_nfsd.Bytes.{bytes32}
use simple_nfsd.Rpc.{RpcMessage}
use simple_nfsd.Auth.{AuthContext}
use simple_nfsd.Nfs2.{Handler, ◌>>=◌, ◌>>◌, require, ask, full_path}
use simple_nfsd.Nfs3.{Disk, succeed}
use simple_nfsd.Nfs3.Volume.{fs_stat, fs_info}
use simple_nfsd.Nfs4.{granted_path}

unfoldable pub path_conf : List ℕ
path_conf = bytes32 32767 ++ (bytes32 255 ++ (bytes32 1 ++ (bytes32 0 ++ (bytes32 0 ++ bytes32 1))))

unfoldable pub handle_fs_stat :
    {F : Type 0} → Disk F → RpcMessage → AuthContext → Handler F RpcMessage
handle_fs_stat disk message context = do
  require (leb 4 (length message.payload))
  target ← granted_path message.payload context true false
  full ← full_path target.2
  space ← ask (λ f. disk.space_info f full)
  succeed message (fs_stat space)

unfoldable pub handle_fs_info : {F : Type 0} → RpcMessage → AuthContext → Handler F RpcMessage
handle_fs_info message context = do
  require (leb 4 (length message.payload))
  target ← granted_path message.payload context true false
  succeed message fs_info

unfoldable pub handle_path_conf : {F : Type 0} → RpcMessage → AuthContext → Handler F RpcMessage
handle_path_conf message context = do
  require (leb 4 (length message.payload))
  target ← granted_path message.payload context true false
  succeed message path_conf
