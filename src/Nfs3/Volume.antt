-- ===== src/Nfs3/Volume.antt =====
-- FSSTAT, FSINFO and PATHCONF of NFSv3, src/simple-nfsd/core/server_simple.cpp.
use simple_nfsd.Prelude.{ℕ, ◌-◌, ◌^◌, true, false, List, ◌++◌, leb, length}
use simple_nfsd.Bytes.{bytes32}
use simple_nfsd.Rpc.{RpcMessage}
use simple_nfsd.Auth.{AuthContext}
use simple_nfsd.Nfs2.{Handler, ◌>>=◌, ◌>>◌, require, ask, full_path}
use simple_nfsd.Nfs2.Attributes.{swap32}
use simple_nfsd.Nfs3.{Disk, bytes64, attributes_of, succeed}
use simple_nfsd.Nfs3.Reading.{allowed_path}

-- The sizes of the disk; the numbers of files are fixed.
unfoldable pub fs_stat : ℕ × ℕ × ℕ → List ℕ
fs_stat (capacity, free, available) =
    bytes64 capacity
    ++ (bytes64 free
        ++ (bytes64 available ++ (bytes64 1000 ++ (bytes64 500 ++ (bytes64 500 ++ bytes32 1)))))

-- The transfer sizes, the largest file, the time step and the properties.
unfoldable pub fs_info : List ℕ
fs_info =
    bytes32 1048576
    ++ (bytes32 1048576
        ++ (bytes32 512
            ++ (bytes32 1048576
                ++ (bytes32 1048576
                    ++ (bytes32 512
                        ++ (bytes32 1048576
                            ++ (bytes64 (2 ^ 63 - 1)
                                ++ (bytes64 0 ++ (bytes64 1 ++ bytes32 1)))))))))

-- no_trunc goes through htonl twice.
unfoldable pub path_conf : List ℕ
path_conf =
    bytes32 32767
    ++ (bytes32 255 ++ (bytes32 (swap32 1) ++ (bytes32 0 ++ (bytes32 0 ++ bytes32 1))))

module _ {F : Type 0} (disk : Disk F) where
  unfoldable pub handle_fs_stat : RpcMessage → AuthContext → Handler F RpcMessage
  handle_fs_stat message context = do
    require (leb 8 (length message.payload))
    target ← allowed_path message.payload context true false
    full ← full_path target.1
    space ← ask (λ f. disk.space_info f full)
    attrs ← attributes_of disk full target.0
    succeed message (attrs ++ fs_stat space)

  unfoldable pub handle_fs_info : RpcMessage → AuthContext → Handler F RpcMessage
  handle_fs_info message context = do
    require (leb 8 (length message.payload))
    target ← allowed_path message.payload context true false
    full ← full_path target.1
    attrs ← attributes_of disk full target.0
    succeed message (attrs ++ fs_info)

  unfoldable pub handle_path_conf : RpcMessage → AuthContext → Handler F RpcMessage
  handle_path_conf message context = do
    require (leb 8 (length message.payload))
    target ← allowed_path message.payload context true false
    full ← full_path target.1
    attrs ← attributes_of disk full target.0
    succeed message (attrs ++ path_conf)
