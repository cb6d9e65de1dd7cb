-- ===== src/Nfs4/Sessions.antt =====
-- The NFSv4 procedures of src/simple-nfsd/core/server_simple.cpp that reply the same to any client:
-- NULL, COMPOUND, which carries out no operation, FS_LOCATIONS, SECINFO, and those on sessions,
-- delegations and devices.
use simple_nfsd.Prelude.{[], ◌++◌, leb, length}
use simple_nfsd.Bytes.{bytes32}
use simple_nfsd.Rpc.{RpcMessage}
use simple_nfsd.Nfs2.{Handler, ◌>>=◌, ◌>>◌, require}
use simple_nfsd.Nfs3.{bytes64, succeed}
use simple_nfsd.Nfs4.{known_handle}

module _ {F : Type 0} (message : RpcMessage) where
  unfoldable pub handle_null : Handler F RpcMessage
  handle_null = succeed message []

  unfoldable pub handle_compound : Handler F RpcMessage
  handle_compound = do require (leb 4 (length message.payload)); succeed message (bytes32 0)

  unfoldable pub handle_fs_locations : Handler F RpcMessage
  handle_fs_locations = do
    require (leb 4 (length message.payload))
    handle ← known_handle message.payload 0
    succeed message (bytes32 0)

  unfoldable pub handle_sec_info : Handler F RpcMessage
  handle_sec_info = do
    require (leb 8 (length message.payload))
    succeed message (bytes32 1 ++ bytes32 1)

  unfoldable pub handle_deleg_return : Handler F RpcMessage
  handle_deleg_return = succeed message []

  unfoldable pub handle_release_lock_owner : Handler F RpcMessage
  handle_release_lock_owner = succeed message []

  unfoldable pub handle_fsid_present : Handler F RpcMessage
  handle_fsid_present = succeed message (bytes32 1)

  unfoldable pub handle_exchange_id : Handler F RpcMessage
  handle_exchange_id = succeed message (bytes64 1 ++ bytes64 1)

  unfoldable pub handle_create_session : Handler F RpcMessage
  handle_create_session = succeed message (bytes64 1)

  unfoldable pub handle_destroy_session : Handler F RpcMessage
  handle_destroy_session = succeed message []

  unfoldable pub handle_sequence : Handler F RpcMessage
  handle_sequence = succeed message (bytes32 1)

  unfoldable pub handle_get_device_info : Handler F RpcMessage
  handle_get_device_info = succeed message (bytes32 0)

  unfoldable pub handle_bind_conn_to_session : Handler F RpcMessage
  handle_bind_conn_to_session = succeed message []

  unfoldable pub handle_destroy_client_id : Handler F RpcMessage
  handle_destroy_client_id = succeed message []

  unfoldable pub handle_reclaim_complete : Handler F RpcMessage
  handle_reclaim_complete = succeed message []
