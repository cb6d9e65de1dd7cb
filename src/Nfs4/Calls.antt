-- ===== src/Nfs4/Calls.antt =====
-- handleNfsv4Call of src/simple-nfsd/core/server_simple.cpp, and histories of its calls. `now` is the
-- time of the audit entry that SETACL writes.
use simple_nfsd.Prelude.{ℕ, List, [], ◌∷◌, Option, if◌then◌else◌, ◌==◌}
use simple_nfsd.Bytes.{Outcome, ok}
use simple_nfsd.Rpc.{RpcMessage}
use simple_nfsd.Auth.{AuthContext}
use simple_nfsd.Nfs2.{State, Handler, conclude}
use simple_nfsd.Nfs2.Calls.{unsupported, run_from}
use simple_nfsd.Nfs4.{Store}
use simple_nfsd.Nfs4.Reading.{
  handle_get_attr, handle_set_attr, handle_lookup, handle_access, handle_read_link, handle_read,
  handle_read_dir, handle_read_dir_plus, handle_commit,
}
use simple_nfsd.Nfs4.Changing.{
  handle_write, handle_create, handle_mk_dir, handle_sym_link, handle_mk_nod, handle_remove,
  handle_rm_dir, handle_rename, handle_link,
}
use simple_nfsd.Nfs4.Volume.{handle_fs_stat, handle_fs_info, handle_path_conf}
use simple_nfsd.Nfs4.Acls.{handle_get_acl, handle_set_acl}
use simple_nfsd.Nfs4.Sessions.{
  handle_null, handle_compound, handle_deleg_return, handle_fs_locations, handle_release_lock_owner,
  handle_sec_info, handle_fsid_present, handle_exchange_id, handle_create_session,
  handle_destroy_session, handle_sequence, handle_get_device_info, handle_bind_conn_to_session,
  handle_destroy_client_id, handle_reclaim_complete,
}

-- The cases 26 to 37 of the switch, and its default.
unfoldable pub session_procedure : {F : Type 0} → RpcMessage → Handler F RpcMessage
session_procedure message =
    let proc : ℕ = message.header.proc in
    if proc == 26
    then handle_fs_locations message
    else (if proc == 27
        then handle_release_lock_owner message
        else (if proc == 28
            then handle_sec_info message
            else (if proc == 29
                then handle_fsid_present message
                else (if proc == 30
                    then handle_exchange_id message
                    else (if proc == 31
                        then handle_create_session message
                        else (if proc == 32
                            then handle_destroy_session message
                            else (if proc == 33
                                then handle_sequence message
                                else (if proc == 34
                                    then handle_get_device_info message
                                    else (if proc == 35
                                        then handle_bind_conn_to_session message
                                        else (if proc == 36
                                            then handle_destroy_client_id message
                                            else (if proc == 37
                                                then handle_reclaim_complete message
                                                else (unsupported))))))))))))

module _ {F : Type 0} (store : Store F) (now : ℕ) where
  -- The cases 12 to 25.
  unfoldable pub later_procedure : RpcMessage → AuthContext → Handler F RpcMessage
  later_procedure message context =
      let proc : ℕ = message.header.proc in
      if proc == 12
      then handle_mk_nod message context
      else (if proc == 13
          then handle_remove store message context
          else (if proc == 14
              then handle_rm_dir store message context
              else (if proc == 15
                  then handle_rename store message context
                  else (if proc == 16
                      then handle_link store message context
                      else (if proc == 17
                          then handle_read_dir store.disk message context
                          else (if proc == 18
                              then handle_read_dir_plus store.disk message context
                              else (if proc == 19
                                  then handle_fs_stat store.disk message context
                                  else (if proc == 20
                                      then handle_fs_info message context
                                      else (if proc == 21
                                          then handle_path_conf message context
                                          else (if proc == 22
                                              then handle_commit store.disk message context
                                              else (if proc == 23
                                                  then handle_deleg_return message
                                                  else (if proc == 24
                                                      then handle_get_acl message context
                                                      else (if proc == 25
                                                          then handle_set_acl now message context
                                                          else (session_procedure
                                                            message))))))))))))))

  -- The switch on the procedure.
  unfoldable pub procedure : RpcMessage → AuthContext → Handler F RpcMessage
  procedure message context =
      let proc : ℕ = message.header.proc in
      if proc == 0
      then handle_null message
      else (if proc == 1
          then handle_compound message
          else (if proc == 2
              then handle_get_attr store.disk message context
              else (if proc == 3
                  then handle_set_attr store.disk message context
                  else (if proc == 4
                      then handle_lookup store.disk message context
                      else (if proc == 5
                          then handle_access message context
                          else (if proc == 6
                              then handle_read_link store.disk message context
                              else (if proc == 7
                                  then handle_read store.disk message context
                                  else (if proc == 8
                                      then handle_write store message context
                                      else (if proc == 9
                                          then handle_create store message context
                                          else (if proc == 10
                                              then handle_mk_dir store message context
                                              else (if proc == 11
                                                  then handle_sym_link store message context
                                                  else (later_procedure message context))))))))))))

  unfoldable pub handle_nfsv4_call :
      RpcMessage → AuthContext → State F → Outcome (State F × Option RpcMessage)
  handle_nfsv4_call message context s = conclude (procedure message context s)

-- Calls one after the other, each with its time, with the reply to each.
unfoldable pub run :
    {F : Type 0}
    → Store F
    → List (ℕ × RpcMessage × AuthContext)
    → State F
    → Outcome (State F × List (Option RpcMessage))
run store [] s = ok (s, [])
run store ((now, message, context) ∷ calls) s =
    run_from store.disk.files (run store calls) (handle_nfsv4_call store now message context s)
