-- ===== src/Nfs3/Calls.antt =====
-- handleNfsv3Call of src/simple-nfsd/core/server_simple.cpp, and histories of its calls.
use simple_nfsd.Prelude.{◌+◌, ◌%◌, ◌^◌, ℕ, List, [], ◌∷◌, Option, if◌then◌else◌, ◌==◌}
use simple_nfsd.Bytes.{Outcome, ok, thrown, fault}
use simple_nfsd.Rpc.{RpcMessage}
use simple_nfsd.Auth.{AuthContext}
use simple_nfsd.Nfs2.{State, Handler, conclude}
use simple_nfsd.Nfs2.Calls.{handle_null, unsupported, run_from}
use simple_nfsd.Nfs3.{Disk}
use simple_nfsd.Nfs3.Reading.{
  handle_get_attr, handle_set_attr, handle_lookup, handle_access, handle_read_link, handle_read,
  handle_commit,
}
use simple_nfsd.Nfs3.Changing.{
  handle_write, handle_create, handle_mk_dir, handle_sym_link, handle_mk_nod, handle_remove,
  handle_rm_dir, handle_rename, handle_link,
}
use simple_nfsd.Nfs3.Listing.{handle_read_dir, handle_read_dir_plus}
use simple_nfsd.Nfs3.Volume.{handle_fs_stat, handle_fs_info, handle_path_conf}

module _ {F : Type 0} (disk : Disk F) where
  -- The cases 11 to 21 of the switch, and its default.
  unfoldable pub later_procedure : RpcMessage → AuthContext → Handler F RpcMessage
  later_procedure message context =
      let proc : ℕ = message.header.proc in
      if proc == 11
      then handle_mk_nod message context
      else (if proc == 12
          then handle_remove disk message context
          else (if proc == 13
              then handle_rm_dir disk message context
              else (if proc == 14
                  then handle_rename disk message context
                  else (if proc == 15
                      then handle_link disk message context
                      else (if proc == 16
                          then handle_read_dir disk message context
                          else (if proc == 17
                              then handle_read_dir_plus disk message context
                              else (if proc == 18
                                  then handle_fs_stat disk message context
                                  else (if proc == 19
                                      then handle_fs_info disk message context
                                      else (if proc == 20
                                          then handle_path_conf disk message context
                                          else (if proc == 21
                                              then handle_commit disk message context
                                              else (unsupported)))))))))))

  -- The switch on the procedure.
  unfoldable pub procedure : RpcMessage → AuthContext → Handler F RpcMessage
  procedure message context =
      let proc : ℕ = message.header.proc in
      if proc == 0
      then handle_null message
      else (if proc == 1
          then handle_get_attr disk message context
          else (if proc == 2
              then handle_set_attr disk message context
              else (if proc == 3
                  then handle_lookup disk message context
                  else (if proc == 4
                      then handle_access disk message context
                      else (if proc == 5
                          then handle_read_link disk message context
                          else (if proc == 6
                              then handle_read disk message context
                              else (if proc == 7
                                  then handle_write disk message context
                                  else (if proc == 8
                                      then handle_create disk message context
                                      else (if proc == 9
                                          then handle_mk_dir disk message context
                                          else (if proc == 10
                                              then handle_sym_link disk message context
                                              else (later_procedure message context)))))))))))

  unfoldable pub handle_nfsv3_call :
      RpcMessage → AuthContext → State F → Outcome (State F × Option RpcMessage)
  handle_nfsv3_call message context s = conclude (procedure message context s)

  -- `successful_requests_++` of handleRpcCall, behind a call that comes to its end. The procedures
  -- catch their own exceptions, so that none gets here.
  unfoldable pub count_served :
      Outcome (State F × Option RpcMessage) → Outcome (State F × Option RpcMessage)
  count_served (ok (s, reply)) =
      ok (record s { successful_requests = (s.successful_requests + 1) % 2 ^ 64 }, reply)
  count_served (thrown e) = thrown e
  count_served fault = fault

  -- What handleRpcCall does with a call of version 3.
  unfoldable pub serve_nfsv3 :
      RpcMessage → AuthContext → State F → Outcome (State F × Option RpcMessage)
  serve_nfsv3 message context s = count_served (handle_nfsv3_call message context s)

  -- Calls served one after the other, with the reply to each.
  unfoldable pub serve_calls :
      List (RpcMessage × AuthContext) → State F → Outcome (State F × List (Option RpcMessage))
  serve_calls [] s = ok (s, [])
  serve_calls ((message, context) ∷ calls) s =
      run_from disk.files (serve_calls calls) (serve_nfsv3 message context s)

  -- Calls one after the other, with the reply to each.
  unfoldable pub run :
      List (RpcMessage × AuthContext) → State F → Outcome (State F × List (Option RpcMessage))
  run [] s = ok (s, [])
  run ((message, context) ∷ calls) s =
      run_from disk.files (run calls) (handle_nfsv3_call message context s)
