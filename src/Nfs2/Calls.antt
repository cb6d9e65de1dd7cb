-- ===== src/Nfs2/Calls.antt =====
-- handleNfsv2Call of src/simple-nfsd/core/server_simple.cpp, and histories of its calls.
use simple_nfsd.Prelude.{List, [], ◌∷◌, Option, if◌then◌else◌, ◌==◌}
use simple_nfsd.Bytes.{Outcome, ok, thrown, fault}
use simple_nfsd.Rpc.{RpcMessage}
use simple_nfsd.Auth.{AuthContext}
use simple_nfsd.Nfs2.{Files, State, Handler, fails, conclude, reply_with}
use simple_nfsd.Nfs2.Reading.{
  handle_get_attr, handle_lookup, handle_read, handle_read_dir, handle_stat_fs,
}
use simple_nfsd.Nfs2.Changing.{
  handle_write, handle_set_attr, handle_create, handle_mk_dir, handle_rm_dir, handle_remove,
}
use simple_nfsd.Nfs2.Links.{handle_rename, handle_link, handle_sym_link}

unfoldable pub handle_null : {F : Type 0} → RpcMessage → Handler F RpcMessage
handle_null message = reply_with message []

-- `default:`
unfoldable pub unsupported : {F : Type 0} → Handler F RpcMessage
unsupported s = (s, fails)

module _ {F : Type 0} (os : Files F) where
  unfoldable pub procedure : RpcMessage → AuthContext → Handler F RpcMessage
  procedure message context =
      let proc = message.header.proc in
      if proc == 0
      then handle_null message
      else (if proc == 1
          then handle_get_attr os message context
          else (if proc == 2
              then handle_set_attr os message context
              else (if proc == 3
                  then handle_lookup os message context
                  else (if proc == 4
                      then handle_link os message context
                      else (if proc == 5
                          then handle_read os message context
                          else (if proc == 6
                              then handle_sym_link os message context
                              else (if proc == 7
                                  then handle_write os message context
                                  else (if proc == 8
                                      then handle_create os message context
                                      else (if proc == 9
                                          then handle_mk_dir os message context
                                          else (if proc == 10
                                              then handle_rm_dir os message context
                                              else (if proc == 11
                                                  then handle_remove os message context
                                                  else (if proc == 12
                                                      then handle_rename os message context
                                                      else (if proc == 15
                                                          then handle_read_dir os message context
                                                          else (if proc == 16
                                                            then handle_stat_fs os message context
                                                            else unsupported))))))))))))))

  unfoldable pub handle_nfsv2_call :
      RpcMessage → AuthContext → State F → Outcome (State F × Option RpcMessage)
  handle_nfsv2_call message context s = conclude (procedure message context s)

  abbrev pub and_reply :
      Option RpcMessage
      → Outcome (State F × List (Option RpcMessage))
      → Outcome (State F × List (Option RpcMessage))
  and_reply reply (ok (s, replies)) = ok (s, reply ∷ replies)
  and_reply reply (thrown e) = thrown e
  and_reply reply fault = fault

  abbrev pub run_from :
      (State F → Outcome (State F × List (Option RpcMessage)))
      → Outcome (State F × Option RpcMessage)
      → Outcome (State F × List (Option RpcMessage))
  run_from rest (ok (s, reply)) = and_reply reply (rest s)
  run_from rest (thrown e) = thrown e
  run_from rest fault = fault

  -- Calls one after the other, with the reply to each.
  unfoldable pub run :
      List (RpcMessage × AuthContext) → State F → Outcome (State F × List (Option RpcMessage))
  run [] s = ok (s, [])
  run ((message, context) ∷ calls) s = run_from (run calls) (handle_nfsv2_call message context s)
