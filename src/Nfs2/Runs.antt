-- ===== src/Nfs2/Runs.antt =====
-- The theorems at concrete calls on a disk with one file.
use simple_nfsd.Prelude.{arith}
use simple_nfsd.Prelude.{
  ℕ, ◌-◌, ◌^◌, ◌≡◌, ◌⊎◌, ◌↔◌, refl, Bool, true, false, ◌||◌, List, [], ◌∷◌, ◌++◌, none, some,
  if◌then◌else◌, ◌==◌, map,
}
use simple_nfsd.Bytes.{ok, fault, bytes32, be32, read_uint32}
use simple_nfsd.Rpc.{RpcMessage, create_reply}
use simple_nfsd.Auth.{AuthContext, check_path_access}
use simple_nfsd.Map.{find, insert}
use simple_nfsd.Text.{codes, equal, starts_with}
use simple_nfsd.Server.Handles.{handle_of, get_handle_for_path, get_path_from_handle}
use simple_nfsd.Nfs2.{
  State, done, bytes_at, handle_for, count_failed, child, join, require, word, path_of,
  check_access, validate_path, require_valid, full_path, ask, reply_with,
}
use simple_nfsd.Nfs2.Samples.{
  is_root, is_file, extended, disk, new_server, server, user, message_for,
}
use simple_nfsd.Nfs2.Reading.{named, handle_lookup, handle_get_attr, handle_stat_fs}
use simple_nfsd.Nfs2.Calls.{handle_null, procedure, handle_nfsv2_call, run}
use simple_nfsd.Nfs2.Bootstrap.{null_reply, bare_reply, run-no_handles}
use simple_nfsd.Nfs2.Creation.{create, handle_nfsv2_call-Creates}
use simple_nfsd.Nfs2.Overruns.{Overruns, handle_nfsv2_call-Overruns}
use simple_nfsd.Nfs2.Attributes.{attributes, size_of}
use simple_nfsd.Nfs2.Lookup.{IsFound, handle_lookup-IsFound}
use simple_nfsd.Nfs2.Targets.{AllValid, targets}
use simple_nfsd.Nfs2.Guarded.{handle_nfsv2_call-guarded}

known_path :
    (b : Bool) (path target : List ℕ)
    → (if b then some path else none) ≡ some target
    → some b ≡ some true
known_path true path target e = refl
known_path false path target e = absurd (cc)

disk_canonical :
    (f path target : List ℕ) → disk.canonical f path ≡ some target → disk.exists f path ≡ some true
disk_canonical f path target e = known_path (is_root path || is_file path) path target e

appended :
    (b : Bool) (f old new : List ℕ)
    → (if b then some f else none) ≡ some old
    → (extended b f new).1 ≡ true
    → (if b then some (extended b f new).0 else none) ≡ some (old ++ new)
appended true f old new e w = let h : f ≡ old = cc in rw h refl
appended false f old new e w = absurd (cc)

disk_append :
    (f path old new : List ℕ)
    → disk.contents f path ≡ some old
    → (disk.append f path new).1 ≡ true
    → disk.contents (disk.append f path new).0 path ≡ some (old ++ new)
disk_append f path old new e w = appended (is_file path) f old new e w

-- A name of four bytes that says it has almost 2 ^ 32.
abbrev long_name : List ℕ
long_name = bytes32 1 ++ (bytes32 (2 ^ 32 - 4) ++ codes "name")

handle_nfsv2_call-Overruns_example :
    (handle_nfsv2_call disk (message_for 8 long_name) user server ≡ fault) ↔ Overruns long_name
handle_nfsv2_call-Overruns_example =
    handle_nfsv2_call-Overruns disk (message_for 8 long_name) user server refl

abbrev history : List (RpcMessage × AuthContext)
history = (message_for 0 [], user) ∷ (message_for 1 (bytes32 1), user) ∷ []

run-no_handles_example :
    (run disk history new_server ≡ fault)
    ⊎ ((t : State (List ℕ)) × (run disk history new_server ≡ ok (t, map bare_reply history))
        × (t.files ≡ new_server.files)
        × (t.handles ≡ new_server.handles))
run-no_handles_example = run-no_handles disk history new_server refl

abbrev create_message : RpcMessage
create_message = message_for 8 (bytes32 1 ++ (bytes32 1 ++ codes "b"))

handle_nfsv2_call-Creates_example :
    (handle_nfsv2_call disk create_message user server ≡ fault)
    ⊎ (handle_nfsv2_call disk create_message user server ≡ ok (count_failed server, none))
handle_nfsv2_call-Creates_example =
    handle_nfsv2_call-Creates disk disk_canonical create_message user server create

history_runs :
    run disk history new_server
    ≡ ok (count_failed new_server, some (null_reply (message_for 0 [])) ∷ none ∷ [])
unfolding run handle_nfsv2_call procedure handle_null reply_with handle_get_attr require word
    read_uint32 be32 path_of get_path_from_handle find
history_runs = refl

abbrev stat_message : RpcMessage
stat_message = message_for 16 (bytes32 1)

abbrev stat_reply : RpcMessage
stat_reply =
    create_reply 9 0
      (bytes32 1
        ++ (bytes32 512
            ++ (bytes32 7629
                ++ (bytes32 3814
                    ++ (bytes32 3814 ++ (bytes32 1000 ++ (bytes32 500 ++ bytes32 1)))))))
      (record { flavor = 0; body = [] })

stat_answered : handle_nfsv2_call disk stat_message user server ≡ ok (server, some stat_reply)
unfolding handle_nfsv2_call procedure handle_stat_fs require word read_uint32 be32 path_of
    get_path_from_handle find check_access check_path_access require_valid validate_path join child
    starts_with equal full_path ask reply_with
stat_answered = refl

handle_nfsv2_call-guarded_example :
    (user.authenticated ≡ true)
    × (((stat_message.header.proc == 1) ≡ true)
        ⊎ AllValid disk server (targets stat_message server))
handle_nfsv2_call-guarded_example =
    handle_nfsv2_call-guarded disk stat_message user server server stat_reply refl stat_answered

-- The root under an absolute path, and the file in it once it has been looked up.
abbrev root_server : State (List ℕ)
root_server = record new_server {
  handles = record { file_handles = (1, codes "/srv") ∷ []; next_handle_id = 2 };
}

abbrev file_server : State (List ℕ)
file_server = record new_server {
  handles = record {
    file_handles = (1, codes "/srv") ∷ (2, codes "/srv/a") ∷ [];
    next_handle_id = 3;
  };
}

abbrev lookup_message : RpcMessage
lookup_message = message_for 3 (bytes32 1 ++ (bytes32 1 ++ codes "a"))

abbrev lookup_reply : RpcMessage
lookup_reply =
    create_reply 9 0 (bytes32 2 ++ attributes 1 420 1 5 2) (record { flavor = 0; body = [] })

lookup_answered :
    handle_lookup disk lookup_message user root_server ≡ (file_server, done lookup_reply)
unfolding handle_lookup named require word bytes_at read_uint32 be32 path_of get_path_from_handle
    find check_access check_path_access require_valid validate_path join child starts_with equal
    full_path ask handle_for get_handle_for_path handle_of insert size_of reply_with
lookup_answered = refl

handle_lookup-IsFound_example :
    IsFound root_server lookup_message (codes "/srv/b" ∷ []) file_server lookup_reply
handle_lookup-IsFound_example =
    handle_lookup-IsFound disk lookup_message user (codes "/srv/b" ∷ []) root_server file_server
      lookup_reply ((tt, tt), (omega arith, tt)) (omega arith) lookup_answered
