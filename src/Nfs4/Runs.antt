-- ===== src/Nfs4/Runs.antt =====
-- The theorems at concrete calls on a disk with one file.
use simple_nfsd.Prelude.{
  ℕ, ◌≡◌, refl, true, false, List, [], ◌∷◌, ◌++◌, none, some, length, map, arith,
}
use simple_nfsd.Bytes.{ok, bytes32, be32, read_uint32, align4}
use simple_nfsd.Rpc.{RpcMessage, create_reply}
use simple_nfsd.Auth.{AuthContext, check_path_access}
use simple_nfsd.Map.{find}
use simple_nfsd.Text.{codes, to_string, digits, stoul}
use simple_nfsd.Acl.{AclEntry}
use simple_nfsd.Security.Access.{empty_acl}
use simple_nfsd.Server.Handles.{get_path_from_handle}
use simple_nfsd.Server.Xdr.{decode_nfsv4_handle, encode_nfsv4_handle}
use simple_nfsd.Nfs2.{State, done, child, require, path_of, check_access, reply_with}
use simple_nfsd.Nfs2.Samples.{disk, new_server, user, message_for}
use simple_nfsd.Nfs3.{Disk, count_successful, succeed}
use simple_nfsd.Nfs4.{Store, granted_path, known_handle, decoded}
use simple_nfsd.Nfs4.Reading.{handle_lookup, handle_get_attr}
use simple_nfsd.Nfs4.Sessions.{handle_compound}
use simple_nfsd.Nfs4.Acls.{who, push_acl, read_acl}
use simple_nfsd.Nfs4.Calls.{procedure, handle_nfsv4_call, run}
use simple_nfsd.Nfs4.Anonymous.{run-harmless}
use simple_nfsd.Nfs4.AclForm.{sent, read_acl-push_acl}
use simple_nfsd.Nfs4.Traversal.{handle_lookup-answers}

-- A disk where something stands under every path.
abbrev wide : Disk (List ℕ)
wide = record {
  files = record disk { exists = λ f p. some true };
  is_symlink = λ f p. some false;
  read_symlink = λ f p. none;
  space_info = λ f p. some (1_000_000_000, 600_000_000, 500_000_000);
  beyond_flag = λ f. 0 ∷ 0 ∷ 0 ∷ 0 ∷ [];
}

abbrev store : Store (List ℕ)
store = record {
  disk = wide;
  write_existing = λ f p o b. (f, false);
  write_new = λ f p o b. (b, true);
}

abbrev exporting : State (List ℕ)
exporting = record new_server {
  handles = record { file_handles = (1, codes "/srv") ∷ []; next_handle_id = 2 };
}

-- A name that leads out of the exported tree.
abbrev upwards : List ℕ
upwards = codes "../etc/passwd"

abbrev escape : RpcMessage
escape =
    message_for 4 (encode_nfsv4_handle 1 ++ (bytes32 (length upwards) ++ (upwards ++ (0 ∷ 0 ∷ []))))

handle_lookup-answers_example :
    (t : State (List ℕ)) × (r : RpcMessage) × (answer : ℕ) × (handle_lookup wide escape user
        exporting
      ≡ (t, done r))
    × (r.payload ≡ encode_nfsv4_handle answer)
    × (get_path_from_handle answer t.handles ≡ child (codes "/srv") upwards)
unfolding check_path_access get_path_from_handle find
handle_lookup-answers_example =
    handle_lookup-answers wide escape user exporting 1 upwards (0 ∷ 0 ∷ []) (codes "/srv") (tt, tt)
      (omega arith, omega arith, refl) refl refl refl refl refl

abbrev stranger : AuthContext
stranger = record user { authenticated = false }

-- A stranger sends an empty COMPOUND, and asks for attributes.
abbrev calls : List (ℕ × RpcMessage × AuthContext)
calls =
    (5, message_for 1 (bytes32 0), stranger)
    ∷ (6, message_for 2 (encode_nfsv4_handle 1), stranger)
    ∷ []

abbrev after_calls : State (List ℕ)
after_calls = record exporting { successful_requests = 1; failed_requests = 1 }

abbrev compound_reply : RpcMessage
compound_reply = create_reply 9 0 (bytes32 0) (record { flavor = 0; body = [] })

both_answered : run store calls exporting ≡ ok (after_calls, some compound_reply ∷ none ∷ [])
unfolding run handle_nfsv4_call procedure handle_compound handle_get_attr succeed count_successful
    reply_with require granted_path known_handle decoded decode_nfsv4_handle encode_nfsv4_handle
    read_uint32 be32 align4 path_of get_path_from_handle find check_access check_path_access
both_answered = refl

run-harmless_example :
    (after_calls.files ≡ exporting.files)
    × (after_calls.handles ≡ exporting.handles)
    × (after_calls.security ≡ exporting.security)
run-harmless_example =
    run-harmless store calls exporting after_calls _ (refl, (refl, tt)) both_answered

-- The id of an entry with a name is not sent: alice becomes uid 0.
abbrev entries : List AclEntry
entries =
    (record { type = 1; id = 1000; permissions = 4; name = codes "alice" })
    ∷ (record { type = 2; id = 100; permissions = 6; name = [] })
    ∷ []

alice_is_root :
    map sent entries
    ≡ (record { type = 1; id = 0; permissions = 4; name = codes "alice" })
      ∷ (record { type = 2; id = 100; permissions = 6; name = codes "100" })
      ∷ []
unfolding sent who to_string stoul digits
alice_is_root = refl

read_acl-push_acl_example :
    read_acl (push_acl entries (bytes32 2) ++ codes "rest") (length entries) 4 empty_acl exporting
    ≡ (exporting, done (record empty_acl { entries = map sent entries }))
unfolding who to_string digits
read_acl-push_acl_example =
    read_acl-push_acl entries (bytes32 2) (codes "rest") exporting
      ((omega arith, omega arith, omega arith), ((omega arith, omega arith, omega arith), tt)) refl
