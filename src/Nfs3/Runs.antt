-- ===== src/Nfs3/Runs.antt =====
-- The theorems at concrete calls on a disk with one file.
use simple_nfsd.Prelude.{
  ℕ, ◌+◌, ◌%◌, ◌^◌, ◌<◌, ◌≤◌, ◌≡◌, ◌⊎◌, refl, inl, false, List, [], ◌∷◌, ◌++◌, none, some, length,
  take, drop, arith,
}
use simple_nfsd.Bytes.{ok, fault, bytes32, be32, read_uint32, align4}
use simple_nfsd.Rpc.{RpcMessage, create_reply}
use simple_nfsd.Auth.{AuthContext, check_path_access}
use simple_nfsd.Map.{find}
use simple_nfsd.Text.{codes, equal}
use simple_nfsd.Server.Handles.{handle_of, get_handle_for_path, get_path_from_handle, Knows}
use simple_nfsd.Server.Handles
use simple_nfsd.Nfs2.{
  State, done, faults, count_failed, child, join, require, word, path_of, check_access, full_path,
  ask, reply_with,
}
use simple_nfsd.Nfs2.Samples.{disk, new_server, user, message_for}
use simple_nfsd.Nfs2.Reading.{regular_file, read_file, count_read, read_directory}
use simple_nfsd.Nfs3.{Disk, bytes64, word64, handle_at, attributes, count_successful, succeed}
use simple_nfsd.Nfs3.Reading.{allowed_path, existing, handle_read}
use simple_nfsd.Nfs3.Changing.{handle_mk_nod}
use simple_nfsd.Nfs3.Listing.{
  push_entry, list_entries, directory_at, end_listing, handle_read_dir, handle_read_dir_plus,
}
use simple_nfsd.Nfs3.Calls.{
  serve_calls, serve_nfsv3, count_served, later_procedure, procedure, handle_nfsv3_call, run,
}
use simple_nfsd.Nfs3.Refused.{handle_nfsv3_call-refused}
use simple_nfsd.Nfs3.Anonymous.{run-anonymous}
use simple_nfsd.Nfs3.History.{IsGiven, others, serve_calls-counts, run-handles}
use simple_nfsd.Nfs3.Sizes.{handle_read_bounded, Fits, pushed, list_entries_lem}
use simple_nfsd.Nfs3.Leaks.{Replies, handle_read_dir-IsListing, handle_read_dir_plus-faults}

-- The disk with one file, which has no links; behind the flag stand four bytes of a secret.
abbrev linkless : Disk (List ℕ)
linkless = record {
  files = disk;
  is_symlink = λ f p. some false;
  read_symlink = λ f p. none;
  space_info = λ f p. some (1_000_000_000, 600_000_000, 500_000_000);
  beyond_flag = λ f. codes "key!";
}

-- The server after it has given out handles for the root and the file in it.
abbrev exporting : State (List ℕ)
exporting = record new_server {
  handles = record {
    file_handles = (1, codes "/srv") ∷ (2, codes "/srv/a") ∷ [];
    next_handle_id = 3;
  };
}

abbrev stranger : AuthContext
stranger = record user { authenticated = false }

abbrev get_attr : RpcMessage
get_attr = message_for 1 (bytes64 2)

handle_nfsv3_call-refused_example :
    (handle_nfsv3_call linkless get_attr stranger exporting ≡ fault)
    ⊎ (handle_nfsv3_call linkless get_attr stranger exporting ≡ ok (count_failed exporting, none))
handle_nfsv3_call-refused_example =
    handle_nfsv3_call-refused linkless get_attr stranger exporting (inl refl) refl refl refl

-- A stranger makes a node, and asks for attributes.
abbrev calls : List (RpcMessage × AuthContext)
calls = (message_for 11 [], stranger) ∷ (get_attr, stranger) ∷ []

abbrev after_calls : State (List ℕ)
after_calls = record exporting { successful_requests = 1; failed_requests = 1 }

abbrev empty_reply : RpcMessage
empty_reply = create_reply 9 0 [] (record { flavor = 0; body = [] })

both_answered : run linkless calls exporting ≡ ok (after_calls, some empty_reply ∷ none ∷ [])
unfolding run handle_nfsv3_call procedure later_procedure handle_mk_nod succeed count_successful
    reply_with simple_nfsd.Nfs3.Reading.handle_get_attr require allowed_path handle_at word64 word
    read_uint32 be32 path_of get_path_from_handle find check_access check_path_access
both_answered = refl

run-anonymous_example :
    (after_calls.files ≡ exporting.files) × (after_calls.handles ≡ exporting.handles)
run-anonymous_example =
    run-anonymous linkless calls exporting after_calls _ (refl, (refl, tt)) both_answered

abbrev after_serving : State (List ℕ)
after_serving = record exporting { successful_requests = 3; failed_requests = 1 }

both_served :
    serve_calls linkless calls exporting ≡ ok (after_serving, some empty_reply ∷ none ∷ [])
unfolding serve_calls serve_nfsv3 count_served handle_nfsv3_call procedure later_procedure
    handle_mk_nod succeed count_successful reply_with simple_nfsd.Nfs3.Reading.handle_get_attr
    require allowed_path handle_at word64 word read_uint32 be32 path_of get_path_from_handle find
    check_access check_path_access
both_served = refl

serve_calls-counts_example :
    (after_serving.successful_requests + after_serving.failed_requests) % 2 ^ 64
    ≡ (exporting.successful_requests + exporting.failed_requests + length calls + others calls)
      % 2 ^ 64
serve_calls-counts_example = serve_calls-counts linkless calls exporting after_serving _ both_served

file_known : Knows (codes "/srv/a") 2 exporting.handles
unfolding handle_of equal
file_known = ((((refl, tt), (tt, tt)), omega arith), refl)

run-handles_example :
    (paths : List (List ℕ)) × IsGiven paths exporting.handles
    × (after_calls.handles ≡ Handles.run paths exporting.handles)
    × ((get_path_from_handle 2 after_calls.handles ≡ codes "/srv/a")
        ⊎ (2 ^ 32 < exporting.handles.next_handle_id + length paths))
run-handles_example =
    run-handles linkless calls exporting after_calls _ (codes "/srv/a") 2 file_known both_answered

abbrev read_message : RpcMessage
read_message = message_for 6 (bytes64 2 ++ (bytes64 1 ++ (bytes32 3 ++ bytes32 0)))

abbrev read_payload : List ℕ
read_payload = attributes 1 420 1 5 2 ++ (bytes32 3 ++ (bytes32 0 ++ (codes "ell" ++ (0 ∷ []))))

abbrev read_answer : RpcMessage
read_answer = create_reply 9 0 read_payload (record { flavor = 0; body = [] })

abbrev after_read : State (List ℕ)
after_read = record exporting { successful_requests = 1; bytes_read = 3 }

read_answered : handle_read linkless read_message user exporting ≡ (after_read, done read_answer)
unfolding handle_read require word64 word read_uint32 be32 allowed_path handle_at path_of
    get_path_from_handle find check_access check_path_access regular_file full_path join child equal
    ask read_file count_read succeed count_successful reply_with attributes align4
read_answered = refl

handle_read_bounded_example :
    (length read_answer.payload % 4 ≡ 0)
    × (length read_answer.payload < 120 + be32 (drop 16 read_message.payload))
handle_read_bounded_example =
    handle_read_bounded linkless read_message user exporting after_read read_answer read_answered

abbrev names : List (List ℕ)
names = codes "a" ∷ codes "bc" ∷ codes "d" ∷ []

list_entries_lem_example :
    (k : ℕ) × (k ≤ length names)
    × (list_entries 100 30 0 names [] ≡ pushed 0 (take k names) [])
    × Fits 100 30 0 (take k names) []
    × ((k ≡ length names) ⊎ ((100 ≤ 0 + k) ⊎ (30 < length (pushed 0 (take k names) []))))
list_entries_lem_example = list_entries_lem 100 30 0 names []

abbrev read_dir_message : RpcMessage
read_dir_message = message_for 16 (bytes64 1 ++ (bytes64 0 ++ bytes32 400))

abbrev listing_answer : RpcMessage
listing_answer =
    create_reply 9 0
      (bytes64 1
        ++ (bytes32 1
            ++ (codes "a" ++ ((0 ∷ 0 ∷ 0 ∷ []) ++ (bytes64 1 ++ (bytes32 1 ++ codes "key!"))))))
      (record { flavor = 0; body = [] })

listing_answered :
    handle_read_dir linkless read_dir_message user exporting
    ≡ (record exporting { successful_requests = 1 }, done listing_answer)
unfolding handle_read_dir require word64 word read_uint32 be32 allowed_path handle_at path_of
    get_path_from_handle find check_access check_path_access directory_at existing full_path join
    child equal ask read_directory list_entries push_entry end_listing succeed count_successful
    reply_with align4
listing_answered = refl

handle_read_dir-IsListing_example : Replies linkless read_dir_message exporting listing_answer
handle_read_dir-IsListing_example =
    handle_read_dir-IsListing linkless read_dir_message user exporting
      (record exporting { successful_requests = 1 }) listing_answer (λ f. refl) listing_answered

abbrev short_message : RpcMessage
short_message = message_for 17 (bytes64 1 ++ (bytes64 0 ++ bytes32 400))

handle_read_dir_plus-faults_example :
    handle_read_dir_plus linkless short_message user exporting ≡ (exporting, faults)
handle_read_dir_plus-faults_example =
    handle_read_dir_plus-faults linkless short_message user exporting (omega arith) (omega arith)
