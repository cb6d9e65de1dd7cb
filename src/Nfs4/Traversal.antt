-- ===== src/Nfs4/Traversal.antt =====
-- LOOKUP of NFSv4 takes any name, src/simple-nfsd/core/server_simple.cpp.
use simple_nfsd.Prelude.{
  ℕ, ◌+◌, ◌%◌, ◌^◌, ◌<◌, ◌≡◌, refl, ap, ◌∙◌, true, false, ◌&&◌, List, [], ◌++◌, some, arith, ◌==◌,
  leb, length, drop, length-append,
}
use simple_nfsd.Bytes.{IsU32, bytes32, align4}
use simple_nfsd.Bytes.Laws.{read_uint32-at, slice-at}
use simple_nfsd.Rpc.{RpcMessage, create_reply, auth_none}
use simple_nfsd.Auth.{AuthContext, check_path_access}
use simple_nfsd.Map.{Sorted, nat_key}
use simple_nfsd.Server.Handles.{
  get_handle_for_path, get_path_from_handle, get_path_from_handle-get_handle_for_path,
}
use simple_nfsd.Server.Xdr.{encode_nfsv4_handle, decode-encode_nfsv4_handle}
use simple_nfsd.Nfs2.{
  State, done, require, word, bytes_at, path_of, check_access, child, join, full_path, ask,
  handle_for, reply_with, is_nonempty,
}
use simple_nfsd.Nfs3.{Disk, count_successful, succeed}
use simple_nfsd.Nfs3.Reading.{existing}
use simple_nfsd.Nfs4.{
  decoded, known_handle, checked_word, checked_text, directory_entry, reply_handle,
}
use simple_nfsd.Nfs4.Reading.{handle_lookup}

-- A request of a handle and a name behind it, with anything behind the name: padding, or nothing.
abbrev IsRequest : ℕ → List ℕ → List ℕ → List ℕ → Type 0
IsRequest handle name behind payload =
    IsU32 handle
    × (length name < 2 ^ 32)
    × (payload ≡ encode_nfsv4_handle handle ++ (bytes32 (length name) ++ (name ++ behind)))

module _ {F : Type 0} (s : State F) (payload : List ℕ) (handle : ℕ) (name behind : List ℕ)
    (asks : IsRequest handle name behind payload) where
  decoded_lem : decoded payload 0 s ≡ (s, done (handle, 8))
  unfolding decoded align4
  decoded_lem =
      let decodes = decode-encode_nfsv4_handle handle 0 payload _ asks.0 asks.2 in rw decodes refl

  checked_text_lem : checked_text payload 8 s ≡ (s, done name)
  unfolding checked_text checked_word require word bytes_at encode_nfsv4_handle
  checked_text_lem =
      let long : length payload ≡ 12 + length name + length behind =
        ap length asks.2 ∙ omega (arith, length-append name behind) in
      let number =
        read_uint32-at payload 8 (length name) (name ++ behind) (ap (drop 8) asks.2) asks.1 in
      let text = slice-at payload 12 name behind (ap (drop 12) asks.2) in
      ground (arith, long, number, text)

  entry_lem :
      (c : AuthContext) (dir : List ℕ)
      → (handle == 0) ≡ false
      → get_path_from_handle handle s.handles ≡ dir
      → is_nonempty dir ≡ true
      → (s.has_auth_manager && check_path_access dir c true false) ≡ true
      → directory_entry payload c true false s ≡ (s, done (dir, name))
  unfolding directory_entry known_handle require path_of check_access encode_nfsv4_handle
  entry_lem c dir nonzero stands named allowed =
      let long : leb 8 (length payload) ≡ true = ground (arith, ap length asks.2) in
      rw (long, decoded_lem, nonzero, stands, named, checked_text_lem, allowed) refl

-- On a table of handles in key order, a LOOKUP by a client that may read the directory, whose handle
-- is not 0, for a name of less than 2^32 bytes under which something stands there, is answered,
-- whatever stands behind the name in the message, with a handle that resolves to the directory with
-- the name, whatever the name is: it may hold slashes and dots, and lead out of the exported tree.
pub handle_lookup-answers :
    {F : Type 0} (disk : Disk F) (m : RpcMessage) (c : AuthContext) (s : State F) (handle : ℕ)
    (name behind dir : List ℕ)
    → Sorted s.handles.file_handles
    → IsRequest handle name behind m.payload
    → (handle == 0) ≡ false
    → get_path_from_handle handle s.handles ≡ dir
    → is_nonempty dir ≡ true
    → (s.has_auth_manager && check_path_access dir c true false) ≡ true
    → disk.files.exists s.files (join s.root_path (child dir name)) ≡ some true
    → (t : State F) × (r : RpcMessage) × (answer : ℕ) × (handle_lookup disk m c s ≡ (t, done r))
      × (r.payload ≡ encode_nfsv4_handle answer)
      × (get_path_from_handle answer t.handles ≡ child dir name)
unfolding handle_lookup existing full_path ask require reply_handle handle_for succeed
    count_successful reply_with create_reply
handle_lookup-answers disk m c s handle name behind dir sorted asks nonzero stands named allowed
      found =
    let r = get_handle_for_path (child dir name) s.handles in
    (
      record s { handles = r.1; successful_requests = (s.successful_requests + 1) % 2 ^ 64 },
      create_reply m.header.xid 0 (encode_nfsv4_handle r.0)
          (record { flavor = auth_none; body = [] }),
      r.0,
      rw (entry_lem s m.payload handle name behind asks c dir nonzero stands named allowed, found)
          refl,
      refl,
      get_path_from_handle-get_handle_for_path (child dir name) s.handles sorted,
    )
