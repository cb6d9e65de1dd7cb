-- ===== src/Nfs4/Acls.antt =====
-- GETACL and SETACL of NFSv4, src/simple-nfsd/core/server_simple.cpp, over the access control lists
-- that SecurityManager keeps by path.
use simple_nfsd.Prelude.{
  ℕ, zero, suc, ◌+◌, ◌%◌, ◌^◌, Bool, true, false, List, [], ◌∷◌, ◌++◌, Option, none, some, leb,
  if◌then◌else◌, ◌==◌, length,
}
use simple_nfsd.Bytes.{Outcome, ok, thrown, fault, bytes32}
use simple_nfsd.Rpc.{RpcMessage}
use simple_nfsd.Auth.{AuthContext}
use simple_nfsd.Text.{to_string, stoul}
use simple_nfsd.Acl.{AclEntry, FileAcl, add_entry}
use simple_nfsd.Security.Access.{get_file_acl, set_file_acl, empty_acl}
use simple_nfsd.Server.Xdr.{pack_string, unpack_string}
use simple_nfsd.Nfs2.{
  Handler, Attempt, done, faults, ◌>>=◌, ◌>>◌, require, word, count_failed, reply_with,
}
use simple_nfsd.Nfs3.{succeed}
use simple_nfsd.Nfs4.{checked_word, granted_path}

-- The name of an entry, or else its id as text.
unfoldable pub who : AclEntry → List ℕ
who entry = if length entry.name == 0 then to_string entry.id else entry.name

unfoldable pub push_acl : List AclEntry → List ℕ → List ℕ
push_acl [] bytes = bytes
push_acl (entry ∷ entries) bytes = push_acl entries (
    pack_string (who entry)
      (bytes ++ (bytes32 entry.type ++ (bytes32 0 ++ bytes32 entry.permissions))))

unfoldable pub handle_get_acl : {F : Type 0} → RpcMessage → AuthContext → Handler F RpcMessage
handle_get_acl message context = do
  require (leb 4 (length message.payload))
  target ← granted_path message.payload context true false
  acl ← (λ s. (s, done (get_file_acl target.2 s.security)))
  succeed message (push_acl acl.entries (bytes32 (length acl.entries)))

-- entry_id = std::stoul(who), cut to 32 bits, and 0 where that throws
abbrev pub id_or_zero : Option ℕ → ℕ
id_or_zero none = 0
id_or_zero (some n) = n % 2 ^ 32

abbrev pub read_unpacked : Outcome (List ℕ × ℕ) → Attempt (List ℕ × ℕ)
read_unpacked (ok r) = done r
read_unpacked (thrown e) = faults
read_unpacked fault = faults

-- unpackString: the text, and the offset behind it.
unfoldable pub unpacked : {F : Type 0} → List ℕ → ℕ → Handler F (List ℕ × ℕ)
unpacked bytes offset s = (s, read_unpacked (unpack_string bytes offset))

-- The loop over the entries that are still to be read.
unfoldable pub read_acl : {F : Type 0} → List ℕ → ℕ → ℕ → FileAcl → Handler F FileAcl
read_acl bytes zero offset acl = (λ s. (s, done acl))
read_acl bytes (suc n) offset acl = do
  require (leb (offset + 12) (length bytes))
  entry_type ← word bytes offset
  entry_mask ← word bytes (offset + 8)
  text ← unpacked bytes (offset + 12)
  read_acl bytes n text.1 (
      add_entry
        (record {
          type = entry_type;
          id = id_or_zero (stoul text.0);
          permissions = entry_mask;
          name = text.0;
        })
        acl)

-- setFileAcl, and whether it stored the list.
unfoldable pub store_acl : {F : Type 0} → ℕ → List ℕ → FileAcl → Handler F Bool
store_acl now path acl s =
    let r = set_file_acl now path acl s.security in (record s { security = r.0 }, done r.1)

-- failed_requests_++, behind a reply.
unfoldable pub fail_with_reply : {F : Type 0} → RpcMessage → Handler F RpcMessage
fail_with_reply message = do (λ s. (count_failed s, done tt)); reply_with message []

unfoldable pub handle_set_acl : {F : Type 0} → ℕ → RpcMessage → AuthContext → Handler F RpcMessage
handle_set_acl now message context = do
  require (leb 4 (length message.payload))
  target ← granted_path message.payload context false true
  acl_count ← checked_word message.payload target.1
  acl ← read_acl message.payload acl_count (target.1 + 4) empty_acl
  success ← store_acl now target.2 acl
  if success then succeed message [] else fail_with_reply message
