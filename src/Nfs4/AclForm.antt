-- ===== src/Nfs4/AclForm.antt =====
-- The byte form of an access control list: what GETACL of NFSv4 writes and SETACL reads, in
-- src/simple-nfsd/core/server_simple.cpp.
use simple_nfsd.Prelude.{
  ℕ, suc, ◌+◌, ◌%◌, ◌^◌, ◌<◌, ◌≡◌, sym, ap, ◌∙◌, List, [], ◌∷◌, ◌++◌, map, arith, length, drop, All,
  length-append, length-replicate,
}
use mathlib.Core.List.{append_assoc, append-nil}
use simple_nfsd.Bytes.{bytes32, align4, IsU32}
use simple_nfsd.Bytes.Laws.{drop-append, drop-advance, read_uint32-at, pad, padding}
use simple_nfsd.Text.{stoul}
use simple_nfsd.Acl.{AclEntry, FileAcl, add_entry}
use simple_nfsd.Server.Xdr.{pack_string, pack_string_lem, unpack_string-at, at-fits}
use simple_nfsd.Nfs2.{State, done, require, word}
use simple_nfsd.Security.Access.{empty_acl}
use simple_nfsd.Nfs4.Acls.{who, push_acl, id_or_zero, unpacked, read_acl}

-- The fields of an entry fit the words that they are sent in.
abbrev pub Fits : AclEntry → Type 0
Fits e = IsU32 e.type × IsU32 e.permissions × (length (who e) < 2 ^ 32)

-- What is left of an entry once it has been sent: the id is read from the text.
unfoldable pub sent : AclEntry → AclEntry
sent e = record {
  type = e.type;
  id = id_or_zero (stoul (who e));
  permissions = e.permissions;
  name = who e;
}

-- An entry as bytes.
laid_out : AclEntry → List ℕ
laid_out e =
    bytes32 e.type
    ++ (bytes32 0
        ++ (bytes32 e.permissions ++ (bytes32 (length (who e)) ++ (who e ++ pad (length (who e))))))

laid_out_all : List AclEntry → List ℕ
laid_out_all [] = []
laid_out_all (e ∷ es) = laid_out e ++ laid_out_all es

length-laid_out :
    (e : AclEntry) → length (laid_out e) ≡ 16 + length (who e) + padding (length (who e))
unfolding laid_out
length-laid_out e =
    let n : length (pad (length (who e))) ≡ padding (length (who e)) =
      length-replicate (padding (length (who e))) 0 in
    omega (arith, n, length-append (who e) (pad (length (who e))))

push_entry_lem :
    (e : AclEntry) (bytes : List ℕ)
    → length (who e) < 2 ^ 32
    → length bytes % 4 ≡ 0
    → pack_string (who e) (bytes ++ (bytes32 e.type ++ (bytes32 0 ++ bytes32 e.permissions)))
      ≡ bytes ++ laid_out e
unfolding laid_out
push_entry_lem e bytes fits whole =
    let front : List ℕ = bytes32 e.type ++ (bytes32 0 ++ bytes32 e.permissions) in
    let n : length (bytes ++ front) % 4 ≡ 0 = omega (arith, length-append bytes front) in
    pack_string_lem (who e) (bytes ++ front) fits n ∙ append_assoc bytes front _

push_acl_lem :
    (es : List AclEntry) (bytes : List ℕ)
    → All Fits es
    → length bytes % 4 ≡ 0
    → push_acl es bytes ≡ bytes ++ laid_out_all es
unfolding push_acl laid_out_all
push_acl_lem [] bytes fits whole = sym (append-nil bytes)
push_acl_lem (e ∷ es) bytes fits whole =
    let n : length (bytes ++ laid_out e) % 4 ≡ 0 =
      omega (arith, length-append bytes (laid_out e), length-laid_out e) in
    ap (push_acl es) (push_entry_lem e bytes fits.0.2 whole)
    ∙ push_acl_lem es (bytes ++ laid_out e) fits.1 n
    ∙ append_assoc bytes (laid_out e) (laid_out_all es)

-- One round of the loop, at an entry.
read_acl-step :
    {F : Type 0} (e : AclEntry) (n offset : ℕ) (bytes rest : List ℕ) (acl : FileAcl) (s : State F)
    → Fits e
    → offset % 4 ≡ 0
    → drop offset bytes ≡ laid_out e ++ rest
    → read_acl bytes (suc n) offset acl s
      ≡ read_acl bytes n (offset + length (laid_out e)) (add_entry (sent e) acl) s
unfolding laid_out sent read_acl require word unpacked align4
read_acl-step e n offset bytes rest acl s fits whole at =
    let text = who e in
    let tail : List ℕ = pad (length text) ++ rest in
    let at' : drop offset bytes
        ≡ bytes32 e.type
          ++ (bytes32 0 ++ (bytes32 e.permissions ++ (bytes32 (length text) ++ (text ++ tail)))) =
      at
      ∙ ap
          (λ x.
            bytes32 e.type
            ++ (bytes32 0 ++ (bytes32 e.permissions ++ (bytes32 (length text) ++ x))))
          (append_assoc text (pad (length text)) rest) in
    let at8 = drop-advance offset bytes (bytes32 e.type ++ bytes32 0) _ at' in
    let at12 =
      drop-advance offset bytes (bytes32 e.type ++ (bytes32 0 ++ bytes32 e.permissions)) _ at' in
    let room =
      at-fits offset bytes (bytes32 e.type ++ (bytes32 0 ++ bytes32 e.permissions)) _ at'
        (omega arith) in
    let long : offset + length (laid_out e) ≡ align4 (offset + 12 + 4 + length text) =
      omega (arith, length-laid_out e) in
    let first = read_uint32-at bytes offset e.type _ at' fits.0 in
    let third = read_uint32-at bytes (offset + 8) e.permissions _ at8 fits.1 in
    let fourth = unpack_string-at text bytes tail (offset + 12) fits.2 at12 in
    ground (arith, room, first, third, fourth, long)

-- The list with the entries behind its own.
abbrev extended : FileAcl → List AclEntry → FileAcl
extended acl es = record acl { entries = acl.entries ++ es }

read_acl-at :
    {F : Type 0} (es : List AclEntry) (offset : ℕ) (bytes rest : List ℕ) (acl : FileAcl)
    (s : State F)
    → All Fits es
    → offset % 4 ≡ 0
    → drop offset bytes ≡ laid_out_all es ++ rest
    → read_acl bytes (length es) offset acl s ≡ (s, done (extended acl (map sent es)))
unfolding laid_out_all read_acl add_entry
read_acl-at [] offset bytes rest acl s fits whole at =
    ap (λ x. (s, done (record acl { entries = x }))) (sym (append-nil acl.entries))
read_acl-at (e ∷ es) offset bytes rest acl s fits whole at =
    let at' = at ∙ append_assoc (laid_out e) (laid_out_all es) rest in
    let words : (offset + length (laid_out e)) % 4 ≡ 0 = omega (arith, length-laid_out e) in
    read_acl-step e (length es) offset bytes (laid_out_all es ++ rest) acl s fits.0 whole at'
    ∙ read_acl-at es (offset + length (laid_out e)) bytes rest (add_entry (sent e) acl) s fits.1
        words (drop-advance offset bytes (laid_out e) (laid_out_all es ++ rest) at')
    ∙ ap (λ x. (s, done (record acl { entries = x })))
        (append_assoc acl.entries (sent e ∷ []) (map sent es))

-- The entries that GETACL writes behind whole words, whatever follows them, are read back by the loop
-- of SETACL in their order, with their types and permissions; the name becomes the text that was
-- sent, and the id the number that the text reads as, or 0.
pub read_acl-push_acl :
    {F : Type 0} (es : List AclEntry) (bytes rest : List ℕ) (s : State F)
    → All Fits es
    → length bytes % 4 ≡ 0
    → read_acl (push_acl es bytes ++ rest) (length es) (length bytes) empty_acl s
      ≡ (s, done (record empty_acl { entries = map sent es }))
read_acl-push_acl es bytes rest s fits whole =
    let at : drop (length bytes) (push_acl es bytes ++ rest) ≡ laid_out_all es ++ rest =
      ap (λ x. drop (length bytes) (x ++ rest)) (push_acl_lem es bytes fits whole)
      ∙ ap (drop (length bytes)) (append_assoc bytes (laid_out_all es) rest)
      ∙ drop-append bytes (laid_out_all es ++ rest) in
    read_acl-at es (length bytes) (push_acl es bytes ++ rest) rest empty_acl s fits whole at
