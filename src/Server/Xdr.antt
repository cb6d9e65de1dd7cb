-- ===== src/Server/Xdr.antt =====
-- encodeNfsv4Handle, decodeNfsv4Handle, packString and unpackString of
-- src/simple-nfsd/core/server_simple.cpp. A string is its bytes; offsets stay below 2^64.
use simple_nfsd.Prelude.{
  ℕ, ◌+◌, ◌-◌, ◌%◌, ◌^◌, ◌≤◌, ◌<◌, ◌≡◌, refl, sym, ◌∙◌, ap, true, ◌||◌, not, List, [], ◌∷◌, ◌++◌,
  ltb, leb, ◌==◌, if◌then◌else◌, arith, length, drop, replicate, length-append, length-drop,
  length-replicate, Bool-cases, inl, inr,
}
use simple_nfsd.Bytes.{Outcome, ok, ◌>>=◌, be32, bytes32, align4, read_uint32, slice, IsU32}
use simple_nfsd.Bytes.Laws.{drop-append, drop-advance, read_uint32-at, slice-at, pad, padding}
use mathlib.Core.List.{append_assoc}

unfoldable pub encode_nfsv4_handle : ℕ → List ℕ
encode_nfsv4_handle handle_id = bytes32 4 ++ bytes32 handle_id

-- The result and where `offset` is left.
unfoldable pub decode_nfsv4_handle : List ℕ → ℕ → Outcome (ℕ × ℕ)
decode_nfsv4_handle bytes offset =
    if ltb (length bytes) (offset + 4)
    then ok (0, offset)
    else (read_uint32 bytes offset >>= (λ n.
        if ltb (length bytes) (offset + 4 + n) || not (n == 4)
        then ok (0, offset + 4)
        else (read_uint32 bytes (offset + 4)
            >>= (λ handle_id. ok (handle_id, align4 (offset + 4 + n))))))

-- `while (data.size() % 4 != 0) data.push_back(0);`
abbrev pub push_padding : List ℕ → List ℕ
push_padding bytes = bytes ++ replicate (align4 (length bytes) - length bytes) 0

unfoldable pub pack_string : List ℕ → List ℕ → List ℕ
pack_string str bytes =
    let n = length str % 2 ^ 32 in
    push_padding ((bytes ++ bytes32 n) ++ (if ltb 0 n then str else []))

unfoldable pub unpack_string : List ℕ → ℕ → Outcome (List ℕ × ℕ)
unpack_string bytes offset =
    if ltb (length bytes) (offset + 4)
    then ok ([], offset)
    else (read_uint32 bytes offset >>= (λ n.
        if ltb (length bytes) (offset + 4 + n)
        then ok ([], offset + 4)
        else ok (slice bytes (offset + 4) n, align4 (offset + 4 + n))))

-- A piece that stands at an offset lies within the vector.
pub at-fits :
    (offset : ℕ) (bytes xs rest : List ℕ)
    → drop offset bytes ≡ xs ++ rest
    → 1 ≤ length xs
    → offset + length xs ≤ length bytes
at-fits offset bytes xs rest at some_bytes =
    let n : length bytes - offset ≡ length xs + length rest =
      sym (length-drop offset bytes) ∙ ap length at ∙ length-append xs rest in
    omega arith

after_length :
    (bytes : List ℕ) (offset n : ℕ)
    → (r : ℕ × ℕ) × ((if ltb (length bytes) (offset + 4 + n) || not (n == 4)
          then ok (0, offset + 4)
          else (read_uint32 bytes (offset + 4)
              >>= (λ handle_id. ok (handle_id, align4 (offset + 4 + n)))))
        ≡ ok r)
unfolding read_uint32
after_length bytes offset n =
    elim (Bool-cases (ltb (length bytes) (offset + 4 + n) || not (n == 4))) [
      | inl bad ↦ ((0, offset + 4), rw bad refl)
      | inr good ↦
          let room : leb (offset + 4 + 4) (length bytes) ≡ true = ground arith in
          ((be32 (drop (offset + 4) bytes), align4 (offset + 4 + n)), rw (good, room) refl)
    ]

-- Decoding a handle reads within the vector at every offset of every vector.
pub decode_nfsv4_handle_total :
    (bytes : List ℕ) (offset : ℕ) → (r : ℕ × ℕ) × (decode_nfsv4_handle bytes offset ≡ ok r)
unfolding decode_nfsv4_handle read_uint32
decode_nfsv4_handle_total bytes offset = elim (Bool-cases (ltb (length bytes) (offset + 4))) [
  | inl short ↦ ((0, offset), rw short refl)
  | inr enough ↦
      let room : leb (offset + 4) (length bytes) ≡ true = ground arith in
      let (r, e) = after_length bytes offset (be32 (drop offset bytes)) in (r, rw (enough, room) e)
]

-- A handle encoded anywhere in a vector is decoded, and the offset moves past it to the next
-- multiple of 4.
pub decode-encode_nfsv4_handle :
    (handle_id offset : ℕ) (bytes rest : List ℕ)
    → IsU32 handle_id
    → drop offset bytes ≡ encode_nfsv4_handle handle_id ++ rest
    → decode_nfsv4_handle bytes offset ≡ ok (handle_id, align4 (offset + 8))
unfolding decode_nfsv4_handle encode_nfsv4_handle
decode-encode_nfsv4_handle handle_id offset bytes rest small at =
    let at4 : drop (offset + 4) bytes ≡ bytes32 handle_id ++ rest =
      drop-advance offset bytes (bytes32 4) (bytes32 handle_id ++ rest) at in
    let fits = at-fits offset bytes (bytes32 4 ++ bytes32 handle_id) rest at (omega arith) in
    ground (
      arith,
      read_uint32-at bytes offset 4 (bytes32 handle_id ++ rest) at (omega arith),
      read_uint32-at bytes (offset + 4) handle_id rest at4 small,
    )

pub unpack_string-at :
    (str bytes rest : List ℕ) (offset : ℕ)
    → length str < 2 ^ 32
    → drop offset bytes ≡ bytes32 (length str) ++ (str ++ rest)
    → unpack_string bytes offset ≡ ok (str, align4 (offset + 4 + length str))
unfolding unpack_string
unpack_string-at str bytes rest offset small at =
    let at4 = drop-advance offset bytes (bytes32 (length str)) (str ++ rest) at in
    let fits = at-fits offset bytes (bytes32 (length str) ++ str) rest at (omega arith) in
    ground (
      arith,
      read_uint32-at bytes offset (length str) (str ++ rest) at small,
      slice-at bytes (offset + 4) str rest at4,
    )

copied : (str : List ℕ) → (if ltb 0 (length str) then str else []) ≡ str
copied [] = refl
copied (c ∷ cs) = ground arith

pub pack_string_lem :
    (str bytes : List ℕ)
    → length str < 2 ^ 32
    → length bytes % 4 ≡ 0
    → pack_string str bytes ≡ bytes ++ (bytes32 (length str) ++ (str ++ pad (length str)))
unfolding pack_string align4
pack_string_lem str bytes small whole =
    let n : length str % 2 ^ 32 ≡ length str = omega arith in
    let body : List ℕ = (bytes ++ bytes32 (length str)) ++ str in
    let long : length body ≡ length bytes + 4 + length str =
      length-append (bytes ++ bytes32 (length str)) str
      ∙ ap (λ k. k + length str) (length-append bytes (bytes32 (length str))) in
    let gap : align4 (length body) - length body ≡ padding (length str) = omega arith in
    rw (n, copied str)
      (ap (λ k. body ++ replicate k 0) gap
        ∙ append_assoc (bytes ++ bytes32 (length str)) str (pad (length str))
        ∙ append_assoc bytes (bytes32 (length str)) (str ++ pad (length str)))

-- What packString appends to a vector of whole words, unpackString reads back from where it was
-- appended, whatever follows, and stops at the end of it.
unpack-pack_string :
    (str bytes rest : List ℕ)
    → length str < 2 ^ 32
    → length bytes % 4 ≡ 0
    → unpack_string (pack_string str bytes ++ rest) (length bytes)
      ≡ ok (str, length (pack_string str bytes))
unfolding align4
unpack-pack_string str bytes rest small whole =
    let tail : List ℕ = pad (length str) in
    let packed : List ℕ = bytes32 (length str) ++ (str ++ tail) in
    let at : drop (length bytes) (pack_string str bytes ++ rest)
        ≡ bytes32 (length str) ++ (str ++ (tail ++ rest)) =
      ap (λ x. drop (length bytes) (x ++ rest)) (pack_string_lem str bytes small whole)
      ∙ ap (drop (length bytes)) (append_assoc bytes packed rest)
      ∙ drop-append bytes (packed ++ rest)
      ∙ ap (λ x. bytes32 (length str) ++ x) (append_assoc str tail rest) in
    let n : length (str ++ tail) ≡ length str + padding (length str) =
      length-append str tail
      ∙ ap (λ k. length str + k) (length-replicate (padding (length str)) 0) in
    let packed_length : length bytes + length packed ≡ align4 (length bytes + 4 + length str) =
      omega arith in
    let end : length (pack_string str bytes) ≡ align4 (length bytes + 4 + length str) =
      ap length (pack_string_lem str bytes small whole)
      ∙ length-append bytes packed
      ∙ packed_length in
    rw end
      (unpack_string-at str (pack_string str bytes ++ rest) (tail ++ rest) (length bytes) small at)
