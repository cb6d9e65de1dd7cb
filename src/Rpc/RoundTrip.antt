-- ===== src/Rpc/RoundTrip.antt =====
-- The byte form against its reader, and the writer where it is given room.
use simple_nfsd.Prelude.{
  ℕ, ◌+◌, ◌-◌, ◌%◌, ◌≤◌, ◌≡◌, ◌⊎◌, refl, sym, ap, subst, ◌∙◌, List, [], ◌∷◌, ◌++◌, length, take,
  drop, length-append, length-replicate, length-drop, arith,
}
use mathlib.Core.List.{append_assoc, append-nil}
use simple_nfsd.Bytes.{
  ok, ◌>>=◌, RpcException, credentials_too_long, verifier_too_long, bytes32, words, align4,
}
use simple_nfsd.Bytes.Laws.{read_uint32-at, drop-advance, slice-at, pad, padding, align4_lem}
use simple_nfsd.Bytes.Cursor.{
  filled, copy_bytes, align_cursor, put_bytes-filled, write_words-filled, align_cursor-filled,
}
use simple_nfsd.Rpc.{
  RpcOpaqueAuth, RpcMessage, header_words, total_size, write_opaque, serialize_into, read_opaque,
  deserialize_body, deserialize_message,
}
use simple_nfsd.Rpc.Layout.{opaque_layout, layout, IsAuth, IsMessage}

-- What follows a piece stands at the offset behind it.
abbrev pub At : List ℕ → ℕ → List ℕ → Type 0
At bytes off piece = drop off bytes ≡ piece

pub length-zero : {A : Type 0} (xs : List A) → length xs ≡ 0 → xs ≡ []
length-zero [] h = refl
length-zero (x ∷ xs) h = absurd (omega (arith, h))

-- The parts of an authenticator's layout at an offset.
module _ (a : RpcOpaqueAuth) (bytes : List ℕ) (off : ℕ) (rest : List ℕ)
    (at : At bytes off (opaque_layout a ++ rest)) where
  At-flavor :
      At bytes off
        (bytes32 a.flavor ++ (bytes32 a.length ++ (a.body ++ (pad (length a.body) ++ rest))))
  At-flavor =
      at
      ∙ ap (λ (t : List ℕ). bytes32 a.flavor ++ (bytes32 a.length ++ t))
          (append_assoc a.body (pad (length a.body)) rest)

  At-length : At bytes (off + 4) (bytes32 a.length ++ (a.body ++ (pad (length a.body) ++ rest)))
  At-length = drop-advance off bytes (bytes32 a.flavor) _ At-flavor

  At-body : At bytes (off + 8) (a.body ++ (pad (length a.body) ++ rest))
  At-body =
      let e : off + 8 ≡ off + 4 + 4 = omega arith in
      rw e (drop-advance (off + 4) bytes (bytes32 a.length) _ At-length)

  At-rest : At bytes (off + 8 + length a.body + padding (length a.body)) rest
  At-rest =
      let e = drop-advance (off + 8) bytes a.body _ At-body in
      let n : length (pad (length a.body)) ≡ padding (length a.body) =
        length-replicate (padding (length a.body)) 0 in
      rw n at (drop-advance (off + 8 + length a.body) bytes (pad (length a.body)) rest e)

  body_within : (length a.body ≡ 0) ⊎ (off + 8 + length a.body ≤ length bytes)
  body_within =
      let n : length bytes - (off + 8) ≡ length a.body + length (pad (length a.body) ++ rest) =
        sym (length-drop (off + 8) bytes)
        ∙ ap length At-body
        ∙ length-append a.body (pad (length a.body) ++ rest) in
      ground (arith, n)

  pub read_opaque-layout :
      (x : RpcException)
      → IsAuth a
      → off % 4 ≡ 0
      → read_opaque x bytes off ≡ ok (a, off + 8 + length a.body + padding (length a.body))
  unfolding read_opaque
  read_opaque-layout x v m =
      let r1 = read_uint32-at bytes off a.flavor _ At-flavor v.flavor_fits in
      let r2 =
        read_uint32-at bytes (off + 4) a.length _ At-length
          (let h = v.length_fits in omega arith) in
      let al : align4 (off + 8 + length a.body)
          ≡ off + 8 + length a.body + padding (length a.body) =
        align4_lem (off + 8 + length a.body) ∙ omega arith in
      rw (r1, ◌>>=◌, r2, ◌>>=◌, v.length_true)
        (ground (
          arith,
          al,
          v.length_true,
          align4_lem (off + 8),
          body_within,
          slice-at bytes (off + 8) a.body _ At-body,
          length-zero a.body,
        ))

-- deserializeMessage reads a message back from its byte form.
pub deserialize_message-layout :
    (m : RpcMessage) → IsMessage m → deserialize_message (layout m) ≡ ok m
unfolding deserialize_message deserialize_body
deserialize_message-layout m v =
    let h = m.header in
    let w = v.words_fit in
    let bytes = layout m in
    let behind : List ℕ = opaque_layout h.verf ++ m.payload in
    let off = 24 + 8 + length h.cred.body + padding (length h.cred.body) in
    let off' = off + 8 + length h.verf.body + padding (length h.verf.body) in
    let cred =
      read_opaque-layout h.cred bytes 24 behind refl credentials_too_long v.cred_true refl in
    let at : At bytes off behind = At-rest h.cred bytes 24 behind refl in
    let verf =
      read_opaque-layout h.verf bytes off m.payload at verifier_too_long v.verf_true
        (omega arith) in
    let end : At bytes off' m.payload = At-rest h.verf bytes off m.payload at in
    let n : length bytes - off' ≡ length m.payload = sym (length-drop off' bytes) ∙ ap length end in
    rw
      (
        read_uint32-at bytes 0 h.xid _ refl w.0,
        ◌>>=◌,
        read_uint32-at bytes 4 h.type _ refl w.1.0,
        ◌>>=◌,
        read_uint32-at bytes 8 h.rpcvers _ refl w.1.1.0,
        ◌>>=◌,
        read_uint32-at bytes 12 h.prog _ refl w.1.1.1.0,
        ◌>>=◌,
        read_uint32-at bytes 16 h.vers _ refl w.1.1.1.1.0,
        ◌>>=◌,
        read_uint32-at bytes 20 h.proc _ refl w.1.1.1.1.1.0,
        ◌>>=◌,
        cred,
        ◌>>=◌,
        verf,
        ◌>>=◌,
      )
      (ground (arith, n, end, length-zero m.payload))

take-all : (xs : List ℕ) → take (length xs) xs ≡ xs
take-all [] = refl
take-all (x ∷ xs) = ap (◌∷◌ x) (take-all xs)

copy_bytes-filled :
    (bs w : List ℕ) (k : ℕ)
    → copy_bytes (length bs) bs (filled w (length bs + k)) ≡ ok (filled (w ++ bs) k)
unfolding copy_bytes
copy_bytes-filled [] w k = let e : 0 + k ≡ k = omega arith in rw (e, append-nil) refl
copy_bytes-filled (b ∷ bs) w k = ground (arith, take-all (b ∷ bs), put_bytes-filled (b ∷ bs) w k)

-- With room for it the writer of an authenticator writes its layout.
write_opaque-filled :
    (a : RpcOpaqueAuth) (w : List ℕ) (k : ℕ)
    → IsAuth a
    → length w % 4 ≡ 0
    → write_opaque a (filled w (8 + (length a.body + (padding (length a.body) + k))))
      ≡ ok (filled (w ++ opaque_layout a) k)
unfolding write_opaque
write_opaque-filled a w k v m =
    let head : List ℕ = words (a.flavor ∷ a.length ∷ []) in
    let w1 : List ℕ = w ++ head in
    let w2 : List ℕ = w1 ++ a.body in
    let n : length w2 ≡ length w + 8 + length a.body =
      length-append w1 a.body ∙ ap (λ (t : ℕ). t + length a.body) (length-append w head) in
    let p : padding (length w2) ≡ padding (length a.body) = omega (arith, n) in
    let q : w2 ++ pad (length a.body) ≡ w ++ opaque_layout a =
      append_assoc w1 a.body (pad (length a.body))
      ∙ append_assoc w head (a.body ++ pad (length a.body)) in
    let room = padding (length a.body) + k in
    let copied : copy_bytes a.length a.body (filled w1 (length a.body + room))
        ≡ ok (filled w2 room) =
      subst
        (λ (n : ℕ). copy_bytes n a.body (filled w1 (length a.body + room)) ≡ ok (filled w2 room))
        (sym v.length_true) (copy_bytes-filled a.body w1 room) in
    let aligned : align_cursor (filled w2 (padding (length a.body) + k))
        ≡ filled (w ++ opaque_layout a) k =
      rw (p, q) at (align_cursor-filled w2 k) in
    rw
      (
        write_words-filled (a.flavor ∷ a.length ∷ []) w
            (length a.body + (padding (length a.body) + k)),
        ◌>>=◌,
        copied,
        ◌>>=◌,
      )
      (ap ok aligned)

pub length-opaque :
    (w : List ℕ) (a : RpcOpaqueAuth)
    → length (w ++ opaque_layout a) ≡ length w + (8 + (length a.body + padding (length a.body)))
length-opaque w a =
    length-append w (opaque_layout a)
    ∙ omega (
      arith,
      length-append a.body (pad (length a.body)),
      length-replicate {A = ℕ} (padding (length a.body)) 0,
    )

total_size-eq :
    (m : RpcMessage)
    → IsMessage m
    → total_size m + 4
      ≡ 24
        + (8
            + (length m.header.cred.body
                + (padding (length m.header.cred.body)
                    + (8
                        + (length m.header.verf.body
                            + (padding (length m.header.verf.body) + length m.payload))))))
unfolding total_size
total_size-eq m v = omega (
  arith, align4_lem, v.cred_true.length_true, v.verf_true.length_true, v.cred_true.length_fits,
  v.verf_true.length_fits,
)

-- With four bytes more than serializeMessage allocates, its writes stay within the vector and leave
-- the byte form of the message.
pub serialize_into-layout :
    (m : RpcMessage) → IsMessage m → serialize_into (total_size m + 4) m ≡ ok (layout m)
unfolding serialize_into
serialize_into-layout m v =
    let h = m.header in
    let pc = padding (length h.cred.body) in
    let pv = padding (length h.verf.body) in
    let d = length m.payload + 0 in
    let kv = 8 + (length h.verf.body + (pv + d)) in
    let kc = 8 + (length h.cred.body + (pc + kv)) in
    let size : total_size m + 4 ≡ 24 + kc = rw (total_size-eq m v) (omega arith) in
    let w0 : List ℕ = words (header_words h) in
    let w1 : List ℕ = w0 ++ opaque_layout h.cred in
    let w2 : List ℕ = w1 ++ opaque_layout h.verf in
    rw
      (
        size,
        write_words-filled (header_words h) [] kc,
        ◌>>=◌,
        write_opaque-filled h.cred w0 kv v.cred_true refl,
        ◌>>=◌,
        write_opaque-filled h.verf w1 d v.verf_true (omega (arith, length-opaque w0 h.cred)),
        ◌>>=◌,
        copy_bytes-filled m.payload w2 0,
        ◌>>=◌,
      )
      (ap ok (
        append-nil (w2 ++ m.payload)
        ∙ append_assoc w1 (opaque_layout h.verf) m.payload
        ∙ append_assoc w0 (opaque_layout h.cred) (opaque_layout h.verf ++ m.payload)))
