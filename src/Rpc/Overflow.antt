-- ===== src/Rpc/Overflow.antt =====
-- serializeMessage allocates four bytes too few.
use simple_nfsd.Prelude.{
  ℕ, ◌+◌, ◌≤◌, ◌<◌, ◌≡◌, ◌≢◌, List, [], ◌∷◌, length, take, length-replicate, arith, inl, inr, ◌⊎◌,
}
use simple_nfsd.Bytes.{
  ok, thrown, fault, RpcException, >>=-eq-ok, >>=-eq-thrown, Outcome-cases, align4, bytes32,
}
use simple_nfsd.Bytes.Laws.{length-take-le, align4_lem}
use simple_nfsd.Bytes.Cursor.{
  Cursor, fresh_buffer, put_bytes, write_uint32, write_words, copy_bytes, align_cursor,
  put_bytes-offset, write_words-offset,
}
use simple_nfsd.Rpc.{
  RpcOpaqueAuth, RpcMessage, header_words, total_size, write_opaque, serialize_into,
  serialize_message,
}

pub copy_bytes-offset :
    (n : ℕ) (src : List ℕ) (c c' : Cursor)
    → copy_bytes n src c ≡ ok c'
    → (c'.offset ≡ c.offset + n)
      × (length c'.buf ≡ length c.buf)
      × ((n ≡ 0) ⊎ (c'.offset ≤ length c.buf))
unfolding copy_bytes
copy_bytes-offset n src c c' e =
    ground (arith, length-take-le n src, put_bytes-offset (take n src) c c')

write_opaque-offset :
    (a : RpcOpaqueAuth) (c c' : Cursor)
    → write_opaque a c ≡ ok c'
    → (c'.offset ≡ align4 (c.offset + 8 + a.length))
      × (length c'.buf ≡ length c.buf)
      × (c.offset + 8 + a.length ≤ length c.buf)
unfolding write_opaque
write_opaque-offset a c c' e =
    let (c1, e1, r1) = >>=-eq-ok (write_words (a.flavor ∷ a.length ∷ []) c) _ e in
    let (c2, e2, r2) = >>=-eq-ok (copy_bytes a.length a.body c1) _ r1 in
    unfold align_cursor in
    ground (
      arith,
      r2,
      write_words-offset (a.flavor ∷ a.length ∷ []) c c1 e1,
      copy_bytes-offset a.length a.body c1 c2 e2,
    )

serialize_into-size :
    (size : ℕ) (m : RpcMessage) (bytes : List ℕ)
    → serialize_into size m ≡ ok bytes
    → total_size m < size
unfolding serialize_into total_size
serialize_into-size size m bytes e =
    let (c1, e1, r1) = >>=-eq-ok (write_words (header_words m.header) (fresh_buffer size)) _ e in
    let (c2, e2, r2) = >>=-eq-ok (write_opaque m.header.cred c1) _ r1 in
    let (c3, e3, r3) = >>=-eq-ok (write_opaque m.header.verf c2) _ r2 in
    let (c4, e4, r4) = >>=-eq-ok (copy_bytes (length m.payload) m.payload c3) _ r3 in
    let n : length (fresh_buffer size).buf ≡ size = length-replicate size 0 in
    omega (
      arith,
      n,
      align4_lem,
      write_words-offset (header_words m.header) (fresh_buffer size) c1 e1,
      write_opaque-offset m.header.cred c1 c2 e2,
      write_opaque-offset m.header.verf c2 c3 e3,
      copy_bytes-offset (length m.payload) m.payload c3 c4 e4,
    )

pub put_bytes-ne-thrown : (bs : List ℕ) (c : Cursor) (x : RpcException) → put_bytes bs c ≢ thrown x
unfolding put_bytes
put_bytes-ne-thrown bs c x e = ground arith

pub write_words-ne-thrown :
    (vs : List ℕ) (c : Cursor) (x : RpcException) → write_words vs c ≢ thrown x
unfolding write_words write_uint32
write_words-ne-thrown [] c x e = cc
write_words-ne-thrown (v ∷ vs) c x e =
    elim (>>=-eq-thrown (put_bytes (bytes32 v) c) (write_words vs) e) [
      | inl first ↦ put_bytes-ne-thrown (bytes32 v) c x first
      | inr (c', _, rest) ↦ write_words-ne-thrown vs c' x rest
    ]

copy_bytes-ne-thrown :
    (n : ℕ) (src : List ℕ) (c : Cursor) (x : RpcException) → copy_bytes n src c ≢ thrown x
unfolding copy_bytes
copy_bytes-ne-thrown n src c x e = ground (arith, put_bytes-ne-thrown (take n src) c x)

write_opaque-ne-thrown :
    (a : RpcOpaqueAuth) (c : Cursor) (x : RpcException) → write_opaque a c ≢ thrown x
unfolding write_opaque
write_opaque-ne-thrown a c x e =
    elim (>>=-eq-thrown (write_words (a.flavor ∷ a.length ∷ []) c) _ e) [
      | inl first ↦ write_words-ne-thrown _ c x first
      | inr (c1, _, rest) ↦ elim (>>=-eq-thrown (copy_bytes a.length a.body c1) _ rest) [
        | inl second ↦ copy_bytes-ne-thrown a.length a.body c1 x second
        | inr (c2, _, last) ↦ cc
      ]
    ]

serialize_into-ne-thrown :
    (size : ℕ) (m : RpcMessage) (x : RpcException) → serialize_into size m ≢ thrown x
unfolding serialize_into
serialize_into-ne-thrown size m x e =
    elim (>>=-eq-thrown (write_words (header_words m.header) (fresh_buffer size)) _ e) [
      | inl first ↦ write_words-ne-thrown _ _ x first
      | inr (c1, _, r1) ↦ elim (>>=-eq-thrown (write_opaque m.header.cred c1) _ r1) [
        | inl second ↦ write_opaque-ne-thrown _ c1 x second
        | inr (c2, _, r2) ↦ elim (>>=-eq-thrown (write_opaque m.header.verf c2) _ r2) [
          | inl third ↦ write_opaque-ne-thrown _ c2 x third
          | inr (c3, _, r3) ↦
              elim (>>=-eq-thrown (copy_bytes (length m.payload) m.payload c3) _ r3) [
                | inl fourth ↦ copy_bytes-ne-thrown _ _ c3 x fourth
                | inr (c4, _, last) ↦ cc
              ]
        ]
      ]
    ]

-- serializeMessage writes outside the vector that it allocates, whatever the message.
pub serialize_message-fault : (m : RpcMessage) → serialize_message m ≡ fault
unfolding serialize_message
serialize_message-fault m = elim (Outcome-cases (serialize_into (total_size m) m)) [
  | inl (bytes, e) ↦ absurd (omega (arith, serialize_into-size (total_size m) m bytes e))
  | inr (inl (x, e)) ↦ absurd (serialize_into-ne-thrown (total_size m) m x e)
  | inr (inr e) ↦ e
]
