-- ===== src/Bytes/Cursor.antt =====
-- Writing into a vector of a fixed size at a moving offset.
use simple_nfsd.Prelude.{
  ℕ, suc, ◌+◌, ◌*◌, ◌≤◌, ◌≡◌, ◌⊎◌, inl, refl, sym, ◌∙◌, List, [], ◌∷◌, ◌++◌, ltb, leb,
  if◌then◌else◌, length, take, drop, replicate, length-append, length-drop, length-replicate, arith,
}
use simple_nfsd.Bytes.{Outcome, ok, fault, ◌>>=◌, >>=-eq-ok, bytes32, words, align4}
use simple_nfsd.Bytes.Laws.{
  take-append, drop-append, drop-drop, length-take-le, replicate-add, drop-replicate, pad, padding,
  align4-pad,
}
use mathlib.Core.List.{append_assoc, append-nil}

pub record Cursor : Type 0 where
  pub buf : List ℕ
  pub offset : ℕ

-- result.resize(n), offset = 0
abbrev pub fresh_buffer : ℕ → Cursor
fresh_buffer n = record { buf = replicate n 0; offset = 0 }

-- memcpy of a whole array to the offset.
unfoldable pub put_bytes : List ℕ → Cursor → Outcome Cursor
put_bytes bs c =
    if leb (c.offset + length bs) (length c.buf)
    then ok (record {
      buf = take c.offset c.buf ++ (bs ++ drop (c.offset + length bs) c.buf);
      offset = c.offset + length bs;
    })
    else fault

unfoldable pub write_uint32 : ℕ → Cursor → Outcome Cursor
unfolding put_bytes
write_uint32 v c = put_bytes (bytes32 v) c

-- writeUint32 of each value in turn.
unfoldable pub write_words : List ℕ → Cursor → Outcome Cursor
write_words [] c = ok c
write_words (v ∷ vs) c = write_uint32 v c >>= write_words vs

-- `if (n > 0) { memcpy(buf + offset, src, n); offset += n; }`, which also reads `n` bytes of `src`.
unfoldable pub copy_bytes : ℕ → List ℕ → Cursor → Outcome Cursor
copy_bytes n src c =
    if ltb 0 n then (if leb n (length src) then put_bytes (take n src) c else fault) else ok c

unfoldable pub align_cursor : Cursor → Cursor
align_cursor c = record c { offset = align4 c.offset }

-- A write that succeeds moves the offset on by what it wrote, within the buffer.
pub put_bytes-offset :
    (bs : List ℕ) (c c' : Cursor)
    → put_bytes bs c ≡ ok c'
    → (c'.offset ≡ c.offset + length bs)
      × (c'.offset ≤ length c.buf)
      × (length c'.buf ≡ length c.buf)
unfolding put_bytes
put_bytes-offset bs c c' e = ground (
  arith,
  length-take-le c.offset c.buf,
  length-append (take c.offset c.buf) (bs ++ drop (c.offset + length bs) c.buf),
  length-append bs (drop (c.offset + length bs) c.buf),
  length-drop (c.offset + length bs) c.buf,
)

pub write_words-offset :
    (vs : List ℕ) (c c' : Cursor)
    → write_words vs c ≡ ok c'
    → (c'.offset ≡ c.offset + 4 * length vs)
      × (length c'.buf ≡ length c.buf)
      × ((length vs ≡ 0) ⊎ (c'.offset ≤ length c.buf))
unfolding write_words write_uint32
write_words-offset [] c c' e = (ground arith, ground arith, inl refl)
write_words-offset (v ∷ vs) c c' e =
    let (c1, e1, e2) = >>=-eq-ok (put_bytes (bytes32 v) c) (write_words vs) e in
    ground (arith, put_bytes-offset (bytes32 v) c c1 e1, write_words-offset vs c1 c' e2)

-- The buffer filled up to the offset, with `k` zeros left.
abbrev pub filled : List ℕ → ℕ → Cursor
filled w k = record { buf = w ++ replicate k 0; offset = length w }

pub put_bytes-filled :
    (bs w : List ℕ) (k : ℕ) → put_bytes bs (filled w (length bs + k)) ≡ ok (filled (w ++ bs) k)
unfolding put_bytes
put_bytes-filled bs w k =
    let z : List ℕ = replicate (length bs + k) 0 in
    let tail : drop (length w + length bs) (w ++ z) ≡ replicate k 0 =
      sym (drop-drop (length w) (length bs) (w ++ z))
      ∙ rw (drop-append w z) (drop-replicate (length bs) k 0) in
    ground (
      arith,
      tail,
      take-append w z,
      length-append w z,
      length-append w bs,
      length-replicate {A = ℕ} (length bs + k) 0,
      append_assoc w bs (replicate k 0),
    )

-- The writes of `vs` fill `words vs` in.
pub write_words-filled :
    (vs w : List ℕ) (k : ℕ)
    → write_words vs (filled w (4 * length vs + k)) ≡ ok (filled (w ++ words vs) k)
unfolding write_words write_uint32
write_words-filled [] w k = let e : 4 * 0 + k ≡ k = omega arith in rw (e, append-nil) refl
write_words-filled (v ∷ vs) w k =
    let e : 4 * suc (length vs) + k ≡ 4 + (4 * length vs + k) = omega arith in
    rw (e, put_bytes-filled (bytes32 v) w (4 * length vs + k), ◌>>=◌)
      (rw (← append_assoc w (bytes32 v) (words vs)) (write_words-filled vs (w ++ bytes32 v) k))

-- Moving on to the next multiple of 4 over zeros.
pub align_cursor-filled :
    (w : List ℕ) (k : ℕ)
    → align_cursor (filled w (padding (length w) + k)) ≡ filled (w ++ pad (length w)) k
unfolding align_cursor
align_cursor-filled w k =
    let z : List ℕ = pad (length w) in
    ground (
      arith,
      align4-pad (length w),
      replicate-add {A = ℕ} (padding (length w)) k 0,
      length-append w z,
      length-replicate {A = ℕ} (padding (length w)) 0,
      append_assoc w z (replicate k 0),
    )
