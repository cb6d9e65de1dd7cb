-- ===== src/Rpc/AuthSys.antt =====
-- AUTH_SYS credentials: createAuthSys against parseAuthSys.
use simple_nfsd.Prelude.{
  ℕ, ◌+◌, ◌-◌, ◌*◌, ◌/◌, ◌%◌, ◌≤◌, ◌≡◌, ◌≢◌, inl, inr, refl, sym, ap, ◌∙◌, List, [], ◌∷◌, ◌++◌,
  false, ltb, length, drop, length-append, length-replicate, length-drop, All, arith,
}
use mathlib.Core.List.{append_assoc, append-nil}
use simple_nfsd.Bytes.{
  ok, thrown, fault, ◌>>=◌, >>=-eq-ok, >>=-eq-thrown, Outcome-cases, RpcException, IsU32, bytes32,
  words, align4,
}
use simple_nfsd.Bytes.Laws.{read_uint32-at, drop-advance, slice-at, align4_lem}
use simple_nfsd.Bytes.Cursor.{
  filled, fresh_buffer, put_bytes, write_words, align_cursor, put_bytes-offset, put_bytes-filled,
  write_words-offset, write_words-filled,
}
use simple_nfsd.Rpc.{
  RpcAuthData, AuthSysCredentials, auth_sys, auth_sys_size, create_auth_sys, parse_gids,
  parse_auth_sys_body, parse_auth_sys,
}
use simple_nfsd.Rpc.Overflow.{put_bytes-ne-thrown, write_words-ne-thrown}
use simple_nfsd.Rpc.RoundTrip.{At}

abbrev pub auth_sys_layout : AuthSysCredentials → List ℕ
auth_sys_layout c =
    words (c.stamp ∷ length c.machinename ∷ [])
    ++ (c.machinename ++ (words (c.uid ∷ c.gid ∷ length c.gids ∷ []) ++ words c.gids))

-- Every number, and every length, is a uint32_t.
pub record IsCredentials (c : AuthSysCredentials) : Type 0 where
  pub stamp_fits : IsU32 c.stamp
  pub name_fits : IsU32 (length c.machinename)
  pub uid_fits : IsU32 c.uid
  pub gid_fits : IsU32 c.gid
  pub count_fits : IsU32 (length c.gids)
  pub gids_fit : All IsU32 c.gids

align_cursor-aligned :
    (w : List ℕ) (k : ℕ) → length w % 4 ≡ 0 → align_cursor (filled w k) ≡ filled w k
unfolding align_cursor
align_cursor-aligned w k m =
    let e : align4 (length w) ≡ length w = align4_lem (length w) ∙ omega arith in rw e refl

-- Where the length of the machine name is a multiple of 4, createAuthSys writes the layout.
pub create_auth_sys-layout :
    (c : AuthSysCredentials)
    → length c.machinename % 4 ≡ 0
    → create_auth_sys c ≡ ok (record { flavor = auth_sys; body = auth_sys_layout c })
unfolding create_auth_sys
create_auth_sys-layout c m =
    let n = length c.machinename in
    let g = 4 * length c.gids + 0 in
    let w0 : List ℕ = words (c.stamp ∷ n ∷ []) in
    let w1 : List ℕ = w0 ++ c.machinename in
    let w2 : List ℕ = w1 ++ words (c.uid ∷ c.gid ∷ length c.gids ∷ []) in
    let size : auth_sys_size c ≡ 8 + (n + (12 + g)) = unfold auth_sys_size in omega arith in
    rw
      (
        size,
        write_words-filled (c.stamp ∷ n ∷ []) [] (n + (12 + g)),
        ◌>>=◌,
        put_bytes-filled c.machinename w0 (12 + g),
        ◌>>=◌,
        align_cursor-aligned w1 (12 + g) (omega (arith, length-append w0 c.machinename)),
        write_words-filled (c.uid ∷ c.gid ∷ length c.gids ∷ []) w1 g,
        ◌>>=◌,
        write_words-filled c.gids w2 0,
        ◌>>=◌,
      )
      (ap (λ (b : List ℕ). ok (record { flavor = auth_sys; body = b }))
        (append-nil (w2 ++ words c.gids)
          ∙ append_assoc w1 (words (c.uid ∷ c.gid ∷ length c.gids ∷ [])) (words c.gids)
          ∙ append_assoc w0 c.machinename
              (words (c.uid ∷ c.gid ∷ length c.gids ∷ []) ++ words c.gids)))

create_auth_sys-ne-ok :
    (c : AuthSysCredentials) (a : RpcAuthData)
    → length c.machinename % 4 ≢ 0
    → create_auth_sys c ≢ ok a
unfolding create_auth_sys
create_auth_sys-ne-ok c a m e =
    let n = length c.machinename in
    let start = fresh_buffer (auth_sys_size c) in
    let (c1, e1, r1) = >>=-eq-ok (write_words (c.stamp ∷ n ∷ []) start) _ e in
    let (c2, e2, r2) = >>=-eq-ok (put_bytes c.machinename c1) _ r1 in
    let (c3, e3, r3) =
      >>=-eq-ok (write_words (c.uid ∷ c.gid ∷ length c.gids ∷ []) (align_cursor c2)) _ r2 in
    let (c4, e4, r4) = >>=-eq-ok (write_words c.gids c3) _ r3 in
    let al : (align_cursor c2).offset ≡ (c2.offset + 3) / 4 * 4 =
      unfold align_cursor in align4_lem c2.offset in
    let same : (align_cursor c2).buf ≡ c2.buf = unfold align_cursor in refl in
    let size : length start.buf ≡ 4 + (4 + n) + 4 + 4 + (4 + length c.gids * 4) =
      unfold auth_sys_size in length-replicate (auth_sys_size c) 0 in
    omega (
      arith,
      size,
      al,
      ap length same,
      write_words-offset (c.stamp ∷ n ∷ []) start c1 e1,
      put_bytes-offset c.machinename c1 c2 e2,
      write_words-offset (c.uid ∷ c.gid ∷ length c.gids ∷ []) (align_cursor c2) c3 e3,
      write_words-offset c.gids c3 c4 e4,
    )

create_auth_sys-ne-thrown :
    (c : AuthSysCredentials) (x : RpcException) → create_auth_sys c ≢ thrown x
unfolding create_auth_sys
create_auth_sys-ne-thrown c x e = elim (>>=-eq-thrown (write_words _ _) _ e) [
  | inl p ↦ write_words-ne-thrown _ _ x p
  | inr (c1, _, r1) ↦ elim (>>=-eq-thrown (put_bytes c.machinename c1) _ r1) [
    | inl p ↦ put_bytes-ne-thrown _ c1 x p
    | inr (c2, _, r2) ↦ elim (>>=-eq-thrown (write_words _ (align_cursor c2)) _ r2) [
      | inl p ↦ write_words-ne-thrown _ _ x p
      | inr (c3, _, r3) ↦ elim (>>=-eq-thrown (write_words c.gids c3) _ r3) [
        | inl p ↦ write_words-ne-thrown _ _ x p
        | inr (c4, _, last) ↦ cc
      ]
    ]
  ]
]

-- Where the length of the machine name is no multiple of 4, createAuthSys writes outside the vector
-- that it allocates: the padding is not in its sum.
pub create_auth_sys-fault :
    (c : AuthSysCredentials) → length c.machinename % 4 ≢ 0 → create_auth_sys c ≡ fault
create_auth_sys-fault c m = elim (Outcome-cases (create_auth_sys c)) [
  | inl (a, e) ↦ absurd (create_auth_sys-ne-ok c a m e)
  | inr (inl (x, e)) ↦ absurd (create_auth_sys-ne-thrown c x e)
  | inr (inr e) ↦ e
]

parse_gids-words :
    (gs bytes : List ℕ) (off : ℕ)
    → At bytes off (words gs)
    → All IsU32 gs
    → parse_gids (length gs) bytes off ≡ ok gs
unfolding parse_gids
parse_gids-words [] bytes off at h = refl
parse_gids-words (g ∷ gs) bytes off at h =
    let r = read_uint32-at bytes off g (words gs) at h.0 in
    let n : length bytes - off ≡ 4 + length (words gs) =
      sym (length-drop off bytes) ∙ ap length at ∙ omega arith in
    let rest =
      parse_gids-words gs bytes (off + 4) (drop-advance off bytes (bytes32 g) (words gs) at) h.1 in
    ground (arith, n, r, rest)

parse_body-layout :
    (c : AuthSysCredentials)
    → IsCredentials c
    → length c.machinename % 4 ≡ 0
    → parse_auth_sys_body (auth_sys_layout c) ≡ ok c
unfolding parse_auth_sys_body
parse_body-layout c v m =
    let n = length c.machinename in
    let bytes = auth_sys_layout c in
    let ids : List ℕ = words (c.uid ∷ c.gid ∷ length c.gids ∷ []) ++ words c.gids in
    let al : align4 (8 + n) ≡ 8 + n = align4_lem (8 + n) ∙ omega arith in
    let whole : length bytes ≡ 8 + n + (12 + length (words c.gids)) =
      omega (arith, length-append c.machinename ids) in
    let at : At bytes (8 + n) ids = drop-advance 8 bytes c.machinename ids refl in
    let at4 : At bytes (8 + n + 4) (drop 4 ids) = drop-advance (8 + n) bytes (bytes32 c.uid) _ at in
    let e8 : 8 + n + 8 ≡ 8 + n + 4 + 4 = omega arith in
    let at8 : At bytes (8 + n + 8) (drop 8 ids) =
      rw e8 (drop-advance (8 + n + 4) bytes (bytes32 c.gid) _ at4) in
    let e12 : 8 + n + 12 ≡ 8 + n + 8 + 4 = omega arith in
    let at12 : At bytes (8 + n + 12) (words c.gids) =
      rw e12 (drop-advance (8 + n + 8) bytes (bytes32 (length c.gids)) _ at8) in
    let room : ltb (length bytes) (8 + n) ≡ false = ground (arith, whole) in
    rw (
      read_uint32-at bytes 0 c.stamp _ refl v.stamp_fits,
      ◌>>=◌,
      read_uint32-at bytes 4 n _ refl v.name_fits,
      ◌>>=◌,
      room,
      slice-at bytes 8 c.machinename ids refl,
      al,
      read_uint32-at bytes (8 + n) c.uid _ at v.uid_fits,
      ◌>>=◌,
      read_uint32-at bytes (8 + n + 4) c.gid _ at4 v.gid_fits,
      ◌>>=◌,
      read_uint32-at bytes (8 + n + 8) (length c.gids) _ at8 v.count_fits,
      ◌>>=◌,
      parse_gids-words c.gids bytes (8 + n + 12) at12 v.gids_fit,
    )

-- parseAuthSys reads back the credentials that createAuthSys wrote, where it writes any.
parse-create_auth_sys :
    (c : AuthSysCredentials)
    → IsCredentials c
    → length c.machinename % 4 ≡ 0
    → (create_auth_sys c >>= parse_auth_sys) ≡ ok c
unfolding parse_auth_sys
parse-create_auth_sys c v m =
    let whole : 16 ≤ length (auth_sys_layout c) = omega (
      arith,
      length-append c.machinename (words (c.uid ∷ c.gid ∷ length c.gids ∷ []) ++ words c.gids),
    ) in
    rw (create_auth_sys-layout c m, ◌>>=◌) (ground (arith, whole, parse_body-layout c v m))
