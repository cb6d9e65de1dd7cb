-- ===== src/Nfs3/Leaks.antt =====
-- READDIR and READDIRPLUS of NFSv3 read past what they were given, in
-- src/simple-nfsd/core/server_simple.cpp.
use simple_nfsd.Prelude.{
  ℕ, ◌+◌, ◌*◌, ◌%◌, ◌^◌, ◌≤◌, ◌<◌, ◌≡◌, ◌⊎◌, ◌∙◌, refl, subst, Bool, true, false, List, [], ◌++◌,
  arith, leb, length, take, drop, if◌then◌else◌, Bool-cases, inl, inr, ap, sym, length-append,
}
use simple_nfsd.Bytes.{bytes32, be32, read_uint32}
use simple_nfsd.Rpc.{RpcMessage, create_reply}
use simple_nfsd.Auth.{AuthContext}
use simple_nfsd.Server.Handles.{get_path_from_handle}
use simple_nfsd.Nfs2.{
  State, Attempt, done, fails, faults, require, word, reply_with, path_of, check_access,
}
use simple_nfsd.Nfs2.Reading.{read_directory}
use simple_nfsd.Nfs2.Lookup.{Ends, Yields, rest-Yields}
use simple_nfsd.Nfs2.Stuck.{Quiet}
use simple_nfsd.Nfs3.{Disk, word64, handle_at, count_successful, succeed}
use simple_nfsd.Nfs3.Reading.{allowed_path}
use simple_nfsd.Nfs3.Listing.{
  directory_at, list_entries, end_listing, handle_read_dir, handle_read_dir_plus,
}
use simple_nfsd.Nfs3.Sizes.{Fits, pushed, list_entries_lem, word-done}
use simple_nfsd.Nfs3.Refused.{reads}
use simple_nfsd.Nfs3.Anonymous.{existing-Quiet}

-- What a READDIR asks for: the cookie to go on from, and the names in the directory of its handle.
abbrev pub double_at : RpcMessage → ℕ → ℕ
double_at m offset = be32 (drop offset m.payload) * 2 ^ 32 + be32 (drop (offset + 4) m.payload)

abbrev pub all_names : {F : Type 0} → Disk F → RpcMessage → State F → List (List ℕ)
all_names disk m s =
    read_directory disk.files (get_path_from_handle (double_at m 0 % 2 ^ 32) s.handles) s

-- A listing of the names from the cookie on: the entries, the flag, and what stands behind it.
pub record IsListing (cookie bytes : ℕ) (names : List (List ℕ)) (beyond payload : List ℕ)
    : Type 0 where
  pub count : ℕ
  pub fits : Fits ((cookie + 100) % 2 ^ 64) bytes cookie (take count (drop cookie names)) []
  pub stops :
      (count ≡ length (drop cookie names))
      ⊎ (((cookie + 100) % 2 ^ 64 ≤ cookie + count)
          ⊎ (bytes < length (pushed cookie (take count (drop cookie names)) [])))
  pub holds :
      payload
      ≡ pushed cookie (take count (drop cookie names)) []
        ++ (bytes32 (if leb (length names) ((cookie + 100) % 2 ^ 64) then 1 else 0) ++ beyond)
  pub excess : length payload ≡ length (pushed cookie (take count (drop cookie names)) []) + 8

list_entries-IsListing :
    (cookie bytes : ℕ) (names : List (List ℕ)) (beyond : List ℕ)
    → length beyond ≡ 4
    → IsListing cookie bytes names beyond (
        list_entries ((cookie + 100) % 2 ^ 64) bytes cookie (drop cookie names) []
        ++ (bytes32 (if leb (length names) ((cookie + 100) % 2 ^ 64) then 1 else 0) ++ beyond))
list_entries-IsListing cookie bytes names beyond four =
    let (k, le, same, fits, stops) =
      list_entries_lem ((cookie + 100) % 2 ^ 64) bytes cookie (drop cookie names) [] in
    let flag : ℕ = if leb (length names) ((cookie + 100) % 2 ^ 64) then 1 else 0 in
    let entries = pushed cookie (take k (drop cookie names)) [] in
    let whole = ap (λ u. u ++ (bytes32 flag ++ beyond)) same in
    record {
      count = k;
      fits = fits;
      stops = stops;
      holds = whole;
      excess =
          ap length whole ∙ length-append entries (bytes32 flag ++ beyond) ∙ omega (arith, four);
    }

-- The reply to the READDIR of the message.
abbrev pub Replies : {F : Type 0} → Disk F → RpcMessage → State F → RpcMessage → Type 0
Replies disk m s r =
    IsListing (double_at m 8) (be32 (drop 16 m.payload)) (all_names disk m s)
      (disk.beyond_flag s.files) r.payload

word64-done :
    {F : Type 0} (m : RpcMessage) (offset v : ℕ) (s : State F)
    → (word64 m.payload offset s).1 ≡ done v
    → double_at m offset ≡ v
unfolding word64 word read_uint32
word64-done m offset v s e = elim (Bool-cases (leb (offset + 4) (length m.payload))) [
  | inr short ↦ absurd (ground (arith, e, short))
  | inl room ↦ elim (Bool-cases (leb (offset + 4 + 4) (length m.payload))) [
    | inr short ↦ absurd (ground (arith, e, room, short))
    | inl more ↦ ground (arith, e, room, more)
  ]
]

allowed_path-done :
    {F : Type 0} (m : RpcMessage) (c : AuthContext) (s : State F) (a : ℕ × List ℕ)
    → (allowed_path m.payload c true false s).1 ≡ done a
    → get_path_from_handle (double_at m 0 % 2 ^ 32) s.handles ≡ a.1
unfolding allowed_path handle_at word64 word read_uint32 path_of check_access
allowed_path-done m c s a e = elim (Bool-cases (leb 4 (length m.payload))) [
  | inr short ↦ absurd (ground (arith, e, short))
  | inl room ↦ elim (Bool-cases (leb 8 (length m.payload))) [
    | inr short ↦ absurd (ground (arith, e, room, short))
    | inl more ↦ ground (arith, e, room, more)
  ]
]

Ends-done :
    {F A : Type 0} (Q : State F → A → Type 0) (r : State F × Attempt A) (a : A)
    → Ends Q r
    → r.1 ≡ done a
    → Q r.0 a
unfolding Ends
Ends-done Q (t, done b) a h e = let same : b ≡ a = cc in subst (Q t) same h
Ends-done Q (t, fails) a h e = absurd (cc)
Ends-done Q (t, faults) a h e = absurd (cc)

module _ {F : Type 0} (disk : Disk F) (m : RpcMessage) (c : AuthContext) (s : State F) where
  pub directory_at-Quiet : (path : List ℕ) → Quiet (directory_at disk path) s
  unfolding directory_at Quiet
  directory_at-Quiet path = search (existing-Quiet, reads) depth 30

  allowed_path-Quiet : (bytes : List ℕ) (r w : Bool) → Quiet (allowed_path bytes c r w) s
  unfolding allowed_path
  allowed_path-Quiet bytes r w = search reads depth 30

  names-Yields :
      (path : List ℕ)
      → Yields
          (λ t names. read_directory disk.files path s ≡ names)
          (λ u. (u, done (read_directory disk.files path u)))
          s
  unfolding Yields Ends
  names-Yields path = refl

  directory_at-Yields :
      (path : List ℕ)
      → Yields (λ t names. read_directory disk.files path s ≡ names) (directory_at disk path) s
  unfolding directory_at
  directory_at-Yields path = search (names-Yields, rest-Yields, existing-Quiet, reads) depth 30

  end_listing-Yields :
      (cookie count : ℕ) (target : ℕ × List ℕ) (names : List (List ℕ))
      → ((f : F) → length (disk.beyond_flag f) ≡ 4)
      → (word64 m.payload 8 s).1 ≡ done cookie
      → (word m.payload 16 s).1 ≡ done count
      → (allowed_path m.payload c true false s).1 ≡ done target
      → (directory_at disk target.1 s).1 ≡ done names
      → Yields
          (λ t r. Replies disk m s r)
          (end_listing disk m names
            ((cookie + 100) % 2 ^ 64)
            (list_entries ((cookie + 100) % 2 ^ 64) count cookie (drop cookie names) []))
          s
  unfolding Yields Ends end_listing succeed count_successful reply_with create_reply
  end_listing-Yields cookie count target names four is_cookie is_count is_target is_names =
      let listed : ℕ → ℕ → List (List ℕ) → List ℕ = λ i n ns.
        list_entries ((i + 100) % 2 ^ 64) n i (drop i ns) []
        ++ (bytes32 (if leb (length ns) ((i + 100) % 2 ^ 64) then 1 else 0)
            ++ disk.beyond_flag s.files) in
      let e1 = word64-done m 8 cookie s is_cookie in
      let e2 = word-done m.payload 16 count s is_count in
      let e3 = allowed_path-done m c s target is_target in
      let e4 =
        Ends-done (λ t ns. read_directory disk.files target.1 s ≡ ns) (directory_at disk target.1 s)
          names (directory_at-Yields target.1) is_names in
      let e5 : all_names disk m s ≡ names = ap (λ p. read_directory disk.files p s) e3 ∙ e4 in
      subst
        (λ x.
          IsListing x (be32 (drop 16 m.payload)) (all_names disk m s) (disk.beyond_flag s.files)
            (listed cookie count names))
        (sym e1)
        (subst
          (λ x.
            IsListing cookie x (all_names disk m s) (disk.beyond_flag s.files)
              (listed cookie count names))
          (sym e2)
          (subst
            (λ x. IsListing cookie count x (disk.beyond_flag s.files) (listed cookie count names))
            (sym e5)
            (list_entries-IsListing cookie count names (disk.beyond_flag s.files) (four s.files))))

  handle_read_dir-Yields :
      ((f : F) → length (disk.beyond_flag f) ≡ 4)
      → Yields (λ t r. Replies disk m s r) (handle_read_dir disk m c) s
  unfolding handle_read_dir
  handle_read_dir-Yields four =
      search (end_listing-Yields, rest-Yields, directory_at-Quiet, allowed_path-Quiet, reads, four)
        depth 40 fits 20000

-- A READDIR that is answered, where four bytes stand behind the flag on the stack, sends the entries
-- of names in the directory of its handle, from the cookie in the message on, in order: each below
-- the cookie plus 100, modulo 2^64, and within the count in the message but for the last, and as many
-- as these limits and the directory allow; then the flag, which is 1 if the directory has no more
-- names than that limit; and then the four bytes of the stack.
pub handle_read_dir-IsListing :
    {F : Type 0} (disk : Disk F) (m : RpcMessage) (c : AuthContext) (s t : State F) (r : RpcMessage)
    → ((f : F) → length (disk.beyond_flag f) ≡ 4)
    → handle_read_dir disk m c s ≡ (t, done r)
    → Replies disk m s r
unfolding Yields Ends
handle_read_dir-IsListing disk m c s t r four e =
    subst (Ends (λ u x. Replies disk m s x)) e (handle_read_dir-Yields disk m c s four)

-- Every READDIRPLUS of 20 to 23 bytes passes the test of its length and is then read past its end.
pub handle_read_dir_plus-faults :
    {F : Type 0} (disk : Disk F) (m : RpcMessage) (c : AuthContext) (s : State F)
    → 20 ≤ length m.payload
    → length m.payload < 24
    → handle_read_dir_plus disk m c s ≡ (s, faults)
unfolding handle_read_dir_plus require word64 word read_uint32
handle_read_dir_plus-faults disk m c s enough short = ground arith
