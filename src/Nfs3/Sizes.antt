-- ===== src/Nfs3/Sizes.antt =====
-- The size of the reply to READ, and the entries that READDIR lists, in NFSv3 of
-- src/simple-nfsd/core/server_simple.cpp.
use simple_nfsd.Prelude.{
  ℕ, zero, suc, none, ◌+◌, ◌-◌, ◌%◌, ◌≤◌, ◌<◌, ◌≡◌, ◌⊎◌, refl, ap, ◌∙◌, List, [], ◌∷◌, ◌++◌, Option,
  some, arith, Bool-cases, inl, inr, leb, ltb, length, take, drop, replicate, length-append,
  length-replicate,
}
use simple_nfsd.Bytes.{be32, bytes32, read_uint32, align4}
use simple_nfsd.Rpc.{RpcMessage, create_reply}
use simple_nfsd.Auth.{AuthContext}
use simple_nfsd.Server.Xdr.{push_padding}
use simple_nfsd.Nfs2.{
  Files, State, Handler, Attempt, done, fails, faults, and_then, ◌>>=◌, ask, word, reply_with,
}
use simple_nfsd.Nfs2.Reading.{read_file}
use simple_nfsd.Nfs3.{Disk, attributes, count_successful, succeed}
use simple_nfsd.Nfs3.Reading.{handle_read}
use simple_nfsd.Nfs3.Listing.{push_entry, list_entries}

-- Whatever the part returns is in P.
Gives : {F A : Type 0} → (A → Type 0) → Handler F A → Type 0
Gives P m = (s : State _) (a : _) → (m s).1 ≡ done a → P a

after-Gives :
    {F A B : Type 0} (P : B → Type 0) (m : Handler F A) (f : A → Handler F B)
    → ((s : State F) (a : A) → (m s).1 ≡ done a → Gives P (f a))
    → Gives P (m >>= f)
unfolding Gives
after-Gives P m f h s = go (m s) (λ a e. h s a e)
  where
    go :
        (r : State _ × Attempt _)
        → ((a : _) → r.1 ≡ done a → (t : State _) (b : _) → (f a t).1 ≡ done b → P b)
        → (b : _) → (and_then f r).1 ≡ done b
        → P b
    go (u, done a) k b e = k a refl u b e
    go (u, fails) k b e = absurd (cc)
    go (u, faults) k b e = absurd (cc)

rest-Gives :
    {F A B : Type 0} (P : B → Type 0) (m : Handler F A) (f : A → Handler F B)
    → ((a : A) → Gives P (f a))
    → Gives P (m >>= f)
rest-Gives P m f h = after-Gives P m f (λ s a e. h a)

pub word-done :
    {F : Type 0} (bytes : List ℕ) (offset v : ℕ) (s : State F)
    → (word bytes offset s).1 ≡ done v
    → be32 (drop offset bytes) ≡ v
unfolding word read_uint32
word-done bytes offset v s e = elim (Bool-cases (leb (offset + 4) (length bytes))) [
  | inl fits ↦ cc (e, fits)
  | inr short ↦ absurd (cc (e, short))
]

word-Gives :
    {F B : Type 0} (P : B → Type 0) (bytes : List ℕ) (offset : ℕ) (f : ℕ → Handler F B)
    → Gives P (f (be32 (drop offset bytes)))
    → Gives P (word bytes offset >>= f)
word-Gives P bytes offset f h =
    after-Gives P (word bytes offset) f
      (λ s v e. let same = word-done bytes offset v s e in rw (← same) h)

length-take_le : (n : ℕ) (bytes : List ℕ) → length (take n bytes) ≤ n
length-take_le zero [] = omega arith
length-take_le zero (b ∷ bytes) = omega arith
length-take_le (suc n) [] = omega arith
length-take_le (suc n) (b ∷ bytes) = omega (arith, length-take_le n bytes)

read_file-length :
    {F : Type 0} (os : Files F) (path : List ℕ) (offset count : ℕ) (f : F)
    → length (read_file os path offset count f) ≤ count
unfolding read_file
read_file-length os path offset count f = go (os.contents f path)
  where
    go :
        (o : Option (List ℕ))
        → length (elim o [ none ↦ [] | some bytes ↦ take count (drop offset bytes) ]) ≤ count
    go none = omega arith
    go (some bytes) = length-take_le count (drop offset bytes)

read-Gives :
    {F B : Type 0} (P : B → Type 0) (os : Files F) (path : List ℕ) (offset count : ℕ)
    (f : List ℕ → Handler F B)
    → ((bytes : List ℕ) → length bytes ≤ count → Gives P (f bytes))
    → Gives P (ask (λ g. some (read_file os path offset count g)) >>= f)
unfolding ask
read-Gives P os path offset count f h =
    after-Gives P (ask (λ g. some (read_file os path offset count g))) f (λ s a e. h a (
      let same : read_file os path offset count s.files ≡ a = cc in
      rw (← same) (read_file-length os path offset count s.files)))

length-push_padding : (bytes : List ℕ) → length (push_padding bytes) ≡ align4 (length bytes)
unfolding align4
length-push_padding bytes =
    length-append bytes (replicate (align4 (length bytes) - length bytes) 0)
    ∙ ap (λ k. length bytes + k) (length-replicate (align4 (length bytes) - length bytes) 0)
    ∙ omega arith

-- A reply of whole words, of at most 116 bytes and the count asked for, rounded up.
IsBounded : ℕ → RpcMessage → Type 0
IsBounded count r = (length r.payload % 4 ≡ 0) × (length r.payload < 120 + count)

read_reply-IsBounded :
    (F : Type 0) (m : RpcMessage) (type perms nlink size handle count eof : ℕ) (bytes : List ℕ)
    → length bytes ≤ count
    → Gives (IsBounded count) (
        succeed {F = F} m (
          push_padding (
            attributes type perms nlink size handle
            ++ (bytes32 (length bytes) ++ (bytes32 eof ++ bytes)))))
unfolding Gives IsBounded succeed count_successful reply_with create_reply attributes align4
read_reply-IsBounded F m type perms nlink size handle count eof bytes short s a e =
    let body : List ℕ =
      attributes type perms nlink size handle
      ++ (bytes32 (length bytes) ++ (bytes32 eof ++ bytes)) in
    let long : length body ≡ 116 + length bytes = omega arith in
    let whole = length-push_padding body in
    let same : push_padding body ≡ a.payload = cc in rw (← same) (omega (arith, whole))

handle_read-Gives :
    {F : Type 0} (disk : Disk F) (m : RpcMessage) (c : AuthContext)
    → Gives (IsBounded (be32 (drop 16 m.payload))) (handle_read disk m c)
unfolding handle_read
handle_read-Gives disk m c =
    search (read_reply-IsBounded, read-Gives, word-Gives, rest-Gives) depth 40 fits 20000

-- The reply to a READ is a whole number of words, and at most 119 bytes longer than the count at offset
-- 16 of the message: what the file holds does not bear on it.
pub handle_read_bounded :
    {F : Type 0} (disk : Disk F) (m : RpcMessage) (c : AuthContext) (s t : State F) (r : RpcMessage)
    → handle_read disk m c s ≡ (t, done r)
    → (length r.payload % 4 ≡ 0) × (length r.payload < 120 + be32 (drop 16 m.payload))
unfolding Gives IsBounded
handle_read_bounded disk m c s t r e = handle_read-Gives disk m c s r (ap (λ x. x.1) e)

-- The entries of a directory behind a reply, with none left out: file ids and cookies count from i.
unfoldable pub pushed : ℕ → List (List ℕ) → List ℕ → List ℕ
pushed i [] reply = reply
pushed i (name ∷ names) reply = pushed (i + 1) names (push_entry reply (i + 1) name (i + 1))

-- Behind an entry that another follows, the reply is within the count.
abbrev GoesOn : ℕ → List (List ℕ) → List ℕ → Type 0
GoesOn count [] reply = Unit {0}
GoesOn count (name ∷ names) reply = length reply ≤ count

-- Every entry is below the limit, and the reply is within the count in front of all but the first.
unfoldable pub Fits : ℕ → ℕ → ℕ → List (List ℕ) → List ℕ → Type 0
Fits limit count i [] reply = Unit {0}
Fits limit count i (name ∷ names) reply =
    let longer = push_entry reply (i + 1) name (i + 1) in
    (i < limit) × GoesOn count names longer × Fits limit count (i + 1) names longer

within-GoesOn :
    (count : ℕ) (names : List (List ℕ)) (reply : List ℕ)
    → length reply ≤ count
    → GoesOn count names reply
within-GoesOn count [] reply h = tt
within-GoesOn count (name ∷ names) reply h = h

-- A listing holds the first k names in order, where each stands below the limit on entries, and the
-- reply in front of each but the first is within the count of bytes; and k is the number of all names,
-- or reaches the limit on entries, or the reply is longer than the count.
pub list_entries_lem :
    (limit count i : ℕ) (names : List (List ℕ)) (reply : List ℕ)
    → (k : ℕ) × (k ≤ length names)
      × (list_entries limit count i names reply ≡ pushed i (take k names) reply)
      × Fits limit count i (take k names) reply
      × ((k ≡ length names) ⊎ ((limit ≤ i + k) ⊎ (count < length (pushed i (take k names) reply))))
unfolding list_entries pushed Fits
list_entries_lem limit count i [] reply = (0, omega arith, refl, tt, inl refl)
list_entries_lem limit count i (name ∷ names) reply = elim (Bool-cases (ltb i limit)) [
  | inr full ↦ (0, omega arith, rw full refl, tt, inr (inl (ground (arith, full))))
  | inl room ↦
      let longer = push_entry reply (i + 1) name (i + 1) in
      elim (Bool-cases (ltb count (length longer))) [
        | inl long ↦ (
          1,
          omega arith,
          rw (room, long) refl,
          (ground (arith, room), tt, tt),
          inr (inr (ground (arith, long))),
        )
        | inr short ↦
            let (k, le, same, fits, stops) = list_entries_lem limit count (i + 1) names longer in
            (
              suc k,
              omega arith,
              rw (room, short) same,
              (
                ground (arith, room),
                within-GoesOn count (take k names) longer (ground (arith, short)),
                fits,
              ),
              ground (arith, stops),
            )
      ]
]
