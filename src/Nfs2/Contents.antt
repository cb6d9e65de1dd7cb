-- ===== src/Nfs2/Contents.antt =====
-- What READ and WRITE do with the bytes of a file, and what a name that is too long does, in
-- src/simple-nfsd/core/server_simple.cpp.
use simple_nfsd.Prelude.{
  ℕ, ◌+◌, ◌%◌, ◌^◌, ◌<◌, ◌≤◌, ◌≡◌, ◌↔◌, refl, sym, ◌∙◌, Bool, true, false, List, ◌++◌, some,
  if◌then◌else◌, arith, Bool-cases, inl, inr, leb, length, take, drop,
}
use simple_nfsd.Bytes.{be32, read_uint32, slice}
use simple_nfsd.Nfs2.{Files, State, done, fails, faults, require, word, bytes_at}
use simple_nfsd.Nfs2.Reading.{named, read_file}
use simple_nfsd.Nfs2.Changing.{write_file}

-- What is appended, as READ finds it: the offset of the WRITE has no part in it.
read_file-write_file :
    {F : Type 0} (os : Files F)
    → ((f : F) (path old new : List ℕ)
        → os.contents f path ≡ some old
        → (os.append f path new).1 ≡ true
        → os.contents (os.append f path new).0 path ≡ some (old ++ new))
    → (f : F) (path old new : List ℕ) (offset from count : ℕ) → os.contents f path ≡ some old
    → (write_file os path offset new f).1 ≡ true
    → read_file os path from count (write_file os path offset new f).0
      ≡ take count (drop from (old ++ new))
unfolding read_file write_file
read_file-write_file os law f path old new offset from count e w =
    rw (read_file, law f path old new e w) refl

word_lem :
    {F : Type 0} (bytes : List ℕ) (offset : ℕ) (s : State F)
    → offset + 4 ≤ length bytes
    → word bytes offset s ≡ (s, done (be32 (drop offset bytes)))
unfolding word read_uint32
word_lem bytes offset s room =
    let fits : leb (offset + 4) (length bytes) ≡ true = ground arith in rw fits refl

-- How the name of a request is taken.
pub named_lem :
    {F : Type 0} (bytes : List ℕ) (s : State F)
    → 8 ≤ length bytes
    → (named bytes s).1 ≡ (
        if leb ((8 + be32 (drop 4 bytes)) % 2 ^ 32) (length bytes)
        then (if leb (8 + be32 (drop 4 bytes)) (length bytes)
            then done (be32 bytes, slice bytes 8 (be32 (drop 4 bytes)))
            else faults)
        else fails)
unfolding named require bytes_at
named_lem bytes s room =
    let fits : leb 8 (length bytes) ≡ true = ground arith in
    let n = be32 (drop 4 bytes) in
    rw (fits, word_lem bytes 0 s (omega arith), word_lem bytes 4 s (omega arith))
      (elim (Bool-cases (leb ((8 + n) % 2 ^ 32) (length bytes))) [
        | inl passes ↦ elim (Bool-cases (leb (8 + n) (length bytes))) [
          | inl inside ↦ rw (passes, inside) refl
          | inr outside ↦ rw (passes, outside) refl
        ]
        | inr refused ↦ rw refused refl
      ])

pub named_short :
    {F : Type 0} (bytes : List ℕ) (s : State F)
    → leb 8 (length bytes) ≡ false
    → (named bytes s).1 ≡ fails
unfolding named require
named_short bytes s short = rw short refl

faults_when :
    {A : Type 0} (passes fits : Bool) (a : A)
    → (if passes then (if fits then done a else faults) else fails) ≡ faults
    → (passes ≡ true) × (fits ≡ false)
faults_when true true a e = absurd (cc)
faults_when true false a e = (refl, refl)
faults_when false fits a e = absurd (cc)

-- The name of a request is read past the end of the message exactly where the message holds the two
-- words in front of it and the length in the second one, plus 8, wraps round 2^32 to no more than the
-- size of the message, though the name does not fit.
pub named-faults :
    {F : Type 0} (bytes : List ℕ) (s : State F)
    → ((named bytes s).1 ≡ faults) ↔ (
        (8 ≤ length bytes)
        × ((8 + be32 (drop 4 bytes)) % 2 ^ 32 ≤ length bytes)
        × (length bytes < 8 + be32 (drop 4 bytes)))
named-faults bytes s = (
  (λ e. elim (Bool-cases (leb 8 (length bytes))) [
    | inl room ↦
        let (passes, outside) = faults_when _ _ _ (sym (named_lem bytes s (ground arith)) ∙ e) in
        (ground (arith, room), ground (arith, passes), ground (arith, outside))
    | inr short ↦ absurd (cc (e, named_short bytes s short))
  ]),
  λ h. named_lem bytes s h.0 ∙ ground (arith, h.1, h.2),
)
