-- ===== src/Lock/Range.antt =====
-- FileLock::overlaps against the bytes that two locks cover.
use simple_nfsd.Prelude.{ℕ, ◌+◌, ◌≤◌, ◌<◌, ◌≡◌, ◌↔◌, true, false, arith, leb, if◌then◌else◌, eq_iff}
use simple_nfsd.Lock.{FileLock, range_end, overlaps, uint64_mod}

-- The lock covers the byte at `x`.
abbrev pub Covers : FileLock → ℕ → Type 0
Covers l x = (l.offset ≤ x) × (x < range_end l)

-- The lock covers some byte.
abbrev pub IsRange : FileLock → Type 0
IsRange l = l.offset < range_end l

pub overlaps_comm : (a b : FileLock) → overlaps a b ≡ overlaps b a
unfolding overlaps
overlaps_comm a b = ground (arith, eq_iff a.file_path b.file_path, eq_iff b.file_path a.file_path)

abbrev later_start : FileLock → FileLock → ℕ
later_start a b = if leb a.offset b.offset then b.offset else a.offset

overlaps_sound :
    (a b : FileLock)
    → IsRange a
    → IsRange b
    → overlaps a b ≡ true
    → (a.file_path ≡ b.file_path) × ((x : ℕ) × Covers a x × Covers b x)
unfolding overlaps
overlaps_sound a b ra rb h =
    (ground (arith, eq_iff a.file_path b.file_path), (later_start a b, ground arith, ground arith))

overlaps_complete :
    (a b : FileLock)
    → (a.file_path ≡ b.file_path) × ((x : ℕ) × Covers a x × Covers b x)
    → overlaps a b ≡ true
unfolding overlaps
overlaps_complete a b (p, (x, ca, cb)) = ground (arith, eq_iff a.file_path b.file_path)

-- Two locks that each cover some byte overlap exactly when they are on one path and there is a byte
-- that both cover.
pub overlaps-iff-Covers :
    (a b : FileLock)
    → IsRange a
    → IsRange b
    → (overlaps a b ≡ true) ↔ ((a.file_path ≡ b.file_path) × ((x : ℕ) × Covers a x × Covers b x))
overlaps-iff-Covers a b ra rb = (overlaps_sound a b ra rb, overlaps_complete a b)

-- A range of a positive length whose end does not pass 2 ^ 64 - 1 covers a byte.
pub IsRange-fits : (l : FileLock) → 0 < l.length → l.offset + l.length < uint64_mod → IsRange l
unfolding range_end
IsRange-fits l p h = ground arith

-- A lock of positive length that ends exactly at 2 ^ 64 overlaps no lock, itself included: the sum
-- of its offset and its length wraps to 0.
overlaps_at_end :
    (l other : FileLock)
    → 0 < l.length
    → l.offset + l.length ≡ uint64_mod
    → (overlaps l other ≡ false) × (overlaps other l ≡ false)
unfolding overlaps range_end
overlaps_at_end l other p h = (ground arith, ground arith)
