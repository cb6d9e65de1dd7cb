-- ===== src/Nfs2/Attributes.antt =====
-- The attributes that the NFSv2 procedures of src/simple-nfsd/core/server_simple.cpp reply with, as
-- a little-endian machine computes them: a field is swapped by htonl before the next one is worked out
-- from it.
use simple_nfsd.Prelude.{ℕ, ◌+◌, ◌-◌, ◌*◌, ◌/◌, ◌%◌, ◌^◌, List, ◌++◌, if◌then◌else◌, Bool}
use simple_nfsd.Bytes.{bytes32}
use simple_nfsd.Nfs2.{Files, Handler, ask, done, ◌>>=◌}

-- htonl
abbrev pub swap32 : ℕ → ℕ
swap32 v = v % 256 * 2 ^ 24 + v / 2 ^ 8 % 256 * 2 ^ 16 + v / 2 ^ 16 % 256 * 2 ^ 8 + v / 2 ^ 24 % 256

-- (file_size + block_size - 1) / block_size, where both have gone through htonl.
unfoldable pub block_count : ℕ → ℕ
block_count size = (swap32 size + swap32 512 + 2 ^ 32 - 1) % 2 ^ 32 / swap32 512

-- A field is pushed in network order; the field of 64 bits is htonll of the swapped size.
unfoldable pub attributes : ℕ → ℕ → ℕ → ℕ → ℕ → List ℕ
unfolding block_count
attributes type mode nlink size fileid =
    bytes32 type
    ++ (bytes32 mode
        ++ (bytes32 nlink
            ++ (bytes32 0
                ++ (bytes32 0
                    ++ (bytes32 size
                        ++ (bytes32 512
                            ++ (bytes32 (block_count size)
                                ++ (bytes32 0
                                    ++ (bytes32 0
                                        ++ (bytes32 (swap32 size)
                                            ++ (bytes32 1
                                                ++ (bytes32 fileid
                                                    ++ (bytes32 0
                                                        ++ (bytes32 0 ++ bytes32 0))))))))))))))

-- 2 for a directory, 1 for anything else.
abbrev pub type_of : Bool → ℕ
type_of directory = if directory then 2 else 1

module _ {F : Type 0} (os : Files F) where
  -- The size of a regular file, as a uint32_t, and 0 of anything else.
  unfoldable pub size_of : List ℕ → Handler F ℕ
  size_of path = do
    regular ← ask (λ f. os.is_regular_file f path)
    if regular then sized path else (λ s. (s, done 0))
    where
      sized : List ℕ → Handler F ℕ
      sized path = do size ← ask (λ f. os.file_size f path); (λ s. (s, done (size % 2 ^ 32)))
