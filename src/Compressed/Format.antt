-- ===== src/Compressed/Format.antt =====
-- The compressed stream as data, and what LZ4 is documented to do.
use isr.Bytes.{count_byte_values}
use isr.Prelude.{ℕ, ◌≤◌, ◌<◌, ◌^◌, ◌≡◌, some, List, [], ◌∷◌, ◌++◌, Bytes, length, All}
use isr.Bytes.{to_big_endian}
use isr.Io.{Lz4}

-- LZ4 at one block size: every block up to it compresses into the bound and back.
pub record Lz4Laws (lz4 : Lz4) (size : ℕ) : Type 0 where
  pub compressed : Bytes → Bytes
  pub compress_some :
      (b : Bytes)
      → 0 < length b
      → length b ≤ size
      → lz4.compress b (lz4.compress_bound size) ≡ some (compressed b)
  pub compressed-pos : (b : Bytes) → 0 < length b → length b ≤ size → 0 < length (compressed b)
  pub compressed-le :
      (b : Bytes) → 0 < length b → length b ≤ size → length (compressed b) ≤ lz4.compress_bound size
  pub bound-lt : lz4.compress_bound size < 2 ^ 31
  pub decompress-compressed :
      (b : Bytes) → 0 < length b → length b ≤ size → lz4.decompress (compressed b) size ≡ some b

abbrev pub flatten : List Bytes → Bytes
flatten [] = []
flatten (b ∷ bs) = b ++ flatten bs

-- No block is empty or larger than the block size.
abbrev pub AreBlocks : ℕ → List Bytes → Type 0
AreBlocks size = All (λ b. (0 < length b) × (length b ≤ size))

module _ (compressed : Bytes → Bytes) where
  -- The compressed blocks, each behind its length.
  abbrev pub frames : List Bytes → Bytes
  frames [] = []
  frames (b ∷ bs) = to_big_endian 4 (length (compressed b)) ++ (compressed b ++ frames bs)

  abbrev pub compressed_stream : List Bytes → ℕ → Bytes
  compressed_stream blocks checksum = frames blocks ++ to_big_endian 8 checksum

-- The blocks of the content, each compressed behind its length, and the checksum.
abbrev pub IsPackedBody : (Bytes → Bytes) → ℕ → Bytes → Bytes → Type 0
IsPackedBody compressed size content body =
    (blocks : List Bytes) × AreBlocks size blocks
    × (flatten blocks ≡ content)
    × (body ≡ compressed_stream compressed blocks (count_byte_values content))
