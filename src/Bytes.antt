-- ===== src/Bytes.antt =====
-- Byte order and the end checksum: htons, htonl and htobe64 with their inverses, as lib/isr.c
-- uses them on header fields, and `_isr_count_byte_values` of lib/isr.h.
pub mod BigEndian
pub mod Checksum
use isr.Prelude.{ℕ, zero, suc, ◌+◌, ◌*◌, ◌/◌, ◌%◌, ◌^◌, List, [], ◌∷◌, ◌++◌, Bytes}

-- The `n` low bytes of a host integer in network order.
unfoldable pub to_big_endian : ℕ → ℕ → Bytes
to_big_endian zero v = []
to_big_endian (suc n) v = to_big_endian n (v / 256) ++ v % 256 ∷ []

-- The host integer that a run of bytes in network order stands for, after `acc`.
unfoldable pub from_big_endian_onto : ℕ → Bytes → ℕ
from_big_endian_onto acc [] = acc
from_big_endian_onto acc (b ∷ bs) = from_big_endian_onto (acc * 256 + b) bs

abbrev pub from_big_endian : Bytes → ℕ
from_big_endian = from_big_endian_onto 0

-- The loop of `_isr_count_byte_values`: `count` is a uint64_t.
unfoldable pub count_onto : ℕ → Bytes → ℕ
count_onto count [] = count
count_onto count (b ∷ bs) = count_onto ((count + b) % 2 ^ 64) bs

unfoldable pub count_byte_values : Bytes → ℕ
unfolding count_onto
count_byte_values = count_onto 0
