-- ===== src/Transfer/Sums.antt =====
-- The running checksum of a stream, block by block.
use isr.Prelude.{ℕ, ◌^◌, ◌<◌, ◌≡◌, [], ◌++◌, arith, Bytes}
use isr.Bytes.{count_byte_values}
use isr.Bytes.Checksum.{count_byte_values-append, count_byte_values-lt}
use isr.Transfer.{add_block}

pub add_block-append :
    (checksum : ℕ) (xs ys : Bytes)
    → add_block checksum (xs ++ ys) ≡ add_block (add_block checksum xs) ys
add_block-append checksum xs ys = omega (arith, count_byte_values-append xs ys)

pub add_block-nil : (checksum : ℕ) → checksum < 2 ^ 64 → add_block checksum [] ≡ checksum
unfolding count_byte_values
add_block-nil checksum lt = omega arith

pub add_block_zero : (xs : Bytes) → add_block 0 xs ≡ count_byte_values xs
add_block_zero xs = omega (arith, count_byte_values-lt xs)
