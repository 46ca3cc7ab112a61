-- ===== src/Bytes/Checksum.antt =====
-- The end checksum of a stream does not depend on how the stream was cut into blocks.
use isr.Prelude.{
  ℕ, ◌+◌, ◌*◌, ◌%◌, ◌^◌, ◌≤◌, ◌<◌, ◌≡◌, [], ◌∷◌, ◌++◌, arith, Bytes, IsByte, length, All,
}
use isr.Bytes.{count_onto, count_byte_values}

-- The mathematical sum of the byte values.
abbrev pub sum : Bytes → ℕ
sum [] = 0
sum (b ∷ bs) = b + sum bs

count_onto-sum : (acc : ℕ) (bs : Bytes) → acc < 2 ^ 64 → count_onto acc bs ≡ (acc + sum bs) % 2 ^ 64
unfolding count_onto
count_onto-sum acc [] h = omega arith
count_onto-sum acc (b ∷ bs) h = omega (arith, count_onto-sum ((acc + b) % 2 ^ 64) bs (omega arith))

pub count_byte_values-sum : (bs : Bytes) → count_byte_values bs ≡ sum bs % 2 ^ 64
unfolding count_byte_values
count_byte_values-sum bs = omega (arith, count_onto-sum 0 bs (omega arith))

pub count_byte_values-lt : (bs : Bytes) → count_byte_values bs < 2 ^ 64
count_byte_values-lt bs = omega (arith, count_byte_values-sum bs)

pub sum-append : (xs ys : Bytes) → sum (xs ++ ys) ≡ sum xs + sum ys
sum-append [] ys = omega arith
sum-append (x ∷ xs) ys = omega (arith, sum-append xs ys)

-- Adding up the checksums of two consecutive blocks in a 64-bit counter gives the checksum of
-- both together.
pub count_byte_values-append :
    (xs ys : Bytes)
    → count_byte_values (xs ++ ys) ≡ (count_byte_values xs + count_byte_values ys) % 2 ^ 64
count_byte_values-append xs ys = omega (
  arith,
  count_byte_values-sum xs,
  count_byte_values-sum ys,
  count_byte_values-sum (xs ++ ys),
  sum-append xs ys,
)

pub sum-le : (bs : Bytes) → All IsByte bs → sum bs ≤ 255 * length bs
sum-le [] h = omega arith
sum-le (b ∷ bs) (h, hs) = omega (arith, sum-le bs hs)

-- Up to 2 ^ 55 bytes, each below 256, the checksum is the exact sum and stays non-negative as an
-- int64_t.
pub count_byte_values_exact :
    (bs : Bytes)
    → All IsByte bs
    → length bs ≤ 2 ^ 55
    → (count_byte_values bs ≡ sum bs) × (count_byte_values bs < 2 ^ 63)
count_byte_values_exact bs h fits =
    let exact : count_byte_values bs ≡ sum bs =
      omega (arith, count_byte_values-sum bs, sum-le bs h) in
    (exact, omega (arith, exact, sum-le bs h))
