-- ===== src/Bytes/BigEndian.antt =====
-- Network byte order is read back as it was written.
use isr.Prelude.{
  ℕ, zero, suc, ◌+◌, ◌*◌, ◌/◌, ◌%◌, ◌^◌, ◌<◌, ◌≡◌, refl, ap, [], ◌∷◌, ◌++◌, arith, Bytes, IsByte,
  length, length-append, All, All-append,
}
use native.Mathlib.Nat.{pow-suc}
use isr.Bytes.{to_big_endian, from_big_endian_onto, from_big_endian}

pub length-to_big_endian : (n v : ℕ) → length (to_big_endian n v) ≡ n
unfolding to_big_endian
length-to_big_endian zero v = refl
length-to_big_endian (suc n) v = omega (
  arith,
  length-append (to_big_endian n (v / 256)) (v % 256 ∷ []),
  length-to_big_endian n (v / 256),
)

pub to_big_endian-IsByte : (n v : ℕ) → All IsByte (to_big_endian n v)
unfolding to_big_endian
to_big_endian-IsByte zero v = tt
to_big_endian-IsByte (suc n) v =
    All-append IsByte (to_big_endian n (v / 256)) _ (to_big_endian-IsByte n (v / 256)) (omega arith)

from_big_endian_onto-snoc :
    (acc : ℕ) (xs : Bytes) (b : ℕ)
    → from_big_endian_onto acc (xs ++ b ∷ []) ≡ from_big_endian_onto acc xs * 256 + b
unfolding from_big_endian_onto
from_big_endian_onto-snoc acc [] b = refl
from_big_endian_onto-snoc acc (x ∷ xs) b = from_big_endian_onto-snoc (acc * 256 + x) xs b

-- An integer that fits `n` bytes survives the trip over the wire.
pub from_to_big_endian : (n v : ℕ) → v < 256 ^ n → from_big_endian (to_big_endian n v) ≡ v
unfolding to_big_endian
from_to_big_endian zero v h = unfold from_big_endian_onto in omega arith
from_to_big_endian (suc n) v h = omega (
  arith,
  from_big_endian_onto-snoc 0 (to_big_endian n (v / 256)) (v % 256),
  from_to_big_endian n (v / 256) (omega arith),
)

from_big_endian_onto-lt :
    (acc : ℕ) (xs : Bytes) (bound : ℕ)
    → All IsByte xs
    → acc < bound
    → from_big_endian_onto acc xs < bound * 256 ^ length xs
unfolding from_big_endian_onto
from_big_endian_onto-lt acc [] bound h lt = omega arith
from_big_endian_onto-lt acc (x ∷ xs) bound (h, hs) lt = omega (
  arith,
  from_big_endian_onto-lt (acc * 256 + x) xs (bound * 256) hs (omega arith),
  ap (λ (t : ℕ). bound * t) (pow-suc 256 (length xs)),
)

-- A decoded field fits its width.
pub from_big_endian-lt : (xs : Bytes) → All IsByte xs → from_big_endian xs < 256 ^ length xs
from_big_endian-lt xs h = omega (arith, from_big_endian_onto-lt 0 xs 1 h (omega arith))
