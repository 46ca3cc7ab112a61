-- ===== src/Listing/Verified.antt =====
-- The checksum that guards a listing on the client's side.
use isr.Prelude.{
  ℕ, ◌≡◌, refl, ap, ◌∙◌, true, Option, none, some, ◌++◌, inl, inr, arith, Bytes, ◌==◌,
  if◌then◌else◌, Bool-cases, length,
}
use isr.Bytes.{to_big_endian, from_big_endian, count_byte_values}
use isr.Bytes.BigEndian.{length-to_big_endian, from_to_big_endian}
use isr.Bytes.Checksum.{count_byte_values-lt}
use isr.Io.{Os, World, pure}
use isr.Io.Post.{Post}
use isr.Exact.Laws.{StreamLaws, IsReliable}
use isr.Exact.Recv.{waiting}
use isr.Exact.Steps.{after_recv, after_recv_this}
use isr.Listing.Parse.{recv_verified_listing}

module _ {N F : Type 0} (os : Os N F) (stream : StreamLaws os.net) where
  -- What was taken off the stream for a listing that was accepted.
  abbrev pub Verified : ℕ → World N F → Option Bytes → World N F → Type 0
  Verified n w none t = Unit
  Verified n w (some buf) t =
      (length buf ≡ n)
      × (trailer : Bytes) × (length trailer ≡ 8)
      × (from_big_endian trailer ≡ count_byte_values buf)
      × (waiting os stream w ≡ buf ++ (trailer ++ waiting os stream t))

  compared :
      (n : ℕ) (w u : World N F) (buf trailer : Bytes)
      → length buf ≡ n
      → length trailer ≡ 8
      → waiting os stream w ≡ buf ++ (trailer ++ waiting os stream u)
      → Post
          (Verified n w)
          (pure (if from_big_endian trailer == count_byte_values buf then some buf else none) u)
  compared n w u buf trailer len size holds =
      elim (Bool-cases (from_big_endian trailer == count_byte_values buf)) [
        | inl e ↦ rw e (len, trailer, size, ground (arith, e), holds)
        | inr e ↦ rw e tt
      ]

  -- On any connection and with any allocator the function returns; a listing that it accepts is
  -- the next `effective_length` bytes of the stream, and the 8 bytes behind it spell its checksum.
  pub recv_verified_listing_lem :
      (effective_length : ℕ) (w : World N F)
      → Post (Verified effective_length w) (recv_verified_listing os effective_length w)
  unfolding recv_verified_listing
  recv_verified_listing_lem n w =
      let v : World N F = record w { sys = (os.sys.alloc n w.sys).1 } in
      elim (Bool-cases (os.sys.alloc n w.sys).0) [
        | inr a ↦ rw a tt
        | inl a ↦ rw a (
            after_recv os stream (Verified n w) n none _ v
              (λ buf t len took.
                after_recv os stream (Verified n w) 8 none _ t
                  (λ trailer u size took'.
                    compared n w u buf trailer len size (took.0 ∙ ap (λ x. buf ++ x) took'.0))
                  (λ u g. tt))
              (λ t g. tt))
      ]

  -- The stream goes on with `rest`, and of the files only the memory was taken.
  abbrev pub Taken : ℕ → Bytes → World N F → World N F → Type 0
  Taken n rest w t = (waiting os stream t ≡ rest) × (t.sys ≡ (os.sys.alloc n w.sys).1)

  -- A listing that comes with its checksum is accepted where the memory for it is there, and what
  -- follows in the stream is left there. The connection is reliable.
  pub recv_verified_listing_accepts :
      (reliable : IsReliable stream) (bytes rest : Bytes) (w : World N F)
      → (os.sys.alloc (length bytes) w.sys).0 ≡ true
      → waiting os stream w ≡ bytes ++ (to_big_endian 8 (count_byte_values bytes) ++ rest)
      → Post
          (λ r t. (r ≡ some bytes) × Taken (length bytes) rest w t)
          (recv_verified_listing os (length bytes) w)
  unfolding recv_verified_listing
  recv_verified_listing_accepts reliable bytes rest w a holds =
      let v : World N F = record w { sys = (os.sys.alloc (length bytes) w.sys).1 } in
      let sum : ℕ = count_byte_values bytes in
      let Q : Option Bytes → World N F → Type 0 =
        λ r t. (r ≡ some bytes) × Taken (length bytes) rest w t in
      rw a (
        after_recv_this os stream Q reliable bytes (to_big_endian 8 sum ++ rest) (length bytes) none
          _ v refl holds
          λ t behind same.
            after_recv_this os stream Q reliable (to_big_endian 8 sum) rest 8 none _ t
              (length-to_big_endian 8 sum) behind
              λ u behind' same'. (
                accepted (from_big_endian (to_big_endian 8 sum)) sum
                    (from_to_big_endian 8 sum (count_byte_values-lt bytes)),
                (behind', ap (λ p. p.1) same' ∙ ap (λ p. p.1) same),
              ))
    where
      accepted : (x y : ℕ) → x ≡ y → (if x == y then some bytes else none) ≡ some bytes
      accepted x y e = ground arith
