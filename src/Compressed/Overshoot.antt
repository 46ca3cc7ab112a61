-- ===== src/Compressed/Overshoot.antt =====
-- A block that is larger than what is still missing makes `remaining` wrap round.
use isr.Prelude.{
  ℕ, zero, suc, ◌+◌, ◌-◌, ◌%◌, ◌^◌, ◌≤◌, ◌<◌, ◌≡◌, refl, sym, ap, ◌∙◌, some, List, append_assoc, [],
  ◌∷◌, ◌++◌, append-nil, arith, Bytes, length, length-append,
}
use isr.Bytes.{to_big_endian}
use isr.Bytes.BigEndian.{length-to_big_endian, from_to_big_endian}
use isr.Io.{ok, Os, World}
use isr.Io.Post.{Post, Post-mono}
use isr.Exact.Laws.{StreamLaws, IsReliable, FileLaws, IsHealthy}
use isr.Exact.Send.{stored, beside_stored, Drained}
use isr.Exact.Recv.{waiting}
use isr.Exact.Steps.{after_recv, after_recv_this, after_write_ok}
use isr.Transfer.{minus_one, add_block}
use isr.Compressed.Format.{Lz4Laws, frames, flatten, AreBlocks}
use isr.Compressed.Receive.{after_alloc}
use isr.Exact.Into.{recv_into-fits}
use isr.Compressed.{store_block, decompress_loop, receive_file_compressed}

module _ {N F : Type 0} (os : Os N F) (stream : StreamLaws os.net) (reliable : IsReliable stream)
    (files : FileLaws os.sys) (healthy : IsHealthy os.sys) (fd size : ℕ)
    (lz4 : Lz4Laws os.lz4 size) where
  -- The call failed after `content` was stored.
  abbrev FailsWith : Bytes → World N F → ℕ → World N F → Type 0
  FailsWith content w r t =
      (r ≡ minus_one) × (stored os files fd t ≡ stored os files fd w ++ content)

  starved :
      (fuel remaining checksum : ℕ) (w : World N F)
      → 0 < remaining
      → waiting os stream w ≡ []
      → Post (FailsWith [] w) (decompress_loop os (suc fuel) fd size remaining checksum w)
  unfolding decompress_loop
  starved fuel zero checksum w pos empty = absurd (omega arith)
  starved fuel (suc n) checksum w pos empty =
      after_recv os stream (FailsWith [] w) 4 minus_one _ w
        (λ bs t len took. absurd (
          omega
            (arith, len, ap length (sym empty ∙ took.0), length-append bs (waiting os stream t))))
        (λ t g. (refl, ap (λ p. files.written fd p.1) g.2.1 ∙ sym (append-nil _)))

  -- A block of any length that fits the buffers is stored, and the count falls by its length
  -- modulo 2 ^ 64.
  step :
      (fuel n checksum : ℕ) (block : Bytes) (blocks : List Bytes) (Q : ℕ → World N F → Type 0)
      (w : World N F)
      → 0 < length block
      → length block ≤ size
      → waiting os stream w ≡ frames lz4.compressed (block ∷ blocks)
      → ((u : World N F)
          → stored os files fd u ≡ stored os files fd w ++ block
          → waiting os stream u ≡ frames lz4.compressed blocks
          → Post Q (
              decompress_loop os fuel fd size
                ((suc n + 2 ^ 64 - length block) % 2 ^ 64)
                (add_block checksum block)
                u))
      → Post Q (decompress_loop os (suc fuel) fd size (suc n) checksum w)
  unfolding decompress_loop
  step fuel n checksum block blocks Q w pos small holds next =
      let c : Bytes = lz4.compressed block in
      let bound : ℕ = os.lz4.compress_bound size in
      let c_le : length c ≤ bound = lz4.compressed-le block pos small in
      let more : Bytes = frames lz4.compressed blocks in
      after_recv_this os stream Q reliable (to_big_endian 4 (length c)) (c ++ more) 4 minus_one _ w
        (length-to_big_endian 4 (length c)) holds
        λ t behind kept. rw (from_to_big_endian 4 (length c) (omega (arith, c_le, lz4.bound-lt))) (
          rw (recv_into-fits os stream bound (length c) c_le) (
            after_recv_this os stream Q reliable c more (length c) minus_one _ t refl behind
              λ s behind' kept'. rw (lz4.decompress-compressed block pos small) (
                store block s pos (λ u d.
                  next u
                    (d.0
                      ∙ ap (λ x. x ++ block)
                          (ap (λ p. files.written fd p.1) kept'
                            ∙ ap (λ p. files.written fd p.1) kept))
                    (ap stream.incoming d.1 ∙ behind')))))
    where
      store :
          (b : Bytes) (s : World N F)
          → 0 < length b
          → ((u : World N F)
              → Drained (stored os files fd) (beside_stored os files fd) b s ok u
              → Post Q (
                  decompress_loop os fuel fd size
                    ((suc n + 2 ^ 64 - length b) % 2 ^ 64)
                    (add_block checksum b)
                    u))
          → Post Q (store_block os (decompress_loop os fuel fd size) fd (suc n) checksum (some b) s)
      store [] s pos' next' = absurd (omega arith)
      store (b ∷ bs) s pos' next' =
          after_write_ok os files Q healthy fd (b ∷ bs) minus_one _ s next'

  -- As long as more is missing than the blocks hold, all of them are stored.
  all_stored :
      (blocks : List Bytes) (fuel remaining checksum : ℕ) (w : World N F)
      → AreBlocks size blocks
      → length (flatten blocks) < remaining
      → remaining < 2 ^ 64
      → length blocks ≤ fuel
      → waiting os stream w ≡ frames lz4.compressed blocks
      → Post
          (FailsWith (flatten blocks) w)
          (decompress_loop os (suc fuel) fd size remaining checksum w)
  all_stored [] fuel remaining checksum w are missing fits enough holds =
      starved fuel remaining checksum w (omega arith) holds
  all_stored (b ∷ bs) fuel zero checksum w are missing fits enough holds = absurd (omega arith)
  all_stored (b ∷ bs) zero (suc n) checksum w are missing fits enough holds = absurd (omega arith)
  all_stored (b ∷ bs) (suc fuel) (suc n) checksum w ((pos, small), are) missing fits enough holds =
      let rest : ℕ = (suc n + 2 ^ 64 - length b) % 2 ^ 64 in
      let total : length (flatten (b ∷ bs)) ≡ length b + length (flatten bs) =
        length-append b (flatten bs) in
      step (suc fuel) n checksum b bs (FailsWith (flatten (b ∷ bs)) w) w pos small holds
        λ u kept behind.
          Post-mono (FailsWith (flatten bs) u) (FailsWith (flatten (b ∷ bs)) w) _
            (λ r t h.
              (h.0, h.1 ∙ ap (λ x. x ++ flatten bs) kept ∙ append_assoc (stored os files fd w) b _))
            (all_stored bs fuel rest (add_block checksum b) u are (omega (arith, total))
              (omega arith) (omega arith) behind)

  -- If the first block of the stream decompresses to more than the announced length, the count of
  -- missing bytes wraps: that block and every block behind it is stored whole, beyond the
  -- announced length, and where the stream ends with them the function returns -1. The
  -- connection is reliable and the disk healthy, LZ4 gives back what it compressed, no block is
  -- empty or larger than the block size, all of them hold less than 2 ^ 64 bytes, and there is a
  -- round more than there are blocks.
  pub overshoot_is_stored :
      (fuel effective_length : ℕ) (block : Bytes) (blocks : List Bytes) (w : World N F)
      → 0 < effective_length
      → effective_length < length block
      → AreBlocks size (block ∷ blocks)
      → length (flatten (block ∷ blocks)) < 2 ^ 64
      → length blocks < fuel
      → waiting os stream w ≡ frames lz4.compressed (block ∷ blocks)
      → Post
          (λ r t.
            (r ≡ minus_one)
            × (stored os files fd t ≡ stored os files fd w ++ flatten (block ∷ blocks)))
          (receive_file_compressed os (suc fuel) fd size effective_length w)
  unfolding receive_file_compressed
  overshoot_is_stored fuel zero block blocks w pos over are fits enough holds = absurd (omega arith)
  overshoot_is_stored zero (suc n) block blocks w pos over are fits enough holds =
      absurd (omega arith)
  overshoot_is_stored (suc fuel) (suc n) block blocks w pos over ((some_bytes, small), are) fits
        enough holds =
      let bound : ℕ = os.lz4.compress_bound size in
      let v : World N F = record w { sys = (os.sys.alloc bound w.sys).1 } in
      let u : World N F = record v { sys = (os.sys.alloc size v.sys).1 } in
      let same : stored os files fd u ≡ stored os files fd w =
        files.written-alloc fd size v.sys ∙ files.written-alloc fd bound w.sys in
      let Q : ℕ → World N F → Type 0 = FailsWith (flatten (block ∷ blocks)) w in
      let total : length (flatten (block ∷ blocks)) ≡ length block + length (flatten blocks) =
        length-append block (flatten blocks) in
      let wrapped : ℕ = (suc n + 2 ^ 64 - length block) % 2 ^ 64 in
      after_alloc os stream reliable files healthy fd size lz4 Q bound _ w (
        after_alloc os stream reliable files healthy fd size lz4 Q size _ v (
          step (suc fuel) n 0 block blocks Q u some_bytes small holds λ x kept behind.
            Post-mono (FailsWith (flatten blocks) x) Q _
              (λ r t h. (
                h.0,
                h.1
                    ∙ ap (λ y. y ++ flatten blocks) (kept ∙ ap (λ y. y ++ block) same)
                    ∙ append_assoc (stored os files fd w) block _,
              ))
              (all_stored blocks fuel wrapped (add_block 0 block) x are (omega (arith, total))
                (omega arith) (omega arith) behind)))
