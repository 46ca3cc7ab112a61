-- ===== src/Compressed/Receive.antt =====
-- What `isr_receive_file_compressed` makes of a well-formed stream.
use isr.Prelude.{
  ℕ, zero, suc, ◌+◌, ◌-◌, ◌%◌, ◌^◌, ◌≤◌, ◌<◌, ◌≡◌, refl, sym, ap, ◌∙◌, some, List, [], ◌∷◌, ◌++◌,
  append-nil, append_assoc, arith, Bytes, length, length-append,
}
use isr.Bytes.{to_big_endian, count_byte_values}
use isr.Bytes.BigEndian.{length-to_big_endian, from_to_big_endian}
use isr.Io.{Io, Os, World, ◌>>=◌, unless_false}
use isr.Io.Post.{Post, Post-mono}
use isr.Exact.Laws.{StreamLaws, IsReliable, FileLaws, IsHealthy}
use isr.Exact.Send.{stored}
use isr.Exact.Recv.{waiting}
use isr.Exact.Into.{recv_into-fits}
use isr.Exact.Steps.{after_recv_this, after_write_ok}
use isr.Transfer.{minus_one, add_block, verify_checksum}
use isr.Transfer.Sums.{add_block-append, add_block-nil, add_block_zero}
use isr.Transfer.RoundTrip.{verdict_same}
use isr.Compressed.Format.{Lz4Laws, flatten, AreBlocks, frames, compressed_stream}
use isr.Compressed.{alloc, store_block, decompress_loop, receive_file_compressed}

module _ {N F : Type 0} (os : Os N F) (stream : StreamLaws os.net) (reliable : IsReliable stream)
    (files : FileLaws os.sys) (healthy : IsHealthy os.sys) (fd size : ℕ)
    (lz4 : Lz4Laws os.lz4 size) where
  -- `content` was stored, `r` is returned and `rest` is left in the stream.
  abbrev pub Unpacked : Bytes → ℕ → Bytes → World N F → ℕ → World N F → Type 0
  Unpacked content checksum rest w r t =
      (r ≡ checksum)
      × (stored os files fd t ≡ stored os files fd w ++ content)
      × (waiting os stream t ≡ rest)

  verify-Unpacked :
      (checksum : ℕ) (rest : Bytes) (w : World N F)
      → checksum < 2 ^ 64
      → waiting os stream w ≡ to_big_endian 8 checksum ++ rest
      → Post (Unpacked [] checksum rest w) (verify_checksum os checksum w)
  unfolding verify_checksum
  verify-Unpacked checksum rest w lt holds =
      after_recv_this os stream (Unpacked [] checksum rest w) reliable (to_big_endian 8 checksum)
        rest 8 minus_one _ w (length-to_big_endian 8 checksum) holds
        λ t behind same. (
          verdict_same checksum lt,
          ap (λ p. files.written fd p.1) same ∙ sym (append-nil _),
          behind,
        )

  Unpacked-more :
      (block content : Bytes) (checksum : ℕ) (rest : Bytes) (w u : World N F)
      → stored os files fd u ≡ stored os files fd w ++ block
      → (r : ℕ) (t : World N F) → Unpacked content checksum rest u r t
      → Unpacked (block ++ content) checksum rest w r t
  Unpacked-more block content checksum rest w u before r t (e, kept, left) =
      (e, kept ∙ ap (λ x. x ++ content) before ∙ append_assoc _ block content, left)

  -- The block that LZ4 gave back is stored, and the count of missing bytes falls by its length.
  store-Unpacked :
      (again : ℕ → ℕ → Io (World N F) ℕ) (remaining checksum : ℕ) (block : Bytes)
      (Q : ℕ → World N F → Type 0) (t : World N F)
      → 0 < length block
      → length block ≤ remaining
      → remaining < 2 ^ 64
      → ((u : World N F)
          → stored os files fd u ≡ stored os files fd t ++ block
          → u.net ≡ t.net
          → Post Q (again (remaining - length block) (add_block checksum block) u))
      → Post Q (store_block os again fd remaining checksum (some block) t)
  store-Unpacked again remaining checksum [] Q t pos le lt rest = absurd (omega arith)
  store-Unpacked again remaining checksum (b ∷ bs) Q t pos le lt rest =
      let same : (remaining + 2 ^ 64 - length (b ∷ bs)) % 2 ^ 64 ≡ remaining - length (b ∷ bs) =
        omega arith in
      after_write_ok os files Q healthy fd (b ∷ bs) minus_one _ t λ u d. rw same (rest u d.0 d.1)

  decompress_loop_lem :
      (fuel remaining checksum : ℕ) (blocks : List Bytes) (rest : Bytes) (w : World N F)
      → AreBlocks size blocks
      → length blocks ≤ fuel
      → remaining ≡ length (flatten blocks)
      → remaining < 2 ^ 64
      → checksum < 2 ^ 64
      → waiting os stream w
        ≡ frames lz4.compressed blocks
          ++ (to_big_endian 8 (add_block checksum (flatten blocks)) ++ rest)
      → Post
          (Unpacked (flatten blocks) (add_block checksum (flatten blocks)) rest w)
          (decompress_loop os fuel fd size remaining checksum w)
  unfolding decompress_loop
  decompress_loop_lem fuel zero checksum [] rest w are le len fits lt holds =
      rw (add_block-nil checksum lt) (
        verify-Unpacked checksum rest w lt
          (holds ∙ ap (λ c. to_big_endian 8 c ++ rest) (add_block-nil checksum lt)))
  decompress_loop_lem fuel (suc n) checksum [] rest w are le len fits lt holds =
      absurd (omega arith)
  decompress_loop_lem fuel zero checksum (b ∷ bs) rest w are le len fits lt holds =
      absurd (omega (arith, are.0.0, length-append b (flatten bs)))
  decompress_loop_lem zero (suc n) checksum (b ∷ bs) rest w are le len fits lt holds =
      absurd (omega arith)
  decompress_loop_lem (suc fuel) (suc n) checksum (b ∷ bs) rest w ((pos, small), are) le len fits lt
        holds =
      let c : Bytes = lz4.compressed b in
      let Q : ℕ → World N F → Type 0 =
        Unpacked (b ++ flatten bs) (add_block checksum (b ++ flatten bs)) rest w in
      let tail : Bytes = to_big_endian 8 (add_block checksum (b ++ flatten bs)) ++ rest in
      let fits_bound : length c ≤ os.lz4.compress_bound size = lz4.compressed-le b pos small in
      let total : add_block checksum (b ++ flatten bs)
          ≡ add_block (add_block checksum b) (flatten bs) =
        add_block-append checksum b (flatten bs) in
      after_recv_this os stream Q reliable (to_big_endian 4 (length c))
        (c ++ (frames lz4.compressed bs ++ tail)) 4 minus_one _ w
        (length-to_big_endian 4 (length c)) (holds ∙ simp append_assoc)
        λ t behind same.
          rw (from_to_big_endian 4 (length c) (omega (arith, fits_bound, lz4.bound-lt))) (
            rw (recv_into-fits os stream (os.lz4.compress_bound size) (length c) fits_bound) (
              after_recv_this os stream Q reliable c (frames lz4.compressed bs ++ tail) (length c)
                minus_one _ t refl behind
                λ s behind' same'. rw (lz4.decompress-compressed b pos small) (
                  store-Unpacked (decompress_loop os fuel fd size) (suc n) checksum b Q s pos
                    (omega (arith, len, length-append b (flatten bs))) fits
                    λ u kept net_same.
                      Post-mono
                        (Unpacked (flatten bs) (add_block (add_block checksum b) (flatten bs)) rest
                          u)
                        Q _
                        (λ r v p.
                          Unpacked-more b (flatten bs) (add_block checksum (b ++ flatten bs)) rest w
                            u
                            (kept
                              ∙ ap (λ x. x ++ b)
                                  (ap (λ p. files.written fd p.1) same'
                                    ∙ ap (λ p. files.written fd p.1) same))
                            r v (p.0 ∙ sym total, p.1, p.2))
                        (decompress_loop_lem fuel (suc n - length b) (add_block checksum b) bs rest
                          u are (omega arith) (omega (arith, len, length-append b (flatten bs)))
                          (omega arith) (omega arith)
                          (ap stream.incoming net_same
                            ∙ behind'
                            ∙ ap (λ x. frames lz4.compressed bs ++ (to_big_endian 8 x ++ rest))
                                total)))))

  pub after_alloc :
      (Q : ℕ → World N F → Type 0) (k : ℕ) (more : Io (World N F) ℕ) (w : World N F)
      → Post Q (more (record w { sys = (os.sys.alloc k w.sys).1 }))
      → Post Q ((alloc os k >>= unless_false minus_one more) w)
  after_alloc Q k more w h = rw healthy.alloc_some h

  -- A stream of compressed blocks and the checksum of the whole is stored as the blocks one after
  -- the other; the result is the checksum, and what follows in the stream is left there. The
  -- connection is reliable and the disk healthy, LZ4 gives back each block that it compressed, no
  -- block is empty or larger than `size`, there is a round for each, and the whole is shorter than
  -- 2 ^ 64 bytes.
  pub receive_compressed_stream :
      (fuel : ℕ) (blocks : List Bytes) (rest : Bytes) (w : World N F)
      → AreBlocks size blocks
      → length blocks ≤ fuel
      → length (flatten blocks) < 2 ^ 64
      → waiting os stream w
        ≡ compressed_stream lz4.compressed blocks (count_byte_values (flatten blocks)) ++ rest
      → Post
          (Unpacked (flatten blocks) (count_byte_values (flatten blocks)) rest w)
          (receive_file_compressed os fuel fd size (length (flatten blocks)) w)
  unfolding receive_file_compressed
  receive_compressed_stream fuel blocks rest w are le fits holds =
      let content : Bytes = flatten blocks in
      let bound : ℕ = os.lz4.compress_bound size in
      let v : World N F = record w { sys = (os.sys.alloc bound w.sys).1 } in
      let u : World N F = record v { sys = (os.sys.alloc size v.sys).1 } in
      let same : stored os files fd u ≡ stored os files fd w =
        files.written-alloc fd size v.sys ∙ files.written-alloc fd bound w.sys in
      let sum : add_block 0 content ≡ count_byte_values content = add_block_zero content in
      after_alloc _ bound _ w (
        after_alloc _ size _ v (
          Post-mono (Unpacked content (add_block 0 content) rest u) _
            (decompress_loop os fuel fd size (length content) 0 u)
            (λ r t p. (p.0 ∙ sum, p.1 ∙ ap (λ x. x ++ content) same, p.2))
            (decompress_loop_lem fuel (length content) 0 blocks rest u are le refl fits
              (omega arith)
              (holds
                ∙ append_assoc (frames lz4.compressed blocks)
                    (to_big_endian 8 (count_byte_values content)) rest
                ∙ ap (λ x. frames lz4.compressed blocks ++ (to_big_endian 8 x ++ rest))
                    (sym sum)))))
