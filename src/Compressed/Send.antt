-- ===== src/Compressed/Send.antt =====
-- What `isr_transmit_file_compressed` sends.
use isr.Prelude.{
  ℕ, zero, suc, ◌%◌, ◌^◌, ◌≤◌, ◌<◌, ◌≡◌, ◌≢◌, refl, sym, ap, subst, ◌∙◌, Option, none, some, List,
  [], ◌∷◌, ◌++◌, append_assoc, arith, Bytes, length, length-append,
}
use isr.Bytes.{to_big_endian}
use isr.Io.{Io, Os, World, ◌>>=◌, unless_false}
use isr.Io.Post.{Post, Post-mono}
use isr.Exact.Laws.{StreamLaws, IsReliable, FileLaws, IsHealthy, received}
use isr.Exact.Send.{sent}
use isr.Exact.Steps.{after_send_ok}
use isr.Transfer.{minus_one, add_block, send_checksum}
use isr.Transfer.Sums.{add_block-append}
use isr.Transfer.Plain.{checksum_goes_out}
use isr.Compressed.Format.{Lz4Laws, flatten, AreBlocks, compressed_stream}
use isr.Compressed.{alloc, send_block, compress_next, compress_loop, transmit_file_compressed}

module _ {N F : Type 0} (os : Os N F) (stream : StreamLaws os.net) (reliable : IsReliable stream)
    (files : FileLaws os.sys) (healthy : IsHealthy os.sys) (fd size : ℕ)
    (lz4 : Lz4Laws os.lz4 size) where
  -- The rest of the file was cut into blocks, and these were sent with the checksum `r` of the
  -- whole.
  pub record IsPacked (checksum : ℕ) (content : Bytes) (w : World N F) (r : ℕ) (t : World N F)
      : Type 0 where
    pub blocks : List Bytes
    pub are_blocks : AreBlocks size blocks
    pub whole : flatten blocks ≡ content
    pub result : r ≡ add_block checksum content
    pub out : sent os stream t ≡ sent os stream w ++ compressed_stream lz4.compressed blocks r

  abbrev rest_of : World N F → Bytes
  rest_of w = files.unread fd w.sys

  Packed-none :
      (checksum : ℕ) (w u : World N F)
      → checksum < 2 ^ 64
      → sent os stream u ≡ sent os stream w
      → Post (IsPacked checksum [] w) (send_checksum os checksum u)
  Packed-none checksum w u lt same =
      Post-mono _ (IsPacked checksum [] w) (send_checksum os checksum u)
        (λ r t h. record {
          blocks = [];
          are_blocks = tt;
          whole = refl;
          result = h.0;
          out = rw (← same) h.1;
        })
        (checksum_goes_out os stream reliable files healthy fd checksum u lt)

  Packed-more :
      (checksum : ℕ) (block more : Bytes) (w t : World N F)
      → (0 < length block) × (length block ≤ size)
      → sent os stream t
        ≡ sent os stream w
          ++ (to_big_endian 4 (length (lz4.compressed block)) ++ lz4.compressed block)
      → (r : ℕ) (v : World N F) → IsPacked (add_block checksum block) more t r v
      → IsPacked checksum (block ++ more) w r v
  Packed-more checksum block more w t fits before r v p = record {
    blocks = block ∷ p.blocks;
    are_blocks = (fits, p.are_blocks);
    whole = ap (λ x. block ++ x) p.whole;
    result = p.result ∙ sym (add_block-append checksum block more);
    out =
        p.out
        ∙ ap (λ x. x ++ compressed_stream lz4.compressed p.blocks r) before
        ∙ simp append_assoc;
  }

  -- One block on the wire.
  send_frame :
      (Q : ℕ → World N F → Type 0) (again : Io (World N F) ℕ) (c : Bytes) (u : World N F)
      → 0 < length c
      → length c < 2 ^ 31
      → ((t : World N F)
          → sent os stream t ≡ sent os stream u ++ (to_big_endian 4 (length c) ++ c)
          → t.sys ≡ u.sys
          → Post Q (again t))
      → Post Q (send_block os again (some c) u)
  send_frame Q again [] u pos fits rest = absurd (omega arith)
  send_frame Q again (b ∷ bs) u pos fits rest =
      let c : Bytes = b ∷ bs in
      let same : length c % 2 ^ 32 ≡ length c = omega arith in
      after_send_ok os stream Q reliable (to_big_endian 4 (length c % 2 ^ 32)) minus_one _ u λ s d.
        after_send_ok os stream Q reliable c minus_one again s λ t e.
          rest t
            (e.0
              ∙ ap (λ x. x ++ c) d.0
              ∙ append_assoc (sent os stream u) _ c
              ∙ ap (λ k. sent os stream u ++ (to_big_endian 4 k ++ c)) same)
            (ap (λ p. p.1) e.1 ∙ ap (λ p. p.1) d.1)

  next :
      (again : ℕ → Io (World N F) ℕ) (checksum : ℕ) (w u : World N F)
      → checksum < 2 ^ 64
      → ((c : ℕ) (t : World N F)
          → c < 2 ^ 64
          → length (rest_of t) < length (rest_of w)
          → Post (IsPacked c (rest_of t) t) (again c t))
      → (r : Option Bytes) → r ≢ none
      → length (received r) ≤ size
      → rest_of w ≡ received r ++ rest_of u
      → (r ≡ some [] → rest_of w ≡ [])
      → sent os stream u ≡ sent os stream w
      → Post
          (IsPacked checksum (rest_of w) w)
          (compress_next os again (os.lz4.compress_bound size) checksum r u)
  next again checksum w u lt rest none h le split end same = absurd (h refl)
  next again checksum w u lt rest (some []) h le split end same =
      rw (end refl) (Packed-none checksum w u lt same)
  next again checksum w u lt rest (some (b ∷ bs)) h le split end same =
      let block : Bytes = b ∷ bs in
      let pos : 0 < length block = omega arith in
      rw (lz4.compress_some block pos le) (
        send_frame (IsPacked checksum (rest_of w) w) (again (add_block checksum block))
          (lz4.compressed block) u (lz4.compressed-pos block pos le)
          (omega (arith, lz4.compressed-le block pos le, lz4.bound-lt))
          λ t out sys_same.
            let here : rest_of t ≡ rest_of u = ap (files.unread fd) sys_same in
            let whole : block ++ rest_of t ≡ rest_of w = ap (λ x. block ++ x) here ∙ sym split in
            Post-mono (IsPacked (add_block checksum block) (rest_of t) t) _
              (again (add_block checksum block) t)
              (λ r v p.
                subst (λ x. IsPacked checksum x w r v) whole
                  (Packed-more checksum block (rest_of t) w t (pos, le)
                    (out
                      ∙ ap
                          (λ x.
                            x
                            ++ (to_big_endian 4 (length (lz4.compressed block))
                                ++ lz4.compressed block))
                          same)
                    r v p))
              (rest (add_block checksum block) t (omega arith)
                (omega (arith, ap length split, ap length here, length-append block (rest_of u)))))

  compress_loop_lem :
      (fuel checksum : ℕ) (w : World N F)
      → 0 < size
      → checksum < 2 ^ 64
      → length (rest_of w) < fuel
      → Post (IsPacked checksum (rest_of w) w) (compress_loop os fuel fd size checksum w)
  unfolding compress_loop
  compress_loop_lem zero checksum w pos lt h = absurd (omega arith)
  compress_loop_lem (suc fuel) checksum w pos lt h =
      next (compress_loop os fuel fd size) checksum w
        (record w { sys = (os.sys.read fd size w.sys).1 }) lt
        (λ c t l k. compress_loop_lem fuel c t pos l (omega arith)) (os.sys.read fd size w.sys).0
        (healthy.read_some fd size w.sys) (files.read-length fd size w.sys)
        (files.unread-read fd size w.sys) (files.read_end fd size w.sys pos) refl

  after_alloc :
      (Q : ℕ → World N F → Type 0) (k : ℕ) (rest : Io (World N F) ℕ) (w : World N F)
      → Post Q (rest (record w { sys = (os.sys.alloc k w.sys).1 }))
      → Post Q ((alloc os k >>= unless_false minus_one rest) w)
  after_alloc Q k rest w h = rw healthy.alloc_some h

  -- On a reliable connection and a healthy disk the function returns the checksum of the file,
  -- and has sent the file cut into blocks of 1 to `size` bytes, each compressed behind its
  -- length, and then that checksum, provided it may make one read more than the file has bytes.
  -- The block size is not 0, and LZ4 compresses every block of that size into its bound.
  pub transmit_file_compressed_lem :
      (fuel : ℕ) (w : World N F)
      → 0 < size
      → length (files.unread fd w.sys) < fuel
      → Post (IsPacked 0 (files.unread fd w.sys) w) (transmit_file_compressed os fuel fd size w)
  unfolding transmit_file_compressed
  transmit_file_compressed_lem fuel w pos h =
      let v : World N F = record w { sys = (os.sys.alloc size w.sys).1 } in
      let u : World N F = record v { sys = (os.sys.alloc (os.lz4.compress_bound size) v.sys).1 } in
      let same : files.unread fd u.sys ≡ files.unread fd w.sys =
        files.unread-alloc fd _ v.sys ∙ files.unread-alloc fd size w.sys in
      after_alloc _ size _ w (
        after_alloc _ (os.lz4.compress_bound size) _ v (
          Post-mono (IsPacked 0 (rest_of u) u) _ (compress_loop os fuel fd size 0 u)
            (λ r t p. record {
              blocks = p.blocks;
              are_blocks = p.are_blocks;
              whole = p.whole ∙ same;
              result = p.result ∙ ap (add_block 0) same;
              out = p.out;
            })
            (compress_loop_lem fuel 0 u pos (omega arith) (omega (arith, ap length same)))))
