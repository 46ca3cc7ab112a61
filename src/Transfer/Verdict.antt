-- ===== src/Transfer/Verdict.antt =====
-- What `isr_receive_file_uncompressed` does on any connection and any disk.
use isr.Prelude.{
  ℕ, zero, suc, ◌+◌, ◌-◌, ◌^◌, ◌≤◌, ◌<◌, ◌≡◌, ◌≢◌, subst, refl, sym, ap, ◌∙◌, [], ◌++◌, append-nil,
  append_assoc, arith, Bytes, length, length-append, length-take, inl, inr, ◌⊎◌, take,
}
use isr.Io.{Io, ok, Os, World, unless_err, ◌>>=◌}
use isr.Io.Post.{Post, Post-mono}
use isr.Exact.{write_all}
use isr.Exact.Laws.{StreamLaws, FileLaws}
use isr.Exact.Send.{Drained, stored, beside_stored}
use isr.Exact.Recv.{waiting, beside_waiting, Took}
use isr.Exact.Steps.{after_recv, after_write}
use isr.Bytes.{from_big_endian, count_byte_values}
use isr.Transfer.Sums.{add_block-append, add_block-nil, add_block_zero}
use isr.Transfer.{
  verdict, minus_one, minus_two, add_block, verify_checksum, to_read, receive_loop,
  receive_file_uncompressed,
}

pub to_read_bounds : (n : ℕ) → 0 < n → (0 < to_read n) × (to_read n ≤ n)
to_read_bounds n h = ground arith

-- What the comparison of a checksum with the 8 bytes behind the data comes to.
abbrev pub Compared : ℕ → Bytes → ℕ → Type 0
Compared sum trailer r =
    (from_big_endian trailer ≡ sum → r ≡ sum) × (from_big_endian trailer ≢ sum → r ≡ minus_two)

verdict_lem : (sum : ℕ) (trailer : Bytes) → Compared sum trailer (verdict sum trailer)
verdict_lem sum trailer = (λ e. ground (arith, e), λ e. ground (arith, e))

module _ {N F : Type 0} (os : Os N F) (stream : StreamLaws os.net) (files : FileLaws os.sys)
    (fd : ℕ) where
  -- Exactly `n` bytes and a trailer of 8 were taken off the stream, the `n` bytes were stored,
  -- and the result is that of the comparison of the trailer with their checksum.
  pub record IsComplete (checksum n : ℕ) (w : World N F) (r : ℕ) (t : World N F) : Type 0 where
    pub content : Bytes
    pub trailer : Bytes
    pub length_content : length content ≡ n
    pub length_trailer : length trailer ≡ 8
    pub taken : waiting os stream w ≡ content ++ (trailer ++ waiting os stream t)
    pub kept : stored os files fd t ≡ stored os files fd w ++ content
    pub result : Compared (add_block checksum content) trailer r

  -- The result is -1, and at most `n` bytes were stored.
  pub record IsBroken (n : ℕ) (w : World N F) (r : ℕ) (t : World N F) : Type 0 where
    pub content : Bytes
    pub length_content : length content ≤ n
    pub kept : stored os files fd t ≡ stored os files fd w ++ content
    pub result : r ≡ minus_one

  -- The same from the start of the data on, with the sum of all its bytes.
  abbrev pub Received : ℕ → World N F → ℕ → World N F → Type 0
  Received n w r t =
      ((c : IsComplete 0 n w r t) × Compared (count_byte_values c.content) c.trailer r)
      ⊎ IsBroken n w r t

  abbrev pub Verdict : ℕ → ℕ → World N F → ℕ → World N F → Type 0
  Verdict checksum n w r t = IsComplete checksum n w r t ⊎ IsBroken n w r t

  pub stored_same :
      (t w : World N F)
      → beside_waiting os stream t ≡ beside_waiting os stream w
      → stored os files fd t ≡ stored os files fd w
  stored_same t w e = ap (λ p. files.written fd p.1) e

  pub waiting_same :
      (t w : World N F)
      → beside_stored os files fd t ≡ beside_stored os files fd w
      → waiting os stream t ≡ waiting os stream w
  waiting_same t w e = ap stream.incoming e

  pub Complete-done :
      (checksum : ℕ) (w t : World N F) (trailer : Bytes)
      → checksum < 2 ^ 64
      → length trailer ≡ 8
      → Took os stream w trailer t
      → IsComplete checksum 0 w (verdict checksum trailer) t
  Complete-done checksum w t trailer lt len took = record {
    content = [];
    trailer = trailer;
    length_content = refl;
    length_trailer = len;
    taken = took.0;
    kept = stored_same t w took.1 ∙ sym (append-nil _);
    result =
        subst (λ c. Compared c trailer (verdict checksum trailer)) (sym (add_block-nil checksum lt))
          (verdict_lem checksum trailer);
  }

  -- What is said of the rest after a stored block gives what is said of the whole.
  pub Complete-more :
      (checksum n m : ℕ) (w s u : World N F) (block : Bytes)
      → length block + m ≡ n
      → Took os stream w block s
      → Drained (stored os files fd) (beside_stored os files fd) block s ok u
      → (r : ℕ) (t : World N F) → IsComplete (add_block checksum block) m u r t
      → IsComplete checksum n w r t
  Complete-more checksum n m w s u block len took d r t c = record {
    content = block ++ c.content;
    trailer = c.trailer;
    length_content = omega (arith, c.length_content, length-append block c.content);
    length_trailer = c.length_trailer;
    taken =
        took.0
        ∙ ap (λ x. block ++ x) (sym (waiting_same u s d.1) ∙ c.taken)
        ∙ sym (append_assoc block c.content _);
    kept =
        c.kept
        ∙ ap (λ x. x ++ c.content) (d.0 ∙ ap (λ x. x ++ block) (stored_same s w took.1))
        ∙ append_assoc _ block c.content;
    result =
        subst (λ x. Compared x c.trailer r) (sym (add_block-append checksum block c.content))
          c.result;
  }

  Verdict-more :
      (checksum n m : ℕ) (w s u : World N F) (block : Bytes)
      → length block + m ≡ n
      → Took os stream w block s
      → Drained (stored os files fd) (beside_stored os files fd) block s ok u
      → (r : ℕ) (t : World N F) → Verdict (add_block checksum block) m u r t
      → Verdict checksum n w r t
  Verdict-more checksum n m w s u block len took d r t (inl c) =
      inl (Complete-more checksum n m w s u block len took d r t c)
  Verdict-more checksum n m w s u block len took d r t (inr b) = inr (record {
    content = block ++ b.content;
    length_content = omega (arith, b.length_content, length-append block b.content);
    kept =
        b.kept
        ∙ ap (λ x. x ++ b.content) (d.0 ∙ ap (λ x. x ++ block) (stored_same s w took.1))
        ∙ append_assoc _ block b.content;
    result = b.result;
  })

  -- Nothing more was stored.
  Broken-here :
      (n : ℕ) (w t : World N F)
      → beside_waiting os stream t ≡ beside_waiting os stream w
      → IsBroken n w minus_one t
  Broken-here n w t e = record {
    content = [];
    length_content = omega arith;
    kept = stored_same t w e ∙ sym (append-nil _);
    result = refl;
  }

  verify-Verdict :
      (checksum : ℕ) (w : World N F)
      → checksum < 2 ^ 64
      → Post (Verdict checksum 0 w) (verify_checksum os checksum w)
  unfolding verify_checksum
  verify-Verdict checksum w lt =
      after_recv os stream (Verdict checksum 0 w) 8 minus_one _ w
        (λ trailer t len took. inl (Complete-done checksum w t trailer lt len took))
        (λ t g. inr (Broken-here 0 w t g.2.1))

  then_stored :
      (again : Io (World N F) ℕ) (checksum n m : ℕ) (w t : World N F) (block : Bytes)
      → length block + m ≡ n
      → Took os stream w block t
      → ((u : World N F) → Post (Verdict (add_block checksum block) m u) (again u))
      → Post (Verdict checksum n w) ((write_all os fd block >>= unless_err minus_one again) t)
  then_stored again checksum n m w t block len took rest =
      after_write os files (Verdict checksum n w) fd block minus_one again t
        (λ u d.
          Post-mono (Verdict (add_block checksum block) m u) (Verdict checksum n w) (again u)
            (Verdict-more checksum n m w t u block len took d) (rest u))
        (λ u d. inr (record {
          content = take d.0 block;
          length_content = omega (arith, d.1, length-take d.0 block);
          kept = d.2 ∙ ap (λ x. x ++ take d.0 block) (stored_same t w took.1);
          result = refl;
        }))

  receive_loop_lem :
      (fuel n checksum : ℕ) (w : World N F)
      → n ≤ fuel
      → checksum < 2 ^ 64
      → Post (Verdict checksum n w) (receive_loop os fuel fd n checksum w)
  unfolding receive_loop
  receive_loop_lem fuel zero checksum w le lt = verify-Verdict checksum w lt
  receive_loop_lem zero (suc n) checksum w le lt = absurd (omega arith)
  receive_loop_lem (suc fuel) (suc n) checksum w le lt =
      let k : ℕ = to_read (suc n) in
      let (k_pos, k_le) = to_read_bounds (suc n) (omega arith) in
      after_recv os stream (Verdict checksum (suc n) w) k minus_one _ w
        (λ block t len took.
          then_stored _ checksum (suc n) (suc n - k) w t block (omega (arith, len, k_le)) took λ u.
            receive_loop_lem fuel (suc n - k) (add_block checksum block) u (omega (arith, k_pos))
              (omega arith))
        (λ t g. inr (Broken-here (suc n) w t g.2.1))

  -- On any connection and any disk the function returns. Either it took `effective_length` bytes
  -- and 8 more off the stream, stored exactly the former, and returns their checksum if the
  -- latter spell it and -2 if not; or it returns -1, having stored no more than
  -- `effective_length` bytes.
  pub receive_file_uncompressed_lem :
      (effective_length : ℕ) (w : World N F)
      → Post (Received effective_length w) (receive_file_uncompressed os fd effective_length w)
  unfolding receive_file_uncompressed
  receive_file_uncompressed_lem effective_length w =
      Post-mono (Verdict 0 effective_length w) (Received effective_length w) _
        (λ r t. elim [
          | inl c ↦ inl (c, subst (λ x. Compared x c.trailer r) (add_block_zero c.content) c.result)
          | inr b ↦ inr b
        ])
        (receive_loop_lem effective_length effective_length 0 w (omega arith) (omega arith))
