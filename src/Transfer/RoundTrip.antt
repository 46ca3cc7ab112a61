-- ===== src/Transfer/RoundTrip.antt =====
-- The uncompressed stream from a file at one end to a file at the other.
use isr.Prelude.{
  ℕ, zero, suc, ◌+◌, ◌-◌, ◌^◌, ◌≤◌, ◌<◌, ◌≡◌, refl, sym, ap, ◌∙◌, ◌++◌, append_assoc, arith, Bytes,
  length, length-append, append-injective,
}
use isr.Bytes.{to_big_endian, count_byte_values, from_big_endian}
use isr.Bytes.BigEndian.{length-to_big_endian, from_to_big_endian}
use isr.Bytes.Checksum.{count_byte_values-lt}
use isr.Io.{ret, Os, World}
use isr.Io.Post.{Post, Post-mono, Post-holds}
use isr.Exact.Laws.{StreamLaws, IsReliable, FileLaws, IsHealthy}
use isr.Exact.Send.{sent, stored}
use isr.Exact.Recv.{waiting, Took-length}
use isr.Exact.Steps.{after_recv_ok, after_write_ok}
use isr.Transfer.Sums.{add_block_zero}
use isr.Transfer.Plain.{plain_stream, transmit_file_uncompressed_lem}
use isr.Transfer.Verdict.{IsComplete, waiting_same, to_read_bounds, Complete-done, Complete-more}
use isr.Transfer.{
  verdict, minus_one, add_block, verify_checksum, to_read, receive_loop, receive_file_uncompressed,
  transmit_file_uncompressed,
}

-- The comparison with what `htobe64` sent of the same checksum.
pub verdict_same : (sum : ℕ) → sum < 2 ^ 64 → verdict sum (to_big_endian 8 sum) ≡ sum
verdict_same sum lt = ground (arith, from_to_big_endian 8 sum)

module _ {N F : Type 0} (os : Os N F) (stream : StreamLaws os.net) (reliable : IsReliable stream)
    (files : FileLaws os.sys) (healthy : IsHealthy os.sys) (fd : ℕ) where
  receive_loop-IsComplete :
      (fuel n checksum : ℕ) (w : World N F)
      → n ≤ fuel
      → checksum < 2 ^ 64
      → n + 8 ≤ length (waiting os stream w)
      → Post (IsComplete os stream files fd checksum n w) (receive_loop os fuel fd n checksum w)
  unfolding receive_loop verify_checksum
  receive_loop-IsComplete fuel zero checksum w le lt more =
      after_recv_ok os stream (IsComplete os stream files fd checksum 0 w) reliable 8 minus_one _ w
        (omega arith)
        λ trailer t len took. Complete-done os stream files fd checksum w t trailer lt len took
  receive_loop-IsComplete zero (suc n) checksum w le lt more = absurd (omega arith)
  receive_loop-IsComplete (suc fuel) (suc n) checksum w le lt more =
      let k : ℕ = to_read (suc n) in
      let (k_pos, k_le) = to_read_bounds (suc n) (omega arith) in
      after_recv_ok os stream (IsComplete os stream files fd checksum (suc n) w) reliable k
        minus_one _ w (omega (arith, k_le))
        λ block t len took.
          after_write_ok os files (IsComplete os stream files fd checksum (suc n) w) healthy fd
            block minus_one _ t
            λ u d.
              Post-mono (IsComplete os stream files fd (add_block checksum block) (suc n - k) u) _ _
                (Complete-more os stream files fd checksum (suc n) (suc n - k) w t u block
                  (omega (arith, len, k_le)) took d)
                (receive_loop-IsComplete fuel (suc n - k) (add_block checksum block) u
                  (omega (arith, k_pos)) (omega arith)
                  (omega (
                    arith,
                    len,
                    k_le,
                    Took-length os stream reliable w t block took,
                    ap length (waiting_same os stream files fd u t d.1),
                  )))

  -- The stream splits in one way only.
  Complete-plain :
      (content rest : Bytes) (w : World N F)
      → waiting os stream w ≡ plain_stream content (count_byte_values content) ++ rest
      → (r : ℕ) (t : World N F) → IsComplete os stream files fd 0 (length content) w r t
      → (r ≡ count_byte_values content)
        × (stored os files fd t ≡ stored os files fd w ++ content)
        × (waiting os stream t ≡ rest)
  Complete-plain content rest w e r t c =
      let sum : ℕ = count_byte_values content in
      let trailer : Bytes = to_big_endian 8 sum in
      let whole : c.content ++ (c.trailer ++ waiting os stream t) ≡ content ++ (trailer ++ rest) =
        sym c.taken ∙ e ∙ append_assoc content trailer rest in
      let (same, behind) = append-injective c.content _ content _ c.length_content whole in
      let (same', left_over) =
        append-injective c.trailer _ trailer rest
          (c.length_trailer ∙ sym (length-to_big_endian 8 sum)) behind in
      let total : add_block 0 c.content ≡ sum = ap (add_block 0) same ∙ add_block_zero content in
      (
        c.result.0 (
              ap from_big_endian same'
              ∙ from_to_big_endian 8 sum (count_byte_values-lt content)
              ∙ sym total)
            ∙ total,
        c.kept ∙ ap (λ x. stored os files fd w ++ x) same,
        left_over,
      )

  -- A stream that holds `content` and its checksum is stored as `content`; the result is the
  -- checksum, and what follows in the stream is left there.
  pub receive_plain_stream :
      (content rest : Bytes) (w : World N F)
      → waiting os stream w ≡ plain_stream content (count_byte_values content) ++ rest
      → Post
          (λ r t.
            (r ≡ count_byte_values content)
            × (stored os files fd t ≡ stored os files fd w ++ content)
            × (waiting os stream t ≡ rest))
          (receive_file_uncompressed os fd (length content) w)
  unfolding receive_file_uncompressed
  receive_plain_stream content rest w e =
      Post-mono (IsComplete os stream files fd 0 (length content) w) _ _
        (Complete-plain content rest w e)
        (receive_loop-IsComplete (length content) (length content) 0 w (omega arith) (omega arith) (
          omega (
            arith,
            ap length e,
            length-append (plain_stream content (count_byte_values content)) rest,
            length-append content (to_big_endian 8 (count_byte_values content)),
            length-to_big_endian 8 (count_byte_values content),
          )))

-- If one machine sends a file and returns, and another machine's stream goes on with exactly what
-- the first one sent, then the second, told the file's length, returns the same checksum, has
-- stored the file's bytes and has left the rest of its stream alone. It does so whatever the
-- sizes of the single reads, writes and transfers; both connections and disks are free of
-- failures, and the sender may make one read more than the file has bytes.
pub plain_round_trip :
    {N F M G : Type 0} (here : Os N F) (there : Os M G) (out : StreamLaws here.net)
    (inn : StreamLaws there.net)
    → IsReliable out
    → IsReliable inn
    → (source : FileLaws here.sys) (target : FileLaws there.sys) → IsHealthy here.sys
    → IsHealthy there.sys
    → (fuel fd fd' : ℕ) (w t : World N F) (r : ℕ) (v : World M G) (wire rest : Bytes)
    → length (source.unread fd w.sys) < fuel
    → transmit_file_uncompressed here fuel fd w ≡ ret r t
    → sent here out t ≡ sent here out w ++ wire
    → waiting there inn v ≡ wire ++ rest
    → Post
        (λ r' u.
          (r' ≡ r)
          × (stored there target fd' u ≡ stored there target fd' v ++ source.unread fd w.sys)
          × (waiting there inn u ≡ rest))
        (receive_file_uncompressed there fd' (length (source.unread fd w.sys)) v)
plain_round_trip here there out inn rel rel' source target sound sound' fuel fd fd' w t r v wire
      rest h run sends arrives =
    let content : Bytes = source.unread fd w.sys in
    let (sum, stream) =
      Post-holds
        (λ q u.
          (q ≡ count_byte_values content)
          × (sent here out u ≡ sent here out w ++ plain_stream content q))
        run (transmit_file_uncompressed_lem here out rel source sound fd fuel w h) in
    let same : wire ≡ plain_stream content r =
      (append-injective (sent here out w) _ _ _ refl (sym sends ∙ stream)).1 in
    rw sum (
      receive_plain_stream there inn rel' target sound' fd' content rest v
        (rw (same, sum) at arrives))
