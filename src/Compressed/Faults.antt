-- ===== src/Compressed/Faults.antt =====
-- What the compressed stream's functions do on input that the peer or the disk spoils.
use isr.Prelude.{
  Bool, false, ltb, true, ℕ, zero, suc, ◌^◌, ◌<◌, ◌≡◌, refl, ap, Option, none, some, [], ◌∷◌, ◌≤◌,
  ◌++◌, arith, Bytes, length, replicate,
}
use isr.Bytes.{to_big_endian}
use isr.Bytes.BigEndian.{length-to_big_endian, from_to_big_endian}
use isr.Io.{or_fail, Outcome, Io, Os, World, ◌>>=◌, fault}
use isr.Io.Post.{Post, Post-bind}
use isr.Exact.{recv_into}
use isr.Exact.Into.{recv_into-overruns, recv_into-starved}
use isr.Exact.Laws.{StreamLaws, IsReliable, FileLaws, received}
use isr.Exact.Send.{sent}
use isr.Exact.Recv.{waiting}
use isr.Exact.Steps.{after_send_ok, recv_this}
use isr.Transfer.{minus_one, send_checksum, transmit_file_uncompressed}
use isr.Compressed.{compress_next, receive_file_compressed, transmit_file_compressed}

module _ {N F : Type 0} (os : Os N F) (stream : StreamLaws os.net) (reliable : IsReliable stream)
    (allocates : (k : ℕ) (f : F) → (os.sys.alloc k f).0 ≡ true) (fd size : ℕ) where
  -- How receiving ends, if more comes behind the length than the buffer holds, and if not.
  abbrev pub EndsOverlong : Bool → Outcome (World N F) ℕ → Type 0
  EndsOverlong true o = o ≡ fault
  EndsOverlong false o = Post (λ r t. r ≡ minus_one) o

  overlong_read :
      (capacity len : ℕ) (w : World N F) (rest : Bytes → Io (World N F) ℕ) (b : Bool)
      → ltb capacity (length (waiting os stream w)) ≡ b
      → capacity < len
      → EndsOverlong b ((recv_into os capacity len >>= or_fail minus_one rest) w)
  overlong_read capacity len w rest true more over =
      rw (recv_into-overruns os stream reliable capacity len w over (ground arith), ◌>>=◌) refl
  overlong_read capacity len w rest false more over =
      Post-bind (λ r t. r ≡ none) (λ r t. r ≡ minus_one) (recv_into os capacity len)
        (or_fail minus_one rest) w (recv_into-starved os stream capacity len w over (ground arith))
        (elim [ none ↦ λ t e. refl | some bs ↦ λ t e. cc ])

  -- If the stream begins with a block length above what LZ4_compressBound gives for the block
  -- size, receiving a file that is not empty writes outside the buffer for compressed data where
  -- more bytes follow in the stream than that buffer holds, and returns -1 where no more follow.
  -- The connection is reliable, and malloc does not fail.
  pub overlong_block_faults :
      (fuel effective_length len : ℕ) (rest : Bytes) (w : World N F)
      → 0 < effective_length
      → os.lz4.compress_bound size < len
      → len < 2 ^ 32
      → waiting os stream w ≡ to_big_endian 4 len ++ rest
      → EndsOverlong
          (ltb (os.lz4.compress_bound size) (length rest))
          (receive_file_compressed os (suc fuel) fd size effective_length w)
  unfolding receive_file_compressed
  overlong_block_faults fuel zero len rest w pos over fits holds = absurd (omega arith)
  overlong_block_faults fuel (suc n) len rest w pos over fits holds =
      let bound : ℕ = os.lz4.compress_bound size in
      let v : World N F = record w { sys = (os.sys.alloc bound w.sys).1 } in
      let u : World N F = record v { sys = (os.sys.alloc size v.sys).1 } in
      let (t, e, left, same) =
        recv_this os stream reliable (to_big_endian 4 len) rest 4 u (length-to_big_endian 4 len)
          holds in
      rw (allocates, allocates)
        (rw (e, ◌>>=◌)
          (rw (from_to_big_endian 4 len fits) (
            overlong_read bound len t _ (ltb bound (length rest))
              (ap (λ b. ltb bound (length b)) left) over)))

  -- Where every read fails, the compressed transfer reports success: it sends eight zero bytes
  -- and returns the checksum 0. The uncompressed one sends nothing and returns -1. The connection
  -- is reliable, and malloc does not fail.
  pub failed_read_compressed :
      (fuel : ℕ) (w : World N F)
      → ((k : ℕ) (f : F) → (os.sys.read fd k f).0 ≡ none)
      → Post
          (λ r t. (r ≡ 0) × (sent os stream t ≡ sent os stream w ++ replicate 8 0))
          (transmit_file_compressed os (suc fuel) fd size w)
        × Post
            (λ r t. (r ≡ minus_one) × (sent os stream t ≡ sent os stream w))
            (transmit_file_uncompressed os (suc fuel) fd w)
  unfolding transmit_file_compressed transmit_file_uncompressed to_big_endian
  failed_read_compressed fuel w broken = (
    rw allocates (
        rw allocates (
          rw broken (
            after_send_ok os stream
              (λ r t. (r ≡ 0) × (sent os stream t ≡ sent os stream w ++ replicate 8 0)) reliable
              (to_big_endian 8 0) minus_one _ _ λ t d. (refl, d.0)))),
    rw broken (refl, refl),
  )

  nothing_read :
      (again : ℕ → Io (World N F) ℕ) (bound checksum : ℕ) (r : Option Bytes)
      → length (received r) ≤ 0
      → compress_next os again bound checksum r ≡ send_checksum os checksum
  nothing_read again bound checksum none h = refl
  nothing_read again bound checksum (some []) h = refl
  nothing_read again bound checksum (some (b ∷ bs)) h = absurd (omega arith)

  -- With the block size 0 the compressed transfer sends eight zero bytes and returns the checksum
  -- 0, whatever the file holds: a read of no bytes is taken for the end of the file. The
  -- connection is reliable, and malloc does not fail.
  pub zero_block_size_sends_nothing :
      FileLaws os.sys
      → (fuel : ℕ) (w : World N F)
      → Post
          (λ r t. (r ≡ 0) × (sent os stream t ≡ sent os stream w ++ replicate 8 0))
          (transmit_file_compressed os (suc fuel) fd 0 w)
  unfolding transmit_file_compressed to_big_endian
  zero_block_size_sends_nothing files fuel w =
      let v : World N F = record w { sys = (os.sys.alloc 0 w.sys).1 } in
      let u : World N F = record v { sys = (os.sys.alloc (os.lz4.compress_bound 0) v.sys).1 } in
      rw (allocates, allocates, nothing_read _ _ _ _ (files.read-length fd 0 u.sys))
        (after_send_ok os stream
          (λ r t. (r ≡ 0) × (sent os stream t ≡ sent os stream w ++ replicate 8 0)) reliable
          (to_big_endian 8 0) minus_one _ _ λ t d. (refl, d.0))
