-- ===== src/Compressed/Quiet.antt =====
-- Receiving compressed blocks sends nothing, and sending them takes nothing off the incoming stream.
use isr.Prelude.{ℕ, zero, suc, ◌+◌, ◌-◌, ◌%◌, ◌^◌, refl, Option, none, some, [], ◌∷◌, Bytes, length}
use isr.Bytes.{to_big_endian, from_big_endian}
use isr.Io.{Io, Os, World}
use isr.Io.Fixes.{Fixes-bind, Fixes-err, Fixes-fail, Fixes-false}
use isr.Exact.{recv_into, send_exact, recv_exact, write_all}
use isr.Exact.Laws.{StreamLaws, FileLaws}
use isr.Exact.Send.{sent}
use isr.Exact.Recv.{waiting}
use isr.Exact.Quiet.{
  Quiet, Untaken, recv_exact-Quiet, recv_into-Quiet, send_exact-Untaken, write_all-Quiet,
}
use isr.Transfer.Quiet.{verify_checksum-Quiet, send_checksum-Untaken}
use isr.Transfer.{minus_one, add_block, read}
use isr.Compressed.{
  alloc, send_block, compress_next, compress_loop, transmit_file_compressed, store_block,
  decompress_loop, receive_file_compressed,
}

module _ {N F : Type 0} (os : Os N F) (stream : StreamLaws os.net) where
  send_block-Untaken :
      (again : Io (World N F) ℕ)
      → Untaken os stream again
      → (o : Option Bytes) → Untaken os stream (send_block os again o)
  send_block-Untaken again h none = λ w. refl
  send_block-Untaken again h (some []) = λ w. refl
  send_block-Untaken again h (some (c ∷ cs)) =
      Fixes-err (waiting os stream) (send_exact os (to_big_endian 4 (length (c ∷ cs) % 2 ^ 32)))
        minus_one _ (send_exact-Untaken os stream (to_big_endian 4 (length (c ∷ cs) % 2 ^ 32)))
        (Fixes-err (waiting os stream) (send_exact os (c ∷ cs)) minus_one again
          (send_exact-Untaken os stream (c ∷ cs)) h)

  compress_loop-Untaken :
      (fuel fd size checksum : ℕ) → Untaken os stream (compress_loop os fuel fd size checksum)
  unfolding compress_loop
  compress_loop-Untaken zero fd size checksum = λ w. tt
  compress_loop-Untaken (suc fuel) fd size checksum =
      Fixes-bind (waiting os stream) (read os fd size)
        (compress_next os (compress_loop os fuel fd size) (os.lz4.compress_bound size) checksum)
        (λ w. refl)
        (elim [
          | none ↦ send_checksum-Untaken os stream checksum
          | some [] ↦ send_checksum-Untaken os stream checksum
          | some (b ∷ bs) ↦
              send_block-Untaken (compress_loop os fuel fd size (add_block checksum (b ∷ bs)))
                (compress_loop-Untaken fuel fd size (add_block checksum (b ∷ bs)))
                (os.lz4.compress (b ∷ bs) (os.lz4.compress_bound size))
        ])

  pub transmit_file_compressed-Untaken :
      (fuel fd size : ℕ) → Untaken os stream (transmit_file_compressed os fuel fd size)
  unfolding transmit_file_compressed
  transmit_file_compressed-Untaken fuel fd size =
      Fixes-false (waiting os stream) (alloc os size) minus_one _ (λ w. refl)
        (Fixes-false (waiting os stream) (alloc os (os.lz4.compress_bound size)) minus_one _
          (λ w. refl) (compress_loop-Untaken fuel fd size 0))

  module _ (files : FileLaws os.sys) where
    store_block-Quiet :
        (again : ℕ → ℕ → Io (World N F) ℕ) (fd remaining checksum : ℕ)
        → ((r c : ℕ) → Quiet os stream (again r c))
        → (o : Option Bytes) → Quiet os stream (store_block os again fd remaining checksum o)
    store_block-Quiet again fd remaining checksum h none = λ w. refl
    store_block-Quiet again fd remaining checksum h (some []) = λ w. refl
    store_block-Quiet again fd remaining checksum h (some (b ∷ bs)) =
        Fixes-err (sent os stream) (write_all os fd (b ∷ bs)) minus_one _
          (write_all-Quiet os stream files fd (b ∷ bs))
          (h ((remaining + 2 ^ 64 - length (b ∷ bs)) % 2 ^ 64) (add_block checksum (b ∷ bs)))

    decompress_loop-Quiet :
        (fuel fd size n checksum : ℕ) → Quiet os stream (decompress_loop os fuel fd size n checksum)
    unfolding decompress_loop
    decompress_loop-Quiet fuel fd size zero checksum = verify_checksum-Quiet os stream checksum
    decompress_loop-Quiet zero fd size (suc n) checksum = λ w. tt
    decompress_loop-Quiet (suc fuel) fd size (suc n) checksum =
        Fixes-fail (sent os stream) (recv_exact os 4) minus_one _ (recv_exact-Quiet os stream 4)
          λ block_size_be.
            Fixes-fail (sent os stream)
              (recv_into os (os.lz4.compress_bound size) (from_big_endian block_size_be)) minus_one
              _
              (recv_into-Quiet os stream (os.lz4.compress_bound size)
                (from_big_endian block_size_be))
              λ compressed.
                store_block-Quiet (decompress_loop os fuel fd size) fd (suc n) checksum
                  (λ r c. decompress_loop-Quiet fuel fd size r c)
                  (os.lz4.decompress compressed size)

    pub receive_file_compressed-Quiet :
        (fuel fd size effective_length : ℕ)
        → Quiet os stream (receive_file_compressed os fuel fd size effective_length)
    unfolding receive_file_compressed
    receive_file_compressed-Quiet fuel fd size effective_length =
        Fixes-false (sent os stream) (alloc os (os.lz4.compress_bound size)) minus_one _ (λ w. refl)
          (Fixes-false (sent os stream) (alloc os size) minus_one _ (λ w. refl)
            (decompress_loop-Quiet fuel fd size effective_length 0))
