-- ===== src/Compressed/Keeps.antt =====
-- The compressed stream touches the files by reads and writes of its descriptor and by malloc.
use isr.Prelude.{ℕ, zero, suc, ◌+◌, ◌-◌, ◌%◌, ◌^◌, Option, none, some, [], ◌∷◌, Bytes, length}
use isr.Bytes.{to_big_endian, from_big_endian}
use isr.Io.{Io, Os, World}
use isr.Io.Keeps.{KeptByTransfers, Keeps, Keeps-bind, Keeps-err, Keeps-fail, Keeps-false}
use isr.Exact.{recv_into, send_exact, recv_exact, write_all}
use isr.Transfer.{minus_one, add_block, read}
use isr.Compressed.{
  alloc, send_block, compress_next, compress_loop, transmit_file_compressed, store_block,
  decompress_loop, receive_file_compressed,
}
use isr.Exact.Keeps.{send_exact-Keeps, recv_exact-Keeps, recv_into-Keeps, write_all-Keeps}
use isr.Transfer.Keeps.{send_checksum-Keeps, verify_checksum-Keeps, read-Keeps}

module _ {N F : Type 0} (os : Os N F) (I : F → Type 0) (kept : KeptByTransfers os.sys I) where
  pub alloc-Keeps : (k : ℕ) → Keeps I (alloc os k)
  alloc-Keeps k w i = kept.alloc k w.sys i

  send_block-Keeps :
      (again : Io (World N F) ℕ)
      → Keeps I again
      → (o : Option Bytes) → Keeps I (send_block os again o)
  send_block-Keeps again h none = λ w i. i
  send_block-Keeps again h (some []) = λ w i. i
  send_block-Keeps again h (some (c ∷ cs)) =
      Keeps-err I (send_exact os (to_big_endian 4 (length (c ∷ cs) % 2 ^ 32))) minus_one _
        (send_exact-Keeps os I kept (to_big_endian 4 (length (c ∷ cs) % 2 ^ 32)))
        (Keeps-err I (send_exact os (c ∷ cs)) minus_one again (send_exact-Keeps os I kept (c ∷ cs))
          h)

  compress_loop-Keeps :
      (fuel fd size checksum : ℕ) → Keeps I (compress_loop os fuel fd size checksum)
  unfolding compress_loop
  compress_loop-Keeps zero fd size checksum = λ w i. tt
  compress_loop-Keeps (suc fuel) fd size checksum =
      Keeps-bind I (read os fd size)
        (compress_next os (compress_loop os fuel fd size) (os.lz4.compress_bound size) checksum)
        (read-Keeps os I kept fd size)
        (elim [
          | none ↦ send_checksum-Keeps os I kept checksum
          | some [] ↦ send_checksum-Keeps os I kept checksum
          | some (b ∷ bs) ↦
              send_block-Keeps (compress_loop os fuel fd size (add_block checksum (b ∷ bs)))
                (compress_loop-Keeps fuel fd size (add_block checksum (b ∷ bs)))
                (os.lz4.compress (b ∷ bs) (os.lz4.compress_bound size))
        ])

  pub transmit_file_compressed-Keeps :
      (fuel fd size : ℕ) → Keeps I (transmit_file_compressed os fuel fd size)
  unfolding transmit_file_compressed
  transmit_file_compressed-Keeps fuel fd size =
      Keeps-false I (alloc os size) minus_one _ (alloc-Keeps size) (
        Keeps-false I (alloc os (os.lz4.compress_bound size)) minus_one _
          (alloc-Keeps (os.lz4.compress_bound size)) (compress_loop-Keeps fuel fd size 0))

  store_block-Keeps :
      (again : ℕ → ℕ → Io (World N F) ℕ) (fd remaining checksum : ℕ)
      → ((r c : ℕ) → Keeps I (again r c))
      → (o : Option Bytes) → Keeps I (store_block os again fd remaining checksum o)
  store_block-Keeps again fd remaining checksum h none = λ w i. i
  store_block-Keeps again fd remaining checksum h (some []) = λ w i. i
  store_block-Keeps again fd remaining checksum h (some (b ∷ bs)) =
      Keeps-err I (write_all os fd (b ∷ bs)) minus_one _ (write_all-Keeps os I kept fd (b ∷ bs))
        (h ((remaining + 2 ^ 64 - length (b ∷ bs)) % 2 ^ 64) (add_block checksum (b ∷ bs)))

  decompress_loop-Keeps :
      (fuel fd size n checksum : ℕ) → Keeps I (decompress_loop os fuel fd size n checksum)
  unfolding decompress_loop
  decompress_loop-Keeps fuel fd size zero checksum = verify_checksum-Keeps os I kept checksum
  decompress_loop-Keeps zero fd size (suc n) checksum = λ w i. tt
  decompress_loop-Keeps (suc fuel) fd size (suc n) checksum =
      Keeps-fail I (recv_exact os 4) minus_one _ (recv_exact-Keeps os I kept 4) λ block_size_be.
        Keeps-fail I (recv_into os (os.lz4.compress_bound size) (from_big_endian block_size_be))
          minus_one _
          (recv_into-Keeps os I kept (os.lz4.compress_bound size) (from_big_endian block_size_be))
          λ compressed.
            store_block-Keeps (decompress_loop os fuel fd size) fd (suc n) checksum
              (λ r c. decompress_loop-Keeps fuel fd size r c) (os.lz4.decompress compressed size)

  pub receive_file_compressed-Keeps :
      (fuel fd size effective_length : ℕ)
      → Keeps I (receive_file_compressed os fuel fd size effective_length)
  unfolding receive_file_compressed
  receive_file_compressed-Keeps fuel fd size effective_length =
      Keeps-false I (alloc os (os.lz4.compress_bound size)) minus_one _
        (alloc-Keeps (os.lz4.compress_bound size))
        (Keeps-false I (alloc os size) minus_one _ (alloc-Keeps size)
          (decompress_loop-Keeps fuel fd size effective_length 0))
