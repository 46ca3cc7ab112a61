-- ===== src/Compressed.antt =====
-- The compressed data stream: `isr_transmit_file_compressed` and `isr_receive_file_compressed` of
-- lib/isr.c. Each block goes out as the length of its compressed form and that form.
pub mod Format
pub mod Send
pub mod Receive
pub mod RoundTrip
pub mod Faults
pub mod Overshoot
pub mod Keeps
pub mod Quiet
use isr.Prelude.{
  ℕ, zero, suc, ◌+◌, ◌-◌, ◌%◌, ◌^◌, Bool, Option, none, some, [], ◌∷◌, Bytes, ltb, if◌then◌else◌,
  length,
}
use isr.Bytes.{to_big_endian, from_big_endian}
use isr.Io.{stuck, fault, Io, pure, ◌>>=◌, Os, World, on_sys, unless_err, or_fail, unless_false}
use isr.Exact.{send_exact, recv_exact, recv_into, write_all}
use isr.Transfer.{minus_one, add_block, read, send_checksum, verify_checksum}

module _ {N F : Type 0} (os : Os N F) where
  -- malloc
  abbrev pub alloc : ℕ → Io (World N F) Bool
  alloc size = on_sys (os.sys.alloc size)

  -- One block on the wire, after LZ4_compress_default; a result of 0 is a failure like one below.
  abbrev pub send_block : Io (World N F) ℕ → Option Bytes → Io (World N F) ℕ
  send_block again none = pure minus_one
  send_block again (some []) = pure minus_one
  send_block again (some (c ∷ cs)) =
      send_exact os (to_big_endian 4 (length (c ∷ cs) % 2 ^ 32))
      >>= unless_err minus_one (send_exact os (c ∷ cs) >>= unless_err minus_one again)

  -- The body of the loop of `isr_transmit_file_compressed`, after the read, and what follows the
  -- loop: a failed read ends it as the end of the file does.
  abbrev pub compress_next : (ℕ → Io (World N F) ℕ) → ℕ → ℕ → Option Bytes → Io (World N F) ℕ
  compress_next again max_compressed_size checksum none = send_checksum os checksum
  compress_next again max_compressed_size checksum (some []) = send_checksum os checksum
  compress_next again max_compressed_size checksum (some (b ∷ bs)) =
      send_block (again (add_block checksum (b ∷ bs)))
        (os.lz4.compress (b ∷ bs) max_compressed_size)

  -- The rounds are the caller's bound on the reads, as for the uncompressed stream.
  pub compress_loop : ℕ → ℕ → ℕ → ℕ → Io (World N F) ℕ
  compress_loop zero fd uncompressed_block_size checksum = λ w. stuck
  compress_loop (suc fuel) fd uncompressed_block_size checksum =
      read os fd uncompressed_block_size
      >>= compress_next (compress_loop fuel fd uncompressed_block_size)
          (os.lz4.compress_bound uncompressed_block_size) checksum

  unfoldable pub transmit_file_compressed : ℕ → ℕ → ℕ → Io (World N F) ℕ
  unfolding compress_loop send_checksum
  transmit_file_compressed fuel fd uncompressed_block_size =
      alloc uncompressed_block_size
      >>= unless_false minus_one (
          alloc (os.lz4.compress_bound uncompressed_block_size)
          >>= unless_false minus_one (compress_loop fuel fd uncompressed_block_size 0))

  -- The rest of the loop body after LZ4_decompress_safe. `remaining` is a uint64_t.
  abbrev pub store_block : (ℕ → ℕ → Io (World N F) ℕ) → ℕ → ℕ → ℕ → Option Bytes → Io (World N F) ℕ
  store_block again fd remaining checksum none = pure minus_one
  store_block again fd remaining checksum (some []) = pure minus_one
  store_block again fd remaining checksum (some (b ∷ bs)) =
      write_all os fd (b ∷ bs)
      >>= unless_err minus_one
          (again ((remaining + 2 ^ 64 - length (b ∷ bs)) % 2 ^ 64) (add_block checksum (b ∷ bs)))

  -- The loop of `isr_receive_file_compressed`. The rounds are the caller's bound on the blocks:
  -- `remaining` may wrap, so its size bounds nothing.
  pub decompress_loop : ℕ → ℕ → ℕ → ℕ → ℕ → Io (World N F) ℕ
  decompress_loop fuel fd uncompressed_block_size zero checksum = verify_checksum os checksum
  decompress_loop zero fd uncompressed_block_size (suc n) checksum = λ w. stuck
  decompress_loop (suc fuel) fd uncompressed_block_size (suc n) checksum =
      recv_exact os 4
      >>= or_fail minus_one λ block_size_be.
        recv_into os (os.lz4.compress_bound uncompressed_block_size) (from_big_endian block_size_be)
        >>= or_fail minus_one λ compressed.
          store_block (decompress_loop fuel fd uncompressed_block_size) fd (suc n) checksum
            (os.lz4.decompress compressed uncompressed_block_size)

  unfoldable pub receive_file_compressed : ℕ → ℕ → ℕ → ℕ → Io (World N F) ℕ
  unfolding decompress_loop verify_checksum
  receive_file_compressed fuel fd uncompressed_block_size effective_length =
      alloc (os.lz4.compress_bound uncompressed_block_size)
      >>= unless_false minus_one (
          alloc uncompressed_block_size
          >>= unless_false minus_one
              (decompress_loop fuel fd uncompressed_block_size effective_length 0))
