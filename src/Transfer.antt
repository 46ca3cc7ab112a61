-- ===== src/Transfer.antt =====
-- The data stream: `isr_transmit_file_uncompressed`, `isr_transmit_file_compressed`,
-- `isr_receive_file_uncompressed` and `isr_receive_file_compressed` of lib/isr.c.
-- An int64_t result is its bit pattern, a number below 2 ^ 64. The bytes of a buffer that a call
-- fills are the value that the call returns; releasing memory is not modelled.
pub mod Sums
pub mod Plain
pub mod Verdict
pub mod RoundTrip
pub mod Quiet
pub mod Keeps
use isr.Prelude.{
  ℕ, zero, suc, ◌+◌, ◌-◌, ◌%◌, ◌^◌, Option, none, some, [], ◌∷◌, Bytes, ltb, ◌==◌, if◌then◌else◌,
  length,
}
use isr.Bytes.{to_big_endian, from_big_endian, count_byte_values}
use isr.Io.{stuck, fault, Io, pure, ◌>>=◌, Os, World, on_sys, unless_err, or_fail, unless_false}
use isr.Exact.{send_exact, recv_exact, write_all}
use isr.Wire.{io_bufsize}

-- -1 and -2 as int64_t.
abbrev pub minus_one : ℕ
minus_one = 2 ^ 64 - 1

abbrev pub minus_two : ℕ
minus_two = 2 ^ 64 - 2

-- `checksum += _isr_count_byte_values(...)`
abbrev pub add_block : ℕ → Bytes → ℕ
add_block checksum block = (checksum + count_byte_values block) % 2 ^ 64

-- `if (wire_checksum != (uint64_t)checksum) return -2; return checksum;`
abbrev pub verdict : ℕ → Bytes → ℕ
verdict checksum wire = if from_big_endian wire == checksum then checksum else minus_two

-- `size_t to_read = remaining < sizeof(buffer) ? (size_t)remaining : sizeof(buffer);`
abbrev pub to_read : ℕ → ℕ
to_read remaining = if ltb remaining io_bufsize then remaining else io_bufsize

module _ {N F : Type 0} (os : Os N F) where
  -- `isr_read` and malloc.
  abbrev pub read : ℕ → ℕ → Io (World N F) (Option Bytes)
  read fd len = on_sys (os.sys.read fd len)

  -- The end of both transmit functions: the checksum goes out in network order.
  unfoldable pub send_checksum : ℕ → Io (World N F) ℕ
  send_checksum checksum =
      send_exact os (to_big_endian 8 checksum) >>= unless_err minus_one (pure checksum)

  -- The body of the loop of `isr_transmit_file_uncompressed`, after the read, and what follows
  -- the loop.
  abbrev pub transmit_next : (ℕ → Io (World N F) ℕ) → ℕ → Option Bytes → Io (World N F) ℕ
  transmit_next again checksum none = pure minus_one
  transmit_next again checksum (some []) = send_checksum checksum
  transmit_next again checksum (some (b ∷ bs)) =
      send_exact os (b ∷ bs) >>= unless_err minus_one (again (add_block checksum (b ∷ bs)))

  -- The loop ends at the end of the file: the rounds are the caller's bound on the reads.
  pub transmit_loop : ℕ → ℕ → ℕ → Io (World N F) ℕ
  transmit_loop zero fd checksum = λ w. stuck
  transmit_loop (suc fuel) fd checksum =
      read fd io_bufsize >>= transmit_next (transmit_loop fuel fd) checksum

  unfoldable pub transmit_file_uncompressed : ℕ → ℕ → Io (World N F) ℕ
  unfolding transmit_loop send_checksum
  transmit_file_uncompressed fuel fd = transmit_loop fuel fd 0

  -- The end of both receive functions: read the checksum and compare.
  unfoldable pub verify_checksum : ℕ → Io (World N F) ℕ
  verify_checksum checksum =
      recv_exact os 8 >>= or_fail minus_one λ wire. pure (verdict checksum wire)

  -- The loop of `isr_receive_file_uncompressed`. Each round that goes on takes one byte at
  -- least off `remaining`, so `remaining` rounds are enough.
  pub receive_loop : ℕ → ℕ → ℕ → ℕ → Io (World N F) ℕ
  receive_loop fuel fd zero checksum = verify_checksum checksum
  receive_loop zero fd (suc n) checksum = λ w. stuck
  receive_loop (suc fuel) fd (suc n) checksum =
      recv_exact os (to_read (suc n))
      >>= or_fail minus_one λ buffer.
        write_all os fd buffer
        >>= unless_err minus_one
            (receive_loop fuel fd (suc n - to_read (suc n)) (add_block checksum buffer))

  unfoldable pub receive_file_uncompressed : ℕ → ℕ → Io (World N F) ℕ
  unfolding receive_loop verify_checksum
  receive_file_uncompressed fd effective_length =
      receive_loop effective_length fd effective_length 0
