-- ===== src/Transfer/Keeps.antt =====
-- The uncompressed stream touches the files by reads and writes of its descriptor.
use isr.Prelude.{ℕ, zero, suc, ◌-◌, none, some, [], ◌∷◌}
use isr.Bytes.{to_big_endian}
use isr.Io.{pure, Os}
use isr.Io.Keeps.{KeptByTransfers, Keeps, Keeps-bind, Keeps-err, Keeps-fail}
use isr.Exact.{send_exact, recv_exact, write_all}
use isr.Transfer.{
  minus_one, add_block, verdict, to_read, read, send_checksum, transmit_next, transmit_loop,
  transmit_file_uncompressed, verify_checksum, receive_loop, receive_file_uncompressed,
}
use isr.Wire.{io_bufsize}
use isr.Exact.Keeps.{send_exact-Keeps, recv_exact-Keeps, write_all-Keeps}

module _ {N F : Type 0} (os : Os N F) (I : F → Type 0) (kept : KeptByTransfers os.sys I) where
  pub send_checksum-Keeps : (checksum : ℕ) → Keeps I (send_checksum os checksum)
  unfolding send_checksum
  send_checksum-Keeps checksum =
      Keeps-err I (send_exact os (to_big_endian 8 checksum)) minus_one (pure checksum)
        (send_exact-Keeps os I kept (to_big_endian 8 checksum)) (λ w i. i)

  pub verify_checksum-Keeps : (checksum : ℕ) → Keeps I (verify_checksum os checksum)
  unfolding verify_checksum
  verify_checksum-Keeps checksum =
      Keeps-fail I (recv_exact os 8) minus_one (λ wire. pure (verdict checksum wire))
        (recv_exact-Keeps os I kept 8) (λ wire w i. i)

  pub read-Keeps : (fd len : ℕ) → Keeps I (read os fd len)
  read-Keeps fd len w i = kept.read fd len w.sys i

  transmit_loop-Keeps : (fuel fd checksum : ℕ) → Keeps I (transmit_loop os fuel fd checksum)
  unfolding transmit_loop
  transmit_loop-Keeps zero fd checksum = λ w i. tt
  transmit_loop-Keeps (suc fuel) fd checksum =
      Keeps-bind I (read os fd io_bufsize) (transmit_next os (transmit_loop os fuel fd) checksum)
        (read-Keeps fd io_bufsize)
        (elim [
          | none ↦ λ w i. i
          | some [] ↦ send_checksum-Keeps checksum
          | some (b ∷ bs) ↦
              Keeps-err I (send_exact os (b ∷ bs)) minus_one
                (transmit_loop os fuel fd (add_block checksum (b ∷ bs)))
                (send_exact-Keeps os I kept (b ∷ bs))
                (transmit_loop-Keeps fuel fd (add_block checksum (b ∷ bs)))
        ])

  pub transmit_file_uncompressed-Keeps :
      (fuel fd : ℕ) → Keeps I (transmit_file_uncompressed os fuel fd)
  unfolding transmit_file_uncompressed
  transmit_file_uncompressed-Keeps fuel fd = transmit_loop-Keeps fuel fd 0

  receive_loop-Keeps : (fuel fd n checksum : ℕ) → Keeps I (receive_loop os fuel fd n checksum)
  unfolding receive_loop
  receive_loop-Keeps fuel fd zero checksum = verify_checksum-Keeps checksum
  receive_loop-Keeps zero fd (suc n) checksum = λ w i. tt
  receive_loop-Keeps (suc fuel) fd (suc n) checksum =
      Keeps-fail I (recv_exact os (to_read (suc n))) minus_one _
        (recv_exact-Keeps os I kept (to_read (suc n)))
        λ buffer.
          Keeps-err I (write_all os fd buffer) minus_one _ (write_all-Keeps os I kept fd buffer)
            (receive_loop-Keeps fuel fd (suc n - to_read (suc n)) (add_block checksum buffer))

  pub receive_file_uncompressed-Keeps :
      (fd effective_length : ℕ) → Keeps I (receive_file_uncompressed os fd effective_length)
  unfolding receive_file_uncompressed
  receive_file_uncompressed-Keeps fd effective_length =
      receive_loop-Keeps effective_length fd effective_length 0
