-- ===== src/Transfer/Quiet.antt =====
-- Receiving a file sends nothing, and sending one takes nothing off the incoming stream.
use isr.Prelude.{ℕ, zero, suc, ◌-◌, refl, none, some, [], ◌∷◌}
use isr.Bytes.{to_big_endian}
use isr.Io.{pure, Os}
use isr.Io.Fixes.{Fixes-bind, Fixes-err, Fixes-fail}
use isr.Exact.{send_exact, recv_exact, write_all}
use isr.Exact.Laws.{StreamLaws, FileLaws}
use isr.Exact.Send.{sent}
use isr.Exact.Recv.{waiting}
use isr.Exact.Quiet.{Quiet, Untaken, recv_exact-Quiet, send_exact-Untaken, write_all-Quiet}
use isr.Wire.{io_bufsize}
use isr.Transfer.{
  minus_one, add_block, verdict, read, verify_checksum, to_read, receive_loop,
  receive_file_uncompressed, send_checksum, transmit_next, transmit_loop,
  transmit_file_uncompressed,
}

module _ {N F : Type 0} (os : Os N F) (stream : StreamLaws os.net) where
  pub verify_checksum-Quiet : (checksum : ℕ) → Quiet os stream (verify_checksum os checksum)
  unfolding verify_checksum
  verify_checksum-Quiet checksum =
      Fixes-fail (sent os stream) (recv_exact os 8) minus_one (λ wire. pure (verdict checksum wire))
        (recv_exact-Quiet os stream 8) (λ wire w. refl)

  pub send_checksum-Untaken : (checksum : ℕ) → Untaken os stream (send_checksum os checksum)
  unfolding send_checksum
  send_checksum-Untaken checksum =
      Fixes-err (waiting os stream) (send_exact os (to_big_endian 8 checksum)) minus_one
        (pure checksum) (send_exact-Untaken os stream (to_big_endian 8 checksum)) (λ w. refl)

  receive_loop-Quiet :
      FileLaws os.sys
      → (fuel fd n checksum : ℕ) → Quiet os stream (receive_loop os fuel fd n checksum)
  unfolding receive_loop
  receive_loop-Quiet files fuel fd zero checksum = verify_checksum-Quiet checksum
  receive_loop-Quiet files zero fd (suc n) checksum = λ w. tt
  receive_loop-Quiet files (suc fuel) fd (suc n) checksum =
      Fixes-fail (sent os stream) (recv_exact os (to_read (suc n))) minus_one _
        (recv_exact-Quiet os stream (to_read (suc n)))
        λ buffer.
          Fixes-err (sent os stream) (write_all os fd buffer) minus_one _
            (write_all-Quiet os stream files fd buffer)
            (receive_loop-Quiet files fuel fd (suc n - to_read (suc n)) (add_block checksum buffer))

  pub receive_file_uncompressed-Quiet :
      FileLaws os.sys → (fd n : ℕ) → Quiet os stream (receive_file_uncompressed os fd n)
  unfolding receive_file_uncompressed
  receive_file_uncompressed-Quiet files fd n = receive_loop-Quiet files n fd n 0

  transmit_loop-Untaken :
      (fuel fd checksum : ℕ) → Untaken os stream (transmit_loop os fuel fd checksum)
  unfolding transmit_loop
  transmit_loop-Untaken zero fd checksum = λ w. tt
  transmit_loop-Untaken (suc fuel) fd checksum =
      Fixes-bind (waiting os stream) (read os fd io_bufsize)
        (transmit_next os (transmit_loop os fuel fd) checksum) (λ w. refl)
        (elim [
          | none ↦ λ w. refl
          | some [] ↦ send_checksum-Untaken checksum
          | some (b ∷ bs) ↦
              Fixes-err (waiting os stream) (send_exact os (b ∷ bs)) minus_one _
                (send_exact-Untaken os stream (b ∷ bs))
                (transmit_loop-Untaken fuel fd (add_block checksum (b ∷ bs)))
        ])

  pub transmit_file_uncompressed-Untaken :
      (fuel fd : ℕ) → Untaken os stream (transmit_file_uncompressed os fuel fd)
  unfolding transmit_file_uncompressed
  transmit_file_uncompressed-Untaken fuel fd = transmit_loop-Untaken fuel fd 0
