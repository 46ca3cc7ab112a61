-- ===== src/Server/RecvKeeps.antt =====
-- What the steps of a download keep of the files.
use isr.Prelude.{ℕ, ◌==◌, Option, none, some, Bytes}
use isr.Bytes.{from_big_endian}
use isr.Io.{pure, ◌>>=◌, ◌>>◌, Status, ok, err, Stat, Os, on_sys, ask}
use isr.Io.Keeps.{Keeps, Keeps-bind, Keeps-err, Keeps-fail, Keeps-if}
use isr.Exact.{recv_exact}
use isr.Exact.Keeps.{recv_exact-Keeps}
use isr.Transfer.Keeps.{transmit_file_uncompressed-Keeps}
use isr.Compressed.Keeps.{transmit_file_compressed-Keeps}
use isr.Listing.Keeps.{send_recv_confirmation-Keeps, transmit_recv_directory_listing-Keeps}
use isr.Paths.{validate_path}
use isr.Paths.Resolve.{IsUnder}
use isr.Wire.{
  recv_unable, result_other_failure, recv_type_file, recv_type_not_found, RecvHeader,
  send_recv_confirmation, flag_use_compression,
}
use isr.Server.{
  RequestInfo, Reply, has_flag, unless_refused, or_refused, resolve, refuse_recv, transmit_body,
  stream_file, recv_existing, receive_recv_command,
}
use isr.Server.Keeps.{KeptBelow, resolving-Keeps}

module _ {N F : Type 0} (os : Os N F) (root : Bytes) (I : F → Type 0)
    (kept : KeptBelow os.sys root I) where
  confirm-Keeps : (t n : ℕ) (reply : Reply) → Keeps I (send_recv_confirmation os t n >> pure reply)
  confirm-Keeps t n reply =
      Keeps-bind I (send_recv_confirmation os t n) _
        (send_recv_confirmation-Keeps os I kept.transfers t n) (λ s w i. i)

  stream-Keeps :
      (rounds : ℕ) (header : RecvHeader) (path : Bytes) (info : RequestInfo)
      → IsUnder root path
      → Keeps I (stream_file os rounds header path info)
  stream-Keeps rounds header path info under =
      Keeps-fail I (on_sys (os.sys.open_read path)) _ _ (λ w i. kept.open_read path w.sys under i)
        λ fd.
          Keeps-bind I (transmit_body os rounds header fd) _
            (Keeps-if I (has_flag header.flags flag_use_compression) _ _
              (transmit_file_compressed-Keeps os I kept.transfers rounds fd
                header.uncompressed_block_size)
              (transmit_file_uncompressed-Keeps os I kept.transfers rounds fd))
            λ result w i. kept.close fd w.sys i

  recv_existing-Keeps :
      (rounds : ℕ) (header : RecvHeader) (path : Bytes) (info : RequestInfo)
      → IsUnder root path
      → (o : Option Stat) → Keeps I (recv_existing os rounds header path info o)
  recv_existing-Keeps rounds header path info under none =
      confirm-Keeps recv_type_not_found 0 (ok, record info { not_found = 1 })
  recv_existing-Keeps rounds header path info under (some st) =
      Keeps-if I st.is_dir _ _
        (Keeps-bind I _ _
          (transmit_recv_directory_listing-Keeps os I kept.transfers path
            λ f. kept.list_dir path f under)
          (λ s w i. i))
        (Keeps-err I (send_recv_confirmation os recv_type_file st.size) _ _
          (send_recv_confirmation-Keeps os I kept.transfers recv_type_file st.size)
          (Keeps-fail I (recv_exact os 1) _ _ (recv_exact-Keeps os I kept.transfers 1) λ go.
            Keeps-if I (from_big_endian go == recv_unable) _ _ (λ w i. i)
              (stream-Keeps rounds header path _ under)))

  pub receive_recv_command-Keeps :
      (rounds : ℕ) (header : RecvHeader) (path : Bytes) (info : RequestInfo)
      → Keeps I (receive_recv_command os rounds root header path info)
  unfolding receive_recv_command
  receive_recv_command-Keeps rounds header path info = go (validate_path path)
    where
      go :
          (s : Status)
          → Keeps I (
              unless_refused
                (refuse_recv os info)
                (resolve os root path
                  >>= or_refused (refuse_recv os info) (λ full_path.
                    ask (os.sys.stat full_path) >>= recv_existing os rounds header full_path info))
                s)
      go err = confirm-Keeps result_other_failure 0 (err, info)
      go ok =
          resolving-Keeps os root I kept path _ _ (confirm-Keeps result_other_failure 0 (err, info))
            λ full_path under.
              Keeps-bind I (ask (os.sys.stat full_path)) _ (λ w i. i)
                (recv_existing-Keeps rounds header full_path info under)
