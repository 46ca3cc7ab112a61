-- ===== src/Server/Confined.antt =====
-- What a request keeps of the files: the server's root and the paths that it opens.
use isr.Prelude.{ℕ, ◌==◌, leb, Bytes}
use isr.Bytes.{from_big_endian}
use isr.CText.{c_string}
use isr.Io.{Io, Os, World}
use isr.Io.Keeps.{After, Keeps, Keeps-fail, Keeps-if}
use isr.Exact.{recv_exact}
use isr.Exact.Keeps.{recv_exact-Keeps}
use isr.Wire.{
  path_max, command_send, command_recv, decode_send_header, decode_recv_header, send_header_size,
  recv_header_size,
}
use isr.Server.{RequestInfo, Reply, send_request, recv_request, read_path, receive_command}
use isr.Server.Keeps.{KeptBelow}
use isr.Server.SendKeeps.{receive_send_command-Keeps}
use isr.Server.RecvKeeps.{receive_recv_command-Keeps}

module _ {N F : Type 0} (os : Os N F) (root : Bytes) (I : F → Type 0)
    (kept : KeptBelow os.sys root I) where
  path-Keeps :
      (path_length : ℕ) (info : RequestInfo) (rest : Bytes → Io (World N F) Reply)
      → ((raw : Bytes) → Keeps I (rest raw))
      → Keeps I (read_path os path_length info rest)
  path-Keeps path_length info rest h =
      Keeps-if I (leb path_max path_length) _ _ (λ w i. i)
        (Keeps-fail I (recv_exact os path_length) _ _
          (recv_exact-Keeps os I kept.transfers path_length) h)

  -- Whatever a client sends, and whatever the connection does, the server opens only files and
  -- directories whose paths begin with its root as a string, and calls mkdir only on such a path
  -- or on a string that such a path begins with, its separators turned into slashes: a predicate
  -- on the files that these calls keep, and that closing, malloc and the transfers on open
  -- descriptors keep, holds after the request if it held before and the request comes to its
  -- end.
  pub receive_command-confined :
      (rounds : ℕ) (info : RequestInfo) (w : World N F)
      → I w.sys
      → After I (receive_command os rounds root info w)
  unfolding receive_command
  receive_command-confined rounds info =
      Keeps-fail I (recv_exact os 1) _ _ (recv_exact-Keeps os I kept.transfers 1) λ cmd.
        Keeps-if I (from_big_endian cmd == command_send) _ _
          (Keeps-fail I (recv_exact os send_header_size) _ _
            (recv_exact-Keeps os I kept.transfers send_header_size)
            λ bs.
              path-Keeps (decode_send_header bs).path_length info
                (send_request os rounds root info (decode_send_header bs))
                λ raw.
                  receive_send_command-Keeps os root I kept rounds (decode_send_header bs)
                    (c_string raw) _)
          (Keeps-if I (from_big_endian cmd == command_recv) _ _
            (Keeps-fail I (recv_exact os recv_header_size) _ _
              (recv_exact-Keeps os I kept.transfers recv_header_size)
              λ bs.
                path-Keeps (decode_recv_header bs).path_length info
                  (recv_request os rounds root info (decode_recv_header bs))
                  λ raw.
                    receive_recv_command-Keeps os root I kept rounds (decode_recv_header bs)
                      (c_string raw) _)
            (λ w i. i))
