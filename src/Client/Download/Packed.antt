-- ===== src/Client/Download/Packed.antt =====
-- A compressed download is stored.
use isr.Prelude.{ℕ, ◌≤◌, ◌<◌, ◌^◌, ◌≡◌, ap, true, List, ◌++◌, arith, Bytes, IsByte, All, length}
use isr.Bytes.{count_byte_values}
use isr.Bytes.Checksum.{count_byte_values_exact}
use isr.Io.{pure, Os, World}
use isr.Io.Post.{Post, Post-bind}
use isr.Compressed.{receive_file_compressed}
use isr.Compressed.Format.{Lz4Laws, flatten, AreBlocks, compressed_stream}
use isr.Compressed.Receive.{receive_compressed_stream}
use isr.Exact.Laws.{StreamLaws, IsReliable, FileLaws, IsHealthy}
use isr.Exact.Recv.{waiting}
use isr.Wire.{recv_type_file, flag_use_compression, encode_confirmation}
use isr.Server.{has_flag}
use isr.Server.Upload.{OpensAs}
use isr.Client.{as_int, receive_file_data, download_file}
use isr.Client.Download.{as_int_lem, Stored, ReceivedData, downloads}

module _ {N F : Type 0} (os : Os N F) (stream : StreamLaws os.net) (reliable : IsReliable stream)
    (files : FileLaws os.sys) (healthy : IsHealthy os.sys) (local_path : Bytes) (fd : ℕ)
    (opening : OpensAs files local_path fd) (content rest : Bytes) (bytes : All IsByte content)
    (small : length content ≤ 2 ^ 55) (flags block_size : ℕ)
    (packed : has_flag flags flag_use_compression ≡ true) (lz4 : Lz4Laws os.lz4 block_size)
    (blocks : List Bytes) (are_blocks : AreBlocks block_size blocks)
    (whole : flatten blocks ≡ content) where
  receives_packed :
      (rounds : ℕ) (u : World N F)
      → length blocks ≤ rounds
      → waiting os stream u
        ≡ compressed_stream lz4.compressed blocks (count_byte_values content) ++ rest
      → Post
          (ReceivedData os stream reliable files healthy local_path fd opening content rest bytes
            small flags block_size u)
          (receive_file_data os rounds fd flags block_size (length content) u)
  unfolding receive_file_data
  receives_packed rounds u enough holds =
      let sum : ℕ = count_byte_values content in
      rw (packed, ← whole)
        (Post-bind _ _ (receive_file_compressed os rounds fd block_size (length (flatten blocks)))
          (λ r. pure (as_int r)) u
          (receive_compressed_stream os stream reliable files healthy fd block_size lz4 rounds
            blocks rest u are_blocks enough (omega (arith, small, ap length whole))
            (rw (← whole) at holds))
          λ result v h. (
            as_int_lem result (
                omega (
                  arith,
                  h.0,
                  ap count_byte_values whole,
                  (count_byte_values_exact content bytes small).1,
                )),
            h.1,
          ))

  -- A compressed download is stored as one without compression is, where the stream goes on with
  -- blocks that make up the content, each compressed behind its length, and the checksum of the
  -- content: LZ4 gives back each block that it compressed, no block is empty or larger than the
  -- block size, and the client may go through as many blocks.
  pub compressed_download_file_stores :
      (rounds : ℕ) (host port remote_path : Bytes) (w : World N F)
      → length blocks ≤ rounds
      → length remote_path < 2 ^ 16
      → (os.net.connect host port w.net).0 ≡ true
      → stream.incoming (os.net.connect host port w.net).1
        ≡ encode_confirmation
            (record { response_type = recv_type_file; effective_length = length content })
          ++ (compressed_stream lz4.compressed blocks (count_byte_values content) ++ rest)
      → Post
          (Stored os stream reliable files healthy local_path fd opening content rest bytes small
            flags block_size)
          (download_file os rounds host port remote_path local_path flags block_size w)
  compressed_download_file_stores rounds host port remote_path w enough =
      downloads os stream reliable files healthy local_path fd opening content rest bytes small
        flags block_size rounds
        (compressed_stream lz4.compressed blocks (count_byte_values content))
        (λ u. receives_packed rounds u enough) host port remote_path w
