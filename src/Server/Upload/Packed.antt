-- ===== src/Server/Upload/Packed.antt =====
-- A compressed upload that is not refused is stored.
use isr.Prelude.{
  ℕ, ◌≤◌, ◌^◌, ◌≡◌, ap, true, false, none, some, List, ◌++◌, arith, Bytes, IsByte, All, length,
}
use isr.Bytes.{count_byte_values}
use isr.Io.{ok, Os, World}
use isr.Io.Post.{Post}
use isr.Io.Fixes.{Post-FixedAfter}
use isr.Compressed.{receive_file_compressed}
use isr.Compressed.Format.{Lz4Laws, flatten, AreBlocks, compressed_stream}
use isr.Compressed.Receive.{receive_compressed_stream}
use isr.Compressed.Quiet.{receive_file_compressed-Quiet}
use isr.Exact.Laws.{StreamLaws, IsReliable, FileLaws, IsHealthy}
use isr.Exact.Send.{sent}
use isr.Exact.Recv.{waiting}
use isr.Paths.{validate_path, resolve_path}
use isr.Wire.{path_max, flag_use_compression, flag_create_directory, SendHeader}
use isr.Server.{RequestInfo, receive_body, has_flag, receive_send_command}
use isr.Server.Refuse.{existing_refusal}
use isr.Server.Upload.{OpensAs, Uploaded, Received, answer, stores}

module _ {N F : Type 0} (os : Os N F) (stream : StreamLaws os.net) (reliable : IsReliable stream)
    (files : FileLaws os.sys) (healthy : IsHealthy os.sys) (full_path : Bytes) (fd : ℕ)
    (opening : OpensAs files full_path fd) (content rest : Bytes) where
  module _ (header : SendHeader) (packed : has_flag header.flags flag_use_compression ≡ true)
      (announced : header.effective_length ≡ length content) (bytes : All IsByte content)
      (small : length content ≤ 2 ^ 55) (lz4 : Lz4Laws os.lz4 header.uncompressed_block_size)
      (blocks : List Bytes) (are_blocks : AreBlocks header.uncompressed_block_size blocks)
      (whole : flatten blocks ≡ content) where
    pub receives_packed :
        (rounds : ℕ) (u : World N F)
        → length blocks ≤ rounds
        → waiting os stream u
          ≡ compressed_stream lz4.compressed blocks (count_byte_values content) ++ rest
        → Post
            (Received os stream reliable files healthy full_path fd opening content rest u)
            (receive_body os rounds header fd u)
    receives_packed rounds u enough holds =
        let size : ℕ = header.uncompressed_block_size in
        rw (packed, announced, ← whole)
          (Post-FixedAfter (sent os stream) _ u
            (receive_file_compressed os rounds fd size (length (flatten blocks)) u)
            (receive_compressed_stream os stream reliable files healthy fd size lz4 rounds blocks
              rest u are_blocks enough (omega (arith, small, ap length whole))
              (rw (← whole) at holds))
            (receive_file_compressed-Quiet os stream files rounds fd size (length (flatten blocks))
              u))

    -- A compressed upload is stored as an upload without compression is, where the stream goes on
    -- with blocks that make up the content, each compressed behind its length, and the checksum of
    -- the content: LZ4 gives back each block that it compressed, no block is empty or larger than
    -- the block size of the header, and the handler may go through as many blocks.
    pub compressed_upload_is_stored :
        (rounds : ℕ) (root path : Bytes) (info : RequestInfo) (w : World N F)
        → length blocks ≤ rounds
        → validate_path path ≡ ok
        → resolve_path (λ p. os.sys.realpath p w.sys) path_max root path ≡ some full_path
        → has_flag header.flags flag_create_directory ≡ false
        → existing_refusal header (os.sys.stat full_path w.sys) ≡ none
        → waiting os stream w
          ≡ compressed_stream lz4.compressed blocks (count_byte_values content) ++ rest
        → Post
            (Uploaded os stream reliable files healthy full_path fd opening content rest
              (answer (os.sys.stat full_path w.sys))
              w)
            (receive_send_command os rounds root header path info w)
    compressed_upload_is_stored rounds root path info w enough =
        stores os stream reliable files healthy full_path fd opening content rest header bytes small
          rounds (compressed_stream lz4.compressed blocks (count_byte_values content))
          (λ u. receives_packed rounds u enough) root path info w
