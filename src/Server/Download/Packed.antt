-- ===== src/Server/Download/Packed.antt =====
-- A compressed download sends the file in blocks.
use isr.Prelude.{
  ℕ, ◌≤◌, ◌<◌, ◌^◌, ◌≡◌, ◌≢◌, refl, ap, ◌∙◌, true, false, some, ◌∷◌, ◌++◌, arith, Bytes, IsByte,
  All, length,
}
use isr.Bytes.{count_byte_values}
use isr.Bytes.Checksum.{count_byte_values_exact}
use isr.Io.{ok, Stat, Os, World}
use isr.Io.Post.{Post, Post-mono}
use isr.Exact.Laws.{StreamLaws, IsReliable, FileLaws, IsHealthy}
use isr.Exact.Send.{sent}
use isr.Exact.Recv.{waiting}
use isr.Transfer.Sums.{add_block_zero}
use isr.Compressed.{transmit_file_compressed}
use isr.Compressed.Format.{Lz4Laws, compressed_stream, IsPackedBody}
use isr.Compressed.Send.{IsPacked, transmit_file_compressed_lem}
use isr.Paths.{validate_path, resolve_path}
use isr.Wire.{path_max, recv_unable, flag_use_compression, RecvHeader}
use isr.Server.{RequestInfo, has_flag, transmit_body, receive_recv_command}
use isr.Server.Download.{ReadsAs, announced, SentData, SentAnswer, answers}

module _ {N F : Type 0} (os : Os N F) (stream : StreamLaws os.net) (reliable : IsReliable stream)
    (files : FileLaws os.sys) (healthy : IsHealthy os.sys) (full_path : Bytes) (fd : ℕ)
    (content : Bytes) (reading : ReadsAs files full_path fd content) (header : RecvHeader)
    (packed : has_flag header.flags flag_use_compression ≡ true)
    (lz4 : Lz4Laws os.lz4 header.uncompressed_block_size) (pos : 0 < header.uncompressed_block_size)
    (bytes : All IsByte content) (small : length content ≤ 2 ^ 55) where
  abbrev Body : Bytes → Type 0
  Body = IsPackedBody lz4.compressed header.uncompressed_block_size content

  pub transmits_packed :
      (rounds : ℕ) (u : World N F)
      → length content < rounds
      → files.unread fd u.sys ≡ content
      → Post
          (SentData os stream reliable files healthy full_path fd content reading header Body u)
          (transmit_body os rounds header fd u)
  transmits_packed rounds u enough here =
      let sum : ℕ = count_byte_values content in
      let size : ℕ = header.uncompressed_block_size in
      rw packed (
        Post-mono
          (IsPacked os stream reliable files healthy fd size lz4 0 (files.unread fd u.sys) u) _
          (transmit_file_compressed os rounds fd size u)
          (λ result v p.
            let same : result ≡ sum =
              p.result ∙ add_block_zero (files.unread fd u.sys) ∙ ap count_byte_values here in
            (
              omega (arith, same, (count_byte_values_exact content bytes small).1),
              compressed_stream lz4.compressed p.blocks sum,
              (p.blocks, p.are_blocks, p.whole ∙ here, refl),
              p.out
                  ∙ ap (λ n. sent os stream u ++ compressed_stream lz4.compressed p.blocks n) same,
            ))
          (transmit_file_compressed_lem os stream reliable files healthy fd size lz4 rounds u pos
            (omega (arith, ap length here))))

  -- A request for a compressed file is answered as one without compression is, but for the data:
  -- the file cut into blocks of 1 to the header's block size bytes, each compressed behind its
  -- length, and the checksum. The block size is not 0, and LZ4 compresses every block of that size
  -- into its bound.
  pub compressed_download_is_sent :
      (rounds : ℕ) (root path : Bytes) (info : RequestInfo) (st : Stat) (go : ℕ) (rest : Bytes)
      (w : World N F)
      → length content < rounds
      → validate_path path ≡ ok
      → resolve_path (λ p. os.sys.realpath p w.sys) path_max root path ≡ some full_path
      → os.sys.stat full_path w.sys ≡ some st
      → st.is_dir ≡ false
      → go ≢ recv_unable
      → waiting os stream w ≡ go ∷ rest
      → Post
          (SentAnswer os stream reliable files healthy full_path fd content reading header Body
            (announced st)
            w)
          (receive_recv_command os rounds root header path info w)
  compressed_download_is_sent rounds root path info st go rest w enough =
      answers os stream reliable files healthy full_path fd content reading header rounds Body
        (λ u. transmits_packed rounds u enough) root path info st go rest w
