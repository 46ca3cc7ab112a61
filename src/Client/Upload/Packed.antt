-- ===== src/Client/Upload/Packed.antt =====
-- A compressed upload sends the file in blocks.
use isr.Prelude.{
  ℕ, ◌≤◌, ◌<◌, ◌^◌, ◌≡◌, refl, ap, ◌∙◌, true, some, ◌++◌, arith, Bytes, IsByte, All, length,
}
use isr.Bytes.{count_byte_values}
use isr.Io.{Stat, Os, World}
use isr.Io.Post.{Post, Post-mono}
use isr.Io.Fixes.{Post-FixedAfter}
use isr.Exact.Laws.{StreamLaws, IsReliable, FileLaws, IsHealthy}
use isr.Exact.Send.{sent}
use isr.Exact.Recv.{waiting}
use isr.Transfer.Sums.{add_block_zero}
use isr.Compressed.{transmit_file_compressed}
use isr.Compressed.Format.{Lz4Laws, compressed_stream, IsPackedBody}
use isr.Compressed.Send.{IsPacked, transmit_file_compressed_lem}
use isr.Compressed.Quiet.{transmit_file_compressed-Untaken}
use isr.Wire.{flag_use_compression, result_ok, response_from_result}
use isr.Server.{has_flag}
use isr.Server.Request.{send_header, send_request_bytes}
use isr.Server.Download.{ReadsAs}
use isr.Client.{upload_data, send_file}
use isr.Client.Upload.{SentBody, SentForm, sends}

module _ {N F : Type 0} (os : Os N F) (stream : StreamLaws os.net) (reliable : IsReliable stream)
    (files : FileLaws os.sys)
    (closed : (n : N) → stream.outgoing (os.net.close n) ≡ stream.outgoing n) (local_path : Bytes)
    (fd : ℕ) (content : Bytes) (reading : ReadsAs files local_path fd content)
    (bytes : All IsByte content) (small : length content ≤ 2 ^ 55) (flags block_size : ℕ) (resp : ℕ)
    (going : resp < 255) (rest : Bytes) (healthy : IsHealthy os.sys)
    (packed : has_flag flags flag_use_compression ≡ true) (lz4 : Lz4Laws os.lz4 block_size)
    (pos : 0 < block_size) where
  abbrev Body : Bytes → Type 0
  Body = IsPackedBody lz4.compressed block_size content

  transmits_packed :
      (rounds : ℕ) (u : World N F)
      → length content < rounds
      → files.unread fd u.sys ≡ content
      → Post
          (SentBody os stream reliable files closed local_path fd content reading bytes small flags
            block_size resp going rest Body u)
          (upload_data os rounds fd flags block_size u)
  transmits_packed rounds u enough here =
      let sum : ℕ = count_byte_values content in
      rw packed (
        Post-mono _ _ (transmit_file_compressed os rounds fd block_size u)
          (λ result v (p, untaken).
            let same : result ≡ sum =
              p.result ∙ add_block_zero (files.unread fd u.sys) ∙ ap count_byte_values here in
            (
              same,
              untaken,
              compressed_stream lz4.compressed p.blocks sum,
              (p.blocks, p.are_blocks, p.whole ∙ here, refl),
              p.out
                  ∙ ap (λ n. sent os stream u ++ compressed_stream lz4.compressed p.blocks n) same,
            ))
          (Post-FixedAfter (waiting os stream)
            (IsPacked os stream reliable files healthy fd block_size lz4 0 (files.unread fd u.sys)
              u)
            u (transmit_file_compressed os rounds fd block_size u)
            (transmit_file_compressed_lem os stream reliable files healthy fd block_size lz4 rounds
              u pos (omega (arith, ap length here)))
            (transmit_file_compressed-Untaken os stream rounds fd block_size u)))

  -- A compressed upload returns 0 under the conditions of one without compression, and has then
  -- sent the request, the file cut into blocks of 1 to `block_size` bytes, each compressed behind
  -- its length, and the checksum. The block size is not 0, and LZ4 compresses every block of that
  -- size into its bound.
  pub compressed_send_file_lem :
      (rounds : ℕ) (host port remote_path : Bytes) (st : Stat) (w : World N F)
      → length content < rounds
      → length remote_path < 2 ^ 16
      → os.sys.stat local_path w.sys ≡ some st
      → st.size ≡ length content
      → (os.net.connect host port w.net).0 ≡ true
      → stream.incoming (os.net.connect host port w.net).1
        ≡ response_from_result resp ++ (response_from_result result_ok ++ rest)
      → Post
          (SentForm os stream reliable files closed local_path fd content reading bytes small flags
            block_size resp going rest Body
            (stream.outgoing (os.net.connect host port w.net).1
              ++ send_request_bytes
                  (send_header remote_path flags block_size (length content))
                  remote_path))
          (send_file os rounds host port remote_path local_path flags block_size w)
  compressed_send_file_lem rounds host port remote_path st w enough =
      sends os stream reliable files closed local_path fd content reading bytes small flags
        block_size resp going rest rounds Body (λ u. transmits_packed rounds u enough) host port
        remote_path st w
