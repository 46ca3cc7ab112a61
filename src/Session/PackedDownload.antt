-- ===== src/Session/PackedDownload.antt =====
-- A compressed download as a conversation: `isr_cli_download_file` of lib/isr-cli.c on one machine
-- and `isr_receive_command` of lib/isr.c on another, with the same LZ4.
use isr.Prelude.{
  ℕ, ◌≤◌, ◌<◌, ◌^◌, ◌≡◌, refl, sym, ap, ◌∙◌, true, ◌++◌, append_assoc, append-injective, arith,
  Bytes, IsByte, All, length,
}
use isr.Bytes.{count_byte_values}
use isr.Io.{ret, ok, Stat, Net, Sys, Os, World}
use isr.Io.Post.{Post, Post-mono, Post-holds}
use isr.Exact.Laws.{StreamLaws, IsReliable, FileLaws, IsHealthy}
use isr.Compressed.Format.{Lz4Laws, compressed_stream, IsPackedBody}
use isr.Compressed.RoundTrip.{beside, length-le-flatten}
use isr.Wire.{recv_type_file, flag_use_compression, encode_confirmation}
use isr.Server.{RequestInfo, Reply, has_flag, receive_command}
use isr.Server.Request.{recv_header}
use isr.Server.Upload.{OpensAs}
use isr.Server.Download.{ReadsAs, announced}
use isr.Server.Download.Packed.{transmits_packed}
use isr.Client.{download_file}
use isr.Client.Download.Packed.{compressed_download_file_stores}
use isr.Client.Said.{download_request}
use isr.Session.Download.{IsOffered, AnsweredAs, server_answers}

module _ (content : Bytes) (bytes : All IsByte content) (small : length content ≤ 2 ^ 55)
    (flags block_size : ℕ) (remote_path : Bytes) (file : Stat) {N F M G : Type 0} where
  -- A compressed download, as a conversation of two machines with the same LZ4: the server that
  -- hears the client's request and go-ahead returns 0, and the client that hears what the server
  -- has then said returns 0 too, and its local file holds exactly the bytes of the file on the
  -- server, in whatever blocks the server has read it. LZ4 compresses every block of the block
  -- size into its bound and gives it back; the block size is not 0, and the client may go through
  -- as many blocks as the file has bytes. The rest is as for a download without compression.
  pub compressed_download_session :
      (client : Os N F) (heard : StreamLaws client.net) (reliable : IsReliable heard)
      (files : FileLaws client.sys) (healthy : IsHealthy client.sys) (local_path : Bytes) (fd : ℕ)
      (opening : OpensAs files local_path fd) (net : Net M) (sys : Sys G) (heard' : StreamLaws net)
      (reliable' : IsReliable heard') (files' : FileLaws sys) (healthy' : IsHealthy sys)
      (root full_path : Bytes) (fd' : ℕ) (reading : ReadsAs files' full_path fd' content)
      (rounds rounds' : ℕ) (host port : Bytes) (info : RequestInfo) (rest rest' said : Bytes)
      (c : World N F) (s t : World M G) (r : Reply)
      → has_flag flags flag_use_compression ≡ true
      → Lz4Laws client.lz4 block_size
      → 0 < block_size
      → IsOffered (beside client net sys) root full_path remote_path flags block_size file s
      → length content ≤ rounds
      → length content < rounds'
      → file.size ≡ length content
      → (client.net.connect host port c.net).0 ≡ true
      → heard'.incoming s.net ≡ download_request remote_path flags block_size ++ rest'
      → receive_command (beside client net sys) rounds' root info s ≡ ret r t
      → heard'.outgoing t.net ≡ heard'.outgoing s.net ++ said
      → heard.incoming (client.net.connect host port c.net).1 ≡ said ++ rest
      → Post (λ r' t'. r'.0 ≡ ok) (receive_command (beside client net sys) rounds' root info s)
        × Post
            (λ r' t'. (r' ≡ ok) × (files.written fd t'.sys ≡ content))
            (download_file client rounds host port remote_path local_path flags block_size c)
  compressed_download_session client heard reliable files healthy local_path fd opening net sys
        heard' reliable' files' healthy' root full_path fd' reading rounds rounds' host port info
        rest rest' said c s t r packed lz4 pos offered enough enough' size connected hears' run says
        hears =
      let server : Os M G = beside client net sys in
      let Q : Reply → World M G → Type 0 =
        AnsweredAs server heard' (IsPackedBody lz4.compressed block_size content) (announced file)
          s in
      let answers : Post Q (receive_command server rounds' root info s) =
        server_answers server heard' reliable' files' healthy' root full_path fd' content reading
          flags block_size remote_path file rest' s offered rounds' _
          (λ u.
            transmits_packed server heard' reliable' files' healthy' full_path fd' content reading
              (recv_header remote_path flags block_size) packed lz4 pos bytes small rounds' u
              enough')
          info hears' in
      let (success, body, (blocks, are, whole, form), out) = Post-holds Q run answers in
      let same : said ≡ announced file ++ body =
        (append-injective (heard'.outgoing s.net) said (heard'.outgoing s.net)
          (announced file ++ body) refl (sym says ∙ out)).1 in
      let conf : ℕ → Bytes = λ n.
        encode_confirmation (record { response_type = recv_type_file; effective_length = n }) in
      let stream : Bytes = compressed_stream lz4.compressed blocks (count_byte_values content) in
      (
        Post-mono Q (λ r' t'. r'.0 ≡ ok) (receive_command server rounds' root info s)
            (λ r' t' h. h.0) answers,
        compressed_download_file_stores client heard reliable files healthy local_path fd opening
            content rest bytes small flags block_size packed lz4 blocks are whole rounds host port
            remote_path c
            (omega (arith, enough, length-le-flatten block_size blocks are, ap length whole))
            (omega (arith, offered.short)) connected
            (hears
              ∙ ap (λ b. b ++ rest) same
              ∙ append_assoc (announced file) body rest
              ∙ ap (λ b. announced file ++ (b ++ rest)) form
              ∙ ap (λ n. conf n ++ (stream ++ rest)) size),
      )
