-- ===== src/Session/Packed.antt =====
-- A compressed upload as a conversation: `isr_cli_send_file` of lib/isr-cli.c on one machine and
-- `isr_receive_command` of lib/isr.c on another, with the same LZ4.
use isr.Prelude.{
  ℕ, ◌≤◌, ◌<◌, ◌^◌, ◌≡◌, refl, sym, ap, ◌∙◌, true, some, ◌++◌, append_assoc, append-injective,
  arith, Bytes, IsByte, All, length,
}
use isr.Io.{ret, Status, ok, Stat, Net, Sys, Os, World}
use isr.Io.Post.{Post, Post-mono, Post-holds}
use isr.Exact.Laws.{StreamLaws, IsReliable, FileLaws, IsHealthy}
use isr.Compressed.Format.{Lz4Laws, IsPackedBody}
use isr.Compressed.RoundTrip.{beside, length-le-flatten}
use isr.Wire.{flag_use_compression, response_from_result}
use isr.Server.{RequestInfo, has_flag, receive_command}
use isr.Server.Request.{send_header, send_request_bytes}
use isr.Server.Upload.{OpensAs, answer}
use isr.Server.Upload.Packed.{receives_packed}
use isr.Server.Download.{ReadsAs}
use isr.Client.{send_file}
use isr.Client.Upload.{SentForm}
use isr.Client.Upload.Packed.{compressed_send_file_lem}
use isr.Session.Upload.{upload_answers, answer-lt, Served, IsWelcome, header, server_stores}

module _ (content : Bytes) (bytes : All IsByte content) (small : length content ≤ 2 ^ 55)
    (flags block_size : ℕ) (remote_path : Bytes) {N F M G : Type 0} where
  -- A compressed upload, as a conversation of two machines with the same LZ4: the client returns
  -- 0 if it hears what the server says, and the server that hears what the client has then said
  -- returns 0 too, says exactly what the client heard, and its file holds exactly the bytes of
  -- the file on the client, in whatever blocks the client has read it. LZ4 compresses every block
  -- of the block size into its bound and gives it back; the block size is not 0, and the server
  -- may go through as many blocks as the file has bytes. The rest is as for an upload without
  -- compression.
  pub compressed_upload_session :
      (client : Os N F) (heard : StreamLaws client.net) (reliable : IsReliable heard)
      (files : FileLaws client.sys) (healthy : IsHealthy client.sys)
      (closed : (n : N) → heard.outgoing (client.net.close n) ≡ heard.outgoing n)
      (local_path : Bytes) (fd : ℕ) (reading : ReadsAs files local_path fd content) (net : Net M)
      (sys : Sys G) (heard' : StreamLaws net) (reliable' : IsReliable heard')
      (files' : FileLaws sys) (healthy' : IsHealthy sys) (root full_path : Bytes) (fd' : ℕ)
      (opening : OpensAs files' full_path fd') (rounds rounds' : ℕ) (host port : Bytes) (st : Stat)
      (info : RequestInfo) (rest rest' said : Bytes) (c t : World N F) (r : Status) (s : World M G)
      → has_flag flags flag_use_compression ≡ true
      → Lz4Laws client.lz4 block_size
      → 0 < block_size
      → IsWelcome (beside client net sys) root full_path remote_path content flags block_size s
      → length content < rounds
      → length content ≤ rounds'
      → client.sys.stat local_path c.sys ≡ some st
      → st.size ≡ length content
      → (client.net.connect host port c.net).0 ≡ true
      → heard.incoming (client.net.connect host port c.net).1
        ≡ upload_answers (sys.stat full_path s.sys) ++ rest
      → send_file client rounds host port remote_path local_path flags block_size c ≡ ret r t
      → heard.outgoing t.net ≡ heard.outgoing (client.net.connect host port c.net).1 ++ said
      → heard'.incoming s.net ≡ said ++ rest'
      → Post
          (λ r' t'. r' ≡ ok)
          (send_file client rounds host port remote_path local_path flags block_size c)
        × Post
            (Served (beside client net sys) heard' files' full_path fd' content rest' s)
            (receive_command (beside client net sys) rounds' root info s)
  compressed_upload_session client heard reliable files healthy closed local_path fd reading net sys
        heard' reliable' files' healthy' root full_path fd' opening rounds rounds' host port st info
        rest rest' said c t r s packed lz4 pos welcome enough enough' found size connected hears run
        says hears' =
      let resp : ℕ = answer (sys.stat full_path s.sys) in
      let before : Bytes = heard.outgoing (client.net.connect host port c.net).1 in
      let request : Bytes =
        send_request_bytes (send_header remote_path flags block_size (length content))
          remote_path in
      let Q : Status → World N F → Type 0 =
        SentForm client heard reliable files closed local_path fd content reading bytes small flags
          block_size resp (answer-lt (sys.stat full_path s.sys)) rest
          (IsPackedBody lz4.compressed block_size content) (before ++ request) in
      let sends : Post Q
          (send_file client rounds host port remote_path local_path flags block_size c) =
        compressed_send_file_lem client heard reliable files closed local_path fd content reading
          bytes small flags block_size resp (answer-lt (sys.stat full_path s.sys)) rest healthy
          packed lz4 pos rounds host port remote_path st c enough (omega (arith, welcome.short))
          found size connected (hears ∙ append_assoc (response_from_result resp) _ rest) in
      let (success, body, (blocks, are, whole, form), out) = Post-holds Q run sends in
      let same : said ≡ request ++ body =
        (append-injective before said before (request ++ body) refl
          (sym says ∙ out ∙ append_assoc before request body)).1 in
      (
        Post-mono Q (λ r' t'. r' ≡ ok)
            (send_file client rounds host port remote_path local_path flags block_size c)
            (λ r' t' h. h.0) sends,
        server_stores content bytes small flags block_size remote_path (beside client net sys)
            heard' reliable' files' healthy' root full_path fd' opening rest' s welcome rounds' body
            (λ u holds.
              receives_packed (beside client net sys) heard' reliable' files' healthy' full_path fd'
                opening content rest' (header content bytes small flags block_size remote_path)
                packed refl bytes small lz4 blocks are whole rounds' u
                (omega (arith, enough', length-le-flatten block_size blocks are, ap length whole))
                (holds ∙ ap (λ b. b ++ rest') form))
            info (hears' ∙ ap (λ b. b ++ rest') same),
      )
