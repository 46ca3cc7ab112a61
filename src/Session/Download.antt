-- ===== src/Session/Download.antt =====
-- A download as a conversation: `isr_cli_download_file` of lib/isr-cli.c on one machine and
-- `isr_receive_command` of lib/isr.c on another.
use isr.Prelude.{
  ℕ, ◌≤◌, ◌<◌, ◌^◌, ◌≡◌, ◌≢◌, refl, sym, ap, subst, ◌∙◌, true, false, some, [], ◌∷◌, ◌++◌,
  append_assoc, arith, Bytes, IsByte, All, length,
}
use isr.Bytes.{count_byte_values}
use isr.CText.{c_string}
use isr.Io.{Status, ok, Stat, Os, World}
use isr.Io.Post.{Post, Post-mono, Post-and}
use isr.Exact.Laws.{StreamLaws, IsReliable, FileLaws, IsHealthy}
use isr.Exact.Send.{sent}
use isr.Exact.Recv.{waiting, beside_waiting}
use isr.Transfer.Plain.{plain_stream}
use isr.Paths.{validate_path, resolve_path}
use isr.Wire.{
  path_max, recv_go, recv_unable, recv_type_file, flag_use_compression, encode_confirmation,
  RecvHeader,
}
use isr.Server.{RequestInfo, Reply, has_flag, transmit_body, receive_recv_command, receive_command}
use isr.Server.Request.{recv_header, recv_request_bytes, serves_recv}
use isr.Server.Upload.{OpensAs}
use isr.Server.Download.{ReadsAs, announced, file_answer, SentData, answers, transmits-IsPlain}
use isr.Client.{download_file}
use isr.Client.Download.{download_file_stores}
use isr.Client.Said.{download_request, download_file-says}
use isr.Session.{Said}

-- What the server asks of a download: the fields fit the header, and the path is valid and
-- resolves to a file.
pub record IsOffered {N F : Type 0} (os : Os N F) (root full_path remote_path : Bytes)
    (flags block_size : ℕ) (st : Stat) (w : World N F) : Type 0 where
  pub flags_fit : flags < 2 ^ 8
  pub block_size_fits : block_size < 2 ^ 32
  pub short : length remote_path < path_max
  pub is_string : c_string remote_path ≡ remote_path
  pub is_valid : validate_path remote_path ≡ ok
  pub resolves :
      resolve_path (λ p. os.sys.realpath p w.sys) path_max root remote_path ≡ some full_path
  pub is_there : os.sys.stat full_path w.sys ≡ some st
  pub is_file : st.is_dir ≡ false

-- The server succeeded, and has sent the answer.
abbrev pub Answered :
    {N F : Type 0} (os : Os N F) (stream : StreamLaws os.net) (out : Bytes)
    → World N F
    → Reply
    → World N F
    → Type 0
Answered os stream out w r t = (r.0 ≡ ok) × (sent os stream t ≡ sent os stream w ++ out)

-- The client succeeded, the file holds the content, and it has sent `out` behind `before`.
abbrev pub Fetched :
    {N F : Type 0} (os : Os N F) (stream : StreamLaws os.net) (files : FileLaws os.sys) (fd : ℕ)
    (content before out : Bytes)
    → Status
    → World N F
    → Type 0
Fetched os stream files fd content before out r t =
    (files.written fd t.sys ≡ content) × Said os stream before out r t

go-ne_unable : recv_go ≢ recv_unable
go-ne_unable e = omega (arith, e)

-- The same of data in any form.
abbrev pub AnsweredAs :
    {N F : Type 0} (os : Os N F) (stream : StreamLaws os.net) (Body : Bytes → Type 0)
    (before : Bytes)
    → World N F
    → Reply
    → World N F
    → Type 0
AnsweredAs os stream Body before w r t =
    (r.0 ≡ ok)
    × (body : Bytes) × Body body
    × (sent os stream t ≡ sent os stream w ++ (before ++ body))

module _ {N F : Type 0} (os : Os N F) (stream : StreamLaws os.net) (reliable : IsReliable stream)
    (files : FileLaws os.sys) (healthy : IsHealthy os.sys) (root full_path : Bytes) (fd : ℕ)
    (content : Bytes) (reading : ReadsAs files full_path fd content) (flags block_size : ℕ)
    (remote_path : Bytes) (st : Stat) (rest : Bytes) (w : World N F)
    (offered : IsOffered os root full_path remote_path flags block_size st w) (rounds : ℕ)
    (Body : Bytes → Type 0) where
  abbrev header : RecvHeader
  header = recv_header remote_path flags block_size

  abbrev pub Transmits : Type 0
  Transmits =
      (u : World N F)
      → files.unread fd u.sys ≡ content
      → Post (SentData os stream reliable files healthy full_path fd content reading header Body u)
          (transmit_body os rounds header fd u)

  handled :
      Transmits
      → (info : RequestInfo) (t : World N F) → waiting os stream t ≡ recv_go ∷ rest
      → beside_waiting os stream t ≡ beside_waiting os stream w
      → Post
          (AnsweredAs os stream Body (announced st) w)
          (receive_recv_command os rounds root header remote_path info t)
  handled transmits info t left same =
      let files_same : t.sys ≡ w.sys = ap (λ p. p.1) same in
      Post-mono (AnsweredAs os stream Body (announced st) t)
        (AnsweredAs os stream Body (announced st) w)
        (receive_recv_command os rounds root header remote_path info t)
        (λ r u (success, body, form, out).
          (success, body, form, out ∙ ap (λ b. b ++ (announced st ++ body)) (ap (λ p. p.0) same)))
        (answers os stream reliable files healthy full_path fd content reading header rounds Body
          transmits root remote_path info st recv_go rest t offered.is_valid
          (ap (λ f. resolve_path (λ p. os.sys.realpath p f) path_max root remote_path) files_same
            ∙ offered.resolves)
          (ap (os.sys.stat full_path) files_same ∙ offered.is_there) offered.is_file go-ne_unable
          left)

  pub server_answers :
      Transmits
      → (info : RequestInfo)
      → waiting os stream w ≡ download_request remote_path flags block_size ++ rest
      → Post (AnsweredAs os stream Body (announced st) w) (receive_command os rounds root info w)
  server_answers transmits info holds =
      let (t, e, left, same) =
        serves_recv os stream reliable rounds root info header remote_path (recv_go ∷ rest) w
          (record {
            flags = offered.flags_fit;
            path_length = omega (arith, offered.short);
            uncompressed_block_size = offered.block_size_fits;
          })
          refl offered.short
          (holds ∙ append_assoc (recv_request_bytes header remote_path) (recv_go ∷ []) rest) in
      subst (Post (AnsweredAs os stream Body (announced st) w)) (sym e)
        (rw offered.is_string (handled transmits _ t left same))

module _ (content : Bytes) (bytes : All IsByte content) (small : length content ≤ 2 ^ 55)
    (flags block_size : ℕ) (remote_path : Bytes) (st : Stat) {N F M G : Type 0} where
  -- A download without compression, as a conversation of two machines: if the client hears what
  -- the server says and the server hears what the client says, each on its own reliable
  -- connection and with whatever pieces its transfers come in, then both return 0, the client has
  -- said exactly what the server heard, the server exactly what the client heard, and the local
  -- file holds exactly the bytes of the file on the server. The disks are healthy; the client can
  -- connect, and closing leaves alone what was sent; the path is valid and resolves to a file
  -- that can be opened, `stat` gives its length, and the server may make one read more than it
  -- has bytes. The content has at most 2 ^ 55 bytes, each below 256.
  pub download_session :
      (client : Os N F) (heard : StreamLaws client.net) (reliable : IsReliable heard)
      (files : FileLaws client.sys) (healthy : IsHealthy client.sys)
      (closed : (n : N) → heard.outgoing (client.net.close n) ≡ heard.outgoing n)
      (local_path : Bytes) (fd : ℕ) (opening : OpensAs files local_path fd) (server : Os M G)
      (heard' : StreamLaws server.net) (reliable' : IsReliable heard')
      (files' : FileLaws server.sys) (healthy' : IsHealthy server.sys) (root full_path : Bytes)
      (fd' : ℕ) (reading : ReadsAs files' full_path fd' content) (rounds rounds' : ℕ)
      (host port : Bytes) (info : RequestInfo) (rest rest' : Bytes) (c : World N F) (s : World M G)
      → has_flag flags flag_use_compression ≡ false
      → IsOffered server root full_path remote_path flags block_size st s
      → length content < rounds'
      → st.size ≡ length content
      → (client.net.connect host port c.net).0 ≡ true
      → heard.incoming (client.net.connect host port c.net).1 ≡ file_answer st content ++ rest
      → heard'.incoming s.net ≡ download_request remote_path flags block_size ++ rest'
      → Post
          (Fetched client heard files fd content
            (heard.outgoing (client.net.connect host port c.net).1)
            (download_request remote_path flags block_size))
          (download_file client rounds host port remote_path local_path flags block_size c)
        × Post
            (Answered server heard' (file_answer st content) s)
            (receive_command server rounds' root info s)
  download_session client heard reliable files healthy closed local_path fd opening server heard'
        reliable' files' healthy' root full_path fd' reading rounds rounds' host port info rest
        rest' c s plain offered enough size connected hears hears' =
      let streamed : Bytes = plain_stream content (count_byte_values content) in
      let conf : ℕ → Bytes = λ n.
        encode_confirmation (record { response_type = recv_type_file; effective_length = n }) in
      let short : length remote_path < 2 ^ 16 = omega (arith, offered.short) in
      let hears_this : heard.incoming (client.net.connect host port c.net).1
          ≡ conf (length content) ++ (streamed ++ rest) =
        hears
        ∙ append_assoc (conf st.size) streamed rest
        ∙ ap (λ n. conf n ++ (streamed ++ rest)) size in
      (
        Post-mono _ _
            (download_file client rounds host port remote_path local_path flags block_size c)
            (λ r t h. (h.0.1, (h.0.0, h.1)))
            (Post-and _ _
              (download_file client rounds host port remote_path local_path flags block_size c)
              (download_file_stores client heard reliable files healthy local_path fd opening
                content rest bytes small flags block_size plain rounds host port remote_path c short
                connected hears_this)
              (download_file-says client heard reliable files closed local_path flags block_size
                plain (length content) (omega (arith, small)) rounds host port remote_path
                (streamed ++ rest) c short connected hears_this)),
        Post-mono (AnsweredAs server heard' _ (announced st) s)
            (Answered server heard' (file_answer st content) s)
            (receive_command server rounds' root info s)
            (λ r t (success, body, form, out).
              (success, out ∙ ap (λ b. sent server heard' s ++ (announced st ++ b)) form))
            (server_answers server heard' reliable' files' healthy' root full_path fd' content
              reading flags block_size remote_path st rest' s offered rounds' _
              (λ u.
                transmits-IsPlain server heard' reliable' files' healthy' full_path fd' content
                  reading (recv_header remote_path flags block_size) plain bytes small rounds' u
                  enough)
              info hears'),
      )
