-- ===== src/Session/Upload.antt =====
-- An upload as a conversation: `isr_cli_send_file` of lib/isr-cli.c on one machine and
-- `isr_receive_command` of lib/isr.c on another.
use isr.Prelude.{
  ℕ, ◌≤◌, ◌<◌, ◌^◌, ◌≡◌, refl, sym, ap, subst, ◌∙◌, true, false, Option, none, some, ◌++◌,
  append_assoc, arith, Bytes, IsByte, All, length,
}
use isr.Bytes.{count_byte_values}
use isr.CText.{c_string}
use isr.Io.{ok, Stat, Os, World}
use isr.Io.Post.{Post, Post-mono}
use isr.Exact.Laws.{StreamLaws, IsReliable, FileLaws, IsHealthy}
use isr.Exact.Send.{sent}
use isr.Exact.Recv.{waiting, beside_waiting}
use isr.Transfer.Plain.{plain_stream}
use isr.Paths.{validate_path, resolve_path}
use isr.Wire.{
  path_max, flag_use_compression, flag_create_directory, result_ok, response_from_result,
  SendHeader,
}
use isr.Server.{RequestInfo, Reply, has_flag, receive_body, receive_send_command, receive_command}
use isr.Server.Refuse.{existing_refusal}
use isr.Server.Request.{send_header, send_request_bytes, serves_send}
use isr.Server.Upload.{OpensAs, Uploaded, Received, answer, stores, receives_plain}
use isr.Server.Download.{ReadsAs}
use isr.Client.{send_file}
use isr.Client.Upload.{upload_stream, send_file_lem}
use isr.Session.{Said}

-- What the server says in an upload, for what `stat` found at the path.
abbrev pub upload_answers : Option Stat → Bytes
upload_answers found = response_from_result (answer found) ++ response_from_result result_ok

pub answer-lt : (found : Option Stat) → answer found < 255
answer-lt none = omega arith
answer-lt (some st) = omega arith

-- The file holds the content, the client was told so, and the stream goes on with `rest`.
abbrev pub Served :
    {N F : Type 0} (os : Os N F) (stream : StreamLaws os.net) (files : FileLaws os.sys)
    (full_path : Bytes) (fd : ℕ) (content rest : Bytes)
    → World N F
    → Reply
    → World N F
    → Type 0
Served os stream files full_path fd content rest w r t =
    (r.0 ≡ ok)
    × (files.written fd t.sys ≡ content)
    × (waiting os stream t ≡ rest)
    × (sent os stream t ≡ sent os stream w ++ upload_answers (os.sys.stat full_path w.sys))

-- What the server asks of an upload: the fields fit the header, and the path is valid, resolves
-- and is free.
pub record IsWelcome {N F : Type 0} (os : Os N F) (root full_path remote_path content : Bytes)
    (flags block_size : ℕ) (w : World N F) : Type 0 where
  pub flags_fit : flags < 2 ^ 8
  pub block_size_fits : block_size < 2 ^ 32
  pub is_file : has_flag flags flag_create_directory ≡ false
  pub short : length remote_path < path_max
  pub is_string : c_string remote_path ≡ remote_path
  pub is_valid : validate_path remote_path ≡ ok
  pub resolves :
      resolve_path (λ p. os.sys.realpath p w.sys) path_max root remote_path ≡ some full_path
  pub is_free :
      existing_refusal
        (send_header remote_path flags block_size (length content))
        (os.sys.stat full_path w.sys)
      ≡ none

module _ (content : Bytes) (bytes : All IsByte content) (small : length content ≤ 2 ^ 55)
    (flags block_size : ℕ) (remote_path : Bytes) where
  abbrev pub header : SendHeader
  header = send_header remote_path flags block_size (length content)

  module _ {N F : Type 0} (os : Os N F) (stream : StreamLaws os.net) (reliable : IsReliable stream)
      (files : FileLaws os.sys) (healthy : IsHealthy os.sys) (root full_path : Bytes) (fd : ℕ)
      (opening : OpensAs files full_path fd) (rest : Bytes) (w : World N F)
      (welcome : IsWelcome os root full_path remote_path content flags block_size w) where
    -- The data in any form that the server's receiver stores as the content.
    module _ (rounds : ℕ) (body : Bytes)
        (receives : (u : World N F)
          → waiting os stream u ≡ body ++ rest
          → Post
              (Received os stream reliable files healthy full_path fd opening content rest u)
              (receive_body os rounds header fd u)) where
      handled :
          (info : RequestInfo) (t : World N F)
          → waiting os stream t ≡ body ++ rest
          → beside_waiting os stream t ≡ beside_waiting os stream w
          → Post
              (Served os stream files full_path fd content rest w)
              (receive_send_command os rounds root header remote_path info t)
      handled info t left same =
          let files_same : t.sys ≡ w.sys = ap (λ p. p.1) same in
          Post-mono
            (Uploaded os stream reliable files healthy full_path fd opening content rest
              (answer (os.sys.stat full_path t.sys)) t)
            (Served os stream files full_path fd content rest w)
            (receive_send_command os rounds root header remote_path info t)
            (λ r u h. (
              h.0,
              h.1,
              h.2,
              h.3
                  ∙ ap (λ b. b ++ upload_answers (os.sys.stat full_path t.sys)) (ap (λ p. p.0) same)
                  ∙ ap (λ f. sent os stream w ++ upload_answers (os.sys.stat full_path f))
                      files_same,
            ))
            (stores os stream reliable files healthy full_path fd opening content rest header bytes
              small rounds body receives root remote_path info t welcome.is_valid
              (ap (λ f. resolve_path (λ p. os.sys.realpath p f) path_max root remote_path)
                  files_same
                ∙ welcome.resolves)
              welcome.is_file
              (ap (λ f. existing_refusal header (os.sys.stat full_path f)) files_same
                ∙ welcome.is_free)
              left)

      pub server_stores :
          (info : RequestInfo)
          → waiting os stream w ≡ (send_request_bytes header remote_path ++ body) ++ rest
          → Post
              (Served os stream files full_path fd content rest w)
              (receive_command os rounds root info w)
      server_stores info holds =
          let (t, e, left, same) =
            serves_send os stream reliable rounds root info header remote_path (body ++ rest) w
              (record {
                flags = welcome.flags_fit;
                path_length = omega (arith, welcome.short);
                uncompressed_block_size = welcome.block_size_fits;
                effective_length = omega (arith, small);
              })
              refl welcome.short
              (holds ∙ append_assoc (send_request_bytes header remote_path) body rest) in
          subst (Post (Served os stream files full_path fd content rest w)) (sym e)
            (rw welcome.is_string (handled _ t left same))

module _ (content : Bytes) (bytes : All IsByte content) (small : length content ≤ 2 ^ 55)
    (flags block_size : ℕ) (remote_path : Bytes) {N F M G : Type 0} where
  -- An upload without compression, as a conversation of two machines: if the client hears what
  -- the server says and the server hears what the client says, each on its own reliable
  -- connection and with whatever pieces its transfers come in, then both return 0, the client has
  -- said exactly what the server heard, the server exactly what the client heard, and the file on
  -- the server holds exactly the bytes of the file on the client. The disks are healthy; the
  -- client can connect, and closing leaves alone what was sent; the file can be opened, `stat`
  -- gives its length, and the client may make one read more than it has bytes. The path is valid,
  -- resolves, and nothing is there that forbids it, and the content has at most 2 ^ 55 bytes,
  -- each below 256.
  pub upload_session :
      (client : Os N F) (heard : StreamLaws client.net) (reliable : IsReliable heard)
      (files : FileLaws client.sys) (healthy : IsHealthy client.sys)
      (closed : (n : N) → heard.outgoing (client.net.close n) ≡ heard.outgoing n)
      (local_path : Bytes) (fd : ℕ) (reading : ReadsAs files local_path fd content)
      (server : Os M G) (heard' : StreamLaws server.net) (reliable' : IsReliable heard')
      (files' : FileLaws server.sys) (healthy' : IsHealthy server.sys) (root full_path : Bytes)
      (fd' : ℕ) (opening : OpensAs files' full_path fd') (rounds rounds' : ℕ) (host port : Bytes)
      (st : Stat) (info : RequestInfo) (rest rest' : Bytes) (c : World N F) (s : World M G)
      → has_flag flags flag_use_compression ≡ false
      → IsWelcome server root full_path remote_path content flags block_size s
      → length content < rounds
      → client.sys.stat local_path c.sys ≡ some st
      → st.size ≡ length content
      → (client.net.connect host port c.net).0 ≡ true
      → heard.incoming (client.net.connect host port c.net).1
        ≡ upload_answers (server.sys.stat full_path s.sys) ++ rest
      → heard'.incoming s.net ≡ upload_stream remote_path flags block_size content ++ rest'
      → Post
          (Said client heard
            (heard.outgoing (client.net.connect host port c.net).1)
            (upload_stream remote_path flags block_size content))
          (send_file client rounds host port remote_path local_path flags block_size c)
        × Post
            (Served server heard' files' full_path fd' content rest' s)
            (receive_command server rounds' root info s)
  upload_session client heard reliable files healthy closed local_path fd reading server heard'
        reliable' files' healthy' root full_path fd' opening rounds rounds' host port st info rest
        rest' c s plain welcome enough found size connected hears hears' =
      let resp : ℕ = answer (server.sys.stat full_path s.sys) in
      (
        send_file_lem client heard reliable files closed local_path fd content reading bytes small
            flags block_size resp (answer-lt (server.sys.stat full_path s.sys)) rest healthy plain
            rounds host port remote_path st c enough (omega (arith, welcome.short)) found size
            connected (hears ∙ append_assoc (response_from_result resp) _ rest),
        server_stores content bytes small flags block_size remote_path server heard' reliable'
            files' healthy' root full_path fd' opening rest' s welcome rounds'
            (plain_stream content (count_byte_values content))
            (receives_plain server heard' reliable' files' healthy' full_path fd' opening content
              rest' (header content bytes small flags block_size remote_path) plain refl bytes small
              rounds')
            info hears',
      )
