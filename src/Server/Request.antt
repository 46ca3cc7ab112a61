-- ===== src/Server/Request.antt =====
-- A request as the client sends it is the request that the server serves.
use isr.Prelude.{
  ℕ, ◌%◌, ◌<◌, ◌^◌, ◌≡◌, refl, sym, ap, ◌∙◌, false, leb, [], ◌∷◌, ◌++◌, append_assoc, arith, Bytes,
  length, take-ge,
}
use isr.Bytes.{from_big_endian_onto}
use isr.Io.{Io, Status, ok, err, Os, World, ◌>>=◌, unless_err}
use isr.Io.Post.{Post, Post-mono}
use isr.Exact.{send_exact}
use isr.Exact.Laws.{StreamLaws, IsReliable}
use isr.Exact.Send.{beside_sent, sent, send_exact_ok}
use isr.Exact.Recv.{waiting, beside_waiting}
use isr.Exact.Steps.{after_send_ok, recv_this}
use isr.Wire.{
  transmit_recv_command, path_max, command_send, command_recv, SendHeader, encode_send_header,
  RecvHeader, encode_recv_header, transmit_send_command, send_header_size, recv_header_size,
}
use isr.Wire.Layout.{
  SendHeaderFits, decode-encode_send_header, length-encode_send_header, RecvHeaderFits,
  decode-encode_recv_header, length-encode_recv_header,
}
use isr.Server.{RequestInfo, Reply, send_request, recv_request, read_path, receive_command}

abbrev pub send_header : Bytes → ℕ → ℕ → ℕ → SendHeader
send_header path flags uncompressed_block_size effective_length = record {
  flags = flags;
  path_length = length path;
  uncompressed_block_size = uncompressed_block_size;
  effective_length = effective_length;
}

abbrev pub recv_header : Bytes → ℕ → ℕ → RecvHeader
recv_header path flags uncompressed_block_size = record {
  flags = flags;
  path_length = length path;
  uncompressed_block_size = uncompressed_block_size;
}

abbrev pub send_request_bytes : SendHeader → Bytes → Bytes
send_request_bytes header path = command_send ∷ (encode_send_header header ++ path)

abbrev pub recv_request_bytes : RecvHeader → Bytes → Bytes
recv_request_bytes header path = command_recv ∷ (encode_recv_header header ++ path)

regroup : (a h p : Bytes) (c : ℕ) → ((a ++ (c ∷ [])) ++ h) ++ p ≡ a ++ (c ∷ (h ++ p))
regroup a h p c = append_assoc (a ++ (c ∷ [])) h p ∙ append_assoc a (c ∷ []) (h ++ p)

module _ {N F : Type 0} (os : Os N F) (stream : StreamLaws os.net)
    (reliable : IsReliable stream) where
  abbrev pub Requested : Bytes → World N F → Status → World N F → Type 0
  Requested bytes w r t =
      (r ≡ ok)
      × (sent os stream t ≡ sent os stream w ++ bytes)
      × (beside_sent os stream t ≡ beside_sent os stream w)

  -- The three sends of both commands.
  requested :
      (command : ℕ) (header path : Bytes) (w : World N F)
      → Post (Requested (command ∷ (header ++ path)) w) (
          (send_exact os (command ∷ [])
              >>= unless_err err (send_exact os header >>= unless_err err (send_exact os path)))
            w)
  requested command header path w =
      let Q : Status → World N F → Type 0 = Requested (command ∷ (header ++ path)) w in
      after_send_ok os stream Q reliable (command ∷ []) err _ w λ s d.
        after_send_ok os stream Q reliable header err (send_exact os path) s λ t d'.
          Post-mono _ Q (send_exact os path t)
            (λ r u h. (
              h.0,
              h.1.0
                  ∙ ap (λ x. x ++ path) (d'.0 ∙ ap (λ x. x ++ header) d.0)
                  ∙ regroup (sent os stream w) header path command,
              h.1.1 ∙ d'.1 ∙ d.1,
            ))
            (send_exact_ok os stream reliable path t)

  -- On a reliable connection the client's request for an upload goes out whole: the command byte,
  -- the header and the path, where the path is shorter than 2 ^ 16. Nothing is taken off the
  -- incoming stream, and the files are left alone.
  pub transmit_send_command_lem :
      (path : Bytes) (flags uncompressed_block_size effective_length : ℕ) (w : World N F)
      → length path < 2 ^ 16
      → Post
          (Requested
            (send_request_bytes
              (send_header path flags uncompressed_block_size effective_length)
              path)
            w)
          (transmit_send_command os path flags uncompressed_block_size effective_length w)
  unfolding transmit_send_command
  transmit_send_command_lem path flags size len w short =
      let whole : length path % 2 ^ 16 ≡ length path = omega arith in
      rw (whole, take-ge (length path) path (omega arith))
        (requested command_send (encode_send_header (send_header path flags size len)) path w)

  pub transmit_recv_command_lem :
      (path : Bytes) (flags uncompressed_block_size : ℕ) (w : World N F)
      → length path < 2 ^ 16
      → Post
          (Requested (recv_request_bytes (recv_header path flags uncompressed_block_size) path) w)
          (transmit_recv_command os path flags uncompressed_block_size w)
  unfolding transmit_recv_command
  transmit_recv_command_lem path flags size w short =
      let whole : length path % 2 ^ 16 ≡ length path = omega arith in
      rw (whole, take-ge (length path) path (omega arith))
        (requested command_recv (encode_recv_header (recv_header path flags size)) path w)

  read_path_lem :
      (n : ℕ) (path rest : Bytes) (info : RequestInfo) (more : Bytes → Io (World N F) Reply)
      (w : World N F)
      → n ≡ length path
      → length path < path_max
      → waiting os stream w ≡ path ++ rest
      → (t : World N F) × (read_path os n info more w ≡ more path t)
        × (waiting os stream t ≡ rest)
        × (beside_waiting os stream t ≡ beside_waiting os stream w)
  read_path_lem n path rest info more w size short holds =
      let (t, e, left, same) = recv_this os stream reliable path rest n w (sym size) holds in
      let fits : leb path_max n ≡ false = ground arith in (t, rw (fits, e, ◌>>=◌) refl, left, same)

  -- The server reads the client's request for an upload, up to and no further than its end, and
  -- serves it, for every header whose fields fit and that announces the length of the path, which
  -- is less than 4096 bytes. The connection is reliable.
  pub serves_send :
      (rounds : ℕ) (root : Bytes) (info : RequestInfo) (header : SendHeader) (path rest : Bytes)
      (w : World N F)
      → SendHeaderFits header
      → header.path_length ≡ length path
      → length path < path_max
      → waiting os stream w ≡ send_request_bytes header path ++ rest
      → (t : World N F) × (receive_command os rounds root info w
          ≡ send_request os rounds root info header path t)
        × (waiting os stream t ≡ rest)
        × (beside_waiting os stream t ≡ beside_waiting os stream w)
  unfolding receive_command from_big_endian_onto
  serves_send rounds root info header path rest w fits announced short holds =
      let bytes : Bytes = encode_send_header header in
      let (t, e, left, same) =
        recv_this os stream reliable (command_send ∷ []) (bytes ++ (path ++ rest)) 1 w refl
          (holds ∙ ap (λ x. command_send ∷ x) (append_assoc bytes path rest)) in
      let (u, e', left', same') =
        recv_this os stream reliable bytes (path ++ rest) send_header_size t
          (length-encode_send_header header) left in
      let (v, e'', left'', same'') =
        read_path_lem header.path_length path rest info (send_request os rounds root info header) u
          announced short left' in
      (
        v,
        rw (e, ◌>>=◌) (rw (e', ◌>>=◌) (rw (decode-encode_send_header header fits) e'')),
        left'',
        same'' ∙ same' ∙ same,
      )

  -- The server reads the client's request for a download, up to and no further than its end, and
  -- serves it, for every header whose fields fit and that announces the length of the path, which
  -- is less than 4096 bytes. The connection is reliable.
  pub serves_recv :
      (rounds : ℕ) (root : Bytes) (info : RequestInfo) (header : RecvHeader) (path rest : Bytes)
      (w : World N F)
      → RecvHeaderFits header
      → header.path_length ≡ length path
      → length path < path_max
      → waiting os stream w ≡ recv_request_bytes header path ++ rest
      → (t : World N F) × (receive_command os rounds root info w
          ≡ recv_request os rounds root info header path t)
        × (waiting os stream t ≡ rest)
        × (beside_waiting os stream t ≡ beside_waiting os stream w)
  unfolding receive_command from_big_endian_onto
  serves_recv rounds root info header path rest w fits announced short holds =
      let bytes : Bytes = encode_recv_header header in
      let (t, e, left, same) =
        recv_this os stream reliable (command_recv ∷ []) (bytes ++ (path ++ rest)) 1 w refl
          (holds ∙ ap (λ x. command_recv ∷ x) (append_assoc bytes path rest)) in
      let (u, e', left', same') =
        recv_this os stream reliable bytes (path ++ rest) recv_header_size t
          (length-encode_recv_header header) left in
      let (v, e'', left'', same'') =
        read_path_lem header.path_length path rest info (recv_request os rounds root info header) u
          announced short left' in
      (
        v,
        rw (e, ◌>>=◌) (rw (e', ◌>>=◌) (rw (decode-encode_recv_header header fits) e'')),
        left'',
        same'' ∙ same' ∙ same,
      )
