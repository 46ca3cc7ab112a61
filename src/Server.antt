-- ===== src/Server.antt =====
-- The server's side of a request: `isr_receive_command`, `isr_receive_send_command` and
-- `isr_receive_recv_command` of lib/isr.c. The handlers get the caller's request record and return
-- it beside their result, as main.c never passes NULL for it. What they print is left out.
pub mod Parent
pub mod Keeps
pub mod SendKeeps
pub mod RecvKeeps
pub mod Confined
pub mod Refuse
pub mod Request
pub mod Upload
pub mod Download
use isr.Prelude.{
  ℕ, ◌^◌, Bool, true, false, not, Option, none, some, [], ◌∷◌, ◌==◌, leb, ltb, if◌then◌else◌, Bytes,
  bit_and,
}
use isr.Bytes.{from_big_endian}
use isr.CText.{text, c_string, copy_string}
use isr.Io.{
  ret, Io, pure, ◌>>=◌, ◌>>◌, Status, ok, err, Stat, Os, World, on_sys, ask, unless_err, or_fail,
}
use isr.Exact.{recv_exact}
use isr.Wire.{
  path_max, recv_unable, result_ok, result_checksum_bad, result_other_failure, flag_use_compression,
  flag_overwrite, flag_create_directory, command_send, command_recv, send_response_creating,
  send_response_overwriting, recv_type_file, recv_type_not_found, SendHeader, decode_send_header,
  RecvHeader, decode_recv_header, send_header_size, recv_header_size, transmit_send_response,
  transmit_send_result, send_recv_confirmation,
}
use isr.Transfer.{minus_one, minus_two, transmit_file_uncompressed, receive_file_uncompressed}
use isr.Compressed.{transmit_file_compressed, receive_file_compressed}
use isr.Listing.{transmit_recv_directory_listing}
use isr.Paths.{validate_path, resolve_path, mkdir_recursive, parent_dir}

-- isr_request_info_t
pub record RequestInfo : Type 0 where
  pub cmd : ℕ
  pub path : Bytes
  pub file_size : ℕ
  pub is_dir : ℕ
  pub is_compressed : ℕ
  pub is_overwrite : ℕ
  pub is_mkdir : ℕ
  pub not_found : ℕ

abbrev pub Reply : Type 0
Reply = Status × RequestInfo

-- `header.flags & flag`
abbrev pub has_flag : ℕ → ℕ → Bool
has_flag flags flag = not (bit_and flags flag == 0)

abbrev pub flag_value : Bool → ℕ
flag_value b = if b then 1 else 0

-- `result >= 0 ? 0 : -1`
abbrev pub is_sent : ℕ → Status
is_sent result = if ltb result (2 ^ 63) then ok else err

-- A test that leads to a refusal, in front of the rest.
module _ {S A : Type 0} where
  abbrev pub unless_refused : Io S A → Io S A → Status → Io S A
  unless_refused refusal rest ok = rest
  unless_refused refusal rest err = refusal

  abbrev pub or_refused : {B : Type 0} → Io S A → (B → Io S A) → Option B → Io S A
  or_refused refusal rest none = refusal
  or_refused refusal rest (some b) = rest b

module _ {N F : Type 0} (os : Os N F) where
  -- `isr_resolve_path(isr_server_root_path, path, full_path, sizeof(full_path))`
  abbrev pub resolve : Bytes → Bytes → Io (World N F) (Option Bytes)
  resolve root path = ask (λ f. resolve_path (λ p. os.sys.realpath p f) path_max root path)

  -- The error response, sent for its effect only, and -1.
  abbrev pub refuse_send : Bytes → RequestInfo → Io (World N F) Reply
  refuse_send message info =
      transmit_send_response os result_other_failure (some message) >> pure (err, info)

  abbrev pub make_parent : Option Bytes → Io (World N F) Status
  make_parent none = pure err
  make_parent (some parent) = mkdir_recursive os parent

  -- The three ends of a transfer.
  abbrev pub report : ℕ → RequestInfo → Io (World N F) Reply
  report result info =
      if result == minus_one
      then (transmit_send_result os result_other_failure >> pure (err, info))
      else if result == minus_two
      then (transmit_send_result os result_checksum_bad >> pure (err, info))
      else (transmit_send_result os result_ok >> pure (ok, info))

  -- The data, by the way that the client chose; `rounds` bounds the compressed blocks.
  abbrev pub receive_body : ℕ → SendHeader → ℕ → Io (World N F) ℕ
  receive_body rounds header fd =
      if has_flag header.flags flag_use_compression
      then receive_file_compressed os rounds fd header.uncompressed_block_size
          header.effective_length
      else receive_file_uncompressed os fd header.effective_length

  -- From "Create parent directories" on.
  abbrev pub accept : ℕ → SendHeader → Bytes → ℕ → RequestInfo → Io (World N F) Reply
  accept rounds header full_path resp_type info =
      make_parent (parent_dir path_max full_path)
      >> (transmit_send_response os resp_type none
          >>= unless_err (err, info)
              (on_sys (os.sys.open_write full_path)
                >>= or_fail (err, info)
                    λ fd. receive_body rounds header fd >>= λ result.
                      (λ w. report result info (record w { sys = os.sys.close fd w.sys }))))

  -- From "Check if file exists" on, for what `isr_stat` found.
  abbrev pub send_existing :
      ℕ → SendHeader → Bytes → RequestInfo → Option Stat → Io (World N F) Reply
  send_existing rounds header full_path info none =
      accept rounds header full_path send_response_creating (record info { is_overwrite = 0 })
  send_existing rounds header full_path info (some st) =
      let info' : RequestInfo = record info { is_overwrite = 1 } in
      if st.is_dir
      then refuse_send (text "Path is a directory") info'
      else if has_flag header.flags flag_overwrite
      then accept rounds header full_path send_response_overwriting info'
      else refuse_send (text "File exists, overwrite not set") info'

  -- The rest of the handler for a resolved path.
  abbrev pub send_resolved : ℕ → SendHeader → RequestInfo → Bytes → Io (World N F) Reply
  send_resolved rounds header info full_path =
      if has_flag header.flags flag_create_directory
      then (mkdir_recursive os full_path
          >>= unless_refused (refuse_send (text "Failed to create directory") info)
              (transmit_send_response os result_ok none >> pure (ok, info)))
      else (ask (os.sys.stat full_path) >>= send_existing rounds header full_path info)

  -- isr_receive_send_command; `root` is `isr_server_root_path`.
  unfoldable pub receive_send_command :
      ℕ → Bytes → SendHeader → Bytes → RequestInfo → Io (World N F) Reply
  receive_send_command rounds root header path info =
      unless_refused (refuse_send (text "Invalid path") info)
        (resolve root path
          >>= or_refused (refuse_send (text "Path resolution failed") info)
              (send_resolved rounds header info))
        (validate_path path)

  abbrev pub refuse_recv : RequestInfo → Io (World N F) Reply
  refuse_recv info = send_recv_confirmation os result_other_failure 0 >> pure (err, info)

  -- `rounds` bounds the reads.
  abbrev pub transmit_body : ℕ → RecvHeader → ℕ → Io (World N F) ℕ
  transmit_body rounds header fd =
      if has_flag header.flags flag_use_compression
      then transmit_file_compressed os rounds fd header.uncompressed_block_size
      else transmit_file_uncompressed os rounds fd

  -- From "Open and stream file" on.
  abbrev pub stream_file : ℕ → RecvHeader → Bytes → RequestInfo → Io (World N F) Reply
  stream_file rounds header full_path info =
      on_sys (os.sys.open_read full_path)
      >>= or_fail (err, info)
          λ fd. transmit_body rounds header fd >>= λ result.
            (λ w. ret (is_sent result, info) (record w { sys = os.sys.close fd w.sys }))

  -- From `isr_stat` on, for what it found.
  abbrev pub recv_existing :
      ℕ → RecvHeader → Bytes → RequestInfo → Option Stat → Io (World N F) Reply
  recv_existing rounds header full_path info none =
      send_recv_confirmation os recv_type_not_found 0 >> pure (ok, record info { not_found = 1 })
  recv_existing rounds header full_path info (some st) =
      let info' : RequestInfo = record info {
        is_dir = flag_value st.is_dir;
        file_size = if st.is_dir then 0 else st.size;
      } in
      if st.is_dir
      then (transmit_recv_directory_listing os full_path >>= λ status. pure (status, info'))
      else (send_recv_confirmation os recv_type_file st.size
          >>= unless_err (err, info')
              (recv_exact os 1
                >>= or_fail (err, info')
                    λ go.
                      if from_big_endian go == recv_unable
                      then pure (ok, info')
                      else stream_file rounds header full_path info'))

  -- isr_receive_recv_command
  unfoldable pub receive_recv_command :
      ℕ → Bytes → RecvHeader → Bytes → RequestInfo → Io (World N F) Reply
  receive_recv_command rounds root header path info =
      unless_refused (refuse_recv info)
        (resolve root path
          >>= or_refused (refuse_recv info) (λ full_path.
            ask (os.sys.stat full_path) >>= recv_existing rounds header full_path info))
        (validate_path path)

  -- The branch for a send command: `raw` is what the connection gave for the path.
  abbrev pub send_request : ℕ → Bytes → RequestInfo → SendHeader → Bytes → Io (World N F) Reply
  send_request rounds root info header raw =
      let path : Bytes = c_string raw in
      receive_send_command rounds root header path (record info {
        cmd = command_send;
        path = copy_string path_max path;
        file_size = header.effective_length;
        is_compressed = flag_value (has_flag header.flags flag_use_compression);
        is_overwrite = 0;
        is_mkdir = flag_value (has_flag header.flags flag_create_directory);
        is_dir = 0;
      })

  -- The branch for a receive command.
  abbrev pub recv_request : ℕ → Bytes → RequestInfo → RecvHeader → Bytes → Io (World N F) Reply
  recv_request rounds root info header raw =
      let path : Bytes = c_string raw in
      receive_recv_command rounds root header path (record info {
        cmd = command_recv;
        path = copy_string path_max path;
        is_compressed = flag_value (has_flag header.flags flag_use_compression);
        is_overwrite = 0;
        is_mkdir = 0;
        file_size = 0;
        is_dir = 0;
      })

  -- `if (header.path_length >= sizeof(path)) return -1;` and the path.
  abbrev pub read_path : ℕ → RequestInfo → (Bytes → Io (World N F) Reply) → Io (World N F) Reply
  read_path path_length info rest =
      if leb path_max path_length
      then pure (err, info)
      else (recv_exact os path_length >>= or_fail (err, info) rest)

  abbrev pub dispatch : ℕ → Bytes → RequestInfo → ℕ → Io (World N F) Reply
  dispatch rounds root info cmd =
      if cmd == command_send
      then (recv_exact os send_header_size
          >>= or_fail (err, info)
              λ bs.
                read_path (decode_send_header bs).path_length info
                  (send_request rounds root info (decode_send_header bs)))
      else if cmd == command_recv
      then (recv_exact os recv_header_size
          >>= or_fail (err, info)
              λ bs.
                read_path (decode_recv_header bs).path_length info
                  (recv_request rounds root info (decode_recv_header bs)))
      else pure (err, info)

  -- isr_receive_command
  unfoldable pub receive_command : ℕ → Bytes → RequestInfo → Io (World N F) Reply
  receive_command rounds root info =
      recv_exact os 1 >>= or_fail (err, info) λ cmd. dispatch rounds root info (from_big_endian cmd)
