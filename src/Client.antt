-- ===== src/Client.antt =====
-- The client's commands for one file: `recv_connect`, `send_go`, `receive_file_data`,
-- `isr_cli_send_file`, `isr_cli_recv` and `isr_cli_download_file` of lib/isr-cli.c. What they
-- print about their progress is left out, but for the heading of a listing.
pub mod Confirmed
pub mod Download
pub mod Listing
pub mod Received
pub mod Said
pub mod Upload
use isr.Prelude.{
  ℕ, ◌-◌, ◌%◌, ◌^◌, Bool, true, false, not, Option, none, some, [], ◌∷◌, ◌++◌, ◌==◌, ltb,
  if◌then◌else◌, Bytes, take,
}
use isr.Bytes.{from_big_endian}
use isr.CText.{text, joined, split_last}
use isr.Io.{
  ret, Io, pure, ◌>>=◌, ◌>>◌, Status, ok, err, Os, World, on_net, on_sys, ask, unless_err, or_fail,
}
use isr.Exact.{net_send, recv_exact}
use isr.Wire.{
  path_max, recv_go, result_ok, result_other_failure, flag_use_compression, recv_type_file,
  recv_type_directory, recv_type_not_found, Confirmation, decode_confirmation, confirmation_size,
  response_size, transmit_send_command, transmit_recv_command,
}
use isr.Transfer.{minus_one, transmit_file_uncompressed, receive_file_uncompressed}
use isr.Compressed.{transmit_file_compressed, receive_file_compressed}
use isr.Listing.Parse.{receive_directory_listing}
use isr.Paths.{mkdir_recursive, parent_dir}
use isr.Server.{has_flag, make_parent, unless_refused, or_refused}

-- `(result >= 0) ? 0 : (int)result`, as a bit pattern of 32 bits.
abbrev pub as_int : ℕ → ℕ
as_int result = if ltb result (2 ^ 63) then 0 else result % 2 ^ 32

-- -1 and -2 as int.
abbrev pub int_minus_one : ℕ
int_minus_one = 2 ^ 32 - 1

abbrev pub int_minus_two : ℕ
int_minus_two = 2 ^ 32 - 2

-- The last test of both download functions.
abbrev pub file_status : ℕ → Status
file_status result =
    if result == int_minus_one then err else if result == int_minus_two then err else ok

-- The test of the one `net_send` of send_go.
abbrev pub sent_status : Option ℕ → Status
sent_status none = err
sent_status (some k) = ok

-- The result of an upload for the second response.
abbrev pub result_status : Bytes → Status
result_status response = if from_big_endian (take 1 response) == result_ok then ok else err

-- What follows the last slash of the remote path.
abbrev pub basename_of : Bytes → Option (Bytes × Bytes) → Bytes
basename_of path none = path
basename_of path (some (before, after)) = after

-- `printf("Directory listing for '%s':\n", remote_path)`
abbrev pub listing_heading : Bytes → Bytes
listing_heading remote_path = text "Directory listing for '" ++ (remote_path ++ text "':\n")

module _ {N F : Type 0} (os : Os N F) where
  abbrev pub connect : Bytes → Bytes → Io (World N F) Bool
  connect host port = on_net (os.net.connect host port)

  -- `net_close(sock)` and the return of the value.
  abbrev pub hang_up : {A : Type 0} → A → Io (World N F) A
  hang_up a = on_net (λ n. (a, os.net.close n))

  -- The branches for a test of a connection, and of a confirmation.
  abbrev pub if_connected : {A : Type 0} → A → Io (World N F) A → Bool → Io (World N F) A
  if_connected failure rest true = rest
  if_connected failure rest false = pure failure

  abbrev pub confirmed : Option Bytes → Io (World N F) (Option Confirmation)
  confirmed none = hang_up none
  confirmed (some bs) = pure (some (decode_confirmation bs))

  unfoldable pub recv_connect : Bytes → Bytes → Bytes → ℕ → ℕ → Io (World N F) (Option Confirmation)
  recv_connect host port remote_path flags block_size =
      connect host port
      >>= if_connected none (
          transmit_recv_command os remote_path flags block_size
          >>= unless_refused (hang_up none) (recv_exact os confirmation_size >>= confirmed))

  unfoldable pub send_go : Io (World N F) Status
  send_go = net_send os (recv_go ∷ []) >>= λ r. pure (sent_status r)

  unfoldable pub receive_file_data : ℕ → ℕ → ℕ → ℕ → ℕ → Io (World N F) ℕ
  receive_file_data rounds fd flags block_size effective_length =
      (if has_flag flags flag_use_compression
        then receive_file_compressed os rounds fd block_size effective_length
        else receive_file_uncompressed os fd effective_length)
      >>= λ result. pure (as_int result)

  -- From the opened file on, in both download functions.
  abbrev pub download_into : ℕ → ℕ → ℕ → ℕ → ℕ → Io (World N F) Status
  download_into rounds flags block_size effective_length fd =
      receive_file_data rounds fd flags block_size effective_length >>= λ result.
      (λ w. hang_up (file_status result) (record w { sys = os.sys.close fd w.sys }))

  -- isr_cli_download_file, for the confirmation that came.
  abbrev pub download_confirmed : ℕ → Bytes → ℕ → ℕ → Confirmation → Io (World N F) Status
  download_confirmed rounds local_path flags block_size conf =
      if conf.response_type == recv_type_not_found
      then hang_up err
      else if not (conf.response_type == recv_type_file)
      then hang_up err
      else (send_go
          >>= unless_refused (hang_up err) (
              make_parent os (parent_dir path_max local_path)
              >> (on_sys (os.sys.open_write local_path)
                  >>= or_refused (hang_up err)
                      (download_into rounds flags block_size conf.effective_length))))

  unfoldable pub download_file : ℕ → Bytes → Bytes → Bytes → Bytes → ℕ → ℕ → Io (World N F) Status
  download_file rounds host port remote_path local_path flags block_size =
      recv_connect host port remote_path flags block_size
      >>= or_fail err (download_confirmed rounds local_path flags block_size)

  -- isr_cli_recv, for the confirmation that came.
  abbrev pub recv_confirmed : ℕ → Bytes → Bytes → ℕ → ℕ → Confirmation → Io (World N F) Status
  recv_confirmed rounds remote_path local_dir flags block_size conf =
      if conf.response_type == recv_type_not_found
      then hang_up err
      else if conf.response_type == result_other_failure
      then hang_up err
      else if conf.response_type == recv_type_directory
      then (on_sys (λ f. (tt, os.sys.print (listing_heading remote_path) f))
          >> (send_go
              >>= unless_refused (hang_up err)
                  (receive_directory_listing os conf.effective_length >>= hang_up)))
      else if conf.response_type == recv_type_file
      then (send_go
          >>= unless_refused (hang_up err) (
              let basename : Bytes = basename_of remote_path (split_last b'/' remote_path) in
              let out_path : Bytes = take (path_max - 1) (joined local_dir basename) in
              mkdir_recursive os local_dir
              >> (on_sys (os.sys.open_write out_path)
                  >>= or_refused (hang_up err)
                      (download_into rounds flags block_size conf.effective_length))))
      else hang_up err

  unfoldable pub cli_recv : ℕ → Bytes → Bytes → Bytes → Bytes → ℕ → ℕ → Io (World N F) Status
  cli_recv rounds host port remote_path local_dir flags block_size =
      recv_connect host port remote_path flags block_size
      >>= or_fail err (recv_confirmed rounds remote_path local_dir flags block_size)

  -- The label `cleanup` of isr_cli_send_file.
  abbrev pub cleanup : ℕ → Status → Io (World N F) Status
  cleanup fd status w = hang_up status (record w { sys = os.sys.close fd w.sys })

  -- The data of an upload, by the way that the flags choose; `rounds` bounds the reads.
  abbrev pub upload_data : ℕ → ℕ → ℕ → ℕ → Io (World N F) ℕ
  upload_data rounds fd flags block_size =
      if has_flag flags flag_use_compression
      then transmit_file_compressed os rounds fd block_size
      else transmit_file_uncompressed os rounds fd

  -- From the first response of the server on.
  abbrev pub upload_answered : ℕ → ℕ → ℕ → ℕ → Bytes → Io (World N F) Status
  upload_answered rounds fd flags block_size response =
      if from_big_endian (take 1 response) == result_other_failure
      then cleanup fd err
      else (upload_data rounds fd flags block_size >>= λ checksum.
          if checksum == minus_one
          then cleanup fd err
          else (recv_exact os response_size
              >>= or_refused (cleanup fd err) λ result. cleanup fd (result_status result)))

  -- From the opened file on.
  abbrev pub upload_opened : ℕ → Bytes → Bytes → Bytes → ℕ → ℕ → ℕ → ℕ → Io (World N F) Status
  upload_opened rounds host port remote_path flags block_size file_size fd =
      connect host port >>= λ connected.
      if connected
      then (transmit_send_command os remote_path flags block_size file_size
          >>= unless_refused (cleanup fd err) (
              recv_exact os response_size
              >>= or_refused (cleanup fd err) (upload_answered rounds fd flags block_size)))
      else (λ w. ret err (record w { sys = os.sys.close fd w.sys }))

  unfoldable pub send_file : ℕ → Bytes → Bytes → Bytes → Bytes → ℕ → ℕ → Io (World N F) Status
  send_file rounds host port remote_path local_file flags block_size =
      ask (os.sys.stat local_file)
      >>= or_fail err λ st.
        on_sys (os.sys.open_read local_file)
        >>= or_fail err (upload_opened rounds host port remote_path flags block_size st.size)
