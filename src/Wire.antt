-- ===== src/Wire.antt =====
-- The protocol's messages: the constants and packed structs of lib/isr.h, and the functions of
-- lib/isr.c that send one message each. A struct is its bytes in order, with no padding.
pub mod Layout
use isr.Prelude.{
  ℕ, ◌+◌, ◌-◌, ◌*◌, ◌%◌, ◌^◌, Option, [], ◌∷◌, ◌++◌, Bytes, length, take, drop, replicate, Bool,
  ◌&&◌, ◌==◌, if◌then◌else◌, none, some,
}
use isr.Bytes.{to_big_endian, from_big_endian}
use isr.Io.{Io, pure, ◌>>=◌, Status, ok, err, Os, World, unless_err}
use isr.Exact.{send_exact}

abbrev pub path_max : ℕ
path_max = 4096

abbrev pub io_bufsize : ℕ
io_bufsize = 1024 * 64

abbrev pub recv_go : ℕ
recv_go = 0x01

abbrev pub recv_unable : ℕ
recv_unable = 0x00

abbrev pub result_ok : ℕ
result_ok = 0x00

abbrev pub result_checksum_bad : ℕ
result_checksum_bad = 0x01

abbrev pub result_other_failure : ℕ
result_other_failure = 0xFF

abbrev pub flag_use_compression : ℕ
flag_use_compression = 0x01

abbrev pub flag_overwrite : ℕ
flag_overwrite = 0x02

abbrev pub flag_create_directory : ℕ
flag_create_directory = 0x04

abbrev pub command_send : ℕ
command_send = 0x01

abbrev pub command_recv : ℕ
command_recv = 0x00

abbrev pub send_response_creating : ℕ
send_response_creating = 0x00

abbrev pub send_response_overwriting : ℕ
send_response_overwriting = 0x01

abbrev pub recv_type_file : ℕ
recv_type_file = 0x00

abbrev pub recv_type_directory : ℕ
recv_type_directory = 0x01

abbrev pub recv_type_not_found : ℕ
recv_type_not_found = 0x03

-- isr_send_command_header_t, in host order.
pub record SendHeader : Type 0 where
  pub flags : ℕ
  pub path_length : ℕ
  pub uncompressed_block_size : ℕ
  pub effective_length : ℕ

unfoldable pub encode_send_header : SendHeader → Bytes
encode_send_header h =
    h.flags
    ∷ (to_big_endian 2 h.path_length
        ++ (to_big_endian 4 h.uncompressed_block_size ++ to_big_endian 8 h.effective_length))

-- The struct as it was received, each field put in host order.
unfoldable pub decode_send_header : Bytes → SendHeader
decode_send_header bs = record {
  flags = from_big_endian (take 1 bs);
  path_length = from_big_endian (take 2 (drop 1 bs));
  uncompressed_block_size = from_big_endian (take 4 (drop 3 bs));
  effective_length = from_big_endian (take 8 (drop 7 bs));
}

-- isr_recv_command_header_t
pub record RecvHeader : Type 0 where
  pub flags : ℕ
  pub path_length : ℕ
  pub uncompressed_block_size : ℕ

unfoldable pub encode_recv_header : RecvHeader → Bytes
encode_recv_header h =
    h.flags ∷ (to_big_endian 2 h.path_length ++ to_big_endian 4 h.uncompressed_block_size)

unfoldable pub decode_recv_header : Bytes → RecvHeader
decode_recv_header bs = record {
  flags = from_big_endian (take 1 bs);
  path_length = from_big_endian (take 2 (drop 1 bs));
  uncompressed_block_size = from_big_endian (take 4 (drop 3 bs));
}

-- isr_recv_confirmation_t
pub record Confirmation : Type 0 where
  pub response_type : ℕ
  pub effective_length : ℕ

unfoldable pub encode_confirmation : Confirmation → Bytes
encode_confirmation c = c.response_type ∷ to_big_endian 8 c.effective_length

unfoldable pub decode_confirmation : Bytes → Confirmation
decode_confirmation bs = record {
  response_type = from_big_endian (take 1 bs);
  effective_length = from_big_endian (take 8 (drop 1 bs));
}

-- isr_response_t: the type and 254 bytes of text.
unfoldable pub response_from_error : Bytes → Bytes
response_from_error message =
    result_other_failure ∷ (take 253 (message ++ replicate 253 0) ++ 0 ∷ [])

unfoldable pub response_from_result : ℕ → Bytes
response_from_result result_type = result_type ∷ replicate 254 0

-- sizeof of the four structs.
abbrev pub send_header_size : ℕ
send_header_size = 15

abbrev pub recv_header_size : ℕ
recv_header_size = 7

abbrev pub confirmation_size : ℕ
confirmation_size = 9

abbrev pub response_size : ℕ
response_size = 255

module _ {N F : Type 0} (os : Os N F) where
  -- isr_transmit_send_command; `path` is a C string.
  unfoldable pub transmit_send_command : Bytes → ℕ → ℕ → ℕ → Io (World N F) Status
  transmit_send_command path flags uncompressed_block_size effective_length =
      let path_len : ℕ = length path % 2 ^ 16 in
      let header : SendHeader = record {
        flags = flags;
        path_length = path_len;
        uncompressed_block_size = uncompressed_block_size;
        effective_length = effective_length;
      } in
      send_exact os (command_send ∷ [])
      >>= unless_err err (
          send_exact os (encode_send_header header)
          >>= unless_err err (send_exact os (take path_len path)))

  -- isr_transmit_recv_command
  unfoldable pub transmit_recv_command : Bytes → ℕ → ℕ → Io (World N F) Status
  transmit_recv_command path flags uncompressed_block_size =
      let path_len : ℕ = length path % 2 ^ 16 in
      let header : RecvHeader = record {
        flags = flags;
        path_length = path_len;
        uncompressed_block_size = uncompressed_block_size;
      } in
      send_exact os (command_recv ∷ [])
      >>= unless_err err (
          send_exact os (encode_recv_header header)
          >>= unless_err err (send_exact os (take path_len path)))

  -- isr_transmit_send_response; `none` is a NULL `response_data`.
  unfoldable pub transmit_send_response : ℕ → Option Bytes → Io (World N F) Status
  transmit_send_response response_type none = send_exact os (response_from_result response_type)
  transmit_send_response response_type (some response_data) = send_exact os (
      if response_type == result_other_failure
      then response_from_error response_data
      else response_from_result response_type)

  -- isr_transmit_send_result
  unfoldable pub transmit_send_result : ℕ → Io (World N F) Status
  unfolding transmit_send_response
  transmit_send_result response_type = transmit_send_response response_type none

  -- isr_send_recv_confirmation
  unfoldable pub send_recv_confirmation : ℕ → ℕ → Io (World N F) Status
  send_recv_confirmation response_type effective_length = send_exact os (
      encode_confirmation
        (record { response_type = response_type; effective_length = effective_length }))
