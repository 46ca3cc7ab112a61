-- ===== src/Wire/Layout.antt =====
-- The sizes of the messages, and that each is read back as it was written.
use isr.Prelude.{
  ℕ, ◌+◌, ◌≤◌, ◌<◌, ◌^◌, ◌≡◌, refl, sym, ap, ◌∙◌, [], ◌∷◌, ◌++◌, arith, Bytes, length,
  length-append, length-take, length-replicate, take, drop, replicate, take_prefix, drop_prefix,
  drop-drop, append-nil, zero, suc,
}
use isr.Bytes.{to_big_endian, from_big_endian, from_big_endian_onto}
use isr.Bytes.BigEndian.{length-to_big_endian, from_to_big_endian}
use isr.CText.{c_string}
use isr.CText.Split.{Without}
use isr.Wire.{
  SendHeader, encode_send_header, decode_send_header, RecvHeader, encode_recv_header,
  decode_recv_header, Confirmation, encode_confirmation, decode_confirmation, response_from_error,
  response_from_result,
}

-- Every field fits its integer type.
pub record SendHeaderFits (h : SendHeader) : Type 0 where
  pub flags : h.flags < 2 ^ 8
  pub path_length : h.path_length < 2 ^ 16
  pub uncompressed_block_size : h.uncompressed_block_size < 2 ^ 32
  pub effective_length : h.effective_length < 2 ^ 64

pub length-encode_send_header : (h : SendHeader) → length (encode_send_header h) ≡ 15
unfolding encode_send_header
length-encode_send_header h = omega (
  arith,
  length-append (to_big_endian 2 h.path_length)
      (to_big_endian 4 h.uncompressed_block_size ++ to_big_endian 8 h.effective_length),
  length-append (to_big_endian 4 h.uncompressed_block_size) (to_big_endian 8 h.effective_length),
  length-to_big_endian 2 h.path_length,
  length-to_big_endian 4 h.uncompressed_block_size,
  length-to_big_endian 8 h.effective_length,
)

-- The field that stands in front is read back from the bytes that were written for it.
pub field :
    (n v : ℕ) (rest : Bytes)
    → v < 256 ^ n
    → from_big_endian (take n (to_big_endian n v ++ rest)) ≡ v
field n v rest h =
    rw (take_prefix n (to_big_endian n v) rest (length-to_big_endian n v))
      (from_to_big_endian n v h)

pub skip : (n v : ℕ) (rest : Bytes) → drop n (to_big_endian n v ++ rest) ≡ rest
skip n v rest = drop_prefix n (to_big_endian n v) rest (length-to_big_endian n v)

pub first : (b : ℕ) (rest : Bytes) → from_big_endian (take 1 (b ∷ rest)) ≡ b
unfolding from_big_endian_onto
first b rest = omega arith

pub skip_two :
    (m n v u : ℕ) (rest : Bytes)
    → drop (m + n) (to_big_endian m v ++ (to_big_endian n u ++ rest)) ≡ rest
skip_two m n v u rest =
    sym (drop-drop m n (to_big_endian m v ++ (to_big_endian n u ++ rest)))
    ∙ ap (drop n) (skip m v (to_big_endian n u ++ rest))
    ∙ skip n u rest

-- The last field of a message.
pub last : (n v : ℕ) → v < 256 ^ n → from_big_endian (take n (to_big_endian n v)) ≡ v
last n v h =
    ap (λ t. from_big_endian (take n t)) (sym (append-nil (to_big_endian n v))) ∙ field n v [] h

-- The server reads the send header that the client built, field by field, where every field fits
-- its integer type.
pub decode-encode_send_header :
    (h : SendHeader) → SendHeaderFits h → decode_send_header (encode_send_header h) ≡ h
unfolding encode_send_header decode_send_header
decode-encode_send_header h f = λ i. record {
  flags = first h.flags (p ++ (u ++ e)) i;
  path_length = field 2 h.path_length (u ++ e) f.path_length i;
  uncompressed_block_size =
      (ap (λ t. from_big_endian (take 4 t)) (skip 2 h.path_length (u ++ e))
          ∙ field 4 h.uncompressed_block_size e f.uncompressed_block_size)
        i;
  effective_length =
      (ap (λ t. from_big_endian (take 8 t)) (skip_two 2 4 h.path_length h.uncompressed_block_size e)
          ∙ last 8 h.effective_length f.effective_length)
        i;
}
  where
    p : Bytes
    p = to_big_endian 2 h.path_length

    u : Bytes
    u = to_big_endian 4 h.uncompressed_block_size

    e : Bytes
    e = to_big_endian 8 h.effective_length

pub record RecvHeaderFits (h : RecvHeader) : Type 0 where
  pub flags : h.flags < 2 ^ 8
  pub path_length : h.path_length < 2 ^ 16
  pub uncompressed_block_size : h.uncompressed_block_size < 2 ^ 32

pub length-encode_recv_header : (h : RecvHeader) → length (encode_recv_header h) ≡ 7
unfolding encode_recv_header
length-encode_recv_header h = omega (
  arith,
  length-append (to_big_endian 2 h.path_length) (to_big_endian 4 h.uncompressed_block_size),
  length-to_big_endian 2 h.path_length,
  length-to_big_endian 4 h.uncompressed_block_size,
)

-- The server reads the receive header that the client built, field by field, where every field
-- fits its integer type.
pub decode-encode_recv_header :
    (h : RecvHeader) → RecvHeaderFits h → decode_recv_header (encode_recv_header h) ≡ h
unfolding encode_recv_header decode_recv_header
decode-encode_recv_header h f = λ i. record {
  flags =
      first h.flags (to_big_endian 2 h.path_length ++ to_big_endian 4 h.uncompressed_block_size) i;
  path_length = field 2 h.path_length (to_big_endian 4 h.uncompressed_block_size) f.path_length i;
  uncompressed_block_size =
      (ap (λ t. from_big_endian (take 4 t))
            (skip 2 h.path_length (to_big_endian 4 h.uncompressed_block_size))
          ∙ last 4 h.uncompressed_block_size f.uncompressed_block_size)
        i;
}

pub record ConfirmationFits (c : Confirmation) : Type 0 where
  pub response_type : c.response_type < 2 ^ 8
  pub effective_length : c.effective_length < 2 ^ 64

pub length-encode_confirmation : (c : Confirmation) → length (encode_confirmation c) ≡ 9
unfolding encode_confirmation
length-encode_confirmation c = omega (arith, length-to_big_endian 8 c.effective_length)

-- The confirmation that the server sends is read back, where both fields fit their types.
pub decode-encode_confirmation :
    (c : Confirmation) → ConfirmationFits c → decode_confirmation (encode_confirmation c) ≡ c
unfolding encode_confirmation decode_confirmation
decode-encode_confirmation c f = λ i. record {
  response_type = first c.response_type (to_big_endian 8 c.effective_length) i;
  effective_length = last 8 c.effective_length f.effective_length i;
}

pub length-response_from_error : (message : Bytes) → length (response_from_error message) ≡ 255
unfolding response_from_error
length-response_from_error message = omega (
  arith,
  length-append (take 253 (message ++ replicate 253 0)) (0 ∷ []),
  length-take 253 (message ++ replicate 253 0),
  length-append message (replicate 253 0),
  length-replicate {A = ℕ} 253 0,
)

pub length-response_from_result :
    (result_type : ℕ) → length (response_from_result result_type) ≡ 255
unfolding response_from_result
length-response_from_result result_type = omega arith

c_string-padded :
    (n k : ℕ) (s : Bytes)
    → Without 0 s
    → n ≤ k
    → c_string (take n (s ++ replicate k 0) ++ 0 ∷ []) ≡ take n s
unfolding c_string
c_string-padded zero k s h le = refl
c_string-padded (suc n) zero s h le = absurd (omega arith)
c_string-padded (suc n) (suc k) [] h le = refl
c_string-padded (suc n) (suc k) (c ∷ s) (h, hs) le =
    ground (arith, c_string-padded n (suc k) s hs (omega arith))

-- The text that the client prints for a failure is the server's message, cut to 253 bytes. The
-- message is a C string.
pub response_text :
    (message : Bytes)
    → Without 0 message
    → c_string (drop 1 (response_from_error message)) ≡ take 253 message
unfolding response_from_error
response_text message h = c_string-padded 253 253 message h (omega arith)
