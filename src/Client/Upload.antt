-- ===== src/Client/Upload.antt =====
-- An upload sends the file.
pub mod Packed
use isr.Prelude.{
  ℕ, ◌≤◌, ◌<◌, ◌^◌, ◌≡◌, refl, ap, ◌∙◌, true, false, ◌==◌, some, ◌++◌, append_assoc, arith, Bytes,
  IsByte, All, length, take,
}
use isr.Bytes.{count_byte_values, from_big_endian, from_big_endian_onto}
use isr.Bytes.Checksum.{count_byte_values_exact}
use isr.Io.{◌>>=◌, Status, ok, err, Stat, Os, World}
use isr.Io.Post.{Post, Post-mono, Post-bind, Post-and}
use isr.Io.Fixes.{Post-FixedAfter}
use isr.Exact.Laws.{StreamLaws, IsReliable, FileLaws, IsHealthy}
use isr.Exact.Send.{sent}
use isr.Exact.Recv.{waiting}
use isr.Exact.Steps.{recv_this}
use isr.Transfer.{minus_one, transmit_file_uncompressed}
use isr.Transfer.Plain.{plain_stream, transmit_file_uncompressed_lem}
use isr.Transfer.Quiet.{transmit_file_uncompressed-Untaken}
use isr.Wire.{
  result_ok, result_other_failure, flag_use_compression, response_size, response_from_result,
  transmit_send_command,
}
use isr.Wire.Layout.{length-response_from_result}
use isr.Server.{has_flag}
use isr.Server.Request.{send_header, send_request_bytes, transmit_send_command_lem}
use isr.Server.Download.{ReadsAs}
use isr.Client.{result_status, upload_data, upload_answered, upload_opened, send_file}
use isr.Client.Confirmed.{err-ne_ok}

-- The first byte of a response is its type.
response_type_lem : (type : ℕ) → from_big_endian (take 1 (response_from_result type)) ≡ type
unfolding response_from_result from_big_endian_onto
response_type_lem type = omega arith

status_ok : result_status (response_from_result result_ok) ≡ ok
unfolding response_from_result from_big_endian_onto
status_ok = refl

-- What the client sends for an upload.
abbrev pub upload_stream : Bytes → ℕ → ℕ → Bytes → Bytes
upload_stream remote_path flags block_size content =
    send_request_bytes (send_header remote_path flags block_size (length content)) remote_path
    ++ plain_stream content (count_byte_values content)

module _ {N F : Type 0} (os : Os N F) (stream : StreamLaws os.net) (reliable : IsReliable stream)
    (files : FileLaws os.sys)
    (closed : (n : N) → stream.outgoing (os.net.close n) ≡ stream.outgoing n) (local_path : Bytes)
    (fd : ℕ) (content : Bytes) (reading : ReadsAs files local_path fd content)
    (bytes : All IsByte content) (small : length content ≤ 2 ^ 55) (flags block_size : ℕ) (resp : ℕ)
    (going : resp < 255) (rest : Bytes) where
  -- The data in a form that the flags choose.
  abbrev pub SentBody : (Bytes → Type 0) → World N F → ℕ → World N F → Type 0
  SentBody Form u r t =
      (r ≡ count_byte_values content)
      × (waiting os stream t ≡ waiting os stream u)
      × (body : Bytes) × Form body
      × (sent os stream t ≡ sent os stream u ++ body)

  -- Success, and what was sent behind `before`, with the data in its form.
  abbrev pub SentForm : (Bytes → Type 0) → Bytes → Status → World N F → Type 0
  SentForm Form before r t =
      (r ≡ ok) × (body : Bytes) × Form body × (sent os stream t ≡ before ++ body)

  module _ (rounds : ℕ) (Form : Bytes → Type 0)
      (transmits : (u : World N F)
        → files.unread fd u.sys ≡ content
        → Post (SentBody Form u) (upload_data os rounds fd flags block_size u)) where
    answered :
        (u : World N F)
        → files.unread fd u.sys ≡ content
        → waiting os stream u ≡ response_from_result result_ok ++ rest
        → Post
            (SentForm Form (sent os stream u))
            (upload_answered os rounds fd flags block_size (response_from_result resp) u)
    answered u here holds =
        let first : (from_big_endian (take 1 (response_from_result resp)) == result_other_failure)
            ≡ false =
          ground (arith, response_type_lem resp) in
        rw first (
          Post-bind (SentBody Form u) (SentForm Form (sent os stream u))
            (upload_data os rounds fd flags block_size) _ u (transmits u here)
            λ result v (same, untaken, body, form, out).
              let second : (result == minus_one) ≡ false =
                ground (arith, same, (count_byte_values_exact content bytes small).1) in
              let (x, e, left, beside) =
                recv_this os stream reliable (response_from_result result_ok) rest response_size v
                  (length-response_from_result result_ok) (untaken ∙ holds) in
              rw (second, e, ◌>>=◌)
                (status_ok, body, form, closed x.net ∙ ap (λ p. p.0) beside ∙ out))

    opened :
        (host port remote_path : Bytes) (w : World N F)
        → length remote_path < 2 ^ 16
        → files.unread fd w.sys ≡ content
        → (os.net.connect host port w.net).0 ≡ true
        → stream.incoming (os.net.connect host port w.net).1
          ≡ response_from_result resp ++ (response_from_result result_ok ++ rest)
        → Post
            (SentForm Form (
              stream.outgoing (os.net.connect host port w.net).1
              ++ send_request_bytes
                  (send_header remote_path flags block_size (length content))
                  remote_path))
            (upload_opened os rounds host port remote_path flags block_size (length content) fd w)
    opened host port remote_path w short here connected holds =
        let v : World N F = record w { net = (os.net.connect host port w.net).1 } in
        let request : Bytes =
          send_request_bytes (send_header remote_path flags block_size (length content))
            remote_path in
        let Q : Status → World N F → Type 0 = SentForm Form (sent os stream v ++ request) in
        rw connected (
          Post-bind _ Q (transmit_send_command os remote_path flags block_size (length content)) _ v
            (transmit_send_command_lem os stream reliable remote_path flags block_size
              (length content) v short)
            (elim [
              | err ↦ λ t h. absurd (err-ne_ok h.0)
              | ok ↦ λ t (r, out, beside).
                  let (u, e, left, same) =
                    recv_this os stream reliable (response_from_result resp)
                      (response_from_result result_ok ++ rest) response_size t
                      (length-response_from_result resp) (ap (λ p. p.0) beside ∙ holds) in
                  rw (e, ◌>>=◌)
                    (Post-mono (SentForm Form (sent os stream u)) Q
                      (upload_answered os rounds fd flags block_size (response_from_result resp) u)
                      (λ q x (success, body, form, h).
                        (success, body, form, h ∙ ap (λ b. b ++ body) (ap (λ p. p.0) same ∙ out)))
                      (answered u
                        (ap (λ p. files.unread fd p.1) same
                          ∙ ap (λ p. files.unread fd p.1) beside
                          ∙ here)
                        left))
            ]))

    pub sends :
        (host port remote_path : Bytes) (st : Stat) (w : World N F)
        → length remote_path < 2 ^ 16
        → os.sys.stat local_path w.sys ≡ some st
        → st.size ≡ length content
        → (os.net.connect host port w.net).0 ≡ true
        → stream.incoming (os.net.connect host port w.net).1
          ≡ response_from_result resp ++ (response_from_result result_ok ++ rest)
        → Post
            (SentForm Form (
              stream.outgoing (os.net.connect host port w.net).1
              ++ send_request_bytes
                  (send_header remote_path flags block_size (length content))
                  remote_path))
            (send_file os rounds host port remote_path local_path flags block_size w)
    unfolding send_file
    sends host port remote_path st w short found size connected holds =
        rw (found, reading.opens w.sys, size)
          (opened host port remote_path (record w { sys = (os.sys.open_read local_path w.sys).1 })
            short (reading.holds w.sys) connected holds)

  module _ (healthy : IsHealthy os.sys) (plain : has_flag flags flag_use_compression ≡ false) where
    abbrev pub SentAfter : Bytes → Bytes → Status → World N F → Type 0
    SentAfter before out r t = (r ≡ ok) × (sent os stream t ≡ before ++ out)

    abbrev IsPlain : Bytes → Type 0
    IsPlain body = body ≡ plain_stream content (count_byte_values content)

    transmits-IsPlain :
        (rounds : ℕ) (u : World N F)
        → length content < rounds
        → files.unread fd u.sys ≡ content
        → Post (SentBody IsPlain u) (upload_data os rounds fd flags block_size u)
    transmits-IsPlain rounds u enough here =
        let sum : ℕ = count_byte_values content in
        rw plain (
          Post-mono _ (SentBody IsPlain u) (transmit_file_uncompressed os rounds fd u)
            (λ result v h.
              let same : result ≡ sum = h.0.0 ∙ ap count_byte_values here in
              (
                same,
                h.1,
                plain_stream content sum,
                refl,
                h.0.1
                    ∙ ap (λ c. sent os stream u ++ plain_stream c result) here
                    ∙ ap (λ n. sent os stream u ++ plain_stream content n) same,
              ))
            (Post-FixedAfter (waiting os stream) _ u (transmit_file_uncompressed os rounds fd u)
              (transmit_file_uncompressed_lem os stream reliable files healthy fd rounds u
                (omega (arith, ap length here)))
              (transmit_file_uncompressed-Untaken os stream rounds fd u)))

    -- An upload without compression of a file that can be opened, to a server that can be reached
    -- and answers that it goes on and then that the transfer is right, returns 0 and has sent the
    -- request, the file's content and its checksum. The connection is reliable, the disk healthy,
    -- and closing a connection leaves alone what was sent. `stat` gives the content's length, the
    -- function may make one read more than the file has bytes, the remote path is shorter than
    -- 2 ^ 16 bytes, and the content has at most 2 ^ 55 bytes, each below 256.
    pub send_file_lem :
        (rounds : ℕ) (host port remote_path : Bytes) (st : Stat) (w : World N F)
        → length content < rounds
        → length remote_path < 2 ^ 16
        → os.sys.stat local_path w.sys ≡ some st
        → st.size ≡ length content
        → (os.net.connect host port w.net).0 ≡ true
        → stream.incoming (os.net.connect host port w.net).1
          ≡ response_from_result resp ++ (response_from_result result_ok ++ rest)
        → Post
            (SentAfter
              (stream.outgoing (os.net.connect host port w.net).1)
              (upload_stream remote_path flags block_size content))
            (send_file os rounds host port remote_path local_path flags block_size w)
    send_file_lem rounds host port remote_path st w enough short found size connected holds =
        let before : Bytes = stream.outgoing (os.net.connect host port w.net).1 in
        let request : Bytes =
          send_request_bytes (send_header remote_path flags block_size (length content))
            remote_path in
        Post-mono (SentForm IsPlain (before ++ request))
          (SentAfter before (upload_stream remote_path flags block_size content))
          (send_file os rounds host port remote_path local_path flags block_size w)
          (λ r t (success, body, form, h).
            (success, h ∙ ap (λ b. (before ++ request) ++ b) form ∙ append_assoc before request _))
          (sends rounds IsPlain (λ u. transmits-IsPlain rounds u enough) host port remote_path st w
            short found size connected holds)
