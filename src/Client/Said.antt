-- ===== src/Client/Said.antt =====
-- What the client says in a download: the request and the go-ahead, and nothing else.
use isr.Prelude.{
  none-ne_some, some-injective, ℕ, ◌<◌, ◌^◌, ◌≡◌, ap, ◌∙◌, true, false, Option, none, some, [], ◌∷◌,
  ◌++◌, append_assoc, arith, Bytes, length,
}
use isr.Io.{pure, ◌>>=◌, Status, ok, err, Os, World}
use isr.Io.Post.{Post, Post-bind, Post-mono}
use isr.Exact.Laws.{StreamLaws, IsReliable, FileLaws}
use isr.Exact.Send.{sent}
use isr.Transfer.{receive_file_uncompressed}
use isr.Transfer.Quiet.{receive_file_uncompressed-Quiet}
use isr.Transfer.Verdict.{Received, receive_file_uncompressed_lem}
use isr.Io.Fixes.{Post-FixedAfter}
use isr.Paths.{parent_dir}
use isr.Wire.{
  path_max, recv_go, recv_type_file, flag_use_compression, Confirmation, encode_confirmation,
}
use isr.Server.{has_flag, make_parent, or_refused}
use isr.Server.Parent.{make_parent-net}
use isr.Server.Request.{recv_header, recv_request_bytes}
use isr.Client.{
  as_int, hang_up, recv_connect, send_go, receive_file_data, download_into, download_confirmed,
  download_file,
}
use isr.Client.Confirmed.{err-ne_ok, send_go_lem, recv_connect_lem}

-- What the client sends for a download.
abbrev pub download_request : Bytes → ℕ → ℕ → Bytes
download_request remote_path flags block_size =
    recv_request_bytes (recv_header remote_path flags block_size) remote_path ++ recv_go ∷ []

module _ {N F : Type 0} (os : Os N F) (stream : StreamLaws os.net) (reliable : IsReliable stream)
    (files : FileLaws os.sys)
    (closed : (n : N) → stream.outgoing (os.net.close n) ≡ stream.outgoing n) (local_path : Bytes)
    (flags block_size : ℕ) (plain : has_flag flags flag_use_compression ≡ false) (n : ℕ)
    (fits : n < 2 ^ 64) where
  abbrev HasSaid : Bytes → {A : Type 0} → A → World N F → Type 0
  HasSaid said r t = sent os stream t ≡ said

  into-says :
      (rounds fd : ℕ) (w : World N F)
      → Post (HasSaid (sent os stream w)) (download_into os rounds flags block_size n fd w)
  unfolding receive_file_data
  into-says rounds fd w = rw plain (
      Post-bind (HasSaid (sent os stream w)) (HasSaid (sent os stream w))
        (receive_file_uncompressed os fd n >>= λ result. pure (as_int result)) _ w
        (Post-bind _ (HasSaid (sent os stream w)) (receive_file_uncompressed os fd n)
          (λ result. pure (as_int result)) w
          (Post-FixedAfter (sent os stream) (Received os stream files fd n w) w
            (receive_file_uncompressed os fd n w)
            (receive_file_uncompressed_lem os stream files fd n w)
            (receive_file_uncompressed-Quiet os stream files fd n w))
          (λ result t h. h.1))
        (λ result t h. closed t.net ∙ h))

  opened-says :
      (rounds : ℕ) (r : Option ℕ) (w : World N F)
      → Post
          (HasSaid (sent os stream w))
          (or_refused (hang_up os err) (download_into os rounds flags block_size n) r w)
  opened-says rounds none w = closed w.net
  opened-says rounds (some fd) w = into-says rounds fd w

  abbrev announced : Confirmation
  announced = record { response_type = recv_type_file; effective_length = n }

  agreed-says :
      (rounds : ℕ) (w : World N F)
      → Post
          (HasSaid (sent os stream w ++ recv_go ∷ []))
          (download_confirmed os rounds local_path flags block_size announced w)
  agreed-says rounds w =
      let Q : Status → World N F → Type 0 = HasSaid (sent os stream w ++ recv_go ∷ []) in
      Post-bind _ Q (send_go os) _ w (send_go_lem os stream reliable w) (elim [
        | err ↦ λ t h. absurd (err-ne_ok h.0)
        | ok ↦ λ t h.
            Post-bind (λ r u. u.net ≡ t.net) Q (make_parent os (parent_dir path_max local_path)) _ t
              (make_parent-net os (parent_dir path_max local_path) t)
              λ r u same.
                let v : World N F = record u { sys = (os.sys.open_write local_path u.sys).1 } in
                Post-mono (HasSaid (sent os stream v)) Q
                  (or_refused (hang_up os err) (download_into os rounds flags block_size n)
                    (os.sys.open_write local_path u.sys).0 v)
                  (λ q x k. k ∙ ap stream.outgoing same ∙ h.1.1)
                  (opened-says rounds (os.sys.open_write local_path u.sys).0 v)
      ])

  -- Where the server offers a file, the client has sent the request and the go-ahead.
  pub download_file-says :
      (rounds : ℕ) (host port remote_path behind : Bytes) (w : World N F)
      → length remote_path < 2 ^ 16
      → (os.net.connect host port w.net).0 ≡ true
      → stream.incoming (os.net.connect host port w.net).1 ≡ encode_confirmation announced ++ behind
      → Post
          (HasSaid (
            stream.outgoing (os.net.connect host port w.net).1
            ++ download_request remote_path flags block_size))
          (download_file os rounds host port remote_path local_path flags block_size w)
  unfolding download_file
  download_file-says rounds host port remote_path behind w short connected holds =
      let before : Bytes = stream.outgoing (os.net.connect host port w.net).1 in
      let request : Bytes =
        recv_request_bytes (recv_header remote_path flags block_size) remote_path in
      let Q : Status → World N F → Type 0 =
        HasSaid (before ++ download_request remote_path flags block_size) in
      Post-bind _ Q (recv_connect os host port remote_path flags block_size) _ w
        (recv_connect_lem os stream reliable announced behind
          (record { response_type = omega arith; effective_length = fits }) host port remote_path
          flags block_size w short connected holds)
        (elim [
          | none ↦ λ t h. absurd (none-ne_some announced h.0)
          | some conf ↦ λ t h. rw (some-injective h.0) (
              Post-mono (HasSaid (sent os stream t ++ recv_go ∷ [])) Q
                (download_confirmed os rounds local_path flags block_size announced t)
                (λ q x k. k ∙ ap (λ b. b ++ recv_go ∷ []) h.1.1 ∙ append_assoc before request _)
                (agreed-says rounds t))
        ])
