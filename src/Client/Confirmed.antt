-- ===== src/Client/Confirmed.antt =====
-- The steps that begin a download: the request, the confirmation, and the go-ahead.
use isr.Prelude.{
  ℕ, ◌<◌, ◌^◌, ◌≡◌, ◌≢◌, refl, ap, ◌∙◌, true, none, some, [], ◌∷◌, ◌++◌, arith, Bytes, length, take,
}
use isr.Io.{pure, ◌>>=◌, ok, err, Os, World}
use isr.Io.Post.{Post, Post-bind}
use isr.Exact.{net_send, recv_exact}
use isr.Exact.Laws.{StreamLaws, IsReliable}
use isr.Exact.Send.{sent, net_send_ok}
use isr.Exact.Recv.{waiting}
use isr.Exact.Steps.{recv_this}
use isr.Wire.{recv_go, Confirmation, encode_confirmation, confirmation_size, transmit_recv_command}
use isr.Wire.Layout.{ConfirmationFits, decode-encode_confirmation, length-encode_confirmation}
use isr.Server.{unless_refused}
use isr.Server.Request.{recv_header, recv_request_bytes, transmit_recv_command_lem}
use isr.Client.{hang_up, confirmed, recv_connect, sent_status, send_go}

pub err-ne_ok : err ≢ ok
err-ne_ok e = cc

go-ne_nil : (recv_go ∷ []) ≢ []
go-ne_nil e = cc

module _ {N F : Type 0} (os : Os N F) (stream : StreamLaws os.net)
    (reliable : IsReliable stream) where
  abbrev pub GoneOn : World N F → World N F → Type 0
  GoneOn w t =
      (waiting os stream t ≡ waiting os stream w)
      × (sent os stream t ≡ sent os stream w ++ recv_go ∷ [])

  pub send_go_lem : (w : World N F) → Post (λ r t. (r ≡ ok) × GoneOn w t) (send_go os w)
  unfolding send_go
  send_go_lem w =
      Post-bind _ (λ r t. (r ≡ ok) × GoneOn w t) (net_send os (recv_go ∷ []))
        (λ r. pure (sent_status r)) w (net_send_ok os stream reliable (recv_go ∷ []) w go-ne_nil)
        (elim [
          | none ↦ λ t h. absurd (omega (arith, h.0))
          | some k ↦ λ t h.
              let one : k ≡ 1 = omega (arith, h.0, h.1.0) in
              (
                refl,
                (
                  ap (λ p. p.0) h.1.2,
                  h.1.1 ∙ ap (λ n. sent os stream w ++ take n (recv_go ∷ [])) one,
                ),
              )
        ])

  -- What a request for a download leaves: the stream goes on with `behind`, and the request was
  -- sent behind `before`.
  abbrev pub Asked : Bytes → Bytes → Bytes → World N F → Type 0
  Asked behind before request t =
      (waiting os stream t ≡ behind) × (sent os stream t ≡ before ++ request)

  -- The confirmation that the server sends is what the client reads, and the stream goes on
  -- behind it.
  pub recv_connect_lem :
      (conf : Confirmation) (behind : Bytes)
      → ConfirmationFits conf
      → (host port remote_path : Bytes) (flags block_size : ℕ) (w : World N F)
      → length remote_path < 2 ^ 16
      → (os.net.connect host port w.net).0 ≡ true
      → stream.incoming (os.net.connect host port w.net).1 ≡ encode_confirmation conf ++ behind
      → Post
          (λ r t.
            (r ≡ some conf)
            × Asked behind
                (stream.outgoing (os.net.connect host port w.net).1)
                (recv_request_bytes (recv_header remote_path flags block_size) remote_path)
                t)
          (recv_connect os host port remote_path flags block_size w)
  unfolding recv_connect
  recv_connect_lem conf behind fits host port remote_path flags block_size w short connected holds =
      let v : World N F = record w { net = (os.net.connect host port w.net).1 } in
      rw connected (
        Post-bind _
          (λ r t.
            (r ≡ some conf)
            × Asked behind (sent os stream v)
                (recv_request_bytes (recv_header remote_path flags block_size) remote_path) t)
          (transmit_recv_command os remote_path flags block_size)
          (unless_refused (hang_up os none) (recv_exact os confirmation_size >>= confirmed os)) v
          (transmit_recv_command_lem os stream reliable remote_path flags block_size v short)
          (elim [
            | err ↦ λ t h. absurd (err-ne_ok h.0)
            | ok ↦ λ t h.
                let (u, e, left, same) =
                  recv_this os stream reliable (encode_confirmation conf) behind confirmation_size t
                    (length-encode_confirmation conf) (ap (λ p. p.0) h.2 ∙ holds) in
                rw (e, ◌>>=◌)
                  (ap some (decode-encode_confirmation conf fits), (left, ap (λ p. p.0) same ∙ h.1))
          ]))
