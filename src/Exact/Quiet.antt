-- ===== src/Exact/Quiet.antt =====
-- What a transfer leaves alone: a receive what was sent, a send what is still to be received.
use isr.Prelude.{zero, suc, ◌-◌, ltb, [], ◌∷◌, length, ℕ, refl, ap, none, some, Bytes}
use isr.Io.{fault, ◌>>=◌, ok, err, Io, Os, World}
use isr.Io.Fixes.{Fixes-bind, Fixes-if, Fixes, FixedAfter-Post}
use isr.Exact.{
  net_recv, chunk, and_then, into_next, into_loop, recv_into, net_send, send_exact, recv_exact,
  write_all,
}
use isr.Exact.Laws.{StreamLaws, FileLaws}
use isr.Exact.Send.{
  Drained, sent, beside_sent, send_exact_lem, stored, beside_stored, write_all_lem,
}
use isr.Exact.Recv.{Got, waiting, recv_exact_lem}

module _ {N F : Type 0} (os : Os N F) (stream : StreamLaws os.net) where
  -- Nothing is sent, and nothing is taken off the incoming stream.
  abbrev pub Quiet : {A : Type 0} → Io (World N F) A → Type 0
  Quiet = Fixes (sent os stream)

  abbrev pub Untaken : {A : Type 0} → Io (World N F) A → Type 0
  Untaken = Fixes (waiting os stream)

  -- The files are left alone.
  abbrev pub Netted : {A : Type 0} → Io (World N F) A → Type 0
  Netted = Fixes (λ w. w.sys)

  pub net_send-Netted : (bs : Bytes) → Netted (net_send os bs)
  unfolding net_send
  net_send-Netted bs w = refl

  pub recv_exact-Netted : (n : ℕ) → Netted (recv_exact os n)
  recv_exact-Netted n w =
      FixedAfter-Post (λ u. u.sys) (Got os stream n w) w (recv_exact os n w)
        (elim [ none ↦ λ t g. ap (λ p. p.1) g.2.1 | some bs ↦ λ t g. ap (λ p. p.1) g.1.1 ])
        (recv_exact_lem os stream n w)

  pub send_exact-Netted : (bs : Bytes) → Netted (send_exact os bs)
  send_exact-Netted bs w =
      FixedAfter-Post (λ u. u.sys) (Drained (sent os stream) (beside_sent os stream) bs w) w
        (send_exact os bs w)
        (elim [ ok ↦ λ t d. ap (λ p. p.1) d.1 | err ↦ λ t d. ap (λ p. p.1) d.3 ])
        (send_exact_lem os stream bs w)

  pub recv_exact-Quiet : (n : ℕ) → Quiet (recv_exact os n)
  recv_exact-Quiet n w =
      FixedAfter-Post (sent os stream) (Got os stream n w) w (recv_exact os n w)
        (elim [ none ↦ λ t g. ap (λ p. p.0) g.2.1 | some bs ↦ λ t g. ap (λ p. p.0) g.1.1 ])
        (recv_exact_lem os stream n w)

  into_loop-Quiet : (fuel capacity n : ℕ) → Quiet (into_loop os fuel capacity n)
  unfolding into_loop net_recv
  into_loop-Quiet fuel capacity zero = λ w. refl
  into_loop-Quiet zero capacity (suc n) = λ w. tt
  into_loop-Quiet (suc fuel) capacity (suc n) =
      Fixes-bind (sent os stream) (net_recv os (suc n))
        (into_next os (into_loop os fuel) capacity (suc n))
        (λ w. stream.outgoing-recv (chunk (suc n)) w.net)
        (elim [
          | none ↦ λ w. refl
          | some [] ↦ λ w. refl
          | some (b ∷ bs) ↦
              let k : ℕ = length (b ∷ bs) in
              Fixes-if (sent os stream) (ltb capacity k) (λ w. fault)
                (into_loop os fuel (capacity - k) (suc n - k) >>= and_then (b ∷ bs)) (λ w. tt)
                (Fixes-bind (sent os stream) (into_loop os fuel (capacity - k) (suc n - k))
                  (and_then (b ∷ bs)) (into_loop-Quiet fuel (capacity - k) (suc n - k))
                  (elim [ none ↦ λ w. refl | some more ↦ λ w. refl ]))
        ])

  pub recv_into-Quiet : (capacity len : ℕ) → Quiet (recv_into os capacity len)
  unfolding recv_into
  recv_into-Quiet capacity len = into_loop-Quiet len capacity len

  pub send_exact-Untaken : (bs : Bytes) → Untaken (send_exact os bs)
  send_exact-Untaken bs w =
      FixedAfter-Post (waiting os stream) (Drained (sent os stream) (beside_sent os stream) bs w) w
        (send_exact os bs w)
        (elim [ ok ↦ λ t d. ap (λ p. p.0) d.1 | err ↦ λ t d. ap (λ p. p.0) d.3 ])
        (send_exact_lem os stream bs w)

  pub write_all-Quiet : FileLaws os.sys → (fd : ℕ) (bs : Bytes) → Quiet (write_all os fd bs)
  write_all-Quiet files fd bs w =
      FixedAfter-Post (sent os stream)
        (Drained (stored os files fd) (beside_stored os files fd) bs w) w (write_all os fd bs w)
        (elim [ ok ↦ λ t d. ap stream.outgoing d.1 | err ↦ λ t d. ap stream.outgoing d.3 ])
        (write_all_lem os files fd bs w)
