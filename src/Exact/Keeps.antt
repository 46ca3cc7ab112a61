-- ===== src/Exact/Keeps.antt =====
-- The exact transfers touch the files by writes only.
use isr.Prelude.{ltb, ℕ, zero, suc, ◌-◌, Option, none, some, [], ◌∷◌, Bytes, length, drop}
use isr.Io.{fault, ◌>>=◌, Io, Os, World}
use isr.Io.Keeps.{KeptByTransfers, Keeps, Keeps-bind, Keeps-if}
use isr.Exact.{
  drain, drain_next, net_send, net_recv, write, recv_loop, recv_next, and_then, send_exact,
  recv_exact, write_all, into_next, into_loop, recv_into,
}

module _ {N F : Type 0} (os : Os N F) (I : F → Type 0) (kept : KeptByTransfers os.sys I) where
  drain-Keeps :
      (put : Bytes → Io (World N F) (Option ℕ))
      → ((bs : Bytes) → Keeps I (put bs))
      → (fuel : ℕ) (bs : Bytes) → Keeps I (drain put fuel bs)
  unfolding drain
  drain-Keeps put h fuel [] = λ w i. i
  drain-Keeps put h zero (b ∷ bs) = λ w i. tt
  drain-Keeps put h (suc fuel) (b ∷ bs) =
      Keeps-bind I (put (b ∷ bs)) (drain_next (drain put fuel) (b ∷ bs)) (h (b ∷ bs)) (elim [
        | none ↦ λ w i. i
        | some zero ↦ λ w i. i
        | some (suc k) ↦ drain-Keeps put h fuel (drop (suc k) (b ∷ bs))
      ])

  pub send_exact-Keeps : (bs : Bytes) → Keeps I (send_exact os bs)
  unfolding send_exact net_send
  send_exact-Keeps bs = drain-Keeps (net_send os) (λ b w i. i) (length bs) bs

  pub write_all-Keeps : (fd : ℕ) (bs : Bytes) → Keeps I (write_all os fd bs)
  unfolding write_all write
  write_all-Keeps fd bs =
      drain-Keeps (write os fd) (λ b w i. kept.write fd b w.sys i) (length bs) bs

  recv_loop-Keeps : (fuel n : ℕ) → Keeps I (recv_loop os fuel n)
  unfolding recv_loop net_recv
  recv_loop-Keeps fuel zero = λ w i. i
  recv_loop-Keeps zero (suc n) = λ w i. tt
  recv_loop-Keeps (suc fuel) (suc n) =
      Keeps-bind I (net_recv os (suc n)) (recv_next (recv_loop os fuel) (suc n)) (λ w i. i)
        (elim [
          | none ↦ λ w i. i
          | some [] ↦ λ w i. i
          | some (b ∷ bs) ↦
              Keeps-bind I (recv_loop os fuel (suc n - length (b ∷ bs))) (and_then (b ∷ bs))
                (recv_loop-Keeps fuel (suc n - length (b ∷ bs)))
                (elim [ none ↦ λ w i. i | some more ↦ λ w i. i ])
        ])

  into_loop-Keeps : (fuel capacity n : ℕ) → Keeps I (into_loop os fuel capacity n)
  unfolding into_loop net_recv
  into_loop-Keeps fuel capacity zero = λ w i. i
  into_loop-Keeps zero capacity (suc n) = λ w i. tt
  into_loop-Keeps (suc fuel) capacity (suc n) =
      Keeps-bind I (net_recv os (suc n)) (into_next os (into_loop os fuel) capacity (suc n))
        (λ w i. i)
        (elim [
          | none ↦ λ w i. i
          | some [] ↦ λ w i. i
          | some (b ∷ bs) ↦
              let k : ℕ = length (b ∷ bs) in
              Keeps-if I (ltb capacity k) (λ w. fault)
                (into_loop os fuel (capacity - k) (suc n - k) >>= and_then (b ∷ bs)) (λ w i. tt)
                (Keeps-bind I (into_loop os fuel (capacity - k) (suc n - k)) (and_then (b ∷ bs))
                  (into_loop-Keeps fuel (capacity - k) (suc n - k))
                  (elim [ none ↦ λ w i. i | some more ↦ λ w i. i ]))
        ])

  pub recv_into-Keeps : (capacity len : ℕ) → Keeps I (recv_into os capacity len)
  unfolding recv_into
  recv_into-Keeps capacity len = into_loop-Keeps len capacity len

  pub recv_exact-Keeps : (len : ℕ) → Keeps I (recv_exact os len)
  unfolding recv_exact
  recv_exact-Keeps len = recv_loop-Keeps len len
