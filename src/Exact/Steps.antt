-- ===== src/Exact/Steps.antt =====
-- One step of a proof about a function that sends, receives or stores and then goes on.
use isr.Prelude.{
  append-injective, length-append, arith, ap, sym, ◌∙◌, ℕ, ◌≤◌, ◌≡◌, Option, none, some, Bytes,
  ◌++◌, length,
}
use isr.Io.{ret, Io, ok, err, Os, World, ◌>>=◌, unless_err, or_fail}
use isr.Io.Post.{Post, Post-bind, Post-ret}
use isr.Exact.Laws.{StreamLaws, IsReliable, FileLaws, IsHealthy}
use isr.Exact.{send_exact, recv_exact, write_all}
use isr.Exact.Send.{
  Drained, sent, beside_sent, send_exact_lem, send_exact_ok, stored, beside_stored, write_all_lem,
  write_all_ok,
}
use isr.Exact.Recv.{waiting, beside_waiting, Took, Got, GotAll, recv_exact_lem, recv_exact_ok}

module _ {N F A : Type 0} (os : Os N F) (laws : StreamLaws os.net)
    (Q : A → World N F → Type 0) where
  -- After a send, whatever the connection does.
  pub after_send :
      (bs : Bytes) (failure : A) (rest : Io (World N F) A) (w : World N F)
      → ((t : World N F) → Drained (sent os laws) (beside_sent os laws) bs w ok t → Post Q (rest t))
      → ((t : World N F) → Drained (sent os laws) (beside_sent os laws) bs w err t → Q failure t)
      → Post Q ((send_exact os bs >>= unless_err failure rest) w)
  after_send bs failure rest w next fail =
      Post-bind (Drained (sent os laws) (beside_sent os laws) bs w) Q (send_exact os bs)
        (unless_err failure rest) w (send_exact_lem os laws bs w) (elim [ ok ↦ next | err ↦ fail ])

  pub after_recv :
      (len : ℕ) (failure : A) (rest : Bytes → Io (World N F) A) (w : World N F)
      → ((bs : Bytes) (t : World N F) → length bs ≡ len → Took os laws w bs t → Post Q (rest bs t))
      → ((t : World N F) → Got os laws len w none t → Q failure t)
      → Post Q ((recv_exact os len >>= or_fail failure rest) w)
  after_recv len failure rest w next fail =
      Post-bind (Got os laws len w) Q (recv_exact os len) (or_fail failure rest) w
        (recv_exact_lem os laws len w) (elim [ none ↦ fail | some bs ↦ λ t g. next bs t g.0 g.1 ])

  -- After a send on a reliable connection.
  pub after_send_ok :
      IsReliable laws
      → (bs : Bytes) (failure : A) (rest : Io (World N F) A) (w : World N F)
      → ((t : World N F) → Drained (sent os laws) (beside_sent os laws) bs w ok t → Post Q (rest t))
      → Post Q ((send_exact os bs >>= unless_err failure rest) w)
  after_send_ok reliable bs failure rest w next =
      Post-bind (λ r t. (r ≡ ok) × Drained (sent os laws) (beside_sent os laws) bs w ok t) Q
        (send_exact os bs) (unless_err failure rest) w (send_exact_ok os laws reliable bs w)
        (elim [ ok ↦ λ t h. next t h.1 | err ↦ λ t h. cc ])

  -- After a receive, where the stream holds what is asked for.
  pub after_recv_ok :
      IsReliable laws
      → (len : ℕ) (failure : A) (rest : Bytes → Io (World N F) A) (w : World N F)
      → len ≤ length (waiting os laws w)
      → ((bs : Bytes) (t : World N F) → length bs ≡ len → Took os laws w bs t → Post Q (rest bs t))
      → Post Q ((recv_exact os len >>= or_fail failure rest) w)
  after_recv_ok reliable len failure rest w le next =
      Post-bind (GotAll os laws reliable len w) Q (recv_exact os len) (or_fail failure rest) w
        (recv_exact_ok os laws reliable len w le)
        (elim [ none ↦ λ t h. absurd h | some bs ↦ λ t g. next bs t g.0 g.1 ])

  -- After a receive, where it is known what the stream begins with.
  pub after_recv_this :
      IsReliable laws
      → (xs more : Bytes) (len : ℕ) (failure : A) (rest : Bytes → Io (World N F) A) (w : World N F)
      → length xs ≡ len
      → waiting os laws w ≡ xs ++ more
      → ((t : World N F)
          → waiting os laws t ≡ more
          → beside_waiting os laws t ≡ beside_waiting os laws w
          → Post Q (rest xs t))
      → Post Q ((recv_exact os len >>= or_fail failure rest) w)
  after_recv_this reliable xs more len failure rest w size holds next =
      after_recv_ok reliable len failure rest w
        (omega (arith, ap length holds, length-append xs more))
        λ bs t got took.
          let (same, behind) =
            append-injective bs _ xs more (got ∙ sym size) (sym took.0 ∙ holds) in
          rw same (next t behind took.1)

module _ {N F A : Type 0} (os : Os N F) (laws : FileLaws os.sys) (Q : A → World N F → Type 0) where
  pub after_write :
      (fd : ℕ) (bs : Bytes) (failure : A) (rest : Io (World N F) A) (w : World N F)
      → ((t : World N F)
          → Drained (stored os laws fd) (beside_stored os laws fd) bs w ok t
          → Post Q (rest t))
      → ((t : World N F)
          → Drained (stored os laws fd) (beside_stored os laws fd) bs w err t
          → Q failure t)
      → Post Q ((write_all os fd bs >>= unless_err failure rest) w)
  after_write fd bs failure rest w next fail =
      Post-bind (Drained (stored os laws fd) (beside_stored os laws fd) bs w) Q (write_all os fd bs)
        (unless_err failure rest) w (write_all_lem os laws fd bs w)
        (elim [ ok ↦ next | err ↦ fail ])

  pub after_write_ok :
      IsHealthy os.sys
      → (fd : ℕ) (bs : Bytes) (failure : A) (rest : Io (World N F) A) (w : World N F)
      → ((t : World N F)
          → Drained (stored os laws fd) (beside_stored os laws fd) bs w ok t
          → Post Q (rest t))
      → Post Q ((write_all os fd bs >>= unless_err failure rest) w)
  after_write_ok healthy fd bs failure rest w next =
      Post-bind (λ r t. (r ≡ ok) × Drained (stored os laws fd) (beside_stored os laws fd) bs w ok t)
        Q (write_all os fd bs) (unless_err failure rest) w (write_all_ok os laws fd healthy bs w)
        (elim [ ok ↦ λ t h. next t h.1 | err ↦ λ t h. cc ])

module _ {N F : Type 0} (os : Os N F) (laws : StreamLaws os.net) where
  picked :
      (len : ℕ) (xs more : Bytes) (w : World N F) (reliable : IsReliable laws)
      → length xs ≡ len
      → waiting os laws w ≡ xs ++ more
      → (r : Option Bytes) (t : World N F) → GotAll os laws reliable len w r t
      → (r ≡ some xs)
        × (waiting os laws t ≡ more)
        × (beside_waiting os laws t ≡ beside_waiting os laws w)
  picked len xs more w reliable size holds none t g = absurd g
  picked len xs more w reliable size holds (some bs) t (got, (behind, beside)) =
      let (same, left) = append-injective bs _ xs more (got ∙ sym size) (sym behind ∙ holds) in
      (ap some same, left, beside)

  -- A receive as an equation, where it is known what the stream begins with.
  pub recv_this :
      IsReliable laws
      → (xs more : Bytes) (len : ℕ) (w : World N F) → length xs ≡ len
      → waiting os laws w ≡ xs ++ more
      → (t : World N F) × (recv_exact os len w ≡ ret (some xs) t)
        × (waiting os laws t ≡ more)
        × (beside_waiting os laws t ≡ beside_waiting os laws w)
  recv_this reliable xs more len w size holds =
      let (r, t, e, g) = Post-ret (GotAll os laws reliable len w) (recv_exact os len w) (
        recv_exact_ok os laws reliable len w
          (omega (arith, ap length holds, length-append xs more))) in
      let (same, left, beside) = picked len xs more w reliable size holds r t g in
      (t, e ∙ ap (λ x. ret x t) same, left, beside)
