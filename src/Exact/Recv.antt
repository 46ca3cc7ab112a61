-- ===== src/Exact/Recv.antt =====
-- `net_recv_exact` takes exactly the bytes asked for off the incoming stream, however the calls
-- below cut it.
use isr.Prelude.{
  ℕ, zero, suc, ◌+◌, ◌-◌, ◌≤◌, ◌<◌, ◌≡◌, refl, sym, ap, ◌∙◌, Option, none, some, [], ◌∷◌, ◌++◌,
  append_assoc, arith, Bytes, length, length-append,
}
use isr.Io.{Io, Os, World}
use isr.Io.Post.{Post, Post-bind, Post-and}
use isr.Exact.Laws.{StreamLaws, IsReliable, received}
use isr.Exact.{recv_next, and_then, recv_loop, net_recv, recv_exact, chunk}

module _ {N F : Type 0} (os : Os N F) (laws : StreamLaws os.net) where
  abbrev pub waiting : World N F → Bytes
  waiting w = laws.incoming w.net

  -- What receiving leaves alone.
  abbrev pub beside_waiting : World N F → Bytes × F
  beside_waiting w = (laws.outgoing w.net, w.sys)

  -- The stream gave `bs`, and nothing else changed.
  abbrev pub Took : World N F → Bytes → World N F → Type 0
  Took w bs t = (waiting w ≡ bs ++ waiting t) × (beside_waiting t ≡ beside_waiting w)

  abbrev pub Got : ℕ → World N F → Option Bytes → World N F → Type 0
  Got n w none t = (gone : Bytes) × (length gone < n) × Took w gone t
  Got n w (some bs) t = (length bs ≡ n) × Took w bs t

  abbrev pub One : ℕ → World N F → Option Bytes → World N F → Type 0
  One n w r t = (length (received r) ≤ n) × Took w (received r) t

  Took-append :
      (w t u : World N F) (xs ys : Bytes) → Took w xs t → Took t ys u → Took w (xs ++ ys) u
  Took-append w t u xs ys (e, f) (e', f') =
      (e ∙ ap (λ x. xs ++ x) e' ∙ sym (append_assoc xs ys (waiting u)), f' ∙ f)

  chunk-le : (n : ℕ) → chunk n ≤ n
  chunk-le n = ground arith

  pub net_recv-One : (n : ℕ) (w : World N F) → Post (One n w) (net_recv os n w)
  unfolding net_recv
  net_recv-One n w = (
    omega (arith, laws.recv-length (chunk n) w.net, chunk-le n),
    (laws.incoming-recv (chunk n) w.net, λ i. (laws.outgoing-recv (chunk n) w.net i, w.sys)),
  )

  Got-more :
      (n : ℕ) (w t : World N F) (bs : Bytes)
      → One n w (some bs) t
      → 0 < length bs
      → (r : Option Bytes) (u : World N F) → Got (n - length bs) t r u
      → Post (Got n w) (and_then bs r u)
  Got-more n w t bs (le, took) lt none u (gone, fewer, rest) =
      (bs ++ gone, omega (arith, length-append bs gone), Took-append w t u bs gone took rest)
  Got-more n w t bs (le, took) lt (some more) u (all, rest) =
      (omega (arith, length-append bs more), Took-append w t u bs more took rest)

  next :
      (again : ℕ → Io (World N F) (Option Bytes)) (n : ℕ) (w : World N F)
      → 0 < n
      → ((m : ℕ) (t : World N F) → m < n → Post (Got m t) (again m t))
      → (r : Option Bytes) (t : World N F) → One n w r t
      → Post (Got n w) (recv_next again n r t)
  next again n w lt rest none t p = ([], lt, p.1)
  next again n w lt rest (some []) t p = ([], lt, p.1)
  next again n w lt rest (some (b ∷ bs)) t p =
      let m : ℕ = n - length (b ∷ bs) in
      Post-bind (Got m t) (Got n w) (again m) (and_then (b ∷ bs)) t (rest m t (omega arith))
        (Got-more n w t (b ∷ bs) p (omega arith))

  recv_loop_lem : (fuel n : ℕ) (w : World N F) → n ≤ fuel → Post (Got n w) (recv_loop os fuel n w)
  unfolding recv_loop
  recv_loop_lem fuel zero w h = (refl, (refl, refl))
  recv_loop_lem zero (suc n) w h = absurd (omega arith)
  recv_loop_lem (suc fuel) (suc n) w h =
      Post-bind (One (suc n) w) (Got (suc n) w) (net_recv os (suc n))
        (recv_next (recv_loop os fuel) (suc n)) w (net_recv-One (suc n) w)
        (next (recv_loop os fuel) (suc n) w (omega arith)
          λ m t lt. recv_loop_lem fuel m t (omega arith))

  -- `net_recv_exact` always returns. On 0 it has taken exactly `len` bytes off the stream and
  -- stored them, and on -1 fewer; it sends nothing and does not touch the files.
  pub recv_exact_lem : (len : ℕ) (w : World N F) → Post (Got len w) (recv_exact os len w)
  unfolding recv_exact
  recv_exact_lem len w = recv_loop_lem len len w (omega arith)

module _ {N F : Type 0} (os : Os N F) (laws : StreamLaws os.net) (reliable : IsReliable laws) where
  abbrev pub GotAll : ℕ → World N F → Option Bytes → World N F → Type 0
  GotAll n w none t = ⊥
  GotAll n w (some bs) t = (length bs ≡ n) × Took os laws w bs t

  -- What is left of the stream.
  pub Took-length :
      (w t : World N F) (bs : Bytes)
      → Took os laws w bs t
      → length (waiting os laws w) ≡ length bs + length (waiting os laws t)
  Took-length w t bs (e, f) = ap length e ∙ length-append bs (waiting os laws t)

  GotAll-more :
      (n : ℕ) (w t : World N F) (bs : Bytes)
      → One os laws n w (some bs) t
      → (r : Option Bytes) (u : World N F) → GotAll (n - length bs) t r u
      → Post (GotAll n w) (and_then bs r u)
  GotAll-more n w t bs (le, took) none u h = h
  GotAll-more n w t bs (le, took) (some more) u (all, rest) =
      (omega (arith, length-append bs more), Took-append os laws w t u bs more took rest)

  next_all :
      (again : ℕ → Io (World N F) (Option Bytes)) (n : ℕ) (w : World N F)
      → ((m : ℕ) (t : World N F)
          → m < n
          → m ≤ length (waiting os laws t)
          → Post (GotAll m t) (again m t))
      → 0 < n
      → n ≤ length (waiting os laws w)
      → (r : Option Bytes) (t : World N F) → One os laws n w r t
      → 0 < length (received r)
      → Post (GotAll n w) (recv_next again n r t)
  next_all again n w rest lt h none t p q = absurd (omega arith)
  next_all again n w rest lt h (some []) t p q = absurd (omega arith)
  next_all again n w rest lt h (some (b ∷ bs)) t p q =
      let m : ℕ = n - length (b ∷ bs) in
      Post-bind (GotAll m t) (GotAll n w) (again m) (and_then (b ∷ bs)) t
        (rest m t (omega arith) (omega (arith, Took-length w t (b ∷ bs) p.1)))
        (GotAll-more n w t (b ∷ bs) p)

  net_recv-pos :
      (n : ℕ) (w : World N F)
      → 0 < n
      → n ≤ length (waiting os laws w)
      → Post (λ r t. 0 < length (received r)) (net_recv os n w)
  unfolding net_recv
  net_recv-pos n w lt h =
      reliable.recv_progress (chunk n) w.net (ground arith) (λ e. omega (arith, ap length e))

  recv_loop_all :
      (fuel n : ℕ) (w : World N F)
      → n ≤ fuel
      → n ≤ length (waiting os laws w)
      → Post (GotAll n w) (recv_loop os fuel n w)
  unfolding recv_loop
  recv_loop_all fuel zero w h k = (refl, (refl, refl))
  recv_loop_all zero (suc n) w h k = absurd (omega arith)
  recv_loop_all (suc fuel) (suc n) w h k =
      Post-bind (λ r t. One os laws (suc n) w r t × (0 < length (received r))) (GotAll (suc n) w)
        (net_recv os (suc n)) (recv_next (recv_loop os fuel) (suc n)) w
        (Post-and (One os laws (suc n) w) (λ r t. 0 < length (received r)) (net_recv os (suc n) w)
          (net_recv-One os laws (suc n) w) (net_recv-pos (suc n) w (omega arith) k))
        λ r t p.
          next_all (recv_loop os fuel) (suc n) w
            (λ m v lt h'. recv_loop_all fuel m v (omega arith) h') (omega arith) k r t p.0 p.1

  -- On a reliable connection whose stream still has `len` bytes, `net_recv_exact` takes exactly
  -- `len` bytes off it and returns 0; it sends nothing and does not touch the files.
  pub recv_exact_ok :
      (len : ℕ) (w : World N F)
      → len ≤ length (waiting os laws w)
      → Post (GotAll len w) (recv_exact os len w)
  unfolding recv_exact
  recv_exact_ok len w h = recv_loop_all len len w (omega arith) h
