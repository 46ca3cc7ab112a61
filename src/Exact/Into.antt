-- ===== src/Exact/Into.antt =====
-- `net_recv_exact` on a buffer that may be smaller than the length asked for.
use isr.Prelude.{
  ℕ, zero, suc, ◌+◌, ◌-◌, ◌≤◌, ◌<◌, ◌≡◌, refl, ap, false, Option, none, some, [], ◌∷◌, arith, Bytes,
  ltb, length, ◌∙◌, length-append, inl, inr, Bool-cases,
}
use isr.Io.{Outcome, fault, ◌>>=◌, Os, World}
use isr.Io.Post.{Post, Post-bind}
use isr.Exact.Laws.{StreamLaws, IsReliable, received}
use isr.Exact.Recv.{waiting, One, Took-length, net_recv-One}
use isr.Exact.{
  chunk, and_then, net_recv, recv_next, recv_loop, recv_exact, into_next, into_loop, recv_into,
}

module _ {N F : Type 0} (os : Os N F) (stream : StreamLaws os.net) where
  next_fits :
      (fuel capacity n : ℕ) (r : Option Bytes) (t : World N F)
      → ((c m : ℕ) (v : World N F) → m ≤ c → into_loop os fuel c m v ≡ recv_loop os fuel m v)
      → length (received r) ≤ n
      → n ≤ capacity
      → into_next os (into_loop os fuel) capacity n r t ≡ recv_next (recv_loop os fuel) n r t
  next_fits fuel capacity n none t again le fits = refl
  next_fits fuel capacity n (some []) t again le fits = refl
  next_fits fuel capacity n (some (b ∷ bs)) t again le fits =
      let k : ℕ = length (b ∷ bs) in
      let inside : ltb capacity k ≡ false = ground arith in
      rw inside (
        ap (λ (o : Outcome (World N F) (Option Bytes)). ◌>>=◌ (λ v. o) (and_then (b ∷ bs)) t)
          (again (capacity - k) (n - k) t (omega arith)))

  loop_fits :
      (fuel capacity n : ℕ) (w : World N F)
      → n ≤ capacity
      → into_loop os fuel capacity n w ≡ recv_loop os fuel n w
  unfolding into_loop recv_loop net_recv
  loop_fits fuel capacity zero w h = refl
  loop_fits zero capacity (suc n) w h = refl
  loop_fits (suc fuel) capacity (suc n) w h =
      next_fits fuel capacity (suc n) _ _ (loop_fits fuel) (net_recv-One os stream (suc n) w).0 h

  -- In a buffer that is large enough it is the loop without one.
  pub recv_into-fits :
      (capacity len : ℕ) → len ≤ capacity → recv_into os capacity len ≡ recv_exact os len
  unfolding recv_into recv_exact
  recv_into-fits capacity len h = λ i w. loop_fits len capacity len w h i

  starved_next :
      (fuel capacity n : ℕ) (w : World N F)
      → ((c m : ℕ) (v : World N F)
          → c < m
          → m ≤ fuel
          → length (waiting os stream v) ≤ c
          → Post (λ r t. r ≡ none) (into_loop os fuel c m v))
      → capacity < n
      → n ≤ suc fuel
      → length (waiting os stream w) ≤ capacity
      → (r : Option Bytes) (t : World N F) → One os stream n w r t
      → Post (λ r' t'. r' ≡ none) (into_next os (into_loop os fuel) capacity n r t)
  starved_next fuel capacity n w again over le few none t p = refl
  starved_next fuel capacity n w again over le few (some []) t p = refl
  starved_next fuel capacity n w again over le few (some (b ∷ bs)) t p =
      let k : ℕ = length (b ∷ bs) in
      let total : length (waiting os stream w) ≡ k + length (waiting os stream t) =
        ap length p.1.0 ∙ length-append (b ∷ bs) (waiting os stream t) in
      let inside : ltb capacity k ≡ false = ground (arith, total) in
      rw inside (
        Post-bind (λ r' t'. r' ≡ none) (λ r' t'. r' ≡ none)
          (into_loop os fuel (capacity - k) (n - k)) (and_then (b ∷ bs)) t
          (again (capacity - k) (n - k) t (omega (arith, total)) (omega arith)
            (omega (arith, total)))
          (elim [ none ↦ λ v e. refl | some more ↦ λ v e. cc ]))

  starved_loop :
      (fuel capacity n : ℕ) (w : World N F)
      → capacity < n
      → n ≤ fuel
      → length (waiting os stream w) ≤ capacity
      → Post (λ r t. r ≡ none) (into_loop os fuel capacity n w)
  unfolding into_loop
  starved_loop fuel capacity zero w over le few = absurd (omega arith)
  starved_loop zero capacity (suc n) w over le few = absurd (omega arith)
  starved_loop (suc fuel) capacity (suc n) w over le few =
      Post-bind (One os stream (suc n) w) (λ r t. r ≡ none) (net_recv os (suc n))
        (into_next os (into_loop os fuel) capacity (suc n)) w (net_recv-One os stream (suc n) w)
        (starved_next fuel capacity (suc n) w (starved_loop fuel) over le few)

  -- Where no more comes than the buffer holds, a longer read fails and stays inside it.
  pub recv_into-starved :
      (capacity len : ℕ) (w : World N F)
      → capacity < len
      → length (waiting os stream w) ≤ capacity
      → Post (λ r t. r ≡ none) (recv_into os capacity len w)
  unfolding recv_into
  recv_into-starved capacity len w over few = starved_loop len capacity len w over (omega arith) few

module _ {N F : Type 0} (os : Os N F) (stream : StreamLaws os.net)
    (reliable : IsReliable stream) where
  overrun_next :
      (fuel capacity n : ℕ) (w : World N F)
      → ((c m : ℕ) (v : World N F)
          → c < m
          → m ≤ fuel
          → c < length (waiting os stream v)
          → into_loop os fuel c m v ≡ fault)
      → capacity < n
      → n ≤ suc fuel
      → capacity < length (waiting os stream w)
      → (r : Option Bytes) (t : World N F) → One os stream n w r t
      → 0 < length (received r)
      → into_next os (into_loop os fuel) capacity n r t ≡ fault
  overrun_next fuel capacity n w again over le many none t p pos = absurd (omega arith)
  overrun_next fuel capacity n w again over le many (some []) t p pos = absurd (omega arith)
  overrun_next fuel capacity n w again over le many (some (b ∷ bs)) t p pos =
      let k : ℕ = length (b ∷ bs) in
      let total : length (waiting os stream w) ≡ k + length (waiting os stream t) =
        Took-length os stream reliable w t (b ∷ bs) p.1 in
      elim (Bool-cases (ltb capacity k)) [
        | inl e ↦ rw e refl
        | inr e ↦
            let enough : k ≤ capacity = ground arith in
            let out : into_loop os fuel (capacity - k) (n - k) t ≡ fault =
              again (capacity - k) (n - k) t (omega arith) (omega arith) (omega (arith, total)) in
            rw e (rw (out, ◌>>=◌) refl)
      ]

  overrun_loop :
      (fuel capacity n : ℕ) (w : World N F)
      → capacity < n
      → n ≤ fuel
      → capacity < length (waiting os stream w)
      → into_loop os fuel capacity n w ≡ fault
  unfolding into_loop net_recv
  overrun_loop fuel capacity zero w over le many = absurd (omega arith)
  overrun_loop zero capacity (suc n) w over le many = absurd (omega arith)
  overrun_loop (suc fuel) capacity (suc n) w over le many =
      overrun_next fuel capacity (suc n) w (overrun_loop fuel) over le many _ _
        (net_recv-One os stream (suc n) w)
        (reliable.recv_progress (chunk (suc n)) w.net (ground arith)
          λ e. omega (arith, ap length e, many))

  -- Where more comes than the buffer holds, a longer read leaves it.
  pub recv_into-overruns :
      (capacity len : ℕ) (w : World N F)
      → capacity < len
      → capacity < length (waiting os stream w)
      → recv_into os capacity len w ≡ fault
  unfolding recv_into
  recv_into-overruns capacity len w over many =
      overrun_loop len capacity len w over (omega arith) many
