-- ===== src/Exact/Send.antt =====
-- `net_send_exact` and `isr_write_all` deliver the whole buffer, however the calls below cut it.
use isr.Prelude.{
  ℕ, zero, suc, ◌+◌, ◌≤◌, ◌<◌, ◌≡◌, ◌≢◌, refl, sym, ap, ◌∙◌, Option, none, some, [], ◌∷◌, ◌++◌,
  append-nil, append_assoc, arith, Bytes, length, length-drop, length-take, length-pos, take-ne_nil,
  take-take, take, drop, take-append-drop, take_add,
}
use isr.Io.{Io, Status, ok, err, Os, World}
use isr.Io.Post.{Post, Post-bind, Post-mono, Post-and}
use isr.Exact.Laws.{StreamLaws, IsReliable, FileLaws, IsHealthy, accepted}
use isr.Exact.{drain, drain_next, net_send, send_exact, write, write_all, chunk}

-- What is in the sink `out` after an attempt to append `bs`, with `frame` left as it was.
abbrev pub Drained : {S B : Type 0} → (S → Bytes) → (S → B) → Bytes → S → Status → S → Type 0
Drained out frame bs s ok t = (out t ≡ out s ++ bs) × (frame t ≡ frame s)
Drained out frame bs s err t =
    (n : ℕ) × (n < length bs) × (out t ≡ out s ++ take n bs) × (frame t ≡ frame s)

-- The same of one call, which may take a part.
abbrev pub Put : {S B : Type 0} → (S → Bytes) → (S → B) → Bytes → S → Option ℕ → S → Type 0
Put out frame bs s r t =
    (accepted r ≤ length bs) × (out t ≡ out s ++ take (accepted r) bs) × (frame t ≡ frame s)

module _ {S B : Type 0} (put : Bytes → Io S (Option ℕ)) (out : S → Bytes) (frame : S → B)
    (put_lem : (bs : Bytes) (s : S) → Post (Put out frame bs s) (put bs s)) where
  -- After `k + 1` bytes have gone, what is said of the rest gives what is said of the whole.
  Drained-more :
      (k : ℕ) (bs : Bytes) (s t : S)
      → Put out frame bs s (some (suc k)) t
      → (r : Status) (u : S) → Drained out frame (drop (suc k) bs) t r u
      → Drained out frame bs s r u
  Drained-more k bs s t (le, o, f) ok u (o', f') = (
    o'
        ∙ ap (λ x. x ++ drop (suc k) bs) o
        ∙ append_assoc (out s) _ _
        ∙ ap (λ x. out s ++ x) (take-append-drop (suc k) bs),
    f' ∙ f,
  )
  Drained-more k bs s t (le, o, f) err u (n, lt, o', f') = (
    suc k + n,
    omega (arith, length-drop (suc k) bs),
    o'
        ∙ ap (λ x. x ++ take n (drop (suc k) bs)) o
        ∙ append_assoc (out s) _ _
        ∙ ap (λ x. out s ++ x) (take_add (suc k) n bs),
    f' ∙ f,
  )

  next :
      (bs : Bytes) (s : S) (again : Bytes → Io S Status)
      → ((k : ℕ) (t : S) → Post (Drained out frame (drop (suc k) bs) t) (again (drop (suc k) bs) t))
      → (r : Option ℕ) (t : S) → Put out frame bs s r t
      → 0 < length bs
      → Post (Drained out frame bs s) (drain_next again bs r t)
  next bs s again rest none t p lt = (0, lt, p.1, p.2)
  next bs s again rest (some zero) t p lt = (0, lt, p.1, p.2)
  next bs s again rest (some (suc k)) t p lt =
      Post-mono (Drained out frame (drop (suc k) bs) t) (Drained out frame bs s) _
        (Drained-more k bs s t p) (rest k t)

  pub drain_lem :
      (fuel : ℕ) (bs : Bytes) (s : S)
      → length bs ≤ fuel
      → Post (Drained out frame bs s) (drain put fuel bs s)
  unfolding drain
  drain_lem fuel [] s h = (sym (append-nil (out s)), refl)
  drain_lem zero (b ∷ bs) s h = absurd (omega arith)
  drain_lem (suc fuel) (b ∷ bs) s h =
      Post-bind (Put out frame (b ∷ bs) s) (Drained out frame (b ∷ bs) s) (put (b ∷ bs))
        (drain_next (drain put fuel) (b ∷ bs)) s (put_lem (b ∷ bs) s)
        (λ r t p.
          next (b ∷ bs) s (drain put fuel)
            (λ k t.
              drain_lem fuel (drop (suc k) (b ∷ bs)) t
                (omega (arith, length-drop (suc k) (b ∷ bs))))
            r t p (omega arith))

module _ {S : Type 0} (put : Bytes → Io S (Option ℕ))
    (takes : (bs : Bytes) (s : S) → bs ≢ [] → Post (λ r _. 0 < accepted r) (put bs s)) where
  next_ok :
      (again : Bytes → Io S Status) (bs : Bytes)
      → ((k : ℕ) (t : S) → Post (λ r _. r ≡ ok) (again (drop (suc k) bs) t))
      → (r : Option ℕ) (t : S) → 0 < accepted r
      → Post (λ r _. r ≡ ok) (drain_next again bs r t)
  next_ok again bs rest none t h = absurd (omega arith)
  next_ok again bs rest (some zero) t h = absurd (omega arith)
  next_ok again bs rest (some (suc k)) t h = rest k t

  -- Where every call takes something, the loop succeeds.
  pub drain_ok :
      (fuel : ℕ) (bs : Bytes) (s : S)
      → length bs ≤ fuel
      → Post (λ r _. r ≡ ok) (drain put fuel bs s)
  unfolding drain
  drain_ok fuel [] s h = refl
  drain_ok zero (b ∷ bs) s h = absurd (omega arith)
  drain_ok (suc fuel) (b ∷ bs) s h =
      Post-bind (λ r _. 0 < accepted r) (λ r _. r ≡ ok) (put (b ∷ bs))
        (drain_next (drain put fuel) (b ∷ bs)) s (takes (b ∷ bs) s (λ e. cc))
        (next_ok (drain put fuel) (b ∷ bs) λ k t.
          drain_ok fuel (drop (suc k) (b ∷ bs)) t (omega (arith, length-drop (suc k) (b ∷ bs))))

chunk_pos : (n : ℕ) → 0 < n → 0 < chunk n
chunk_pos n h = ground arith

settle :
    {S B : Type 0} (out : S → Bytes) (frame : S → B) (bs : Bytes) (s : S) (r : Status) (t : S)
    → Drained out frame bs s r t
    → r ≡ ok
    → (r ≡ ok) × Drained out frame bs s ok t
settle out frame bs s ok t d e = (e, d)
settle out frame bs s err t d e = cc

module _ {N F : Type 0} (os : Os N F) (laws : StreamLaws os.net) where
  -- What the socket has sent, and what sending leaves alone.
  abbrev pub sent : World N F → Bytes
  sent w = laws.outgoing w.net

  abbrev pub beside_sent : World N F → Bytes × F
  beside_sent w = (laws.incoming w.net, w.sys)

  net_send-Put : (bs : Bytes) (w : World N F) → Post (Put sent beside_sent bs w) (net_send os bs w)
  unfolding net_send
  net_send-Put bs w =
      let cut : Bytes = take (chunk (length bs)) bs in
      let le : accepted (os.net.send cut w.net).0 ≤ length cut = laws.send-le cut w.net in
      (
        omega (arith, le, length-take (chunk (length bs)) bs),
        laws.outgoing-send cut w.net ∙ ap (λ x. sent w ++ x) (take-take _ _ bs le),
        λ i. (laws.incoming-send cut w.net i, w.sys),
      )

  -- `net_send_exact` always returns. On 0 it has sent exactly the buffer, and on -1 a proper
  -- prefix of it; it consumes nothing of the incoming stream and does not touch the files.
  pub send_exact_lem :
      (bs : Bytes) (w : World N F) → Post (Drained sent beside_sent bs w) (send_exact os bs w)
  unfolding send_exact
  send_exact_lem bs w =
      drain_lem (net_send os) sent beside_sent net_send-Put (length bs) bs w (omega arith)

  net_send-takes :
      (reliable : IsReliable laws) (bs : Bytes) (w : World N F)
      → bs ≢ []
      → Post (λ r _. 0 < accepted r) (net_send os bs w)
  unfolding net_send
  net_send-takes reliable bs w h =
      reliable.send_progress (take (chunk (length bs)) bs) w.net
        (take-ne_nil (chunk (length bs)) bs (chunk_pos (length bs) (length-pos bs h)) h)

  -- One call on a reliable connection takes something.
  pub net_send_ok :
      (reliable : IsReliable laws) (bs : Bytes) (w : World N F)
      → bs ≢ []
      → Post (λ r t. (0 < accepted r) × Put sent beside_sent bs w r t) (net_send os bs w)
  net_send_ok reliable bs w h =
      Post-and (λ r t. 0 < accepted r) (Put sent beside_sent bs w) (net_send os bs w)
        (net_send-takes reliable bs w h) (net_send-Put bs w)

  -- On a reliable connection `net_send_exact` succeeds.
  pub send_exact_ok :
      (reliable : IsReliable laws) (bs : Bytes) (w : World N F)
      → Post (λ r t. (r ≡ ok) × Drained sent beside_sent bs w ok t) (send_exact os bs w)
  unfolding send_exact
  send_exact_ok reliable bs w =
      Post-mono (λ r t. Drained sent beside_sent bs w r t × (r ≡ ok)) _ (send_exact os bs w)
        (λ r t h. settle sent beside_sent bs w r t h.0 h.1)
        (Post-and (Drained sent beside_sent bs w) (λ r _. r ≡ ok) (send_exact os bs w)
          (send_exact_lem bs w)
          (drain_ok (net_send os) (net_send-takes reliable) (length bs) bs w (omega arith)))

module _ {N F : Type 0} (os : Os N F) (laws : FileLaws os.sys) (fd : ℕ) where
  -- What was written to the descriptor, and what writing leaves alone.
  abbrev pub stored : World N F → Bytes
  stored w = laws.written fd w.sys

  abbrev pub beside_stored : World N F → N
  beside_stored w = w.net

  write-Put : (bs : Bytes) (w : World N F) → Post (Put stored beside_stored bs w) (write os fd bs w)
  unfolding write
  write-Put bs w = (laws.write-le fd bs w.sys, laws.written-write fd bs w.sys, refl)

  -- `isr_write_all` always returns. On 0 it has written exactly the buffer, and on -1 a proper
  -- prefix of it; it does not touch the connection.
  pub write_all_lem :
      (bs : Bytes) (w : World N F) → Post (Drained stored beside_stored bs w) (write_all os fd bs w)
  unfolding write_all
  write_all_lem bs w =
      drain_lem (write os fd) stored beside_stored write-Put (length bs) bs w (omega arith)

  -- On a healthy disk `isr_write_all` succeeds.
  pub write_all_ok :
      (healthy : IsHealthy os.sys) (bs : Bytes) (w : World N F)
      → Post (λ r t. (r ≡ ok) × Drained stored beside_stored bs w ok t) (write_all os fd bs w)
  unfolding write_all write
  write_all_ok healthy bs w =
      Post-mono (λ r t. Drained stored beside_stored bs w r t × (r ≡ ok)) _ (write_all os fd bs w)
        (λ r t h. settle stored beside_stored bs w r t h.0 h.1)
        (Post-and (Drained stored beside_stored bs w) (λ r _. r ≡ ok) (write_all os fd bs w)
          (write_all_lem bs w)
          (drain_ok (write os fd) (λ b v h. healthy.write_progress fd b v.sys h) (length bs) bs w
            (omega arith)))
