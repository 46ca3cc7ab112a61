-- ===== src/Transfer/Plain.antt =====
-- The uncompressed stream: what is sent, what is stored, and the round trip.
use isr.Prelude.{
  ℕ, zero, suc, ◌^◌, ◌<◌, ◌≡◌, ◌≢◌, refl, sym, ap, ◌∙◌, Option, none, some, [], ◌∷◌, ◌++◌,
  append_assoc, arith, Bytes, length, length-append,
}
use isr.Bytes.{to_big_endian, count_byte_values}
use isr.Bytes.Checksum.{count_byte_values-append, count_byte_values-lt}
use isr.Io.{Io, Os, World}
use isr.Io.Post.{Post, Post-mono}
use isr.Exact.Laws.{StreamLaws, IsReliable, FileLaws, IsHealthy, received}
use isr.Exact.Send.{sent}
use isr.Exact.Steps.{after_send_ok}
use isr.Transfer.{
  minus_one, add_block, send_checksum, transmit_next, transmit_loop, transmit_file_uncompressed,
}
use isr.Wire.{io_bufsize}

-- The stream of a whole file: its bytes, then the checksum.
abbrev pub plain_stream : Bytes → ℕ → Bytes
plain_stream content checksum = content ++ to_big_endian 8 checksum

add_block-append :
    (checksum : ℕ) (xs ys : Bytes)
    → add_block checksum (xs ++ ys) ≡ add_block (add_block checksum xs) ys
add_block-append checksum xs ys = omega (arith, count_byte_values-append xs ys)

module _ {N F : Type 0} (os : Os N F) (stream : StreamLaws os.net) (reliable : IsReliable stream)
    (files : FileLaws os.sys) (healthy : IsHealthy os.sys) (fd : ℕ) where
  abbrev pub unread : World N F → Bytes
  unread w = files.unread fd w.sys

  abbrev pub Sends : World N F → Bytes → ℕ → ℕ → World N F → Type 0
  Sends w content checksum r t =
      (r ≡ add_block checksum content)
      × (sent os stream t ≡ sent os stream w ++ plain_stream content r)

  pub checksum_goes_out :
      (checksum : ℕ) (w : World N F)
      → checksum < 2 ^ 64
      → Post (Sends w [] checksum) (send_checksum os checksum w)
  unfolding send_checksum count_byte_values
  checksum_goes_out checksum w lt =
      after_send_ok os stream (Sends w [] checksum) reliable (to_big_endian 8 checksum) minus_one _
        w λ t d. (omega arith, d.0)

  Sends-more :
      (checksum : ℕ) (w t : World N F) (block : Bytes)
      → unread w ≡ block ++ unread t
      → sent os stream t ≡ sent os stream w ++ block
      → (r : ℕ) (v : World N F) → Sends t (unread t) (add_block checksum block) r v
      → Sends w (unread w) checksum r v
  Sends-more checksum w t block split out r v (e, o) = (
    rw split (e ∙ sym (add_block-append checksum block (unread t))),
    rw split (
        o
        ∙ ap (λ x. x ++ plain_stream (unread t) r) out
        ∙ append_assoc (sent os stream w) block (plain_stream (unread t) r)
        ∙ ap (λ x. sent os stream w ++ x)
            (sym (append_assoc block (unread t) (to_big_endian 8 r)))),
  )

  next :
      (again : ℕ → Io (World N F) ℕ) (checksum : ℕ) (w u : World N F)
      → checksum < 2 ^ 64
      → ((c : ℕ) (t : World N F)
          → c < 2 ^ 64
          → (length (unread t) < length (unread w))
          → Post (Sends t (unread t) c) (again c t))
      → (r : Option Bytes) → r ≢ none
      → unread w ≡ received r ++ unread u
      → (r ≡ some [] → unread w ≡ [])
      → sent os stream u ≡ sent os stream w
      → Post (Sends w (unread w) checksum) (transmit_next os again checksum r u)
  next again checksum w u lt rest none h split end same = absurd (h refl)
  next again checksum w u lt rest (some []) h split end same =
      Post-mono (Sends u [] checksum) (Sends w (unread w) checksum) (send_checksum os checksum u)
        (λ r t h. rw (end refl, ← same) h) (checksum_goes_out checksum u lt)
  next again checksum w u lt rest (some (b ∷ bs)) h split end same =
      let block : Bytes = b ∷ bs in
      after_send_ok os stream (Sends w (unread w) checksum) reliable block minus_one
        (again (add_block checksum block)) u
        λ t d.
          let here : unread t ≡ unread u = ap (λ p. files.unread fd p.1) d.1 in
          Post-mono (Sends t (unread t) (add_block checksum block)) (Sends w (unread w) checksum)
            (again (add_block checksum block) t)
            (Sends-more checksum w t block (split ∙ ap (λ x. block ++ x) (sym here))
              (d.0 ∙ ap (λ x. x ++ block) same))
            (rest (add_block checksum block) t (omega arith)
              (omega (arith, ap length split, ap length here, length-append block (unread u))))

  transmit_loop_lem :
      (fuel checksum : ℕ) (w : World N F)
      → checksum < 2 ^ 64
      → length (unread w) < fuel
      → Post (Sends w (unread w) checksum) (transmit_loop os fuel fd checksum w)
  unfolding transmit_loop
  transmit_loop_lem zero checksum w lt h = absurd (omega arith)
  transmit_loop_lem (suc fuel) checksum w lt h =
      next (transmit_loop os fuel fd) checksum w
        (record w { sys = (os.sys.read fd io_bufsize w.sys).1 }) lt
        (λ c t l k. transmit_loop_lem fuel c t l (omega arith)) (os.sys.read fd io_bufsize w.sys).0
        (healthy.read_some fd io_bufsize w.sys) (files.unread-read fd io_bufsize w.sys)
        (files.read_end fd io_bufsize w.sys (omega arith)) refl

  -- On a reliable connection and a healthy disk the function returns the checksum of the file,
  -- and has sent the file and that checksum, provided it may make one read more than the file
  -- has bytes.
  pub transmit_file_uncompressed_lem :
      (fuel : ℕ) (w : World N F)
      → length (unread w) < fuel
      → Post
          (λ r t.
            (r ≡ count_byte_values (unread w))
            × (sent os stream t ≡ sent os stream w ++ plain_stream (unread w) r))
          (transmit_file_uncompressed os fuel fd w)
  unfolding transmit_file_uncompressed
  transmit_file_uncompressed_lem fuel w h =
      Post-mono (Sends w (unread w) 0) _ (transmit_loop os fuel fd 0 w)
        (λ r t s. (s.0 ∙ omega (arith, count_byte_values-lt (unread w)), s.1))
        (transmit_loop_lem fuel 0 w (omega arith) h)
