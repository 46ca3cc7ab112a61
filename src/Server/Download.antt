-- ===== src/Server/Download.antt =====
-- A download that the client accepts is sent.
pub mod Packed
use isr.Prelude.{
  ℕ, ◌≤◌, ◌<◌, ◌^◌, ◌≡◌, ◌≢◌, refl, ap, ◌∙◌, false, ◌==◌, some, [], ◌∷◌, ◌++◌, append_assoc, arith,
  Bytes, IsByte, All, length,
}
use isr.Bytes.{count_byte_values, from_big_endian, from_big_endian_onto}
use isr.Bytes.Checksum.{count_byte_values_exact}
use isr.Io.{ok, Stat, Os, World, Sys}
use isr.Io.Post.{Post, Post-bind, Post-mono}
use isr.Exact.Laws.{StreamLaws, IsReliable, FileLaws, IsHealthy}
use isr.Exact.Send.{sent}
use isr.Exact.Recv.{waiting}
use isr.Exact.Steps.{after_send_ok, after_recv_this}
use isr.Transfer.{transmit_file_uncompressed}
use isr.Transfer.Plain.{plain_stream, transmit_file_uncompressed_lem}
use isr.Paths.{validate_path, resolve_path}
use isr.Wire.{
  path_max, recv_unable, recv_type_file, flag_use_compression, RecvHeader, encode_confirmation,
  send_recv_confirmation,
}
use isr.Server.{
  RequestInfo, Reply, has_flag, transmit_body, is_sent, stream_file, receive_recv_command,
}

-- Opening this path for reading gives this descriptor, at the start of this content.
pub record ReadsAs {F : Type 0} {sys : Sys F} (files : FileLaws sys) (path : Bytes) (fd : ℕ)
    (content : Bytes) : Type 0 where
  pub opens : (f : F) → (sys.open_read path f).0 ≡ some fd
  pub holds : (f : F) → files.unread fd (sys.open_read path f).1 ≡ content

-- The confirmation for a file.
abbrev pub announced : Stat → Bytes
announced st =
    encode_confirmation (record { response_type = recv_type_file; effective_length = st.size })

-- The server's answer to a request for a file.
abbrev pub file_answer : Stat → Bytes → Bytes
file_answer st content = announced st ++ plain_stream content (count_byte_values content)

accepted : (go : ℕ) → go ≢ recv_unable → (from_big_endian (go ∷ []) == recv_unable) ≡ false
unfolding from_big_endian_onto
accepted go h = ground arith

is_sent_lem : (result : ℕ) → result < 2 ^ 63 → is_sent result ≡ ok
is_sent_lem result h = ground arith

module _ {N F : Type 0} (os : Os N F) (stream : StreamLaws os.net) (reliable : IsReliable stream)
    (files : FileLaws os.sys) (healthy : IsHealthy os.sys) (full_path : Bytes) (fd : ℕ)
    (content : Bytes) (reading : ReadsAs files full_path fd content) (header : RecvHeader) where
  -- The data in a form `Body`, and a result that is not negative.
  abbrev pub SentData : (Bytes → Type 0) → World N F → ℕ → World N F → Type 0
  SentData Body w r t =
      (r < 2 ^ 63) × (body : Bytes) × Body body × (sent os stream t ≡ sent os stream w ++ body)

  -- The answer: `before` and the data.
  abbrev pub SentAnswer : (Bytes → Type 0) → Bytes → World N F → Reply → World N F → Type 0
  SentAnswer Body before w r t =
      (r.0 ≡ ok)
      × (body : Bytes) × Body body
      × (sent os stream t ≡ sent os stream w ++ (before ++ body))

  -- The handler, for the data in any form that its sender gives it.
  module _ (rounds : ℕ) (Body : Bytes → Type 0)
      (transmits : (u : World N F)
        → files.unread fd u.sys ≡ content
        → Post (SentData Body u) (transmit_body os rounds header fd u)) where
    streamed :
        (info : RequestInfo) (w : World N F)
        → Post (SentAnswer Body [] w) (stream_file os rounds header full_path info w)
    streamed info w =
        let u : World N F = record w { sys = (os.sys.open_read full_path w.sys).1 } in
        rw (reading.opens w.sys) (
          Post-bind (SentData Body u) (SentAnswer Body [] w) (transmit_body os rounds header fd) _ u
            (transmits u (reading.holds w.sys))
            λ result v (lt, body, form, out). (is_sent_lem result lt, body, form, out))

    pub answers :
        (root path : Bytes) (info : RequestInfo) (st : Stat) (go : ℕ) (rest : Bytes) (w : World N F)
        → validate_path path ≡ ok
        → resolve_path (λ p. os.sys.realpath p w.sys) path_max root path ≡ some full_path
        → os.sys.stat full_path w.sys ≡ some st
        → st.is_dir ≡ false
        → go ≢ recv_unable
        → waiting os stream w ≡ go ∷ rest
        → Post
            (SentAnswer Body (announced st) w)
            (receive_recv_command os rounds root header path info w)
    unfolding receive_recv_command send_recv_confirmation
    answers root path info st go rest w valid resolves found file ne holds =
        let conf : Bytes = announced st in
        let Q : Reply → World N F → Type 0 = SentAnswer Body conf w in
        rw (valid, resolves, found, file)
          (after_send_ok os stream Q reliable conf _ _ w λ t d.
            after_recv_this os stream Q reliable (go ∷ []) rest 1 _ _ t refl
              (ap (λ p. p.0) d.1 ∙ holds)
              λ u behind same. rw (accepted go ne) (
                Post-mono (SentAnswer Body [] u) Q (stream_file os rounds header full_path _ u)
                  (λ r v (success, body, form, out). (
                    success,
                    body,
                    form,
                    out
                        ∙ ap (λ x. x ++ body) (ap (λ p. p.0) same ∙ d.0)
                        ∙ append_assoc (sent os stream w) conf body,
                  ))
                  (streamed _ u)))

  module _ (plain : has_flag header.flags flag_use_compression ≡ false) (bytes : All IsByte content)
      (small : length content ≤ 2 ^ 55) where
    abbrev pub Downloaded : Bytes → World N F → Reply → World N F → Type 0
    Downloaded out w r t = (r.0 ≡ ok) × (sent os stream t ≡ sent os stream w ++ out)

    abbrev pub IsPlain : Bytes → Type 0
    IsPlain body = body ≡ plain_stream content (count_byte_values content)

    pub transmits-IsPlain :
        (rounds : ℕ) (u : World N F)
        → length content < rounds
        → files.unread fd u.sys ≡ content
        → Post (SentData IsPlain u) (transmit_body os rounds header fd u)
    transmits-IsPlain rounds u enough here =
        let sum : ℕ = count_byte_values content in
        rw plain (
          Post-mono _ (SentData IsPlain u) (transmit_file_uncompressed os rounds fd u)
            (λ result v h.
              let same : result ≡ sum = h.0 ∙ ap count_byte_values here in
              (
                omega (arith, same, (count_byte_values_exact content bytes small).1),
                plain_stream content sum,
                refl,
                h.1
                    ∙ ap (λ c. sent os stream u ++ plain_stream c result) here
                    ∙ ap (λ n. sent os stream u ++ plain_stream content n) same,
              ))
            (transmit_file_uncompressed_lem os stream reliable files healthy fd rounds u
              (omega (arith, ap length here))))

    -- A request for a file without compression, by a valid path that resolves to it, is answered
    -- with the confirmation and the size that `stat` gave; if the client then accepts, the file's
    -- content and checksum follow and the handler returns 0. The connection is reliable and the
    -- disk healthy, the handler may make one read more than the file has bytes, and the content
    -- has at most 2 ^ 55 bytes, each below 256.
    pub download_is_sent :
        (rounds : ℕ) (root path : Bytes) (info : RequestInfo) (st : Stat) (go : ℕ) (rest : Bytes)
        (w : World N F)
        → length content < rounds
        → validate_path path ≡ ok
        → resolve_path (λ p. os.sys.realpath p w.sys) path_max root path ≡ some full_path
        → os.sys.stat full_path w.sys ≡ some st
        → st.is_dir ≡ false
        → go ≢ recv_unable
        → waiting os stream w ≡ go ∷ rest
        → Post
            (Downloaded (file_answer st content) w)
            (receive_recv_command os rounds root header path info w)
    download_is_sent rounds root path info st go rest w enough valid resolves found file ne holds =
        Post-mono (SentAnswer IsPlain (announced st) w) (Downloaded (file_answer st content) w)
          (receive_recv_command os rounds root header path info w)
          (λ r t (success, body, form, out).
            (success, out ∙ ap (λ b. sent os stream w ++ (announced st ++ b)) form))
          (answers rounds IsPlain (λ u. transmits-IsPlain rounds u enough) root path info st go rest
            w valid resolves found file ne holds)
