-- ===== src/Listing/Stream.antt =====
-- What the server sends for a directory, and that the client accepts it.
use isr.Prelude.{
  Option, ℕ, zero, suc, ◌*◌, ◌%◌, ◌^◌, ◌<◌, ◌≡◌, ◌≢◌, refl, sym, ap, ◌∙◌, true, false, none, some,
  List, [], ◌∷◌, ◌++◌, inl, inr, append-nil, append_assoc, arith, Bytes, ltb, ◌==◌, Bool-cases,
  length, All, take,
}
use isr.Bytes.{to_big_endian, from_big_endian, from_big_endian_onto, count_byte_values}
use isr.Io.{Stat, Io, ok, err, Status, Os, World, ◌>>=◌, or_fail, unless_err}
use isr.Io.Post.{Post, Post-mono, Post-bind}
use isr.Exact.{send_exact}
use isr.Exact.Laws.{StreamLaws, IsReliable}
use isr.Exact.Send.{sent, send_exact_ok}
use isr.Exact.Recv.{waiting}
use isr.Exact.Steps.{after_send_ok, after_recv_this}
use isr.Transfer.{add_block}
use isr.Transfer.Sums.{add_block-append, add_block-nil, add_block_zero}
use isr.Wire.{recv_type_directory, recv_unable, encode_confirmation, send_recv_confirmation}
use isr.Listing.{
  DirEntry, name_length, entry_header, entry_size, Gathered, gather, send_name, stream_entries,
  offer_listing, transmit_recv_directory_listing,
}
use isr.Listing.Format.{IsEntry, encode_entry, listing_bytes}
use isr.Listing.Gather.{StatLaws, IsGathered, gather-IsGathered, Kept}
use isr.Listing.Describe.{AreDescribed, shown}

regroup : (a h n l k : Bytes) → ((a ++ h) ++ n) ++ (l ++ k) ≡ a ++ (((h ++ n) ++ l) ++ k)
regroup a h n l k = simp append_assoc

-- The entries and their checksum, where `checksum` counts what went before.
abbrev listing_stream : List DirEntry → ℕ → Bytes
listing_stream es checksum =
    listing_bytes es ++ to_big_endian 8 (add_block checksum (listing_bytes es))

module _ {N F : Type 0} (os : Os N F) (stream : StreamLaws os.net)
    (reliable : IsReliable stream) where
  abbrev Streamed : Bytes → World N F → Status → World N F → Type 0
  Streamed bytes w r t = (r ≡ ok) × (sent os stream t ≡ sent os stream w ++ bytes)

  send_name-lem :
      (n : ℕ) (name : Bytes) (Q : Status → World N F → Type 0) (rest : Io (World N F) Status)
      (w : World N F)
      → ((t : World N F) → sent os stream t ≡ sent os stream w ++ take n name → Post Q (rest t))
      → Post Q ((send_name os n name >>= unless_err err rest) w)
  send_name-lem zero name Q rest w next = next w (sym (append-nil _))
  send_name-lem (suc n) name Q rest w next =
      let pos : ltb 0 (suc n) ≡ true = ground arith in
      rw pos (after_send_ok os stream Q reliable (take (suc n) name) err rest w λ t d. next t d.0)

  stream_entries_lem :
      (es : List DirEntry) (checksum : ℕ) (w : World N F)
      → checksum < 2 ^ 64
      → Post (Streamed (listing_stream es checksum) w) (stream_entries os es checksum w)
  unfolding stream_entries
  stream_entries_lem [] checksum w lt = rw (add_block-nil checksum lt) (
      Post-mono _ _ (send_exact os (to_big_endian 8 checksum) w) (λ r t h. (h.0, h.1.0))
        (send_exact_ok os stream reliable (to_big_endian 8 checksum) w))
  stream_entries_lem (e ∷ es) checksum w lt =
      let head : Bytes = entry_header e in
      let name : Bytes = take (name_length e.name) e.name in
      let Q : Status → World N F → Type 0 = Streamed (listing_stream (e ∷ es) checksum) w in
      let c : ℕ = add_block (add_block checksum head) name in
      let more : Bytes = listing_bytes es in
      let sum : add_block c more ≡ add_block checksum (encode_entry e ++ more) =
        ap (λ x. add_block x more) (sym (add_block-append checksum head name))
        ∙ sym (add_block-append checksum (encode_entry e) more) in
      after_send_ok os stream Q reliable head err _ w λ t d.
        send_name-lem (name_length e.name) e.name Q (stream_entries os es c) t λ u out.
          Post-mono (Streamed (listing_stream es c) u) Q (stream_entries os es c u)
            (λ r v h. (
              h.0,
              h.1
                  ∙ ap (λ x. x ++ (more ++ to_big_endian 8 (add_block c more)))
                      (out ∙ ap (λ x. x ++ name) d.0)
                  ∙ ap (λ k. ((sent os stream w ++ head) ++ name) ++ (more ++ to_big_endian 8 k))
                      sum
                  ∙ regroup (sent os stream w) head name more
                      (to_big_endian 8 (add_block checksum (encode_entry e ++ more))),
            ))
            (stream_entries_lem es c u (omega arith))

  answered : (b : ℕ) → b ≢ recv_unable → (from_big_endian (b ∷ []) == recv_unable) ≡ false
  unfolding from_big_endian_onto
  answered b h = ground arith

  offer_listing_lem :
      (g : Gathered) (go : ℕ) (rest : Bytes) (w : World N F)
      → go ≢ recv_unable
      → waiting os stream w ≡ go ∷ rest
      → Post
          (Streamed
            (encode_confirmation
                (record { response_type = recv_type_directory; effective_length = g.total_size })
              ++ listing_stream g.entries 0)
            w)
          (offer_listing os g w)
  unfolding send_recv_confirmation
  offer_listing_lem g go rest w ne holds =
      let conf : Bytes =
        encode_confirmation
          (record { response_type = recv_type_directory; effective_length = g.total_size }) in
      let Q : Status → World N F → Type 0 = Streamed (conf ++ listing_stream g.entries 0) w in
      after_send_ok os stream Q reliable conf err _ w λ t d.
        after_recv_this os stream Q reliable (go ∷ []) rest 1 err _ t refl
          (ap (λ p. p.0) d.1 ∙ holds)
          λ u behind same. rw (answered go ne) (
            Post-mono (Streamed (listing_stream g.entries 0) u) Q (stream_entries os g.entries 0 u)
              (λ r v h. (
                h.0,
                h.1
                    ∙ ap (λ x. x ++ listing_stream g.entries 0) (ap (λ p. p.0) same ∙ d.0)
                    ∙ append_assoc (sent os stream w) conf _,
              ))
              (stream_entries_lem g.entries 0 u (omega arith)))

-- The answer to a client that asks for a directory and then accepts: the confirmation with the
-- size of the listing, the listing, and its checksum.
abbrev pub listing_answer : List DirEntry → Bytes
listing_answer es =
    encode_confirmation (record {
      response_type = recv_type_directory;
      effective_length = length (listing_bytes es) % 2 ^ 64;
    })
    ++ (listing_bytes es ++ to_big_endian 8 (count_byte_values (listing_bytes es)))

-- The listing of these names in this directory went out, with what `stat` says of each.
pub record IsAnswer (look : Bytes → Option Stat) (dir : Bytes) (names : List Bytes)
    (before after : Bytes) : Type 0 where
  pub entries : List DirEntry
  pub described : AreDescribed look dir names entries
  pub fit : All IsEntry entries
  pub out : after ≡ before ++ listing_answer entries

module _ {N F : Type 0} (os : Os N F) (stream : StreamLaws os.net) (reliable : IsReliable stream)
    (laws : StatLaws os.sys) (path : Bytes) where
  abbrev stats : World N F → Bytes → Option Stat
  stats w p = os.sys.stat p w.sys

  abbrev pub Answered : List Bytes → World N F → Status → World N F → Type 0
  Answered d_names w ok t =
      IsAnswer (stats w) path (shown d_names) (sent os stream w) (sent os stream t)
  Answered d_names w err t = sent os stream t ≡ sent os stream w

  Answered-ok :
      (d_names : List Bytes) (w : World N F) (g : Gathered) (r : Status) (t u : World N F)
      → IsGathered (stats w) path (shown d_names) g
      → u.net ≡ w.net
      → r ≡ ok
      → sent os stream t
        ≡ sent os stream u
          ++ (encode_confirmation
                (record { response_type = recv_type_directory; effective_length = g.total_size })
              ++ listing_stream g.entries 0)
      → Answered d_names w r t
  Answered-ok d_names w g err t u h same e out = cc
  Answered-ok d_names w g ok t u h same e out = record {
    entries = g.entries;
    described = h.described;
    fit = h.entries;
    out = rw (← same, ← add_block_zero (listing_bytes g.entries), ← h.total_size) out;
  }

  -- On a reliable connection, for a directory that can be read and in which file sizes are below
  -- 2 ^ 63: if the client has accepted the listing, the server either runs out of memory and sends
  -- nothing, or returns 0 after sending the confirmation, one entry for each name that `readdir`
  -- gave but `.` and `..`, in order, and the checksum of what it streamed. An entry has the name,
  -- cut to 255 bytes, the size that `stat` gives for the path, cut to 4095 bytes, and 1 for a
  -- directory or 0 for anything else; size and kind are 0 where `stat` fails. The announced size
  -- is the size of the stream of entries modulo 2 ^ 64. malloc and reading the directory change
  -- nothing that `stat` says.
  pub transmit_recv_directory_listing_lem :
      (d_names : List Bytes) (go : ℕ) (rest : Bytes) (w : World N F)
      → (os.sys.list_dir path (os.sys.alloc (256 * entry_size) w.sys).1).0 ≡ some d_names
      → go ≢ recv_unable
      → waiting os stream w ≡ go ∷ rest
      → Post (Answered d_names w) (transmit_recv_directory_listing os path w)
  unfolding transmit_recv_directory_listing
  transmit_recv_directory_listing_lem d_names go rest w found ne holds =
      let size : ℕ = 256 * entry_size in
      let v : World N F = record w { sys = (os.sys.alloc size w.sys).1 } in
      let x : World N F = record v { sys = (os.sys.list_dir path v.sys).1 } in
      let looks : (p : Bytes) → os.sys.stat p x.sys ≡ stats w p =
        λ p. laws.stat-list_dir p path v.sys ∙ laws.stat-alloc p size w.sys in
      let start : Gathered = record { entries = []; count = 0; capacity = 256; total_size = 0 } in
      elim (Bool-cases (os.sys.alloc size w.sys).0) [
        | inr a ↦ rw a refl
        | inl a ↦
            rw (a, found)
              (Post-bind (Kept os laws (stats w) path (shown d_names) x) (Answered d_names w)
                (gather os path d_names start) (or_fail err (offer_listing os)) x
                (gather-IsGathered os laws (stats w) path d_names [] start x looks
                  (record { described = tt; entries = tt; count = refl; total_size = refl }))
                (elim [
                  | none ↦ λ t p. ap stream.outgoing p
                  | some g ↦ λ t p.
                      Post-mono _ (Answered d_names w) (offer_listing os g t)
                        (λ r u q. Answered-ok d_names w g r u t p.1 p.0 q.0 q.1)
                        (offer_listing_lem os stream reliable g go rest t ne
                          (ap stream.incoming p.0 ∙ holds))
                ]))
      ]
