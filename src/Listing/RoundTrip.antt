-- ===== src/Listing/RoundTrip.antt =====
-- The client's two passes over a listing.
use Prim.Native.Nat.add
use isr.Prelude.{
  ℕ, zero, suc, ◌+◌, ◌*◌, ◌≤◌, ◌≡◌, refl, sym, ap, ◌∙◌, false, Option, none, some, List, [], ◌∷◌,
  ◌++◌, inl, inr, append-nil, append_assoc, arith, Bytes, ◌==◌, Bool-cases, Option-cases, length,
  length-append, length-drop, All,
}
use isr.Io.{Os, World}
use isr.Io.Post.{Post, Post-mono}
use isr.Exact.Laws.{IsHealthy}
use isr.Listing.{DirEntry}
use isr.Listing.Format.{IsEntry, encode_entry, listing_bytes, read-encode_entry, skip-encode_entry}
use isr.Listing.Parse.{
  cli_entry_size, count_next, skip_entry, read_entry, read_name_length, count_entries, Parsed,
  parse_loop, parse_directory_listing,
}

-- The first pass and the second leave the loop together and move on together.
abbrev moved : Option (DirEntry × Bytes) → Option Bytes
moved none = none
moved (some (e, more)) = some more

skip-eq-moved : (rest : Bytes) → skip_entry rest ≡ moved (read_entry rest)
unfolding skip_entry read_entry
skip-eq-moved rest = ground arith

skip-length : (rest more : Bytes) → skip_entry rest ≡ some more → length more + 11 ≤ length rest
unfolding skip_entry
skip-length rest more h = ground (arith, length-drop (11 + read_name_length rest) rest)

-- The array that the caller gets; NULL has no entries.
abbrev pub entries_of_option : Option (List DirEntry) → List DirEntry
entries_of_option none = []
entries_of_option (some es) = es

abbrev pub entries_of : Parsed → List DirEntry
entries_of p = entries_of_option p.entries

-- Every entry counted takes 11 bytes at least.
pub count_entries-le : (fuel : ℕ) (rest : Bytes) → 11 * count_entries fuel rest ≤ length rest
unfolding count_entries
count_entries-le zero rest = omega arith
count_entries-le (suc fuel) rest = elim (Option-cases (skip_entry rest)) [
  | inl e ↦ rw e (omega arith)
  | inr (more, e) ↦ rw e (omega (arith, skip-length rest more e, count_entries-le fuel more))
]

-- More rounds than bytes change nothing: the bound on the rounds is never what ends the loop.
pub count_entries_fuel :
    (fuel more : ℕ) (rest : Bytes)
    → length rest ≤ fuel
    → count_entries (fuel + more) rest ≡ count_entries fuel rest
unfolding count_entries
count_entries_fuel zero zero [] h = refl
count_entries_fuel zero (suc more) [] h = rw add.zero (unfold skip_entry in refl)
count_entries_fuel zero more (b ∷ bs) h = absurd (omega arith)
count_entries_fuel (suc fuel) more rest h = rw add.suc (elim (Option-cases (skip_entry rest)) [
  | inl e ↦ rw e
  | inr (next, e) ↦
      rw e (
        ap (λ k. 1 + k)
          (count_entries_fuel fuel more next (omega (arith, skip-length rest next e))))
])

count_entries_listing :
    (fuel : ℕ) (es : List DirEntry)
    → All IsEntry es
    → length es ≤ fuel
    → count_entries fuel (listing_bytes es) ≡ length es
unfolding count_entries skip_entry
count_entries_listing zero [] h le = refl
count_entries_listing (suc fuel) [] h le = refl
count_entries_listing zero (e ∷ es) h le = absurd (omega arith)
count_entries_listing (suc fuel) (e ∷ es) (h, hs) le =
    rw (skip-encode_entry e h (listing_bytes es))
      (omega (arith, count_entries_listing fuel es hs (omega arith)))

pub length-le : (es : List DirEntry) → length es ≤ length (listing_bytes es)
length-le [] = omega arith
length-le (e ∷ es) = omega (arith, length-le es, length-append (encode_entry e) (listing_bytes es))

module _ {N F : Type 0} (os : Os N F) (healthy : IsHealthy os.sys) where
  abbrev Listed : List DirEntry → List DirEntry → World N F → Parsed → World N F → Type 0
  Listed done es w r t =
      (r.entries ≡ some (done ++ es)) × (r.entry_count ≡ length done + length es) × (t.net ≡ w.net)

  parse_loop_listing :
      (es done : List DirEntry) (rest : Bytes) (w : World N F)
      → All IsEntry es
      → Post (Listed done es w) (parse_loop os (length es) (listing_bytes es ++ rest) done w)
  unfolding parse_loop
  parse_loop_listing [] done rest w h = (ap some (sym (append-nil done)), omega arith, refl)
  parse_loop_listing (e ∷ es) done rest w (h, hs) =
      let v : World N F = record w { sys = (os.sys.alloc (length e.name + 1) w.sys).1 } in
      rw (append_assoc, read-encode_entry e h (listing_bytes es ++ rest), healthy.alloc_some)
        (Post-mono (Listed (done ++ e ∷ []) es v) (Listed done (e ∷ es) w)
          (parse_loop os (length es) (listing_bytes es ++ rest) (done ++ e ∷ []) v)
          (λ r t p. (
            p.0 ∙ ap some (append_assoc done (e ∷ []) es),
            omega (arith, p.1, length-append done (e ∷ [])),
            p.2,
          ))
          (parse_loop_listing es (done ++ e ∷ []) rest v hs))

  -- The client's parser gives back the entries of a listing, in order, and their number, and
  -- leaves the connection alone, where no malloc fails and every entry fits the format: a name of
  -- less than 2 ^ 16 bytes and a size below 2 ^ 64.
  pub parse_directory_listing_lem :
      (es : List DirEntry) (w : World N F)
      → All IsEntry es
      → Post
          (λ r t. (entries_of r ≡ es) × (r.entry_count ≡ length es) × (t.net ≡ w.net))
          (parse_directory_listing os (listing_bytes es) w)
  unfolding parse_directory_listing
  parse_directory_listing_lem [] w h = unfold count_entries in (refl, refl, refl)
  parse_directory_listing_lem (e ∷ es) w h =
      let all : List DirEntry = e ∷ es in
      let v : World N F = record w { sys = (os.sys.alloc (length all * cli_entry_size) w.sys).1 } in
      let present : (length all == 0) ≡ false = ground arith in
      rw
        (
          count_entries_listing (length (listing_bytes all)) all h (length-le all),
          present,
          healthy.alloc_some,
          ← append-nil (listing_bytes all),
        )
        (Post-mono (Listed [] all v) _ (parse_loop os (length all) (listing_bytes all ++ []) [] v)
          (λ r t p. (ap entries_of_option p.0, omega (arith, p.1), p.2))
          (parse_loop_listing all [] [] v h))

  abbrev Counted : ℕ → Parsed → World N F → Type 0
  Counted n r t = (length (entries_of r) ≡ n) × (r.entry_count ≡ n)

  parse_loop_count :
      (fuel left : ℕ) (rest : Bytes) (done : List DirEntry) (w : World N F)
      → left ≤ count_entries fuel rest
      → Post (Counted (length done + left)) (parse_loop os left rest done w)
  unfolding parse_loop count_entries
  parse_loop_count fuel zero rest done w h = (omega arith, omega arith)
  parse_loop_count zero (suc left) rest done w h = absurd (omega arith)
  parse_loop_count (suc fuel) (suc left) rest done w h = elim (Option-cases (read_entry rest)) [
    | inl e ↦
        absurd
          (omega (arith, h, ap (count_next (count_entries fuel)) (skip-eq-moved rest ∙ ap moved e)))
    | inr ((entry, more), e) ↦
        let v : World N F = record w { sys = (os.sys.alloc (length entry.name + 1) w.sys).1 } in
        let step : count_entries (suc fuel) rest ≡ 1 + count_entries fuel more =
          ap (count_next (count_entries fuel)) (skip-eq-moved rest ∙ ap moved e) in
        rw (e, healthy.alloc_some)
          (Post-mono (Counted (length (done ++ entry ∷ []) + left))
            (Counted (length done + suc left)) (parse_loop os left more (done ++ entry ∷ []) v)
            (λ r t p. (
              omega (arith, p.0, length-append done (entry ∷ [])),
              omega (arith, p.1, length-append done (entry ∷ [])),
            ))
            (parse_loop_count fuel left more (done ++ entry ∷ []) v (omega (arith, h, step))))
  ]

  -- On any buffer, well formed or not, and where no malloc fails, the parser fills exactly the
  -- entries that its first pass counted, and that count is what it returns.
  pub parse_directory_listing_count :
      (buf : Bytes) (w : World N F)
      → Post (Counted (count_entries (length buf) buf)) (parse_directory_listing os buf w)
  unfolding parse_directory_listing
  parse_directory_listing_count buf w = elim (Bool-cases (count_entries (length buf) buf == 0)) [
    | inl e ↦ rw e (ground arith)
    | inr e ↦
        let k : ℕ = count_entries (length buf) buf in
        let v : World N F = record w { sys = (os.sys.alloc (k * cli_entry_size) w.sys).1 } in
        rw (e, healthy.alloc_some)
          (Post-mono (Counted (0 + k)) (Counted k) (parse_loop os k buf [] v)
            (λ r t p. (omega (arith, p.0), omega (arith, p.1)))
            (parse_loop_count (length buf) k buf [] v (omega arith)))
  ]
