-- ===== src/Listing/Print.antt =====
-- What the client prints of a listing.
use isr.Prelude.{
  ◌+◌, ◌-◌, ◌*◌, ◌/◌, ◌%◌, ◌^◌, ◌<◌, ltb, replicate, Bool-cases, inl, inr, ◌∙◌, ◌==◌, false, ◌≢◌,
  take, ℕ, zero, suc, ◌≤◌, ◌≡◌, refl, ap, true, some, List, [], ◌∷◌, ◌++◌, arith, Bytes, All,
  length,
}
use isr.Bytes.{to_big_endian, count_byte_values}
use isr.Io.{ret, ok, ◌>>=◌, Os, World}
use isr.Io.Post.{Post, Post-this}
use isr.Exact.Laws.{StreamLaws, IsReliable}
use isr.Exact.Recv.{waiting}
use isr.Listing.{DirEntry}
use isr.CText.{text, c_string}
use isr.Listing.Parse.{
  digits_onto, padded, read_entry, listing_line, print_entries, recv_verified_listing,
  receive_directory_listing,
}
use isr.Listing.Format.{IsEntry, listing_bytes, read-encode_entry}
use isr.Listing.RoundTrip.{length-le}
use isr.Listing.Verified.{Taken, recv_verified_listing_accepts}

-- The name as it is printed: through a buffer of 4096 bytes, up to a zero byte.
abbrev pub printed_name : DirEntry → Bytes
printed_name e = c_string (take 4095 e.name)

abbrev pub IsDigit : ℕ → Type 0
IsDigit d = (b'0' ≤ d) × (d ≤ b'9')

-- The number that digits spell behind those that spell `n`.
abbrev pub value_onto : ℕ → Bytes → ℕ
value_onto n [] = n
value_onto n (d ∷ ds) = value_onto (n * 10 + (d - b'0')) ds

-- A number in decimal, with spaces in front up to ten characters.
abbrev pub IsColumn : ℕ → Bytes → Type 0
IsColumn n column =
    (digits : Bytes) × All IsDigit digits
    × (value_onto 0 digits ≡ n)
    × (column ≡ replicate (10 - length digits) b' ' ++ digits)

-- 10 ^ fuel
abbrev power_of_ten : ℕ → ℕ
power_of_ten zero = 1
power_of_ten (suc fuel) = 10 * power_of_ten fuel

digits_onto-value :
    (fuel n : ℕ) (behind : Bytes)
    → n < power_of_ten fuel
    → value_onto 0 (digits_onto fuel n behind) ≡ value_onto n behind
unfolding digits_onto
digits_onto-value zero n behind fits =
    let none_left : 0 ≡ n = omega arith in ap (λ k. value_onto k behind) none_left
digits_onto-value (suc fuel) n behind fits = elim (Bool-cases (ltb n 10)) [
  | inl e ↦
      let one : 0 * 10 + (b'0' + n - b'0') ≡ n = omega arith in
      rw e (ap (λ k. value_onto k behind) one)
  | inr e ↦
      let whole : n / 10 * 10 + (b'0' + n % 10 - b'0') ≡ n = omega arith in
      rw e (
        digits_onto-value fuel (n / 10) ((b'0' + n % 10) ∷ behind) (omega arith)
        ∙ ap (λ k. value_onto k behind) whole)
]

digits_onto-IsDigit :
    (fuel n : ℕ) (behind : Bytes) → All IsDigit behind → All IsDigit (digits_onto fuel n behind)
unfolding digits_onto
digits_onto-IsDigit zero n behind h = h
digits_onto-IsDigit (suc fuel) n behind h = elim (Bool-cases (ltb n 10)) [
  | inl e ↦ rw e (ground (arith, e), h)
  | inr e ↦
      rw e (
        digits_onto-IsDigit fuel (n / 10) ((b'0' + n % 10) ∷ behind)
          ((omega arith, omega arith), h))
]

padded-IsColumn : (n : ℕ) → n < 2 ^ 64 → IsColumn n (padded n)
padded-IsColumn n fits = (
  digits_onto 20 n [],
  digits_onto-IsDigit 20 n [] tt,
  digits_onto-value 20 n [] (omega arith),
  refl,
)

-- The line of a directory, and of anything else.
abbrev pub IsLine : DirEntry → Bytes → Type 0
IsLine e line =
    (e.is_dir ≡ 1 → line ≡ text "  [DIR]  " ++ (printed_name e ++ text "\n"))
    × (e.is_dir ≢ 1
        → (column : Bytes) × IsColumn e.size column
          × (line ≡ text "  " ++ (column ++ (text "  " ++ (printed_name e ++ text "\n")))))

-- One line for each entry, in order.
abbrev pub AreLines : List DirEntry → List Bytes → Type 0
AreLines [] [] = Unit
AreLines [] (line ∷ lines) = ⊥
AreLines (e ∷ es) [] = ⊥
AreLines (e ∷ es) (line ∷ lines) = IsLine e line × AreLines es lines

listing_line-IsLine : (e : DirEntry) → IsEntry e → IsLine e (listing_line e)
unfolding listing_line
listing_line-IsLine e fits =
    let first : e.is_dir ≡ 1 → (e.is_dir == 1) ≡ true = λ h. ground (arith, h) in
    let other : e.is_dir ≢ 1 → (e.is_dir == 1) ≡ false = λ h. ground (arith, h) in
    (
      λ h. rw (first h) refl,
      λ h. rw (other h) (padded e.size, padded-IsColumn e.size fits.size, refl),
    )

abbrev pub lines_of : List DirEntry → List Bytes
lines_of [] = []
lines_of (e ∷ es) = listing_line e ∷ lines_of es

pub lines_of-AreLines : (es : List DirEntry) → All IsEntry es → AreLines es (lines_of es)
lines_of-AreLines [] h = tt
lines_of-AreLines (e ∷ es) (h, hs) = (listing_line-IsLine e h, lines_of-AreLines es hs)

module _ {N F : Type 0} (os : Os N F) where
  -- The lines, printed in order.
  abbrev pub print_all : List Bytes → F → F
  print_all [] f = f
  print_all (line ∷ lines) f = print_all lines (os.sys.print line f)

  print_entries_lem :
      (es : List DirEntry) (fuel : ℕ) (w : World N F)
      → All IsEntry es
      → length es ≤ fuel
      → print_entries os fuel (listing_bytes es) w
        ≡ ret ok (record w { sys = print_all (lines_of es) w.sys })
  unfolding print_entries read_entry
  print_entries_lem [] zero w h le = refl
  print_entries_lem [] (suc fuel) w h le = refl
  print_entries_lem (e ∷ es) zero w h le = absurd (omega arith)
  print_entries_lem (e ∷ es) (suc fuel) w (h, hs) le =
      rw (read-encode_entry e h (listing_bytes es)) (
        print_entries_lem es fuel (record w { sys = os.sys.print (listing_line e) w.sys }) hs
          (omega arith))

module _ {N F : Type 0} (os : Os N F) (stream : StreamLaws os.net)
    (reliable : IsReliable stream) where
  abbrev pub Printed : List DirEntry → Bytes → World N F → World N F → Type 0
  Printed es rest w t =
      (waiting os stream t ≡ rest)
      × (t.sys ≡ print_all os (lines_of es) (os.sys.alloc (length (listing_bytes es)) w.sys).1)

  pub receive_directory_listing_lem :
      (es : List DirEntry) (rest : Bytes) (w : World N F)
      → All IsEntry es
      → (os.sys.alloc (length (listing_bytes es)) w.sys).0 ≡ true
      → waiting os stream w
        ≡ listing_bytes es ++ (to_big_endian 8 (count_byte_values (listing_bytes es)) ++ rest)
      → Post
          (λ r t. (r ≡ ok) × Printed es rest w t)
          (receive_directory_listing os (length (listing_bytes es)) w)
  unfolding receive_directory_listing
  receive_directory_listing_lem es rest w fit a holds =
      let buf : Bytes = listing_bytes es in
      let (t, e, (left, taken)) =
        Post-this (some buf) (Taken os stream (length buf) rest w)
          (recv_verified_listing os (length buf) w)
          (recv_verified_listing_accepts os stream reliable buf rest w a holds) in
      rw (e, ◌>>=◌)
        (rw (print_entries_lem os es (length buf) t fit (length-le es))
          (refl, (left, ap (print_all os (lines_of es)) taken)))
