-- ===== src/Listing/Format.antt =====
-- The listing as data: what the server streams is what the client parses.
use isr.Prelude.{
  ℕ, ◌+◌, ◌^◌, ◌<◌, ◌≡◌, refl, sym, ap, ◌∙◌, false, some, List, [], ◌∷◌, ◌++◌, append_assoc, arith,
  Bytes, ltb, length, length-append, take, drop, take-ge, take_prefix, drop_prefix, drop-drop,
}
use isr.Bytes.{to_big_endian, from_big_endian}
use isr.Bytes.BigEndian.{length-to_big_endian}
use isr.Wire.Layout.{first, field, skip, skip_two}
use isr.Listing.{DirEntry, name_length, entry_header}
use isr.Listing.Parse.{read_name_length, skip_entry, read_entry}

-- The fields fit the format.
pub record IsEntry (e : DirEntry) : Type 0 where
  pub name : length e.name < 2 ^ 16
  pub size : e.size < 2 ^ 64

abbrev pub encode_entry : DirEntry → Bytes
encode_entry e = entry_header e ++ take (name_length e.name) e.name

abbrev pub listing_bytes : List DirEntry → Bytes
listing_bytes [] = []
listing_bytes (e ∷ es) = encode_entry e ++ listing_bytes es

skip_entry_at :
    (buf : Bytes) (k : ℕ) (more : Bytes)
    → read_name_length buf ≡ k
    → ltb (length buf) 11 ≡ false
    → ltb (length buf) (11 + k) ≡ false
    → drop (11 + k) buf ≡ more
    → skip_entry buf ≡ some more
unfolding skip_entry
skip_entry_at buf k more hk h h' hm = rw (hk, h, h', hm)

read_entry_at :
    (buf : Bytes) (k : ℕ) (e : DirEntry) (more : Bytes)
    → read_name_length buf ≡ k
    → ltb (length buf) 11 ≡ false
    → ltb (length buf) (11 + k) ≡ false
    → take k (drop 11 buf) ≡ e.name
    → from_big_endian (take 8 (drop 1 buf)) ≡ e.size
    → from_big_endian (take 1 buf) ≡ e.is_dir
    → drop (11 + k) buf ≡ more
    → read_entry buf ≡ some (e, more)
unfolding read_entry
read_entry_at buf k e more hk h h' hn hs hd hm = rw (hk, h, h', hn, hs, hd, hm)

module _ (e : DirEntry) (fits : IsEntry e) (rest : Bytes) where
  abbrev behind_header : Bytes
  behind_header = to_big_endian 8 e.size ++ (to_big_endian 2 (length e.name) ++ (e.name ++ rest))

  whole : encode_entry e ++ rest ≡ e.is_dir ∷ behind_header
  whole =
      let k : name_length e.name ≡ length e.name = omega (arith, fits.name) in
      rw (k, take-ge (length e.name) e.name (omega arith))
        (ap (λ t. e.is_dir ∷ t) (simp append_assoc))

  name_length_lem : read_name_length (e.is_dir ∷ behind_header) ≡ length e.name
  name_length_lem =
      ap (λ t. from_big_endian (take 2 t)) (skip 8 e.size _)
      ∙ field 2 (length e.name) (e.name ++ rest) fits.name

  name_and_rest : drop 11 (e.is_dir ∷ behind_header) ≡ e.name ++ rest
  name_and_rest = skip_two 8 2 e.size (length e.name) (e.name ++ rest)

  rest_lem : drop (11 + length e.name) (e.is_dir ∷ behind_header) ≡ rest
  rest_lem =
      sym (drop-drop 11 (length e.name) (e.is_dir ∷ behind_header))
      ∙ ap (drop (length e.name)) name_and_rest
      ∙ drop_prefix (length e.name) e.name rest refl

  length_whole : length (e.is_dir ∷ behind_header) ≡ 11 + (length e.name + length rest)
  length_whole = omega (
    arith,
    length-append (to_big_endian 8 e.size) (to_big_endian 2 (length e.name) ++ (e.name ++ rest)),
    length-append (to_big_endian 2 (length e.name)) (e.name ++ rest),
    length-append e.name rest,
    length-to_big_endian 8 e.size,
    length-to_big_endian 2 (length e.name),
  )

  fits_header : ltb (length (e.is_dir ∷ behind_header)) 11 ≡ false
  fits_header = rw length_whole (ground arith)

  fits_name : ltb (length (e.is_dir ∷ behind_header)) (11 + length e.name) ≡ false
  fits_name = rw length_whole (ground arith)

  -- An entry at the head of the buffer is read back, and the next one begins behind it.
  pub read-encode_entry : read_entry (encode_entry e ++ rest) ≡ some (e, rest)
  read-encode_entry =
      ap read_entry whole
      ∙ read_entry_at (e.is_dir ∷ behind_header) (length e.name) e rest name_length_lem fits_header
          fits_name
          (ap (take (length e.name)) name_and_rest ∙ take_prefix (length e.name) e.name rest refl)
          (field 8 e.size _ fits.size) (first e.is_dir behind_header) rest_lem

  pub skip-encode_entry : skip_entry (encode_entry e ++ rest) ≡ some rest
  skip-encode_entry =
      ap skip_entry whole
      ∙ skip_entry_at (e.is_dir ∷ behind_header) (length e.name) rest name_length_lem fits_header
          fits_name rest_lem
