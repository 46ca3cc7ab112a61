-- ===== src/Listing/Parse.antt =====
-- Directory listings on the client's side: `isr_cli_parse_directory_listing` and
-- `recv_verified_listing` of lib/isr-cli.c, `isr_receive_directory_listing` of lib/isr.c.
-- A position in a buffer is the list of the bytes from there on.
use isr.Prelude.{
  ℕ, zero, suc, ◌+◌, ◌-◌, ◌*◌, ◌/◌, ◌%◌, Option, none, some, List, [], ◌∷◌, ◌++◌, Bytes, ltb, ◌==◌,
  if◌then◌else◌, length, take, drop, replicate,
}
use isr.Bytes.{from_big_endian, count_byte_values}
use isr.CText.{c_string, text}
use isr.Io.{Io, pure, ◌>>=◌, Status, ok, err, Os, World, on_sys, or_fail, unless_false}
use isr.Exact.{recv_exact}
use isr.Wire.{path_max}
use isr.Listing.{DirEntry}

-- The name length of the entry that begins here.
abbrev pub read_name_length : Bytes → ℕ
read_name_length rest = from_big_endian (take 2 (drop 9 rest))

-- One round of the counting loop: where the next entry begins. `none` leaves the loop.
unfoldable pub skip_entry : Bytes → Option Bytes
skip_entry rest =
    if ltb (length rest) 11
    then none
    else if ltb (length rest) (11 + read_name_length rest)
    then none
    else some (drop (11 + read_name_length rest) rest)

abbrev pub count_next : (Bytes → ℕ) → Option Bytes → ℕ
count_next again none = 0
count_next again (some more) = 1 + again more

-- The counting loop. Each round takes 11 bytes at least, so `length rest` rounds are enough.
unfoldable pub count_entries : ℕ → Bytes → ℕ
count_entries zero rest = 0
count_entries (suc fuel) rest = count_next (count_entries fuel) (skip_entry rest)

-- One round of the parsing loop: the entry and where the next one begins.
unfoldable pub read_entry : Bytes → Option (DirEntry × Bytes)
read_entry rest =
    if ltb (length rest) 11
    then none
    else if ltb (length rest) (11 + read_name_length rest)
    then none
    else some (
      record {
        name = take (read_name_length rest) (drop 11 rest);
        size = from_big_endian (take 8 (drop 1 rest));
        is_dir = from_big_endian (take 1 rest);
      },
      drop (11 + read_name_length rest) rest,
    )

-- What the caller gets: the array, or NULL, and the count.
pub record Parsed : Type 0 where
  pub entries : Option (List DirEntry)
  pub entry_count : ℕ

abbrev pub nothing : Parsed
nothing = record { entries = none; entry_count = 0 }

-- sizeof(isr_cli_dir_entry_t)
abbrev pub cli_entry_size : ℕ
cli_entry_size = 24

-- The decimal digits of `n` in front of `behind`; 20 rounds are enough below 2 ^ 64.
unfoldable pub digits_onto : ℕ → ℕ → Bytes → Bytes
digits_onto zero n behind = behind
digits_onto (suc fuel) n behind =
    let rest = digits_onto fuel (n / 10) ((b'0' + n % 10) ∷ behind) in
    if ltb n 10 then (b'0' + n) ∷ behind else rest

-- `%10lu`
abbrev pub padded : ℕ → Bytes
padded n = let digits : Bytes = digits_onto 20 n [] in replicate (10 - length digits) b' ' ++ digits

-- The line of one entry; the name goes through a buffer of ISR_PATH_MAX.
unfoldable pub listing_line : DirEntry → Bytes
unfolding digits_onto c_string
listing_line e =
    let name : Bytes = c_string (take (path_max - 1) e.name) in
    if e.is_dir == 1
    then text "  [DIR]  " ++ (name ++ text "\n")
    else text "  " ++ (padded e.size ++ (text "  " ++ (name ++ text "\n")))

module _ {N F : Type 0} (os : Os N F) where
  -- The body of the parsing loop: a name that cannot be stored gives up the whole array.
  abbrev pub parse_next :
      (Bytes → List DirEntry → Io (World N F) Parsed)
      → List DirEntry
      → Option (DirEntry × Bytes)
      → Io (World N F) Parsed
  parse_next again done none = pure (record { entries = some done; entry_count = length done })
  parse_next again done (some (e, more)) =
      on_sys (os.sys.alloc (length e.name + 1))
      >>= unless_false nothing (again more (done ++ e ∷ []))

  -- The parsing loop, on the number of entries that are still expected.
  unfoldable pub parse_loop : ℕ → Bytes → List DirEntry → Io (World N F) Parsed
  parse_loop zero rest done = pure (record { entries = some done; entry_count = length done })
  parse_loop (suc left) rest done = parse_next (parse_loop left) done (read_entry rest)

  unfoldable pub parse_directory_listing : Bytes → Io (World N F) Parsed
  unfolding count_entries parse_loop
  parse_directory_listing buf =
      let count : ℕ = count_entries (length buf) buf in
      if count == 0
      then pure nothing
      else (on_sys (os.sys.alloc (count * cli_entry_size))
          >>= unless_false nothing (parse_loop count buf []))

  -- The listing, if its checksum is right.
  unfoldable pub recv_verified_listing : ℕ → Io (World N F) (Option Bytes)
  recv_verified_listing effective_length =
      on_sys (os.sys.alloc effective_length)
      >>= unless_false none (
          recv_exact os effective_length
          >>= or_fail none λ buf.
            recv_exact os 8
            >>= or_fail none λ wire.
              pure (if from_big_endian wire == count_byte_values buf then some buf else none))

  -- The body of the loop of `isr_receive_directory_listing` that parses and prints.
  abbrev pub print_next :
      (Bytes → Io (World N F) Status) → Option (DirEntry × Bytes) → Io (World N F) Status
  print_next again none = pure ok
  print_next again (some (e, more)) =
      λ w. again more (record w { sys = os.sys.print (listing_line e) w.sys })

  unfoldable pub print_entries : ℕ → Bytes → Io (World N F) Status
  print_entries zero rest = pure ok
  print_entries (suc fuel) rest = print_next (print_entries fuel) (read_entry rest)

  unfoldable pub receive_directory_listing : ℕ → Io (World N F) Status
  unfolding print_entries recv_verified_listing
  receive_directory_listing effective_length =
      recv_verified_listing effective_length >>= or_fail err λ buf. print_entries (length buf) buf
