-- ===== src/Listing.antt =====
-- Directory listings on the server's side: `isr_transmit_recv_directory_listing` of lib/isr.c
-- (its POSIX half), which collects the entries of a directory, announces their size, waits for
-- the client and streams them with a checksum.
pub mod Parse
pub mod Format
pub mod RoundTrip
pub mod Gather
pub mod Describe
pub mod Stream
pub mod Verified
pub mod Print
pub mod Keeps
use isr.Prelude.{
  ℕ, zero, suc, ◌+◌, ◌-◌, ◌*◌, ◌%◌, ◌^◌, Bool, true, false, ◌||◌, Option, none, some, List, [], ◌∷◌,
  ◌++◌, Bytes, ltb, leb, ◌==◌, if◌then◌else◌, length, take,
}
use isr.Bytes.{to_big_endian, from_big_endian, count_byte_values}
use isr.CText.{copy_string, joined, same_string}
use isr.Io.{
  Io, pure, ◌>>=◌, Status, ok, err, Stat, Os, World, on_sys, ask, unless_err, or_fail, unless_false,
}
use isr.Exact.{send_exact, recv_exact}
use isr.Transfer.{add_block}
use isr.Wire.{path_max, recv_type_directory, recv_unable, send_recv_confirmation}

-- entry_t, and isr_cli_dir_entry_t of lib/isr-cli.h; `is_dir` is a uint8_t.
pub record DirEntry : Type 0 where
  pub name : Bytes
  pub size : ℕ
  pub is_dir : ℕ

-- `uint16_t nlen = (uint16_t)strlen(name);`
abbrev pub name_length : Bytes → ℕ
name_length name = length name % 2 ^ 16

-- The 11 bytes in front of a name.
abbrev pub entry_header : DirEntry → Bytes
entry_header e = e.is_dir ∷ (to_big_endian 8 e.size ++ to_big_endian 2 (name_length e.name))

abbrev pub is_dot : Bytes → Bool
is_dot name = same_string name (b'.' ∷ []) || same_string name (b'.' ∷ b'.' ∷ [])

-- `isr_stat` into variables that are 0.
abbrev pub entry_of : Bytes → Option Stat → DirEntry
entry_of name none = record { name = name; size = 0; is_dir = 0 }
entry_of name (some st) = record {
  name = name;
  size = st.size;
  is_dir = if st.is_dir then 1 else 0;
}

-- sizeof(entry_t)
abbrev pub entry_size : ℕ
entry_size = 272

-- What the loop over the directory has gathered.
pub record Gathered : Type 0 where
  pub entries : List DirEntry
  pub count : ℕ
  pub capacity : ℕ
  pub total_size : ℕ

module _ {N F : Type 0} (os : Os N F) where
  -- One more entry, where there is room for it.
  abbrev pub add_entry : Bytes → Gathered → Bytes → Io (World N F) Gathered
  add_entry path g d_name w =
      let name : Bytes = copy_string 256 d_name in
      let full_path : Bytes = take (path_max - 1) (joined path d_name) in
      let entry : DirEntry = entry_of name (os.sys.stat full_path w.sys) in
      pure
        (record g {
          entries = g.entries ++ entry ∷ [];
          count = g.count + 1;
          total_size = (g.total_size + (1 + 8 + 2 + name_length name)) % 2 ^ 64;
        })
        w

  -- `if (count >= capacity) { capacity *= 2; realloc ... }`
  abbrev pub grow : Gathered → Io (World N F) (Option Gathered)
  grow g =
      if leb g.capacity g.count
      then (on_sys (os.sys.alloc (g.capacity * 2 * entry_size))
          >>= unless_false none (pure (some (record g { capacity = g.capacity * 2 }))))
      else pure (some g)

  -- The loop over `readdir`: what follows for an entry that is not skipped.
  abbrev pub gather_next :
      (Gathered → Io (World N F) (Option Gathered))
      → Bytes
      → Bytes
      → Gathered
      → Io (World N F) (Option Gathered)
  gather_next again path d_name g = grow g >>= or_fail none λ g'. add_entry path g' d_name >>= again

  pub gather : Bytes → List Bytes → Gathered → Io (World N F) (Option Gathered)
  gather path [] g = pure (some g)
  gather path (d_name ∷ more) g =
      if is_dot d_name then gather path more g else gather_next (gather path more) path d_name g

  -- `if (nlen > 0 && net_send_exact(sock, name, nlen) == -1)`
  abbrev pub send_name : ℕ → Bytes → Io (World N F) Status
  send_name nlen name = if ltb 0 nlen then send_exact os (take nlen name) else pure ok

  -- The loop that streams the entries, and what follows it.
  pub stream_entries : List DirEntry → ℕ → Io (World N F) Status
  stream_entries [] checksum = send_exact os (to_big_endian 8 checksum)
  stream_entries (e ∷ es) checksum =
      send_exact os (entry_header e)
      >>= unless_err err (
          send_name (name_length e.name) e.name
          >>= unless_err err (
              stream_entries es (
                add_block (add_block checksum (entry_header e))
                  (take (name_length e.name) e.name))))

  -- After the entries are gathered: the confirmation, the client's answer, and the stream.
  abbrev pub offer_listing : Gathered → Io (World N F) Status
  offer_listing g =
      send_recv_confirmation os recv_type_directory g.total_size
      >>= unless_err err (
          recv_exact os 1
          >>= or_fail err λ go.
            if from_big_endian go == recv_unable then pure ok else stream_entries g.entries 0)

  unfoldable pub transmit_recv_directory_listing : Bytes → Io (World N F) Status
  unfolding gather stream_entries
  transmit_recv_directory_listing path =
      on_sys (os.sys.alloc (256 * entry_size))
      >>= unless_false err (
          on_sys (os.sys.list_dir path)
          >>= or_fail err λ names.
            gather path names (record { entries = []; count = 0; capacity = 256; total_size = 0 })
            >>= or_fail err offer_listing)
