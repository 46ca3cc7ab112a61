-- ===== src/Listing/Keeps.antt =====
-- A listing touches the files by reading the directory and by allocations only.
use isr.Prelude.{
  zero, suc, ◌+◌, ◌++◌, length, Option, ℕ, ◌*◌, ◌==◌, leb, ltb, none, some, List, [], ◌∷◌, Bytes,
  take,
}
use isr.Bytes.{to_big_endian, from_big_endian}
use isr.Io.{Io, World, pure, ok, err, Os, on_sys}
use isr.Io.Keeps.{KeptByTransfers, Keeps, Keeps-bind, Keeps-err, Keeps-fail, Keeps-false, Keeps-if}
use isr.Exact.{send_exact, recv_exact}
use isr.Exact.Keeps.{send_exact-Keeps, recv_exact-Keeps}
use isr.Transfer.{add_block}
use isr.Wire.{recv_unable, recv_type_directory, send_recv_confirmation, encode_confirmation}
use isr.Listing.Parse.{
  Parsed, cli_entry_size, count_entries, nothing, parse_next, parse_loop, read_entry,
  parse_directory_listing,
}
use isr.Listing.{
  Gathered, DirEntry, is_dot, add_entry, grow, gather, send_name, stream_entries, offer_listing,
  transmit_recv_directory_listing, entry_header, name_length, entry_size,
}

module _ {N F : Type 0} (os : Os N F) (I : F → Type 0) (kept : KeptByTransfers os.sys I) where
  pub send_recv_confirmation-Keeps :
      (response_type effective_length : ℕ)
      → Keeps I (send_recv_confirmation os response_type effective_length)
  unfolding send_recv_confirmation
  send_recv_confirmation-Keeps response_type effective_length = send_exact-Keeps os I kept (
      encode_confirmation
        (record { response_type = response_type; effective_length = effective_length }))

  grow-Keeps : (g : Gathered) → Keeps I (grow os g)
  grow-Keeps g =
      Keeps-if I (leb g.capacity g.count) _ (pure (some g))
        (Keeps-false I (on_sys (os.sys.alloc (g.capacity * 2 * entry_size))) none _
          (λ w i. kept.alloc (g.capacity * 2 * entry_size) w.sys i) (λ w i. i))
        (λ w i. i)

  gather-Keeps :
      (path : Bytes) (names : List Bytes) (g : Gathered) → Keeps I (gather os path names g)
  unfolding gather
  gather-Keeps path [] g = λ w i. i
  gather-Keeps path (d_name ∷ more) g =
      Keeps-if I (is_dot d_name) (gather os path more g) _ (gather-Keeps path more g) (
        Keeps-fail I (grow os g) none _ (grow-Keeps g) λ g'.
          Keeps-bind I (add_entry os path g' d_name) (gather os path more) (λ w i. i)
            (λ g''. gather-Keeps path more g''))

  stream_entries-Keeps :
      (es : List DirEntry) (checksum : ℕ) → Keeps I (stream_entries os es checksum)
  unfolding stream_entries
  stream_entries-Keeps [] checksum = send_exact-Keeps os I kept (to_big_endian 8 checksum)
  stream_entries-Keeps (e ∷ es) checksum =
      Keeps-err I (send_exact os (entry_header e)) err _
        (send_exact-Keeps os I kept (entry_header e))
        (Keeps-err I (send_name os (name_length e.name) e.name) err _
          (Keeps-if I (ltb 0 (name_length e.name)) _ (pure ok)
            (send_exact-Keeps os I kept (take (name_length e.name) e.name)) (λ w i. i))
          (stream_entries-Keeps es
            (add_block (add_block checksum (entry_header e)) (take (name_length e.name) e.name))))

  pub transmit_recv_directory_listing-Keeps :
      (path : Bytes)
      → ((f : F) → I f → I (os.sys.list_dir path f).1)
      → Keeps I (transmit_recv_directory_listing os path)
  unfolding transmit_recv_directory_listing
  transmit_recv_directory_listing-Keeps path lists =
      Keeps-false I (on_sys (os.sys.alloc (256 * entry_size))) err _
        (λ w i. kept.alloc (256 * entry_size) w.sys i)
        (Keeps-fail I (on_sys (os.sys.list_dir path)) err _ (λ w i. lists w.sys i)
          λ names.
            Keeps-fail I
              (gather os path names
                (record { entries = []; count = 0; capacity = 256; total_size = 0 }))
              err (offer_listing os)
              (gather-Keeps path names
                (record { entries = []; count = 0; capacity = 256; total_size = 0 }))
              λ g.
                Keeps-err I (send_recv_confirmation os recv_type_directory g.total_size) err _
                  (send_recv_confirmation-Keeps recv_type_directory g.total_size)
                  (Keeps-fail I (recv_exact os 1) err _ (recv_exact-Keeps os I kept 1) λ go.
                    Keeps-if I (from_big_endian go == recv_unable) (pure ok)
                      (stream_entries os g.entries 0) (λ w i. i)
                      (stream_entries-Keeps g.entries 0)))

module _ {N F : Type 0} (os : Os N F) (I : F → Type 0)
    (allocs : (k : ℕ) (f : F) → I f → I (os.sys.alloc k f).1) where
  parse_next-Keeps :
      (again : Bytes → List DirEntry → Io (World N F) Parsed) (done : List DirEntry)
      → ((more : Bytes) (found : List DirEntry) → Keeps I (again more found))
      → (o : Option (DirEntry × Bytes)) → Keeps I (parse_next os again done o)
  parse_next-Keeps again done h none = λ w i. i
  parse_next-Keeps again done h (some (e, more)) =
      Keeps-false I (on_sys (os.sys.alloc (length e.name + 1))) nothing _
        (λ w i. allocs (length e.name + 1) w.sys i) (h more (done ++ e ∷ []))

  parse_loop-Keeps :
      (left : ℕ) (rest : Bytes) (done : List DirEntry) → Keeps I (parse_loop os left rest done)
  unfolding parse_loop
  parse_loop-Keeps zero rest done = λ w i. i
  parse_loop-Keeps (suc left) rest done =
      parse_next-Keeps (parse_loop os left) done (parse_loop-Keeps left) (read_entry rest)

  -- The client's parser touches the files by allocations only.
  pub parse_directory_listing-Keeps : (buf : Bytes) → Keeps I (parse_directory_listing os buf)
  unfolding parse_directory_listing
  parse_directory_listing-Keeps buf =
      let count : ℕ = count_entries (length buf) buf in
      Keeps-if I (count == 0) (pure nothing) _ (λ w i. i)
        (Keeps-false I (on_sys (os.sys.alloc (count * cli_entry_size))) nothing _
          (λ w i. allocs (count * cli_entry_size) w.sys i) (parse_loop-Keeps count buf []))
