-- ===== src/Tests/Listings.antt =====
-- Directory listings on the machine of the tests.
use isr.Prelude.{
  ℕ, ◌≡◌, refl, true, false, Option, some, none, List, [], ◌∷◌, ◌++◌, arith, Bytes, All, length, ap,
}
use isr.Bytes.{to_big_endian, count_byte_values}
use isr.Io.{Os, Stat}
use isr.Io.Post.{Post}
use isr.Exact.Recv.{waiting}
use isr.Tests.Machine.{
  Link, Disk, link_laws, link-IsReliable, disk, disk-IsHealthy, machine, at, holding,
}
use isr.Listing.{DirEntry, transmit_recv_directory_listing}
use isr.Listing.Format.{IsEntry, listing_bytes}
use isr.Listing.Gather.{StatLaws}
use isr.Listing.Parse.{count_entries, parse_directory_listing, recv_verified_listing}
use isr.Listing.RoundTrip.{entries_of, parse_directory_listing_lem, parse_directory_listing_count}
use isr.Listing.Stream.{Answered, transmit_recv_directory_listing_lem}
use isr.Listing.Verified.{Verified, recv_verified_listing_lem}

abbrev two : List DirEntry
two =
    record { name = 97 ∷ 98 ∷ []; size = 300; is_dir = 0 }
    ∷ record { name = 99 ∷ []; size = 0; is_dir = 1 }
    ∷ []

two-IsEntry : All IsEntry two
two-IsEntry = (
  record { name = omega arith; size = omega arith },
  (record { name = omega arith; size = omega arith }, tt),
)

parse_directory_listing_lem_example :
    Post
      (λ r t. (entries_of r ≡ two) × (r.entry_count ≡ 2) × (t.net ≡ (at [] []).net))
      (parse_directory_listing machine (listing_bytes two) (at [] []))
parse_directory_listing_lem_example =
    parse_directory_listing_lem machine disk-IsHealthy two (at [] []) two-IsEntry

parse_directory_listing_count_example :
    Post
      (λ r t.
        (length (entries_of r) ≡ count_entries 3 (1 ∷ 2 ∷ 3 ∷ []))
        × (r.entry_count ≡ count_entries 3 (1 ∷ 2 ∷ 3 ∷ [])))
      (parse_directory_listing machine (1 ∷ 2 ∷ 3 ∷ []) (at [] []))
parse_directory_listing_count_example =
    parse_directory_listing_count machine disk-IsHealthy (1 ∷ 2 ∷ 3 ∷ []) (at [] [])

-- The sizes of the one entry that there is, and of none.
seven_laws : StatLaws (record disk { stat = λ path f. some (record { is_dir = false; size = 7 }) })
seven_laws = record {
  stat-alloc = λ path k f. refl;
  stat-list_dir = λ path dir f. refl;
  size-lt = λ path f st e. omega (arith, ap size_of e);
}
  where
    size_of : Option Stat → ℕ
    size_of none = 0
    size_of (some st) = st.size

abbrev entries : List (Bytes × Stat)
entries =
    (b'.' ∷ [], record { is_dir = true; size = 0 })
    ∷ (97 ∷ 98 ∷ [], record { is_dir = false; size = 7 })
    ∷ []

abbrev sevens : Os Link Disk
sevens = record machine {
  sys = record disk { stat = λ path f. some (record { is_dir = false; size = 7 }) };
}

transmit_recv_directory_listing_lem_example :
    Post
      (Answered sevens link_laws link-IsReliable seven_laws
        (100 ∷ [])
        ((b'.' ∷ []) ∷ (97 ∷ 98 ∷ []) ∷ [])
        (holding (1 ∷ []) entries))
      (transmit_recv_directory_listing sevens (100 ∷ []) (holding (1 ∷ []) entries))
transmit_recv_directory_listing_lem_example =
    transmit_recv_directory_listing_lem sevens link_laws link-IsReliable seven_laws (100 ∷ [])
      ((b'.' ∷ []) ∷ (97 ∷ 98 ∷ []) ∷ []) 1 [] (holding (1 ∷ []) entries) refl
      (λ e. omega (arith, e)) refl

recv_verified_listing_lem_example :
    Post
      (Verified machine link_laws 2 (at (1 ∷ 2 ∷ 3 ∷ []) []))
      (recv_verified_listing machine 2 (at (1 ∷ 2 ∷ 3 ∷ []) []))
recv_verified_listing_lem_example =
    recv_verified_listing_lem machine link_laws 2 (at (1 ∷ 2 ∷ 3 ∷ []) [])

abbrev with_checksum : Bytes
with_checksum = 1 ∷ 2 ∷ 0 ∷ 0 ∷ 0 ∷ 0 ∷ 0 ∷ 0 ∷ 0 ∷ 3 ∷ 9 ∷ []

with_checksum_lem :
    waiting machine link_laws (at with_checksum [])
    ≡ (1 ∷ 2 ∷ []) ++ (to_big_endian 8 (count_byte_values (1 ∷ 2 ∷ [])) ++ 9 ∷ [])
unfolding to_big_endian count_byte_values
with_checksum_lem = refl
