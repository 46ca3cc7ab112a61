-- ===== src/Tests/Trees.antt =====
-- Trees uploaded from a disk that has one, and downloaded from a listing.
use isr.Prelude.{
  ◌≡◌, refl, length, true, false, some, List, [], ◌∷◌, ◌++◌, arith, if◌then◌else◌, Bytes,
}
use isr.Bytes.{to_big_endian, count_byte_values}
use isr.CText.{text, same_string, split_last}
use isr.Io.{Sys, Os}
use isr.Tests.Machine.{
  Link, Disk, link, link_laws, link-IsReliable, disk, disk-IsHealthy, marking, machine, at,
  base_name,
}
use isr.Wire.{encode_confirmation, recv_type_directory}
use isr.Listing.{DirEntry}
use isr.Listing.Format.{listing_bytes}
use isr.Client.{download_file}
use isr.Trees.{send_directory, download_directory}
use isr.Trees.Upload.{Entries, end, file, folder, upload_tree, send_directory_lem}
use isr.Trees.Download.{FollowsListing, download_directory_lem}

-- A directory with a file and a directory, which has a file; every other directory is like it.
abbrev grown : Sys Disk
grown = record disk {
  stat = λ path f. some (record { is_dir = same_string (base_name path) (text "s"); size = 1 });
  list_dir = λ path f. (
    some (
        if same_string (base_name path) (text "s")
        then text "b" ∷ []
        else text "." ∷ text "a" ∷ text "s" ∷ []),
    f,
  );
}

abbrev grower : Os Link Disk
grower = record { net = link; sys = grown; lz4 = marking }

abbrev inside_d : Entries
inside_d = file (text "a") (folder (text "s") (file (text "b") end) end)

send_directory_lem_example :
    send_directory grower 2 3 (text "h") (text "1") 0 0 (text "r") (text "d") (at [] [])
    ≡ upload_tree grower 3 (text "h") (text "1") 0 0 inside_d (text "r") (text "d") (at [] [])
unfolding same_string split_last
send_directory_lem_example =
    send_directory_lem grower 3 (text "h") (text "1") 0 0 2 inside_d (text "r") (text "d")
      (at [] []) (omega arith) (text "." ∷ text "a" ∷ text "s" ∷ [], (λ f. refl), refl)
      (
        λ f. (record { is_dir = false; size = 1 }, refl, refl),
        (
          λ f. (record { is_dir = true; size = 1 }, refl, refl),
          (text "b" ∷ [], (λ f. refl), refl),
          (λ f. (record { is_dir = false; size = 1 }, refl, refl), tt),
          tt,
        ),
      )

-- A name that leads out of the local directory.
abbrev outside : List DirEntry
outside = record { name = text "../x"; size = 2; is_dir = 0 } ∷ []

abbrev listing_stream : Bytes
listing_stream =
    encode_confirmation (record { response_type = recv_type_directory; effective_length = 15 })
    ++ (listing_bytes outside
        ++ (to_big_endian 8 (count_byte_values (listing_bytes outside)) ++ []))

outside_size : length (listing_bytes outside) ≡ 15
unfolding to_big_endian
outside_size = refl

download_directory_lem_example :
    FollowsListing machine
      (download_directory machine 2 3 (text "h") (text "1") 0 0)
      (λ remote local. download_file machine 3 (text "h") (text "1") remote local 0 0)
      (text "r")
      (text "d")
      outside
      (download_directory machine 3 3 (text "h") (text "1") 0 0 (text "r") (text "d"))
      (at listing_stream [])
unfolding to_big_endian
download_directory_lem_example =
    download_directory_lem machine link_laws link-IsReliable disk-IsHealthy 2 3 (text "h")
      (text "1") 0 0 (text "r") (text "d") outside [] (at listing_stream [])
      (record { name = omega arith; size = omega arith }, tt) (omega arith) (omega arith) refl refl
