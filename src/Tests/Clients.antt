-- ===== src/Tests/Clients.antt =====
-- The client on the machine of the tests.
use isr.Prelude.{inr, ◌≡◌, refl, List, All, length, [], ◌∷◌, ◌++◌, arith, Bytes}
use isr.Bytes.{to_big_endian, count_byte_values}
use isr.CText.{text}
use isr.Io.Post.{Post}
use isr.Io.{Os}
use isr.Listing.{DirEntry}
use isr.Listing.Format.{IsEntry, listing_bytes}
use isr.Client.Listing.{heading, Shown, cli_recv_lists}
use isr.Tests.Machine.{
  Link, Disk, disk, link_laws, link-IsReliable, disk_laws, disk-IsHealthy, machine, at,
}
use isr.Wire.{encode_confirmation, recv_type_file, recv_type_directory}
use isr.Server.Upload.{OpensAs}
use isr.Client.{download_file, cli_recv}
use isr.Client.Received.{IsLastComponent, Kept, stored_at, cli_recv_stores}
use isr.Client.Download.{Stored, download_file_stores}

opening : OpensAs disk_laws (text "a") 4
opening = record { opens = λ f. refl; truncates = λ f. refl; closes = λ f. refl }

abbrev answered : Bytes
answered = 0 ∷ 0 ∷ 0 ∷ 0 ∷ 0 ∷ 0 ∷ 0 ∷ 0 ∷ 2 ∷ 5 ∷ 6 ∷ 0 ∷ 0 ∷ 0 ∷ 0 ∷ 0 ∷ 0 ∷ 0 ∷ 11 ∷ []

answered_lem :
    answered
    ≡ encode_confirmation (record { response_type = recv_type_file; effective_length = 2 })
      ++ (((5 ∷ 6 ∷ []) ++ to_big_endian 8 (count_byte_values (5 ∷ 6 ∷ []))) ++ [])
unfolding encode_confirmation to_big_endian count_byte_values
answered_lem = refl

download_file_stores_example :
    Post
      (Stored machine link_laws link-IsReliable disk_laws disk-IsHealthy
        (text "a")
        4
        opening
        (5 ∷ 6 ∷ [])
        []
        (omega arith, (omega arith, tt))
        (omega arith)
        0
        131072)
      (download_file machine 3
        (text "h")
        (text "1")
        (text "r/a")
        (text "a")
        0
        131072
        (at answered []))
download_file_stores_example =
    download_file_stores machine link_laws link-IsReliable disk_laws disk-IsHealthy (text "a") 4
      opening (5 ∷ 6 ∷ []) [] (omega arith, (omega arith, tt)) (omega arith) 0 131072 refl 3
      (text "h") (text "1") (text "r/a") (at answered []) (omega arith) refl answered_lem

abbrev last_a : IsLastComponent (text "a") (text "r/a")
last_a = (((λ e. omega (arith, e)), tt), inr (text "r", refl))

cli_recv_opening : OpensAs disk_laws (stored_at (text "a") (text "d")) 4
cli_recv_opening = record { opens = λ f. refl; truncates = λ f. refl; closes = λ f. refl }

cli_recv_stores_example :
    Post
      (Kept machine link_laws link-IsReliable disk_laws disk-IsHealthy
        (text "r/a")
        (text "a")
        (text "d")
        last_a
        4
        cli_recv_opening
        (5 ∷ 6 ∷ [])
        []
        (omega arith, (omega arith, tt))
        (omega arith)
        0
        131072
        refl)
      (cli_recv machine 3 (text "h") (text "1") (text "r/a") (text "d") 0 131072 (at answered []))
cli_recv_stores_example =
    cli_recv_stores machine link_laws link-IsReliable disk_laws disk-IsHealthy (text "r/a")
      (text "a") (text "d") last_a 4 cli_recv_opening (5 ∷ 6 ∷ []) []
      (omega arith, (omega arith, tt)) (omega arith) 0 131072 refl 3 (text "h") (text "1")
      (at answered []) (omega arith) refl answered_lem

-- What is printed is kept.
abbrev printing : Os Link Disk
printing = record machine {
  sys = record disk { print = λ line f. record f { written = f.written ++ line } };
}

abbrev listed : List DirEntry
listed =
    record { name = 97 ∷ []; size = 3; is_dir = 0 }
    ∷ record { name = 98 ∷ []; size = 0; is_dir = 1 }
    ∷ []

listed-IsEntry : All IsEntry listed
listed-IsEntry = (
  record { name = omega arith; size = omega arith },
  (record { name = omega arith; size = omega arith }, tt),
)

abbrev listing_answer : Bytes
listing_answer =
    1 ∷ (0 ∷ 0 ∷ 0 ∷ 0 ∷ 0 ∷ 0 ∷ 0 ∷ 24 ∷ [])
    ++ (0 ∷ 0 ∷ 0 ∷ 0 ∷ 0 ∷ 0 ∷ 0 ∷ 0 ∷ 3 ∷ 0 ∷ 1 ∷ 97 ∷ [])
    ++ (1 ∷ 0 ∷ 0 ∷ 0 ∷ 0 ∷ 0 ∷ 0 ∷ 0 ∷ 0 ∷ 0 ∷ 1 ∷ 98 ∷ [])
    ++ (0 ∷ 0 ∷ 0 ∷ 0 ∷ 0 ∷ 0 ∷ 0 ∷ 201 ∷ [])

listing_answer_lem :
    listing_answer
    ≡ encode_confirmation (record {
      response_type = recv_type_directory;
      effective_length = length (listing_bytes listed);
    })
      ++ (listing_bytes listed
          ++ (to_big_endian 8 (count_byte_values (listing_bytes listed)) ++ []))
unfolding encode_confirmation to_big_endian count_byte_values
listing_answer_lem = refl

cli_recv_lists_example :
    Post
      (Shown printing link_laws link-IsReliable listed [] listed-IsEntry (
        heading printing link_laws link-IsReliable listed [] listed-IsEntry
          (text "r")
          (at listing_answer []).sys))
      (cli_recv printing 3
        (text "h")
        (text "1")
        (text "r")
        (text ".")
        0
        131072
        (at listing_answer []))
unfolding to_big_endian
cli_recv_lists_example =
    cli_recv_lists printing link_laws link-IsReliable listed [] listed-IsEntry 3 (text "h")
      (text "1") (text "r") (text ".") 0 131072 (at listing_answer []) (omega arith) (omega arith)
      refl refl listing_answer_lem
