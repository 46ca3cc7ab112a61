-- ===== src/Tests/Downloads.antt =====
-- Downloads between two machines of the tests.
use isr.Tests.Sessions.{content, a_string}
use isr.Prelude.{◌≡◌, refl, false, some, [], ◌∷◌, ◌++◌, arith, Bytes}
use isr.CText.{text, char_at, starts_with, copy_string, c_string, split_last, same_string}
use isr.Io.{Os, Outcome, ret, stuck, fault, ok, Stat, World}
use isr.Compressed.{transmit_file_compressed}
use isr.Compressed.RoundTrip.{beside}
use isr.Paths.{validate_path, scan, resolve_path}
use isr.Wire.{encode_recv_header, decode_recv_header, send_recv_confirmation, encode_confirmation}
use isr.Exact.{send_exact, recv_exact}
use isr.Bytes.{to_big_endian, from_big_endian_onto, count_byte_values, count_onto}
use isr.Tests.Blocks.{marking_laws}
use isr.Session.PackedDownload.{compressed_download_session}
use isr.Io.Post.{Post}
use isr.Tests.Machine.{
  Link, Disk, link, link_laws, link-IsReliable, disk_laws, disk-IsHealthy, machine, at, holding,
}
use isr.Tests.Files.{
  readable, readable_laws, readable-IsHealthy, reading, opening, a_valid, a_resolves,
}
use isr.Server.{Reply, receive_command, receive_recv_command}
use isr.Client.{download_file}
use isr.Client.Said.{download_request}
use isr.Server.Download.{file_answer}
use isr.Session.Download.{Fetched, Answered, IsOffered, download_session}
use isr.Main.Serve.{no_info}

abbrev two_bytes : Stat
two_bytes = record { is_dir = false; size = 2 }

abbrev asked : Bytes
asked = download_request (text "a") 0 0

abbrev asking_world : World Link Disk
asking_world = at (file_answer two_bytes content ++ []) []

abbrev offering_world : World Link Disk
offering_world = holding (asked ++ []) ((text "a", two_bytes) ∷ [])

offered_found : readable.sys.stat (text "/r/a") offering_world.sys ≡ some two_bytes
unfolding split_last same_string
offered_found = refl

offered : IsOffered readable (text "/r") (text "/r/a") (text "a") 0 0 two_bytes offering_world
offered = record {
  flags_fit = omega arith;
  block_size_fits = omega arith;
  short = omega arith;
  is_string = a_string;
  is_valid = a_valid;
  resolves = a_resolves;
  is_there = offered_found;
  is_file = refl;
}

download_session_example :
    Post
      (Fetched machine link_laws disk_laws 4 content [] asked)
      (download_file machine 3 (text "h") (text "1") (text "a") (text "/r/a") 0 0 asking_world)
    × Post
        (Answered readable link_laws (file_answer two_bytes content) offering_world)
        (receive_command readable 3 (text "/r") no_info offering_world)
download_session_example =
    download_session content (omega arith, (omega arith, tt)) (omega arith) 0 0 (text "a") two_bytes
      machine link_laws link-IsReliable disk_laws disk-IsHealthy (λ n. refl) (text "/r/a") 4 opening
      readable link_laws link-IsReliable readable_laws readable-IsHealthy (text "/r") (text "/r/a")
      3 reading 3 3 (text "h") (text "1") no_info [] [] asking_world offering_world refl offered
      (omega arith) refl refl refl refl

abbrev packed_asked : Bytes
packed_asked = download_request (text "a") 1 2

abbrev packed_offering : World Link Disk
packed_offering = holding (packed_asked ++ []) ((text "a", two_bytes) ∷ [])

abbrev packing : Os Link Disk
packing = beside machine link readable.sys

abbrev packed_answering : Outcome (World Link Disk) Reply
packed_answering = receive_command packing 3 (text "/r") no_info packed_offering

abbrev answered_by : Outcome (World Link Disk) Reply → Reply × World Link Disk
answered_by (ret r t) = (r, t)
answered_by stuck = ((ok, no_info), packed_offering)
answered_by fault = ((ok, no_info), packed_offering)

packed_answering_lem :
    packed_answering ≡ ret (answered_by packed_answering).0 (answered_by packed_answering).1
unfolding receive_command receive_recv_command recv_exact from_big_endian_onto encode_recv_header
    to_big_endian decode_recv_header validate_path char_at c_string scan resolve_path starts_with
    split_last copy_string same_string send_recv_confirmation send_exact encode_confirmation
    transmit_file_compressed count_byte_values count_onto
packed_answering_lem = refl

packed_found : packing.sys.stat (text "/r/a") packed_offering.sys ≡ some two_bytes
unfolding split_last same_string
packed_found = refl

packed-IsOffered :
    IsOffered packing (text "/r") (text "/r/a") (text "a") 1 2 two_bytes packed_offering
packed-IsOffered = record {
  flags_fit = omega arith;
  block_size_fits = omega arith;
  short = omega arith;
  is_string = a_string;
  is_valid = a_valid;
  resolves = a_resolves;
  is_there = packed_found;
  is_file = refl;
}

abbrev packed_answer : Bytes
packed_answer = (answered_by packed_answering).1.net.outgoing

compressed_download_session_example :
    Post (λ r t. r.0 ≡ ok) (receive_command packing 3 (text "/r") no_info packed_offering)
    × Post
        (λ r t. (r ≡ ok) × (disk_laws.written 4 t.sys ≡ content))
        (download_file machine 3
          (text "h")
          (text "1")
          (text "a")
          (text "/r/a")
          1
          2
          (at (packed_answer ++ []) []))
compressed_download_session_example =
    compressed_download_session content (omega arith, (omega arith, tt)) (omega arith) 1 2
      (text "a") two_bytes machine link_laws link-IsReliable disk_laws disk-IsHealthy (text "/r/a")
      4 opening link readable.sys link_laws link-IsReliable readable_laws readable-IsHealthy
      (text "/r") (text "/r/a") 3 reading 3 3 (text "h") (text "1") no_info [] [] packed_answer
      (at (packed_answer ++ []) []) packed_offering (answered_by packed_answering).1
      (answered_by packed_answering).0 refl marking_laws (omega arith) packed-IsOffered
      (omega arith) (omega arith) refl refl refl packed_answering_lem refl refl
