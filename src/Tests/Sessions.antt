-- ===== src/Tests/Sessions.antt =====
-- Uploads between two machines of the tests.
use isr.Prelude.{◌≡◌, refl, false, none, some, [], ◌∷◌, ◌++◌, arith, Bytes}
use isr.CText.{text, c_string, split_last, same_string}
use isr.Io.{Outcome, ret, stuck, fault, Status, ok, World}
use isr.Compressed.{transmit_file_compressed}
use isr.Compressed.RoundTrip.{beside}
use isr.Wire.{transmit_send_command, response_from_result, encode_send_header}
use isr.Exact.{send_exact, recv_exact}
use isr.Bytes.{to_big_endian, from_big_endian_onto, count_byte_values, count_onto}
use isr.Tests.Blocks.{marking_laws}
use isr.Session.Packed.{compressed_upload_session}
use isr.Io.Post.{Post}
use isr.Tests.Machine.{
  Link, Disk, link, disk, link_laws, link-IsReliable, disk_laws, disk-IsHealthy, machine, at,
  holding,
}
use isr.Tests.Files.{
  readable, readable_laws, readable-IsHealthy, reading, opening, a_valid, a_resolves,
}
use isr.Server.{receive_command}
use isr.Client.{send_file}
use isr.Client.Upload.{upload_stream}
use isr.Main.Serve.{no_info}
use isr.Session.{Said}
use isr.Session.Upload.{upload_answers, Served, IsWelcome, upload_session}

abbrev pub content : Bytes
content = 5 ∷ 6 ∷ []

abbrev said : Bytes
said = upload_stream (text "a") 0 0 content

abbrev client_world : World Link Disk
client_world =
    holding (upload_answers none ++ []) ((text "a", record { is_dir = false; size = 2 }) ∷ [])

abbrev server_world : World Link Disk
server_world = at (said ++ []) []

pub a_string : c_string (text "a") ≡ text "a"
unfolding c_string
a_string = refl

welcome : IsWelcome machine (text "/r") (text "/r/a") (text "a") content 0 0 server_world
welcome = record {
  flags_fit = omega arith;
  block_size_fits = omega arith;
  is_file = refl;
  short = omega arith;
  is_string = a_string;
  is_valid = a_valid;
  resolves = a_resolves;
  is_free = refl;
}

local_found :
    readable.sys.stat (text "/r/a") client_world.sys ≡ some (record { is_dir = false; size = 2 })
unfolding split_last same_string
local_found = refl

upload_session_example :
    Post
      (Said readable link_laws [] said)
      (send_file readable 3 (text "h") (text "1") (text "a") (text "/r/a") 0 0 client_world)
    × Post
        (Served machine link_laws disk_laws (text "/r/a") 4 content [] server_world)
        (receive_command machine 3 (text "/r") no_info server_world)
upload_session_example =
    upload_session content (omega arith, (omega arith, tt)) (omega arith) 0 0 (text "a") readable
      link_laws link-IsReliable readable_laws readable-IsHealthy (λ n. refl) (text "/r/a") 3 reading
      machine link_laws link-IsReliable disk_laws disk-IsHealthy (text "/r") (text "/r/a") 4 opening
      3 3 (text "h") (text "1") (record { is_dir = false; size = 2 }) no_info [] [] client_world
      server_world refl welcome (omega arith) local_found refl refl refl refl

abbrev packed_run : Outcome (World Link Disk) Status
packed_run = send_file readable 3 (text "h") (text "1") (text "a") (text "/r/a") 1 2 client_world

abbrev left_by : Outcome (World Link Disk) Status → World Link Disk
left_by (ret r t) = t
left_by stuck = client_world
left_by fault = client_world

abbrev packed_said : Bytes
packed_said = (left_by packed_run).net.outgoing

packed_run_lem : packed_run ≡ ret ok (left_by packed_run)
unfolding send_file transmit_send_command transmit_file_compressed send_exact recv_exact split_last
    same_string to_big_endian from_big_endian_onto response_from_result encode_send_header
    count_byte_values count_onto
packed_run_lem = refl

abbrev packed_server : World Link Disk
packed_server = at (packed_said ++ []) []

packed-IsWelcome :
    IsWelcome
      (beside readable link disk)
      (text "/r")
      (text "/r/a")
      (text "a")
      content
      1
      2
      packed_server
packed-IsWelcome = record {
  flags_fit = omega arith;
  block_size_fits = omega arith;
  is_file = refl;
  short = omega arith;
  is_string = a_string;
  is_valid = a_valid;
  resolves = a_resolves;
  is_free = refl;
}

compressed_upload_session_example :
    Post
      (λ r t. r ≡ ok)
      (send_file readable 3 (text "h") (text "1") (text "a") (text "/r/a") 1 2 client_world)
    × Post
        (Served
          (beside readable link disk)
          link_laws
          disk_laws
          (text "/r/a")
          4
          content
          []
          packed_server)
        (receive_command (beside readable link disk) 3 (text "/r") no_info packed_server)
compressed_upload_session_example =
    compressed_upload_session content (omega arith, (omega arith, tt)) (omega arith) 1 2 (text "a")
      readable link_laws link-IsReliable readable_laws readable-IsHealthy (λ n. refl) (text "/r/a")
      3 reading link disk link_laws link-IsReliable disk_laws disk-IsHealthy (text "/r")
      (text "/r/a") 4 opening 3 3 (text "h") (text "1") (record { is_dir = false; size = 2 })
      no_info [] [] packed_said client_world (left_by packed_run) ok packed_server refl marking_laws
      (omega arith) packed-IsWelcome (omega arith) (omega arith) local_found refl refl refl
      packed_run_lem refl refl
