-- ===== src/Tests/Main.antt =====
-- Command lines, and a server that is attacked.
use isr.Prelude.{◌≡◌, ◌≢◌, refl, false, none, some, List, [], ◌∷◌, ◌++◌, arith, if◌then◌else◌}
use isr.CText.{text, same_string, split_last, char_at, copy_string}
use isr.Io.{Outcome, ret, stuck, fault, err, pure, World}
use isr.Tests.Machine.{Link, Disk, machine, at, holding}
use isr.Tests.Servers.{Log, logger, AllUnder, logging-KeptBelow}
use isr.Client.{send_file}
use isr.Trees.{send_directory}
use isr.Main.Arguments.{
  block_size_of, Options, no_options, atoi, past_spaces, decimal_onto, recv_options, serve_options,
  strip_loop, strip_separators,
}
use isr.Main.Arguments.Upload.{SendOption, compress, overwrite, written, summary, asks_recursive}
use isr.Main.Serve.{log_line, request_text, no_info, serve_one, cmd_serve}
use isr.Main.Serve.Kept.{started, served, Serving-confined, NotStarted, cmd_serve-NotStarted}
use isr.Main.Run.{exit_with, main}
use isr.Main.Run.Uploads.{missing, main_sends, main_refuses}
use isr.Listing.Parse.{digits_onto}
use isr.Exact.{recv_exact, send_exact, write_all}
use isr.Bytes.{to_big_endian, from_big_endian_onto}
use isr.CText.{c_string, starts_with}
use isr.Wire.{
  decode_send_header, transmit_send_response, response_from_result, transmit_send_result,
}
use isr.Paths.{validate_path, scan, resolve_path, parent_dir, mkdir_recursive, mkdir_loop}
use isr.Server.{receive_command, receive_send_command}
use isr.Transfer.{receive_file_uncompressed}

atoi_negative : atoi (text " -2x") ≡ 4294967294
unfolding atoi past_spaces decimal_onto
atoi_negative = refl

no_block_size : block_size_of (text "abc") ≡ 0
unfolding atoi past_spaces decimal_onto
no_block_size = refl

strip_two : strip_separators (text "a/b//") ≡ text "a/b"
unfolding strip_separators strip_loop copy_string char_at
strip_two = refl

log_upload :
    log_line
      (text "h:1")
      (record no_info { cmd = 1; path = text "a"; file_size = 12; is_overwrite = 1 })
      err
    ≡ text "[h:1] SEND \"a\" (12 bytes) [overwrite] -> FAILED\n"
unfolding log_line request_text char_at digits_onto
log_upload = refl

serve_port :
    serve_options (text "-p" ∷ text "1" ∷ text "-p" ∷ text "2" ∷ []) (text "3") ≡ some (text "2")
unfolding serve_options same_string
serve_port = refl

recv_recursive : recv_options (text "-r" ∷ text "-o" ∷ []) no_options ≡ none
unfolding recv_options same_string
recv_recursive = refl

abbrev two_options : List SendOption
two_options = compress (text "64") ∷ overwrite ∷ []

host-ne_nil : text "h" ≢ []
host-ne_nil e = cc

port-ne_nil : text "1" ≢ []
port-ne_nil e = cc

abbrev one_file : World Link Disk
one_file = holding [] ((text "a", record { is_dir = false; size = 7 }) ∷ [])

main_sends_example :
    main machine 2 3 (text "send" ∷ text "h:1" ∷ text "a" ∷ text "b" ∷ written two_options) one_file
    ≡ (let o : Options = summary 0 false false false two_options in
          if false
          then if asks_recursive two_options
            then exit_with machine (
                send_directory machine 2 3
                  (text "h")
                  (text "1")
                  o.flags
                  o.block_size
                  (text "b")
                  (text "a"))
            else pure 1
          else exit_with machine (
              send_file machine 3 (text "h") (text "1") (text "b") (text "a") o.flags o.block_size))
        one_file
unfolding same_string split_last
main_sends_example =
    main_sends machine 2 3 (text "h") (text "1") (text "a") (text "b") two_options
      (record { is_dir = false; size = 7 }) one_file host-ne_nil port-ne_nil
      ((λ e. omega (arith, e)), tt) (omega arith) (omega arith) refl

main_refuses_example :
    main machine 2 3 (text "send" ∷ text "h:1" ∷ text "a" ∷ text "b" ∷ []) (at [] [])
    ≡ ret 1 (at [] [])
main_refuses_example =
    main_refuses machine 2 3 (text "h:1") (text "a") (text "b") [] (at [] []) (missing refl)

cmd_serve-NotStarted_example :
    NotStarted machine one_file
      (cmd_serve machine 2 3 (text "d" ∷ text "-p" ∷ text "1" ∷ []) one_file)
cmd_serve-NotStarted_example =
    cmd_serve-NotStarted machine 2 3 (text "d" ∷ text "-p" ∷ text "1" ∷ []) one_file

abbrev upload : World Link Log
upload = record {
  net = record {
    incoming =
        1 ∷ 0 ∷ 0 ∷ 1 ∷ 0 ∷ 0 ∷ 0 ∷ 0 ∷ 0 ∷ 0 ∷ 0 ∷ 0 ∷ 0 ∷ 0 ∷ 0 ∷ 2 ∷ text "a"
        ++ 5 ∷ 6 ∷ 0 ∷ 0 ∷ 0 ∷ 0 ∷ 0 ∷ 0 ∷ 0 ∷ 11 ∷ [];
    outgoing = [];
  };
  sys = record { opened = [] };
}

abbrev after_upload : Outcome (World Link Log) Unit
after_upload = serve_one logger 3 (text "/r") upload

abbrev left_by : Outcome (World Link Log) Unit → World Link Log
left_by (ret a t) = t
left_by stuck = upload
left_by fault = upload

served_upload : after_upload ≡ ret tt (left_by after_upload)
unfolding serve_one receive_command recv_exact from_big_endian_onto decode_send_header
    receive_send_command validate_path char_at c_string scan resolve_path starts_with split_last
    copy_string parent_dir mkdir_recursive transmit_send_response send_exact response_from_result
    mkdir_loop receive_file_uncompressed transmit_send_result to_big_endian write_all
served_upload = refl

Serving-confined_example : AllUnder (text "/r") (left_by after_upload).sys
Serving-confined_example =
    Serving-confined logger 3 (text "/r") (AllUnder (text "/r")) (logging-KeptBelow (text "/r"))
      (λ line f i. i) {w = upload} tt (served started served_upload)
