-- ===== src/Tests/Servers.antt =====
-- Requests on the machine of the tests.
use isr.Prelude.{◌≡◌, refl, true, false, some, none, List, [], ◌∷◌, ◌++◌, arith, Bytes, All}
use isr.Bytes.{to_big_endian}
use isr.CText.{text, split_last, starts_with, copy_string, char_at, same_string}
use isr.Io.{Os, Sys, World, made}
use isr.Io.Post.{Post}
use isr.Io.Keeps.{After}
use isr.Exact.Recv.{waiting, beside_waiting}
use isr.Tests.Machine.{Link, Disk, link, link_laws, link-IsReliable, marking, machine, at, holding}
use isr.Paths.{validate_path, scan, resolve_path}
use isr.Paths.Resolve.{IsUnder}
use isr.Wire.{SendHeader, RecvHeader, encode_send_header, encode_recv_header}
use isr.Main.Serve.{no_info}
use isr.Server.{receive_command, receive_send_command, send_request, recv_request}
use isr.Server.Keeps.{KeptBelow}
use isr.Server.Confined.{receive_command-confined}
use isr.Server.Refuse.{Refused, receive_send_command-refuses}
use isr.Server.Request.{send_request_bytes, recv_request_bytes, serves_send, serves_recv}

-- A disk that remembers the paths it opened.
pub record Log : Type 0 where
  pub opened : List Bytes

abbrev remember : Bytes → Log → Log
remember path f = record { opened = path ∷ f.opened }

abbrev pub logging : Sys Log
logging = record {
  stat = λ path f. none;
  realpath = λ path f. some path;
  mkdir = λ path f. (made, f);
  open_read = λ path f. (some 3, remember path f);
  open_write = λ path f. (some 4, remember path f);
  read = λ fd k f. (some [], f);
  write = λ fd bs f. (none, f);
  close = λ fd f. f;
  list_dir = λ path f. (none, remember path f);
  alloc = λ size f. (true, f);
  print = λ bs f. f;
}

abbrev pub AllUnder : Bytes → Log → Type 0
AllUnder root f = All (IsUnder root) f.opened

pub logging-KeptBelow : (root : Bytes) → KeptBelow logging root (AllUnder root)
logging-KeptBelow root = record {
  transfers = record { read = λ fd k f i. i; write = λ fd bs f i. i; alloc = λ k f i. i };
  close = λ fd f i. i;
  open_read = λ path f under i. (under, i);
  open_write = λ path f under i. (under, i);
  list_dir = λ path f under i. (under, i);
  mkdir = λ path p f under h i. i;
}

abbrev pub logger : Os Link Log
logger = record { net = link; sys = logging; lz4 = marking }

abbrev attack : Bytes
attack = 1 ∷ 0 ∷ 0 ∷ 5 ∷ 0 ∷ 0 ∷ 0 ∷ 0 ∷ 0 ∷ 0 ∷ 0 ∷ 0 ∷ 0 ∷ 0 ∷ 0 ∷ 0 ∷ text "a/../"

abbrev before_attack : World Link Log
before_attack = record {
  net = record { incoming = attack; outgoing = [] };
  sys = record { opened = [] };
}

receive_command-confined_example :
    After (AllUnder (text "/r")) (receive_command logger 3 (text "/r") no_info before_attack)
receive_command-confined_example =
    receive_command-confined logger (text "/r") (AllUnder (text "/r"))
      (logging-KeptBelow (text "/r")) 3 no_info before_attack tt

abbrev plain_header : SendHeader
plain_header = record {
  flags = 0;
  path_length = 1;
  uncompressed_block_size = 0;
  effective_length = 2;
}

abbrev taken_path : World Link Disk
taken_path = holding [] ((text "a", record { is_dir = false; size = 7 }) ∷ [])

receive_send_command-refuses_example :
    Post
      (Refused machine link_laws link-IsReliable (text "File exists, overwrite not set") taken_path)
      (receive_send_command machine 3 (text "/r") plain_header (text "a") no_info taken_path)
unfolding validate_path scan char_at resolve_path copy_string split_last starts_with same_string
receive_send_command-refuses_example =
    receive_send_command-refuses machine link_laws link-IsReliable 3 (text "/r") plain_header
      (text "a") no_info (text "File exists, overwrite not set") taken_path refl

abbrev request : Bytes
request = 1 ∷ 0 ∷ 0 ∷ 1 ∷ 0 ∷ 0 ∷ 0 ∷ 0 ∷ 0 ∷ 0 ∷ 0 ∷ 0 ∷ 0 ∷ 0 ∷ 0 ∷ 2 ∷ text "a"

request_lem :
    waiting machine link_laws (at (request ++ 9 ∷ []) [])
    ≡ send_request_bytes plain_header (text "a") ++ 9 ∷ []
unfolding encode_send_header to_big_endian
request_lem = refl

serves_send_example :
    (t : World Link Disk) × (receive_command machine 3
        (text "/r")
        no_info
        (at (request ++ 9 ∷ []) [])
      ≡ send_request machine 3 (text "/r") no_info plain_header (text "a") t)
    × (waiting machine link_laws t ≡ 9 ∷ [])
    × (beside_waiting machine link_laws t
        ≡ beside_waiting machine link_laws (at (request ++ 9 ∷ []) []))
serves_send_example =
    serves_send machine link_laws link-IsReliable 3 (text "/r") no_info plain_header (text "a")
      (9 ∷ []) (at (request ++ 9 ∷ []) [])
      (record {
        flags = omega arith;
        path_length = omega arith;
        uncompressed_block_size = omega arith;
        effective_length = omega arith;
      })
      refl (omega arith) request_lem

abbrev wanted : RecvHeader
wanted = record { flags = 0; path_length = 1; uncompressed_block_size = 0 }

abbrev wanting : Bytes
wanting = 0 ∷ 0 ∷ 0 ∷ 1 ∷ 0 ∷ 0 ∷ 0 ∷ 0 ∷ text "a"

wanting_lem :
    waiting machine link_laws (at (wanting ++ 9 ∷ []) [])
    ≡ recv_request_bytes wanted (text "a") ++ 9 ∷ []
unfolding encode_recv_header to_big_endian
wanting_lem = refl

serves_recv_example :
    (t : World Link Disk) × (receive_command machine 3
        (text "/r")
        no_info
        (at (wanting ++ 9 ∷ []) [])
      ≡ recv_request machine 3 (text "/r") no_info wanted (text "a") t)
    × (waiting machine link_laws t ≡ 9 ∷ [])
    × (beside_waiting machine link_laws t
        ≡ beside_waiting machine link_laws (at (wanting ++ 9 ∷ []) []))
serves_recv_example =
    serves_recv machine link_laws link-IsReliable 3 (text "/r") no_info wanted (text "a") (9 ∷ [])
      (at (wanting ++ 9 ∷ []) [])
      (record {
        flags = omega arith;
        path_length = omega arith;
        uncompressed_block_size = omega arith;
      })
      refl (omega arith) wanting_lem
