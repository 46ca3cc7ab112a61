-- ===== src/Tests/Files.antt =====
-- An upload and a download on the machine of the tests.
use isr.Prelude.{◌≡◌, refl, false, some, [], ◌∷◌, ◌++◌, arith, Bytes}
use isr.Bytes.{to_big_endian, count_byte_values}
use isr.CText.{text, split_last, starts_with, copy_string, char_at, same_string}
use isr.Io.{ok, Os, World}
use isr.Io.Post.{Post}
use isr.Exact.Recv.{waiting}
use isr.Tests.Machine.{
  disk, Link, Disk, link_laws, link-IsReliable, disk_laws, disk-IsHealthy, machine, at, holding,
}
use isr.Paths.{validate_path, scan, resolve_path}
use isr.Wire.{SendHeader, RecvHeader}
use isr.Exact.Laws.{FileLaws, IsHealthy}
use isr.Server.Download.{ReadsAs, Downloaded, file_answer, download_is_sent}
use isr.Server.{receive_recv_command}
use isr.Server.{receive_send_command}
use isr.Main.Serve.{no_info}
use isr.Server.Upload.{OpensAs, Uploaded, upload_is_stored}

abbrev plain_header : SendHeader
plain_header = record {
  flags = 0;
  path_length = 1;
  uncompressed_block_size = 0;
  effective_length = 2;
}

pub opening : OpensAs disk_laws (text "/r/a") 4
opening = record { opens = λ f. refl; truncates = λ f. refl; closes = λ f. refl }

abbrev data_bytes : Bytes
data_bytes = 5 ∷ 6 ∷ 0 ∷ 0 ∷ 0 ∷ 0 ∷ 0 ∷ 0 ∷ 0 ∷ 11 ∷ []

pub a_valid : validate_path (text "a") ≡ ok
unfolding validate_path scan char_at
a_valid = refl

pub a_resolves : resolve_path (λ p. some p) 4096 (text "/r") (text "a") ≡ some (text "/r/a")
unfolding resolve_path copy_string split_last starts_with
a_resolves = refl

data_lem :
    waiting machine link_laws (at data_bytes [])
    ≡ ((5 ∷ 6 ∷ []) ++ to_big_endian 8 (count_byte_values (5 ∷ 6 ∷ []))) ++ []
unfolding to_big_endian count_byte_values
data_lem = refl

upload_is_stored_example :
    Post
      (Uploaded machine link_laws link-IsReliable disk_laws disk-IsHealthy
        (text "/r/a")
        4
        opening
        (5 ∷ 6 ∷ [])
        []
        0
        (at data_bytes []))
      (receive_send_command machine 3
        (text "/r")
        plain_header
        (text "a")
        no_info
        (at data_bytes []))
upload_is_stored_example =
    upload_is_stored machine link_laws link-IsReliable disk_laws disk-IsHealthy (text "/r/a") 4
      opening (5 ∷ 6 ∷ []) [] plain_header refl refl (omega arith, (omega arith, tt)) (omega arith)
      3 (text "/r") (text "a") no_info (at data_bytes []) a_valid a_resolves refl refl data_lem

-- The machine with a disk on which every file holds two bytes.
abbrev pub readable : Os Link Disk
readable = record machine {
  sys = record disk { open_read = λ path f. (some 3, record f { unread = 5 ∷ 6 ∷ [] }) };
}

abbrev pub readable_laws : FileLaws readable.sys
readable_laws = record {
  unread = λ fd f. f.unread;
  written = λ fd f. f.written;
  read-length = disk_laws.read-length;
  unread-read = disk_laws.unread-read;
  read_end = disk_laws.read_end;
  write-le = disk_laws.write-le;
  written-write = disk_laws.written-write;
  written-alloc = disk_laws.written-alloc;
  unread-alloc = disk_laws.unread-alloc;
}

pub readable-IsHealthy : IsHealthy readable.sys
readable-IsHealthy = record {
  read_some = disk-IsHealthy.read_some;
  write_progress = disk-IsHealthy.write_progress;
  alloc_some = disk-IsHealthy.alloc_some;
}

pub reading : ReadsAs readable_laws (text "/r/a") 3 (5 ∷ 6 ∷ [])
reading = record { opens = λ f. refl; holds = λ f. refl }

abbrev a_file : World Link Disk
a_file = holding (1 ∷ []) ((text "a", record { is_dir = false; size = 2 }) ∷ [])

abbrev wanted : RecvHeader
wanted = record { flags = 0; path_length = 1; uncompressed_block_size = 0 }

a_found : readable.sys.stat (text "/r/a") a_file.sys ≡ some (record { is_dir = false; size = 2 })
unfolding split_last same_string
a_found = refl

download_is_sent_example :
    Post
      (Downloaded readable link_laws link-IsReliable readable_laws readable-IsHealthy
        (text "/r/a")
        3
        (5 ∷ 6 ∷ [])
        reading
        wanted
        refl
        (omega arith, (omega arith, tt))
        (omega arith)
        (file_answer (record { is_dir = false; size = 2 }) (5 ∷ 6 ∷ []))
        a_file)
      (receive_recv_command readable 3 (text "/r") wanted (text "a") no_info a_file)
download_is_sent_example =
    download_is_sent readable link_laws link-IsReliable readable_laws readable-IsHealthy
      (text "/r/a") 3 (5 ∷ 6 ∷ []) reading wanted refl (omega arith, (omega arith, tt))
      (omega arith) 3 (text "/r") (text "a") no_info (record { is_dir = false; size = 2 }) 1 []
      a_file (omega arith) a_valid a_resolves a_found refl (λ e. omega (arith, e)) refl
