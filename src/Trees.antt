-- ===== src/Trees.antt =====
-- The client's commands for a directory: `isr_cli_send_mkdir`, `isr_cli_send_directory` (its POSIX
-- half) and `isr_cli_download_directory` of lib/isr-cli.c. What they print is left out, and so is
-- `isr_cli_free_entries`.
pub mod Upload
pub mod Download
pub mod Fetch
use isr.Prelude.{
  ℕ, zero, suc, ◌-◌, Bool, true, false, not, Option, none, some, List, [], ◌∷◌, ◌==◌, if◌then◌else◌,
  Bytes, take,
}
use isr.Bytes.{from_big_endian}
use isr.CText.{c_string, joined, split_last}
use isr.Io.{stuck, Io, pure, ◌>>=◌, ◌>>◌, Status, ok, err, Stat, Os, World, ask, on_sys, or_fail}
use isr.Exact.{recv_exact}
use isr.Wire.{
  path_max, result_ok, result_other_failure, flag_create_directory, recv_type_file,
  recv_type_directory, recv_type_not_found, Confirmation, response_size, transmit_send_command,
}
use isr.Listing.{DirEntry, is_dot}
use isr.Listing.Parse.{Parsed, parse_directory_listing, recv_verified_listing}
use isr.Paths.{mkdir_recursive}
use isr.Server.{unless_refused, or_refused}
use isr.Client.{
  basename_of, result_status, connect, hang_up, if_connected, recv_connect, send_go, send_file,
  download_file,
}

-- `snprintf(path, sizeof(path), "%s/%s", dir, name)`
abbrev pub entry_path : Bytes → Bytes → Bytes
entry_path dir name = take (path_max - 1) (joined dir name)

-- `if (... != 0) result = -1;`
abbrev pub worse : Status → Status → Status
worse result ok = result
worse result err = err

-- `entries[i]` for `i` below `entry_count`.
abbrev pub listed : Parsed → List DirEntry
listed p = elim p.entries [ none ↦ [] | some es ↦ take p.entry_count es ]

-- `!entries && entry_count != 0`
abbrev pub is_unparsed : Parsed → Bool
is_unparsed p = elim p.entries [ none ↦ not (p.entry_count == 0) | some es ↦ false ]

module _ {N F : Type 0} (os : Os N F) where
  -- The first response, after which the connection is closed.
  abbrev pub mkdir_answered : Option Bytes → Io (World N F) Status
  mkdir_answered none = hang_up os err
  mkdir_answered (some response) = hang_up os (result_status response)

  unfoldable pub send_mkdir : Bytes → Bytes → Bytes → Io (World N F) Status
  send_mkdir host port remote_path =
      connect os host port
      >>= if_connected os err (
          transmit_send_command os remote_path flag_create_directory 0 0
          >>= unless_refused (hang_up os err) (recv_exact os response_size >>= mkdir_answered))

  -- One entry of the loop over `readdir`, for what `isr_stat` found: its status.
  abbrev pub upload_entry :
      (Bytes → Bytes → Io (World N F) Status)
      → (Bytes → Bytes → Io (World N F) Status)
      → Bytes
      → Bytes
      → Option Stat
      → Io (World N F) Status
  upload_entry tree file remote_entry local_entry none = pure err
  upload_entry tree file remote_entry local_entry (some st) =
      if st.is_dir then tree remote_entry local_entry else file remote_entry local_entry

  -- The loop over `readdir`; `tree` and `file` upload one entry.
  unfoldable pub upload_entries :
      (Bytes → Bytes → Io (World N F) Status)
      → (Bytes → Bytes → Io (World N F) Status)
      → Bytes
      → Bytes
      → List Bytes
      → Status
      → Io (World N F) Status
  upload_entries tree file remote_path local_dir [] result = pure result
  upload_entries tree file remote_path local_dir (d_name ∷ more) result =
      if is_dot d_name
      then upload_entries tree file remote_path local_dir more result
      else (ask (os.sys.stat (entry_path local_dir d_name))
          >>= upload_entry tree file (entry_path remote_path d_name) (entry_path local_dir d_name)
          >>= λ status. upload_entries tree file remote_path local_dir more (worse result status))

  -- From opendir on.
  abbrev pub upload_listed :
      (Bytes → Bytes → Io (World N F) Status)
      → (Bytes → Bytes → Io (World N F) Status)
      → Bytes
      → Bytes
      → Io (World N F) Status
  upload_listed tree file remote_path local_dir =
      on_sys (os.sys.list_dir local_dir)
      >>= or_fail err λ names. upload_entries tree file remote_path local_dir names ok

  -- isr_cli_send_directory; `levels` bounds the depth of the tree, `rounds` the reads of a file.
  unfoldable pub send_directory :
      ℕ → ℕ → Bytes → Bytes → ℕ → ℕ → Bytes → Bytes → Io (World N F) Status
  send_directory zero rounds host port flags block_size remote_path local_dir = λ w. stuck
  send_directory (suc levels) rounds host port flags block_size remote_path local_dir =
      let tree = send_directory levels rounds host port flags block_size in
      let file : Bytes → Bytes → Io (World N F) Status =
        λ remote local. send_file os rounds host port remote local flags block_size in
      send_mkdir host port remote_path
      >>= unless_refused (pure err) (upload_listed tree file remote_path local_dir)

  -- The loop over the entries of a listing; `tree` and `file` download one entry.
  unfoldable pub download_entries :
      (Bytes → Bytes → Io (World N F) Status)
      → (Bytes → Bytes → Io (World N F) Status)
      → Bytes
      → Bytes
      → List DirEntry
      → Status
      → Io (World N F) Status
  download_entries tree file remote_path local_dir [] result = pure result
  download_entries tree file remote_path local_dir (e ∷ es) result =
      let remote_entry : Bytes = entry_path remote_path (c_string e.name) in
      let local_entry : Bytes = entry_path local_dir (c_string e.name) in
      (if e.is_dir == 0 then file remote_entry local_entry else tree remote_entry local_entry)
      >>= λ status. download_entries tree file remote_path local_dir es (worse result status)

  -- After the listing came and the connection was closed.
  abbrev pub download_listed :
      (Bytes → Bytes → Io (World N F) Status)
      → (Bytes → Bytes → Io (World N F) Status)
      → Bytes
      → Bytes
      → Bytes
      → Io (World N F) Status
  download_listed tree file remote_path local_dir buf = parse_directory_listing os buf >>= λ parsed.
      if is_unparsed parsed
      then pure err
      else (mkdir_recursive os local_dir
          >> download_entries tree file remote_path local_dir (listed parsed) ok)

  -- isr_cli_download_directory, for the confirmation that came.
  abbrev pub tree_confirmed :
      (Bytes → Bytes → Io (World N F) Status)
      → (Bytes → Bytes → Io (World N F) Status)
      → Bytes
      → Bytes
      → Confirmation
      → Io (World N F) Status
  tree_confirmed tree file remote_path local_dir conf =
      if conf.response_type == recv_type_not_found
      then hang_up os err
      else if conf.response_type == result_other_failure
      then hang_up os err
      else if conf.response_type == recv_type_file
      then (hang_up os ok
          >> file remote_path
              (entry_path local_dir (basename_of remote_path (split_last b'/' remote_path))))
      else if not (conf.response_type == recv_type_directory)
      then hang_up os err
      else (send_go os
          >>= unless_refused (hang_up os err) (
              recv_verified_listing os conf.effective_length
              >>= hang_up os
              >>= or_fail err (download_listed tree file remote_path local_dir)))

  -- isr_cli_download_directory; `levels` bounds the depth, `rounds` the blocks of a file.
  unfoldable pub download_directory :
      ℕ → ℕ → Bytes → Bytes → ℕ → ℕ → Bytes → Bytes → Io (World N F) Status
  download_directory zero rounds host port flags block_size remote_path local_dir = λ w. stuck
  download_directory (suc levels) rounds host port flags block_size remote_path local_dir =
      let tree = download_directory levels rounds host port flags block_size in
      let file : Bytes → Bytes → Io (World N F) Status =
        λ remote local. download_file os rounds host port remote local flags block_size in
      recv_connect os host port remote_path flags block_size
      >>= or_fail err (tree_confirmed tree file remote_path local_dir)
