-- ===== src/Main/Run.antt =====
-- The client's commands of main.c, `cmd_send` and `cmd_recv`, and `main`. Messages on stderr,
-- `usage` among them, are left out.
pub mod Uploads
use isr.Prelude.{ℕ, Bool, true, false, Option, none, some, List, [], ◌∷◌, if◌then◌else◌, Bytes}
use isr.CText.{text, same_string}
use isr.Io.{Io, pure, ◌>>=◌, Status, ok, err, Stat, Os, World, ask}
use isr.HostPort.{parse_host_port}
use isr.Client.{send_file, cli_recv}
use isr.Trees.{send_directory, download_directory}
use isr.Main.Arguments.{
  Options, no_options, send_options, recv_options, local_path_of, local_dir_of,
}
use isr.Main.Serve.{cmd_serve}

-- `... != 0 ? 1 : 0`
abbrev pub exit_code : Status → ℕ
exit_code ok = 0
exit_code err = 1

-- `sizeof(host)` and `sizeof(port)`.
abbrev pub host_size : ℕ
host_size = 256

abbrev pub port_size : ℕ
port_size = 16

module _ {N F : Type 0} (os : Os N F) where
  abbrev pub exit_with : Io (World N F) Status → Io (World N F) ℕ
  exit_with command = command >>= λ status. pure (exit_code status)

  -- cmd_send from `isr_stat` on, for what it found; `levels` bounds the depth of a tree, and
  -- `rounds` the reads of a file.
  abbrev pub send_found :
      ℕ → ℕ → Options → Bytes → Bytes → Bytes → Bytes → Option Stat → Io (World N F) ℕ
  send_found levels rounds o host port local_path remote_path none = pure 1
  send_found levels rounds o host port local_path remote_path (some st) =
      if st.is_dir
      then if o.recursive
        then exit_with
            (send_directory os levels rounds host port o.flags o.block_size remote_path local_path)
        else pure 1
      else exit_with (send_file os rounds host port remote_path local_path o.flags o.block_size)

  -- From parse_host_port on.
  abbrev pub send_to : ℕ → ℕ → Options → Bytes → Bytes → Option (Bytes × Bytes) → Io (World N F) ℕ
  send_to levels rounds o local_path remote_path none = pure 1
  send_to levels rounds o local_path remote_path (some (host, port)) =
      ask (os.sys.stat local_path) >>= send_found levels rounds o host port local_path remote_path

  -- From the options on.
  abbrev pub send_with : ℕ → ℕ → Bytes → Bytes → Bytes → Option Options → Io (World N F) ℕ
  send_with levels rounds hostport local_path remote_path none = pure 1
  send_with levels rounds hostport local_path remote_path (some o) =
      send_to levels rounds o local_path remote_path (parse_host_port hostport host_size port_size)

  -- cmd_send, for the arguments behind the command.
  unfoldable pub cmd_send : ℕ → ℕ → List Bytes → Io (World N F) ℕ
  cmd_send levels rounds [] = pure 1
  cmd_send levels rounds (hostport ∷ []) = pure 1
  cmd_send levels rounds (hostport ∷ local_path ∷ []) = pure 1
  cmd_send levels rounds (hostport ∷ local_path ∷ remote_path ∷ more) =
      send_with levels rounds hostport local_path remote_path (send_options more no_options)

  -- cmd_recv from parse_host_port on.
  abbrev pub recv_from : ℕ → ℕ → Options → Bytes → Bytes → Option (Bytes × Bytes) → Io (World N F) ℕ
  recv_from levels rounds o remote_path local_dir none = pure 1
  recv_from levels rounds o remote_path local_dir (some (host, port)) = exit_with (
      if o.recursive
      then download_directory os levels rounds host port o.flags o.block_size remote_path local_dir
      else cli_recv os rounds host port remote_path local_dir o.flags o.block_size)

  -- From the options on.
  abbrev pub recv_with : ℕ → ℕ → Bytes → Bytes → Option Bytes → Option Options → Io (World N F) ℕ
  recv_with levels rounds hostport remote_path local_path none = pure 1
  recv_with levels rounds hostport remote_path local_path (some o) =
      recv_from levels rounds o remote_path (local_dir_of local_path)
        (parse_host_port hostport host_size port_size)

  -- cmd_recv, for the arguments behind the command.
  unfoldable pub cmd_recv : ℕ → ℕ → List Bytes → Io (World N F) ℕ
  cmd_recv levels rounds [] = pure 1
  cmd_recv levels rounds (hostport ∷ []) = pure 1
  cmd_recv levels rounds (hostport ∷ remote_path ∷ more) =
      recv_with levels rounds hostport remote_path (local_path_of more).0
        (recv_options (local_path_of more).1 no_options)

  -- main, for the arguments behind the program's name. `clients` is how many rounds of the accept
  -- loop are watched, and also how deep a tree may be.
  unfoldable pub main : ℕ → ℕ → List Bytes → Io (World N F) ℕ
  main clients rounds [] = pure 1
  main clients rounds (command ∷ more) =
      if same_string command (text "serve")
      then cmd_serve os clients rounds more
      else if same_string command (text "send")
      then cmd_send clients rounds more
      else if same_string command (text "recv")
      then cmd_recv clients rounds more
      else pure 1
