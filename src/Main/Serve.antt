-- ===== src/Main/Serve.antt =====
-- The server's command of main.c: `get_peer_str`, `log_request`, the accept loop and `cmd_serve`.
-- Messages on stderr, `usage` among them, are left out.
pub mod Kept
use isr.Prelude.{
  ℕ, zero, suc, Bool, true, false, not, ◌&&◌, Option, none, some, List, [], ◌∷◌, ◌++◌, ◌==◌,
  if◌then◌else◌, Bytes, take,
}
use isr.CText.{text, char_at}
use isr.Io.{
  ret, stuck, Io, pure, ◌>>=◌, ◌>>◌, Status, ok, err, Stat, Peer, Os, World, on_net, on_sys, ask,
}
use isr.Wire.{command_send}
use isr.Listing.Parse.{digits_onto}
use isr.Paths.{set_server_root}
use isr.Server.{RequestInfo, Reply, receive_command}
use isr.Main.Arguments.{default_port, serve_options, strip_separators}

-- get_peer_str, with `sizeof(peer)` for `len`.
unfoldable pub peer_string : Option Peer → Bytes
peer_string none = text "unknown"
peer_string (some peer) = take 255 (
    if peer.is_inet6
    then text "[" ++ (peer.host ++ (text "]:" ++ peer.service))
    else peer.host ++ (text ":" ++ peer.service))

-- `result == 0 ? "OK" : "FAILED"`
abbrev pub status_text : Status → Bytes
status_text ok = text "OK"
status_text err = text "FAILED"

-- The parts of a line that depend on a flag, and `%lu`.
abbrev pub marked : ℕ → Bytes → Bytes
marked flag mark = if flag == 0 then [] else mark

abbrev pub bytes_text : ℕ → Bytes
bytes_text size = text " (" ++ (digits_onto 20 size [] ++ text " bytes)")

-- What log_request prints behind the peer.
unfoldable pub request_text : RequestInfo → Status → Bytes
request_text info result =
    let path : Bytes = text "\"" ++ (info.path ++ text "\"") in
    let arrow : Bytes = text " -> " ++ (status_text result ++ text "\n") in
    let compressed : Bytes = marked info.is_compressed (text " [compressed]") in
    if char_at info.path 0 == 0
    then text "connection error\n"
    else if info.cmd == command_send && not (info.is_mkdir == 0)
    then text "MKDIR " ++ (path ++ arrow)
    else if info.cmd == command_send
    then text "SEND "
      ++ (path
          ++ (bytes_text info.file_size
              ++ (marked info.is_overwrite (text " [overwrite]") ++ (compressed ++ arrow))))
    else if not (info.not_found == 0)
    then text "RECV " ++ (path ++ text " -> NOT FOUND\n")
    else if not (info.is_dir == 0)
    then text "RECV " ++ (path ++ (text " [dir]" ++ arrow))
    else text "RECV " ++ (path ++ (bytes_text info.file_size ++ (compressed ++ arrow)))

-- log_request
unfoldable pub log_line : Bytes → RequestInfo → Status → Bytes
unfolding request_text
log_line peer info result = text "[" ++ (peer ++ (text "] " ++ request_text info result))

-- `isr_request_info_t info = {0};`
abbrev pub no_info : RequestInfo
no_info = record {
  cmd = 0;
  path = [];
  file_size = 0;
  is_dir = 0;
  is_compressed = 0;
  is_overwrite = 0;
  is_mkdir = 0;
  not_found = 0;
}

module _ {N F : Type 0} (os : Os N F) where
  abbrev pub print : Bytes → Io (World N F) Unit
  print line = on_sys (λ f. (tt, os.sys.print line f))

  -- log_request and the close, for the reply to a request.
  abbrev pub log_reply : Bytes → Reply → Io (World N F) Unit
  log_reply peer (result, info) =
      print (log_line peer info result) >> on_net (λ n. (tt, os.net.close n))

  -- The accept loop behind the accept; `rounds` bounds the blocks of a file.
  abbrev pub serve_accepted : ℕ → Bytes → Bool → Io (World N F) Unit
  serve_accepted rounds root false = pure tt
  serve_accepted rounds root true = (λ w. ret (peer_string (os.net.peer w.net)) w) >>= λ peer.
      receive_command os rounds root no_info >>= log_reply peer

  -- One round of the accept loop; `root` is `isr_server_root_path`.
  unfoldable pub serve_one : ℕ → Bytes → Io (World N F) Unit
  serve_one rounds root = on_net os.net.accept >>= serve_accepted rounds root

  -- The accept loop, which has no end: it is watched for `clients` rounds.
  unfoldable pub accept_loop : ℕ → ℕ → Bytes → Io (World N F) ℕ
  accept_loop zero rounds root = λ w. stuck
  accept_loop (suc clients) rounds root = serve_one rounds root >> accept_loop clients rounds root

  -- cmd_serve from the call of net_listen on, with the argument of isr_set_server_root.
  abbrev pub serve_listening : ℕ → ℕ → Bytes → Bytes → Bool → Io (World N F) ℕ
  serve_listening clients rounds root port false = pure 1
  serve_listening clients rounds root port true =
      print (text "Serving '" ++ (root ++ (text "' on port " ++ (port ++ text "\n"))))
      >> accept_loop clients rounds (set_server_root root)

  -- From realpath on.
  abbrev pub serve_resolved : ℕ → ℕ → Bytes → Option Bytes → Io (World N F) ℕ
  serve_resolved clients rounds port none = pure 1
  serve_resolved clients rounds port (some root) =
      on_net (os.net.listen port) >>= serve_listening clients rounds root port

  -- From `isr_stat` on, for what it found.
  abbrev pub serve_found : ℕ → ℕ → Bytes → Bytes → Option Stat → Io (World N F) ℕ
  serve_found clients rounds port directory none = pure 1
  serve_found clients rounds port directory (some st) =
      if st.is_dir
      then (ask (os.sys.realpath directory) >>= serve_resolved clients rounds port)
      else pure 1

  -- From the options on.
  abbrev pub serve_directory : ℕ → ℕ → Bytes → Option Bytes → Io (World N F) ℕ
  serve_directory clients rounds directory none = pure 1
  serve_directory clients rounds directory (some port) =
      ask (os.sys.stat directory) >>= serve_found clients rounds port directory

  -- cmd_serve, for the arguments behind the command.
  unfoldable pub cmd_serve : ℕ → ℕ → List Bytes → Io (World N F) ℕ
  cmd_serve clients rounds [] = pure 1
  cmd_serve clients rounds (directory ∷ more) =
      serve_directory clients rounds (strip_separators directory) (serve_options more default_port)
