-- ===== src/Lib.antt =====
-- ISR, "I send & receive": a file transfer tool with a server (`isr serve`) and a client
-- (`isr send`, `isr recv`) that speak a binary protocol over TCP, one operation per connection.
--
-- The client sends a command byte, a header and a path. The server (lib/isr.c) validates the
-- path, resolves it against its root, answers, and then either receives a file, or sends one, or
-- sends a directory listing. Files travel uncompressed or as LZ4 blocks, and a sum of all byte
-- values follows the data.
--
-- The files of this library, and the code that each is about:
--   Prelude, Bytes, CText   shared names and lists; network byte order and
--                           `_isr_count_byte_values` (lib/isr.h); C strings.
--   Io                      actions on the state outside the program, and the interfaces to it.
--   Exact                   `net_send`, `net_recv` (lib/mininet.h), `net_send_exact`,
--                           `net_recv_exact`, `isr_write_all` (lib/isr.c).
--   Wire                    the packed structs and constants of lib/isr.h and the functions that
--                           send one message.
--   Transfer, Compressed    `isr_transmit_file_*` and `isr_receive_file_*`.
--   Listing                 `isr_transmit_recv_directory_listing`, and on the client's side
--                           `isr_cli_parse_directory_listing` and `recv_verified_listing`
--                           (lib/isr-cli.c) and `isr_receive_directory_listing`.
--   Paths                   `isr_validate_path`, `isr_resolve_path`, `isr_mkdir_recursive`,
--                           `isr_parent_dir`, `isr_set_server_root`.
--   Server                  `isr_receive_command`, `isr_receive_send_command`,
--                           `isr_receive_recv_command`.
--   Client                  `recv_connect`, `send_go`, `receive_file_data`, `isr_cli_send_file`,
--                           `isr_cli_recv`, `isr_cli_download_file` (lib/isr-cli.c).
--   Trees                   `isr_cli_send_mkdir`, `isr_cli_send_directory`,
--                           `isr_cli_download_directory` (lib/isr-cli.c).
--   HostPort                `parse_host_port` of lib/hostport.h.
--   Sockets                 `net_connect`, `net_listen`, `net_accept`, `net_close`
--                           (lib/mininet.h).
--   Main                    main.c: the options, the server's accept loop, the commands, `main`.
--   Session                 the client of lib/isr-cli.c and the server of lib/isr.c together.
--   Tests                   a small machine, runs on it, and the theorems at concrete inputs.
--
-- The state. A program action is a function from a `World` to an `Outcome`. The world has a
-- network half and a file half, both abstract: the operating system and LZ4 are records of calls
-- (`Net`, `Sys`, `Lz4`) that every definition takes. What they are documented to do is stated
-- apart, as `StreamLaws` and `FileLaws` (connections and descriptors are byte streams, and a call
-- may transfer any part of what is asked), `IsReliable` and `IsHealthy` (no call fails) and
-- `Lz4Laws`. A buffer that a call fills is the value that it returns. Integers are natural numbers
-- with the wrap-around of their C type written out; an int64_t result is its bit pattern.
--
-- Loops. The loops of the exact transfers, of the uncompressed receiver and of the parsers get as
-- many rounds as they have bytes to go, which is enough because a round that goes on takes one byte
-- at least. The loops over a file or over compressed blocks end when the file or the peer says so,
-- so their rounds are an argument; one more than the file has bytes is enough for a sender, and one
-- for each block for a receiver. `stuck` is running out of rounds, `fault` an access outside a
-- buffer. A walk over a directory tree gets the number of levels that it may go down; one more than
-- the tree has below its root is enough. The accept loop of the server has no end, and is watched
-- for a number of rounds.
--
-- Left out: the Windows branches of the code; the diagnostics on stderr and the client's messages
-- about its progress; releasing memory; the calls of the operating system behind lib/mininet.h and
-- the file wrappers of lib/isr.c; LZ4 itself.
pub mod Prelude
pub mod Bytes
pub mod CText
pub mod Io
pub mod Exact
pub mod Wire
pub mod Transfer
pub mod Compressed
pub mod Listing
pub mod Paths
pub mod Server
pub mod HostPort
pub mod Client
pub mod Trees
pub mod Sockets
pub mod Main
pub mod Session
pub mod Tests
