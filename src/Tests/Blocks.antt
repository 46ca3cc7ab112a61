-- ===== src/Tests/Blocks.antt =====
-- The compressed data stream on the machine of the tests.
use isr.Prelude.{true, none, replicate, ◌≡◌, refl, [], ◌∷◌, ◌++◌, arith, Bytes}
use isr.Io.{ret, World, Os}
use isr.Exact.Send.{sent}
use isr.Exact.{send_exact}
use isr.Io.Post.{Post}
use isr.Bytes.{to_big_endian, count_byte_values}
use isr.Tests.Machine.{
  Link, Disk, link, link_laws, link-IsReliable, disk, disk_laws, disk-IsHealthy, marking, machine,
  at,
}
use isr.Exact.Send.{stored}
use isr.Exact.Recv.{waiting}
use isr.Transfer.{minus_one, transmit_file_uncompressed}
use isr.Compressed.{transmit_file_compressed, receive_file_compressed}
use isr.Compressed.Format.{Lz4Laws, compressed_stream, frames}
use isr.Compressed.RoundTrip.{compressed_round_trip}
use isr.Compressed.Faults.{
  EndsOverlong, overlong_block_faults, failed_read_compressed, zero_block_size_sends_nothing,
}
use isr.Compressed.Overshoot.{overshoot_is_stored}

-- Blocks of up to two bytes.
abbrev pub marking_laws : Lz4Laws marking 2
marking_laws = record {
  compressed = λ b. 255 ∷ b;
  compress_some = λ b pos le. refl;
  compressed-pos = λ b pos le. omega arith;
  compressed-le = λ b pos le. omega arith;
  bound-lt = omega arith;
  decompress-compressed = λ b pos le. refl;
}

abbrev content : Bytes
content = 5 ∷ 6 ∷ 7 ∷ []

abbrev wire : Bytes
wire = 0 ∷ 0 ∷ 0 ∷ 3 ∷ 255 ∷ 5 ∷ 6 ∷ 0 ∷ 0 ∷ 0 ∷ 2 ∷ 255 ∷ 7 ∷ 0 ∷ 0 ∷ 0 ∷ 0 ∷ 0 ∷ 0 ∷ 0 ∷ 18 ∷ []

abbrev sent_world : World Link Disk
sent_world = record {
  net = record { incoming = []; outgoing = wire };
  sys = record { unread = []; written = []; entries = [] };
}

transmit_content : transmit_file_compressed machine 4 3 2 (at [] content) ≡ ret 18 sent_world
unfolding transmit_file_compressed send_exact to_big_endian count_byte_values
transmit_content = refl

compressed_round_trip_example :
    Post
      (λ r u.
        (r ≡ 18)
        × (stored machine disk_laws 4 u ≡ content)
        × (waiting machine link_laws u ≡ 9 ∷ []))
      (receive_file_compressed machine 4 4 2 3 (at (wire ++ 9 ∷ []) []))
compressed_round_trip_example =
    compressed_round_trip machine link disk link_laws link_laws link-IsReliable link-IsReliable
      disk_laws disk_laws disk-IsHealthy disk-IsHealthy 2 marking_laws 4 4 3 4 (at [] content)
      sent_world 18 (at (wire ++ 9 ∷ []) []) wire (9 ∷ []) (omega arith) (omega arith) (omega arith)
      (omega arith) transmit_content refl refl

wire_lem :
    waiting machine link_laws (at (wire ++ 9 ∷ []) [])
    ≡ compressed_stream (λ b. 255 ∷ b) ((5 ∷ 6 ∷ []) ∷ (7 ∷ []) ∷ []) (count_byte_values content)
      ++ 9 ∷ []
unfolding to_big_endian count_byte_values
wire_lem = refl

-- A block that claims 2 ^ 24 bytes.
abbrev overlong : Bytes
overlong = 1 ∷ 0 ∷ 0 ∷ 0 ∷ 65 ∷ 66 ∷ 67 ∷ 68 ∷ 69 ∷ []

overlong_lem :
    waiting machine link_laws (at overlong [])
    ≡ to_big_endian 4 16777216 ++ 65 ∷ 66 ∷ 67 ∷ 68 ∷ 69 ∷ []
unfolding to_big_endian
overlong_lem = refl

overlong_block_faults_example :
    EndsOverlong machine link_laws link-IsReliable
      (λ k f. refl)
      4
      2
      true
      (receive_file_compressed machine 1 4 2 1 (at overlong []))
overlong_block_faults_example =
    overlong_block_faults machine link_laws link-IsReliable (λ k f. refl) 4 2 0 1 16777216
      (65 ∷ 66 ∷ 67 ∷ 68 ∷ 69 ∷ []) (at overlong []) (omega arith) (omega arith) (omega arith)
      overlong_lem

abbrev two_blocks : Bytes
two_blocks = 0 ∷ 0 ∷ 0 ∷ 3 ∷ 255 ∷ 5 ∷ 6 ∷ 0 ∷ 0 ∷ 0 ∷ 2 ∷ 255 ∷ 7 ∷ []

two_blocks_lem :
    waiting machine link_laws (at two_blocks [])
    ≡ frames (λ b. 255 ∷ b) ((5 ∷ 6 ∷ []) ∷ (7 ∷ []) ∷ [])
unfolding to_big_endian
two_blocks_lem = refl

overshoot_is_stored_example :
    Post
      (λ r t. (r ≡ minus_one) × (stored machine disk_laws 4 t ≡ 5 ∷ 6 ∷ 7 ∷ []))
      (receive_file_compressed machine 3 4 2 1 (at two_blocks []))
overshoot_is_stored_example =
    overshoot_is_stored machine link_laws link-IsReliable disk_laws disk-IsHealthy 4 2 marking_laws
      2 1 (5 ∷ 6 ∷ []) ((7 ∷ []) ∷ []) (at two_blocks []) (omega arith) (omega arith)
      ((omega arith, omega arith), ((omega arith, omega arith), tt)) (omega arith) (omega arith)
      two_blocks_lem

-- The machine with a disk on which every read fails.
abbrev unreadable : Os Link Disk
unreadable = record machine { sys = record disk { read = λ fd k f. (none, f) } }

zero_block_size_sends_nothing_example :
    Post
      (λ r t.
        (r ≡ 0)
        × (sent machine link_laws t ≡ sent machine link_laws (at [] content) ++ replicate 8 0))
      (transmit_file_compressed machine 4 3 0 (at [] content))
zero_block_size_sends_nothing_example =
    zero_block_size_sends_nothing machine link_laws link-IsReliable (λ k f. refl) 3 0 disk_laws 3
      (at [] content)

failed_read_compressed_example :
    Post
      (λ r t.
        (r ≡ 0)
        × (sent unreadable link_laws t
            ≡ sent unreadable link_laws (at [] content) ++ replicate 8 0))
      (transmit_file_compressed unreadable 1 3 2 (at [] content))
    × Post
        (λ r t.
          (r ≡ minus_one)
          × (sent unreadable link_laws t ≡ sent unreadable link_laws (at [] content)))
        (transmit_file_uncompressed unreadable 1 3 (at [] content))
failed_read_compressed_example =
    failed_read_compressed unreadable link_laws link-IsReliable (λ k f. refl) 3 2 0 (at [] content)
      (λ k f. refl)
