-- ===== src/Tests/Streams.antt =====
-- The exact transfers and the uncompressed data stream on the machine of the tests.
use isr.Prelude.{◌≡◌, refl, [], ◌∷◌, ◌++◌, arith, Bytes}
use isr.Io.{ret, World}
use isr.Exact.{send_exact, recv_exact}
use isr.Io.Post.{Post}
use isr.Bytes.{to_big_endian, count_byte_values}
use isr.Tests.Machine.{
  Link, Disk, link_laws, link-IsReliable, disk_laws, disk-IsHealthy, machine, at,
}
use isr.Exact.Send.{Drained, sent, beside_sent, stored, send_exact_lem}
use isr.Exact.Recv.{waiting, Got, recv_exact_lem}
use isr.Transfer.{transmit_file_uncompressed, receive_file_uncompressed}
use isr.Transfer.Verdict.{Received, receive_file_uncompressed_lem}
use isr.Transfer.RoundTrip.{plain_round_trip}

abbrev hello : Bytes
hello = 104 ∷ 101 ∷ 108 ∷ 108 ∷ 111 ∷ []

abbrev stream : Bytes
stream = hello ++ (0 ∷ 0 ∷ 0 ∷ 0 ∷ 0 ∷ 0 ∷ 2 ∷ 20 ∷ [])

abbrev sent_world : World Link Disk
sent_world = record {
  net = record { incoming = []; outgoing = stream };
  sys = record { unread = []; written = []; entries = [] };
}

transmit_hello : transmit_file_uncompressed machine 6 3 (at [] hello) ≡ ret 532 sent_world
unfolding transmit_file_uncompressed send_exact to_big_endian count_byte_values
transmit_hello = refl

plain_round_trip_example :
    Post
      (λ r u.
        (r ≡ 532) × (stored machine disk_laws 4 u ≡ hello) × (waiting machine link_laws u ≡ 7 ∷ []))
      (receive_file_uncompressed machine 4 5 (at (stream ++ 7 ∷ []) []))
plain_round_trip_example =
    plain_round_trip machine machine link_laws link_laws link-IsReliable link-IsReliable disk_laws
      disk_laws disk-IsHealthy disk-IsHealthy 6 3 4 (at [] hello) sent_world 532
      (at (stream ++ 7 ∷ []) []) stream (7 ∷ []) (omega arith) transmit_hello refl refl

receive_file_uncompressed_lem_example :
    Post
      (Received machine link_laws disk_laws 4 9 (at stream []))
      (receive_file_uncompressed machine 4 9 (at stream []))
receive_file_uncompressed_lem_example =
    receive_file_uncompressed_lem machine link_laws disk_laws 4 9 (at stream [])

send_exact_lem_example :
    Post
      (Drained (sent machine link_laws) (beside_sent machine link_laws) hello (at [] []))
      (send_exact machine hello (at [] []))
send_exact_lem_example = send_exact_lem machine link_laws hello (at [] [])

recv_exact_lem_example :
    Post (Got machine link_laws 9 (at hello [])) (recv_exact machine 9 (at hello []))
recv_exact_lem_example = recv_exact_lem machine link_laws 9 (at hello [])
