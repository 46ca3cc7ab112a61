-- ===== src/Client/Listing.antt =====
-- A download of a directory: `isr_cli_recv` of lib/isr-cli.c prints the listing.
use isr.Prelude.{
  false, ℕ, ◌<◌, ◌^◌, ◌≡◌, refl, ap, ◌∙◌, true, Option, none, some, List, [], ◌∷◌, ◌++◌, arith,
  Bytes, All, length,
}
use isr.Bytes.{to_big_endian, count_byte_values}
use isr.Io.{Io, pure, ◌>>=◌, Status, ok, err, Os, World}
use isr.Io.Post.{Post, Post-bind}
use isr.Io.Fixes.{Fixes-bind, Fixes-err, Post-FixedAfter}
use isr.Exact.{net_send, send_exact, recv_exact}
use isr.Exact.Laws.{StreamLaws, IsReliable}
use isr.Exact.Recv.{waiting}
use isr.Exact.Quiet.{Netted, net_send-Netted, recv_exact-Netted, send_exact-Netted}
use isr.Wire.{
  recv_go, recv_type_directory, command_recv, Confirmation, encode_confirmation, confirmation_size,
  transmit_recv_command,
}
use isr.Wire.Layout.{ConfirmationFits}
use isr.Listing.{DirEntry}
use isr.Listing.Parse.{receive_directory_listing}
use isr.Listing.Format.{IsEntry, listing_bytes}
use isr.CText.{text}
use isr.Listing.Print.{
  AreLines, lines_of, lines_of-AreLines, print_all, Printed, receive_directory_listing_lem,
}
use isr.Server.{unless_refused}
use isr.Client.{
  connect, if_connected, hang_up, confirmed, recv_connect, sent_status, send_go, recv_confirmed,
  cli_recv,
}
use isr.Client.Confirmed.{err-ne_ok, send_go_lem, recv_connect_lem}
use isr.Prelude.{none-ne_some, some-injective}

module _ {N F : Type 0} (os : Os N F) (stream : StreamLaws os.net) where
  -- The commands that begin a download leave the files alone.
  pub send_go-Netted : Netted os stream (send_go os)
  unfolding send_go
  send_go-Netted =
      Fixes-bind (λ w. w.sys) (net_send os (recv_go ∷ [])) (λ r. pure (sent_status r))
        (net_send-Netted os stream (recv_go ∷ [])) (λ r w. refl)

  transmit_recv_command-Netted :
      (path : Bytes) (flags block_size : ℕ)
      → Netted os stream (transmit_recv_command os path flags block_size)
  unfolding transmit_recv_command
  transmit_recv_command-Netted path flags block_size =
      Fixes-err (λ w. w.sys) (send_exact os (command_recv ∷ [])) err _
        (send_exact-Netted os stream (command_recv ∷ []))
        (Fixes-err (λ w. w.sys) (send_exact os _) err _ (send_exact-Netted os stream _)
          (send_exact-Netted os stream _))

  pub recv_connect-Netted :
      (host port path : Bytes) (flags block_size : ℕ)
      → Netted os stream (recv_connect os host port path flags block_size)
  unfolding recv_connect
  recv_connect-Netted host port path flags block_size =
      let answer : Io (World N F) (Option Confirmation) =
        recv_exact os confirmation_size >>= confirmed os in
      let asked : Io (World N F) (Option Confirmation) =
        transmit_recv_command os path flags block_size
        >>= unless_refused (hang_up os none) answer in
      Fixes-bind (λ w. w.sys) (connect os host port) (if_connected os none asked) (λ w. refl)
        (elim [
          | false ↦ λ w. refl
          | true ↦
              Fixes-bind (λ w. w.sys) (transmit_recv_command os path flags block_size)
                (unless_refused (hang_up os none) answer)
                (transmit_recv_command-Netted path flags block_size)
                (elim [
                  | err ↦ λ w. refl
                  | ok ↦
                      Fixes-bind (λ w. w.sys) (recv_exact os confirmation_size) (confirmed os)
                        (recv_exact-Netted os stream confirmation_size)
                        (elim [ none ↦ λ w. refl | some bs ↦ λ w. refl ])
                ])
        ])

module _ {N F : Type 0} (os : Os N F) (stream : StreamLaws os.net) (reliable : IsReliable stream)
    (es : List DirEntry) (rest : Bytes) (fits : All IsEntry es) where
  abbrev listed : Confirmation
  listed = record {
    response_type = recv_type_directory;
    effective_length = length (listing_bytes es);
  }

  abbrev listing_stream : Bytes
  listing_stream =
      listing_bytes es ++ (to_big_endian 8 (count_byte_values (listing_bytes es)) ++ rest)

  -- The memory for the listing is taken, and a line is printed for each entry.
  abbrev pub Shown : F → Status → World N F → Type 0
  Shown f r t =
      (r ≡ ok)
      × (lines : List Bytes) × AreLines es lines
      × (t.sys ≡ print_all os lines (os.sys.alloc (length (listing_bytes es)) f).1)

  -- The heading is printed.
  abbrev pub heading : Bytes → F → F
  heading remote_path f =
      os.sys.print (text "Directory listing for '" ++ (remote_path ++ text "':\n")) f

  abbrev pub Room : F → Type 0
  Room f = (os.sys.alloc (length (listing_bytes es)) f).0 ≡ true

  printed :
      (f : F) (u : World N F)
      → u.sys ≡ f
      → Room f
      → waiting os stream u ≡ listing_stream
      → Post (Shown f) ((receive_directory_listing os (length (listing_bytes es)) >>= hang_up os) u)
  printed f u same room holds =
      let n : ℕ = length (listing_bytes es) in
      Post-bind (λ r t. (r ≡ ok) × Printed os stream reliable es rest u t) (Shown f)
        (receive_directory_listing os n) (hang_up os) u
        (receive_directory_listing_lem os stream reliable es rest u fits
          (ap (λ x. (os.sys.alloc n x).0) same ∙ room) holds)
        λ r t h. (
          h.0,
          lines_of es,
          lines_of-AreLines es fits,
          h.1.1 ∙ ap (λ x. print_all os (lines_of es) (os.sys.alloc n x).1) same,
        )

  agreed :
      (rounds : ℕ) (remote_path local_dir : Bytes) (flags block_size : ℕ) (f : F) (w : World N F)
      → w.sys ≡ f
      → Room (heading remote_path f)
      → waiting os stream w ≡ listing_stream
      → Post
          (Shown (heading remote_path f))
          (recv_confirmed os rounds remote_path local_dir flags block_size listed w)
  agreed rounds remote_path local_dir flags block_size f w same room holds =
      let f' : F = heading remote_path f in
      let v : World N F = record w { sys = heading remote_path w.sys } in
      Post-bind _ (Shown f') (send_go os) _ v
        (Post-FixedAfter (λ u. u.sys) _ v (send_go os v) (send_go_lem os stream reliable v)
          (send_go-Netted os stream v))
        (elim [
          | err ↦ λ t h. absurd (err-ne_ok h.0.0)
          | ok ↦ λ t h. printed f' t (h.1 ∙ ap (heading remote_path) same) room (h.0.1.0 ∙ holds)
        ])

  -- If the server can be reached, and its stream goes on with the confirmation of a directory
  -- whose listing has this length, the listing of some entries and its checksum, then `isr recv`
  -- returns 0 and, but for the memory that it takes, has done to the system exactly this: it has
  -- printed the heading and then a line for each entry, in their order, that of a directory with
  -- its mark and that of anything else with its size in decimal. The connection is reliable, the
  -- memory for the listing is there, every entry fits the format, the listing is shorter than
  -- 2 ^ 64 bytes and the remote path shorter than 2 ^ 16.
  pub cli_recv_lists :
      (rounds : ℕ) (host port remote_path local_dir : Bytes) (flags block_size : ℕ) (w : World N F)
      → length (listing_bytes es) < 2 ^ 64
      → length remote_path < 2 ^ 16
      → Room (heading remote_path w.sys)
      → (os.net.connect host port w.net).0 ≡ true
      → stream.incoming (os.net.connect host port w.net).1
        ≡ encode_confirmation (record {
          response_type = recv_type_directory;
          effective_length = length (listing_bytes es);
        })
          ++ (listing_bytes es ++ (to_big_endian 8 (count_byte_values (listing_bytes es)) ++ rest))
      → Post
          (Shown (heading remote_path w.sys))
          (cli_recv os rounds host port remote_path local_dir flags block_size w)
  unfolding cli_recv
  cli_recv_lists rounds host port remote_path local_dir flags block_size w fit short room connected
        holds =
      let ask : Io (World N F) (Option Confirmation) =
        recv_connect os host port remote_path flags block_size in
      let listed-Fits : ConfirmationFits listed = record {
        response_type = omega arith;
        effective_length = fit;
      } in
      Post-bind _ (Shown (heading remote_path w.sys)) ask _ w
        (Post-FixedAfter (λ u. u.sys) _ w (ask w)
          (recv_connect_lem os stream reliable listed listing_stream listed-Fits host port
            remote_path flags block_size w short connected holds)
          (recv_connect-Netted os stream host port remote_path flags block_size w))
        (elim [
          | none ↦ λ t h. absurd (none-ne_some listed h.0.0)
          | some conf ↦ λ t h.
              rw (some-injective h.0.0)
                (agreed rounds remote_path local_dir flags block_size w.sys t h.1 room h.0.1.0)
        ])
