-- ===== src/Client/Download.antt =====
-- A download stores what the server sends.
pub mod Packed
use isr.Prelude.{
  none-ne_some, some-injective, ℕ, ◌≤◌, ◌<◌, ◌^◌, ◌≡◌, ap, ◌∙◌, true, false, none, some, ◌++◌,
  arith, Bytes, IsByte, All, length,
}
use isr.Bytes.{count_byte_values}
use isr.Bytes.Checksum.{count_byte_values_exact}
use isr.Io.{pure, on_sys, ◌>>=◌, Status, ok, err, Os, World}
use isr.Io.Post.{Post, Post-bind}
use isr.Exact.Laws.{StreamLaws, IsReliable, FileLaws, IsHealthy}
use isr.Exact.Send.{stored}
use isr.Exact.Recv.{waiting}
use isr.Transfer.{receive_file_uncompressed}
use isr.Transfer.Plain.{plain_stream}
use isr.Transfer.RoundTrip.{receive_plain_stream}
use isr.Paths.{parent_dir}
use isr.Wire.{path_max, recv_type_file, flag_use_compression, Confirmation, encode_confirmation}
use isr.Wire.Layout.{ConfirmationFits}
use isr.Server.Parent.{make_parent-net}
use isr.Server.{has_flag, make_parent, or_refused}
use isr.Server.Upload.{OpensAs}
use isr.Client.Confirmed.{err-ne_ok, send_go_lem, recv_connect_lem}
use isr.Client.{
  as_int, file_status, hang_up, recv_connect, send_go, receive_file_data, download_into,
  download_confirmed, download_file,
}

pub as_int_lem : (result : ℕ) → result < 2 ^ 63 → as_int result ≡ 0
as_int_lem result h = ground arith

module _ {N F : Type 0} (os : Os N F) (stream : StreamLaws os.net) (reliable : IsReliable stream)
    (files : FileLaws os.sys) (healthy : IsHealthy os.sys) (local_path : Bytes) (fd : ℕ)
    (opening : OpensAs files local_path fd) (content rest : Bytes) (bytes : All IsByte content)
    (small : length content ≤ 2 ^ 55) (flags block_size : ℕ) where
  abbrev pub Stored : Status → World N F → Type 0
  Stored r t = (r ≡ ok) × (stored os files fd t ≡ content)

  abbrev pub ReceivedData : World N F → ℕ → World N F → Type 0
  ReceivedData u r t = (r ≡ 0) × (stored os files fd t ≡ stored os files fd u ++ content)

  abbrev announced : Confirmation
  announced = record { response_type = recv_type_file; effective_length = length content }

  announced-Fits : ConfirmationFits announced
  announced-Fits = record { response_type = omega arith; effective_length = omega (arith, small) }

  -- The data in any form that the receiver stores as the content.
  module _ (rounds : ℕ) (body : Bytes)
      (receives : (u : World N F)
        → waiting os stream u ≡ body ++ rest
        → Post
            (ReceivedData u)
            (receive_file_data os rounds fd flags block_size (length content) u)) where
    pub into :
        (t : World N F)
        → waiting os stream t ≡ body ++ rest
        → Post Stored (
            (on_sys (os.sys.open_write local_path)
                >>= or_refused
                    (hang_up os err)
                    (download_into os rounds flags block_size (length content)))
              t)
    into t holds =
        let u : World N F = record t { sys = (os.sys.open_write local_path t.sys).1 } in
        rw (opening.opens t.sys) (
          Post-bind (ReceivedData u) Stored
            (receive_file_data os rounds fd flags block_size (length content)) _ u
            (receives u holds)
            λ result v h. (
              ap file_status h.0,
              opening.closes v.sys ∙ h.1 ∙ ap (λ b. b ++ content) (opening.truncates t.sys),
            ))

    agreed :
        (w : World N F)
        → waiting os stream w ≡ body ++ rest
        → Post Stored (download_confirmed os rounds local_path flags block_size announced w)
    agreed w holds = Post-bind _ Stored (send_go os) _ w (send_go_lem os stream reliable w) (elim [
      | err ↦ λ t h. absurd (err-ne_ok h.0)
      | ok ↦ λ t h.
          Post-bind (λ r u. u.net ≡ t.net) Stored (make_parent os (parent_dir path_max local_path))
            _ t (make_parent-net os (parent_dir path_max local_path) t)
            λ r u same. into u (ap stream.incoming same ∙ h.1.0 ∙ holds)
    ])

    pub downloads :
        (host port remote_path : Bytes) (w : World N F)
        → length remote_path < 2 ^ 16
        → (os.net.connect host port w.net).0 ≡ true
        → stream.incoming (os.net.connect host port w.net).1
          ≡ encode_confirmation
              (record { response_type = recv_type_file; effective_length = length content })
            ++ (body ++ rest)
        → Post Stored (download_file os rounds host port remote_path local_path flags block_size w)
    unfolding download_file
    downloads host port remote_path w short connected holds =
        Post-bind _ Stored (recv_connect os host port remote_path flags block_size) _ w
          (recv_connect_lem os stream reliable announced (body ++ rest) announced-Fits host port
            remote_path flags block_size w short connected holds)
          (elim [
            | none ↦ λ t h. absurd (none-ne_some announced h.0)
            | some conf ↦ λ t h. rw (some-injective h.0) (agreed t h.1.0)
          ])

  module _ (plain : has_flag flags flag_use_compression ≡ false) where
    pub receives_plain :
        (rounds : ℕ) (u : World N F)
        → waiting os stream u ≡ plain_stream content (count_byte_values content) ++ rest
        → Post (ReceivedData u) (receive_file_data os rounds fd flags block_size (length content) u)
    unfolding receive_file_data
    receives_plain rounds u holds = rw plain (
        Post-bind _ (ReceivedData u) (receive_file_uncompressed os fd (length content))
          (λ r. pure (as_int r)) u
          (receive_plain_stream os stream reliable files healthy fd content rest u holds)
          λ result v h. (
            as_int_lem result (omega (arith, h.0, (count_byte_values_exact content bytes small).1)),
            h.1,
          ))

    -- If the server can be reached, and its stream goes on with the confirmation of a file of
    -- this length, the file's content and its checksum, then a download without compression
    -- returns 0 and the local file holds exactly that content. The connection is reliable and the
    -- disk healthy; the remote path is shorter than 2 ^ 16 bytes, and the content has at most
    -- 2 ^ 55 bytes, each below 256.
    pub download_file_stores :
        (rounds : ℕ) (host port remote_path : Bytes) (w : World N F)
        → length remote_path < 2 ^ 16
        → (os.net.connect host port w.net).0 ≡ true
        → stream.incoming (os.net.connect host port w.net).1
          ≡ encode_confirmation
              (record { response_type = recv_type_file; effective_length = length content })
            ++ (plain_stream content (count_byte_values content) ++ rest)
        → Post Stored (download_file os rounds host port remote_path local_path flags block_size w)
    download_file_stores rounds host port remote_path w =
        downloads rounds (plain_stream content (count_byte_values content)) (receives_plain rounds)
          host port remote_path w
