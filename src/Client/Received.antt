-- ===== src/Client/Received.antt =====
-- A download of a file: `isr_cli_recv` of lib/isr-cli.c stores what the server sends.
use isr.Prelude.{
  none-ne_some, some-injective, ◌∷◌, ◌⊎◌, inl, inr, ℕ, ◌≤◌, ◌<◌, ◌^◌, ◌≡◌, ap, ◌∙◌, true, false,
  none, some, ◌++◌, arith, Bytes, IsByte, All, length, take,
}
use isr.Bytes.{count_byte_values}
use isr.CText.{split_last}
use isr.CText.Split.{Without, split_last-Without, split_last-last}
use isr.Io.{Status, ok, err, Os, World}
use isr.Io.Post.{Post, Post-bind}
use isr.Exact.Laws.{StreamLaws, IsReliable, FileLaws, IsHealthy}
use isr.Exact.Recv.{waiting}
use isr.Transfer.Plain.{plain_stream}
use isr.Paths.{mkdir_recursive}
use isr.Wire.{recv_type_file, flag_use_compression, Confirmation, encode_confirmation}
use isr.Server.{has_flag}
use isr.Server.Parent.{mkdir_recursive-net}
use isr.Server.Upload.{OpensAs}
use isr.Client.{basename_of, recv_connect, send_go, recv_confirmed, cli_recv}
use isr.Client.Confirmed.{err-ne_ok, send_go_lem, recv_connect_lem}
use isr.Client.Download.{Stored, into, receives_plain}

-- The last component of a path: what follows its last slash, or all of a path that has none.
abbrev pub IsLastComponent : Bytes → Bytes → Type 0
IsLastComponent name path =
    Without b'/' name × ((path ≡ name) ⊎ ((before : Bytes) × (path ≡ before ++ b'/' ∷ name)))

basename_of_lem :
    (name path : Bytes) → IsLastComponent name path → basename_of path (split_last b'/' path) ≡ name
basename_of_lem name path (without, inl e) =
    rw (ap (split_last b'/') e ∙ split_last-Without b'/' name without) e
basename_of_lem name path (without, inr (before, e)) =
    ap (basename_of path) (ap (split_last b'/') e ∙ split_last-last b'/' before name without)

-- The file of this name in the local directory, in a buffer of 4096 bytes.
abbrev pub stored_at : Bytes → Bytes → Bytes
stored_at name local_dir = take 4095 (local_dir ++ b'/' ∷ name)

module _ {N F : Type 0} (os : Os N F) (stream : StreamLaws os.net) (reliable : IsReliable stream)
    (files : FileLaws os.sys) (healthy : IsHealthy os.sys) (remote_path name local_dir : Bytes)
    (last : IsLastComponent name remote_path) (fd : ℕ)
    (opening : OpensAs files (stored_at name local_dir) fd) (content rest : Bytes)
    (bytes : All IsByte content) (small : length content ≤ 2 ^ 55) (flags block_size : ℕ)
    (plain : has_flag flags flag_use_compression ≡ false) where
  abbrev pub Kept : Status → World N F → Type 0
  Kept =
      Stored os stream reliable files healthy (stored_at name local_dir) fd opening content rest
        bytes small flags block_size

  abbrev body : Bytes
  body = plain_stream content (count_byte_values content)

  abbrev offer : Confirmation
  offer = record { response_type = recv_type_file; effective_length = length content }

  agreed :
      (rounds : ℕ) (w : World N F)
      → waiting os stream w ≡ body ++ rest
      → Post Kept (recv_confirmed os rounds remote_path local_dir flags block_size offer w)
  agreed rounds w holds = rw (basename_of_lem name remote_path last) (
      Post-bind _ Kept (send_go os) _ w (send_go_lem os stream reliable w) (elim [
        | err ↦ λ t h. absurd (err-ne_ok h.0)
        | ok ↦ λ t h.
            Post-bind (λ r u. u.net ≡ t.net) Kept (mkdir_recursive os local_dir) _ t
              (mkdir_recursive-net os local_dir t)
              λ r u same.
                into os stream reliable files healthy (stored_at name local_dir) fd opening content
                  rest bytes small flags block_size rounds body
                  (receives_plain os stream reliable files healthy (stored_at name local_dir) fd
                    opening content rest bytes small flags block_size plain rounds)
                  u (ap stream.incoming same ∙ h.1.0 ∙ holds)
      ]))

  -- If the server can be reached, and its stream goes on with the confirmation of a file of this
  -- length, the file's content and its checksum, then `isr recv` without compression returns 0,
  -- and the file in the local directory whose name is the last component of the remote path, the
  -- whole path cut to the buffer, holds exactly that content. The connection is reliable and the disk
  -- healthy; the remote path is shorter than 2 ^ 16 bytes, and the content has at most 2 ^ 55
  -- bytes, each below 256.
  pub cli_recv_stores :
      (rounds : ℕ) (host port : Bytes) (w : World N F)
      → length remote_path < 2 ^ 16
      → (os.net.connect host port w.net).0 ≡ true
      → stream.incoming (os.net.connect host port w.net).1
        ≡ encode_confirmation
            (record { response_type = recv_type_file; effective_length = length content })
          ++ (plain_stream content (count_byte_values content) ++ rest)
      → Post Kept (cli_recv os rounds host port remote_path local_dir flags block_size w)
  unfolding cli_recv
  cli_recv_stores rounds host port w short connected holds =
      Post-bind _ Kept (recv_connect os host port remote_path flags block_size) _ w
        (recv_connect_lem os stream reliable offer (body ++ rest)
          (record { response_type = omega arith; effective_length = omega (arith, small) }) host
          port remote_path flags block_size w short connected holds)
        (elim [
          | none ↦ λ t h. absurd (none-ne_some offer h.0)
          | some conf ↦ λ t h. rw (some-injective h.0) (agreed rounds t h.1.0)
        ])
