-- ===== src/Server/Upload.antt =====
-- An upload that is not refused is stored.
pub mod Packed
use isr.Prelude.{
  ℕ, ◌≤◌, ◌<◌, ◌^◌, ◌≡◌, refl, ap, ◌∙◌, Bool, true, false, ◌==◌, if◌then◌else◌, Option, none, some,
  List, [], ◌++◌, append_assoc, arith, Bytes, IsByte, All, length,
}
use isr.Bytes.{count_byte_values}
use isr.Bytes.Checksum.{count_byte_values_exact}
use isr.CText.{text}
use isr.Io.{pure, ok, err, Stat, Os, World, Sys}
use isr.Io.Post.{Post, Post-bind, Post-mono, Post-and}
use isr.Io.Fixes.{Post-FixedAfter}
use isr.Compressed.{receive_file_compressed}
use isr.Compressed.Format.{Lz4Laws, flatten, AreBlocks, compressed_stream}
use isr.Compressed.Receive.{receive_compressed_stream}
use isr.Compressed.Quiet.{receive_file_compressed-Quiet}
use isr.Exact.Laws.{StreamLaws, IsReliable, FileLaws, IsHealthy}
use isr.Exact.Send.{sent, stored, send_exact_ok}
use isr.Exact.Recv.{waiting}
use isr.Exact.Steps.{after_send_ok}
use isr.Transfer.{minus_one, minus_two, receive_file_uncompressed}
use isr.Transfer.Plain.{plain_stream}
use isr.Transfer.RoundTrip.{receive_plain_stream}
use isr.Transfer.Quiet.{receive_file_uncompressed-Quiet}
use isr.Paths.{validate_path, resolve_path, parent_dir}
use isr.Wire.{
  path_max, result_ok, flag_use_compression, flag_overwrite, flag_create_directory, SendHeader,
  send_response_creating, send_response_overwriting, transmit_send_response, transmit_send_result,
  response_from_result,
}
use isr.Server.Parent.{make_parent-net}
use isr.Server.{
  RequestInfo, Reply, receive_body, has_flag, refuse_send, make_parent, report, accept,
  send_existing, receive_send_command,
}
use isr.Server.Refuse.{existing_refusal}

-- What the server answers before the data.
abbrev pub answer : Option Stat → ℕ
answer none = send_response_creating
answer (some st) = send_response_overwriting

-- Opening this path for writing truncates it and gives this descriptor; closing keeps what was
-- written.
pub record OpensAs {F : Type 0} {sys : Sys F} (files : FileLaws sys) (path : Bytes) (fd : ℕ)
    : Type 0 where
  pub opens : (f : F) → (sys.open_write path f).0 ≡ some fd
  pub truncates : (f : F) → files.written fd (sys.open_write path f).1 ≡ []
  pub closes : (f : F) → files.written fd (sys.close fd f) ≡ files.written fd f

module _ {N F : Type 0} (os : Os N F) (stream : StreamLaws os.net) (reliable : IsReliable stream)
    (files : FileLaws os.sys) (healthy : IsHealthy os.sys) (full_path : Bytes) (fd : ℕ)
    (opening : OpensAs files full_path fd) (content rest : Bytes) where
  -- The file holds the content, and the client was told so.
  abbrev pub Uploaded : ℕ → World N F → Reply → World N F → Type 0
  Uploaded resp w r t =
      (r.0 ≡ ok)
      × (stored os files fd t ≡ content)
      × (waiting os stream t ≡ rest)
      × (sent os stream t
          ≡ sent os stream w ++ (response_from_result resp ++ response_from_result result_ok))

  reported :
      (result : ℕ) (info : RequestInfo) (w : World N F)
      → result < 2 ^ 63
      → Post
          (λ r t.
            (r.0 ≡ ok)
            × (t.sys ≡ w.sys)
            × (waiting os stream t ≡ waiting os stream w)
            × (sent os stream t ≡ sent os stream w ++ response_from_result result_ok))
          (report os result info w)
  unfolding transmit_send_result transmit_send_response
  reported result info w lt =
      let first : (result == minus_one) ≡ false = ground arith in
      let second : (result == minus_two) ≡ false = ground arith in
      rw (first, second)
        (Post-bind _ _ (transmit_send_result os result_ok) (λ s. pure (ok, info)) w
          (send_exact_ok os stream reliable (response_from_result result_ok) w)
          (λ s t h. (refl, ap (λ p. p.1) h.1.1, ap (λ p. p.0) h.1.1, h.1.0)))

  abbrev pub Received : World N F → ℕ → World N F → Type 0
  Received w r t =
      ((r ≡ count_byte_values content)
        × (stored os files fd t ≡ stored os files fd w ++ content)
        × (waiting os stream t ≡ rest))
      × (sent os stream t ≡ sent os stream w)

  -- The data in any form that the handler's receiver stores as the content.
  module _ (header : SendHeader) (bytes : All IsByte content) (small : length content ≤ 2 ^ 55)
      (rounds : ℕ) (body : Bytes)
      (receives : (u : World N F)
        → waiting os stream u ≡ body ++ rest
        → Post (Received u) (receive_body os rounds header fd u)) where
    accepted :
        (resp : ℕ) (info : RequestInfo) (w : World N F)
        → waiting os stream w ≡ body ++ rest
        → Post (Uploaded resp w) (accept os rounds header full_path resp info w)
    unfolding transmit_send_response
    accepted resp info w holds =
        let Q : Reply → World N F → Type 0 = Uploaded resp w in
        Post-bind (λ r t. t.net ≡ w.net) Q (make_parent os (parent_dir path_max full_path)) _ w
          (make_parent-net os (parent_dir path_max full_path) w)
          λ r s same.
            after_send_ok os stream Q reliable (response_from_result resp) (err, info) _ s
              λ t d. rw (opening.opens t.sys) (
                let u : World N F = record t { sys = (os.sys.open_write full_path t.sys).1 } in
                Post-bind (Received u) Q (receive_body os rounds header fd) _ u
                  (receives u (ap (λ p. p.0) d.1 ∙ ap stream.incoming same ∙ holds))
                  λ result v h.
                    let x : World N F = record v { sys = os.sys.close fd v.sys } in
                    Post-mono _ Q (report os result info x)
                      (λ q y k. (
                        k.0,
                        ap (files.written fd) k.1
                            ∙ opening.closes v.sys
                            ∙ h.0.1
                            ∙ ap (λ b. b ++ content) (opening.truncates t.sys),
                        k.2 ∙ h.0.2,
                        k.3
                            ∙ ap (λ b. b ++ response_from_result result_ok)
                                (h.1
                                  ∙ d.0
                                  ∙ ap (λ n. stream.outgoing n ++ response_from_result resp) same)
                            ∙ append_assoc _ (response_from_result resp) _,
                      ))
                      (reported result info x
                        (omega (arith, h.0.0, (count_byte_values_exact content bytes small).1))))

    existing :
        (info : RequestInfo) (w : World N F) (o : Option Stat)
        → existing_refusal header o ≡ none
        → waiting os stream w ≡ body ++ rest
        → Post (Uploaded (answer o) w) (send_existing os rounds header full_path info o w)
    existing info w none e holds =
        accepted send_response_creating (record info { is_overwrite = 0 }) w holds
    existing info w (some st) e holds = go st.is_dir (has_flag header.flags flag_overwrite) e
      where
        info' : RequestInfo
        info' = record info { is_overwrite = 1 }

        go :
            (dir over : Bool)
            → (if dir
                then some (text "Path is a directory")
                else if over
                then none
                else some (text "File exists, overwrite not set"))
              ≡ none
            → Post (Uploaded send_response_overwriting w) (
                (if dir
                    then refuse_send os (text "Path is a directory") info'
                    else if over
                    then accept os rounds header full_path send_response_overwriting info'
                    else refuse_send os (text "File exists, overwrite not set") info')
                  w)
        go true over e = cc
        go false true e = accepted send_response_overwriting info' w holds
        go false false e = cc

    pub stores :
        (root path : Bytes) (info : RequestInfo) (w : World N F)
        → validate_path path ≡ ok
        → resolve_path (λ p. os.sys.realpath p w.sys) path_max root path ≡ some full_path
        → has_flag header.flags flag_create_directory ≡ false
        → existing_refusal header (os.sys.stat full_path w.sys) ≡ none
        → waiting os stream w ≡ body ++ rest
        → Post
            (Uploaded (answer (os.sys.stat full_path w.sys)) w)
            (receive_send_command os rounds root header path info w)
    unfolding receive_send_command
    stores root path info w valid resolves create free holds =
        rw (valid, resolves, create) (existing info w (os.sys.stat full_path w.sys) free holds)

  module _ (header : SendHeader) (plain : has_flag header.flags flag_use_compression ≡ false)
      (announced : header.effective_length ≡ length content) (bytes : All IsByte content)
      (small : length content ≤ 2 ^ 55) where
    pub receives_plain :
        (rounds : ℕ) (u : World N F)
        → waiting os stream u ≡ plain_stream content (count_byte_values content) ++ rest
        → Post (Received u) (receive_body os rounds header fd u)
    receives_plain rounds u holds =
        rw (plain, announced)
          (Post-FixedAfter (sent os stream) _ u (receive_file_uncompressed os fd (length content) u)
            (receive_plain_stream os stream reliable files healthy fd content rest u holds)
            (receive_file_uncompressed-Quiet os stream files fd (length content) u))

    -- An upload without compression to a valid path that resolves, that is not to make a
    -- directory and that is not refused because of what is there already, stores exactly the
    -- announced bytes: where the stream goes on with them and their checksum, on a reliable
    -- connection and a healthy disk, the handler returns 0, the file holds those bytes, the
    -- stream is read up to the end of the checksum, and the client was told that the file is
    -- created or overwritten and then that the transfer is right. The content has at most 2 ^ 55
    -- bytes, each below 256.
    pub upload_is_stored :
        (rounds : ℕ) (root path : Bytes) (info : RequestInfo) (w : World N F)
        → validate_path path ≡ ok
        → resolve_path (λ p. os.sys.realpath p w.sys) path_max root path ≡ some full_path
        → has_flag header.flags flag_create_directory ≡ false
        → existing_refusal header (os.sys.stat full_path w.sys) ≡ none
        → waiting os stream w ≡ plain_stream content (count_byte_values content) ++ rest
        → Post
            (Uploaded (answer (os.sys.stat full_path w.sys)) w)
            (receive_send_command os rounds root header path info w)
    upload_is_stored rounds root path info w =
        stores header bytes small rounds (plain_stream content (count_byte_values content))
          (receives_plain rounds) root path info w
