-- ===== src/Main/Run/Uploads.antt =====
-- What the arguments of `isr send` lead to.
use isr.Prelude.{
  ℕ, ◌<◌, ◌≡◌, ◌≢◌, refl, ap, ◌∙◌, true, false, if◌then◌else◌, Option, none, some, List, [], ◌∷◌,
  ◌++◌, Bytes, length,
}
use isr.CText.{text, same_string}
use isr.CText.Split.{Without}
use isr.Io.{ret, pure, Stat, Os, World}
use isr.HostPort.{parse_host_port, parse_host_port_lem}
use isr.Client.{send_file}
use isr.Trees.{send_directory}
use isr.Main.Arguments.{Options, no_options, send_options}
use isr.Main.Arguments.Upload.{SendOption, written, asks_recursive, summary, send_options_lem}
use isr.Main.Run.{exit_with, send_found, send_to, send_with, cmd_send, main}

module _ {N F : Type 0} (os : Os N F) (levels rounds : ℕ) where
  main-cmd_send :
      (args : List Bytes) (w : World N F)
      → main os levels rounds (text "send" ∷ args) w ≡ cmd_send os levels rounds args w
  unfolding main same_string
  main-cmd_send args w = refl

  -- `isr send` with a host and a port joined by a colon, and options as they are written, does
  -- what the options ask for to the path that exists: a file is uploaded, a directory is uploaded
  -- if there is an `-r`, and otherwise the program returns 1 and does nothing. Neither the host
  -- nor the port is empty, the port has no colon, and they have less than 256 and 16 bytes.
  pub main_sends :
      (host port local_path remote_path : Bytes) (opts : List SendOption) (st : Stat)
      (w : World N F)
      → host ≢ []
      → port ≢ []
      → Without b':' port
      → length host < 256
      → length port < 16
      → os.sys.stat local_path w.sys ≡ some st
      → main os levels rounds
          (text "send" ∷ (host ++ b':' ∷ port) ∷ local_path ∷ remote_path ∷ written opts)
          w
        ≡ (let o : Options = summary 0 false false false opts in
              if st.is_dir
              then if asks_recursive opts
                then exit_with os (
                    send_directory os levels rounds host port o.flags o.block_size remote_path
                      local_path)
                else pure 1
              else exit_with os
                  (send_file os rounds host port remote_path local_path o.flags o.block_size))
            w
  unfolding cmd_send
  main_sends host port local_path remote_path opts st w ne ne' plain fits fits' found =
      main-cmd_send ((host ++ b':' ∷ port) ∷ local_path ∷ remote_path ∷ written opts) w
      ∙ ap (λ x. send_with os levels rounds (host ++ b':' ∷ port) local_path remote_path x w)
          ((send_options_lem (written opts) (summary 0 false false false opts)).1
            (opts, refl, refl))
      ∙ ap
          (λ x.
            send_to os levels rounds (summary 0 false false false opts) local_path remote_path x w)
          (parse_host_port_lem host port 256 16 ne ne' plain fits fits')
      ∙ ap
          (λ x.
            send_found os levels rounds (summary 0 false false false opts) host port local_path
              remote_path x w)
          found

  -- Why an upload is refused before it begins.
  pub data IsUnfit (hostport local_path : Bytes) (more : List Bytes) (w : World N F) : Type 0 where
    unknown_option : send_options more no_options ≡ none → IsUnfit hostport local_path more w
    no_host_port : parse_host_port hostport 256 16 ≡ none → IsUnfit hostport local_path more w
    missing : os.sys.stat local_path w.sys ≡ none → IsUnfit hostport local_path more w
    not_recursive :
        (o : Options) (st : Stat)
        → send_options more no_options ≡ some o
        → o.recursive ≡ false
        → os.sys.stat local_path w.sys ≡ some st
        → st.is_dir ≡ true
        → IsUnfit hostport local_path more w

  found_refused :
      (o : Options) (host port local_path remote_path : Bytes) (st : Stat) (w : World N F)
      → o.recursive ≡ false
      → st.is_dir ≡ true
      → send_found os levels rounds o host port local_path remote_path (some st) w ≡ ret 1 w
  found_refused o host port local_path remote_path st w r d = rw (d, r) refl

  to_missing :
      (o : Options) (local_path remote_path : Bytes) (target : Option (Bytes × Bytes))
      (w : World N F)
      → os.sys.stat local_path w.sys ≡ none
      → send_to os levels rounds o local_path remote_path target w ≡ ret 1 w
  to_missing o local_path remote_path none w e = refl
  to_missing o local_path remote_path (some (host, port)) w e =
      ap (λ x. send_found os levels rounds o host port local_path remote_path x w) e

  to_directory :
      (o : Options) (st : Stat) (local_path remote_path : Bytes) (target : Option (Bytes × Bytes))
      (w : World N F)
      → o.recursive ≡ false
      → os.sys.stat local_path w.sys ≡ some st
      → st.is_dir ≡ true
      → send_to os levels rounds o local_path remote_path target w ≡ ret 1 w
  to_directory o st local_path remote_path none w r e d = refl
  to_directory o st local_path remote_path (some (host, port)) w r e d =
      ap (λ x. send_found os levels rounds o host port local_path remote_path x w) e
      ∙ found_refused o host port local_path remote_path st w r d

  with_none :
      (hostport local_path remote_path : Bytes) (options : Option Options) (w : World N F)
      → ((o : Options)
          → send_to os levels rounds o local_path remote_path (parse_host_port hostport 256 16) w
            ≡ ret 1 w)
      → send_with os levels rounds hostport local_path remote_path options w ≡ ret 1 w
  with_none hostport local_path remote_path none w h = refl
  with_none hostport local_path remote_path (some o) w h = h o

  -- `isr send` with an unknown option, without a host and a port that can be taken apart, for a
  -- local path that does not exist, or for a directory without `-r`, returns 1 and neither
  -- connects nor touches a file: the state is the one it began in.
  pub main_refuses :
      (hostport local_path remote_path : Bytes) (more : List Bytes) (w : World N F)
      → IsUnfit hostport local_path more w
      → main os levels rounds (text "send" ∷ hostport ∷ local_path ∷ remote_path ∷ more) w ≡ ret 1 w
  unfolding cmd_send
  main_refuses hostport local_path remote_path more w unfit =
      main-cmd_send (hostport ∷ local_path ∷ remote_path ∷ more) w ∙ why unfit
    where
      why :
          IsUnfit hostport local_path more w
          → send_with os levels rounds hostport local_path remote_path
              (send_options more no_options)
              w
            ≡ ret 1 w
      why (unknown_option e) =
          ap (λ x. send_with os levels rounds hostport local_path remote_path x w) e
      why (no_host_port e) =
          with_none hostport local_path remote_path (send_options more no_options) w
            (λ o. ap (λ x. send_to os levels rounds o local_path remote_path x w) e)
      why (missing e) =
          with_none hostport local_path remote_path (send_options more no_options) w
            (λ o. to_missing o local_path remote_path (parse_host_port hostport 256 16) w e)
      why (not_recursive o st e r found d) =
          ap (λ x. send_with os levels rounds hostport local_path remote_path x w) e
          ∙ to_directory o st local_path remote_path (parse_host_port hostport 256 16) w r found d
