-- ===== src/Server/SendKeeps.antt =====
-- What the steps of an upload keep of the files.
use isr.Prelude.{ℕ, ◌≡◌, refl, ◌==◌, Option, none, some, Bytes}
use isr.CText.{text}
use isr.Io.{pure, ◌>>=◌, ◌>>◌, Status, ok, err, Stat, Os, on_sys, ask}
use isr.Io.Keeps.{Keeps, Keeps-bind, Keeps-err, Keeps-fail, Keeps-if}
use isr.Transfer.{minus_one, minus_two}
use isr.Transfer.Keeps.{receive_file_uncompressed-Keeps}
use isr.Compressed.Keeps.{receive_file_compressed-Keeps}
use isr.Paths.{validate_path, parent_dir, mkdir_recursive}
use isr.Paths.Resolve.{IsUnder}
use isr.Paths.Keeps.{normal, prefix-normal, prefix_trans, mkdir_recursive-Keeps}
use isr.Wire.{
  path_max, result_ok, result_checksum_bad, result_other_failure, send_response_creating,
  send_response_overwriting, SendHeader, transmit_send_response, transmit_send_result,
  flag_use_compression, flag_overwrite, flag_create_directory,
}
use isr.Server.{
  RequestInfo, Reply, has_flag, unless_refused, or_refused, resolve, refuse_send, make_parent,
  report, receive_body, accept, send_existing, send_resolved, receive_send_command,
}
use isr.Server.Keeps.{KeptBelow, response-Keeps, result-Keeps, refuse-Keeps, resolving-Keeps}
use isr.Server.Keeps.{parent-prefix}

module _ {N F : Type 0} (os : Os N F) (root : Bytes) (I : F → Type 0)
    (kept : KeptBelow os.sys root I) where
  report-Keeps : (result : ℕ) (info : RequestInfo) → Keeps I (report os result info)
  report-Keeps result info =
      Keeps-if I (result == minus_one) _ _ (ends result_other_failure err)
        (Keeps-if I (result == minus_two) _ _ (ends result_checksum_bad err) (ends result_ok ok))
    where
      ends :
          (t : ℕ) (s : Status) → Keeps I {A = Reply} (transmit_send_result os t >> pure (s, info))
      ends t s =
          Keeps-bind I (transmit_send_result os t) _ (result-Keeps os root I kept t) (λ r w i. i)

  body-Keeps :
      (rounds : ℕ) (header : SendHeader) (fd : ℕ) → Keeps I (receive_body os rounds header fd)
  body-Keeps rounds header fd =
      Keeps-if I (has_flag header.flags flag_use_compression) _ _
        (receive_file_compressed-Keeps os I kept.transfers rounds fd header.uncompressed_block_size
          header.effective_length)
        (receive_file_uncompressed-Keeps os I kept.transfers fd header.effective_length)

  parent-Keeps :
      (path : Bytes)
      → IsUnder root path
      → (o : Option Bytes) → parent_dir path_max path ≡ o
      → Keeps I (make_parent os o)
  parent-Keeps path under none e = λ w i. i
  parent-Keeps path under (some parent) e = mkdir_recursive-Keeps os I parent λ p f h.
      kept.mkdir path p f under (
        prefix_trans p (normal parent) (normal path) h
          (prefix-normal parent path (parent-prefix path_max path parent e)))

  accept-Keeps :
      (rounds : ℕ) (header : SendHeader) (path : Bytes) (t : ℕ) (info : RequestInfo)
      → IsUnder root path
      → Keeps I (accept os rounds header path t info)
  accept-Keeps rounds header path t info under =
      Keeps-bind I (make_parent os (parent_dir path_max path)) _
        (parent-Keeps path under (parent_dir path_max path) refl)
        λ s.
          Keeps-err I (transmit_send_response os t none) _ _ (response-Keeps os root I kept t none)
            (Keeps-fail I (on_sys (os.sys.open_write path)) _ _
              (λ w i. kept.open_write path w.sys under i)
              λ fd.
                Keeps-bind I (receive_body os rounds header fd) _ (body-Keeps rounds header fd)
                  λ result w i.
                    report-Keeps result info (record w { sys = os.sys.close fd w.sys })
                      (kept.close fd w.sys i))

  existing-Keeps :
      (rounds : ℕ) (header : SendHeader) (path : Bytes) (info : RequestInfo)
      → IsUnder root path
      → (o : Option Stat) → Keeps I (send_existing os rounds header path info o)
  existing-Keeps rounds header path info under none =
      accept-Keeps rounds header path send_response_creating (record info { is_overwrite = 0 })
        under
  existing-Keeps rounds header path info under (some st) =
      let info' : RequestInfo = record info { is_overwrite = 1 } in
      Keeps-if I st.is_dir _ _ (refuse-Keeps os root I kept (text "Path is a directory") info') (
        Keeps-if I (has_flag header.flags flag_overwrite) _ _
          (accept-Keeps rounds header path send_response_overwriting info' under)
          (refuse-Keeps os root I kept (text "File exists, overwrite not set") info'))

  resolved-Keeps :
      (rounds : ℕ) (header : SendHeader) (info : RequestInfo) (path : Bytes)
      → IsUnder root path
      → Keeps I (send_resolved os rounds header info path)
  resolved-Keeps rounds header info path under =
      Keeps-if I (has_flag header.flags flag_create_directory) _ _
        (Keeps-bind I (mkdir_recursive os path) _
          (mkdir_recursive-Keeps os I path λ p f h. kept.mkdir path p f under h)
          (elim [
            | ok ↦
                Keeps-bind I (transmit_send_response os result_ok none) _
                  (response-Keeps os root I kept result_ok none) (λ s w i. i)
            | err ↦ refuse-Keeps os root I kept (text "Failed to create directory") info
          ]))
        (Keeps-bind I (ask (os.sys.stat path)) _ (λ w i. i)
          (existing-Keeps rounds header path info under))

  pub receive_send_command-Keeps :
      (rounds : ℕ) (header : SendHeader) (path : Bytes) (info : RequestInfo)
      → Keeps I (receive_send_command os rounds root header path info)
  unfolding receive_send_command
  receive_send_command-Keeps rounds header path info = go (validate_path path)
    where
      go :
          (s : Status)
          → Keeps I (
              unless_refused
                (refuse_send os (text "Invalid path") info)
                (resolve os root path
                  >>= or_refused
                      (refuse_send os (text "Path resolution failed") info)
                      (send_resolved os rounds header info))
                s)
      go err = refuse-Keeps os root I kept (text "Invalid path") info
      go ok =
          resolving-Keeps os root I kept path _ _
            (refuse-Keeps os root I kept (text "Path resolution failed") info)
            (resolved-Keeps rounds header info)
