-- ===== src/Server/Refuse.antt =====
-- Which uploads the server refuses, and what a refusal does.
use isr.Prelude.{
  ℕ, ◌≡◌, refl, ap, Bool, true, false, if◌then◌else◌, Option, none, some, [], ◌++◌, Bytes,
}
use isr.CText.{text}
use isr.Io.{pure, ask, ◌>>=◌, ◌>>◌, Status, ok, err, Stat, Os, World, Sys}
use isr.Io.Post.{Post, Post-bind}
use isr.Exact.{send_exact}
use isr.Exact.Laws.{StreamLaws, IsReliable}
use isr.Exact.Send.{sent, send_exact_ok}
use isr.Paths.{validate_path, resolve_path, mkdir_recursive}
use isr.Wire.{
  path_max, result_ok, send_response_overwriting, flag_overwrite, flag_create_directory, SendHeader,
  transmit_send_response, response_from_error,
}
use isr.Server.{
  RequestInfo, Reply, has_flag, unless_refused, or_refused, resolve, refuse_send, send_existing,
  accept, send_resolved, receive_send_command,
}

-- The reason for which an upload of a file to a resolved path is refused.
abbrev pub existing_refusal : SendHeader → Option Stat → Option Bytes
existing_refusal header none = none
existing_refusal header (some st) =
    if st.is_dir
    then some (text "Path is a directory")
    else if has_flag header.flags flag_overwrite
    then none
    else some (text "File exists, overwrite not set")

abbrev pub resolved_refusal : (Bytes → Option Stat) → SendHeader → Option Bytes → Option Bytes
resolved_refusal stat header none = some (text "Path resolution failed")
resolved_refusal stat header (some full_path) =
    if has_flag header.flags flag_create_directory
    then none
    else existing_refusal header (stat full_path)

-- The reason for which a request is refused on these files before anything is done, if any.
abbrev pub refusal : {F : Type 0} → Sys F → Bytes → SendHeader → Bytes → F → Option Bytes
refusal sys root header path f = elim (validate_path path) [
  | err ↦ some (text "Invalid path")
  | ok ↦
      resolved_refusal (λ p. sys.stat p f) header
        (resolve_path (λ p. sys.realpath p f) path_max root path)
]

module _ {N F : Type 0} (os : Os N F) (stream : StreamLaws os.net)
    (reliable : IsReliable stream) where
  -- The client is told, and the files are as they were.
  abbrev pub Refused : Bytes → World N F → Reply → World N F → Type 0
  Refused message w r t =
      (r.0 ≡ err)
      × (t.sys ≡ w.sys)
      × (sent os stream t ≡ sent os stream w ++ response_from_error message)

  refuse_lem :
      (message : Bytes) (info : RequestInfo) (w : World N F)
      → Post (Refused message w) (refuse_send os message info w)
  unfolding transmit_send_response
  refuse_lem message info w =
      Post-bind _ (Refused message w) (send_exact os (response_from_error message))
        (λ s. pure (err, info)) w (send_exact_ok os stream reliable (response_from_error message) w)
        (λ s t h. (refl, ap (λ p. p.1) h.1.1, h.1.0))

  some-eq : (a b : Bytes) → ◌≡◌ {A = Option Bytes} (some a) (some b) → a ≡ b
  some-eq a b e = ap from_some e
    where
      from_some : Option Bytes → Bytes
      from_some none = []
      from_some (some x) = x

  Refused-as :
      (reason message : Bytes) (info : RequestInfo) (w : World N F)
      → ◌≡◌ {A = Option Bytes} (some reason) (some message)
      → Post (Refused message w) (refuse_send os reason info w)
  Refused-as reason message info w e = rw (← some-eq reason message e) (refuse_lem reason info w)

  existing_lem :
      (rounds : ℕ) (header : SendHeader) (path : Bytes) (info : RequestInfo) (message : Bytes)
      (w : World N F) (o : Option Stat)
      → existing_refusal header o ≡ some message
      → Post (Refused message w) (send_existing os rounds header path info o w)
  existing_lem rounds header path info message w none e = cc
  existing_lem rounds header path info message w (some st) e =
      go st.is_dir (has_flag header.flags flag_overwrite) e
    where
      info' : RequestInfo
      info' = record info { is_overwrite = 1 }

      go :
          (dir over : Bool)
          → (if dir
              then some (text "Path is a directory")
              else if over
              then none
              else some (text "File exists, overwrite not set"))
            ≡ some message
          → Post (Refused message w) (
              (if dir
                  then refuse_send os (text "Path is a directory") info'
                  else if over
                  then accept os rounds header path send_response_overwriting info'
                  else refuse_send os (text "File exists, overwrite not set") info')
                w)
      go true over e = Refused-as _ message info' w e
      go false true e = cc
      go false false e = Refused-as _ message info' w e

  resolved_lem :
      (rounds : ℕ) (header : SendHeader) (info : RequestInfo) (message : Bytes) (w : World N F)
      (o : Option Bytes)
      → resolved_refusal (λ p. os.sys.stat p w.sys) header o ≡ some message
      → Post (Refused message w) (
          or_refused
            (refuse_send os (text "Path resolution failed") info)
            (send_resolved os rounds header info)
            o
            w)
  resolved_lem rounds header info message w none e = Refused-as _ message info w e
  resolved_lem rounds header info message w (some path) e =
      go (has_flag header.flags flag_create_directory) e
    where
      go :
          (create : Bool)
          → (if create then none else existing_refusal header (os.sys.stat path w.sys))
            ≡ some message
          → Post (Refused message w) (
              (if create
                  then (mkdir_recursive os path
                      >>= unless_refused
                          (refuse_send os (text "Failed to create directory") info)
                          (transmit_send_response os result_ok none >> pure (ok, info)))
                  else (ask (os.sys.stat path) >>= send_existing os rounds header path info))
                w)
      go true e = cc
      go false e = existing_lem rounds header path info message w (os.sys.stat path w.sys) e

  -- On a reliable connection, an upload is refused if its path is not valid or does not resolve,
  -- if it names a directory, or if it names a file and the overwrite flag is not set (the last
  -- two only where no directory is to be made): the handler returns -1, has sent the error
  -- response with the reason and has not touched the files.
  pub receive_send_command-refuses :
      (rounds : ℕ) (root : Bytes) (header : SendHeader) (path : Bytes) (info : RequestInfo)
      (message : Bytes) (w : World N F)
      → refusal os.sys root header path w.sys ≡ some message
      → Post (Refused message w) (receive_send_command os rounds root header path info w)
  unfolding receive_send_command
  receive_send_command-refuses rounds root header path info message w e = go (validate_path path) e
    where
      go :
          (s : Status)
          → (elim s as (λ _. Option Bytes) [
            | err ↦ some (text "Invalid path")
            | ok ↦
                resolved_refusal
                  (λ p. os.sys.stat p w.sys)
                  header
                  (resolve_path (λ p. os.sys.realpath p w.sys) path_max root path)
          ])
            ≡ some message
          → Post (Refused message w) (
              unless_refused
                (refuse_send os (text "Invalid path") info)
                (resolve os root path
                  >>= or_refused
                      (refuse_send os (text "Path resolution failed") info)
                      (send_resolved os rounds header info))
                s
                w)
      go err e = Refused-as _ message info w e
      go ok e =
          resolved_lem rounds header info message w
            (resolve_path (λ p. os.sys.realpath p w.sys) path_max root path) e
