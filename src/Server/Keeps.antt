-- ===== src/Server/Keeps.antt =====
-- What both handlers share: the predicates that they keep, the responses, and the resolved path.
use isr.Prelude.{
  ℕ, ◌-◌, ◌≡◌, refl, sym, ap, ◌==◌, if◌then◌else◌, Option, none, some, inl, inr, [], ◌∷◌, Bytes,
  Option-cases, take, take-append-drop, drop,
}
use isr.CText.{split_last}
use isr.CText.Split.{split_last-some}
use isr.Io.{Io, ◌>>=◌, Os, World, Sys}
use isr.Io.Keeps.{KeptByTransfers, After, Keeps, Keeps-bind}
use isr.Exact.Keeps.{send_exact-Keeps}
use isr.Paths.{resolve_path, parent_dir}
use isr.Paths.Resolve.{IsUnder, resolve_path-IsUnder}
use isr.Paths.Keeps.{IsPrefix, normal, prefix_trans}
use isr.Wire.{
  path_max, result_other_failure, transmit_send_response, transmit_send_result, response_from_error,
  response_from_result,
}
use isr.Server.{RequestInfo, Reply, or_refused, resolve, refuse_send}

-- The calls that keep a predicate on the files: on open descriptors and malloc all of them, but
-- opening a file or a directory only for paths that begin with the root, and mkdir only for such
-- paths and what they begin with.
pub record KeptBelow {F : Type 0} (sys : Sys F) (root : Bytes) (I : F → Type 0) : Type 0 where
  pub transfers : KeptByTransfers sys I
  pub close : (fd : ℕ) (f : F) → I f → I (sys.close fd f)
  pub open_read : (path : Bytes) (f : F) → IsUnder root path → I f → I (sys.open_read path f).1
  pub open_write : (path : Bytes) (f : F) → IsUnder root path → I f → I (sys.open_write path f).1
  pub list_dir : (path : Bytes) (f : F) → IsUnder root path → I f → I (sys.list_dir path f).1
  pub mkdir :
      (path p : Bytes) (f : F)
      → IsUnder root path
      → IsPrefix p (normal path)
      → I f
      → I (sys.mkdir p f).1

pub parent-prefix :
    (size : ℕ) (path parent : Bytes) → parent_dir size path ≡ some parent → IsPrefix parent path
unfolding parent_dir
parent-prefix size path parent e = elim (Option-cases (split_last b'/' (take (size - 1) path))) [
  | inl h ↦ absurd (none-ne parent (rw h at e))
  | inr ((before, after), h) ↦
      let same : before ≡ parent = ap (λ o. from_some o) (rw h at e) in
      rw (← same) (
        prefix_trans before (take (size - 1) path) path
          (b'/' ∷ after, (split_last-some b'/' (take (size - 1) path) before after h).0)
          (drop (size - 1) path, sym (take-append-drop (size - 1) path)))
]
  where
    from_some : Option Bytes → Bytes
    from_some none = []
    from_some (some b) = b

    none-ne : (b : Bytes) → ◌≡◌ {A = Option Bytes} none (some b) → ⊥
    none-ne b e = cc

module _ {N F : Type 0} (os : Os N F) (root : Bytes) (I : F → Type 0)
    (kept : KeptBelow os.sys root I) where
  pub response-Keeps :
      (response_type : ℕ) (message : Option Bytes)
      → Keeps I (transmit_send_response os response_type message)
  unfolding transmit_send_response
  response-Keeps response_type none =
      send_exact-Keeps os I kept.transfers (response_from_result response_type)
  response-Keeps response_type (some message) = send_exact-Keeps os I kept.transfers (
      if response_type == result_other_failure
      then response_from_error message
      else response_from_result response_type)

  pub result-Keeps : (response_type : ℕ) → Keeps I (transmit_send_result os response_type)
  unfolding transmit_send_result
  result-Keeps response_type = response-Keeps response_type none

  pub refuse-Keeps : (message : Bytes) (info : RequestInfo) → Keeps I (refuse_send os message info)
  refuse-Keeps message info =
      Keeps-bind I (transmit_send_response os result_other_failure (some message)) _
        (response-Keeps result_other_failure (some message)) (λ s w i. i)

  -- The rest of a handler gets a path below the root, or refuses.
  pub resolving-Keeps :
      (path : Bytes) (refusal : Io (World N F) Reply) (rest : Bytes → Io (World N F) Reply)
      → Keeps I refusal
      → ((full_path : Bytes) → IsUnder root full_path → Keeps I (rest full_path))
      → Keeps I (resolve os root path >>= or_refused refusal rest)
  resolving-Keeps path refusal rest hr h w i = go (resolve_path real path_max root path) refl
    where
      real : Bytes → Option Bytes
      real p = os.sys.realpath p w.sys

      go :
          (o : Option Bytes)
          → resolve_path real path_max root path ≡ o
          → After I (or_refused refusal rest o w)
      go none e = hr w i
      go (some full_path) e =
          h full_path (resolve_path-IsUnder real path_max root path full_path e).0 w i
