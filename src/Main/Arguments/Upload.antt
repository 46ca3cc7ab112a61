-- ===== src/Main/Arguments/Upload.antt =====
-- The options of `cmd_send`: which arguments its loop accepts, and what it makes of them.
use isr.Prelude.{
  none-ne_some, some-injective, ℕ, ◌+◌, ◌≡◌, refl, sym, ap, ◌∙◌, Bool, true, false, ◌||◌, some,
  List, [], ◌∷◌, ◌++◌, if◌then◌else◌, Bytes, Bool-cases, inl, inr, ◌↔◌, bit_or,
}
use isr.CText.{text, same_string}
use isr.CText.Split.{same_string-eq}
use isr.Wire.{flag_use_compression, flag_overwrite}
use isr.Main.Arguments.{
  Options, no_options, block_size_of, with_block_size, with_overwrite, with_recursive, send_options,
}

-- One option of the command line.
pub data SendOption : Type 0 where
  compress : Bytes → SendOption
  overwrite : SendOption
  recursively : SendOption

-- How the options are written.
abbrev pub written : List SendOption → List Bytes
written [] = []
written (compress s ∷ opts) = text "-c" ∷ s ∷ written opts
written (overwrite ∷ opts) = text "-o" ∷ written opts
written (recursively ∷ opts) = text "-r" ∷ written opts

-- What they ask for: the block size of the last `-c`, or `default` without one, and whether each
-- option is there.
abbrev pub asks_block_size : ℕ → List SendOption → ℕ
asks_block_size default [] = default
asks_block_size default (compress s ∷ opts) = asks_block_size (block_size_of s) opts
asks_block_size default (overwrite ∷ opts) = asks_block_size default opts
asks_block_size default (recursively ∷ opts) = asks_block_size default opts

abbrev pub asks_compress : List SendOption → Bool
asks_compress [] = false
asks_compress (compress s ∷ opts) = true
asks_compress (overwrite ∷ opts) = asks_compress opts
asks_compress (recursively ∷ opts) = asks_compress opts

abbrev pub asks_overwrite : List SendOption → Bool
asks_overwrite [] = false
asks_overwrite (compress s ∷ opts) = asks_overwrite opts
asks_overwrite (overwrite ∷ opts) = true
asks_overwrite (recursively ∷ opts) = asks_overwrite opts

abbrev pub asks_recursive : List SendOption → Bool
asks_recursive [] = false
asks_recursive (compress s ∷ opts) = asks_recursive opts
asks_recursive (overwrite ∷ opts) = asks_recursive opts
asks_recursive (recursively ∷ opts) = true

abbrev pub flags_value : Bool → Bool → ℕ
flags_value compressed overwriting =
    (if compressed then flag_use_compression else 0) + (if overwriting then flag_overwrite else 0)

abbrev pub summary : ℕ → Bool → Bool → Bool → List SendOption → Options
summary block_size compressed overwriting recursive opts = record {
  block_size = asks_block_size block_size opts;
  flags = flags_value (compressed || asks_compress opts) (overwriting || asks_overwrite opts);
  recursive = recursive || asks_recursive opts;
}

overwrite_step :
    (more : List Bytes) (o : Options)
    → send_options (text "-o" ∷ more) o ≡ send_options more (with_overwrite o)
unfolding send_options same_string
overwrite_step [] o = refl
overwrite_step (b ∷ more) o = refl

recursive_step :
    (more : List Bytes) (o : Options)
    → send_options (text "-r" ∷ more) o ≡ send_options more (with_recursive o)
unfolding send_options same_string
recursive_step [] o = refl
recursive_step (b ∷ more) o = refl

compress_step :
    (s : Bytes) (more : List Bytes) (o : Options)
    → send_options (text "-c" ∷ s ∷ more) o ≡ send_options more (with_block_size s o)
unfolding send_options same_string
compress_step s more o = refl

with_compression : (c w : Bool) → bit_or (flags_value c w) flag_use_compression ≡ flags_value true w
with_compression true true = refl
with_compression true false = refl
with_compression false true = refl
with_compression false false = refl

with_overwriting : (c w : Bool) → bit_or (flags_value c w) flag_overwrite ≡ flags_value c true
with_overwriting true true = refl
with_overwriting true false = refl
with_overwriting false true = refl
with_overwriting false false = refl

or_true : (b : Bool) → (b || true) ≡ true
or_true true = refl
or_true false = refl

or_false : (b : Bool) → (b || false) ≡ b
or_false true = refl
or_false false = refl

abbrev state : ℕ → ℕ → Bool → Options
state size flags r = record { block_size = size; flags = flags; recursive = r }

written_lem :
    (opts : List SendOption) (size : ℕ) (c w r : Bool)
    → send_options (written opts) (state size (flags_value c w) r) ≡ some (summary size c w r opts)
unfolding send_options
written_lem [] size c w r = rw (or_false c, or_false w, or_false r) refl
written_lem (compress s ∷ opts) size c w r =
    compress_step s (written opts) (state size (flags_value c w) r)
    ∙ ap (λ f. send_options (written opts) (state (block_size_of s) f r)) (with_compression c w)
    ∙ written_lem opts (block_size_of s) true w r
    ∙ ap
        (λ b. some (
          state (asks_block_size (block_size_of s) opts) (flags_value b (w || asks_overwrite opts))
            (r || asks_recursive opts)))
        (sym (or_true c))
written_lem (overwrite ∷ opts) size c w r =
    overwrite_step (written opts) (state size (flags_value c w) r)
    ∙ ap (λ f. send_options (written opts) (state size f r)) (with_overwriting c w)
    ∙ written_lem opts size c true r
    ∙ ap
        (λ b. some (
          state (asks_block_size size opts) (flags_value (c || asks_compress opts) b)
            (r || asks_recursive opts)))
        (sym (or_true w))
written_lem (recursively ∷ opts) size c w r =
    recursive_step (written opts) (state size (flags_value c w) r)
    ∙ written_lem opts size c w true
    ∙ ap
        (λ b. some (
          state (asks_block_size size opts)
            (flags_value (c || asks_compress opts) (w || asks_overwrite opts)) b))
        (sym (or_true r))

-- Only written options are accepted.
abbrev Written : List Bytes → Type 0
Written args = (opts : List SendOption) × (args ≡ written opts)

add :
    (opt : SendOption) (front args more : List Bytes)
    → args ≡ front ++ more
    → ((rest : List SendOption) → front ++ written rest ≡ written (opt ∷ rest))
    → Written more
    → Written args
add opt front args more e f (opts, h) = (opt ∷ opts, e ∙ ap (λ x. front ++ x) h ∙ f opts)

flag_front :
    (a b : Bytes) (more : List Bytes) → same_string a b ≡ true → a ∷ more ≡ (b ∷ []) ++ more
flag_front a b more h = ap (λ x. x ∷ more) (same_string-eq a b h)

accepted : (args : List Bytes) (o r : Options) → send_options args o ≡ some r → Written args
unfolding send_options
accepted [] o r e = ([], refl)
accepted (a ∷ []) o r e = elim (Bool-cases (same_string a (text "-o"))) [
  | inl h ↦
      add overwrite (text "-o" ∷ []) (a ∷ []) [] (flag_front a _ [] h) (λ rest. refl) ([], refl)
  | inr h ↦ elim (Bool-cases (same_string a (text "-r"))) [
    | inl k ↦
        add recursively (text "-r" ∷ []) (a ∷ []) [] (flag_front a _ [] k) (λ rest. refl) ([], refl)
    | inr k ↦ absurd (none-ne_some r (rw (h, k) at e))
  ]
]
accepted (a ∷ b ∷ more) o r e = elim (Bool-cases (same_string a (text "-c"))) [
  | inl h ↦
      add (compress b) (text "-c" ∷ b ∷ []) (a ∷ b ∷ more) more (flag_front a _ (b ∷ more) h)
        (λ rest. refl) (accepted more (with_block_size b o) r (rw h at e))
  | inr h ↦ elim (Bool-cases (same_string a (text "-o"))) [
    | inl k ↦
        add overwrite (text "-o" ∷ []) (a ∷ b ∷ more) (b ∷ more) (flag_front a _ (b ∷ more) k)
          (λ rest. refl) (accepted (b ∷ more) (with_overwrite o) r (rw (h, k) at e))
    | inr k ↦ elim (Bool-cases (same_string a (text "-r"))) [
      | inl l ↦
          add recursively (text "-r" ∷ []) (a ∷ b ∷ more) (b ∷ more) (flag_front a _ (b ∷ more) l)
            (λ rest. refl) (accepted (b ∷ more) (with_recursive o) r (rw (h, k, l) at e))
      | inr l ↦ absurd (none-ne_some r (rw (h, k, l) at e))
    ]
  ]
]

pub send_options_lem :
    (args : List Bytes) (r : Options)
    → (send_options args no_options ≡ some r)
      ↔ ((opts : List SendOption) × (args ≡ written opts) × (r ≡ summary 0 false false false opts))
send_options_lem args r = (
  λ e.
      let (opts, h) = accepted args no_options r e in
      (
        opts,
        h,
        some-injective
            (sym e ∙ ap (λ x. send_options x no_options) h ∙ written_lem opts 0 false false false),
      ),
  λ (opts, h, k).
      ap (λ x. send_options x no_options) h
      ∙ written_lem opts 0 false false false
      ∙ ap some (sym k),
)
