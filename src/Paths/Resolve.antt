-- ===== src/Paths/Resolve.antt =====
-- Where a request's path ends up: `isr_resolve_path`.
use isr.Prelude.{
  ℕ, zero, suc, ◌-◌, ◌≤◌, ◌<◌, ◌≡◌, ◌≢◌, refl, sym, ap, subst, ◌∙◌, true, false, Option, none, some,
  [], ◌∷◌, ◌++◌, append_assoc, leb, if◌then◌else◌, arith, Bytes, Bool-cases, inl, inr, length,
  length-append, length-take, take, take-ge,
}
use isr.CText.{copy_string, joined, starts_with, split_last}
use isr.CText.Split.{Without, starts_with_rest, split_last-last, starts_with-append}
use isr.Paths.{resolve_path, resolved_of, under_root}
use isr.Exact.Laws.{received}
use isr.Wire.{path_max}

-- The path begins with the root.
pub record IsUnder (root path : Bytes) : Type 0 where
  pub below : Bytes
  pub whole : path ≡ root ++ below

take_past :
    (k : ℕ) (xs ys : Bytes) → length xs ≤ k → take k (xs ++ ys) ≡ xs ++ take (k - length xs) ys
take_past k [] ys le = ap (λ j. take j ys) (omega arith)
take_past zero (x ∷ xs) ys le = absurd (omega arith)
take_past (suc k) (x ∷ xs) ys le =
    ap (λ t. x ∷ t) (take_past k xs ys (omega arith) ∙ ap (λ j. xs ++ take j ys) (omega arith))

cut-IsUnder :
    (root s : Bytes) (k : ℕ) → starts_with root s ≡ true → length root ≤ k → IsUnder root (take k s)
cut-IsUnder root s k h le =
    let (rest, e) = starts_with_rest root s h in
    record { below = take (k - length root) rest; whole = ap (take k) e ∙ take_past k root rest le }

none-ne_some : (out : Bytes) → ◌≢◌ {A = Option Bytes} none (some out)
none-ne_some out e = cc

joined-ne : (a b : Bytes) → a ≢ [] → joined a b ≢ []
joined-ne [] b ne e = ne refl
joined-ne (x ∷ a) b ne e = cc

under_root_lem :
    (root resolved out : Bytes) (out_size : ℕ)
    → length root < out_size
    → under_root root out_size resolved ≡ some out
    → IsUnder root out × (length out < out_size)
unfolding copy_string
under_root_lem root resolved out out_size le e = elim (Bool-cases (starts_with root resolved)) [
  | inl h ↦
      let is : take (out_size - 1) resolved ≡ out = ap received (rw h at e) in
      (
        subst (IsUnder root) is (cut-IsUnder root resolved (out_size - 1) h (omega arith)),
        omega (arith, ap length is, length-take (out_size - 1) resolved),
      )
  | inr h ↦ absurd (none-ne_some out (rw h at e))
]

-- Whatever `realpath` answers, a path that `isr_resolve_path` returns begins with the root as a
-- string, and fits the buffer with its terminator.
pub resolve_path-IsUnder :
    (realpath : Bytes → Option Bytes) (out_size : ℕ) (root relative out : Bytes)
    → resolve_path realpath out_size root relative ≡ some out
    → IsUnder root out × (length out < out_size)
unfolding resolve_path
resolve_path-IsUnder realpath out_size root relative out e =
    elim (Bool-cases (leb out_size (length (joined root relative)))) [
      | inl h ↦ absurd (none-ne_some out (rw h at e))
      | inr h ↦
          under_root_lem root
            (resolved_of realpath (joined root relative)
              (split_last b'/' (copy_string path_max (joined root relative))))
            out out_size (ground (arith, h, length-append root (b'/' ∷ relative))) (rw h at e)
    ]

resolved_parent :
    (realpath : Bytes → Option Bytes) (out parent basename real : Bytes)
    → parent ≢ []
    → Without b'/' basename
    → out ≡ joined parent basename
    → length out < path_max
    → realpath parent ≡ some real
    → length (joined real basename) < path_max
    → resolved_of realpath out (split_last b'/' (copy_string path_max out)) ≡ joined real basename
unfolding copy_string
resolved_parent realpath out [] basename real ne h split short found short' = absurd (ne refl)
resolved_parent realpath out (p ∷ parent) basename real ne h split short found short' =
    rw
      (
        take-ge 4095 out (omega arith),
        split,
        split_last-last b'/' (p ∷ parent) basename h,
        found,
        take-ge 4095 basename (omega (arith, short', length-append real (b'/' ∷ basename))),
        take-ge 4095 (joined real basename) (omega arith),
      )
      refl

-- A request for a name below a directory that exists resolves to the name behind the directory's
-- canonical path exactly when that text begins with the root: nothing asks for a separator
-- behind the root, and nothing is asked of the last name itself. Both texts fit the buffers, and
-- the root is not empty.
pub resolve_path_parent :
    (realpath : Bytes → Option Bytes) (root parent basename real : Bytes)
    → root ≢ []
    → Without b'/' basename
    → length (joined root (joined parent basename)) < path_max
    → realpath (joined root parent) ≡ some real
    → length (joined real basename) < path_max
    → resolve_path realpath path_max root (joined parent basename)
      ≡ (if starts_with root (joined real basename) then some (joined real basename) else none)
unfolding resolve_path copy_string
resolve_path_parent realpath root parent basename real ne h short found short' =
    let out : Bytes = joined root (joined parent basename) in
    let fits : leb path_max (length out) ≡ false = ground arith in
    rw
      (
        fits,
        resolved_parent realpath out (joined root parent) basename real (joined-ne root parent ne) h
            (sym (append_assoc root (b'/' ∷ parent) (b'/' ∷ basename))) short found short',
        take-ge 4095 (joined real basename) (omega arith),
      )
      refl

resolved_missing :
    (realpath : Bytes → Option Bytes) (out parent basename : Bytes)
    → parent ≢ []
    → Without b'/' basename
    → out ≡ joined parent basename
    → length out < path_max
    → realpath parent ≡ none
    → resolved_of realpath out (split_last b'/' (copy_string path_max out)) ≡ out
unfolding copy_string
resolved_missing realpath out [] basename ne h split short missing = absurd (ne refl)
resolved_missing realpath out (p ∷ parent) basename ne h split short missing =
    let found : split_last b'/' out ≡ some (p ∷ parent, basename) =
      ap (split_last b'/') split ∙ split_last-last b'/' (p ∷ parent) basename h in
    rw (take-ge 4095 out (omega arith), found, missing) (take-ge 4095 out (omega arith))

-- Where `realpath` does not resolve the directory, any path that fits the buffer goes through as
-- it is spelled, though a component may be a link out of the root. The root is not empty.
pub resolve_path_missing_parent :
    (realpath : Bytes → Option Bytes) (root parent basename : Bytes)
    → root ≢ []
    → Without b'/' basename
    → length (joined root (joined parent basename)) < path_max
    → realpath (joined root parent) ≡ none
    → resolve_path realpath path_max root (joined parent basename)
      ≡ some (joined root (joined parent basename))
unfolding resolve_path copy_string
resolve_path_missing_parent realpath root parent basename ne h short missing =
    let out : Bytes = joined root (joined parent basename) in
    let fits : leb path_max (length out) ≡ false = ground arith in
    rw
      (
        fits,
        resolved_missing realpath out (joined root parent) basename (joined-ne root parent ne) h
            (sym (append_assoc root (b'/' ∷ parent) (b'/' ∷ basename))) short missing,
        starts_with-append root (b'/' ∷ joined parent basename),
        take-ge 4095 out (omega arith),
      )
      refl
