-- ===== src/Paths/Validate.antt =====
-- `isr_validate_path` accepts exactly the safe paths.
use isr.Prelude.{
  ◌≡◌, ◌≢◌, ◌↔◌, refl, ap, ◌∙◌, Bool, true, false, ◌&&◌, ◌||◌, List, [], ◌∷◌, ◌==◌, if◌then◌else◌,
  arith, Bytes, All, Bool-cases, inl, inr,
}
use isr.CText.{char_at, same_string}
use isr.CText.Split.{Without, same_string-eq}
use isr.Io.{ok, err}
use isr.Paths.{is_slash, ends_component, scan, validate_path}

-- A path as its components: the first, and those behind each separator.
abbrev pub first_component : Bytes → Bytes
first_component [] = []
first_component (c ∷ cs) = if is_slash c then [] else c ∷ first_component cs

abbrev pub later_components : Bytes → List Bytes
later_components [] = []
later_components (c ∷ cs) =
    if is_slash c then first_component cs ∷ later_components cs else later_components cs

abbrev pub dot_dot : Bytes
dot_dot = b'.' ∷ b'.' ∷ []

-- The path is relative and not empty, and no component is `..`.
pub record IsSafe (path : Bytes) : Type 0 where
  pub not_empty : path ≢ []
  pub relative : is_slash (char_at path 0) ≡ false
  pub first_safe : first_component path ≢ dot_dot
  pub later_safe : All (λ x. x ≢ dot_dot) (later_components path)

abbrev any_dots : List Bytes → Bool
any_dots [] = false
any_dots (x ∷ xs) = same_string x dot_dot || any_dots xs

abbrev dots_ahead : Bytes → Bool
dots_ahead s = (char_at s 0 == b'.' && char_at s 1 == b'.') && ends_component (char_at s 2)

dots_ahead-eq : (s : Bytes) → Without 0 s → dots_ahead s ≡ same_string (first_component s) dot_dot
unfolding char_at same_string
dots_ahead-eq [] h = refl
dots_ahead-eq (a ∷ []) h = ground arith
dots_ahead-eq (a ∷ b ∷ []) h = ground arith
dots_ahead-eq (a ∷ b ∷ c ∷ s) h = ground arith

any_dots-if :
    (slash : Bool) (x : Bytes) (xs : List Bytes)
    → any_dots (if slash then x ∷ xs else xs) ≡ ((slash && same_string x dot_dot) || any_dots xs)
any_dots-if true x xs = refl
any_dots-if false x xs = refl

-- The test at one position, against the component that begins there.
step :
    (dots ends at_start slash here first later : Bool)
    → (dots && ends) ≡ here
    → (if dots && (at_start && ends) then err else (if (slash && first) || later then err else ok))
      ≡ (if (at_start && here) || ((slash && first) || later) then err else ok)
step dots ends at_start slash here first later h = ground arith

scan-eq :
    (at_start : Bool) (s : Bytes)
    → Without 0 s
    → scan at_start s ≡ (
        if (at_start && same_string (first_component s) dot_dot) || any_dots (later_components s)
        then err
        else ok)
unfolding scan
scan-eq true [] h = unfold same_string in refl
scan-eq false [] h = refl
scan-eq at_start (c ∷ cs) (h, hs) =
    rw
      (
        scan-eq (is_slash c) cs hs,
        any_dots-if (is_slash c) (first_component cs) (later_components cs),
      )
      (step (c == b'.' && char_at cs 0 == b'.') (ends_component (char_at cs 1)) at_start
        (is_slash c) _ (same_string (first_component cs) dot_dot) (any_dots (later_components cs))
        (unfold char_at in dots_ahead-eq (c ∷ cs) (h, hs)))

dots_same : (x : Bytes) → x ≡ dot_dot → same_string x dot_dot ≡ true
dots_same x e = ap (λ y. same_string y dot_dot) e ∙ unfold same_string in refl

dots_differ : (x : Bytes) → x ≢ dot_dot → same_string x dot_dot ≡ false
dots_differ x h = elim (Bool-cases (same_string x dot_dot)) [
  | inl e ↦ absurd (h (same_string-eq x dot_dot e))
  | inr e ↦ e
]

any_dots-All : (xs : List Bytes) → any_dots xs ≡ false → All (λ x. x ≢ dot_dot) xs
any_dots-All [] h = tt
any_dots-All (x ∷ xs) h =
    (λ e. ground (arith, h, dots_same x e), any_dots-All xs (ground (arith, h)))

All-any_dots : (xs : List Bytes) → All (λ x. x ≢ dot_dot) xs → any_dots xs ≡ false
All-any_dots [] h = refl
All-any_dots (x ∷ xs) (h, hs) = ground (arith, dots_differ x h, All-any_dots xs hs)

first_byte : (path : Bytes) → Without 0 path → char_at path 0 ≢ 0 → path ≢ []
unfolding char_at
first_byte [] h ne e = ne refl
first_byte (c ∷ cs) h ne e = cc

first_byte_is : (path : Bytes) → Without 0 path → path ≢ [] → char_at path 0 ≢ 0
unfolding char_at
first_byte_is [] h ne e = ne refl
first_byte_is (c ∷ cs) (h, hs) ne e = h e

accepted-IsSafe : (path : Bytes) → Without 0 path → validate_path path ≡ ok → IsSafe path
unfolding validate_path
accepted-IsSafe path h e =
    let eq = scan-eq true path h in
    let dots : same_string (first_component path) dot_dot ≡ false = ground (arith, eq, e) in
    record {
      not_empty = first_byte path h (ground (arith, e));
      relative = ground (arith, e);
      first_safe = λ d. ground (arith, dots, dots_same (first_component path) d);
      later_safe = any_dots-All (later_components path) (ground (arith, eq, e));
    }

safe_accepted : (path : Bytes) → Without 0 path → IsSafe path → validate_path path ≡ ok
unfolding validate_path
safe_accepted path h s = ground (
  arith,
  scan-eq true path h,
  first_byte_is path h s.not_empty,
  s.relative,
  dots_differ (first_component path) s.first_safe,
  All-any_dots (later_components path) s.later_safe,
)

-- For a C string, `isr_validate_path` accepts exactly the relative paths that are not empty and
-- have no component `..`, where both `/` and `\` make a path absolute and separate components.
pub validate_path_lem : (path : Bytes) → Without 0 path → (validate_path path ≡ ok) ↔ IsSafe path
validate_path_lem path h = (accepted-IsSafe path h, safe_accepted path h)
