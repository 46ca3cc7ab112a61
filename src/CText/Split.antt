-- ===== src/CText/Split.antt =====
-- `strrchr` splits at the last occurrence, and `strncmp` decides prefixes.
use isr.Prelude.{
  ℕ, ◌≡◌, ◌≢◌, refl, true, none, some, [], ◌∷◌, ◌++◌, arith, Bytes, All, Option-cases, inl, inr,
}
use isr.CText.{split_last, starts_with, c_string, same_string}

-- `c` does not occur.
abbrev pub Without : ℕ → Bytes → Type 0
Without c = All (λ x. x ≢ c)

pub split_last-none : (c : ℕ) (s : Bytes) → split_last c s ≡ none → Without c s
unfolding split_last
split_last-none c [] h = tt
split_last-none c (x ∷ xs) h = elim (Option-cases (split_last c xs)) [
  | inl e ↦ (ground arith, split_last-none c xs e)
  | inr ((b, a), e) ↦ ground arith
]

pub split_last-Without : (c : ℕ) (s : Bytes) → Without c s → split_last c s ≡ none
unfolding split_last
split_last-Without c [] h = refl
split_last-Without c (x ∷ xs) (h, hs) = rw (split_last-Without c xs hs) (ground arith)

pub split_last-some :
    (c : ℕ) (s before after : Bytes)
    → split_last c s ≡ some (before, after)
    → (s ≡ before ++ c ∷ after) × Without c after
unfolding split_last
split_last-some c [] before after h = cc
split_last-some c (x ∷ xs) before after h = elim (Option-cases (split_last c xs)) [
  | inl e ↦ ground (arith, split_last-none c xs e)
  | inr ((b, a), e) ↦ ground (arith, split_last-some c xs b a e)
]

pub c_string-Without : (s : Bytes) → Without 0 (c_string s)
unfolding c_string
c_string-Without [] = tt
c_string-Without (c ∷ cs) = ground (arith, c_string-Without cs)

pub same_string-eq : (a b : Bytes) → same_string a b ≡ true → a ≡ b
unfolding same_string
same_string-eq [] [] h = refl
same_string-eq [] (d ∷ ds) h = cc
same_string-eq (c ∷ cs) [] h = cc
same_string-eq (c ∷ cs) (d ∷ ds) h = ground (arith, same_string-eq cs ds)

pub starts_with-append : (p s : Bytes) → starts_with p (p ++ s) ≡ true
unfolding starts_with
starts_with-append [] s = refl
starts_with-append (x ∷ p) s = ground (arith, starts_with-append p s)

pub starts_with_rest : (p s : Bytes) → starts_with p s ≡ true → (rest : Bytes) × (s ≡ p ++ rest)
unfolding starts_with
starts_with_rest [] s h = (s, refl)
starts_with_rest (x ∷ p) [] h = cc
starts_with_rest (x ∷ p) (c ∷ s) h =
    let (rest, e) = starts_with_rest p s (ground arith) in (rest, ground arith)

-- `strrchr` finds the separator behind which there is none.
pub split_last-last :
    (c : ℕ) (before after : Bytes)
    → Without c after
    → split_last c (before ++ c ∷ after) ≡ some (before, after)
unfolding split_last
split_last-last c [] after h = rw (split_last-Without c after h) (ground arith)
split_last-last c (x ∷ before) after h = rw (split_last-last c before after h) refl
