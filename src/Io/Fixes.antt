-- ===== src/Io/Fixes.antt =====
-- Actions that leave something of the state as it was, whether or not they come to an end.
use isr.Prelude.{◌≡◌, refl, ◌∙◌, Bool, true, false, if◌then◌else◌, Option, none, some}
use isr.Io.{
  Outcome, ret, stuck, fault, Io, ◌>>=◌, Status, ok, err, unless_err, or_fail, unless_false,
}
use isr.Io.Post.{Post}

module _ {S B : Type 0} (f : S → B) where
  abbrev pub FixedAfter : {A : Type 0} → S → Outcome S A → Type 0
  FixedAfter w (ret a t) = f t ≡ f w
  FixedAfter w stuck = Unit
  FixedAfter w fault = Unit

  abbrev pub Fixes : {A : Type 0} → Io S A → Type 0
  Fixes m = (w : S) → FixedAfter w (m w)

  pub Fixes-bind :
      {A C : Type 0} (m : Io S A) (k : A → Io S C)
      → Fixes m
      → ((a : A) → Fixes (k a))
      → Fixes (m >>= k)
  Fixes-bind {A = A} {C = C} m k hm hk w = go (m w) (hm w)
    where
      after : (t : S) → f t ≡ f w → (o : Outcome S C) → FixedAfter t o → FixedAfter w o
      after t h (ret c u) h' = h' ∙ h
      after t h stuck h' = tt
      after t h fault h' = tt

      go : (o : Outcome S A) → FixedAfter w o → FixedAfter w (◌>>=◌ (λ v. o) k w)
      go (ret a t) h = after t h (k a t) (hk a t)
      go stuck h = tt
      go fault h = tt

  pub Fixes-err :
      {A : Type 0} (m : Io S Status) (failure : A) (rest : Io S A)
      → Fixes m
      → Fixes rest
      → Fixes (m >>= unless_err failure rest)
  Fixes-err m failure rest hm h =
      Fixes-bind m (unless_err failure rest) hm (elim [ ok ↦ h | err ↦ λ w. refl ])

  pub Fixes-fail :
      {A C : Type 0} (m : Io S (Option C)) (failure : A) (rest : C → Io S A)
      → Fixes m
      → ((c : C) → Fixes (rest c))
      → Fixes (m >>= or_fail failure rest)
  Fixes-fail m failure rest hm h =
      Fixes-bind m (or_fail failure rest) hm (elim [ none ↦ λ w. refl | some c ↦ h c ])

  pub Fixes-false :
      {A : Type 0} (m : Io S Bool) (failure : A) (rest : Io S A)
      → Fixes m
      → Fixes rest
      → Fixes (m >>= unless_false failure rest)
  Fixes-false m failure rest hm h =
      Fixes-bind m (unless_false failure rest) hm (elim [ true ↦ h | false ↦ λ w. refl ])

  pub Fixes-if :
      {A : Type 0} (b : Bool) (m n : Io S A) → Fixes m → Fixes n → Fixes (if b then m else n)
  Fixes-if true m n hm hn = hm
  Fixes-if false m n hm hn = hn

  -- Out of a total statement, and into one.
  pub FixedAfter-Post :
      {A : Type 0} (P : A → S → Type 0) (w : S) (o : Outcome S A)
      → ((a : A) (t : S) → P a t → f t ≡ f w)
      → Post P o
      → FixedAfter w o
  FixedAfter-Post P w (ret a t) g h = g a t h
  FixedAfter-Post P w stuck g h = tt
  FixedAfter-Post P w fault g h = tt

  pub Post-FixedAfter :
      {A : Type 0} (P : A → S → Type 0) (w : S) (o : Outcome S A)
      → Post P o
      → FixedAfter w o
      → Post (λ a t. P a t × (f t ≡ f w)) o
  Post-FixedAfter P w (ret a t) h g = (h, g)
  Post-FixedAfter P w stuck h g = absurd h
  Post-FixedAfter P w fault h g = absurd h
