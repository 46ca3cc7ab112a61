-- ===== src/Io/Keeps.antt =====
-- Actions that keep a predicate on the files, whatever the sockets do and whether or not the
-- action comes to an end.
use isr.Prelude.{
  ◌≡◌, refl, Bool, true, false, if◌then◌else◌, Option, none, some, ◌⊎◌, inl, inr, ℕ, Bytes,
}
use isr.Io.{
  Outcome, ret, stuck, fault, Io, pure, ◌>>=◌, Status, ok, err, World, on_net, on_sys, unless_err,
  or_fail, unless_false, Sys,
}

outcomes :
    {S A : Type 0} (o : Outcome S A)
    → ((a : A) × (s : S) × (o ≡ ret a s)) ⊎ ((o ≡ stuck) ⊎ (o ≡ fault))
outcomes (ret a s) = inl (a, s, refl)
outcomes stuck = inr (inl refl)
outcomes fault = inr (inr refl)

module _ {N F : Type 0} (I : F → Type 0) where
  -- The predicate holds of the files that are left.
  abbrev pub After : {A : Type 0} → Outcome (World N F) A → Type 0
  After (ret a t) = I t.sys
  After stuck = Unit
  After fault = Unit

  abbrev pub Keeps : {A : Type 0} → Io (World N F) A → Type 0
  Keeps m = (w : World N F) → I w.sys → After (m w)

  pub Keeps-bind :
      {A B : Type 0} (m : Io (World N F) A) (f : A → Io (World N F) B)
      → Keeps m
      → ((a : A) → Keeps (f a))
      → Keeps (m >>= f)
  Keeps-bind m f hm hf w i = elim (outcomes (m w)) [
    | inl (a, t, e) ↦ rw (e, ◌>>=◌) (hf a t (rw e at (hm w i)))
    | inr (inl e) ↦ rw (e, ◌>>=◌) tt
    | inr (inr e) ↦ rw (e, ◌>>=◌) tt
  ]

  pub Keeps-pure : {A : Type 0} (a : A) → Keeps {A = A} (pure a)
  Keeps-pure a w i = i

  pub Keeps-net : {A : Type 0} (call : N → A × N) → Keeps (on_net call)
  Keeps-net call w i = i

  pub Keeps-sys :
      {A : Type 0} (call : F → A × F) → ((f : F) → I f → I (call f).1) → Keeps (on_sys call)
  Keeps-sys call h w i = h w.sys i

  pub Keeps-err :
      {A : Type 0} (m : Io (World N F) Status) (failure : A) (rest : Io (World N F) A)
      → Keeps m
      → Keeps rest
      → Keeps (m >>= unless_err failure rest)
  Keeps-err m failure rest hm h =
      Keeps-bind m (unless_err failure rest) hm (elim [ ok ↦ h | err ↦ λ w i. i ])

  pub Keeps-fail :
      {A B : Type 0} (m : Io (World N F) (Option B)) (failure : A) (rest : B → Io (World N F) A)
      → Keeps m
      → ((b : B) → Keeps (rest b))
      → Keeps (m >>= or_fail failure rest)
  Keeps-fail m failure rest hm h =
      Keeps-bind m (or_fail failure rest) hm (elim [ none ↦ λ w i. i | some b ↦ h b ])

  pub Keeps-false :
      {A : Type 0} (m : Io (World N F) Bool) (failure : A) (rest : Io (World N F) A)
      → Keeps m
      → Keeps rest
      → Keeps (m >>= unless_false failure rest)
  Keeps-false m failure rest hm h =
      Keeps-bind m (unless_false failure rest) hm (elim [ true ↦ h | false ↦ λ w i. i ])

  pub Keeps-if :
      {A : Type 0} (b : Bool) (m n : Io (World N F) A)
      → Keeps m
      → Keeps n
      → Keeps (if b then m else n)
  Keeps-if true m n hm hn = hm
  Keeps-if false m n hm hn = hn

-- The calls on an open descriptor, and malloc, keep the predicate.
pub record KeptByTransfers {F : Type 0} (sys : Sys F) (I : F → Type 0) : Type 0 where
  pub read : (fd k : ℕ) (f : F) → I f → I (sys.read fd k f).1
  pub write : (fd : ℕ) (bs : Bytes) (f : F) → I f → I (sys.write fd bs f).1
  pub alloc : (k : ℕ) (f : F) → I f → I (sys.alloc k f).1
