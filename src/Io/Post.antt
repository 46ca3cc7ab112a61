-- ===== src/Io/Post.antt =====
-- Total correctness of actions: `Post P o` says that `o` is a return, and that its value and
-- final state satisfy `P`.
use isr.Prelude.{◌≡◌, refl, ap, subst}
use isr.Io.{Outcome, ret, stuck, fault, Io, ◌>>=◌}

abbrev pub Post : {S A : Type 0} → (A → S → Type 0) → Outcome S A → Type 0
Post P (ret a s) = P a s
Post P stuck = ⊥
Post P fault = ⊥

module _ {S A : Type 0} where
  pub Post-mono :
      (P Q : A → S → Type 0) (o : Outcome S A)
      → ((a : A) (s : S) → P a s → Q a s)
      → Post P o
      → Post Q o
  Post-mono P Q (ret a s) f h = f a s h
  Post-mono P Q stuck f h = elim h [ ]
  Post-mono P Q fault f h = elim h [ ]

  -- A return that satisfies `P`, as a value and an equation.
  pub Post-ret :
      (P : A → S → Type 0) (o : Outcome S A) → Post P o → (a : A) × (s : S) × (o ≡ ret a s) × P a s
  Post-ret P (ret a s) h = (a, s, refl, h)
  Post-ret P stuck h = elim h [ ]
  Post-ret P fault h = elim h [ ]

  -- What holds of the return that was made.
  pub Post-holds :
      (P : A → S → Type 0) {o : Outcome S A} {a : A} {s : S} → o ≡ ret a s → Post P o → P a s
  Post-holds P e h = subst (Post P) e h

  -- A return whose value is known, as an equation.
  pub Post-this :
      (a : A) (P : S → Type 0) (o : Outcome S A)
      → Post (λ r s. (r ≡ a) × P s) o
      → (s : S) × (o ≡ ret a s) × P s
  Post-this a P (ret r s) (e, p) = (s, ap (λ x. ret x s) e, p)
  Post-this a P stuck h = elim h [ ]
  Post-this a P fault h = elim h [ ]

module _ {S A B : Type 0} where
  -- A step of a run, where it is known what the first action returns.
  pub bind_ret :
      (m : Io S A) (f : A → Io S B) {a : A} {s t : S} → m s ≡ ret a t → (m >>= f) s ≡ f a t
  bind_ret m f e = rw (e, ◌>>=◌) refl

  pub Post-bind :
      (P : A → S → Type 0) (Q : B → S → Type 0) (m : Io S A) (f : A → Io S B) (s : S)
      → Post P (m s)
      → ((a : A) (t : S) → P a t → Post Q (f a t))
      → Post Q ((m >>= f) s)
  Post-bind P Q m f s h k = let (a, t, e, p) = Post-ret P (m s) h in rw (e, ◌>>=◌) (k a t p)

module _ {S A : Type 0} where
  pub Post-and :
      (P Q : A → S → Type 0) (o : Outcome S A) → Post P o → Post Q o → Post (λ a s. P a s × Q a s) o
  Post-and P Q (ret a s) h k = (h, k)
  Post-and P Q stuck h k = elim h [ ]
  Post-and P Q fault h k = elim h [ ]
