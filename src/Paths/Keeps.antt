-- ===== src/Paths/Keeps.antt =====
-- `isr_mkdir_recursive` calls mkdir on the path and its ancestors only.
use isr.Prelude.{
  ◌≡◌, refl, sym, ap, subst, ◌∙◌, true, false, List, [], ◌∷◌, ◌++◌, append-nil, append_assoc,
  if◌then◌else◌, Bytes, All, take, drop, take-append-drop,
}
use isr.Io.{Outcome, ret, stuck, fault, Os, World}
use isr.Io.Post.{Post}
use isr.Io.Keeps.{After, Keeps}
use isr.Paths.{is_slash, mkdir_recursive}
use isr.Paths.Directories.{slashes, ancestors_onto, make_all, MadeLast, mkdir_recursive_lem}

abbrev pub IsPrefix : Bytes → Bytes → Type 0
IsPrefix p s = (rest : Bytes) × (s ≡ p ++ rest)

-- The path as mkdir gets it: behind the first byte every separator is a slash.
abbrev pub normal : Bytes → Bytes
normal [] = []
normal (c ∷ cs) = c ∷ slashes cs

slashes-append : (a b : Bytes) → slashes (a ++ b) ≡ slashes a ++ slashes b
slashes-append [] b = refl
slashes-append (c ∷ a) b = ap (λ x. (if is_slash c then b'/' else c) ∷ x) (slashes-append a b)

pub prefix-normal : (p s : Bytes) → IsPrefix p s → IsPrefix (normal p) (normal s)
prefix-normal [] s h = (normal s, refl)
prefix-normal (c ∷ p) s (rest, e) =
    (slashes rest, ap normal e ∙ ap (λ x. c ∷ x) (slashes-append p rest))

pub prefix_trans : (p s t : Bytes) → IsPrefix p s → IsPrefix s t → IsPrefix p t
prefix_trans p s t (a, e) (b, e') = (a ++ b, e' ∙ ap (λ x. x ++ b) e ∙ append_assoc p a b)

ancestors-prefix :
    (seen s : Bytes) → All (λ p. IsPrefix p (seen ++ slashes s)) (ancestors_onto seen s)
ancestors-prefix seen [] = tt
ancestors-prefix seen (c ∷ cs) =
    elim (is_slash c)
      as (λ slash.
        All (λ p. IsPrefix p (seen ++ ((if slash then b'/' else c) ∷ slashes cs)))
          (if slash
            then seen ∷ ancestors_onto (seen ++ b'/' ∷ []) cs
            else ancestors_onto (seen ++ c ∷ []) cs)) [
              | true ↦ (
                (b'/' ∷ slashes cs, refl),
                subst (λ x. All (λ p. IsPrefix p x) (ancestors_onto (seen ++ b'/' ∷ []) cs))
                    (append_assoc seen (b'/' ∷ []) (slashes cs))
                    (ancestors-prefix (seen ++ b'/' ∷ []) cs),
              )
              | false ↦
                  subst (λ x. All (λ p. IsPrefix p x) (ancestors_onto (seen ++ c ∷ []) cs))
                    (append_assoc seen (c ∷ []) (slashes cs)) (ancestors-prefix (seen ++ c ∷ []) cs)
            ]

module _ {N F : Type 0} (os : Os N F) (I : F → Type 0) where
  make_all-keeps :
      (whole : Bytes) (ps : List Bytes)
      → ((p : Bytes) (f : F) → IsPrefix p whole → I f → I (os.sys.mkdir p f).1)
      → All (λ p. IsPrefix p whole) ps
      → (f : F) → I f
      → I (make_all os ps f)
  make_all-keeps whole [] mk h f i = i
  make_all-keeps whole (p ∷ ps) mk (h, hs) f i =
      make_all-keeps whole ps mk hs (os.sys.mkdir p f).1 (mk p f h i)

  Post-After :
      {A : Type 0} (P : A → World N F → Type 0) (o : Outcome (World N F) A)
      → Post P o
      → ((a : A) (t : World N F) → P a t → I t.sys)
      → After I o
  Post-After P (ret a t) h k = k a t h
  Post-After P stuck h k = tt
  Post-After P fault h k = tt

  cut : Bytes → Bytes
  cut path = take 1 path ++ slashes (drop 1 (take 4095 path))

  cut-prefix : (path : Bytes) → IsPrefix (cut path) (normal path)
  unfolding cut
  cut-prefix [] = ([], refl)
  cut-prefix (c ∷ cs) = (
    slashes (drop 4094 cs),
    ap (λ x. c ∷ x)
        (ap slashes (sym (take-append-drop 4094 cs))
          ∙ slashes-append (take 4094 cs) (drop 4094 cs)),
  )

  -- A predicate that every mkdir of the path or an ancestor keeps is kept.
  pub mkdir_recursive-Keeps :
      (path : Bytes)
      → ((p : Bytes) (f : F) → IsPrefix p (normal path) → I f → I (os.sys.mkdir p f).1)
      → Keeps I (mkdir_recursive os path)
  unfolding cut
  mkdir_recursive-Keeps path mk w i =
      let whole : Bytes = cut path in
      let mk' : (p : Bytes) (f : F) → IsPrefix p whole → I f → I (os.sys.mkdir p f).1 =
        λ p f h. mk p f (prefix_trans p whole (normal path) h (cut-prefix path)) in
      let all : List Bytes = ancestors_onto (take 1 path) (drop 1 (take 4095 path)) in
      Post-After (MadeLast os whole (record w { sys = make_all os all w.sys }))
        (mkdir_recursive os path w) (mkdir_recursive_lem os path w)
        (λ r t h. subst I (sym h.1) (
          mk' whole (make_all os all w.sys) ([], sym (append-nil whole))
            (make_all-keeps whole all mk' (ancestors-prefix (take 1 path) (drop 1 (take 4095 path)))
              w.sys i)))
