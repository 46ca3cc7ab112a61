-- ===== src/Paths/Directories.antt =====
-- The directories that `isr_mkdir_recursive` makes.
use isr.Prelude.{
  ◌≡◌, refl, subst, true, false, List, [], ◌∷◌, ◌++◌, append-nil, append_assoc, if◌then◌else◌,
  Bytes, take, drop,
}
use isr.CText.{copy_string}
use isr.Io.{Mkdir, made, exists, refused, ok, err, Status, Os, World, ◌>>◌}
use isr.Io.Post.{Post}
use isr.Paths.{is_slash, is_there, mkdir, mkdir_loop, mkdir_recursive}

-- The text with every separator a slash.
abbrev pub slashes : Bytes → Bytes
slashes [] = []
slashes (c ∷ cs) = (if is_slash c then b'/' else c) ∷ slashes cs

-- The ancestors of `seen` followed by `s` that are cut off inside `s`, from the outermost on.
abbrev pub ancestors_onto : Bytes → Bytes → List Bytes
ancestors_onto seen [] = []
ancestors_onto seen (c ∷ cs) =
    if is_slash c
    then seen ∷ ancestors_onto (seen ++ b'/' ∷ []) cs
    else ancestors_onto (seen ++ c ∷ []) cs

-- The status for the answer to a mkdir.
abbrev pub Answers : Mkdir → Status → Type 0
Answers m r = (m ≡ made → r ≡ ok) × (m ≡ exists → r ≡ ok) × (m ≡ refused → r ≡ err)

is_there_lem : (m : Mkdir) → Answers m (is_there m)
is_there_lem made = (λ e. refl, λ e. cc, λ e. cc)
is_there_lem exists = (λ e. cc, λ e. refl, λ e. cc)
is_there_lem refused = (λ e. cc, λ e. cc, λ e. refl)

module _ {N F : Type 0} (os : Os N F) where
  -- One mkdir after the other, whatever each answers.
  abbrev pub make_all : List Bytes → F → F
  make_all [] f = f
  make_all (p ∷ ps) f = make_all ps (os.sys.mkdir p f).1

  abbrev pub MadeLast : Bytes → World N F → Status → World N F → Type 0
  MadeLast path w r t =
      (t.net ≡ w.net)
      × (t.sys ≡ (os.sys.mkdir path w.sys).1)
      × Answers (os.sys.mkdir path w.sys).0 r

  abbrev Made : Bytes → Bytes → World N F → Status → World N F → Type 0
  Made seen s w r t =
      MadeLast (seen ++ slashes s) (record w { sys = make_all (ancestors_onto seen s) w.sys }) r t

  mkdir_loop_lem : (seen s : Bytes) (w : World N F) → Post (Made seen s w) (mkdir_loop os seen s w)
  unfolding mkdir_loop
  mkdir_loop_lem seen [] w = rw append-nil (refl, refl, is_there_lem (os.sys.mkdir seen w.sys).0)
  mkdir_loop_lem seen (c ∷ cs) w =
      let v : World N F = record w { sys = (os.sys.mkdir seen w.sys).1 } in
      elim (is_slash c)
        as (λ slash.
          Post
            (MadeLast (seen ++ ((if slash then b'/' else c) ∷ slashes cs)) (record w {
              sys =
                  make_all
                    (if slash
                      then seen ∷ ancestors_onto (seen ++ b'/' ∷ []) cs
                      else ancestors_onto (seen ++ c ∷ []) cs)
                    w.sys;
            }))
            ((if slash
                then mkdir os seen >> mkdir_loop os (seen ++ b'/' ∷ []) cs
                else mkdir_loop os (seen ++ c ∷ []) cs)
              w)) [
                | true ↦
                    subst
                      (λ x.
                        Post
                          (MadeLast x (record v {
                            sys = make_all (ancestors_onto (seen ++ b'/' ∷ []) cs) v.sys;
                          }))
                          (mkdir_loop os (seen ++ b'/' ∷ []) cs v))
                      (append_assoc seen (b'/' ∷ []) (slashes cs))
                      (mkdir_loop_lem (seen ++ b'/' ∷ []) cs v)
                | false ↦
                    subst
                      (λ x.
                        Post
                          (MadeLast x (record w {
                            sys = make_all (ancestors_onto (seen ++ c ∷ []) cs) w.sys;
                          }))
                          (mkdir_loop os (seen ++ c ∷ []) cs w))
                      (append_assoc seen (c ∷ []) (slashes cs))
                      (mkdir_loop_lem (seen ++ c ∷ []) cs w)
              ]

  -- `isr_mkdir_recursive` makes the ancestors of the path from the outermost on, whatever each
  -- mkdir answers, and then the path itself, its separators turned into slashes; it returns 0
  -- exactly if the last mkdir made the directory or found the name taken. The path is the first
  -- 4095 bytes of the one given, and a separator that is its first byte cuts nothing off.
  pub mkdir_recursive_lem :
      (path : Bytes) (w : World N F)
      → Post
          (λ r t.
            MadeLast
              (take 1 path ++ slashes (drop 1 (take 4095 path)))
              (record w {
                sys = make_all (ancestors_onto (take 1 path) (drop 1 (take 4095 path))) w.sys;
              })
              r
              t)
          (mkdir_recursive os path w)
  unfolding mkdir_recursive copy_string
  mkdir_recursive_lem [] w = mkdir_loop_lem [] [] w
  mkdir_recursive_lem (c ∷ cs) w = mkdir_loop_lem (c ∷ []) (take 4094 cs) w
