-- ===== src/Tests/Paths.antt =====
-- Paths at concrete inputs.
use isr.Prelude.{◌≡◌, ◌<◌, ◌↔◌, refl, if◌then◌else◌, some, none, [], ◌∷◌, arith}
use isr.CText.{text, joined, starts_with, split_last, copy_string, char_at}
use isr.Io.{ok, err}
use isr.Io.Post.{Post}
use isr.Tests.Machine.{machine, at}
use isr.Paths.{validate_path, scan, resolve_path, mkdir_recursive}
use isr.Paths.Validate.{IsSafe, validate_path_lem}
use isr.Paths.Resolve.{
  IsUnder, resolve_path-IsUnder, resolve_path_parent, resolve_path_missing_parent,
}
use isr.Paths.Directories.{make_all, MadeLast, mkdir_recursive_lem}

validate_path_lem_example : (validate_path (text "a/b") ≡ ok) ↔ IsSafe (text "a/b")
validate_path_lem_example =
    validate_path_lem (text "a/b")
      ((λ e. omega (arith, e)), ((λ e. omega (arith, e)), ((λ e. omega (arith, e)), tt)))

dots_inside_names : validate_path (text "a..b/..c") ≡ ok
unfolding validate_path scan char_at
dots_inside_names = refl

dots_component : validate_path (text "a/../b") ≡ err
unfolding validate_path scan char_at
dots_component = refl

resolved : resolve_path (λ p. some p) 4096 (text "/r") (text "a") ≡ some (text "/r/a")
unfolding resolve_path copy_string split_last starts_with
resolved = refl

resolve_path-IsUnder_example : IsUnder (text "/r") (text "/r/a") × (4 < 4096)
resolve_path-IsUnder_example =
    resolve_path-IsUnder (λ p. some p) 4096 (text "/r") (text "a") (text "/r/a") resolved

-- A link inside the root to a directory beside it whose name goes on with other letters.
resolve_path_parent_example :
    resolve_path (λ p. some (text "/root")) 4096 (text "/r") (joined (text "link") (text "x")) ≡ (
      if starts_with (text "/r") (joined (text "/root") (text "x"))
      then some (joined (text "/root") (text "x"))
      else none)
resolve_path_parent_example =
    resolve_path_parent (λ p. some (text "/root")) (text "/r") (text "link") (text "x")
      (text "/root") (λ e. cc) ((λ e. omega (arith, e)), tt) (omega arith) refl (omega arith)

mkdir_recursive_lem_example :
    Post
      (λ r t.
        MadeLast machine
          (text "a/b")
          (record (at [] []) { sys = make_all machine (text "a" ∷ []) (at [] []).sys })
          r
          t)
      (mkdir_recursive machine (text "a/b") (at [] []))
mkdir_recursive_lem_example = mkdir_recursive_lem machine (text "a/b") (at [] [])

-- A directory behind the link does not exist yet.
resolve_path_missing_parent_example :
    resolve_path (λ p. none) 4096 (text "/r") (joined (text "link/new") (text "x"))
    ≡ some (text "/r/link/new/x")
resolve_path_missing_parent_example =
    resolve_path_missing_parent (λ p. none) (text "/r") (text "link/new") (text "x") (λ e. cc)
      ((λ e. omega (arith, e)), tt) (omega arith) refl
