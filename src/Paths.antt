-- ===== src/Paths.antt =====
-- Paths on the server: `isr_set_server_root`, `isr_validate_path`, `isr_resolve_path`,
-- `isr_mkdir_recursive` and `isr_parent_dir` of lib/isr.c, as built for POSIX.
pub mod Validate
pub mod Resolve
pub mod Directories
pub mod Keeps
use isr.Prelude.{
  ℕ, ◌-◌, Bool, true, false, ◌&&◌, ◌||◌, Option, none, some, [], ◌∷◌, ◌++◌, ◌==◌, leb,
  if◌then◌else◌, Bytes, length, take, drop,
}
use isr.CText.{char_at, copy_string, joined, starts_with, split_last}
use isr.Io.{Io, pure, ◌>>=◌, ◌>>◌, Status, ok, err, Mkdir, made, exists, refused, Os, World, on_sys}
use isr.Wire.{path_max}

-- isr_set_server_root: what `isr_server_root_path` then holds.
unfoldable pub set_server_root : Bytes → Bytes
set_server_root root = copy_string path_max root

abbrev pub is_slash : ℕ → Bool
is_slash c = c == b'/' || c == 92

-- Two dots here, and then the end of the component.
abbrev pub ends_component : ℕ → Bool
ends_component c = c == 0 || is_slash c

-- The loop of `isr_validate_path`; `at_start` is `p == path || p[-1] == '/' || p[-1] == '\\'`.
unfoldable pub scan : Bool → Bytes → Status
scan at_start [] = ok
scan at_start (c ∷ cs) =
    let rest = scan (is_slash c) cs in
    if (c == b'.' && char_at cs 0 == b'.') && (at_start && ends_component (char_at cs 1))
    then err
    else rest

-- isr_validate_path, on a string that is not NULL.
unfoldable pub validate_path : Bytes → Status
validate_path path =
    if char_at path 0 == 0 then err else if is_slash (char_at path 0) then err else scan true path

-- The buffer `resolved` of `isr_resolve_path`. realpath gives at most `path_max - 1` bytes, and
-- `strncat` appends what there is room for.
abbrev pub behind_parent : Bytes → Bytes → Option Bytes → Bytes
behind_parent out basename none = copy_string path_max out
behind_parent out basename (some real) =
    take (path_max - 1) (joined real (copy_string path_max basename))

abbrev pub or_unresolved : Bytes → Option Bytes → Bytes
or_unresolved out none = copy_string path_max out
or_unresolved out (some real) = real

abbrev pub resolved_of : (Bytes → Option Bytes) → Bytes → Option (Bytes × Bytes) → Bytes
resolved_of realpath out none = or_unresolved out (realpath out)
resolved_of realpath out (some ([], basename)) = or_unresolved out (realpath out)
resolved_of realpath out (some (p ∷ parent, basename)) =
    behind_parent out basename (realpath (p ∷ parent))

-- The check behind it: the resolved path begins with the root.
abbrev pub under_root : Bytes → ℕ → Bytes → Option Bytes
under_root root out_size resolved =
    if starts_with root resolved then some (copy_string out_size resolved) else none

unfoldable pub resolve_path : (Bytes → Option Bytes) → ℕ → Bytes → Bytes → Option Bytes
resolve_path realpath out_size root relative =
    let out : Bytes = joined root relative in
    if leb out_size (length out)
    then none
    else under_root root out_size
        (resolved_of realpath out (split_last b'/' (copy_string path_max out)))

-- isr_parent_dir
abbrev pub before_slash : Option (Bytes × Bytes) → Option Bytes
before_slash none = none
before_slash (some (before, after)) = some before

unfoldable pub parent_dir : ℕ → Bytes → Option Bytes
parent_dir out_size path = before_slash (split_last b'/' (take (out_size - 1) path))

-- `mkdir(tmp, 0755) == 0 || errno == EEXIST ? 0 : -1`
abbrev pub is_there : Mkdir → Status
is_there made = ok
is_there exists = ok
is_there refused = err

module _ {N F : Type 0} (os : Os N F) where
  abbrev pub mkdir : Bytes → Io (World N F) Mkdir
  mkdir path = on_sys (os.sys.mkdir path)

  -- The loop of `isr_mkdir_recursive` and what follows it: `seen` stands in front of `p`, where
  -- each separator has become a slash.
  unfoldable pub mkdir_loop : Bytes → Bytes → Io (World N F) Status
  mkdir_loop seen [] = mkdir seen >>= λ m. pure (is_there m)
  mkdir_loop seen (c ∷ cs) =
      let deeper = mkdir_loop (seen ++ b'/' ∷ []) cs in
      let further = mkdir_loop (seen ++ c ∷ []) cs in
      if is_slash c then mkdir seen >> deeper else further

  unfoldable pub mkdir_recursive : Bytes → Io (World N F) Status
  unfolding mkdir_loop
  mkdir_recursive path = mkdir_loop (take 1 path') (drop 1 path')
    where
      path' : Bytes
      path' = copy_string path_max path
