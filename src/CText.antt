-- ===== src/CText.antt =====
-- C strings as the sources use them: a string is its bytes up to the terminator. `strncpy` with
-- the terminator written after it, `snprintf` of two strings round a slash, and `strrchr`.
pub mod Split
use Prim.Native.Char.{code}
use Prim.Native.String.{String}
use isr.Prelude.{
  ℕ, zero, suc, ◌+◌, ◌-◌, ◌≡◌, Bool, true, false, ◌&&◌, Option, none, some, List, [], ◌∷◌, ◌++◌,
  ◌==◌, if◌then◌else◌, Bytes, take, length, ltb,
}

-- The bytes of a literal.
abbrev pub text : String → Bytes
text String.[] = []
text (String.◌∷◌ c s) = code c ∷ text s

-- What a `char` array holds as a string: the bytes before the first NUL.
unfoldable pub c_string : Bytes → Bytes
c_string [] = []
c_string (c ∷ cs) = if c == 0 then [] else c ∷ c_string cs

-- `s[i]`, with the terminator behind the last byte.
unfoldable pub char_at : Bytes → ℕ → ℕ
char_at [] i = 0
char_at (c ∷ cs) zero = c
char_at (c ∷ cs) (suc i) = char_at cs i

-- `strncpy(out, s, size - 1); out[size - 1] = '\0';`
unfoldable pub copy_string : ℕ → Bytes → Bytes
copy_string size s = take (size - 1) s

-- `snprintf(out, size, "%s/%s", a, b)`: the whole text, which the caller may find cut.
abbrev pub joined : Bytes → Bytes → Bytes
joined a b = a ++ b'/' ∷ b

-- `strcmp(a, b) == 0`
unfoldable pub same_string : Bytes → Bytes → Bool
same_string [] [] = true
same_string [] (d ∷ ds) = false
same_string (c ∷ cs) [] = false
same_string (c ∷ cs) (d ∷ ds) = c == d && same_string cs ds

-- `strncmp(s, prefix, strlen(prefix)) == 0`
unfoldable pub starts_with : Bytes → Bytes → Bool
starts_with [] s = true
starts_with (p ∷ ps) [] = false
starts_with (p ∷ ps) (c ∷ cs) = p == c && starts_with ps cs

-- `strrchr(s, c)`: the text before the last `c` and the text after it.
unfoldable pub split_last : ℕ → Bytes → Option (Bytes × Bytes)
split_last c [] = none
split_last c (x ∷ xs) = elim (split_last c xs) [
  | some (before, after) ↦ some (x ∷ before, after)
  | none ↦ if x == c then some ([], xs) else none
]
