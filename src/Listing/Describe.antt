-- ===== src/Listing/Describe.antt =====
-- What the entries of a listing say, by the names that `readdir` gives and by `stat`.
use isr.Prelude.{
  Bool, true, false, ◌==◌, ◌&&◌, ℕ, ◌≡◌, refl, Option, none, some, List, [], ◌∷◌, ◌++◌, arith,
  Bytes, if◌then◌else◌, take,
}
use isr.CText.{same_string}
use isr.Io.{Stat}
use isr.Listing.{DirEntry, entry_of, is_dot}

-- `.` and `..`
abbrev pub is_dots : Bytes → Bool
is_dots [] = false
is_dots (a ∷ []) = a == b'.'
is_dots (a ∷ b ∷ []) = a == b'.' && b == b'.'
is_dots (a ∷ b ∷ c ∷ cs) = false

pub is_dot_lem : (name : Bytes) → is_dot name ≡ is_dots name
unfolding same_string
is_dot_lem [] = refl
is_dot_lem (a ∷ []) = ground arith
is_dot_lem (a ∷ b ∷ []) = ground arith
is_dot_lem (a ∷ b ∷ c ∷ cs) = ground arith

-- The names that `readdir` gives, without those two.
abbrev pub shown : List Bytes → List Bytes
shown [] = []
shown (d_name ∷ more) = if is_dots d_name then shown more else d_name ∷ shown more

abbrev pub kind : Bool → ℕ
kind true = 1
kind false = 0

-- An entry says what `stat` says of the file, and zeros where it fails.
abbrev pub SaysOf : Option Stat → DirEntry → Type 0
SaysOf none e = (e.size ≡ 0) × (e.is_dir ≡ 0)
SaysOf (some st) e = (e.size ≡ st.size) × (e.is_dir ≡ kind st.is_dir)

-- The entry for one name in a directory: the name is cut to the 255 bytes that there is room for,
-- the path for `stat` to 4095.
abbrev pub Describes : (Bytes → Option Stat) → Bytes → Bytes → DirEntry → Type 0
Describes look dir d_name e =
    (e.name ≡ take 255 d_name) × SaysOf (look (take 4095 (dir ++ b'/' ∷ d_name))) e

-- One entry for each name, in order.
abbrev pub AreDescribed : (Bytes → Option Stat) → Bytes → List Bytes → List DirEntry → Type 0
AreDescribed look dir [] [] = Unit
AreDescribed look dir [] (e ∷ es) = ⊥
AreDescribed look dir (n ∷ ns) [] = ⊥
AreDescribed look dir (n ∷ ns) (e ∷ es) = Describes look dir n e × AreDescribed look dir ns es

pub AreDescribed-snoc :
    (look : Bytes → Option Stat) (dir : Bytes) (ns : List Bytes) (es : List DirEntry) (n : Bytes)
    (e : DirEntry)
    → AreDescribed look dir ns es
    → Describes look dir n e
    → AreDescribed look dir (ns ++ n ∷ []) (es ++ e ∷ [])
AreDescribed-snoc look dir [] [] n e h h' = (h', tt)
AreDescribed-snoc look dir [] (d ∷ es) n e h h' = absurd h
AreDescribed-snoc look dir (m ∷ ns) [] n e h h' = absurd h
AreDescribed-snoc look dir (m ∷ ns) (d ∷ es) n e (h, hs) h' =
    (h, AreDescribed-snoc look dir ns es n e hs h')

pub SaysOf-entry_of : (name : Bytes) (o : Option Stat) → SaysOf o (entry_of name o)
SaysOf-entry_of name none = (refl, refl)
SaysOf-entry_of name (some st) = (refl, kind_lem st.is_dir)
  where
    kind_lem : (b : Bool) → (if b then 1 else 0) ≡ kind b
    kind_lem true = refl
    kind_lem false = refl
