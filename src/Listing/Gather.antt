-- ===== src/Listing/Gather.antt =====
-- What the loop over the directory gathers.
use isr.Listing.Describe.{
  is_dots, is_dot_lem, shown, SaysOf, AreDescribed, AreDescribed-snoc, SaysOf-entry_of,
}
use isr.Prelude.{
  ℕ, ◌+◌, ◌-◌, ◌*◌, ◌%◌, ◌^◌, ◌≤◌, ◌<◌, ◌≡◌, refl, sym, ap, subst, ◌∙◌, Option, none, some, List,
  [], ◌∷◌, ◌++◌, inl, inr, append-nil, append_assoc, arith, Bytes, leb, Bool-cases, length,
  length-append, length-take, All, All-append, take,
}
use isr.Bytes.{to_big_endian}
use isr.Bytes.BigEndian.{length-to_big_endian}
use isr.CText.{copy_string, joined}
use isr.Io.{Stat, Os, World, Sys, ◌>>=◌, or_fail}
use isr.Io.Post.{Post, Post-mono, Post-bind}
use isr.Wire.{path_max}
use isr.Listing.{
  DirEntry, name_length, entry_header, entry_of, entry_size, Gathered, add_entry, grow, gather,
}
use isr.Listing.Format.{IsEntry, encode_entry, listing_bytes}

-- File sizes are off_t values; malloc and reading a directory change nothing that `stat` says.
pub record StatLaws {F : Type 0} (sys : Sys F) : Type 0 where
  pub stat-alloc :
      (path : Bytes) (k : ℕ) (f : F) → sys.stat path (sys.alloc k f).1 ≡ sys.stat path f
  pub stat-list_dir :
      (path dir : Bytes) (f : F) → sys.stat path (sys.list_dir dir f).1 ≡ sys.stat path f
  pub size-lt : (path : Bytes) (f : F) (st : Stat) → sys.stat path f ≡ some st → st.size < 2 ^ 63

listing_bytes-snoc :
    (es : List DirEntry) (e : DirEntry)
    → listing_bytes (es ++ e ∷ []) ≡ listing_bytes es ++ encode_entry e
listing_bytes-snoc [] e = append-nil _
listing_bytes-snoc (d ∷ es) e =
    ap (λ x. encode_entry d ++ x) (listing_bytes-snoc es e)
    ∙ sym (append_assoc (encode_entry d) _ _)

length-encode_entry : (e : DirEntry) → IsEntry e → length (encode_entry e) ≡ 11 + length e.name
length-encode_entry e fits = omega (
  arith,
  fits.name,
  length-append (entry_header e) (take (name_length e.name) e.name),
  length-take (name_length e.name) e.name,
  length-append (to_big_endian 8 e.size) (to_big_endian 2 (name_length e.name)),
  length-to_big_endian 8 e.size,
  length-to_big_endian 2 (name_length e.name),
)

name-entry_of : (name : Bytes) (o : Option Stat) → (entry_of name o).name ≡ name
name-entry_of name none = refl
name-entry_of name (some st) = refl

copy_string-length : (size : ℕ) (s : Bytes) → length (copy_string size s) ≤ size - 1
unfolding copy_string
copy_string-length size s = omega (arith, length-take (size - 1) s)

-- The entries are those of these names and fit the format, and the announced size is that of
-- their listing.
pub record IsGathered (look : Bytes → Option Stat) (dir : Bytes) (names : List Bytes) (g : Gathered)
    : Type 0 where
  pub described : AreDescribed look dir names g.entries
  pub entries : All IsEntry g.entries
  pub count : g.count ≡ length g.entries
  pub total_size : g.total_size ≡ length (listing_bytes g.entries) % 2 ^ 64

module _ {N F : Type 0} (os : Os N F) (laws : StatLaws os.sys) (look : Bytes → Option Stat)
    (dir : Bytes) where
  -- `stat` says this of every path.
  abbrev pub Looks : World N F → Type 0
  Looks w = (p : Bytes) → os.sys.stat p w.sys ≡ look p

  entry_of-IsEntry :
      (name path : Bytes) (f : F)
      → length name < 2 ^ 16
      → IsEntry (entry_of name (os.sys.stat path f))
  entry_of-IsEntry name path f fits = go (os.sys.stat path f) refl
    where
      go : (o : Option Stat) → os.sys.stat path f ≡ o → IsEntry (entry_of name o)
      go none e = record { name = fits; size = omega arith }
      go (some st) e = record { name = fits; size = omega (arith, laws.size-lt path f st e) }

  abbrev pub Kept : List Bytes → World N F → Option Gathered → World N F → Type 0
  Kept names w none t = t.net ≡ w.net
  Kept names w (some g) t = (t.net ≡ w.net) × IsGathered look dir names g × Looks t

  Kept-trans :
      (names : List Bytes) (w t : World N F)
      → t.net ≡ w.net
      → (o : Option Gathered) (u : World N F) → Kept names t o u
      → Kept names w o u
  Kept-trans names w t e none u h = h ∙ e
  Kept-trans names w t e (some g) u h = (h.0 ∙ e, h.1, h.2)

  abbrev with_name : List Bytes → Bytes → List Bytes
  with_name names d_name = names ++ d_name ∷ []

  add_entry-IsGathered :
      (names : List Bytes) (g : Gathered) (d_name : Bytes) (w : World N F)
      → Looks w
      → IsGathered look dir names g
      → Post
          (λ g' t. (t.net ≡ w.net) × IsGathered look dir (with_name names d_name) g' × Looks t)
          (add_entry os dir g d_name w)
  unfolding copy_string
  add_entry-IsGathered names g d_name w looks h =
      let name : Bytes = copy_string 256 d_name in
      let path : Bytes = take (path_max - 1) (joined dir d_name) in
      let e : DirEntry = entry_of name (os.sys.stat path w.sys) in
      let short : length name ≤ 255 = copy_string-length 256 d_name in
      let fits : IsEntry e = entry_of-IsEntry name path w.sys (omega (arith, short)) in
      let named : e.name ≡ name = name-entry_of name (os.sys.stat path w.sys) in
      (
        refl,
        record {
          described = AreDescribed-snoc look dir names g.entries d_name e h.described (
            named,
            subst (λ o. SaysOf o e) (looks path) (SaysOf-entry_of name (os.sys.stat path w.sys)),
          );
          entries = All-append IsEntry g.entries (e ∷ []) h.entries (fits, tt);
          count = omega (arith, h.count, length-append g.entries (e ∷ []));
          total_size = omega (
            arith,
            h.total_size,
            short,
            length-encode_entry e fits,
            ap length named,
            ap length (listing_bytes-snoc g.entries e),
            length-append (listing_bytes g.entries) (encode_entry e),
          );
        },
        looks,
      )

  grow-IsGathered :
      (names : List Bytes) (g : Gathered) (w : World N F)
      → Looks w
      → IsGathered look dir names g
      → Post (Kept names w) (grow os g w)
  grow-IsGathered names g w looks h = elim (Bool-cases (leb g.capacity g.count)) [
    | inl e ↦ rw e (elim (Bool-cases (os.sys.alloc (g.capacity * 2 * entry_size) w.sys).0) [
      | inl a ↦ rw a (
        refl,
        record {
          described = h.described;
          entries = h.entries;
          count = h.count;
          total_size = h.total_size;
        },
        λ p. laws.stat-alloc p (g.capacity * 2 * entry_size) w.sys ∙ looks p,
      )
      | inr a ↦ rw a refl
    ])
    | inr e ↦ rw e (refl, h, looks)
  ]

  -- The loop keeps what it has and appends an entry for each visible name, unless memory runs out.
  pub gather-IsGathered :
      (d_names names : List Bytes) (g : Gathered) (w : World N F)
      → Looks w
      → IsGathered look dir names g
      → Post (Kept (names ++ shown d_names) w) (gather os dir d_names g w)
  unfolding gather
  gather-IsGathered [] names g w looks h = rw append-nil (refl, h, looks)
  gather-IsGathered (d_name ∷ more) names g w looks h =
      rw (is_dot_lem d_name) (elim (Bool-cases (is_dots d_name)) [
        | inl e ↦ rw e (gather-IsGathered more names g w looks h)
        | inr e ↦
            let all : List Bytes = names ++ (d_name ∷ shown more) in
            rw e (
              Post-bind (Kept names w) (Kept all w) (grow os g)
                (or_fail none λ g'. add_entry os dir g' d_name >>= gather os dir more) w
                (grow-IsGathered names g w looks h)
                (elim [
                  | none ↦ λ t p. p
                  | some g' ↦ λ t p.
                      Post-bind
                        (λ g'' u.
                          (u.net ≡ t.net)
                          × IsGathered look dir (with_name names d_name) g''
                          × Looks u)
                        (Kept all w) (add_entry os dir g' d_name) (gather os dir more) t
                        (add_entry-IsGathered names g' d_name t p.2 p.1)
                        (λ g'' u q.
                          Post-mono (Kept (with_name names d_name ++ shown more) u) (Kept all w)
                            (gather os dir more g'' u)
                            (λ o v k.
                              subst (λ x. Kept x w o v) (append_assoc names _ (shown more))
                                (Kept-trans (with_name names d_name ++ shown more) w u (q.0 ∙ p.0) o
                                  v k))
                            (gather-IsGathered more (with_name names d_name) g'' u q.2 q.1))
                ]))
      ])
