-- ===== src/Trees/Fetch.antt =====
-- The loop over the entries of a listing, described by the kinds of the entries.
use isr.Prelude.{
  zero, [], ◌∷◌, ◌==◌, ℕ, suc, ◌≡◌, refl, ap, ◌∙◌, false, List, ◌++◌, arith, Bytes, take,
  if◌then◌else◌,
}
use isr.Io.{pure, ◌>>=◌, Io, Status, ok, err, Os, World}
use isr.Listing.{DirEntry}
use isr.CText.{c_string}
use isr.Trees.{worse, download_entries}

-- The path of a name in a directory, in a buffer of 4096 bytes; the name ends at a zero byte.
abbrev pub in_dir : Bytes → Bytes → Bytes
in_dir dir name = take 4095 (dir ++ b'/' ∷ c_string name)

-- A failure stays.
abbrev pub both : Status → Status → Status
both ok ok = ok
both ok err = err
both err status = err

worse_lem : (result status : Status) → worse result status ≡ both result status
worse_lem ok ok = refl
worse_lem ok err = refl
worse_lem err ok = refl
worse_lem err err = refl

module _ {N F : Type 0} (tree file : Bytes → Bytes → Io (World N F) Status) where
  -- An entry of the kind 0 is a file.
  abbrev pub fetch_one : ℕ → Bytes → Bytes → Io (World N F) Status
  fetch_one zero = file
  fetch_one (suc k) = tree

  -- Every entry of a listing, in order, whatever the others come to.
  abbrev pub fetch_all : Bytes → Bytes → List DirEntry → Status → Io (World N F) Status
  fetch_all remote_path local_dir [] result = pure result
  fetch_all remote_path local_dir (e ∷ es) result =
      fetch_one e.is_dir (in_dir remote_path e.name) (in_dir local_dir e.name) >>= λ status.
      fetch_all remote_path local_dir es (both result status)

  fetch_one_lem :
      (k : ℕ) (remote local : Bytes)
      → (if k == 0 then file remote local else tree remote local) ≡ fetch_one k remote local
  fetch_one_lem zero remote local = refl
  fetch_one_lem (suc k) remote local =
      let other : (suc k == 0) ≡ false = ground arith in rw other refl

  pub download_entries_lem :
      (os : Os N F) (remote_path local_dir : Bytes) (es : List DirEntry) (result : Status)
      → download_entries os tree file remote_path local_dir es result
        ≡ fetch_all remote_path local_dir es result
  unfolding download_entries
  download_entries_lem os remote_path local_dir [] result = refl
  download_entries_lem os remote_path local_dir (e ∷ es) result =
      rw (fetch_one_lem e.is_dir (in_dir remote_path e.name) (in_dir local_dir e.name)) (λ i.
        fetch_one e.is_dir (in_dir remote_path e.name) (in_dir local_dir e.name) >>= λ status.
        (ap (download_entries os tree file remote_path local_dir es) (worse_lem result status)
            ∙ download_entries_lem os remote_path local_dir es (both result status))
          i)
