-- ===== src/Trees/Upload.antt =====
-- An upload of a directory follows the tree on the disk.
use isr.Prelude.{
  ℕ, zero, suc, max, ◌≤◌, ◌<◌, ◌≡◌, refl, ap, ◌∙◌, Bool, true, false, if◌then◌else◌, some, List, [],
  ◌∷◌, Bytes, Bool-cases, inl, inr, arith,
}
use isr.Io.{
  Outcome, ret, stuck, fault, Io, pure, ◌>>=◌, Status, ok, err, Stat, Os, World, ask, or_fail,
}
use isr.Listing.{is_dot}
use isr.Server.{unless_refused}
use isr.Client.{send_file}
use isr.Trees.{entry_path, worse, upload_entry, send_mkdir, upload_entries, send_directory}

-- What a directory holds: its entries in the order of `readdir`, without `.` and `..`, and what
-- each directory among them holds.
pub data Entries : Type 0 where
  end : Entries
  file : Bytes → Entries → Entries
  folder : Bytes → Entries → Entries → Entries

abbrev pub names : Entries → List Bytes
names end = []
names (file name more) = name ∷ names more
names (folder name inside more) = name ∷ names more

abbrev pub depth : Entries → ℕ
depth end = 0
depth (file name more) = depth more
depth (folder name inside more) = max (suc (depth inside)) (depth more)

abbrev pub visible : List Bytes → List Bytes
visible [] = []
visible (d_name ∷ more) = if is_dot d_name then visible more else d_name ∷ visible more

module _ {N F : Type 0} (os : Os N F) where
  -- The disk answers for the path as for a file, or as for a directory, whatever is done meanwhile.
  abbrev pub StaysAs : Bool → Bytes → Type 0
  StaysAs kind path = (f : F) → (st : Stat) × (os.sys.stat path f ≡ some st) × (st.is_dir ≡ kind)

  abbrev pub Lists : Bytes → Entries → Type 0
  Lists dir entries =
      (raw : List Bytes) × ((f : F) → os.sys.list_dir dir f ≡ (some raw, f))
      × (visible raw ≡ names entries)

  abbrev pub EachStays : Bytes → Entries → Type 0
  EachStays dir end = Unit
  EachStays dir (file name more) = StaysAs false (entry_path dir name) × EachStays dir more
  EachStays dir (folder name inside more) =
      StaysAs true (entry_path dir name)
      × Lists (entry_path dir name) inside
      × EachStays (entry_path dir name) inside
      × EachStays dir more

  module _ (rounds : ℕ) (host port : Bytes) (flags block_size : ℕ) where
    abbrev one_file : Bytes → Bytes → Io (World N F) Status
    one_file remote local = send_file os rounds host port remote local flags block_size

    -- The upload of a tree, by recursion on it: a directory is made before what it holds, and
    -- what it holds is left out if the server refuses it; a failure does not stop the rest.
    unfoldable pub upload_all : Entries → Bytes → Bytes → Status → Io (World N F) Status
    upload_all end remote_path local_dir result = pure result
    upload_all (file name more) remote_path local_dir result =
        one_file (entry_path remote_path name) (entry_path local_dir name) >>= λ status.
        upload_all more remote_path local_dir (worse result status)
    upload_all (folder name inside more) remote_path local_dir result =
        (send_mkdir os host port (entry_path remote_path name)
          >>= unless_refused (pure err)
              (upload_all inside (entry_path remote_path name) (entry_path local_dir name) ok))
        >>= λ status. upload_all more remote_path local_dir (worse result status)

    abbrev pub upload_tree : Entries → Bytes → Bytes → Io (World N F) Status
    upload_tree entries remote_path local_dir =
        send_mkdir os host port remote_path
        >>= unless_refused (pure err) (upload_all entries remote_path local_dir ok)

    bind_cong :
        {A B : Type 0} (m n : Io (World N F) A) (f g : A → Io (World N F) B) (w : World N F)
        → m w ≡ n w
        → ((a : A) (t : World N F) → f a t ≡ g a t)
        → (m >>= f) w ≡ (n >>= g) w
    bind_cong {A = A} {B = B} m n f g w e h =
        ap (λ (o : Outcome (World N F) A). ◌>>=◌ (λ v. o) f w) e ∙ go (n w)
      where
        go : (o : Outcome (World N F) A) → ◌>>=◌ {B = B} (λ v. o) f w ≡ ◌>>=◌ (λ v. o) g w
        go (ret a t) = h a t
        go stuck = refl
        go fault = refl

    -- `tree` uploads every directory of less than this depth as its entries say.
    abbrev Follows : ℕ → (Bytes → Bytes → Io (World N F) Status) → Type 0
    Follows levels tree =
        (inside : Entries) (remote local : Bytes) (w : World N F)
        → depth inside < levels
        → Lists local inside
        → EachStays local inside
        → tree remote local w ≡ upload_tree inside remote local w

    entry_lem :
        (tree : Bytes → Bytes → Io (World N F) Status) (kind : Bool) (remote local : Bytes)
        (w : World N F)
        → StaysAs kind local
        → upload_entry os tree one_file remote local (os.sys.stat local w.sys) w
          ≡ (if kind then tree remote local else one_file remote local) w
    entry_lem tree kind remote local w stays =
        let (st, found, same) = stays w.sys in
        ap (λ o. upload_entry os tree one_file remote local o w) found
        ∙ ap (λ b. (if b then tree remote local else one_file remote local) w) same

    -- What is to be shown of the loop over the names that are left.
    abbrev Rest : ℕ → (Bytes → Bytes → Io (World N F) Status) → Bytes → Bytes → List Bytes → Type 0
    Rest levels tree remote local raw =
        (entries : Entries) (result : Status) (w : World N F)
        → visible raw ≡ names entries
        → depth entries ≤ levels
        → EachStays local entries
        → upload_entries os tree one_file remote local raw result w
          ≡ upload_all entries remote local result w

    abbrev one_entry :
        (Bytes → Bytes → Io (World N F) Status) → Bytes → Bytes → Bytes → Io (World N F) Status
    one_entry tree remote local d =
        ask (os.sys.stat (entry_path local d))
        >>= upload_entry os tree one_file (entry_path remote d) (entry_path local d)

    next_lem :
        (levels : ℕ) (tree : Bytes → Bytes → Io (World N F) Status)
        → Follows levels tree
        → (remote local d : Bytes) (raw : List Bytes) → Rest levels tree remote local raw
        → (entries : Entries) (result : Status) (w : World N F) → d ∷ visible raw ≡ names entries
        → depth entries ≤ levels
        → EachStays local entries
        → (one_entry tree remote local d >>= λ status.
              upload_entries os tree one_file remote local raw (worse result status))
            w
          ≡ upload_all entries remote local result w
    unfolding upload_all
    next_lem levels tree follows remote local d raw rest end result w h deep each = cc
    next_lem levels tree follows remote local d raw rest (file name more) result w h deep
          (here, each) =
        let same : d ≡ name = cc in
        let left : visible raw ≡ names more = cc in
        rw same (
          bind_cong (one_entry tree remote local name)
            (one_file (entry_path remote name) (entry_path local name))
            (λ status. upload_entries os tree one_file remote local raw (worse result status))
            (λ status. upload_all more remote local (worse result status)) w
            (entry_lem tree false (entry_path remote name) (entry_path local name) w here)
            (λ status t. rest more (worse result status) t left deep each))
    next_lem levels tree follows remote local d raw rest (folder name inside more) result w h deep
          (here, lists, each', each) =
        let same : d ≡ name = cc in
        let left : visible raw ≡ names more = cc in
        rw same (
          bind_cong (one_entry tree remote local name)
            (upload_tree inside (entry_path remote name) (entry_path local name))
            (λ status. upload_entries os tree one_file remote local raw (worse result status))
            (λ status. upload_all more remote local (worse result status)) w
            (entry_lem tree true (entry_path remote name) (entry_path local name) w here
              ∙ follows inside (entry_path remote name) (entry_path local name) w (omega arith)
                  lists each')
            (λ status t. rest more (worse result status) t left (omega arith) each))

    entries_lem :
        (levels : ℕ) (tree : Bytes → Bytes → Io (World N F) Status)
        → Follows levels tree
        → (remote local : Bytes) (raw : List Bytes) → Rest levels tree remote local raw
    unfolding upload_entries upload_all
    entries_lem levels tree follows remote local [] end result w h deep each = refl
    entries_lem levels tree follows remote local [] (file name more) result w h deep each = cc
    entries_lem levels tree follows remote local [] (folder name inside more) result w h deep each =
        cc
    entries_lem levels tree follows remote local (d ∷ raw) entries result w h deep each =
        let rest = entries_lem levels tree follows remote local raw in
        elim (Bool-cases (is_dot d)) [
          | inl dot ↦ rw dot (rest entries result w (rw dot at h) deep each)
          | inr plain ↦ rw plain (
              next_lem levels tree follows remote local d raw rest entries result w (rw plain at h)
                deep each)
        ]

    -- `isr_cli_send_directory` uploads the tree that the disk holds: with a level for each level
    -- of the tree it does exactly what the recursion on the tree does, on any connection and
    -- whatever the server answers. The disk gives the same entries and kinds throughout,
    -- and reading a directory changes nothing.
    pub send_directory_lem :
        (levels : ℕ) (entries : Entries) (remote_path local_dir : Bytes) (w : World N F)
        → depth entries < levels
        → Lists local_dir entries
        → EachStays local_dir entries
        → send_directory os levels rounds host port flags block_size remote_path local_dir w
          ≡ upload_tree entries remote_path local_dir w
    unfolding send_directory
    send_directory_lem zero entries remote_path local_dir w deep lists each = absurd (omega arith)
    send_directory_lem (suc levels) entries remote_path local_dir w deep (raw, listed, shown) each =
        bind_cong (send_mkdir os host port remote_path) (send_mkdir os host port remote_path) _
          (unless_refused (pure err) (upload_all entries remote_path local_dir ok)) w refl
          (elim [
            | err ↦ λ t. refl
            | ok ↦ λ t.
                ap
                  (λ o.
                    or_fail err
                      (λ found.
                        upload_entries os
                          (send_directory os levels rounds host port flags block_size) one_file
                          remote_path local_dir found ok)
                      o.0 (record t { sys = o.1 }))
                  (listed t.sys)
                ∙ entries_lem levels (send_directory os levels rounds host port flags block_size)
                    (λ inside remote local u. send_directory_lem levels inside remote local u)
                    remote_path local_dir raw entries ok t shown (omega arith) each
          ])
