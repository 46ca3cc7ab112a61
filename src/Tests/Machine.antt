-- ===== src/Tests/Machine.antt =====
-- A concrete operating system for the tests: transfers come in pieces of two or three bytes,
-- every descriptor is the one open file, and a table says what exists.
use isr.Prelude.{
  ℕ, ◌+◌, ◌≤◌, ◌<◌, ◌≡◌, ◌≢◌, refl, sym, ap, true, Option, none, some, List, [], ◌∷◌, ◌++◌, arith,
  Bytes, length, length-take, length-pos, take, drop, take-append-drop, min, if◌then◌else◌,
}
use isr.CText.{same_string, split_last}
use isr.Io.{Net, Sys, Lz4, Os, World, Stat, made}
use isr.Exact.Laws.{StreamLaws, IsReliable, FileLaws, IsHealthy, received}

pub record Link : Type 0 where
  pub incoming : Bytes
  pub outgoing : Bytes

abbrev pub link : Net Link
link = record {
  listen = λ port n. (true, n);
  accept = λ n. (true, n);
  peer = λ n. none;
  connect = λ host port n. (true, n);
  recv =
      λ k n. (some (take (min k 3) n.incoming), record n { incoming = drop (min k 3) n.incoming });
  send = λ bs n.
      (some (min 2 (length bs)), record n { outgoing = n.outgoing ++ take (min 2 (length bs)) bs });
  close = λ n. n;
}

pub min-le : (k n : ℕ) → min k n ≤ n
min-le k n = omega arith

pub take-length-le : (k m : ℕ) (bs : Bytes) → length (take (min k m) bs) ≤ k
take-length-le k m bs = omega (arith, length-take (min k m) bs)

abbrev pub link_laws : StreamLaws link
link_laws = record {
  incoming = λ n. n.incoming;
  outgoing = λ n. n.outgoing;
  recv-length = λ k n. take-length-le k 3 n.incoming;
  incoming-recv = λ k n. sym (take-append-drop (min k 3) n.incoming);
  outgoing-recv = λ k n. refl;
  send-le = λ bs n. min-le 2 (length bs);
  outgoing-send = λ bs n. refl;
  incoming-send = λ bs n. refl;
}

pub link-IsReliable : IsReliable link_laws
link-IsReliable = record {
  recv_progress =
      λ k n lt h. omega (arith, length-take (min k 3) n.incoming, length-pos n.incoming h);
  send_progress = λ bs n h. omega (arith, length-pos bs h);
}

pub record Disk : Type 0 where
  pub unread : Bytes
  pub written : Bytes
  pub entries : List (Bytes × Stat)

abbrev pub names_in : List (Bytes × Stat) → List Bytes
names_in [] = []
names_in ((p, s) ∷ more) = p ∷ names_in more

-- The entries are those of the one directory; a path is looked up by what follows its last slash.
abbrev pub base_name : Bytes → Bytes
base_name path = elim (split_last b'/' path) [ none ↦ path | some (before, after) ↦ after ]

abbrev pub find : Bytes → List (Bytes × Stat) → Option Stat
find path [] = none
find path ((p, s) ∷ more) = if same_string p path then some s else find path more

abbrev pub disk : Sys Disk
disk = record {
  stat = λ path f. find (base_name path) f.entries;
  realpath = λ path f. some path;
  mkdir = λ path f. (made, f);
  open_read = λ path f. (some 3, f);
  open_write = λ path f. (some 4, record f { written = [] });
  read = λ fd k f. (some (take (min k 2) f.unread), record f { unread = drop (min k 2) f.unread });
  write = λ fd bs f.
      (some (min 3 (length bs)), record f { written = f.written ++ take (min 3 (length bs)) bs });
  close = λ fd f. f;
  list_dir = λ path f. (some (names_in f.entries), f);
  alloc = λ size f. (true, f);
  print = λ text f. f;
}

pub take-nil :
    (k : ℕ) (bs : Bytes)
    → 0 < k
    → ◌≡◌ {A = Option Bytes} (some (take (min k 2) bs)) (some [])
    → bs ≡ []
take-nil k [] lt h = refl
take-nil k (b ∷ bs) lt h =
    absurd (omega (arith, length-take (min k 2) (b ∷ bs), ap (λ o. length (received o)) h))

abbrev pub disk_laws : FileLaws disk
disk_laws = record {
  unread = λ fd f. f.unread;
  written = λ fd f. f.written;
  read-length = λ fd k f. take-length-le k 2 f.unread;
  unread-read = λ fd k f. sym (take-append-drop (min k 2) f.unread);
  read_end = λ fd k f. take-nil k f.unread;
  write-le = λ fd bs f. min-le 3 (length bs);
  written-write = λ fd bs f. refl;
  written-alloc = λ fd k f. refl;
  unread-alloc = λ fd k f. refl;
}

some-ne_none : (bs : Bytes) → some bs ≢ none
some-ne_none bs e = cc

pub disk-IsHealthy : IsHealthy disk
disk-IsHealthy = record {
  read_some = λ fd k f. some-ne_none (take (min k 2) f.unread);
  write_progress = λ fd bs f h. omega (arith, length-pos bs h);
  alloc_some = λ k f. refl;
}

-- A stand-in for LZ4 that marks a block and keeps it as it is.
abbrev pub marking : Lz4
marking = record {
  compress_bound = λ n. n + 1;
  compress = λ block capacity. some (255 ∷ block);
  decompress = λ block capacity. some (drop 1 block);
}

abbrev pub machine : Os Link Disk
machine = record { net = link; sys = disk; lz4 = marking }

-- A machine whose peer has sent `incoming` and whose open file holds `unread`.
abbrev pub at : Bytes → Bytes → World Link Disk
at incoming unread = record {
  net = record { incoming = incoming; outgoing = [] };
  sys = record { unread = unread; written = []; entries = [] };
}

-- A machine whose peer has sent `incoming`, with these directory entries.
abbrev pub holding : Bytes → List (Bytes × Stat) → World Link Disk
holding incoming entries = record {
  net = record { incoming = incoming; outgoing = [] };
  sys = record { unread = []; written = []; entries = entries };
}
