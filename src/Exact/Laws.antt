-- ===== src/Exact/Laws.antt =====
-- What a stream socket and a file descriptor are documented to do, for whatever the operating
-- system decides about the size of each transfer.
use isr.Prelude.{ℕ, ◌≤◌, ◌<◌, ◌≡◌, ◌≢◌, true, Option, none, some, [], ◌++◌, Bytes, length, take}
use isr.Io.{Net, Sys}

abbrev pub received : Option Bytes → Bytes
received none = []
received (some bs) = bs

abbrev pub accepted : Option ℕ → ℕ
accepted none = 0
accepted (some k) = k

-- A connection as two byte streams: `incoming` is what the peer has sent and the program has not
-- yet read, `outgoing` what the program has sent.
pub record StreamLaws {N : Type 0} (net : Net N) : Type 0 where
  pub incoming : N → Bytes
  pub outgoing : N → Bytes
  pub recv-length : (k : ℕ) (n : N) → length (received (net.recv k n).0) ≤ k
  pub incoming-recv :
      (k : ℕ) (n : N) → incoming n ≡ received (net.recv k n).0 ++ incoming (net.recv k n).1
  pub outgoing-recv : (k : ℕ) (n : N) → outgoing (net.recv k n).1 ≡ outgoing n
  pub send-le : (bs : Bytes) (n : N) → accepted (net.send bs n).0 ≤ length bs
  pub outgoing-send :
      (bs : Bytes) (n : N)
      → outgoing (net.send bs n).1 ≡ outgoing n ++ take (accepted (net.send bs n).0) bs
  pub incoming-send : (bs : Bytes) (n : N) → incoming (net.send bs n).1 ≡ incoming n

-- A connection on which no call fails while there is something to transfer.
pub record IsReliable {N : Type 0} {net : Net N} (laws : StreamLaws net) : Type 0 where
  pub recv_progress :
      (k : ℕ) (n : N) → 0 < k → laws.incoming n ≢ [] → 0 < length (received (net.recv k n).0)
  pub send_progress : (bs : Bytes) (n : N) → bs ≢ [] → 0 < accepted (net.send bs n).0

-- Descriptors as byte streams: `unread` is the rest of a file open for reading, `written` what
-- was written to a file since it was opened.
pub record FileLaws {F : Type 0} (sys : Sys F) : Type 0 where
  pub unread : ℕ → F → Bytes
  pub written : ℕ → F → Bytes
  pub read-length : (fd k : ℕ) (f : F) → length (received (sys.read fd k f).0) ≤ k
  pub unread-read :
      (fd k : ℕ) (f : F)
      → unread fd f ≡ received (sys.read fd k f).0 ++ unread fd (sys.read fd k f).1
  pub read_end : (fd k : ℕ) (f : F) → 0 < k → (sys.read fd k f).0 ≡ some [] → unread fd f ≡ []
  pub write-le : (fd : ℕ) (bs : Bytes) (f : F) → accepted (sys.write fd bs f).0 ≤ length bs
  pub written-write :
      (fd : ℕ) (bs : Bytes) (f : F)
      → written fd (sys.write fd bs f).1 ≡ written fd f ++ take (accepted (sys.write fd bs f).0) bs
  pub written-alloc : (fd k : ℕ) (f : F) → written fd (sys.alloc k f).1 ≡ written fd f
  pub unread-alloc : (fd k : ℕ) (f : F) → unread fd (sys.alloc k f).1 ≡ unread fd f

-- A disk on which no read or write fails, and an allocator that does not.
pub record IsHealthy {F : Type 0} (sys : Sys F) : Type 0 where
  pub read_some : (fd k : ℕ) (f : F) → (sys.read fd k f).0 ≢ none
  pub write_progress : (fd : ℕ) (bs : Bytes) (f : F) → bs ≢ [] → 0 < accepted (sys.write fd bs f).0
  pub alloc_some : (k : ℕ) (f : F) → (sys.alloc k f).0 ≡ true
