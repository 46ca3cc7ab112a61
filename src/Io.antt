-- ===== src/Io.antt =====
-- Actions on the state outside the program, and the interfaces of the code that is not in the
-- repository: the socket calls, the file system calls, malloc, and the calls into LZ4.
pub mod Post
pub mod Keeps
pub mod Fixes
use isr.Prelude.{ℕ, Bool, true, false, Option, none, some, List, Bytes}

-- What an action ends in. `stuck` is no C value: the rounds given to an unbounded loop ran out.
-- `fault` is an access outside a buffer.
pub data Outcome (S A : Type 0) : Type 0 where
  ret : A → S → Outcome S A
  stuck : Outcome S A
  fault : Outcome S A

abbrev pub Io : Type 0 → Type 0 → Type 0
Io S A = S → Outcome S A

abbrev pub pure : {S A : Type 0} → A → Io S A
pure a s = ret a s

infixl 5 ◌>>=◌ ◌>>◌
abbrev pub ◌>>=◌ : {S A B : Type 0} → Io S A → (A → Io S B) → Io S B
◌>>=◌ m f s = elim (m s) [ ret a t ↦ f a t | stuck ↦ stuck | fault ↦ fault ]

abbrev pub ◌>>◌ : {S A B : Type 0} → Io S A → Io S B → Io S B
m >> k = m >>= λ _. k

-- The returns 0 and -1 of the functions that have no other.
pub data Status : Type 0 where
  ok err : Status

-- What `isr_stat` reads of a `struct stat`.
pub record Stat : Type 0 where
  pub is_dir : Bool
  pub size : ℕ

-- mkdir: 0, -1 with EEXIST, -1 with any other errno.
pub data Mkdir : Type 0 where
  made exists refused : Mkdir

-- The numeric address of a peer, as getpeername and getnameinfo give it.
pub record Peer : Type 0 where
  pub is_inet6 : Bool
  pub host : Bytes
  pub service : Bytes

-- The sockets. One connection is open at a time, beside the server's listening socket. A failing
-- call is `none`, and `some []` of `recv` is the peer's end of the stream. `listen` is net_listen,
-- and `accept` and `connect` open the connection that the other calls use.
pub record Net (N : Type 0) : Type 0 where
  pub listen : Bytes → N → Bool × N
  pub accept : N → Bool × N
  pub peer : N → Option Peer
  pub connect : Bytes → Bytes → N → Bool × N
  pub recv : ℕ → N → Option Bytes × N
  pub send : Bytes → N → Option ℕ × N
  pub close : N → N

-- Files, directories, malloc and the terminal, with descriptors as numbers.
pub record Sys (F : Type 0) : Type 0 where
  pub stat : Bytes → F → Option Stat
  pub realpath : Bytes → F → Option Bytes
  pub mkdir : Bytes → F → Mkdir × F
  pub open_read : Bytes → F → Option ℕ × F
  pub open_write : Bytes → F → Option ℕ × F
  pub read : ℕ → ℕ → F → Option Bytes × F
  pub write : ℕ → Bytes → F → Option ℕ × F
  pub close : ℕ → F → F
  pub list_dir : Bytes → F → Option (List Bytes) × F
  pub alloc : ℕ → F → Bool × F
  pub print : Bytes → F → F

-- LZ4_compressBound, LZ4_compress_default and LZ4_decompress_safe; `none` is a result below 0.
pub record Lz4 : Type 0 where
  pub compress_bound : ℕ → ℕ
  pub compress : Bytes → ℕ → Option Bytes
  pub decompress : Bytes → ℕ → Option Bytes

pub record Os (N F : Type 0) : Type 0 where
  pub net : Net N
  pub sys : Sys F
  pub lz4 : Lz4

pub record World (N F : Type 0) : Type 0 where
  pub net : N
  pub sys : F

-- A call on one half of the state.
module _ {N F A : Type 0} where
  abbrev pub on_net : (N → A × N) → Io (World N F) A
  on_net call w = ret (call w.net).0 (record w { net = (call w.net).1 })

  abbrev pub on_sys : (F → A × F) → Io (World N F) A
  on_sys call w = ret (call w.sys).0 (record w { sys = (call w.sys).1 })

  abbrev pub ask : (F → A) → Io (World N F) A
  ask query w = ret (query w.sys) w

-- `if (call == -1) return failure;` in front of the rest of a function.
module _ {S A : Type 0} where
  abbrev pub unless_err : A → Io S A → Status → Io S A
  unless_err failure rest ok = rest
  unless_err failure rest err = pure failure

  abbrev pub or_fail : {B : Type 0} → A → (B → Io S A) → Option B → Io S A
  or_fail failure rest none = pure failure
  or_fail failure rest (some b) = rest b

  abbrev pub unless_false : A → Io S A → Bool → Io S A
  unless_false failure rest true = rest
  unless_false failure rest false = pure failure
