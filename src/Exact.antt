-- ===== src/Exact.antt =====
-- The loops that move a whole buffer: `net_send` and `net_recv` of lib/mininet.h,
-- `net_recv_exact`, `net_send_exact` and `isr_write_all` of lib/isr.c.
pub mod Laws
pub mod Send
pub mod Recv
pub mod Into
pub mod Steps
pub mod Keeps
pub mod Quiet
use isr.Prelude.{
  ℕ, zero, suc, ◌-◌, ◌^◌, Bool, true, false, Option, none, some, [], ◌∷◌, ◌++◌, Bytes, ltb,
  if◌then◌else◌, length, take, drop,
}
use isr.Io.{stuck, fault, Io, pure, ◌>>=◌, Status, ok, err, Os, World, on_net, on_sys}

abbrev pub int_max : ℕ
int_max = 2 ^ 31 - 1

-- `int chunk = len > (size_t)INT_MAX ? INT_MAX : (int)len;`
abbrev pub chunk : ℕ → ℕ
chunk len = if ltb int_max len then int_max else len

module _ {N F : Type 0} (os : Os N F) where
  pub net_send : Bytes → Io (World N F) (Option ℕ)
  net_send data_bytes = on_net (os.net.send (take (chunk (length data_bytes)) data_bytes))

  pub net_recv : ℕ → Io (World N F) (Option Bytes)
  net_recv len = on_net (os.net.recv (chunk len))

  -- `isr_write`
  pub write : ℕ → Bytes → Io (World N F) (Option ℕ)
  write fd buf = on_sys (os.sys.write fd buf)

-- The body of the loops of `net_send_exact` and `isr_write_all`, after the call took `k` bytes.
abbrev pub drain_next : {S : Type 0} → (Bytes → Io S Status) → Bytes → Option ℕ → Io S Status
drain_next again buf none = pure err
drain_next again buf (some zero) = pure err
drain_next again buf (some (suc k)) = again (drop (suc k) buf)

-- Those loops, on the bytes not yet taken. Each round that goes on takes one byte at least, so
-- `length buf` rounds are enough.
pub drain : {S : Type 0} → (Bytes → Io S (Option ℕ)) → ℕ → Bytes → Io S Status
drain put fuel [] = pure ok
drain put zero (b ∷ bs) = λ s. stuck
drain put (suc fuel) (b ∷ bs) = put (b ∷ bs) >>= drain_next (drain put fuel) (b ∷ bs)

abbrev pub and_then : {S : Type 0} → Bytes → Option Bytes → Io S (Option Bytes)
and_then front none = pure none
and_then front (some more) = pure (some (front ++ more))

-- The body of the loop of `net_recv_exact`; `missing` bytes are still wanted.
abbrev pub recv_next :
    {S : Type 0} → (ℕ → Io S (Option Bytes)) → ℕ → Option Bytes → Io S (Option Bytes)
recv_next again missing none = pure none
recv_next again missing (some []) = pure none
recv_next again missing (some (b ∷ bs)) = again (missing - length (b ∷ bs)) >>= and_then (b ∷ bs)

module _ {N F : Type 0} (os : Os N F) where
  unfoldable pub send_exact : Bytes → Io (World N F) Status
  unfolding drain net_send
  send_exact buf = drain (net_send os) (length buf) buf

  unfoldable pub write_all : ℕ → Bytes → Io (World N F) Status
  unfolding drain write
  write_all fd buf = drain (write os fd) (length buf) buf

  -- The loop of `net_recv_exact`, on the count of bytes still wanted; it returns what it stored.
  pub recv_loop : ℕ → ℕ → Io (World N F) (Option Bytes)
  recv_loop fuel zero = pure (some [])
  recv_loop zero (suc n) = λ s. stuck
  recv_loop (suc fuel) (suc n) = net_recv os (suc n) >>= recv_next (recv_loop fuel) (suc n)

  unfoldable pub recv_exact : ℕ → Io (World N F) (Option Bytes)
  unfolding recv_loop net_recv
  recv_exact len = recv_loop len len

  -- The body of the same loop where the buffer has `capacity` bytes left from where the call
  -- stores: what is received beyond them lies outside the buffer.
  abbrev pub into_next :
      (ℕ → ℕ → Io (World N F) (Option Bytes)) → ℕ → ℕ → Option Bytes → Io (World N F) (Option Bytes)
  into_next again capacity missing none = pure none
  into_next again capacity missing (some []) = pure none
  into_next again capacity missing (some (b ∷ bs)) =
      if ltb capacity (length (b ∷ bs))
      then (λ w. fault)
      else (again (capacity - length (b ∷ bs)) (missing - length (b ∷ bs)) >>= and_then (b ∷ bs))

  pub into_loop : ℕ → ℕ → ℕ → Io (World N F) (Option Bytes)
  into_loop fuel capacity zero = pure (some [])
  into_loop zero capacity (suc n) = λ s. stuck
  into_loop (suc fuel) capacity (suc n) =
      net_recv os (suc n) >>= into_next (into_loop fuel) capacity (suc n)

  -- `net_recv_exact(sock, buf, len)` on a buffer of `capacity` bytes.
  unfoldable pub recv_into : ℕ → ℕ → Io (World N F) (Option Bytes)
  unfolding into_loop net_recv
  recv_into capacity len = into_loop len capacity len
