-- ===== src/Sockets.antt =====
-- `net_connect`, `net_listen` and `net_accept` of lib/mininet.h, over the socket calls of the
-- operating system. A failing call is `none` or `false`; the hints of getaddrinfo, and its errors,
-- are not told apart, and `freeaddrinfo` is left out.
pub mod Opened
use isr.Prelude.{ℕ, Bool, true, false, Option, none, some, List, [], ◌∷◌, Bytes}

-- getaddrinfo (for a host, or for NULL with AI_PASSIVE), socket, connect, setsockopt with
-- SO_REUSEADDR, bind, listen, accept and close.
pub record SocketCalls (S A : Type 0) : Type 0 where
  pub addresses : Option Bytes → Bytes → S → Option (List A)
  pub socket : A → S → Option ℕ × S
  pub connect : ℕ → A → S → Bool × S
  pub reuse_address : ℕ → S → S
  pub bind : ℕ → A → S → Bool × S
  pub listen : ℕ → ℕ → S → Bool × S
  pub accept : ℕ → S → Option ℕ × S
  pub close : ℕ → S → S

module _ {S A : Type 0} (calls : SocketCalls S A) where
  -- `net_close`
  abbrev pub net_close : ℕ → S → S
  net_close sockfd s = calls.close sockfd s

  -- The test of `connect` or `bind`: a socket on which it failed is closed, and `next` goes on.
  abbrev pub unless_attempted : (S → Option ℕ × S) → ℕ → Bool × S → Option ℕ × S
  unless_attempted next sockfd (true, t) = (some sockfd, t)
  unless_attempted next sockfd (false, t) = next (net_close sockfd t)

  -- The test of `socket`.
  abbrev pub if_socket : (ℕ → S → Bool × S) → (S → Option ℕ × S) → Option ℕ × S → Option ℕ × S
  if_socket attempt next (none, t) = next t
  if_socket attempt next (some sockfd, t) = unless_attempted next sockfd (attempt sockfd t)

  -- The loop over the addresses: the socket of the first on which `attempt` succeeds.
  unfoldable pub first_socket : (A → ℕ → S → Bool × S) → List A → S → Option ℕ × S
  first_socket attempt [] s = (none, s)
  first_socket attempt (p ∷ more) s =
      if_socket (attempt p) (first_socket attempt more) (calls.socket p s)

  abbrev pub try_connect : A → ℕ → S → Bool × S
  try_connect p sockfd s = calls.connect sockfd p s

  abbrev pub try_bind : A → ℕ → S → Bool × S
  try_bind p sockfd s = calls.bind sockfd p (calls.reuse_address sockfd s)

  -- The test of `getaddrinfo`.
  abbrev pub if_resolved : (List A → S → Option ℕ × S) → Option (List A) → S → Option ℕ × S
  if_resolved next none s = (none, s)
  if_resolved next (some res) s = next res s

  unfoldable pub net_connect : Bytes → Bytes → S → Option ℕ × S
  net_connect host port s =
      if_resolved (first_socket try_connect) (calls.addresses (some host) port s) s

  -- From the bound socket on.
  abbrev pub if_listening : ℕ → Bool × S → Option ℕ × S
  if_listening sockfd (true, t) = (some sockfd, t)
  if_listening sockfd (false, t) = (none, net_close sockfd t)

  abbrev pub if_bound : Option ℕ × S → Option ℕ × S
  if_bound (none, t) = (none, t)
  if_bound (some sockfd, t) = if_listening sockfd (calls.listen sockfd 10 t)

  unfoldable pub net_listen : Bytes → S → Option ℕ × S
  net_listen port s = if_bound (if_resolved (first_socket try_bind) (calls.addresses none port s) s)

  abbrev pub net_accept : ℕ → S → Option ℕ × S
  net_accept server_sock s = calls.accept server_sock s
