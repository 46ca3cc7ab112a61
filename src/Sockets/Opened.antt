-- ===== src/Sockets/Opened.antt =====
-- Which sockets `net_connect` and `net_listen` leave open.
use isr.Prelude.{
  ℕ, ◌≡◌, refl, ap, sym, subst, All, ◌∙◌, Bool, true, false, Option, none, some, List, [], ◌∷◌,
  Bytes,
}
use isr.Sockets.{
  SocketCalls, net_close, unless_attempted, if_socket, first_socket, try_connect, try_bind,
  if_resolved, net_connect, if_listening, if_bound, net_listen,
}

-- The open sockets, and what a socket is used for, as the calls are documented to change them:
-- `Connected fd a` is a connection to an address, `Bound fd a` a socket bound to it, and
-- `Listening fd` one that takes connections.
pub record SocketLaws {S A : Type 0} (calls : SocketCalls S A) : Type 1 where
  pub opened : S → List ℕ
  pub Connected : ℕ → A → S → Type 0
  pub Bound : ℕ → A → S → Type 0
  pub Listening : ℕ → S → Type 0
  pub socket_opens :
      (p : A) (s : S) (fd : ℕ)
      → (calls.socket p s).0 ≡ some fd
      → opened (calls.socket p s).1 ≡ fd ∷ opened s
  pub socket_fails :
      (p : A) (s : S) → (calls.socket p s).0 ≡ none → opened (calls.socket p s).1 ≡ opened s
  pub opened-connect : (fd : ℕ) (p : A) (s : S) → opened (calls.connect fd p s).1 ≡ opened s
  pub connects :
      (fd : ℕ) (p : A) (s : S)
      → (calls.connect fd p s).0 ≡ true
      → Connected fd p (calls.connect fd p s).1
  pub opened-reuse_address : (fd : ℕ) (s : S) → opened (calls.reuse_address fd s) ≡ opened s
  pub opened-bind : (fd : ℕ) (p : A) (s : S) → opened (calls.bind fd p s).1 ≡ opened s
  pub binds :
      (fd : ℕ) (p : A) (s : S) → (calls.bind fd p s).0 ≡ true → Bound fd p (calls.bind fd p s).1
  pub opened-listen : (fd backlog : ℕ) (s : S) → opened (calls.listen fd backlog s).1 ≡ opened s
  pub listens :
      (fd backlog : ℕ) (s : S)
      → (calls.listen fd backlog s).0 ≡ true
      → Listening fd (calls.listen fd backlog s).1
  pub bound-listen :
      (fd backlog : ℕ) (p : A) (s : S) → Bound fd p s → Bound fd p (calls.listen fd backlog s).1
  pub close_last :
      (fd : ℕ) (s : S) (fds : List ℕ) → opened s ≡ fd ∷ fds → opened (calls.close fd s) ≡ fds

module _ {S A : Type 0} (calls : SocketCalls S A) (laws : SocketLaws calls) where
  -- Beside the sockets that were open, the one returned is open and has `P`, or none is returned.
  abbrev pub OneMore : (ℕ → S → Type 0) → S → Option ℕ × S → Type 0
  OneMore P s (none, t) = laws.opened t ≡ laws.opened s
  OneMore P s (some fd, t) = (laws.opened t ≡ fd ∷ laws.opened s) × P fd t

  module _ (attempt : A → ℕ → S → Bool × S) (Works : ℕ → A → S → Type 0) (Offered : A → Type 0)
      (opened-attempt : (p : A) (fd : ℕ) (s : S) → laws.opened (attempt p fd s).1 ≡ laws.opened s)
      (works : (p : A) (fd : ℕ) (s : S)
        → (attempt p fd s).0 ≡ true
        → Works fd p (attempt p fd s).1) where
    abbrev pub ForOne : ℕ → S → Type 0
    ForOne fd t = (p : A) × Offered p × Works fd p t

    abbrev Goes : S → (S → Option ℕ × S) → Type 0
    Goes s next = (u : S) → laws.opened u ≡ laws.opened s → OneMore ForOne s (next u)

    attempted :
        (next : S → Option ℕ × S) (p : A) (fd : ℕ) (s t : S)
        → Offered p
        → Goes s next
        → laws.opened t ≡ fd ∷ laws.opened s
        → (r : Bool × S) → attempt p fd t ≡ r
        → OneMore ForOne s (unless_attempted calls next fd r)
    attempted next p fd s t offered more h (true, u) e = (
      ap (λ r. laws.opened r.1) (sym e) ∙ opened-attempt p fd t ∙ h,
      (p, offered, subst (λ r. Works fd p r.1) e (works p fd t (ap (λ r. r.0) e))),
    )
    attempted next p fd s t offered more h (false, u) e = more (net_close calls fd u) (
        laws.close_last fd u (laws.opened s)
          (ap (λ r. laws.opened r.1) (sym e) ∙ opened-attempt p fd t ∙ h))

    with_socket :
        (next : S → Option ℕ × S) (p : A) (s t : S)
        → Offered p
        → Goes s next
        → laws.opened t ≡ laws.opened s
        → (r : Option ℕ × S) → calls.socket p t ≡ r
        → OneMore ForOne s (if_socket calls (attempt p) next r)
    with_socket next p s t offered more h (none, u) e =
        more u (ap (λ r. laws.opened r.1) (sym e) ∙ laws.socket_fails p t (ap (λ r. r.0) e) ∙ h)
    with_socket next p s t offered more h (some fd, u) e =
        attempted next p fd s u offered more
          (ap (λ r. laws.opened r.1) (sym e)
            ∙ laws.socket_opens p t fd (ap (λ r. r.0) e)
            ∙ ap (λ fds. fd ∷ fds) h)
          (attempt p fd u) refl

    pub first_socket_lem :
        (ps : List A) (s : S) → All Offered ps → Goes s (first_socket calls attempt ps)
    unfolding first_socket
    first_socket_lem [] s offered u h = h
    first_socket_lem (p ∷ ps) s (here, offered) u h =
        with_socket (first_socket calls attempt ps) p s u here (first_socket_lem ps s offered) h
          (calls.socket p u) refl

    pub resolved_lem :
        (o : Option (List A)) (s : S)
        → ((ps : List A) → o ≡ some ps → All Offered ps)
        → OneMore ForOne s (if_resolved calls (first_socket calls attempt) o s)
    resolved_lem none s offered = refl
    resolved_lem (some ps) s offered = first_socket_lem ps s (offered ps refl) s refl

  -- `net_connect` closes every socket that it opened but the one that it returns, which is
  -- connected to one of the addresses that getaddrinfo gave for the host: any predicate that
  -- these satisfy holds of its address. If it returns none, the open sockets are what they were.
  pub net_connect_lem :
      (Offered : A → Type 0) (host port : Bytes) (s : S)
      → ((ps : List A) → calls.addresses (some host) port s ≡ some ps → All Offered ps)
      → OneMore
          (λ fd t. (p : A) × Offered p × laws.Connected fd p t)
          s
          (net_connect calls host port s)
  unfolding net_connect
  net_connect_lem Offered host port s offered =
      resolved_lem (try_connect calls) laws.Connected Offered (λ p fd u. laws.opened-connect fd p u)
        (λ p fd u. laws.connects fd p u) (calls.addresses (some host) port s) s offered

  bound :
      (Offered : A → Type 0) (s : S) (r : Option ℕ × S)
      → OneMore (λ fd t. (p : A) × Offered p × laws.Bound fd p t) s r
      → OneMore
          (λ fd t. laws.Listening fd t × (p : A) × Offered p × laws.Bound fd p t)
          s
          (if_bound calls r)
  bound Offered s (none, t) h = h
  bound Offered s (some fd, t) (one, (p, offered, at)) = go (calls.listen fd 10 t) refl
    where
      go :
          (r : Bool × S)
          → calls.listen fd 10 t ≡ r
          → OneMore
              (λ fd' u. laws.Listening fd' u × (q : A) × Offered q × laws.Bound fd' q u)
              s
              (if_listening calls fd r)
      go (true, u) e = (
        ap (λ r. laws.opened r.1) (sym e) ∙ laws.opened-listen fd 10 t ∙ one,
        (
          subst (λ r. laws.Listening fd r.1) e (laws.listens fd 10 t (ap (λ r. r.0) e)),
          p,
          offered,
          subst (λ r. laws.Bound fd p r.1) e (laws.bound-listen fd 10 p t at),
        ),
      )
      go (false, u) e =
          laws.close_last fd u (laws.opened s)
            (ap (λ r. laws.opened r.1) (sym e) ∙ laws.opened-listen fd 10 t ∙ one)

  -- `net_listen` closes every socket that it opened but the one that it returns, which is
  -- listening and bound to one of the addresses that getaddrinfo gave for the port: any predicate
  -- that these satisfy holds of its address. If it returns none, the open sockets are what they
  -- were.
  pub net_listen_lem :
      (Offered : A → Type 0) (port : Bytes) (s : S)
      → ((ps : List A) → calls.addresses none port s ≡ some ps → All Offered ps)
      → OneMore
          (λ fd t. laws.Listening fd t × (p : A) × Offered p × laws.Bound fd p t)
          s
          (net_listen calls port s)
  unfolding net_listen
  net_listen_lem Offered port s offered = bound Offered s _ (
      resolved_lem (try_bind calls) laws.Bound Offered
        (λ p fd u.
          laws.opened-bind fd p (calls.reuse_address fd u) ∙ laws.opened-reuse_address fd u)
        (λ p fd u. laws.binds fd p (calls.reuse_address fd u)) (calls.addresses none port s) s
        offered)
