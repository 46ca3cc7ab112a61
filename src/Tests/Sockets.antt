-- ===== src/Tests/Sockets.antt =====
-- Connecting and listening on a system with two addresses, of which the second works.
use isr.Prelude.{
  ℕ, ◌≡◌, ◌≢◌, ◌+◌, subst, refl, ap, Option, none, some, List, [], ◌∷◌, ◌==◌, true, drop, All,
  arith, ◌<◌,
}
use isr.CText.{text}
use isr.Sockets.{SocketCalls, net_connect, net_listen}
use isr.Sockets.Opened.{SocketLaws, OneMore, net_connect_lem, net_listen_lem}

record Table : Type 0 where
  sockets : List ℕ
  connection : ℕ × ℕ
  binding : ℕ × ℕ
  backlog : ℕ × ℕ

abbrev table : SocketCalls Table ℕ
table = record {
  addresses = λ host port s. some (4 ∷ 6 ∷ []);
  socket = λ p s. (some (p + 10), record s { sockets = (p + 10) ∷ s.sockets });
  connect = λ fd p s. (p == 6, record s { connection = (fd, p) });
  reuse_address = λ fd s. s;
  bind = λ fd p s. (p == 6, record s { binding = (fd, p) });
  listen = λ fd backlog s. (true, record s { backlog = (fd, backlog) });
  accept = λ fd s. (none, s);
  close = λ fd s. record s { sockets = drop 1 s.sockets };
}

abbrev number : Option ℕ → ℕ
number none = 0
number (some fd) = fd

some-ne_none : (k : ℕ) → some k ≢ none
some-ne_none k e = cc

abbrev table_laws : SocketLaws table
table_laws = record {
  opened = λ s. s.sockets;
  Connected = λ fd p s. s.connection ≡ (fd, p);
  Bound = λ fd p s. s.binding ≡ (fd, p);
  Listening = λ fd s. s.backlog.0 ≡ fd;
  socket_opens = λ p s fd e. ap (λ o. number o ∷ s.sockets) e;
  socket_fails = λ p s e. absurd (some-ne_none (p + 10) e);
  opened-connect = λ fd p s. refl;
  connects = λ fd p s e. refl;
  opened-reuse_address = λ fd s. refl;
  opened-bind = λ fd p s. refl;
  binds = λ fd p s e. refl;
  opened-listen = λ fd backlog s. refl;
  listens = λ fd backlog s e. refl;
  bound-listen = λ fd backlog p s h. h;
  close_last = λ fd s fds e. ap (drop 1) e;
}

abbrev no_sockets : Table
no_sockets = record { sockets = []; connection = (0, 0); binding = (0, 0); backlog = (0, 0) }

offered_lem :
    (ps : List ℕ) → ◌≡◌ {A = Option (List ℕ)} (some (4 ∷ 6 ∷ [])) (some ps) → All (λ p. 3 < p) ps
offered_lem ps e = subst (All (λ p. 3 < p)) (ap (λ o. or_nil o) e) (omega arith, (omega arith, tt))
  where
    or_nil : Option (List ℕ) → List ℕ
    or_nil none = []
    or_nil (some qs) = qs

net_connect_lem_example :
    OneMore table table_laws
      (λ fd t. (p : ℕ) × (3 < p) × table_laws.Connected fd p t)
      no_sockets
      (net_connect table (text "h") (text "1") no_sockets)
net_connect_lem_example =
    net_connect_lem table table_laws (λ p. 3 < p) (text "h") (text "1") no_sockets offered_lem

net_listen_lem_example :
    OneMore table table_laws
      (λ fd t. table_laws.Listening fd t × (p : ℕ) × (3 < p) × table_laws.Bound fd p t)
      no_sockets
      (net_listen table (text "1") no_sockets)
net_listen_lem_example =
    net_listen_lem table table_laws (λ p. 3 < p) (text "1") no_sockets offered_lem
