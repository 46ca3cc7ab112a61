-- ===== src/Main/Serve/Kept.antt =====
-- What the server's accept loop keeps, however many clients it serves, and when `cmd_serve` returns.
use isr.Prelude.{
  ℕ, zero, suc, ◌+◌, ◌≡◌, refl, ap, subst, ◌∙◌, Bool, true, false, if◌then◌else◌, Option, none,
  some, List, [], ◌∷◌, Bytes, arith,
}
use isr.Io.{Outcome, ret, stuck, fault, Io, pure, ◌>>=◌, ◌>>◌, Stat, Os, World, on_net, ask}
use isr.Io.Keeps.{After, Keeps, Keeps-bind, Keeps-net, Keeps-sys}
use isr.Paths.{set_server_root}
use isr.Server.{Reply, receive_command}
use isr.Server.Keeps.{KeptBelow}
use isr.Server.Confined.{receive_command-confined}
use isr.Main.Arguments.{serve_options, default_port, strip_separators}
use isr.Main.Serve.{
  peer_string, log_line, no_info, print, log_reply, serve_accepted, serve_one, accept_loop,
  serve_listening, serve_resolved, serve_found, serve_directory, cmd_serve,
}

-- The states of a server whose root is set: `n` rounds of the accept loop lead from `w` to `t`.
module _ {N F : Type 0} (os : Os N F) (rounds : ℕ) (root : Bytes) where
  pub data Serving (w : World N F) : ℕ → World N F → Type 0 where
    started : Serving w zero w
    served :
        {n : ℕ} {t u : World N F}
        → Serving w n t
        → serve_one os rounds root t ≡ ret tt u
        → Serving w (suc n) u

  -- The accept loop is in these states: after `n` rounds it goes on as it does from where they
  -- lead.
  pub accept_loop-Serving :
      {w : World N F} {n : ℕ} {t : World N F} (k : ℕ)
      → Serving w n t
      → accept_loop os (n + k) rounds root w ≡ accept_loop os k rounds root t
  unfolding accept_loop
  accept_loop-Serving {w = w} k started =
      let same : 0 + k ≡ k = omega arith in ap (λ m. accept_loop os m rounds root w) same
  accept_loop-Serving {w = w} k (served {n} {t} {u} s e) =
      let same : suc n + k ≡ n + suc k = omega arith in
      ap (λ m. accept_loop os m rounds root w) same ∙ accept_loop-Serving (suc k) s ∙ once
    where
      once : accept_loop os (suc k) rounds root t ≡ accept_loop os k rounds root u
      once = rw (e, ◌>>=◌) refl

module _ {N F : Type 0} (os : Os N F) (rounds : ℕ) (root : Bytes) (I : F → Type 0)
    (kept : KeptBelow os.sys root I)
    (prints : (line : Bytes) (f : F) → I f → I (os.sys.print line f)) where
  logged-Keeps : (peer : Bytes) (reply : Reply) → Keeps I (log_reply os peer reply)
  logged-Keeps peer (result, info) =
      Keeps-bind I (print os (log_line peer info result)) (λ a. on_net (λ n. (tt, os.net.close n)))
        (Keeps-sys I (λ f. (tt, os.sys.print (log_line peer info result) f))
          (prints (log_line peer info result)))
        (λ a. Keeps-net I (λ n. (tt, os.net.close n)))

  accepted-Keeps : (connected : Bool) → Keeps I (serve_accepted os rounds root connected)
  accepted-Keeps false w i = i
  accepted-Keeps true w i =
      Keeps-bind I (receive_command os rounds root no_info)
        (log_reply os (peer_string (os.net.peer w.net)))
        (receive_command-confined os root I kept rounds no_info)
        (logged-Keeps (peer_string (os.net.peer w.net))) w i

  serve_one-Keeps : Keeps I (serve_one os rounds root)
  unfolding serve_one
  serve_one-Keeps =
      Keeps-bind I (on_net os.net.accept) (serve_accepted os rounds root)
        (Keeps-net I os.net.accept) accepted-Keeps

  -- However many rounds of its accept loop a server runs, whatever its clients send and whatever
  -- the connections do, it opens only files and directories whose paths begin with its root as a
  -- string, and calls mkdir only on such a path or on a string that such a path begins with, its
  -- separators turned into slashes: a predicate on the files that these calls keep, and that
  -- printing, closing, malloc and the transfers on open descriptors keep, holds in every state
  -- that the server reaches from one where it holds.
  pub Serving-confined :
      {w : World N F} {n : ℕ} {t : World N F} → I w.sys → Serving os rounds root w n t → I t.sys
  Serving-confined i started = i
  Serving-confined i (served {n} {t} {u} s e) =
      subst (After I) e (serve_one-Keeps t (Serving-confined i s))

module _ {N F : Type 0} (os : Os N F) where
  -- No return, whatever the rounds.
  abbrev pub NoReturn : {A : Type 0} → Outcome (World N F) A → Type 0
  NoReturn (ret a t) = ⊥
  NoReturn stuck = Unit
  NoReturn fault = Unit

  then_NoReturn :
      {A B : Type 0} (m : Io (World N F) A) (k : Io (World N F) B) (w : World N F)
      → ((t : World N F) → NoReturn (k t))
      → NoReturn ((m >> k) w)
  then_NoReturn {A = A} m k w h = go (m w)
    where
      go : (o : Outcome (World N F) A) → NoReturn (◌>>=◌ (λ v. o) (λ a. k) w)
      go (ret a t) = h t
      go stuck = tt
      go fault = tt

  accept_loop-NoReturn :
      (clients rounds : ℕ) (root : Bytes) (w : World N F)
      → NoReturn (accept_loop os clients rounds root w)
  unfolding accept_loop
  accept_loop-NoReturn zero rounds root w = tt
  accept_loop-NoReturn (suc clients) rounds root w =
      then_NoReturn (serve_one os rounds root) (accept_loop os clients rounds root) w
        (accept_loop-NoReturn clients rounds root)

  -- What a return of `cmd_serve` means: 1, and the files as they were.
  abbrev pub NotStarted : World N F → Outcome (World N F) ℕ → Type 0
  NotStarted w (ret code t) = (code ≡ 1) × (t.sys ≡ w.sys)
  NotStarted w stuck = Unit
  NotStarted w fault = Unit

  NoReturn-NotStarted : (w : World N F) (o : Outcome (World N F) ℕ) → NoReturn o → NotStarted w o
  NoReturn-NotStarted w (ret code t) h = absurd h
  NoReturn-NotStarted w stuck h = tt
  NoReturn-NotStarted w fault h = tt

  listening_lem :
      (clients rounds : ℕ) (root port : Bytes) (listening : Bool) (w t : World N F)
      → t.sys ≡ w.sys
      → NotStarted w (serve_listening os clients rounds root port listening t)
  listening_lem clients rounds root port false w t h = (refl, h)
  listening_lem clients rounds root port true w t h = NoReturn-NotStarted w _ (
      then_NoReturn (print os _) (accept_loop os clients rounds (set_server_root root)) t
        (accept_loop-NoReturn clients rounds (set_server_root root)))

  resolved_lem :
      (clients rounds : ℕ) (port : Bytes) (o : Option Bytes) (w : World N F)
      → NotStarted w (serve_resolved os clients rounds port o w)
  resolved_lem clients rounds port none w = (refl, refl)
  resolved_lem clients rounds port (some root) w =
      listening_lem clients rounds root port (os.net.listen port w.net).0 w
        (record w { net = (os.net.listen port w.net).1 }) refl

  found_lem :
      (clients rounds : ℕ) (port directory : Bytes) (o : Option Stat) (w : World N F)
      → NotStarted w (serve_found os clients rounds port directory o w)
  found_lem clients rounds port directory none w = (refl, refl)
  found_lem clients rounds port directory (some st) w = go st.is_dir
    where
      go :
          (is_dir : Bool)
          → NotStarted w (
              (if is_dir
                  then (ask (os.sys.realpath directory) >>= serve_resolved os clients rounds port)
                  else pure 1)
                w)
      go true = resolved_lem clients rounds port (os.sys.realpath directory w.sys) w
      go false = (refl, refl)

  -- `cmd_serve` never returns once it serves: where it returns, its result is 1, nothing was
  -- printed and the files are what they were, whatever the arguments, the clients and the
  -- connections do, and however many rounds of the accept loop are watched.
  pub cmd_serve-NotStarted :
      (clients rounds : ℕ) (args : List Bytes) (w : World N F)
      → NotStarted w (cmd_serve os clients rounds args w)
  unfolding cmd_serve
  cmd_serve-NotStarted clients rounds [] w = (refl, refl)
  cmd_serve-NotStarted clients rounds (directory ∷ more) w =
      served_lem (serve_options more default_port)
    where
      served_lem :
          (o : Option Bytes)
          → NotStarted w (serve_directory os clients rounds (strip_separators directory) o w)
      served_lem none = (refl, refl)
      served_lem (some port) =
          found_lem clients rounds port (strip_separators directory)
            (os.sys.stat (strip_separators directory) w.sys) w
