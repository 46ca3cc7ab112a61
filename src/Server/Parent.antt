-- ===== src/Server/Parent.antt =====
-- Making directories leaves the connection alone.
use isr.Prelude.{◌≡◌, refl, Option, none, some, Bytes}
use isr.Io.{Os, World}
use isr.Io.Post.{Post, Post-mono}
use isr.Paths.{mkdir_recursive}
use isr.Paths.Directories.{mkdir_recursive_lem}
use isr.Server.{make_parent}

module _ {N F : Type 0} (os : Os N F) where
  pub mkdir_recursive-net :
      (path : Bytes) (w : World N F) → Post (λ r t. t.net ≡ w.net) (mkdir_recursive os path w)
  mkdir_recursive-net path w =
      Post-mono _ (λ r t. t.net ≡ w.net) (mkdir_recursive os path w) (λ r t h. h.0)
        (mkdir_recursive_lem os path w)

  pub make_parent-net :
      (o : Option Bytes) (w : World N F) → Post (λ r t. t.net ≡ w.net) (make_parent os o w)
  make_parent-net none w = refl
  make_parent-net (some parent) w = mkdir_recursive-net parent w
