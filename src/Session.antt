-- ===== src/Session.antt =====
-- The client of lib/isr-cli.c on one machine and the server of lib/isr.c on another: what each side
-- says is what the other hears.
pub mod Upload
pub mod Download
pub mod Packed
pub mod PackedDownload
use isr.Prelude.{◌≡◌, ◌++◌, Bytes}
use isr.Io.{Status, ok, Os, World}
use isr.Exact.Laws.{StreamLaws}
use isr.Exact.Send.{sent}

-- The client succeeded, and has sent `out` on a connection that had sent `before`.
abbrev pub Said :
    {N F : Type 0} (os : Os N F) (stream : StreamLaws os.net) (before out : Bytes)
    → Status
    → World N F
    → Type 0
Said os stream before out r t = (r ≡ ok) × (sent os stream t ≡ before ++ out)
