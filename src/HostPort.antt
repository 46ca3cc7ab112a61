-- ===== src/HostPort.antt =====
-- `parse_host_port` of lib/hostport.h.
use isr.Prelude.{
  ℕ, ◌<◌, ◌≡◌, ◌≢◌, refl, false, ◌==◌, ◌||◌, leb, if◌then◌else◌, Option, none, some, [], ◌∷◌, ◌++◌,
  arith, Bytes, length,
}
use isr.CText.{split_last}
use isr.CText.Split.{Without, split_last-last}

-- The two texts, where each fits its buffer and neither is empty.
abbrev pub split_fits : ℕ → ℕ → Option (Bytes × Bytes) → Option (Bytes × Bytes)
split_fits host_len port_len none = none
split_fits host_len port_len (some ([], p)) = none
split_fits host_len port_len (some (h ∷ host, p)) =
    if leb host_len (length (h ∷ host))
    then none
    else if length p == 0 || leb port_len (length p)
    then none
    else some (h ∷ host, p)

unfoldable pub parse_host_port : Bytes → ℕ → ℕ → Option (Bytes × Bytes)
parse_host_port input host_len port_len = split_fits host_len port_len (split_last b':' input)

-- A host and a port with a colon between them are read back, where neither is empty, both fit
-- their buffers with the terminator, and the port has no colon; the host may have some.
pub parse_host_port_lem :
    (host port : Bytes) (host_len port_len : ℕ)
    → host ≢ []
    → port ≢ []
    → Without b':' port
    → length host < host_len
    → length port < port_len
    → parse_host_port (host ++ b':' ∷ port) host_len port_len ≡ some (host, port)
unfolding parse_host_port
parse_host_port_lem [] port host_len port_len ne ne' h fits fits' = absurd (ne refl)
parse_host_port_lem (c ∷ host) [] host_len port_len ne ne' h fits fits' = absurd (ne' refl)
parse_host_port_lem (c ∷ host) (d ∷ port) host_len port_len ne ne' h fits fits' =
    let first : leb host_len (length (c ∷ host)) ≡ false = ground arith in
    let second : (length (d ∷ port) == 0 || leb port_len (length (d ∷ port))) ≡ false =
      ground arith in
    rw (split_last-last b':' (c ∷ host) (d ∷ port) h, first, second) refl
