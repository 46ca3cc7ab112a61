-- ===== src/Main/Arguments.antt =====
-- The options and arguments of main.c: the loops over argv of `cmd_serve`, `cmd_send` and
-- `cmd_recv`, and `atoi`. An argument is its bytes up to the terminator.
pub mod Upload
use isr.Prelude.{
  ℕ, zero, suc, ◌+◌, ◌-◌, ◌*◌, ◌%◌, ◌^◌, Bool, true, false, not, ◌&&◌, ◌||◌, Option, none, some,
  List, [], ◌∷◌, ◌++◌, ◌==◌, leb, ltb, if◌then◌else◌, Bytes, take, length, bit_or,
}
use isr.CText.{text, same_string, char_at, copy_string}
use isr.Paths.{is_slash}
use isr.Wire.{path_max, flag_use_compression, flag_overwrite}

abbrev pub default_port : Bytes
default_port = text "42069"

-- isspace in the C locale, and isdigit.
abbrev is_space : ℕ → Bool
is_space c = c == b' ' || leb 9 c && leb c 13

abbrev is_digit : ℕ → Bool
is_digit c = leb b'0' c && leb c b'9'

-- The digits at the front, after `value`.
unfoldable pub decimal_onto : ℕ → Bytes → ℕ
decimal_onto value [] = value
decimal_onto value (c ∷ cs) =
    if is_digit c then decimal_onto (value * 10 + (c - b'0')) cs else value

-- What follows the spaces.
unfoldable pub past_spaces : Bytes → Bytes
past_spaces [] = []
past_spaces (c ∷ cs) = if is_space c then past_spaces cs else c ∷ cs

-- `(uint32_t)atoi(s)`. Outside the range of int, where atoi is undefined, it is the number's
-- residue.
abbrev pub signed_value : Bytes → ℕ
signed_value [] = 0
signed_value (c ∷ cs) =
    if c == b'-'
    then (2 ^ 32 - decimal_onto 0 cs % 2 ^ 32) % 2 ^ 32
    else if c == b'+'
    then decimal_onto 0 cs % 2 ^ 32
    else decimal_onto 0 (c ∷ cs) % 2 ^ 32

unfoldable pub atoi : Bytes → ℕ
atoi s = signed_value (past_spaces s)

-- `(uint32_t)atoi(s) * 1024`
abbrev pub block_size_of : Bytes → ℕ
block_size_of s = atoi s * 1024 % 2 ^ 32

-- block_size, flags and recursive of cmd_send and cmd_recv.
pub record Options : Type 0 where
  pub block_size : ℕ
  pub flags : ℕ
  pub recursive : Bool

abbrev pub no_options : Options
no_options = record { block_size = 0; flags = 0; recursive = false }

abbrev pub with_block_size : Bytes → Options → Options
with_block_size s o = record o {
  block_size = block_size_of s;
  flags = bit_or o.flags flag_use_compression;
}

abbrev pub with_overwrite : Options → Options
with_overwrite o = record o { flags = bit_or o.flags flag_overwrite }

abbrev pub with_recursive : Options → Options
with_recursive o = record o { recursive = true }

-- The loop of cmd_send; `none` is an unknown option.
unfoldable pub send_options : List Bytes → Options → Option Options
send_options [] o = some o
send_options (a ∷ []) o =
    if same_string a (text "-o")
    then some (with_overwrite o)
    else if same_string a (text "-r")
    then some (with_recursive o)
    else none
send_options (a ∷ b ∷ more) o =
    if same_string a (text "-c")
    then send_options more (with_block_size b o)
    else if same_string a (text "-o")
    then send_options (b ∷ more) (with_overwrite o)
    else if same_string a (text "-r")
    then send_options (b ∷ more) (with_recursive o)
    else none

-- The loop of cmd_recv.
unfoldable pub recv_options : List Bytes → Options → Option Options
recv_options [] o = some o
recv_options (a ∷ []) o = if same_string a (text "-r") then some (with_recursive o) else none
recv_options (a ∷ b ∷ more) o =
    if same_string a (text "-c")
    then recv_options more (with_block_size b o)
    else if same_string a (text "-r")
    then recv_options (b ∷ more) (with_recursive o)
    else none

-- The loop of cmd_serve: the port.
unfoldable pub serve_options : List Bytes → Bytes → Option Bytes
serve_options [] port = some port
serve_options (a ∷ []) port = none
serve_options (a ∷ b ∷ more) port = if same_string a (text "-p") then serve_options more b else none

-- The local path of cmd_recv, if it is given, and the arguments behind it.
abbrev pub local_path_of : List Bytes → Option Bytes × List Bytes
local_path_of [] = (none, [])
local_path_of (a ∷ more) = if char_at a 0 == b'-' then (none, a ∷ more) else (some a, more)

-- `local_path ? local_path : "."`
abbrev pub local_dir_of : Option Bytes → Bytes
local_dir_of none = text "."
local_dir_of (some local_path) = local_path

-- The loop that strips the separators at the end of `dir_buf`; `dlen` bounds its rounds.
unfoldable pub strip_loop : ℕ → Bytes → Bytes
strip_loop zero dir = dir
strip_loop (suc dlen) dir =
    let shorter = strip_loop dlen (take (length dir - 1) dir) in
    if ltb 1 (length dir) && is_slash (char_at dir (length dir - 1)) then shorter else dir

unfoldable pub strip_separators : Bytes → Bytes
strip_separators directory =
    let dir_buf : Bytes = copy_string path_max directory in strip_loop (length dir_buf) dir_buf
