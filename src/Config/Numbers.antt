-- ===== src/Config/Numbers.antt =====
-- The numbers of a configuration file, in src/Config.cpp: `stream >> n` and `parse_size`.
pub mod Sizes
use web_server.Prelude.{
  ℕ, ◌+◌, ◌-◌, ◌*◌, ◌%◌, ◌^◌, Bool, true, false, ◌||◌, Option, none, some, List, [], ◌∷◌, ◌++◌,
  if◌then◌else◌, leb, ltb, ◌==◌,
}
use web_server.Bytes.{Bytes, codes}
use web_server.Bytes.Decimal.{is_digit, skip_space, digits_value}
use web_server.HttpRequest.Chunked.{size_mod}
use web_server.Config.{Parsed, ok, refused}

-- A sign and the value of the digits behind it; `none` where there is no digit.
digits_in : Bool → Bytes → Option (Bool × ℕ)
digits_in negative [] = none
digits_in negative (c ∷ s) = if is_digit c then some (negative, digits_value 0 (c ∷ s)) else none

signed_in : Bytes → Option (Bool × ℕ)
unfolding digits_in
signed_in [] = none
signed_in (c ∷ s) =
    if c == b'-'
    then digits_in true s
    else if c == b'+'
    then digits_in false s
    else digits_in false (c ∷ s)

unfoldable pub read_signed : Bytes → Option (Bool × ℕ)
unfolding signed_in skip_space
read_signed s = signed_in (skip_space s)

int_in : Option (Bool × ℕ) → Option ℕ
int_in none = none
int_in (some (false, n)) = if ltb n (2 ^ 31) then some n else none
int_in (some (true, n)) = if leb n (2 ^ 31) then some ((2 ^ 32 - n) % 2 ^ 32) else none

-- stream >> n, for an `int`: what stands behind the digits is left, and out of range fails.
unfoldable pub read_int : Bytes → Option ℕ
unfolding int_in
read_int s = int_in (read_signed s)

size_in : Option (Bool × ℕ) → Option ℕ
size_in none = none
size_in (some (false, n)) = if ltb n size_mod then some n else none
size_in (some (true, n)) = if ltb n size_mod then some ((size_mod - n) % size_mod) else none

-- stream >> n, for a `size_t`: a sign wraps the number.
unfoldable pub read_size : Bytes → Option ℕ
unfolding size_in
read_size s = size_in (read_signed s)

-- The multiplier that the last byte stands for, and the text in front of it.
split_suffix : Bytes → ℕ × Bytes
split_suffix [] = (1, [])
split_suffix (c ∷ []) =
    if c == b'K' || c == b'k'
    then (1024, [])
    else if c == b'M' || c == b'm'
    then (1048576, [])
    else (1, c ∷ [])
split_suffix (c ∷ d ∷ s) = let rest = split_suffix (d ∷ s) in (rest.0, c ∷ rest.1)

size_times : Bytes → ℕ → Option ℕ → Parsed ℕ
size_times value multiplier none = refused (codes "invalid body size: '" ++ (value ++ codes "'"))
size_times value multiplier (some out) = ok ((out * multiplier) % size_mod)

unfoldable pub parse_size : Bytes → Parsed ℕ
unfolding split_suffix size_times
parse_size [] = refused (codes "empty body size value")
parse_size (c ∷ s) =
    let parts = split_suffix (c ∷ s) in size_times (c ∷ s) parts.0 (read_size parts.1)
