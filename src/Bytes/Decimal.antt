-- ===== src/Bytes/Decimal.antt =====
-- Decimal numbers: `std::atol` cast to `size_t`, and a number written to a stream.
pub mod Print
use web_server.Prelude.{
  ℕ, zero, suc, ◌+◌, ◌-◌, ◌*◌, ◌/◌, ◌%◌, ◌^◌, Bool, true, false, ◌&&◌, ◌||◌, [], ◌∷◌, leb, ltb,
  ◌==◌, if◌then◌else◌,
}
use Prim.Native.Nat.{min}
use web_server.Bytes.{Bytes}

abbrev pub is_digit : ℕ → Bool
is_digit c = leb b'0' c && leb c b'9'

-- std::isspace in the C locale
abbrev pub is_space : ℕ → Bool
is_space c = c == b' ' || (leb 9 c && leb c 13)

unfoldable pub skip_space : Bytes → Bytes
skip_space [] = []
skip_space (c ∷ s) = if is_space c then skip_space s else c ∷ s

-- The value of the digits in front, behind those read before.
unfoldable pub digits_value : ℕ → Bytes → ℕ
digits_value acc [] = acc
digits_value acc (c ∷ s) = if is_digit c then digits_value (acc * 10 + (c - b'0')) s else acc

-- A `long` of 64 bits: the C library stops at its ends. A negative number is cast to `size_t`.
unfoldable pub size_of_long : Bool → ℕ → ℕ
size_of_long false n = min n (2 ^ 63 - 1)
size_of_long true n = (2 ^ 64 - min n (2 ^ 63)) % 2 ^ 64

signed_value : Bytes → ℕ
unfolding digits_value size_of_long
signed_value [] = 0
signed_value (c ∷ s) =
    if c == b'-'
    then size_of_long true (digits_value 0 s)
    else if c == b'+'
    then size_of_long false (digits_value 0 s)
    else size_of_long false (digits_value 0 (c ∷ s))

-- static_cast<size_t>(std::atol(s))
unfoldable pub atol_size : Bytes → ℕ
unfolding signed_value skip_space
atol_size s = signed_value (skip_space s)

-- The digits of a number, in front of `rest`.
digits_onto : ℕ → ℕ → Bytes → Bytes
digits_onto zero n rest = rest
digits_onto (suc fuel) n rest =
    let more = digits_onto fuel (n / 10) ((b'0' + n % 10) ∷ rest) in
    if ltb n 10 then (b'0' + n) ∷ rest else more

-- stream << n
unfoldable pub print_decimal : ℕ → Bytes
unfolding digits_onto
print_decimal n = digits_onto (suc n) n []
