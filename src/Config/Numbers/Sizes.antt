-- ===== src/Config/Numbers/Sizes.antt =====
-- About `parse_size` of src/Config.cpp on a printed number with a suffix.
use web_server.Prelude.{
  ℕ, ◌*◌, ◌%◌, ◌<◌, ◌≡◌, refl, ap, true, false, some, [], ◌∷◌, ◌++◌, arith, lt→ltb, ◌==◌,
}
use web_server.Bytes.{Bytes, codes}
use web_server.Bytes.Decimal.{is_digit, is_space, skip_space, digits_value, print_decimal}
use web_server.Bytes.Decimal.Print.{
  StartsWithDigit, AreDigits, print-start, print-value, print-AreDigits,
}
use web_server.HttpRequest.Chunked.{size_mod}
use web_server.Config.{ok}
use web_server.Config.Numbers.{
  digits_in, signed_in, read_signed, size_in, read_size, split_suffix, size_times, parse_size,
}

digit_not_space : (d : ℕ) → is_digit d ≡ true → is_space d ≡ false
digit_not_space d h = ground arith

digit_not_minus : (d : ℕ) → is_digit d ≡ true → (d == b'-') ≡ false
digit_not_minus d h = ground arith

digit_not_plus : (d : ℕ) → is_digit d ≡ true → (d == b'+') ≡ false
digit_not_plus d h = ground arith

read_digits : (s : Bytes) → StartsWithDigit s → read_signed s ≡ some (false, digits_value 0 s)
unfolding read_signed skip_space signed_in digits_in
read_digits s (d, t, e, h) = rw (e, digit_not_space d h, digit_not_minus d h, digit_not_plus d h, h)

read_size-print : (n : ℕ) → n < size_mod → read_size (print_decimal n) ≡ some n
unfolding read_size size_in
read_size-print n h =
    rw (read_digits (print_decimal n) (print-start n), print-value n, lt→ltb n size_mod h)

-- The last byte decides the multiplier.
split_suffix-append :
    (d c m : ℕ) (t : Bytes)
    → split_suffix (c ∷ []) ≡ (m, [])
    → split_suffix (d ∷ t ++ c ∷ []) ≡ (m, d ∷ t)
unfolding split_suffix
split_suffix-append d c m [] h = rw h
split_suffix-append d c m (e ∷ t) h = rw (split_suffix-append e c m t h)

split_suffix-digits : (d : ℕ) (t : Bytes) → AreDigits (d ∷ t) → split_suffix (d ∷ t) ≡ (1, d ∷ t)
unfolding split_suffix
split_suffix-digits d [] h = ground arith
split_suffix-digits d (e ∷ t) h = rw (split_suffix-digits e t h.1)

suffix_size :
    (n m c : ℕ)
    → n < size_mod
    → split_suffix (c ∷ []) ≡ (m, [])
    → parse_size (print_decimal n ++ c ∷ []) ≡ ok ((n * m) % size_mod)
unfolding parse_size size_times
suffix_size n m c h k =
    let (d, t, e, start) = print-start n in
    let read = rw e at (read_size-print n h) in rw (e, split_suffix-append d c m t k, read)

plain_size : (n : ℕ) → n < size_mod → parse_size (print_decimal n) ≡ ok n
unfolding parse_size size_times
plain_size n h =
    let (d, t, e, start) = print-start n in
    let read = rw e at (read_size-print n h) in
    rw (e, split_suffix-digits d t (rw e at (print-AreDigits n)), read) (ap ok (omega arith))

-- What `parse_size` gives for a number that is written out, alone and with each suffix.
pub record AreSizes (n : ℕ) : Type 0 where
  pub plain : parse_size (print_decimal n) ≡ ok n
  pub kilo : parse_size (print_decimal n ++ codes "K") ≡ ok ((n * 1024) % size_mod)
  pub kilo_small : parse_size (print_decimal n ++ codes "k") ≡ ok ((n * 1024) % size_mod)
  pub mega : parse_size (print_decimal n ++ codes "M") ≡ ok ((n * 1048576) % size_mod)
  pub mega_small : parse_size (print_decimal n ++ codes "m") ≡ ok ((n * 1048576) % size_mod)

-- A body size below 2 ^ 64 that is written in decimal is read as it is, and with K or M times 1024
-- or 1048576, modulo 2 ^ 64: a product that is too large wraps without an error.
pub parse_size-AreSizes : (n : ℕ) → n < size_mod → AreSizes n
unfolding split_suffix
parse_size-AreSizes n h = record {
  plain = plain_size n h;
  kilo = suffix_size n 1024 b'K' h refl;
  kilo_small = suffix_size n 1024 b'k' h refl;
  mega = suffix_size n 1048576 b'M' h refl;
  mega_small = suffix_size n 1048576 b'm' h refl;
}
