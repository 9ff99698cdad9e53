-- ===== src/Bytes/Decimal/Print.antt =====
-- About printed decimal numbers, read by `digits_value`.
use web_server.Prelude.{
  ℕ, zero, suc, ◌+◌, ◌*◌, ◌/◌, ◌%◌, ◌<◌, ◌≡◌, refl, ap, ◌∙◌, true, [], ◌∷◌, arith, ltb, Bool-cases,
  inl, inr,
}
use web_server.Bytes.{Bytes}
use web_server.Bytes.Decimal.{is_digit, digits_value, digits_onto, print_decimal}

digit-is_digit : (d : ℕ) → d < 10 → is_digit (48 + d) ≡ true
digit-is_digit d h = ground arith

digits_step :
    (acc d : ℕ) (s : Bytes)
    → d < 10
    → digits_value acc ((48 + d) ∷ s) ≡ digits_value (acc * 10 + d) s
unfolding digits_value
digits_step acc d s h =
    rw (digit-is_digit d h) (ap (λ k. digits_value (acc * 10 + k) s) (omega arith))

digits_onto-value :
    (fuel n : ℕ) (rest : Bytes)
    → n < fuel
    → digits_value 0 (digits_onto fuel n rest) ≡ digits_value n rest
unfolding digits_onto
digits_onto-value zero n rest h = elim h [ ]
digits_onto-value (suc fuel) n rest h = elim (Bool-cases (ltb n 10)) [
  | inl small ↦
      rw small (digits_step 0 n rest (ground arith) ∙ ap (λ k. digits_value k rest) (omega arith))
  | inr large ↦ rw large (
      digits_onto-value fuel (n / 10) ((48 + n % 10) ∷ rest) (ground arith)
      ∙ digits_step (n / 10) (n % 10) rest (omega arith)
      ∙ ap (λ k. digits_value k rest) (omega arith))
]

-- A text starts with a digit.
abbrev pub StartsWithDigit : Bytes → Type 0
StartsWithDigit s = (d : ℕ) × (t : Bytes) × (s ≡ d ∷ t) × (is_digit d ≡ true)

digits_onto-start :
    (fuel n : ℕ) (rest : Bytes) → n < fuel → StartsWithDigit (digits_onto fuel n rest)
unfolding digits_onto
digits_onto-start zero n rest h = elim h [ ]
digits_onto-start (suc fuel) n rest h = elim (Bool-cases (ltb n 10)) [
  | inl small ↦ rw small (48 + n, rest, refl, digit-is_digit n (ground arith))
  | inr large ↦ rw large (digits_onto-start fuel (n / 10) ((48 + n % 10) ∷ rest) (ground arith))
]

pub print-start : (n : ℕ) → StartsWithDigit (print_decimal n)
unfolding print_decimal
print-start n = digits_onto-start (suc n) n [] (omega arith)

pub print-value : (n : ℕ) → digits_value 0 (print_decimal n) ≡ n
unfolding print_decimal digits_value
print-value n = digits_onto-value (suc n) n [] (omega arith)

abbrev pub AreDigits : Bytes → Type 0
AreDigits [] = Unit
AreDigits (d ∷ s) = (is_digit d ≡ true) × AreDigits s

digits_onto-AreDigits :
    (fuel n : ℕ) (rest : Bytes) → AreDigits rest → AreDigits (digits_onto fuel n rest)
unfolding digits_onto
digits_onto-AreDigits zero n rest h = h
digits_onto-AreDigits (suc fuel) n rest h = elim (Bool-cases (ltb n 10)) [
  | inl small ↦ rw small (digit-is_digit n (ground arith), h)
  | inr large ↦ rw large (
      digits_onto-AreDigits fuel (n / 10) ((48 + n % 10) ∷ rest)
        (digit-is_digit (n % 10) (omega arith), h))
]

pub print-AreDigits : (n : ℕ) → AreDigits (print_decimal n)
unfolding print_decimal
print-AreDigits n = digits_onto-AreDigits (suc n) n [] tt
