-- ===== src/HttpRequest/Chunked/Hex.antt =====
-- About `parse_hex_string` of src/HTTPRequest.cpp.
use mathlib.Core.Option
use native.Mathlib.Nat.{pow-succ'}
use web_server.Prelude.{
  ℕ, suc, ◌^◌, ◌==◌, Option, ◌+◌, ◌*◌, ◌%◌, ◌≡◌, ◌≢◌, refl, sym, ap, ◌∙◌, true, false, none, some,
  [], ◌∷◌, arith, if◌then◌else◌, length, Bool-cases, inl, inr,
}
use web_server.Bytes.{Bytes, codes, has, find_first_not_of, find_last_not_of}
use web_server.Bytes.Search.{Lacks}
use web_server.HttpRequest.Line.{blanks}
use web_server.HttpRequest.Chunked.{
  is_hex, all_hex, hex_digit, size_mod, hex_from, parse_hex_string,
}

-- The number that the digits write, with no bound.
abbrev pub hex_value : ℕ → Bytes → ℕ
hex_value acc [] = acc
hex_value acc (c ∷ s) = hex_value (acc * 16 + hex_digit c) s

mod_step : (a d : ℕ) → ((a % size_mod) * 16 + d) % size_mod ≡ (a * 16 + d) % size_mod
mod_step a d = omega arith

hex_from-mod : (s : Bytes) (acc : ℕ) → hex_from (acc % size_mod) s ≡ hex_value acc s % size_mod
unfolding hex_from
hex_from-mod [] acc = refl
hex_from-mod (c ∷ s) acc =
    ap (λ n. hex_from n s) (mod_step acc (hex_digit c)) ∙ hex_from-mod s (acc * 16 + hex_digit c)

-- The result with the tests and the digits of the code.
pub parse_hex_string-all_hex :
    (s : Bytes) → parse_hex_string s ≡ (if all_hex s then some (hex_value 0 s % size_mod) else none)
unfolding parse_hex_string
parse_hex_string-all_hex s = rw (hex_from-mod s 0)

-- The place of a byte in a text.
abbrev pub place : ℕ → Bytes → Option ℕ
place c [] = none
place c (d ∷ s) = if c == d then some 0 else Option.map suc (place c s)

-- The digit that a byte writes, in small or in capital letters.
abbrev pub digit_of : ℕ → Option ℕ
digit_of c = elim (place c (codes "0123456789abcdef")) [
  | some n ↦ some n
  | none ↦ place c (codes "0123456789ABCDEF")
]

-- The number that a text of digits writes: each digit counts as many times 16 as there are digits
-- behind it.
abbrev pub number_of : Bytes → Option ℕ
number_of [] = some 0
number_of (c ∷ s) = elim (digit_of c) [
  | none ↦ none
  | some d ↦ Option.map (λ n. d * 16 ^ length s + n) (number_of s)
]

digit_of_lem : (c : ℕ) → digit_of c ≡ (if is_hex c then some (hex_digit c) else none)
unfolding hex_digit
digit_of_lem c = ground arith

spread : (a h p v : ℕ) → (a * 16 + h) * p + v ≡ a * (16 * p) + ((0 * 16 + h) * p + v)
spread a h p v = grind arith

hex_value_lem : (s : Bytes) (acc : ℕ) → hex_value acc s ≡ acc * 16 ^ length s + hex_value 0 s
hex_value_lem [] acc = omega arith
hex_value_lem (c ∷ s) acc =
    hex_value_lem s (acc * 16 + hex_digit c)
    ∙ (spread acc (hex_digit c) (16 ^ length s) (hex_value 0 s)
        ∙ (ap (λ n. acc * (16 * 16 ^ length s) + n) (sym (hex_value_lem s (0 * 16 + hex_digit c)))
            ∙ ap (λ p. acc * p + hex_value (0 * 16 + hex_digit c) s)
                (sym (pow-succ' 16 (length s)))))

hex_value-first :
    (c : ℕ) (s : Bytes) → hex_digit c * 16 ^ length s + hex_value 0 s ≡ hex_value 0 (c ∷ s)
hex_value-first c s =
    let first : hex_digit c ≡ 0 * 16 + hex_digit c = omega arith in
    ap (λ d. d * 16 ^ length s + hex_value 0 s) first ∙ sym (hex_value_lem s (0 * 16 + hex_digit c))

number_of_lem : (s : Bytes) → number_of s ≡ (if all_hex s then some (hex_value 0 s) else none)
unfolding all_hex
number_of_lem [] = refl
number_of_lem (c ∷ s) = elim (Bool-cases (is_hex c)) [
  | inl one ↦ elim (Bool-cases (all_hex s)) [
    | inl hex ↦
        rw (digit_of_lem c, one, number_of, number_of_lem s, hex) (ap some (hex_value-first c s))
    | inr bad ↦ rw (digit_of_lem c, one, number_of, number_of_lem s, bad)
  ]
  | inr other ↦ rw (digit_of_lem c, other, number_of)
]

-- `parse_hex_string` accepts exactly the texts of hexadecimal digits, small or capital, the empty
-- one too, and its result is the number that they write modulo 2 ^ 64: a longer number wraps
-- without an error. Digits and number are given by tables of the digits and by place values, apart
-- from the code.
pub parse_hex_string-value :
    (s : Bytes) → parse_hex_string s ≡ Option.map (λ n. n % 2 ^ 64) (number_of s)
parse_hex_string-value s = elim (Bool-cases (all_hex s)) [
  | inl hex ↦ rw (parse_hex_string-all_hex s, number_of_lem s, hex)
  | inr bad ↦ rw (parse_hex_string-all_hex s, number_of_lem s, bad)
]

pub number_of-all_hex : (s : Bytes) (n : ℕ) → number_of s ≡ some n → all_hex s ≡ true
number_of-all_hex s n h = elim (Bool-cases (all_hex s)) [
  | inl hex ↦ hex
  | inr bad ↦ let k = rw (number_of_lem s, bad) at h in cc
]

hex-Lacks_one : (d c : ℕ) → is_hex c ≡ true → is_hex d ≡ false → d ≢ c
hex-Lacks_one d c h k e = let k' = rw e at k in cc

pub all_hex-Lacks : (d : ℕ) (s : Bytes) → is_hex d ≡ false → all_hex s ≡ true → Lacks d s
unfolding all_hex
all_hex-Lacks d [] k h = tt
all_hex-Lacks d (c ∷ s) k h = elim (Bool-cases (is_hex c)) [
  | inl one ↦ (hex-Lacks_one d c one k, all_hex-Lacks d s k (rw one at h))
  | inr other ↦ let bad = rw other at h in cc
]

not_blank : (c : ℕ) → is_hex c ≡ true → has blanks c ≡ false
not_blank c h = ground arith

pub hex_first_not_of :
    (c : ℕ) (s : Bytes) → all_hex (c ∷ s) ≡ true → find_first_not_of blanks (c ∷ s) ≡ some 0
unfolding all_hex find_first_not_of
hex_first_not_of c s h = elim (Bool-cases (is_hex c)) [
  | inl one ↦ rw (not_blank c one)
  | inr other ↦ let bad = rw other at h in cc
]

pub hex_last_not_of :
    (c : ℕ) (s : Bytes) → all_hex (c ∷ s) ≡ true → find_last_not_of blanks (c ∷ s) ≡ some (length s)
unfolding all_hex find_last_not_of
hex_last_not_of c [] h = elim (Bool-cases (is_hex c)) [
  | inl one ↦ rw (not_blank c one)
  | inr other ↦ let bad = rw other at h in cc
]
hex_last_not_of c (d ∷ s) h = elim (Bool-cases (is_hex c)) [
  | inl one ↦ rw (hex_last_not_of d s (rw one at h))
  | inr other ↦ let bad = rw other at h in cc
]
