-- ===== src/Client/Decoder/Hex.antt =====
-- About the digit loop of `decode_chunked_for_cgi` in src/Client.cpp, beside `parse_hex_string` of
-- src/HTTPRequest.cpp.
use web_server.Prelude.{
  ℕ, ◌+◌, ◌*◌, ◌%◌, ◌≡◌, refl, ap, ◌∙◌, inl, inr, none, some, [], ◌∷◌, arith, if◌then◌else◌,
  Bool-cases,
}
use web_server.Bytes.{Bytes}
use web_server.HttpRequest.Chunked.{
  is_hex, all_hex, hex_digit, size_mod, hex_from, parse_hex_string,
}
use web_server.Client.Decoder.{decode_hex, add_digit, digit_or_none}

digit_is_hex : (c : ℕ) → digit_or_none c ≡ (if is_hex c then some (hex_digit c) else none)
unfolding hex_digit
digit_is_hex c = ground arith

decode_hex-none : (s : Bytes) → decode_hex none s ≡ none
unfolding decode_hex
decode_hex-none s = refl

wrapped_once : (n d : ℕ) → ((n * 16) % size_mod + d) % size_mod ≡ (n * 16 + d) % size_mod
wrapped_once n d = omega arith

decode_hex-from :
    (s : Bytes) (n : ℕ) → decode_hex (some n) s ≡ (if all_hex s then some (hex_from n s) else none)
unfolding decode_hex add_digit all_hex hex_from
decode_hex-from [] n = refl
decode_hex-from (c ∷ s) n = elim (Bool-cases (is_hex c)) [
  | inl e ↦
      ap (λ o. decode_hex (add_digit n o) s) {y = some (hex_digit c)} (digit_is_hex c ∙ rw e)
      ∙ ap (λ k. decode_hex (some k) s) (wrapped_once n (hex_digit c))
      ∙ rw e (decode_hex-from s ((n * 16 + hex_digit c) % size_mod))
  | inr e ↦
      ap (λ o. decode_hex (add_digit n o) s) {y = none} (digit_is_hex c ∙ rw e)
      ∙ rw e (decode_hex-none s)
]

-- On every text the loop over the digits and `parse_hex_string` have the same result: both refuse
-- it, or both read the same number.
pub decode_hex-parse_hex_string : (s : Bytes) → decode_hex (some 0) s ≡ parse_hex_string s
unfolding parse_hex_string
decode_hex-parse_hex_string s = decode_hex-from s 0
