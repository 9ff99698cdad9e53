-- ===== src/HttpHandler/Post/UrlDecode.antt =====
-- About `url_decode` of src/HTTPHandler.cpp on the text of a form.
use web_server.Prelude.{
  ℕ, ◌+◌, ◌/◌, ◌%◌, ◌<◌, ◌≡◌, ◌≢◌, refl, sym, ap, ◌∙◌, ne→==, ==→eq, Bool, true, false, some, [],
  ◌∷◌, if◌then◌else◌, arith, ltb, ◌==◌, Bool-cases, inl, inr,
}
use web_server.Bytes.{Bytes}
use web_server.HttpRequest.Chunked.{is_hex, hex_digit}
use web_server.HttpHandler.Post.{read_hex, plus_or, url_decode}

-- The upper-case digit of a number below 16.
abbrev pub hex_char : ℕ → ℕ
hex_char d = if ltb d 10 then 48 + d else 55 + d

-- A byte that `safe` keeps stands for itself, any other space is a plus, and any other byte is a
-- percent sign with two digits.
abbrev pub url_encode : (ℕ → Bool) → Bytes → Bytes
url_encode safe [] = []
url_encode safe (c ∷ s) =
    if safe c
    then c ∷ url_encode safe s
    else if c == b' '
    then b'+' ∷ url_encode safe s
    else b'%' ∷ hex_char (c / 16) ∷ hex_char (c % 16) ∷ url_encode safe s

abbrev pub AreBytes : Bytes → Type 0
AreBytes [] = Unit
AreBytes (c ∷ s) = (c < 256) × AreBytes s

hex_char-is_hex : (d : ℕ) → d < 16 → is_hex (hex_char d) ≡ true
hex_char-is_hex d h = ground arith

hex_char-hex_digit : (d : ℕ) → d < 16 → hex_digit (hex_char d) ≡ d
unfolding hex_digit
hex_char-hex_digit d h = ground arith

read_hex-byte : (c : ℕ) → c < 256 → read_hex (hex_char (c / 16)) (hex_char (c % 16)) ≡ some c
unfolding read_hex
read_hex-byte c h =
    let a : c / 16 < 16 = omega arith in
    let b : c % 16 < 16 = omega arith in
    rw
      (
        hex_char-is_hex (c / 16) a,
        hex_char-is_hex (c % 16) b,
        hex_char-hex_digit (c / 16) a,
        hex_char-hex_digit (c % 16) b,
      )
      (ap some (omega arith))

-- A byte that is no percent sign.
url_decode-plain :
    (c : ℕ) (s : Bytes) → (c == b'%') ≡ false → url_decode (c ∷ s) ≡ plus_or c ∷ url_decode s
unfolding url_decode
url_decode-plain c [] h = refl
url_decode-plain c (a ∷ []) h = refl
url_decode-plain c (a ∷ b ∷ s) h = rw h

url_decode-escape :
    (c a b : ℕ) (s : Bytes)
    → read_hex a b ≡ some c
    → url_decode (b'%' ∷ a ∷ b ∷ s) ≡ c ∷ url_decode s
unfolding url_decode
url_decode-escape c a b s h = rw h

differs : (safe : ℕ → Bool) (c d : ℕ) → safe c ≡ true → safe d ≡ false → c ≢ d
differs safe c d k h e = cc

kept_differs : (safe : ℕ → Bool) (c d : ℕ) → safe c ≡ true → safe d ≡ false → (c == d) ≡ false
kept_differs safe c d k h = ne→== c d (differs safe c d k h)

plus_or-other : (c : ℕ) → (c == b'+') ≡ false → plus_or c ≡ c
unfolding plus_or
plus_or-other c h = rw h

-- A text of bytes is read back from its encoding, where, of the bytes that are not kept, a space is
-- a plus and any other is a percent sign and two digits, whichever bytes are kept as they are: any
-- but the percent sign and the plus.
pub url_decode-url_encode :
    (safe : ℕ → Bool) (s : Bytes)
    → safe b'%' ≡ false
    → safe b'+' ≡ false
    → AreBytes s
    → url_decode (url_encode safe s) ≡ s
url_decode-url_encode safe [] p q h = unfold url_decode in refl
url_decode-url_encode safe (c ∷ s) p q h = elim (Bool-cases (safe c)) [
  | inl keep ↦
      let percent : (c == b'%') ≡ false = kept_differs safe c b'%' keep p in
      let plus = plus_or-other c (kept_differs safe c b'+' keep q) in
      rw keep (
        url_decode-plain c (url_encode safe s) percent
        ∙ rw (plus, url_decode-url_encode safe s p q h.1))
  | inr escaped ↦ elim (Bool-cases (c == b' ')) [
    | inl space ↦
        rw (escaped, space)
          (url_decode-plain b'+' (url_encode safe s) refl
            ∙ rw (url_decode-url_encode safe s p q h.1)
                (ap (λ d. d ∷ s) (unfold plus_or in sym (==→eq c b' ' space))))
    | inr other ↦
        rw (escaped, other)
          (url_decode-escape c (hex_char (c / 16)) (hex_char (c % 16)) (url_encode safe s)
              (read_hex-byte c h.0)
            ∙ rw (url_decode-url_encode safe s p q h.1))
  ]
]
