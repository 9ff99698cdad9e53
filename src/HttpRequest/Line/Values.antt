-- ===== src/HttpRequest/Line/Values.antt =====
-- About `trim_value`, the trimming of a header's value in `parse_headers`.
use web_server.Prelude.{
  ℕ, suc, ◌+◌, ◌-◌, ◌≡◌, refl, sym, ap, ◌∙◌, false, some, [], ◌∷◌, ◌++◌, append_assoc, arith,
  length, length-append, drop-length, take-append_le, take_all,
}
use web_server.Bytes.{Bytes, has, find_last_not_of}
use web_server.Bytes.Trim.{Within, first_not_of-Within, first_not_of_none, last_not_of-Within}
use web_server.HttpRequest.Line.{blanks, trim_between, trim_value}

abbrev last_byte : ℕ → Bytes → ℕ
last_byte c [] = c
last_byte c (d ∷ s) = last_byte d s

-- No blank at either end.
abbrev pub IsTrimmed : Bytes → Type 0
IsTrimmed [] = Unit
IsTrimmed (c ∷ s) = (has blanks c ≡ false) × (has blanks (last_byte c s) ≡ false)

but_last : ℕ → Bytes → Bytes
but_last c [] = []
but_last c (d ∷ s) = c ∷ but_last d s

but_last-last : (c : ℕ) (s : Bytes) → but_last c s ++ last_byte c s ∷ [] ≡ c ∷ s
unfolding but_last
but_last-last c [] = refl
but_last-last c (d ∷ s) = ap (◌∷◌ c) (but_last-last d s)

Within-append : (a b : Bytes) → Within blanks a → Within blanks b → Within blanks (a ++ b)
Within-append [] b h k = k
Within-append (c ∷ a) b h k = (h.0, Within-append a b h.1 k)

length-but_last : (c : ℕ) (s : Bytes) → length (but_last c s) ≡ length s
unfolding but_last
length-but_last c [] = refl
length-but_last c (d ∷ s) = ap suc (length-but_last d s)

last_of_padded :
    (before : Bytes) (c : ℕ) (s after : Bytes)
    → has blanks (last_byte c s) ≡ false
    → Within blanks after
    → find_last_not_of blanks (before ++ c ∷ (s ++ after)) ≡ some (length before + length s)
last_of_padded before c s after h k =
    let split : before ++ c ∷ (s ++ after) ≡ (before ++ but_last c s) ++ last_byte c s ∷ after =
      ap (λ l. before ++ (l ++ after)) (sym (but_last-last c s)) ∙ simp append_assoc in
    let at : length (before ++ but_last c s) ≡ length before + length s =
      length-append before (but_last c s) ∙ ap (λ n. length before + n) (length-but_last c s) in
    ap (find_last_not_of blanks) split
    ∙ last_not_of-Within blanks (before ++ but_last c s) after (last_byte c s) h k
    ∙ ap some at

-- A value is kept as it is between any blanks.
pub trim_value-padded :
    (before value after : Bytes)
    → Within blanks before
    → IsTrimmed value
    → Within blanks after
    → trim_value (before ++ (value ++ after)) ≡ value
unfolding trim_value trim_between
trim_value-padded before [] after h t k =
    rw (first_not_of_none blanks (before ++ after) (Within-append before after h k))
trim_value-padded before (c ∷ s) after h t k =
    let n : length before + length s - length before + 1 ≡ suc (length s) = omega arith in
    rw (
      first_not_of-Within blanks before (s ++ after) c h t.0,
      last_of_padded before c s after t.1 k,
      drop-length before (c ∷ (s ++ after)),
      n,
      take-append_le (length s) s after (omega arith),
      take_all s (length s) refl,
    )
