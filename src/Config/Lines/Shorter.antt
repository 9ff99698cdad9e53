-- ===== src/Config/Lines/Shorter.antt =====
-- About `read_next_line` and `expect_open_brace` of src/Config.cpp and the lines that they leave.
use web_server.Prelude.{
  ◌<◌, ◌≡◌, some, List, [], ◌∷◌, arith, length, Bool-cases, Option-cases, inl, inr, ap, Option,
}
use web_server.Bytes.{Bytes, codes, same, empty}
use web_server.Config.Lines.{clean_line, read_next_line, open_brace_in, expect_open_brace}
use web_server.Config.{Parsed, ok}

rest_of :
    (line l : Bytes) (rest m : List Bytes)
    → ◌≡◌ {A = Option (Bytes × List Bytes)} (some (l, m)) (some (line, rest))
    → m ≡ rest
rest_of line l rest m e = cc

pub read_next_line-lt :
    (lines : List Bytes) (line : Bytes) (rest : List Bytes)
    → read_next_line lines ≡ some (line, rest)
    → length rest < length lines
unfolding read_next_line
read_next_line-lt [] line rest e = cc
read_next_line-lt (l ∷ lines) line rest e = elim (Bool-cases (empty (clean_line l))) [
  | inl blank ↦ let h = read_next_line-lt lines line rest (rw blank at e) in omega arith
  | inr full ↦
      let h = ap length (rest_of line (clean_line l) rest lines (rw full at e)) in omega arith
]

ok_lines : (m rest : List Bytes) → ◌≡◌ {A = Parsed (List Bytes)} (ok m) (ok rest) → m ≡ rest
ok_lines m rest e = cc

open_brace-ok :
    (context line : Bytes) (left rest : List Bytes)
    → open_brace_in context (some (line, left)) ≡ ok rest
    → left ≡ rest
unfolding open_brace_in
open_brace-ok context line left rest e = elim (Bool-cases (same line (codes "{"))) [
  | inl brace ↦ ok_lines left rest (rw brace at e)
  | inr other ↦ let h = rw other at e in cc
]

pub expect_open_brace-lt :
    (lines : List Bytes) (context : Bytes) (rest : List Bytes)
    → expect_open_brace lines context ≡ ok rest
    → length rest < length lines
unfolding expect_open_brace open_brace_in
expect_open_brace-lt lines context rest e = elim (Option-cases (read_next_line lines)) [
  | inl end ↦ let h = rw end at e in cc
  | inr ((line, left), got) ↦
      let h = read_next_line-lt lines line left got in
      let m = ap length (open_brace-ok context line left rest (rw got at e)) in omega arith
]
