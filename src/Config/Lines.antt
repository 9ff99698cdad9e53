-- ===== src/Config/Lines.antt =====
-- The lines and the words of a configuration file, in src/Config.cpp. A stream is the list of the
-- lines that `getline` has yet to give.
pub mod Shorter
use web_server.Prelude.{
  ℕ, ◌+◌, ◌-◌, Bool, true, false, Option, none, some, List, [], ◌∷◌, ◌++◌, if◌then◌else◌, length,
  leb, take, ◌==◌,
}
use web_server.Bytes.{
  Bytes, codes, same, empty, find_char, find_first_not_of, find_last_not_of, substr,
}
use web_server.Bytes.Decimal.{is_space}
use web_server.Config.{Parsed, ok, refused}

add_byte : ℕ → List Bytes → List Bytes
add_byte c [] = (c ∷ []) ∷ []
add_byte c (line ∷ lines) = (c ∷ line) ∷ lines

-- What `getline` makes of a text.
unfoldable pub lines_of : Bytes → List Bytes
unfolding add_byte
lines_of [] = []
lines_of (c ∷ text) = if c == b'\n' then [] ∷ lines_of text else add_byte c (lines_of text)

abbrev pub blank_bytes : Bytes
blank_bytes = codes " \t\r\n"

before_hash : Bytes → Option ℕ → Bytes
before_hash line none = line
before_hash line (some hash) = take hash line

-- `end` is npos only if `start` is.
trim_to : Bytes → ℕ → Option ℕ → Bytes
trim_to line start none = []
trim_to line start (some end) = substr line start (end - start + 1)

trim_from : Bytes → Option ℕ → Bytes
unfolding trim_to
trim_from line none = []
trim_from line (some start) = trim_to line start (find_last_not_of blank_bytes line)

unfoldable pub clean_line : Bytes → Bytes
unfolding before_hash trim_from
clean_line line =
    let result = before_hash line (find_char b'#' line) in
    trim_from result (find_first_not_of blank_bytes result)

-- A `;` at the end is cut off.
unfoldable pub strip_semicolon : Bytes → Bytes
strip_semicolon [] = []
strip_semicolon (c ∷ []) = if c == b';' then [] else c ∷ []
strip_semicolon (c ∷ d ∷ line) = c ∷ strip_semicolon (d ∷ line)

flush_word : Bytes → List Bytes → List Bytes
flush_word [] words = words
flush_word (c ∷ word) words = (c ∷ word) ∷ words

-- The words of a stream, of which `word` has been read of the first.
unfoldable pub words_from : Bytes → Bytes → List Bytes
unfolding flush_word
words_from word [] = flush_word word []
words_from word (c ∷ text) =
    let next = words_from (if is_space c then [] else word ++ c ∷ []) text in
    if is_space c then flush_word word next else next

unfoldable pub tokenize : Bytes → List Bytes
tokenize line = words_from [] (strip_semicolon line)

unfoldable pub read_next_line : List Bytes → Option (Bytes × List Bytes)
read_next_line [] = none
read_next_line (line ∷ lines) =
    let out = clean_line line in if empty out then read_next_line lines else some (out, lines)

unfoldable pub expect_args : List Bytes → ℕ → Bytes → Parsed (Unit {0})
expect_args words min directive =
    if leb min (length words) then ok tt else refused (directive ++ codes " requires a value")

open_brace_in : Bytes → Option (Bytes × List Bytes) → Parsed (List Bytes)
open_brace_in context none = refused (codes "expected '{' after '" ++ (context ++ codes "'"))
open_brace_in context (some (line, rest)) =
    if same line (codes "{")
    then ok rest
    else refused
        (codes "expected '{' after '" ++ (context ++ (codes "', got '" ++ (line ++ codes "'"))))

-- The lines behind the brace.
unfoldable pub expect_open_brace : List Bytes → Bytes → Parsed (List Bytes)
unfolding open_brace_in
expect_open_brace lines context = open_brace_in context (read_next_line lines)
