-- ===== src/Bytes.antt =====
-- The parts of <string>, <cctype> that the program uses, over lists of bytes. A position is an
-- `Option`: `none` is `std::string::npos`.
pub mod Search
pub mod Trim
pub mod Decimal
use Prim.Native.Char.{code}
use Prim.Native.String.{String}
use web_server.Prelude.{
  ℕ, suc, ◌+◌, ◌-◌, Bool, true, false, not, ◌&&◌, ◌||◌, Option, none, some, List, [], ◌∷◌, ◌++◌,
  leb, ◌==◌, if◌then◌else◌, take, drop,
}

abbrev pub Bytes : Type 0
Bytes = List ℕ

-- The bytes of a literal; every literal of the program is ASCII.
abbrev pub codes : String → Bytes
codes String.[] = []
codes (String.◌∷◌ c s) = code c ∷ codes s

abbrev pub crlf : Bytes
crlf = 13 ∷ 10 ∷ []

-- operator==
unfoldable pub same : Bytes → Bytes → Bool
same [] [] = true
same (x ∷ xs) (y ∷ ys) = x == y && same xs ys
same _ _ = false

-- str.empty()
abbrev pub empty : Bytes → Bool
empty [] = true
empty (_ ∷ _) = false

-- str.compare(0, pat.size(), pat) == 0
unfoldable pub starts_with : Bytes → Bytes → Bool
starts_with [] s = true
starts_with (p ∷ pat) [] = false
starts_with (p ∷ pat) (c ∷ s) = p == c && starts_with pat s

abbrev pub shift : Option ℕ → Option ℕ
shift none = none
shift (some i) = some (suc i)

-- str.find(pat)
unfoldable pub find : Bytes → Bytes → Option ℕ
unfolding starts_with
find pat [] = if starts_with pat [] then some 0 else none
find pat (c ∷ s) = if starts_with pat (c ∷ s) then some 0 else shift (find pat s)

-- str.find(c), for one character
unfoldable pub find_char : ℕ → Bytes → Option ℕ
find_char c [] = none
find_char c (d ∷ s) = if c == d then some 0 else shift (find_char c s)

abbrev add_start : ℕ → Option ℕ → Option ℕ
add_start n none = none
add_start n (some i) = some (n + i)

-- str.find(pat, start) and str.find(c, start)
unfoldable pub find_from : Bytes → Bytes → ℕ → Option ℕ
unfolding find
find_from pat s start = add_start start (find pat (drop start s))

unfoldable pub find_char_from : ℕ → Bytes → ℕ → Option ℕ
unfolding find_char
find_char_from c s start = add_start start (find_char c (drop start s))

abbrev pub has : Bytes → ℕ → Bool
has [] c = false
has (d ∷ set) c = d == c || has set c

-- str.find_first_not_of(set) and str.find_last_not_of(set)
unfoldable pub find_first_not_of : Bytes → Bytes → Option ℕ
find_first_not_of set [] = none
find_first_not_of set (c ∷ s) = if has set c then shift (find_first_not_of set s) else some 0

abbrev last_of : Bool → Option ℕ → Option ℕ
last_of b (some i) = some (suc i)
last_of b none = if b then none else some 0

unfoldable pub find_last_not_of : Bytes → Bytes → Option ℕ
find_last_not_of set [] = none
find_last_not_of set (c ∷ s) = last_of (has set c) (find_last_not_of set s)

-- str.substr(pos, n)
abbrev pub substr : Bytes → ℕ → ℕ → Bytes
substr s pos n = take n (drop pos s)

-- std::tolower in the C locale
unfoldable pub tolower : ℕ → ℕ
tolower c = if leb b'A' c && leb c b'Z' then c + 32 else c

abbrev pub is_some {ℓ} : {A : Type ℓ} → Option A → Bool
is_some none = false
is_some (some _) = true

-- str.find(pat) != npos
abbrev pub contains : Bytes → Bytes → Bool
contains pat s = is_some (find pat s)
