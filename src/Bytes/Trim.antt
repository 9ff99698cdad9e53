-- ===== src/Bytes/Trim.antt =====
-- Cutting blanks off both ends by `find_first_not_of` and `find_last_not_of`.
use web_server.Prelude.{ℕ, ◌≡◌, refl, true, false, none, some, [], ◌∷◌, ◌++◌, length}
use web_server.Bytes.{Bytes, has, find_first_not_of, find_last_not_of}

-- Every byte of the text is one of the set.
abbrev pub Within : Bytes → Bytes → Type 0
Within set [] = Unit
Within set (c ∷ s) = (has set c ≡ true) × Within set s

pub first_not_of-Within :
    (set a b : Bytes) (c : ℕ)
    → Within set a
    → has set c ≡ false
    → find_first_not_of set (a ++ c ∷ b) ≡ some (length a)
unfolding find_first_not_of
first_not_of-Within set [] b c h k = rw k
first_not_of-Within set (d ∷ a) b c h k = rw (h.0, first_not_of-Within set a b c h.1 k)

pub first_not_of_none : (set a : Bytes) → Within set a → find_first_not_of set a ≡ none
unfolding find_first_not_of
first_not_of_none set [] h = refl
first_not_of_none set (d ∷ a) h = rw (h.0, first_not_of_none set a h.1)

pub last_not_of_none : (set a : Bytes) → Within set a → find_last_not_of set a ≡ none
unfolding find_last_not_of
last_not_of_none set [] h = refl
last_not_of_none set (d ∷ a) h = rw (last_not_of_none set a h.1, h.0)

pub last_not_of-Within :
    (set a b : Bytes) (c : ℕ)
    → has set c ≡ false
    → Within set b
    → find_last_not_of set (a ++ c ∷ b) ≡ some (length a)
unfolding find_last_not_of
last_not_of-Within set [] b c k h = rw (last_not_of_none set b h, k)
last_not_of-Within set (d ∷ a) b c k h = rw (last_not_of-Within set a b c k h)
