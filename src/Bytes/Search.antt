-- ===== src/Bytes/Search.antt =====
-- About `find`, `find_char` and `starts_with` of Bytes: places and prefixes.
use web_server.Prelude.{
  ℕ, suc, ◌+◌, ◌≤◌, ◌<◌, ◌≡◌, ◌≢◌, refl, true, Option, none, some, [], ◌∷◌, ◌++◌, arith, length,
  ◌==◌, Bool-cases, inl, inr, ◌↔◌, ==-refl, ne→==,
}
use web_server.Bytes.{Bytes, crlf, same, starts_with, find, find_char, shift}

-- No byte of the text is `c`.
abbrev pub Lacks : ℕ → Bytes → Type 0
Lacks c [] = Unit
Lacks c (d ∷ s) = (c ≢ d) × Lacks c s

pub same_iff : (a b : Bytes) → (same a b ≡ true) ↔ (a ≡ b)
unfolding same
same_iff (x ∷ a) (y ∷ b) = ground (arith, same_iff a b)
same_iff _ _ = ground arith

pub same_refl : (a : Bytes) → same a a ≡ true
same_refl a = (same_iff a a).1 refl

pub length-starts_with : (pat s : Bytes) → starts_with pat s ≡ true → length pat ≤ length s
unfolding starts_with
length-starts_with [] s h = omega arith
length-starts_with (p ∷ pat) [] h = cc
length-starts_with (p ∷ pat) (c ∷ s) h = ground (arith, length-starts_with pat s)

-- A text as long as the pattern decides the test.
pub starts_with-append :
    (pat s x : Bytes) → length pat ≤ length s → starts_with pat (s ++ x) ≡ starts_with pat s
unfolding starts_with
starts_with-append [] s x h = refl
starts_with-append (p ∷ pat) [] x h = elim h [ ]
starts_with-append (p ∷ pat) (c ∷ s) x h = rw (starts_with-append pat s x (omega arith))

pub starts_with_self : (pat x : Bytes) → starts_with pat (pat ++ x) ≡ true
unfolding starts_with
starts_with_self [] x = refl
starts_with_self (p ∷ pat) x = ground (arith, starts_with_self pat x)

shift-some : (o : Option ℕ) {i : ℕ} → shift o ≡ some i → (j : ℕ) × (o ≡ some j) × (i ≡ suc j)
shift-some none h = cc
shift-some (some j) h = (j, refl, cc)

-- What stands at the place that is found.
pub find_bound : (pat s : Bytes) (i : ℕ) → find pat s ≡ some i → i + length pat ≤ length s
unfolding find
find_bound pat [] i h = elim (Bool-cases (starts_with pat [])) [
  | inl e ↦ ground (arith, length-starts_with pat [])
  | inr e ↦ ground arith
]
find_bound pat (c ∷ s) i h = elim (Bool-cases (starts_with pat (c ∷ s))) [
  | inl e ↦ ground (arith, length-starts_with pat (c ∷ s))
  | inr e ↦
      let (j, q, k) = shift-some (find pat s) (rw e at h) in
      let b = find_bound pat s j q in omega arith
]

pub find-append : (pat s x : Bytes) (i : ℕ) → find pat s ≡ some i → find pat (s ++ x) ≡ some i
unfolding find
find-append pat [] [] i h = h
find-append pat [] (y ∷ x) i h = elim (Bool-cases (starts_with pat [])) [
  | inl e ↦
      let l = length-starts_with pat [] e in rw (starts_with-append pat [] (y ∷ x) l, e) (rw e at h)
  | inr e ↦ ground arith
]
find-append pat (c ∷ s) x i h = elim (Bool-cases (starts_with pat (c ∷ s))) [
  | inl e ↦ rw (starts_with-append pat (c ∷ s) x (length-starts_with pat (c ∷ s) e), e) (rw e at h)
  | inr e ↦
      let (j, q, k) = shift-some (find pat s) (rw e at h) in
      let b = find_bound pat s j q in
      rw (starts_with-append pat (c ∷ s) x (omega arith), e, find-append pat s x j q) (rw k)
]

pub find_char_bound : (c : ℕ) (s : Bytes) (i : ℕ) → find_char c s ≡ some i → i < length s
unfolding find_char
find_char_bound c [] i h = cc
find_char_bound c (d ∷ s) i h = elim (Bool-cases (c == d)) [
  | inl e ↦ ground arith
  | inr e ↦
      let (j, q, k) = shift-some (find_char c s) (rw e at h) in
      let b = find_char_bound c s j q in omega arith
]

-- The first place: nothing in front of it is the character.
pub find_char-Lacks : (c : ℕ) (a b : Bytes) → Lacks c a → find_char c (a ++ c ∷ b) ≡ some (length a)
unfolding find_char
find_char-Lacks c [] b h = rw (==-refl c)
find_char-Lacks c (d ∷ a) b h = rw (ne→== c d h.0, find_char-Lacks c a b h.1)

pub find_char-none : (c : ℕ) (a : Bytes) → Lacks c a → find_char c a ≡ none
unfolding find_char
find_char-none c [] h = refl
find_char-none c (d ∷ a) h = rw (ne→== c d h.0, find_char-none c a h.1)

pub Lacks-append : (c : ℕ) (a b : Bytes) → Lacks c a → Lacks c b → Lacks c (a ++ b)
Lacks-append c [] b h k = k
Lacks-append c (d ∷ a) b h k = (h.0, Lacks-append c a b h.1 k)

-- A line ends at the first CRLF behind it.
pub find-crlf : (a b : Bytes) → Lacks 13 a → find crlf (a ++ (crlf ++ b)) ≡ some (length a)
unfolding find starts_with
find-crlf [] b h = refl
find-crlf (d ∷ a) b h = rw (ne→== 13 d h.0, find-crlf a b h.1)
