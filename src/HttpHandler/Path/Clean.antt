-- ===== src/HttpHandler/Path/Clean.antt =====
-- About `sanitize_path` of src/HTTPHandler.cpp and the segments of a path.
use web_server.Prelude.{
  ℕ, ◌≡◌, refl, sym, ap, ◌∙◌, false, inl, inr, List, [], ◌∷◌, ◌++◌, append_assoc, append-nil,
  Bool-cases, ◌==◌, arith, ◌≢◌,
}
use web_server.Bytes.{Bytes, codes, same, empty}
use web_server.Bytes.Search.{Lacks, Lacks-append}
use web_server.HttpHandler.Path.{
  pop_back, process_path_segment, Parts, end_segment, next_byte, path_segments, join, sanitize_path,
}

-- A name of an entry of a directory: not empty, neither `.` nor `..`, and without a slash.
pub record IsName (s : Bytes) : Type 0 where
  pub nonempty : empty s ≡ false
  pub not_up : same s (codes "..") ≡ false
  pub not_here : same s (codes ".") ≡ false
  pub no_slash : Lacks b'/' s

abbrev pub AreNames : List Bytes → Type 0
AreNames [] = Unit
AreNames (s ∷ l) = IsName s × AreNames l

AreNames-append : (l m : List Bytes) → AreNames l → AreNames m → AreNames (l ++ m)
AreNames-append [] m h k = k
AreNames-append (s ∷ l) m h k = (h.0, AreNames-append l m h.1 k)

pop_back-AreNames : (l : List Bytes) → AreNames l → AreNames (pop_back l)
unfolding pop_back
pop_back-AreNames [] h = tt
pop_back-AreNames (s ∷ []) h = tt
pop_back-AreNames (s ∷ t ∷ l) h = (h.0, pop_back-AreNames (t ∷ l) h.1)

-- What the loop keeps.
abbrev IsParts : Parts → Type 0
IsParts p = AreNames p.0 × Lacks b'/' p.1

end_segment-AreNames : (p : Parts) → IsParts p → AreNames (end_segment p)
unfolding end_segment process_path_segment
end_segment-AreNames p h = elim (Bool-cases (empty p.1)) [
  | inl none ↦ rw none h.0
  | inr some ↦ elim (Bool-cases (same p.1 (codes ".."))) [
    | inl up ↦ rw (some, up) (pop_back-AreNames p.0 h.0)
    | inr deep ↦ elim (Bool-cases (same p.1 (codes "."))) [
      | inl here ↦ rw (some, deep, here) h.0
      | inr name ↦
          rw (some, deep, name)
            (AreNames-append p.0 (p.1 ∷ []) h.0
              (record { nonempty = some; not_up = deep; not_here = name; no_slash = h.1 }, tt))
    ]
  ]
]

next_byte-IsParts : (c : ℕ) (p : Parts) → IsParts p → IsParts (next_byte c p)
unfolding next_byte
next_byte-IsParts c p h = elim (Bool-cases (c == b'/')) [
  | inl slash ↦ rw slash (end_segment-AreNames p h, tt)
  | inr other ↦
      let ne : b'/' ≢ c = ground arith in
      rw other (h.0, Lacks-append b'/' p.1 (c ∷ []) h.1 (ne, tt))
]

path_segments-AreNames : (path : Bytes) (p : Parts) → IsParts p → AreNames (path_segments p path)
unfolding path_segments
path_segments-AreNames [] p h = end_segment-AreNames p h
path_segments-AreNames (c ∷ path) p h =
    path_segments-AreNames path (next_byte c p) (next_byte-IsParts c p h)

-- A sanitized path is a slash and names of entries with a slash between them, so none of its
-- segments leads upwards.
pub sanitize_path-AreNames :
    (path : Bytes) → (l : List Bytes) × AreNames l × (sanitize_path path ≡ b'/' ∷ join l)
unfolding sanitize_path
sanitize_path-AreNames path =
    (path_segments ([], []) path, path_segments-AreNames path ([], []) (tt, tt), refl)

-- A slash ends a segment: what stands behind it goes on with the segments so far.
segments_slash :
    (path rest : Bytes) (p : Parts)
    → path_segments p (path ++ b'/' ∷ rest) ≡ path_segments (path_segments p path, []) rest
unfolding path_segments next_byte
segments_slash [] rest p = refl
segments_slash (c ∷ path) rest p = segments_slash path rest (next_byte c p)

-- A text without a slash only makes the segment longer.
segments-Lacks :
    (s : Bytes) (l : List Bytes) (t : Bytes)
    → Lacks b'/' s
    → path_segments (l, t) s ≡ end_segment (l, t ++ s)
unfolding path_segments next_byte
segments-Lacks [] l t h = rw (append-nil t)
segments-Lacks (c ∷ s) l t h =
    let other : (c == b'/') ≡ false = ground arith in
    rw (other, ← append_assoc t (c ∷ []) s) (segments-Lacks s l (t ++ c ∷ []) h.1)

one_name : (l : List Bytes) (s : Bytes) → IsName s → path_segments (l, []) s ≡ l ++ s ∷ []
unfolding end_segment process_path_segment
one_name l s h = segments-Lacks s l [] h.no_slash ∙ rw (h.nonempty, h.not_up, h.not_here)

-- Names are read back.
names_read : (l m : List Bytes) → AreNames m → path_segments (l, []) (join m) ≡ l ++ m
names_read l [] h = unfold path_segments end_segment in sym (append-nil l)
names_read l (s ∷ []) h = one_name l s h.0
names_read l (s ∷ t ∷ m) h =
    segments_slash s (join (t ∷ m)) (l, [])
    ∙ ap (λ k. path_segments (k, []) (join (t ∷ m))) (one_name l s h.0)
    ∙ names_read (l ++ s ∷ []) (t ∷ m) h.1
    ∙ append_assoc l (s ∷ []) (t ∷ m)

-- A relative path behind a sanitized one leads where it leads behind the path itself.
pub sanitize_path-append :
    (path more : Bytes)
    → sanitize_path (sanitize_path path ++ b'/' ∷ more) ≡ sanitize_path (path ++ b'/' ∷ more)
unfolding sanitize_path path_segments next_byte end_segment
sanitize_path-append path more =
    let l = path_segments ([], []) path in
    let names = path_segments-AreNames path ([], []) (tt, tt) in
    ap (λ k. b'/' ∷ join k)
      (segments_slash (join l) more ([], [])
        ∙ ap (λ k. path_segments (k, []) more) (names_read [] l names)
        ∙ sym (segments_slash path more ([], [])))

-- Sanitizing a sanitized path changes nothing.
pub sanitize_path_twice : (path : Bytes) → sanitize_path (sanitize_path path) ≡ sanitize_path path
unfolding sanitize_path path_segments next_byte end_segment
sanitize_path_twice path =
    ap (λ k. b'/' ∷ join k)
      (names_read [] (path_segments ([], []) path) (path_segments-AreNames path ([], []) (tt, tt)))
