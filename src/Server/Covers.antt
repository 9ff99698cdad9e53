-- ===== src/Server/Covers.antt =====
-- About the test of `match_route` of src/Server.cpp on one route.
use web_server.Prelude.{
  ◌≡◌, refl, ap, ◌∙◌, true, ◌||◌, ◌⊎◌, inl, inr, [], ◌∷◌, ◌++◌, arith, length, length-append,
  get_elem?, Bool-cases, ◌==◌,
}
use web_server.Bytes.{Bytes, codes, same, starts_with}
use web_server.Bytes.Search.{same_iff, starts_with_self}
use web_server.Config.{RouteConfig}
use web_server.Server.{is_match, slash_at, ends_with_slash}

abbrev pub EndsWithSlash : Bytes → Type 0
EndsWithSlash path = (front : Bytes) × (path ≡ front ++ b'/' ∷ [])

abbrev pub StartsWithSlash : Bytes → Type 0
StartsWithSlash rest = (behind : Bytes) × (rest ≡ b'/' ∷ behind)

-- A path covers a target that is the path, or goes on behind it where a name of the path ends.
pub record Covers (path uri : Bytes) : Type 0 where
  pub rest : Bytes
  pub joined : uri ≡ path ++ rest
  pub border : (rest ≡ []) ⊎ (StartsWithSlash rest ⊎ EndsWithSlash path)

starts_with-rest : (pat s : Bytes) → starts_with pat s ≡ true → (rest : Bytes) × (s ≡ pat ++ rest)
unfolding starts_with
starts_with-rest [] s h = (s, refl)
starts_with-rest (p ∷ pat) [] h = cc
starts_with-rest (p ∷ pat) (c ∷ s) h =
    let first : c ≡ p = ground arith in
    let others : starts_with pat s ≡ true = ground arith in
    let (rest, e) = starts_with-rest pat s others in
    (rest, ap (λ d. d ∷ s) first ∙ ap (λ l. p ∷ l) e)

ends_with_slash-EndsWithSlash : (path : Bytes) → ends_with_slash path ≡ true → EndsWithSlash path
unfolding ends_with_slash
ends_with_slash-EndsWithSlash [] h = cc
ends_with_slash-EndsWithSlash (c ∷ []) h = ([], ap (λ d. d ∷ []) (ground arith))
ends_with_slash-EndsWithSlash (c ∷ d ∷ path) h =
    let (front, e) = ends_with_slash-EndsWithSlash (d ∷ path) h in (c ∷ front, ap (λ l. c ∷ l) e)

ends_with_slash-append : (front : Bytes) → ends_with_slash (front ++ b'/' ∷ []) ≡ true
unfolding ends_with_slash
ends_with_slash-append [] = refl
ends_with_slash-append (c ∷ []) = refl
ends_with_slash-append (c ∷ d ∷ front) = ends_with_slash-append (d ∷ front)

get_elem?-rest : (path rest : Bytes) → get_elem? (path ++ rest) (length path) ≡ get_elem? rest 0
get_elem?-rest [] rest = refl
get_elem?-rest (c ∷ path) rest = get_elem?-rest path rest

slash_at-StartsWithSlash :
    (rest : Bytes) → slash_at (get_elem? rest 0) ≡ true → StartsWithSlash rest
unfolding slash_at
slash_at-StartsWithSlash [] h = cc
slash_at-StartsWithSlash (c ∷ rest) h = (rest, ap (λ d. d ∷ rest) (ground arith))

no_rest : (path rest : Bytes) → (length (path ++ rest) == length path) ≡ true → rest ≡ []
no_rest path [] h = refl
no_rest path (c ∷ rest) h = let l = length-append path (c ∷ rest) in ground arith

-- The test behind the prefix.
Meets : Bytes → Bytes → Type 0
Meets path rest =
    ((length (path ++ rest) == length path
        || slash_at (get_elem? (path ++ rest) (length path))
        || same path (codes "/")
        || ends_with_slash path)
      ≡ true)

Meets-border :
    (path rest : Bytes)
    → Meets path rest
    → (rest ≡ []) ⊎ (StartsWithSlash rest ⊎ EndsWithSlash path)
unfolding Meets
Meets-border path rest h = elim (Bool-cases (length (path ++ rest) == length path)) [
  | inl whole ↦ inl (no_rest path rest whole)
  | inr a ↦ elim (Bool-cases (slash_at (get_elem? (path ++ rest) (length path)))) [
    | inl slash ↦ inr (inl (slash_at-StartsWithSlash rest (rw (get_elem?-rest path rest) at slash)))
    | inr b ↦ elim (Bool-cases (same path (codes "/"))) [
      | inl root ↦ inr (inr ([], (same_iff path (codes "/")).0 root))
      | inr c ↦ inr (inr (ends_with_slash-EndsWithSlash path (rw (a, b, c) at h)))
    ]
  ]
]

border-Meets :
    (path rest : Bytes)
    → (rest ≡ []) ⊎ (StartsWithSlash rest ⊎ EndsWithSlash path)
    → Meets path rest
unfolding Meets slash_at
border-Meets path rest (inl none) =
    let l = length-append path rest in let e : length rest ≡ 0 = ap length none in ground arith
border-Meets path rest (inr (inl (behind, e))) =
    let at = get_elem?-rest path rest in rw (at, e) (ground arith)
border-Meets path rest (inr (inr (front, e))) = rw (e, ends_with_slash-append front) (ground arith)

pub is_match-Covers : (uri : Bytes) (r : RouteConfig) → is_match uri r ≡ true → Covers r.path uri
unfolding is_match
is_match-Covers uri r h =
    let prefix : starts_with r.path uri ≡ true = ground arith in
    let (rest, e) = starts_with-rest r.path uri prefix in
    record {
      rest = rest;
      joined = e;
      border = Meets-border r.path rest (unfold Meets in rw e at (rw prefix at h));
    }

pub Covers-is_match : (uri : Bytes) (r : RouteConfig) → Covers r.path uri → is_match uri r ≡ true
unfolding is_match
Covers-is_match uri r h =
    rw (h.joined, starts_with_self r.path h.rest)
      (unfold Meets in border-Meets r.path h.rest h.border)
