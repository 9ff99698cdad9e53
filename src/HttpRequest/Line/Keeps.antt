-- ===== src/HttpRequest/Line/Keeps.antt =====
-- About the fields that `parse_request_line` and `parse_headers` do not write.
use web_server.Prelude.{
  ℕ, ◌≡◌, refl, ◌∙◌, false, inl, inr, Option, none, some, [], ◌∷◌, arith, Option-cases, take,
}
use web_server.Prelude.Loop.{again, done, run_inv}
use web_server.Bytes.{Bytes, crlf, find}
use web_server.HttpRequest.{HttpRequest, new_request}
use web_server.HttpRequest.Resume.{Result}
use web_server.HttpRequest.Line.{
  erase_line, request_line_parts, second_space_at, first_space_at, request_line_at,
  parse_request_line, header_colon_at, header_line, header_line_at, headers_round, buffered,
  parse_headers,
}
use web_server.HttpRequest.Line.Resume.{headers-Falls}

-- The body, its limit and the state of the chunk decoder.
pub record KeepsBody (s t : HttpRequest) : Type 0 where
  pub body : t.body ≡ s.body
  pub max_body_size : t.max_body_size ≡ s.max_body_size
  pub body_too_large : t.body_too_large ≡ s.body_too_large
  pub chunked_state : t.chunked_state ≡ s.chunked_state

pub KeepsBody-trans : (s t u : HttpRequest) → KeepsBody s t → KeepsBody t u → KeepsBody s u
KeepsBody-trans s t u p q = record {
  body = q.body ∙ p.body;
  max_body_size = q.max_body_size ∙ p.max_body_size;
  body_too_large = q.body_too_large ∙ p.body_too_large;
  chunked_state = q.chunked_state ∙ p.chunked_state;
}

first_space_at-KeepsBody :
    (line : Bytes) (o : Option ℕ) (s : HttpRequest) → KeepsBody s (first_space_at line o s).1
unfolding first_space_at second_space_at request_line_parts
first_space_at-KeepsBody line none s = ground arith
first_space_at-KeepsBody line (some i) s = ground arith

pub parse_request_line-KeepsBody : (s : HttpRequest) → KeepsBody s (parse_request_line s).1
unfolding parse_request_line request_line_at
parse_request_line-KeepsBody s = elim (Option-cases (find crlf s.buffer)) [
  | inl absent ↦ ground arith
  | inr (pos, found) ↦ rw found (
      KeepsBody-trans s (erase_line pos s) _
        (record { body = refl; max_body_size = refl; body_too_large = refl; chunked_state = refl })
        (first_space_at-KeepsBody _ _ (erase_line pos s)))
]

header_line-KeepsBody :
    (line : Bytes) (s : HttpRequest)
    → ((t : HttpRequest) → header_line line s ≡ again t → KeepsBody s t)
      × ((v : Result) → header_line line s ≡ done v → KeepsBody s v.1)
unfolding header_line header_colon_at
header_line-KeepsBody [] s = ground arith
header_line-KeepsBody (c ∷ line) s = ground arith

erased : (pos : ℕ) (s : HttpRequest) → KeepsBody s (erase_line pos s)
erased pos s = record {
  body = refl;
  max_body_size = refl;
  body_too_large = refl;
  chunked_state = refl;
}

headers_again : (s t : HttpRequest) → headers_round s ≡ again t → KeepsBody s t
unfolding headers_round header_line_at
headers_again s t e = elim (Option-cases (find crlf s.buffer)) [
  | inl absent ↦ ground arith
  | inr (pos, found) ↦
      KeepsBody-trans s (erase_line pos s) t (erased pos s)
        ((header_line-KeepsBody (take pos s.buffer) (erase_line pos s)).0 t (rw found at e))
]

headers_done : (s : HttpRequest) (v : Result) → headers_round s ≡ done v → KeepsBody s v.1
unfolding headers_round header_line_at
headers_done s v e = elim (Option-cases (find crlf s.buffer)) [
  | inl absent ↦ ground arith
  | inr (pos, found) ↦
      KeepsBody-trans s (erase_line pos s) v.1 (erased pos s)
        ((header_line-KeepsBody (take pos s.buffer) (erase_line pos s)).1 v (rw found at e))
]

pub parse_headers-KeepsBody : (s : HttpRequest) → KeepsBody s (parse_headers s).1
unfolding parse_headers
parse_headers-KeepsBody s =
    run_inv buffered (false, new_request) headers_round headers-Falls (KeepsBody s)
      (λ v. KeepsBody s v.1) (λ u t p e. KeepsBody-trans s u t p (headers_again u t e))
      (λ u v p e. KeepsBody-trans s u v.1 p (headers_done u v e)) s
      (record { body = refl; max_body_size = refl; body_too_large = refl; chunked_state = refl })
