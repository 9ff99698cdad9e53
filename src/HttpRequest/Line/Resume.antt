-- ===== src/HttpRequest/Line/Resume.antt =====
-- About `parse_request_line` and `parse_headers`, called on the pieces of an input.
use web_server.Prelude.{
  ℕ, ◌+◌, ◌<◌, ◌≡◌, refl, ap, ◌∙◌, true, false, ◌⊎◌, inl, inr, Option, none, some, [], ◌∷◌, ◌++◌,
  arith, take, length-drop, take-append_le, drop-append_le, Option-cases,
}
use web_server.Prelude.Loop.{again, done, Falls, run_inv}
use web_server.Bytes.{Bytes, crlf, find}
use web_server.Bytes.Search.{find_bound, find-append}
use web_server.HttpRequest.{HttpRequest, new_request, is_parssing_error, extend}
use web_server.HttpRequest.Resume.{
  Result, Turn, resume_at, resume_turn, IsLive, Resumes, run-Resumes,
}
use web_server.HttpRequest.Line.{
  fail, erase_line, request_line_parts, second_space_at, first_space_at, request_line_at,
  parse_request_line, header_colon_at, header_line, header_line_at, headers_round, buffered,
  parse_headers,
}

-- More input does not change the line that is found, and stays behind it.
pub line_extend :
    (s : HttpRequest) (more : Bytes) (pos : ℕ)
    → find crlf s.buffer ≡ some pos
    → (find crlf (s.buffer ++ more) ≡ some pos)
      × (take pos (s.buffer ++ more) ≡ take pos s.buffer)
      × (erase_line pos (extend s more) ≡ extend (erase_line pos s) more)
line_extend s more pos e =
    let b = find_bound crlf s.buffer pos e in
    (
      find-append crlf s.buffer more pos e,
      take-append_le pos s.buffer more (omega arith),
      ap (λ l. record s { buffer = l }) (drop-append_le (pos + 2) s.buffer more (omega arith)),
    )

pub buffered-erase_line :
    (s : HttpRequest) (pos : ℕ)
    → find crlf s.buffer ≡ some pos
    → buffered (erase_line pos s) < buffered s
buffered-erase_line s pos e =
    let b = find_bound crlf s.buffer pos e in omega (arith, length-drop (pos + 2) s.buffer)

first_space_at-Resumes :
    (f : HttpRequest → Result) (line : Bytes) (o : Option ℕ) (s : HttpRequest) (more : Bytes)
    → first_space_at line o (extend s more) ≡ resume_at f (first_space_at line o s) more
unfolding first_space_at second_space_at request_line_parts
first_space_at-Resumes f line none s more = refl
first_space_at-Resumes f line (some i) s more = ground arith

pub parse_request_line-Resumes : Resumes parse_request_line
unfolding parse_request_line request_line_at
parse_request_line-Resumes s more live = elim (Option-cases (find crlf s.buffer)) [
  | inl e ↦ rw (e, live)
  | inr (pos, e) ↦
      let (found, line, rest) = line_extend s more pos e in
      rw (e, found, line, rest) (first_space_at-Resumes parse_request_line _ _ _ more)
]

first_space_at-false :
    (line : Bytes) (o : Option ℕ) (s t : HttpRequest)
    → first_space_at line o s ≡ (false, t)
    → is_parssing_error t.state ≡ true
unfolding first_space_at second_space_at request_line_parts
first_space_at-false line none s t e = ground arith
first_space_at-false line (some i) s t e = ground arith

pub parse_request_line-state :
    (s t : HttpRequest)
    → parse_request_line s ≡ (false, t)
    → (is_parssing_error t.state ≡ true) ⊎ (t.state ≡ s.state)
unfolding parse_request_line request_line_at
parse_request_line-state s t e = elim (Option-cases (find crlf s.buffer)) [
  | inl absent ↦ ground arith
  | inr (pos, found) ↦ inl (first_space_at-false _ _ (erase_line pos s) t (rw found at e))
]

-- A header line is stored, or ends the headers, or is an error; the rest of the parser stays.
header_line-again :
    (line : Bytes) (r t : HttpRequest)
    → header_line line r ≡ again t
    → (t.buffer ≡ r.buffer) × (t.state ≡ r.state)
unfolding header_line header_colon_at
header_line-again [] r t e = cc
header_line-again (c ∷ line) r t e = ground arith

header_line-done :
    (line : Bytes) (r : HttpRequest) (v : Result)
    → header_line line r ≡ done v
    → (v ≡ (true, r)) ⊎ (v ≡ fail r)
unfolding header_line header_colon_at
header_line-done [] r v e = ground arith
header_line-done (c ∷ line) r v e = ground arith

header_line-extend :
    (line : Bytes) (f : HttpRequest → Turn) (r : HttpRequest) (more : Bytes)
    → header_line line (extend r more) ≡ resume_turn f (header_line line r) more
unfolding header_line header_colon_at
header_line-extend [] f r more = refl
header_line-extend (c ∷ line) f r more = ground arith

pub headers-Falls : Falls buffered headers_round
unfolding headers_round header_line_at
headers-Falls s t e = elim (Option-cases (find crlf s.buffer)) [
  | inl absent ↦ ground arith
  | inr (pos, found) ↦
      let b = buffered-erase_line s pos found in
      let (same_buffer, _) =
        header_line-again (take pos s.buffer) (erase_line pos s) t (rw found at e) in
      rw same_buffer b
]

headers_keep_state : (s t : HttpRequest) → headers_round s ≡ again t → t.state ≡ s.state
unfolding headers_round header_line_at
headers_keep_state s t e = elim (Option-cases (find crlf s.buffer)) [
  | inl absent ↦ ground arith
  | inr (pos, found) ↦
      (header_line-again (take pos s.buffer) (erase_line pos s) t (rw found at e)).1
]

headers_stop_state :
    (s : HttpRequest) (v : Result)
    → headers_round s ≡ done v
    → (v.1.state ≡ s.state) ⊎ (is_parssing_error v.1.state ≡ true)
unfolding headers_round header_line_at
headers_stop_state s v e = elim (Option-cases (find crlf s.buffer)) [
  | inl absent ↦ ground arith
  | inr (pos, found) ↦
      ground (arith, header_line-done (take pos s.buffer) (erase_line pos s) v (rw found at e))
]

headers_turns :
    (s : HttpRequest) (more : Bytes)
    → IsLive s
    → headers_round (extend s more) ≡ resume_turn headers_round (headers_round s) more
unfolding headers_round header_line_at
headers_turns s more live = elim (Option-cases (find crlf s.buffer)) [
  | inl e ↦ rw (e, live)
  | inr (pos, e) ↦
      let (found, line, rest) = line_extend s more pos e in
      rw (e, found, line, rest) (header_line-extend _ headers_round _ more)
]

pub parse_headers-Resumes : Resumes parse_headers
unfolding parse_headers
parse_headers-Resumes s more live =
    run-Resumes buffered (false, new_request) headers_round headers-Falls IsLive
      (λ u t ok e. rw (headers_keep_state u t e) ok) headers_turns s more live

-- The stage is left only by an error.
pub parse_headers-state :
    (s : HttpRequest)
    → (is_parssing_error (parse_headers s).1.state ≡ true) ⊎ ((parse_headers s).1.state ≡ s.state)
unfolding parse_headers
parse_headers-state s =
    run_inv buffered (false, new_request) headers_round headers-Falls (λ t. t.state ≡ s.state)
      (λ v. (is_parssing_error v.1.state ≡ true) ⊎ (v.1.state ≡ s.state))
      (λ u t p e. headers_keep_state u t e ∙ p)
      (λ u v p e. ground (arith, headers_stop_state u v e)) s refl
