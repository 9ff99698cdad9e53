-- ===== src/HttpRequest/Chunked/Steps.antt =====
-- About each chunk step of src/HTTPRequest.cpp, with less and with more input.
use web_server.Prelude.{
  ℕ, ◌-◌, ◌≤◌, ◌<◌, ◌≡◌, refl, true, false, inl, inr, some, [], ◌∷◌, ◌++◌, append_assoc, arith,
  length, take, length-append, take-append_le, take-append_ge, drop-append_le, drop-append_ge,
  leb→le, leb→lt, le→leb, leb, Bool-cases, Option-cases,
}
use web_server.Prelude.Loop.{again, done, Falls}
use web_server.Bytes.{Bytes, crlf, find}
use web_server.HttpRequest.{HttpRequest, new_request, extend}
use web_server.HttpRequest.Resume.{
  Result, Turn, resume_at, resume_turn, IsLive, Resumes, run-Resumes,
}
use web_server.HttpRequest.Line.{erase_line, buffered}
use web_server.HttpRequest.Line.Resume.{line_extend, buffered-erase_line}
use web_server.HttpRequest.Chunked.{
  chunk_size_value, chunk_size_trimmed, chunk_size_line, chunk_size_at, parse_chunk_size,
  check_body_size, parse_chunk_data, chunk_taken, chunk_part_taken, chunk_crlf_in,
  parse_chunk_data_crlf, trailer_line, trailer_at, trailers_round, parse_chunk_trailers,
}

chunk_size_line-Resumes :
    (f : HttpRequest → Result) (line : Bytes) (s : HttpRequest) (more : Bytes)
    → chunk_size_line line (extend s more) ≡ resume_at f (chunk_size_line line s) more
unfolding chunk_size_line chunk_size_trimmed chunk_size_value
chunk_size_line-Resumes f line s more = ground arith

pub parse_chunk_size-Resumes : Resumes parse_chunk_size
unfolding parse_chunk_size chunk_size_at
parse_chunk_size-Resumes s more live = elim (Option-cases (find crlf s.buffer)) [
  | inl e ↦ rw (e, live)
  | inr (pos, e) ↦
      let (found, line, rest) = line_extend s more pos e in
      rw (e, found, line, rest) (chunk_size_line-Resumes parse_chunk_size _ _ more)
]

check_body_size-Resumes :
    (f : HttpRequest → Result) (s : HttpRequest) (more : Bytes)
    → check_body_size (extend s more) ≡ resume_at f (check_body_size s) more
unfolding check_body_size
check_body_size-Resumes f s more = ground arith

chunk_taken-extend :
    (s : HttpRequest) (more : Bytes)
    → s.chunk_remaining ≤ length s.buffer
    → chunk_taken (extend s more) ≡ extend (chunk_taken s) more
chunk_taken-extend s more h = rw (
  take-append_le s.chunk_remaining s.buffer more h,
  drop-append_le s.chunk_remaining s.buffer more h,
)

-- What is taken of a chunk in two parts.
chunk_taken_later :
    (s : HttpRequest) (more : Bytes)
    → length s.buffer < s.chunk_remaining
    → chunk_taken (extend s more) ≡ chunk_taken (extend (chunk_part_taken s) more)
chunk_taken_later s more h = rw (
  take-append_ge s.chunk_remaining s.buffer more (omega arith),
  drop-append_ge s.chunk_remaining s.buffer more (omega arith),
  ← append_assoc,
)

chunk_part_taken_later :
    (s : HttpRequest) (more : Bytes)
    → chunk_part_taken (extend s more) ≡ chunk_part_taken (extend (chunk_part_taken s) more)
chunk_part_taken_later s more =
    let left : s.chunk_remaining - length (s.buffer ++ more)
        ≡ s.chunk_remaining - length s.buffer - length more =
      omega (arith, length-append s.buffer more) in
    rw (left, append_assoc)

part_test :
    (s : HttpRequest) (more : Bytes)
    → length s.buffer < s.chunk_remaining
    → leb s.chunk_remaining (length (s.buffer ++ more))
      ≡ leb (s.chunk_remaining - length s.buffer) (length more)
part_test s more h = ground (arith, length-append s.buffer more)

pub parse_chunk_data-Resumes : Resumes parse_chunk_data
unfolding parse_chunk_data
parse_chunk_data-Resumes s more live = elim (Bool-cases (leb s.chunk_remaining (length s.buffer))) [
  | inl all ↦
      let h = leb→le _ _ all in
      let all' =
        le→leb s.chunk_remaining (length (s.buffer ++ more))
          (omega (arith, length-append s.buffer more)) in
      rw (all, all', chunk_taken-extend s more h)
        (check_body_size-Resumes parse_chunk_data (chunk_taken s) more)
  | inr part ↦
      let h = leb→lt _ _ part in
      rw (part, live, part_test s more h, chunk_taken_later s more h, chunk_part_taken_later s more)
]

crlf_cases :
    (f : HttpRequest → Result) (l : Bytes) (s : HttpRequest) (more : Bytes)
    → s.buffer ≡ l
    → IsLive s
    → chunk_crlf_in (l ++ more) (extend s more)
      ≡ resume_at (λ t. chunk_crlf_in t.buffer t) (chunk_crlf_in l s) more
unfolding chunk_crlf_in
crlf_cases f [] s more e live = rw (live, e)
crlf_cases f (a ∷ []) s more e live = rw (live, e)
crlf_cases f (a ∷ b ∷ l) s more e live = ground arith

pub parse_chunk_data_crlf-Resumes : Resumes parse_chunk_data_crlf
unfolding parse_chunk_data_crlf
parse_chunk_data_crlf-Resumes s more live =
    crlf_cases parse_chunk_data_crlf s.buffer s more refl live

trailer_line-extend :
    (line : Bytes) (f : HttpRequest → Turn) (r : HttpRequest) (more : Bytes)
    → trailer_line line (extend r more) ≡ resume_turn f (trailer_line line r) more
unfolding trailer_line
trailer_line-extend [] f r more = refl
trailer_line-extend (c ∷ line) f r more = refl

trailer_line-again : (line : Bytes) (r t : HttpRequest) → trailer_line line r ≡ again t → t ≡ r
unfolding trailer_line
trailer_line-again [] r t e = cc
trailer_line-again (c ∷ line) r t e = cc

trailer_line-done :
    (line : Bytes) (r : HttpRequest) (v : Result) → trailer_line line r ≡ done v → v ≡ (true, r)
unfolding trailer_line
trailer_line-done [] r t e = cc
trailer_line-done (c ∷ line) r t e = cc

-- A turn of the trailers changes the buffer only.
pub trailers-again :
    (s t : HttpRequest)
    → trailers_round s ≡ again t
    → (pos : ℕ) × (find crlf s.buffer ≡ some pos) × (t ≡ erase_line pos s)
unfolding trailers_round trailer_at
trailers-again s t e = elim (Option-cases (find crlf s.buffer)) [
  | inl absent ↦ ground arith
  | inr (pos, found) ↦
      (pos, found, trailer_line-again (take pos s.buffer) (erase_line pos s) t (rw found at e))
]

pub trailers-Falls : Falls buffered trailers_round
trailers-Falls s t e =
    let (pos, found, same) = trailers-again s t e in rw same (buffered-erase_line s pos found)

trailers_turns :
    (s : HttpRequest) (more : Bytes)
    → IsLive s
    → trailers_round (extend s more) ≡ resume_turn trailers_round (trailers_round s) more
unfolding trailers_round trailer_at
trailers_turns s more live = elim (Option-cases (find crlf s.buffer)) [
  | inl e ↦ rw (e, live)
  | inr (pos, e) ↦
      let (found, line, rest) = line_extend s more pos e in
      rw (e, found, line, rest) (trailer_line-extend _ trailers_round _ more)
]

pub parse_chunk_trailers-Resumes : Resumes parse_chunk_trailers
unfolding parse_chunk_trailers
parse_chunk_trailers-Resumes s more live =
    run-Resumes buffered (false, new_request) trailers_round trailers-Falls IsLive
      (λ u t ok e. rw (trailers-again u t e).2 ok) trailers_turns s more live

pub trailers-done :
    (s : HttpRequest) (v : Result)
    → trailers_round s ≡ done v
    → (v.1.state ≡ s.state)
      × (v.1.is_chunked ≡ s.is_chunked)
      × (v.1.chunked_state ≡ s.chunked_state)
      × (v.1.body ≡ s.body)
      × (v.1.max_body_size ≡ s.max_body_size)
unfolding trailers_round trailer_at
trailers-done s v e = elim (Option-cases (find crlf s.buffer)) [
  | inl absent ↦ ground arith
  | inr (pos, found) ↦
      ground (arith, trailer_line-done (take pos s.buffer) (erase_line pos s) v (rw found at e))
]
