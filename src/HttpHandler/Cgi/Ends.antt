-- ===== src/HttpHandler/Cgi/Ends.antt =====
-- About the loop over the headers of a CGI program in src/HTTPHandler.cpp.
use web_server.Prelude.{
  ℕ, ◌+◌, ◌≤◌, ◌<◌, ◌≡◌, refl, ◌∙◌, Option, none, some, arith, length, Bool-cases, inl, inr, ltb,
  ltb→lt,
}
use web_server.Prelude.Loop.{Round, again, loop, loop-run, Falls}
use web_server.Bytes.{Bytes, codes, same, empty, find_char, find_char_from}
use web_server.HttpResponse.{HttpResponse, new_response}
use web_server.HttpHandler.Cgi.{
  CgiHeaders, status_at, cgi_header, cgi_colon_at, cgi_line, eol_or_end, cgi_round, cgi_start,
  cgi_measure, parse_cgi_headers,
}

status-pos : (value : Bytes) (sp : Option ℕ) (h : CgiHeaders) → (status_at value sp h).pos ≡ h.pos
unfolding status_at
status-pos value none h = refl
status-pos value (some sp) h = refl

header-pos : (key value : Bytes) (h : CgiHeaders) → (cgi_header key value h).pos ≡ h.pos
unfolding cgi_header
header-pos key value h = elim (Bool-cases (same key (codes "Status"))) [
  | inl e ↦ rw e (status-pos value (find_char b' ' value) h)
  | inr e ↦ rw e
]

colon-pos :
    (line : Bytes) (colon : Option ℕ) (h : CgiHeaders) → (cgi_colon_at line colon h).pos ≡ h.pos
unfolding cgi_colon_at
colon-pos line none h = refl
colon-pos line (some colon) h = header-pos _ _ h

line-pos : (line : Bytes) (h : CgiHeaders) → (cgi_line line h).pos ≡ h.pos
unfolding cgi_line
line-pos line h = elim (Bool-cases (empty line)) [
  | inl e ↦ rw e
  | inr e ↦ rw e (colon-pos line (find_char b':' line) h)
]

-- The end of a line does not stand in front of its start.
eol_bound : (s : Bytes) (pos : ℕ) → pos < length s → pos ≤ eol_or_end s (find_char_from b'\n' s pos)
unfolding eol_or_end find_char_from
eol_bound s pos h = ground arith

again_pos :
    (a t : CgiHeaders) → ◌≡◌ {A = Round CgiHeaders HttpResponse} (again a) (again t) → t.pos ≡ a.pos
again_pos a t e = cc

cgi-Falls : (s : Bytes) → Falls (cgi_measure s) (cgi_round s)
unfolding cgi_round
cgi-Falls s h t e = elim (Bool-cases (ltb h.pos (length s))) [
  | inr past ↦ let bad = rw past at e in cc
  | inl here ↦
      let l = ltb→lt h.pos (length s) here in
      let b = eol_bound s h.pos l in
      let went : t.pos ≡ eol_or_end s (find_char_from b'\n' s h.pos) + 1 =
        again_pos _ t (rw here at e) ∙ line-pos _ _ in
      omega arith
]

-- The loop returns: at most one turn for each byte of the headers and one more, with what
-- `parse_cgi_headers` returns.
pub cgi_loop_ends :
    (header_section : Bytes)
    → loop (length header_section + 1) (cgi_round header_section) cgi_start
      ≡ some (parse_cgi_headers header_section)
unfolding parse_cgi_headers
cgi_loop_ends header_section =
    loop-run (cgi_measure header_section) new_response (cgi_round header_section)
      (cgi-Falls header_section) (length header_section + 1) cgi_start (omega arith)
