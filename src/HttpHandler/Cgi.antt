-- ===== src/HttpHandler/Cgi.antt =====
-- src/HTTPHandler.cpp: the output of a CGI program is made a response.
pub mod Framed
pub mod Ends
use web_server.Prelude.{
  ℕ, suc, ◌+◌, ◌-◌, ◌%◌, ◌^◌, Bool, true, false, ◌&&◌, Option, none, some, List, [], ◌∷◌, ◌++◌,
  if◌then◌else◌, length, take, drop, ◌==◌, ltb,
}
use web_server.Prelude.Loop.{Round, again, done, run}
use web_server.Bytes.{
  Bytes, codes, same, empty, find, find_char, find_char_from, find_first_not_of, substr,
}
use web_server.Bytes.Decimal.{atol_size}
use web_server.HttpResponse.{
  HttpResponse, new_response, set_status, set_header, set_body, error_500,
}

-- std::atoi: the `long` that the text writes, cut to the word of an `int`
unfoldable pub atoi : Bytes → ℕ
atoi s = atol_size s % 2 ^ 32

-- if (!line.empty() && line[line.size() - 1] == '\r') line.erase(line.size() - 1)
unfoldable pub strip_cr : Bytes → Bytes
strip_cr [] = []
strip_cr (c ∷ []) = if c == 13 then [] else c ∷ []
strip_cr (c ∷ d ∷ s) = c ∷ strip_cr (d ∷ s)

value_from : Bytes → Option ℕ → Bytes
value_from value none = []
value_from value (some value_start) = drop value_start value

-- The variables of the loop.
pub record CgiHeaders : Type 0 where
  pub status_code : ℕ
  pub status_reason : Bytes
  pub response : HttpResponse
  pub pos : ℕ

abbrev new_status : ℕ → Bytes → CgiHeaders → CgiHeaders
new_status code reason h = record h {
  status_code = code;
  status_reason = reason;
  response = set_status code reason h.response;
}

status_at : Bytes → Option ℕ → CgiHeaders → CgiHeaders
unfolding atoi
status_at value none h = new_status (atoi value) h.status_reason h
status_at value (some sp) h = new_status (atoi (take sp value)) (drop (sp + 1) value) h

cgi_header : Bytes → Bytes → CgiHeaders → CgiHeaders
unfolding status_at
cgi_header key value h =
    if same key (codes "Status")
    then status_at value (find_char b' ' value) h
    else record h { response = set_header key value h.response }

cgi_colon_at : Bytes → Option ℕ → CgiHeaders → CgiHeaders
unfolding cgi_header value_from
cgi_colon_at line none h = h
cgi_colon_at line (some colon) h =
    let value = drop (colon + 1) line in
    cgi_header (take colon line) (value_from value (find_first_not_of (codes " \t") value)) h

-- A line of the headers; an empty one has no colon, and is passed over as it is there.
unfoldable pub cgi_line : Bytes → CgiHeaders → CgiHeaders
unfolding cgi_colon_at
cgi_line line h = if empty line then h else cgi_colon_at line (find_char b':' line) h

eol_or_end : Bytes → Option ℕ → ℕ
eol_or_end header_section none = length header_section
eol_or_end header_section (some eol) = eol

-- One turn of the loop.
unfoldable pub cgi_round : Bytes → CgiHeaders → Round CgiHeaders HttpResponse
unfolding eol_or_end cgi_line strip_cr
cgi_round header_section h =
    let eol = eol_or_end header_section (find_char_from b'\n' header_section h.pos) in
    if ltb h.pos (length header_section)
    then again (
        cgi_line (strip_cr (substr header_section h.pos (eol - h.pos)))
          (record h { pos = eol + 1 }))
    else done h.response

abbrev pub cgi_start : CgiHeaders
cgi_start = record {
  status_code = 200;
  status_reason = codes "OK";
  response = set_status 200 (codes "OK") new_response;
  pos = 0;
}

abbrev pub cgi_measure : Bytes → CgiHeaders → ℕ
cgi_measure header_section h = length header_section - h.pos

-- `parse_cgi_headers`; `parse_cgi_response` has a copy of its loop.
unfoldable pub parse_cgi_headers : Bytes → HttpResponse
parse_cgi_headers header_section =
    run (cgi_measure header_section) new_response (cgi_round header_section) cgi_start

-- The headers and the body of the output, at the first blank line.
split_lf : Bytes → Option ℕ → Option (Bytes × Bytes)
split_lf raw none = none
split_lf raw (some split) = some (take split raw, drop (split + 2) raw)

split_at : Bytes → Option ℕ → Option (Bytes × Bytes)
unfolding split_lf
split_at raw (some split) = some (take split raw, drop (split + 4) raw)
split_at raw none = split_lf raw (find (codes "\n\n") raw)

unfoldable pub split_cgi : Bytes → Option (Bytes × Bytes)
unfolding split_at
split_cgi raw = split_at raw (find (codes "\r\n\r\n") raw)

cgi_parts : (Bytes → Option Bytes) → Bytes → Option (Bytes × Bytes) → HttpResponse
cgi_parts read_file error_page none = error_500 read_file error_page
cgi_parts read_file error_page (some (header_section, body)) =
    set_body body (parse_cgi_headers header_section)

-- `error_page` is `get_error_page(500, server)`.
unfoldable pub parse_cgi_response : (Bytes → Option Bytes) → Bytes → Bytes → HttpResponse
unfolding cgi_parts split_cgi
parse_cgi_response read_file raw error_page = cgi_parts read_file error_page (split_cgi raw)
