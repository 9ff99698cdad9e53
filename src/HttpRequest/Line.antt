-- ===== src/HttpRequest/Line.antt =====
-- `parse_request_line`, `parse_headers` and `has_body` of src/HTTPRequest.cpp.
pub mod Resume
pub mod Keeps
pub mod Values
pub mod RoundTrip
use web_server.Prelude.{
  ℕ, ◌+◌, ◌-◌, ◌<◌, ◌≡◌, refl, Bool, true, false, ◌||◌, Option, none, some, List, [], ◌∷◌, ◌++◌,
  arith, if◌then◌else◌, length, take, drop,
}
use web_server.Prelude.Loop.{Round, again, done, run}
use web_server.Bytes.{
  Bytes, codes, crlf, empty, find, find_char, find_char_from, find_first_not_of, find_last_not_of,
  contains, is_some, substr,
}
use web_server.StdMap.{lookup, insert, bytes_order}
use web_server.HttpRequest.{HttpRequest, new_request, parssing_error, str_to_lower}

-- The state becomes PARSSING_ERROR_, and the function returns false.
abbrev pub fail : HttpRequest → Bool × HttpRequest
fail r = (false, record r { state = parssing_error })

-- The bytes behind a line of `pos` bytes and its CRLF.
abbrev pub erase_line : ℕ → HttpRequest → HttpRequest
erase_line pos r = record r { buffer = drop (pos + 2) r.buffer }

request_line_parts : Bytes → ℕ → ℕ → HttpRequest → Bool × HttpRequest
request_line_parts line first_space second_space r =
    let method = take first_space line in
    let request_target = substr line (first_space + 1) (second_space - first_space - 1) in
    let protocol = drop (second_space + 1) line in
    let r' = record r { method = method; request_target = request_target; protocol = protocol } in
    if empty method || empty request_target || empty protocol then fail r' else (true, r')

second_space_at : Bytes → ℕ → Option ℕ → HttpRequest → Bool × HttpRequest
second_space_at line first_space none r = fail r
second_space_at line first_space (some second_space) r =
    request_line_parts line first_space second_space r

first_space_at : Bytes → Option ℕ → HttpRequest → Bool × HttpRequest
first_space_at line none r = fail r
first_space_at line (some first_space) r =
    second_space_at line first_space (find_char_from b' ' line (first_space + 1)) r

request_line_at : Option ℕ → HttpRequest → Bool × HttpRequest
request_line_at none r = (false, r)
request_line_at (some pos) r =
    let line = take pos r.buffer in first_space_at line (find_char b' ' line) (erase_line pos r)

unfoldable pub parse_request_line : HttpRequest → Bool × HttpRequest
unfolding request_line_at first_space_at second_space_at request_line_parts
parse_request_line r = request_line_at (find crlf r.buffer) r

abbrev pub blanks : Bytes
blanks = codes " \t"

unfoldable pub trim_between : Bytes → Option ℕ → Option ℕ → Bytes
trim_between value (some start) (some end) = substr value start (end - start + 1)
trim_between value _ _ = []

unfoldable pub trim_value : Bytes → Bytes
unfolding trim_between find_first_not_of find_last_not_of
trim_value value =
    trim_between value (find_first_not_of blanks value) (find_last_not_of blanks value)

header_colon_at : Bytes → Option ℕ → HttpRequest → Round HttpRequest (Bool × HttpRequest)
header_colon_at line none r = done (fail r)
header_colon_at line (some colon) r = again (record r {
  headers = insert (str_to_lower (take colon line)) (trim_value (drop (colon + 1) line)) r.headers;
})

header_line : Bytes → HttpRequest → Round HttpRequest (Bool × HttpRequest)
header_line [] r = done (true, r)
header_line (c ∷ line) r = header_colon_at (c ∷ line) (find_char b':' (c ∷ line)) r

header_line_at : Option ℕ → HttpRequest → Round HttpRequest (Bool × HttpRequest)
header_line_at none r = done (false, r)
header_line_at (some pos) r = header_line (take pos r.buffer) (erase_line pos r)

-- One turn of the loop of `parse_headers`.
unfoldable pub headers_round : HttpRequest → Round HttpRequest (Bool × HttpRequest)
unfolding header_line_at header_line header_colon_at
headers_round r = header_line_at (find crlf r.buffer) r

abbrev pub buffered : HttpRequest → ℕ
buffered r = length r.buffer

unfoldable pub parse_headers : HttpRequest → Bool × HttpRequest
parse_headers = run buffered (false, new_request) headers_round

has_chunked_value : Option Bytes → Bool
has_chunked_value none = false
has_chunked_value (some value) = contains (codes "chunked") (str_to_lower value)

unfoldable pub has_body : HttpRequest → Bool
unfolding has_chunked_value find str_to_lower lookup
has_body r =
    has_chunked_value (lookup (codes "transfer-encoding") r.headers)
    || is_some (lookup (codes "content-length") r.headers)
