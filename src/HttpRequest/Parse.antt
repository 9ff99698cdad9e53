-- ===== src/HttpRequest/Parse.antt =====
-- `parse_body` and `parse` of src/HTTPRequest.cpp.
pub mod Body
pub mod Resume
pub mod Pieces
pub mod Limits
pub mod OpenChunk
pub mod RoundTrip
use web_server.Prelude.{
  ℕ, ◌+◌, ◌-◌, Bool, true, false, ◌&&◌, List, [], ◌∷◌, ◌++◌, if◌then◌else◌, length, take, drop, leb,
  ltb,
}
use web_server.Prelude.Loop.{Round, again, done, run}
use web_server.Bytes.{Bytes, codes, contains, find}
use web_server.Bytes.Decimal.{atol_size}
use web_server.HttpRequest.{
  HttpRequest, new_request, extend, ParseState, parssing_request_line, parssing_headers,
  parssing_body, parssing_complete, parssing_error, str_to_lower, get_header_value,
}
use web_server.HttpRequest.Line.{fail, parse_request_line, parse_headers, has_body}
use web_server.HttpRequest.Chunked.{parse_chunked_body}

-- `needed` bytes are missing, and are there; or only a part of them.
abbrev pub body_taken : ℕ → HttpRequest → HttpRequest
body_taken needed r = record r {
  body = r.body ++ take needed r.buffer;
  buffer = drop needed r.buffer;
}

abbrev pub body_part_taken : HttpRequest → HttpRequest
body_part_taken r = record r { body = r.body ++ r.buffer; buffer = [] }

unfoldable pub body_needs : ℕ → HttpRequest → Bool × HttpRequest
body_needs needed r =
    if leb needed (length r.buffer) then (true, body_taken needed r) else (false, body_part_taken r)

unfoldable pub body_of_length : ℕ → HttpRequest → Bool × HttpRequest
unfolding body_needs
body_of_length len r =
    if ltb 0 r.max_body_size && ltb r.max_body_size len
    then fail (record r { body_too_large = true })
    else if ltb (length r.body) len
    then body_needs (len - length r.body) r
    else (true, r)

unfoldable pub body_with_length : Bytes → HttpRequest → Bool × HttpRequest
body_with_length [] r = (true, r)
body_with_length (c ∷ s) r = body_of_length (atol_size (c ∷ s)) r

unfoldable pub parse_body : HttpRequest → Bool × HttpRequest
unfolding body_with_length
parse_body r =
    if r.is_chunked
    then parse_chunked_body r
    else body_with_length (get_header_value r (codes "Content-Length")) r

-- Behind `parse_headers`: does a body follow, and how is it framed?
unfoldable pub after_headers : HttpRequest → HttpRequest
after_headers r =
    if has_body r
    then record r {
      is_chunked =
          contains (codes "chunked")
            (str_to_lower (get_header_value r (codes "Transfer-Encoding")));
      state = parssing_body;
    }
    else record r { state = parssing_complete }

unfoldable pub again_as :
    (HttpRequest → HttpRequest) → Bool × HttpRequest → Round HttpRequest (Bool × HttpRequest)
again_as f (true, r) = again (f r)
again_as f (false, r) = done (false, r)

unfoldable pub parse_round_in : ParseState → HttpRequest → Round HttpRequest (Bool × HttpRequest)
parse_round_in parssing_request_line r =
    again_as (λ r'. record r' { state = parssing_headers }) (parse_request_line r)
parse_round_in parssing_headers r = again_as after_headers (parse_headers r)
parse_round_in parssing_body r =
    again_as (λ r'. record r' { state = parssing_complete }) (parse_body r)
parse_round_in parssing_complete r = done (true, r)
parse_round_in parssing_error r = done (false, r)

-- One turn of the loop of `parse`.
unfoldable pub parse_round : HttpRequest → Round HttpRequest (Bool × HttpRequest)
unfolding parse_round_in again_as after_headers
parse_round r = parse_round_in r.state r

abbrev pub stages_left : ParseState → ℕ
stages_left parssing_request_line = 3
stages_left parssing_headers = 2
stages_left parssing_body = 1
stages_left _ = 0

abbrev pub parse_measure : HttpRequest → ℕ
parse_measure r = stages_left r.state

unfoldable pub parse_loop : HttpRequest → Bool × HttpRequest
parse_loop = run parse_measure (false, new_request) parse_round

unfoldable pub parse : HttpRequest → Bytes → Bool × HttpRequest
parse r data' = parse_loop (extend r data')
