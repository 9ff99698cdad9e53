-- ===== src/HttpRequest/Chunked.antt =====
-- The chunked transfer decoder of src/HTTPRequest.cpp.
pub mod Steps
pub mod Stays
pub mod Resume
pub mod Limit
pub mod Hex
pub mod RoundTrip
use web_server.Prelude.{
  ℕ, ◌+◌, ◌-◌, ◌*◌, ◌%◌, ◌^◌, ◌<◌, ◌≡◌, refl, Bool, true, false, ◌&&◌, ◌||◌, Option, none, some,
  List, [], ◌∷◌, ◌++◌, arith, if◌then◌else◌, length, take, drop, leb, ltb, ◌==◌,
}
use web_server.Prelude.Loop.{Round, again, done, run}
use web_server.Bytes.{Bytes, crlf, find, find_char, find_first_not_of, find_last_not_of, substr}
use web_server.HttpRequest.{
  HttpRequest, new_request, parssing_error, ChunkedState, chunk_size, chunk_data, chunk_data_crlf,
  chunk_trailers,
}
use web_server.HttpRequest.Line.{fail, erase_line, blanks, buffered}

abbrev pub is_hex : ℕ → Bool
is_hex c = (leb b'0' c && leb c b'9') || (leb b'a' c && leb c b'f') || (leb b'A' c && leb c b'F')

unfoldable pub all_hex : Bytes → Bool
all_hex [] = true
all_hex (c ∷ s) = is_hex c && all_hex s

unfoldable pub hex_digit : ℕ → ℕ
hex_digit c =
    if leb b'0' c && leb c b'9'
    then c - b'0'
    else if leb b'a' c && leb c b'f'
    then 10 + (c - b'a')
    else if leb b'A' c && leb c b'F'
    then 10 + (c - b'A')
    else 0

abbrev pub size_mod : ℕ
size_mod = 2 ^ 64

-- The second loop: `out` is a `size_t`, and wraps.
unfoldable pub hex_from : ℕ → Bytes → ℕ
unfolding hex_digit
hex_from out [] = out
hex_from out (c ∷ s) = hex_from ((out * 16 + hex_digit c) % size_mod) s

-- `none`: the function returns false and leaves `out`.
unfoldable pub parse_hex_string : Bytes → Option ℕ
unfolding all_hex hex_from
parse_hex_string s = if all_hex s then some (hex_from 0 s) else none

strip_extension : Bytes → Option ℕ → Bytes
strip_extension size_line none = size_line
strip_extension size_line (some semi) = take semi size_line

-- `end` is npos only if `start` is: the sum then wraps, and the rest of the line is kept.
trim_size : Bytes → ℕ → Option ℕ → Bytes
trim_size size_line start none = drop start size_line
trim_size size_line start (some end) = substr size_line start (end - start + 1)

abbrev after_size : ℕ → ChunkedState
after_size n = if n == 0 then chunk_trailers else chunk_data

chunk_size_value : Option ℕ → HttpRequest → Bool × HttpRequest
chunk_size_value none r = fail r
chunk_size_value (some n) r = (true, record r { chunk_remaining = n; chunked_state = after_size n })

chunk_size_trimmed : Bytes → Option ℕ → HttpRequest → Bool × HttpRequest
chunk_size_trimmed size_line none r = fail r
chunk_size_trimmed size_line (some start) r =
    chunk_size_value
      (parse_hex_string (trim_size size_line start (find_last_not_of blanks size_line))) r

chunk_size_line : Bytes → HttpRequest → Bool × HttpRequest
chunk_size_line size_line r = chunk_size_trimmed size_line (find_first_not_of blanks size_line) r

chunk_size_at : Option ℕ → HttpRequest → Bool × HttpRequest
chunk_size_at none r = (false, r)
chunk_size_at (some pos) r =
    let line = take pos r.buffer in
    chunk_size_line (strip_extension line (find_char b';' line)) (erase_line pos r)

unfoldable pub parse_chunk_size : HttpRequest → Bool × HttpRequest
unfolding chunk_size_at chunk_size_line chunk_size_trimmed chunk_size_value trim_size
    strip_extension
parse_chunk_size r = chunk_size_at (find crlf r.buffer) r

unfoldable pub check_body_size : HttpRequest → Bool × HttpRequest
check_body_size r =
    if ltb 0 r.max_body_size && ltb r.max_body_size (length r.body)
    then fail (record r { body_too_large = true })
    else (true, r)

-- All of the chunk is there.
abbrev pub chunk_taken : HttpRequest → HttpRequest
chunk_taken r = record r {
  body = r.body ++ take r.chunk_remaining r.buffer;
  buffer = drop r.chunk_remaining r.buffer;
  chunk_remaining = 0;
  chunked_state = chunk_data_crlf;
}

-- A part of the chunk is there.
abbrev pub chunk_part_taken : HttpRequest → HttpRequest
chunk_part_taken r = record r {
  chunk_remaining = r.chunk_remaining - length r.buffer;
  body = r.body ++ r.buffer;
  buffer = [];
}

unfoldable pub parse_chunk_data : HttpRequest → Bool × HttpRequest
parse_chunk_data r =
    if leb r.chunk_remaining (length r.buffer)
    then check_body_size (chunk_taken r)
    else (false, chunk_part_taken r)

chunk_crlf_in : Bytes → HttpRequest → Bool × HttpRequest
chunk_crlf_in (a ∷ b ∷ rest) r =
    if a == 13 && b == 10
    then (true, record r { buffer = rest; chunked_state = chunk_size })
    else fail r
chunk_crlf_in _ r = (false, r)

unfoldable pub parse_chunk_data_crlf : HttpRequest → Bool × HttpRequest
unfolding chunk_crlf_in
parse_chunk_data_crlf r = chunk_crlf_in r.buffer r

trailer_line : Bytes → HttpRequest → Round HttpRequest (Bool × HttpRequest)
trailer_line [] r = done (true, r)
trailer_line (_ ∷ _) r = again r

trailer_at : Option ℕ → HttpRequest → Round HttpRequest (Bool × HttpRequest)
trailer_at none r = done (false, r)
trailer_at (some pos) r = trailer_line (take pos r.buffer) (erase_line pos r)

-- One turn of the loop of `parse_chunk_trailers`.
unfoldable pub trailers_round : HttpRequest → Round HttpRequest (Bool × HttpRequest)
unfolding trailer_at trailer_line
trailers_round r = trailer_at (find crlf r.buffer) r

unfoldable pub parse_chunk_trailers : HttpRequest → Bool × HttpRequest
parse_chunk_trailers = run buffered (false, new_request) trailers_round

-- `if (!done) return false`, and round again
abbrev pub again_if : Bool × HttpRequest → Round HttpRequest (Bool × HttpRequest)
again_if (true, r) = again r
again_if (false, r) = done (false, r)

chunked_round_in : ChunkedState → HttpRequest → Round HttpRequest (Bool × HttpRequest)
chunked_round_in chunk_size r = again_if (parse_chunk_size r)
chunked_round_in chunk_data r = again_if (parse_chunk_data r)
chunked_round_in chunk_data_crlf r = again_if (parse_chunk_data_crlf r)
chunked_round_in chunk_trailers r = done (parse_chunk_trailers r)

-- One turn of the loop of `parse_chunked_body`.
unfoldable pub chunked_round : HttpRequest → Round HttpRequest (Bool × HttpRequest)
unfolding chunked_round_in
chunked_round r = chunked_round_in r.chunked_state r

abbrev pub is_chunk_data : ChunkedState → ℕ
is_chunk_data chunk_data = 1
is_chunk_data _ = 0

abbrev pub chunked_measure : HttpRequest → ℕ
chunked_measure r = 2 * length r.buffer + is_chunk_data r.chunked_state

unfoldable pub parse_chunked_body : HttpRequest → Bool × HttpRequest
parse_chunked_body = run chunked_measure (false, new_request) chunked_round
