-- ===== src/Tests/RoundTrip.antt =====
-- Written requests of src/HTTPRequest.cpp.
use web_server.Prelude.{◌≡◌, refl, true, false, inr, List, [], ◌∷◌, ◌++◌, length, arith, some, ◌≤◌}
use web_server.Bytes.{Bytes, codes}
use web_server.HttpRequest.{
  HttpRequest, new_request, set_max_body_size, parssing_body, parssing_complete, chunk_data,
  chunk_trailers,
}
use web_server.HttpRequest.Line.RoundTrip.{RequestLine, IsLine, Header, IsHeader, AreHeaders}
use web_server.HttpRequest.Line.Values.{IsTrimmed}
use web_server.Bytes.Search.{Lacks}
use web_server.HttpRequest.Chunked.{parse_hex_string}
use web_server.HttpRequest.Chunked.Hex.{parse_hex_string-value}
use web_server.HttpRequest.Chunked.RoundTrip.{IsSize, Chunk, chunks_text, AreChunks, joined}
use web_server.HttpRequest.Parse.{parse}
use web_server.HttpRequest.Parse.Limits.{IsWithinLimit, parse-IsWithinLimit}
use web_server.HttpRequest.Parse.OpenChunk.{open_chunk_unlimited}
use web_server.HttpRequest.Parse.RoundTrip.{
  head_read, request_text, HasLength, HasChunks, parse-bodyless, parse-length, parse-chunks,
}
use web_server.Server.Dispatch.{program_started}
use web_server.Server.Dispatch.Complete.{Waits, complete_chunked-Waits}
use web_server.Tests.Request.{parser}
use web_server.Tests.Loop.{client, ending}

abbrev post_line : RequestLine
post_line = record { method = codes "POST"; target = codes "/up"; protocol = codes "HTTP/1.1" }

post_line-IsLine : IsLine post_line
post_line-IsLine = record {
  method = (omega arith, omega arith, refl);
  target = (omega arith, omega arith, refl);
  protocol = (omega arith, refl);
}

abbrev header : Bytes → Bytes → Header
header key value = record { key = key; before = codes " "; value = value; after = codes "\t " }

header_well :
    (key value : Bytes)
    → Lacks b':' key
    → Lacks 13 key
    → IsTrimmed value
    → Lacks 13 value
    → IsHeader (header key value)
header_well key value a b c d = record {
  key = (a, b);
  before = ((refl, tt), omega arith);
  value = (c, d);
  after = ((refl, (refl, tt)), omega arith);
}

abbrev plain_headers : List Header
plain_headers =
    header (codes "Host") (codes "a b") ∷ header (codes "CONTENT-length") (codes "5") ∷ []

plain_headers_well : AreHeaders plain_headers
plain_headers_well = (
  header_well _ _ (omega arith) (omega arith) (refl, refl) (omega arith),
  (header_well _ _ (omega arith) (omega arith) (refl, refl) (omega arith), tt),
)

plain_headers-HasLength : HasLength 9 post_line plain_headers (codes "hello")
unfolding parser
plain_headers-HasLength = record {
  present = refl;
  unchunked = refl;
  given = refl;
  value = refl;
  allowed = inr (omega arith);
}

parse-length_example :
    parse
      (set_max_body_size 9 new_request)
      (request_text 9 post_line plain_headers (codes "hello" ++ codes "GET"))
    ≡ (
      true,
      record (head_read 9 post_line plain_headers) {
        buffer = codes "GET";
        body = codes "hello";
        is_chunked = false;
        state = parssing_complete;
      },
    )
parse-length_example =
    parse-length 9 post_line plain_headers post_line-IsLine plain_headers_well (codes "hello")
      (codes "GET") plain_headers-HasLength

abbrev chunked_headers : List Header
chunked_headers = header (codes "Transfer-Encoding") (codes "gzip, Chunked") ∷ []

chunked_headers_well : AreHeaders chunked_headers
chunked_headers_well = (header_well _ _ (omega arith) (omega arith) (refl, refl) (omega arith), tt)

abbrev two_chunks : List Chunk
two_chunks =
    record { size = codes "03"; data' = codes "abc" }
    ∷ record { size = codes "a"; data' = codes "0123456789" }
    ∷ []

two_chunks_well : AreChunks two_chunks
unfolding parser
two_chunks_well = (
  record { nonempty = refl; number = refl; small = omega arith },
  (λ e. omega arith),
  (record { nonempty = refl; number = refl; small = omega arith }, (λ e. omega arith), tt),
)

zeros_well : IsSize (codes "00") 0
unfolding parser
zeros_well = record { nonempty = refl; number = refl; small = omega arith }

chunked_headers-HasChunks : HasChunks 20 post_line chunked_headers (joined two_chunks)
unfolding parser
chunked_headers-HasChunks = record { present = refl; chunked = refl; allowed = inr (omega arith) }

parse-chunks_example :
    parse (set_max_body_size 20 new_request) (
      request_text 20 post_line chunked_headers
        (chunks_text two_chunks (codes "00") (codes "T: 1" ∷ []) (codes "GET")))
    ≡ (
      true,
      record (head_read 20 post_line chunked_headers) {
        buffer = codes "GET";
        body = codes "abc0123456789";
        is_chunked = true;
        chunked_state = chunk_trailers;
        state = parssing_complete;
      },
    )
parse-chunks_example =
    parse-chunks 20 post_line chunked_headers post_line-IsLine chunked_headers_well two_chunks
      (codes "00") (codes "T: 1" ∷ []) (codes "GET") two_chunks_well zeros_well
      (omega arith, refl, tt) chunked_headers-HasChunks

abbrev get_headers : List Header
get_headers = header (codes "Host") (codes "x") ∷ []

get_headers_well : AreHeaders get_headers
get_headers_well = (header_well _ _ (omega arith) (omega arith) (refl, refl) (omega arith), tt)

no_body : web_server.HttpRequest.Line.has_body (head_read 0 post_line get_headers) ≡ false
unfolding parser
no_body = refl

parse-bodyless_example :
    parse (set_max_body_size 0 new_request) (request_text 0 post_line get_headers (codes "GET")) ≡ (
      true,
      record (head_read 0 post_line get_headers) {
        buffer = codes "GET";
        state = parssing_complete;
      },
    )
parse-bodyless_example =
    parse-bodyless 0 post_line get_headers post_line-IsLine get_headers_well (codes "GET") no_body

abbrev in_chunk : HttpRequest
in_chunk = record new_request {
  state = parssing_body;
  is_chunked = true;
  chunked_state = chunk_data;
  chunk_remaining = 100;
  max_body_size = 3;
}

abbrev limited : HttpRequest
limited = record new_request { max_body_size = 20 }

abbrev chunked_text : Bytes
chunked_text =
    request_text 20 post_line chunked_headers
      (chunks_text two_chunks (codes "00") (codes "T: 1" ∷ []) [])

parse-IsWithinLimit_example :
    IsWithinLimit 20 (parse limited chunked_text).1
    × ((parse limited chunked_text).0 ≡ true → length (parse limited chunked_text).1.body ≤ 20)
parse-IsWithinLimit_example =
    parse-IsWithinLimit 20 limited chunked_text (omega arith)
      (record { limit = refl; within = inr (inr (omega arith)) })

open_chunk_unlimited_example :
    parse in_chunk (codes "abcdef")
    ≡ (false, record in_chunk { buffer = []; body = codes "abcdef"; chunk_remaining = 94 })
open_chunk_unlimited_example =
    open_chunk_unlimited in_chunk (codes "abcdef")
      (record { state = refl; is_chunked = refl; chunked_state = refl; drained = refl })
      (omega arith)

parse_hex_string-value_example : parse_hex_string (codes "10000000000000000") ≡ some 0
unfolding parser
parse_hex_string-value_example = parse_hex_string-value (codes "10000000000000000")

complete_chunked-Waits_example : Waits 4 8 (
    program_started 100 8 9
      (parse (set_max_body_size 20 new_request) (
        request_text 20 post_line chunked_headers
          (chunks_text two_chunks (codes "00") (codes "T: 1" ∷ []) []))).1
      client
      ending)
complete_chunked-Waits_example =
    complete_chunked-Waits 20 post_line chunked_headers two_chunks (codes "00") (codes "T: 1" ∷ [])
      100 8 9 client ending post_line-IsLine chunked_headers_well two_chunks_well zeros_well
      (omega arith, refl, tt) chunked_headers-HasChunks
