-- ===== src/Tests/Request.antt =====
-- Runs of the request parser of src/HTTPRequest.cpp.
use web_server.Prelude.{suc, ◌+◌, ◌*◌, ◌≡◌, refl, true, false, some, [], ◌∷◌, ◌++◌, length}
use web_server.Prelude.Loop.{run, loop}
use web_server.Bytes.{
  Bytes, codes, find, starts_with, find_char, find_char_from, find_first_not_of, find_last_not_of,
}
use web_server.Bytes.Decimal.{atol_size}
use web_server.StdMap.{lookup, insert, compare_bytes}
use web_server.HttpRequest.{
  HttpRequest, new_request, parssing_complete, parssing_error, str_to_lower, get_header_value,
}
use web_server.HttpRequest.Line.{
  parse_request_line, parse_headers, headers_round, trim_value, has_body,
}
use web_server.HttpRequest.Chunked.{
  parse_chunk_size, parse_chunk_data, parse_chunk_data_crlf, parse_chunk_trailers, trailers_round,
  parse_hex_string, chunked_round, parse_chunked_body, check_body_size,
}
use web_server.HttpRequest.Parse.{parse_body, body_of_length, parse_round, parse_loop, parse}
use web_server.HttpRequest.Parse.Pieces.{parse-append, parser_loops_end}

unfoldable pub parser : Unit {0}
unfolding run loop find starts_with find_char find_char_from find_first_not_of find_last_not_of
    atol_size lookup insert compare_bytes str_to_lower get_header_value parse_request_line
    parse_headers headers_round trim_value has_body parse_chunk_size parse_chunk_data
    parse_chunk_data_crlf parse_chunk_trailers trailers_round parse_hex_string chunked_round
    parse_chunked_body check_body_size parse_body body_of_length parse_round parse_loop parse
parser = tt

abbrev post_text : Bytes
post_text = codes "POST /up HTTP/1.1\r\nHost: a\r\nContent-Length: 5 \r\n\r\nhelloGET"

abbrev post_read : HttpRequest
post_read = record {
  buffer = codes "GET";
  state = parssing_complete;
  chunked_state = web_server.HttpRequest.chunk_size;
  chunk_remaining = 0;
  is_chunked = false;
  method = codes "POST";
  request_target = codes "/up";
  protocol = codes "HTTP/1.1";
  headers = (codes "content-length", codes "5") ∷ (codes "host", codes "a") ∷ [];
  body = codes "hello";
  max_body_size = 0;
  body_too_large = false;
}

parse_post : parse new_request post_text ≡ (true, post_read)
unfolding parser
parse_post = refl

abbrev chunked_text : Bytes
chunked_text =
    codes "POST / HTTP/1.1\r\nTransfer-Encoding: Chunked\r\n\r\n3;x=1\r\nabc\r\nA\r\n0123456789\r\n"
    ++ codes "0\r\nT: 1\r\n\r\n"

parse_chunks : (parse new_request chunked_text).1.body ≡ codes "abc0123456789"
unfolding parser
parse_chunks = refl

refused : (parse new_request (codes "GET /\r\n")).1.state ≡ parssing_error
unfolding parser
refused = refl

parse-append_example :
    parse (parse new_request (codes "GET / HT")).1 (codes "TP/1.1\r\n\r\n")
    ≡ parse new_request (codes "GET / HT" ++ codes "TP/1.1\r\n\r\n")
parse-append_example = parse-append new_request (codes "GET / HT") (codes "TP/1.1\r\n\r\n")

parser_loops_end_example :
    (loop 4 parse_round post_read ≡ some (parse_loop post_read))
    × (loop (suc (length post_read.buffer)) headers_round post_read
        ≡ some (parse_headers post_read))
    × (loop (2 * length post_read.buffer + 2) chunked_round post_read
        ≡ some (parse_chunked_body post_read))
    × (loop (suc (length post_read.buffer)) trailers_round post_read
        ≡ some (parse_chunk_trailers post_read))
parser_loops_end_example = parser_loops_end post_read
