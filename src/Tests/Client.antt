-- ===== src/Tests/Client.antt =====
-- Tests and examples of the client's parts of src/Client.cpp.
use web_server.Prelude.{
  ◌+◌, ◌*◌, ◌≡◌, refl, true, false, ◌++◌, if◌then◌else◌, List, [], ◌∷◌, arith, length, some,
}
use web_server.Prelude.Loop.{loop}
use web_server.Bytes.{Bytes, codes}
use web_server.HttpRequest.Chunked.{all_hex, hex_digit, parse_hex_string}
use web_server.HttpRequest.Chunked.RoundTrip.{IsSize, Chunk, chunks_text, joined}
use web_server.Client.{
  Client, new_client, close, waitpid_nohang, close_cgi_stdin, finish_cgi, append_cgi_send_pending,
  consume_cgi_send_pending, get_cgi_send_pending_ptr, get_cgi_send_pending_size,
  append_cgi_stdin_pending, consume_cgi_stdin_pending, get_cgi_stdin_pending_ptr,
  get_cgi_stdin_pending_size, compact,
}
use web_server.Client.Cgi.{ReleasesOnce, finish_cgi_once}
use web_server.Client.Decoder.{
  new_decoder, Decoding, decode_chunked_for_cgi, decode_loop, decode_round, decode_hex,
  decode_measure, feed, decoder_of, chunk_dec_done, chunk_dec_data,
}
use web_server.Client.Decoder.Hex.{decode_hex-parse_hex_string}
use web_server.Client.Decoder.Resume.{decode-append, decoder_loop_ends}
use web_server.Client.Decoder.RoundTrip.{decode-text}
use web_server.Client.Pending.{
  stdin_queue, send_queue, Event, put, took, serve, all_put, stdin_in_order, send_in_order,
}
use web_server.Tests.Request.{parser}

abbrev first_piece : Bytes
first_piece = codes "3;x=y\r\nab"

abbrev second_piece : Bytes
second_piece = codes "\r\n0\r\nT: u\r\n\r\nGET"

test_pieces : decode_chunked_for_cgi new_decoder (first_piece ++ b'c' ∷ second_piece) [] ≡ record {
  ok = true;
  eof = true;
  left = record { state = chunk_dec_done; remaining = 0; buf = codes "GET"; decoded = codes "abc" };
}
unfolding parser decode_chunked_for_cgi decode_loop decode_round decode_hex decode_measure
test_pieces = refl

-- A blank in front of the size is refused, where the request parser trims it.
test_blank : (decode_chunked_for_cgi new_decoder (codes " 5\r\nabcde\r\n") []).ok ≡ false
unfolding parser decode_chunked_for_cgi decode_loop decode_round decode_hex decode_measure
test_blank = refl

-- A further call on no input does not report the end again.
test_done :
    (decode_chunked_for_cgi (record { state = chunk_dec_done; remaining = 0; buf = [] }) [] []).eof
    ≡ false
unfolding parser decode_chunked_for_cgi decode_loop decode_round decode_hex decode_measure
test_done = refl

decode-append_example :
    decode_chunked_for_cgi new_decoder (first_piece ++ b'c' ∷ second_piece) [] ≡ (
      let v = decode_chunked_for_cgi new_decoder first_piece [] in
      if v.ok
      then decode_chunked_for_cgi (decoder_of v.left) (b'c' ∷ second_piece) v.left.decoded
      else record v { left = feed v.left (b'c' ∷ second_piece) })
decode-append_example = decode-append new_decoder first_piece b'c' second_piece []

abbrev half_read : Decoding
half_read = record {
  state = chunk_dec_data;
  remaining = 3;
  buf = codes "abc\r\n0\r\n\r\n";
  decoded = [];
}

decoder_loop_ends_example :
    loop (2 * length half_read.buf + 2) decode_round half_read ≡ some (decode_loop half_read)
decoder_loop_ends_example = decoder_loop_ends half_read

abbrev one_chunk : List Chunk
one_chunk = record { size = codes "00B"; data' = codes "hello world" } ∷ []

eleven-IsSize : IsSize (codes "00B") 11
unfolding parser all_hex hex_digit
eleven-IsSize = record { nonempty = refl; number = refl; small = omega arith }

zero-IsSize : IsSize (codes "0") 0
unfolding parser all_hex hex_digit
zero-IsSize = record { nonempty = refl; number = refl; small = omega arith }

decode-text_example :
    decode_chunked_for_cgi new_decoder
      (chunks_text one_chunk (codes "0") (codes "T: u" ∷ []) (codes "GET"))
      (codes "> ")
    ≡ record {
      ok = true;
      eof = true;
      left = record {
        state = chunk_dec_done;
        remaining = 0;
        buf = codes "GET";
        decoded = codes "> " ++ joined one_chunk;
      };
    }
decode-text_example =
    decode-text one_chunk (codes "0") (codes "T: u" ∷ []) (codes "GET") 0 (codes "> ")
      (eleven-IsSize, omega arith, tt) zero-IsSize (omega arith, refl, tt)

decode_hex_example : decode_hex (some 0) (codes "1aF") ≡ parse_hex_string (codes "1aF")
decode_hex_example = decode_hex-parse_hex_string (codes "1aF")

abbrev running : Client
running = record (new_client 7 0 100) {
  cgi_pid = some 42;
  cgi_stdin_fd = some 8;
  cgi_stdout_fd = some 9;
  cgi_active = true;
  cgi_stdin_pending = codes "abcdef";
  cgi_stdin_pending_offset = 2;
  cgi_send_pending = codes "xyz";
  cgi_send_pending_offset = 1;
}

test_finish : (finish_cgi running).0 ≡ close 9 ∷ close 8 ∷ waitpid_nohang 42 ∷ []
unfolding finish_cgi close_cgi_stdin
test_finish = refl

finish_cgi_once_example : ReleasesOnce running
finish_cgi_once_example = finish_cgi_once running

abbrev events : List Event
events = took 1 ∷ put (codes "gh") ∷ took 3 ∷ []

test_events : (serve stdin_queue events running).0 ≡ codes "cdef"
unfolding get_cgi_stdin_pending_ptr append_cgi_stdin_pending consume_cgi_stdin_pending compact
test_events = refl

stdin_in_order_example :
    (serve stdin_queue events running).0
      ++ get_cgi_stdin_pending_ptr (serve stdin_queue events running).1
    ≡ get_cgi_stdin_pending_ptr running ++ all_put events
unfolding get_cgi_stdin_pending_size append_cgi_stdin_pending consume_cgi_stdin_pending compact
stdin_in_order_example =
    stdin_in_order events running (omega arith, omega arith) (omega arith, (omega arith, tt))

send_in_order_example :
    (serve send_queue events running).0
      ++ get_cgi_send_pending_ptr (serve send_queue events running).1
    ≡ get_cgi_send_pending_ptr running ++ all_put events
unfolding get_cgi_send_pending_size append_cgi_send_pending consume_cgi_send_pending compact
send_in_order_example =
    send_in_order events running (omega arith, omega arith) (omega arith, (omega arith, tt))
