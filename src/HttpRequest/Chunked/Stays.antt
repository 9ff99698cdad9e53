-- ===== src/HttpRequest/Chunked/Stays.antt =====
-- About the fields that the chunk steps of src/HTTPRequest.cpp do not write.
use web_server.Prelude.{◌≡◌, refl, true, false, ◌⊎◌, arith}
use web_server.Prelude.Loop.{run_inv}
use web_server.HttpRequest.{HttpRequest, new_request, is_parssing_error}
use web_server.HttpRequest.Resume.{Result}
use web_server.HttpRequest.Line.{buffered}
use web_server.HttpRequest.Chunked.Steps.{trailers-again, trailers-done, trailers-Falls}
use web_server.HttpRequest.Chunked.{
  chunk_size_value, chunk_size_trimmed, chunk_size_line, chunk_size_at, parse_chunk_size,
  check_body_size, parse_chunk_data, chunk_crlf_in, parse_chunk_data_crlf, trailers_round,
  parse_chunk_trailers,
}

-- What the steps of a chunk leave alone.
pub record Stays (s t : HttpRequest) : Type 0 where
  pub state : t.state ≡ s.state
  pub is_chunked : t.is_chunked ≡ s.is_chunked

abbrev pub Fails : HttpRequest → Type 0
Fails t = is_parssing_error t.state ≡ true

abbrev pub StaysOrFails : HttpRequest → Result → Type 0
StaysOrFails s (true, t) = Stays s t
StaysOrFails s (false, t) = Fails t ⊎ (Stays s t × (t.chunked_state ≡ s.chunked_state))

pub parse_chunk_size-Stays : (s : HttpRequest) → StaysOrFails s (parse_chunk_size s)
unfolding parse_chunk_size chunk_size_at chunk_size_line chunk_size_trimmed chunk_size_value
parse_chunk_size-Stays s = ground arith

pub parse_chunk_data-Stays : (s : HttpRequest) → StaysOrFails s (parse_chunk_data s)
unfolding parse_chunk_data check_body_size
parse_chunk_data-Stays s = ground arith

pub parse_chunk_data_crlf-Stays : (s : HttpRequest) → StaysOrFails s (parse_chunk_data_crlf s)
unfolding parse_chunk_data_crlf chunk_crlf_in
parse_chunk_data_crlf-Stays s = ground arith

pub parse_chunk_trailers-Stays :
    (s : HttpRequest)
    → Stays s (parse_chunk_trailers s).1
      × ((parse_chunk_trailers s).1.chunked_state ≡ s.chunked_state)
unfolding parse_chunk_trailers
parse_chunk_trailers-Stays s =
    run_inv buffered (false, new_request) trailers_round trailers-Falls
      (λ t. Stays s t × (t.chunked_state ≡ s.chunked_state))
      (λ v. Stays s v.1 × (v.1.chunked_state ≡ s.chunked_state))
      (λ u t p e.
        let (pos, found, same) = trailers-again u t e in
        rw same (record { state = p.0.state; is_chunked = p.0.is_chunked }, p.1))
      (λ u v p e. ground (arith, trailers-done u v e)) s
      (record { state = refl; is_chunked = refl }, refl)
