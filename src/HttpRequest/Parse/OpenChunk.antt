-- ===== src/HttpRequest/Parse/OpenChunk.antt =====
-- About `parse` of src/HTTPRequest.cpp inside a chunk.
use web_server.Prelude.{◌-◌, ◌<◌, ◌≡◌, refl, ap, ◌∙◌, true, false, [], ◌++◌, length, lt→leb}
use web_server.Prelude.Loop.{run-done}
use web_server.Bytes.{Bytes}
use web_server.HttpRequest.{HttpRequest, new_request, parssing_body, chunk_data}
use web_server.HttpRequest.Chunked.{
  parse_chunk_data, chunked_round, chunked_measure, parse_chunked_body, chunk_part_taken,
}
use web_server.HttpRequest.Chunked.Resume.{chunked-Falls, round_at_data}
use web_server.HttpRequest.Parse.Body.{parse_body_chunked}
use web_server.HttpRequest.Parse.Resume.{parse-Falls, at_body}
use web_server.HttpRequest.Parse.{again_as, parse_round, parse_measure, parse_loop, parse}

pub record IsInChunk (s : HttpRequest) : Type 0 where
  pub state : s.state ≡ parssing_body
  pub is_chunked : s.is_chunked ≡ true
  pub chunked_state : s.chunked_state ≡ chunk_data
  pub drained : s.buffer ≡ []

part :
    (s : HttpRequest)
    → length s.buffer < s.chunk_remaining
    → parse_chunk_data s ≡ (false, chunk_part_taken s)
unfolding parse_chunk_data
part s h = rw (lt→leb _ _ h)

part_body :
    (s : HttpRequest)
    → s.chunked_state ≡ chunk_data
    → length s.buffer < s.chunk_remaining
    → parse_chunked_body s ≡ (false, chunk_part_taken s)
unfolding parse_chunked_body
part_body s c h =
    run-done chunked_measure (false, new_request) chunked_round chunked-Falls
      (round_at_data s c ∙ rw (part s h))

part_loop :
    (s : HttpRequest)
    → s.state ≡ parssing_body
    → s.is_chunked ≡ true
    → s.chunked_state ≡ chunk_data
    → length s.buffer < s.chunk_remaining
    → parse_loop s ≡ (false, chunk_part_taken s)
unfolding parse_loop
part_loop s e k c h =
    run-done parse_measure (false, new_request) parse_round parse-Falls
      (at_body s e ∙ rw (parse_body_chunked s k, part_body s c h) (unfold again_as in refl))

-- Input that does not complete the chunk at hand is all appended to the body, and `parse` waits
-- for more, whatever `max_body_size_` is: no error is raised however long the body grows.
pub open_chunk_unlimited :
    (s : HttpRequest) (data' : Bytes)
    → IsInChunk s
    → length data' < s.chunk_remaining
    → parse s data' ≡ (
      false,
      record s {
        buffer = [];
        body = s.body ++ data';
        chunk_remaining = s.chunk_remaining - length data';
      },
    )
unfolding parse
open_chunk_unlimited s data' i h =
    ap (λ l. parse_loop (record s { buffer = l ++ data' })) i.drained
    ∙ part_loop (record s { buffer = data' }) i.state i.is_chunked i.chunked_state h
