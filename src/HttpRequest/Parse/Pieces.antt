-- ===== src/HttpRequest/Parse/Pieces.antt =====
-- About the calls of `parse` on the pieces of an input, and its loops.
use web_server.Prelude.{
  suc, ◌+◌, ◌*◌, ◌≡◌, ◌≢◌, refl, sym, ap, ◌∙◌, Bool, true, false, inl, inr, some, ◌++◌, arith,
  Bool-cases, length,
}
use web_server.Prelude.Loop.{done, loop, loop-run, run-done, run_inv}
use web_server.Bytes.{Bytes}
use web_server.HttpRequest.{
  HttpRequest, new_request, ParseState, parssing_complete, parssing_error, is_parssing_error,
  extend, parssing_request_line, parssing_headers, parssing_body,
}
use web_server.HttpRequest.Resume.{Result, resume_at, extend-extend}
use web_server.HttpRequest.Line.{headers_round, parse_headers, buffered}
use web_server.HttpRequest.Line.Resume.{headers-Falls}
use web_server.HttpRequest.Chunked.{
  trailers_round, parse_chunk_trailers, chunked_round, parse_chunked_body, chunked_measure,
}
use web_server.HttpRequest.Chunked.Steps.{trailers-Falls}
use web_server.HttpRequest.Chunked.Resume.{chunked-Falls, is_chunk_data-le}
use web_server.HttpRequest.Parse.{
  again_as, parse_round_in, parse_round, parse_measure, parse_loop, parse,
}
use web_server.HttpRequest.Parse.Resume.{parse-Falls, parse_loop-resume}

again_as_ends :
    (g : HttpRequest → HttpRequest) (v : Result) (t : HttpRequest) → again_as g v ≢ done (true, t)
unfolding again_as
again_as_ends g (true, u) t e = cc
again_as_ends g (false, u) t e = cc

round-true :
    (c : ParseState) (s t : HttpRequest)
    → s.state ≡ c
    → parse_round_in c s ≡ done (true, t)
    → t.state ≡ parssing_complete
unfolding parse_round_in
round-true parssing_request_line s t c e = absurd (again_as_ends _ _ t e)
round-true parssing_headers s t c e = absurd (again_as_ends _ _ t e)
round-true parssing_body s t c e = absurd (again_as_ends _ _ t e)
round-true parssing_complete s t c e = ground arith
round-true parssing_error s t c e = cc

IsComplete : Result → Type 0
IsComplete (true, t) = t.state ≡ parssing_complete
IsComplete (false, t) = Unit

parse_loop-IsComplete : (s : HttpRequest) → IsComplete (parse_loop s)
unfolding parse_loop IsComplete parse_round
parse_loop-IsComplete s =
    run_inv parse_measure (false, new_request) parse_round parse-Falls (λ _. Unit {0}) IsComplete
      (λ u t p e. tt) (λ u v p e. leave u v.0 v.1 e) s tt
  where
    leave :
        (u : HttpRequest) (b : Bool) (t : HttpRequest)
        → parse_round u ≡ done (b, t)
        → IsComplete (b, t)
    leave u true t e = round-true u.state u t refl e
    leave u false t e = tt

complete_of : (v : Result) → IsComplete v → v.0 ≡ true → v.1.state ≡ parssing_complete
unfolding IsComplete
complete_of (true, t) c e = c
complete_of (false, t) c e = cc

-- `parse` returns true only in the state PARSSING_COMPLETE_.
pub parse_loop-true :
    (s : HttpRequest) → (parse_loop s).0 ≡ true → (parse_loop s).1.state ≡ parssing_complete
parse_loop-true s = complete_of (parse_loop s) (parse_loop-IsComplete s)

-- A request that is complete or refused only keeps what comes behind it.
stands : (s : HttpRequest) (v : Result) → parse_round s ≡ done v → parse_loop s ≡ v
unfolding parse_loop
stands s v e = run-done parse_measure (false, new_request) parse_round parse-Falls e

pub complete_stands : (t : HttpRequest) → t.state ≡ parssing_complete → parse_loop t ≡ (true, t)
unfolding parse_round parse_round_in
complete_stands t e = stands t (true, t) (rw e)

error_stands : (t : HttpRequest) → is_parssing_error t.state ≡ true → parse_loop t ≡ (false, t)
unfolding parse_round parse_round_in
error_stands t e = stands t (false, t) (ground arith)

then_parse :
    (v : Result) (b : Bytes) → IsComplete v → parse_loop (extend v.1 b) ≡ resume_at parse_loop v b
unfolding IsComplete
then_parse (true, t) b c = complete_stands (extend t b) c
then_parse (false, t) b c = elim (Bool-cases (is_parssing_error t.state)) [
  | inl failed ↦ rw failed (error_stands (extend t b) failed)
  | inr waits ↦ rw waits
]

-- Reading an input in two pieces, wherever it is cut, gives the result and the parser state of
-- reading it whole, from any state of the parser.
pub parse-append : (s : HttpRequest) (a b : Bytes) → parse (parse s a).1 b ≡ parse s (a ++ b)
unfolding parse
parse-append s a b =
    then_parse (parse_loop (extend s a)) b (parse_loop-IsComplete (extend s a))
    ∙ sym (parse_loop-resume (extend s a) b)
    ∙ ap parse_loop (extend-extend s a b)

-- The loops of the parser end: `parse` makes at most four turns, the header and the trailer loops
-- at most one for each byte of the buffer and one more, and the chunk loop at most two for each
-- byte and two more; the functions return what the loops give then.
pub parser_loops_end :
    (s : HttpRequest)
    → (loop 4 parse_round s ≡ some (parse_loop s))
      × (loop (suc (length s.buffer)) headers_round s ≡ some (parse_headers s))
      × (loop (2 * length s.buffer + 2) chunked_round s ≡ some (parse_chunked_body s))
      × (loop (suc (length s.buffer)) trailers_round s ≡ some (parse_chunk_trailers s))
unfolding parse_loop parse_headers parse_chunked_body parse_chunk_trailers
parser_loops_end s = (
  loop-run parse_measure (false, new_request) parse_round parse-Falls 4 s (ground arith),
  loop-run buffered (false, new_request) headers_round headers-Falls _ s (omega arith),
  loop-run chunked_measure (false, new_request) chunked_round chunked-Falls _ s
      (omega (arith, is_chunk_data-le s.chunked_state)),
  loop-run buffered (false, new_request) trailers_round trailers-Falls _ s (omega arith),
)
