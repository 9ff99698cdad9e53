-- ===== src/HttpRequest/Parse/Resume.antt =====
-- About `parse` of src/HTTPRequest.cpp, called again with more input.
use web_server.Prelude.{◌<◌, ◌≡◌, refl, sym, ◌∙◌, true, false, ◌⊎◌, inl, inr, arith, Bool-cases}
use web_server.Prelude.Loop.{again, Falls}
use web_server.Bytes.{Bytes}
use web_server.HttpRequest.{
  HttpRequest, new_request, ParseState, parssing_request_line, parssing_headers, parssing_body,
  parssing_complete, parssing_error, is_parssing_error, extend, get_header_value,
}
use web_server.HttpRequest.Resume.{Result, resume_at, resume_turn, IsLive, Resumes, run-Resumes}
use web_server.HttpRequest.Line.{parse_request_line, parse_headers, has_body}
use web_server.HttpRequest.Line.Resume.{
  parse_request_line-Resumes, parse_request_line-state, parse_headers-Resumes, parse_headers-state,
}
use web_server.HttpRequest.Chunked.Stays.{Fails}
use web_server.HttpRequest.Parse.Body.{parse_body-Resumes, parse_body-state}
use web_server.HttpRequest.Parse.{
  parse_body, after_headers, again_as, parse_round_in, parse_round, parse_measure, stages_left,
  parse_loop,
}

-- A stage whose function can be resumed makes a turn that can be.
module _ (f : HttpRequest → Result) (g : HttpRequest → HttpRequest) (s : HttpRequest) (more : Bytes)
    (live : IsLive s)
    (dispatch : (t : HttpRequest) → t.state ≡ s.state → parse_round t ≡ again_as g (f t))
    (commutes : (t : HttpRequest) → g (extend t more) ≡ extend (g t) more)
    (waits : (t : HttpRequest) → f s ≡ (false, t) → Fails t ⊎ (t.state ≡ s.state)) where
  stage_again :
      (v : Result)
      → f s ≡ v
      → again_as g (resume_at f v more) ≡ resume_turn parse_round (again_as g v) more
  unfolding again_as
  stage_again (true, t) e = rw (commutes t)
  stage_again (false, t) e = elim (Bool-cases (is_parssing_error t.state)) [
    | inl failed ↦ rw failed
    | inr waiting ↦ elim (waits t e) [
      | inl failed ↦ cc
      | inr same ↦ rw waiting (sym (dispatch (extend t more) same))
    ]
  ]

  stage_turn :
      Resumes f → parse_round (extend s more) ≡ resume_turn parse_round (parse_round s) more
  stage_turn resumes =
      rw (dispatch (extend s more) refl, dispatch s refl, resumes s more live)
        (stage_again (f s) refl)

pub round_in : (c : ParseState) (t : HttpRequest) → t.state ≡ c → parse_round t ≡ parse_round_in c t
unfolding parse_round
round_in c t e = rw e

pub at_request_line :
    (t : HttpRequest)
    → t.state ≡ parssing_request_line
    → parse_round t ≡ again_as (λ r. record r { state = parssing_headers }) (parse_request_line t)
unfolding parse_round_in
at_request_line t e = round_in parssing_request_line t e

pub at_headers :
    (t : HttpRequest)
    → t.state ≡ parssing_headers
    → parse_round t ≡ again_as after_headers (parse_headers t)
unfolding parse_round_in
at_headers t e = round_in parssing_headers t e

pub at_body :
    (t : HttpRequest)
    → t.state ≡ parssing_body
    → parse_round t ≡ again_as (λ r. record r { state = parssing_complete }) (parse_body t)
unfolding parse_round_in
at_body t e = round_in parssing_body t e

has_body-extend : (more : Bytes) (t : HttpRequest) → has_body (extend t more) ≡ has_body t
unfolding has_body
has_body-extend more t = refl

header_value-extend :
    (more key : Bytes) (t : HttpRequest)
    → get_header_value (extend t more) key ≡ get_header_value t key
unfolding get_header_value
header_value-extend more key t = refl

after_headers-extend :
    (more : Bytes) (t : HttpRequest) → after_headers (extend t more) ≡ extend (after_headers t) more
unfolding after_headers
after_headers-extend more t = elim (Bool-cases (has_body t)) [
  | inl yes_body ↦ rw (has_body-extend more t, yes_body, header_value-extend more _ t)
  | inr no_body ↦ rw (has_body-extend more t, no_body)
]

parse_turns :
    (s : HttpRequest) (more : Bytes)
    → parse_round (extend s more) ≡ resume_turn parse_round (parse_round s) more
parse_turns s more = go s.state refl
  where
    go :
        (c : ParseState)
        → s.state ≡ c
        → parse_round (extend s more) ≡ resume_turn parse_round (parse_round s) more
    go parssing_request_line e =
        stage_turn parse_request_line _ s more (rw e) (λ t same. at_request_line t (same ∙ e))
          (λ t. refl) (parse_request_line-state s) parse_request_line-Resumes
    go parssing_headers e =
        stage_turn parse_headers after_headers s more (rw e) (λ t same. at_headers t (same ∙ e))
          (after_headers-extend more) (λ t h. rw h at (parse_headers-state s)) parse_headers-Resumes
    go parssing_body e =
        stage_turn parse_body _ s more (rw e) (λ t same. at_body t (same ∙ e)) (λ t. refl)
          (parse_body-state s) parse_body-Resumes
    go parssing_complete e =
        rw (round_in parssing_complete s e, round_in parssing_complete (extend s more) e)
          (unfold parse_round_in in refl)
    go parssing_error e =
        rw (round_in parssing_error s e, round_in parssing_error (extend s more) e)
          (unfold parse_round_in in rw e)

again_as-again :
    (g : HttpRequest → HttpRequest) (v : Result) (t : HttpRequest)
    → again_as g v ≡ again t
    → t ≡ g v.1
unfolding again_as
again_as-again g (true, u) t e = cc
again_as-again g (false, u) t e = cc

after_headers-stage : (t : HttpRequest) → stages_left (after_headers t).state < 2
unfolding after_headers
after_headers-stage t = ground arith

pub parse-Falls : Falls parse_measure parse_round
parse-Falls s t e = go s.state refl
  where
    go : (c : ParseState) → s.state ≡ c → parse_measure t < parse_measure s
    go parssing_request_line c =
        let h = again_as-again _ _ t (rw (at_request_line s c) at e) in rw (h, c) (omega arith)
    go parssing_headers c =
        let h = again_as-again _ _ t (rw (at_headers s c) at e) in rw (h, c) (after_headers-stage _)
    go parssing_body c =
        let h = again_as-again _ _ t (rw (at_body s c) at e) in rw (h, c) (omega arith)
    go parssing_complete c =
        let h = rw (round_in parssing_complete s c) at e in unfold parse_round_in in cc
    go parssing_error c =
        let h = rw (round_in parssing_error s c) at e in unfold parse_round_in in cc

-- The loop can be resumed, whatever stage it has reached.
pub parse_loop-resume :
    (s : HttpRequest) (more : Bytes)
    → parse_loop (extend s more) ≡ resume_at parse_loop (parse_loop s) more
unfolding parse_loop
parse_loop-resume s more =
    run-Resumes parse_measure (false, new_request) parse_round parse-Falls (λ _. Unit {0})
      (λ u t ok e. tt) (λ u x ok. parse_turns u x) s more tt
