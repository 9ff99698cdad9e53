-- ===== src/HttpRequest/Chunked/Resume.antt =====
-- About the loop of `parse_chunked_body` in src/HTTPRequest.cpp, called on the pieces of an input.
use web_server.Prelude.{
  ◌≤◌, ◌<◌, ◌≡◌, refl, sym, ◌∙◌, true, false, ◌⊎◌, inl, inr, arith, length, length-drop,
  Option-cases,
}
use web_server.Prelude.Loop.{again, done, Falls, run_inv}
use web_server.Bytes.{Bytes, crlf, find}
use web_server.HttpRequest.{
  HttpRequest, new_request, extend, ChunkedState, chunk_size, chunk_data, chunk_data_crlf,
  chunk_trailers,
}
use web_server.HttpRequest.Resume.{
  Result, Turn, resume_at, resume_turn, IsLive, Resumes, run-Resumes,
}
use web_server.HttpRequest.Line.{erase_line}
use web_server.HttpRequest.Line.Resume.{buffered-erase_line}
use web_server.HttpRequest.Chunked.Steps.{
  parse_chunk_size-Resumes, parse_chunk_data-Resumes, parse_chunk_data_crlf-Resumes,
  parse_chunk_trailers-Resumes,
}
use web_server.HttpRequest.Chunked.Stays.{
  Stays, Fails, StaysOrFails, parse_chunk_size-Stays, parse_chunk_data-Stays,
  parse_chunk_data_crlf-Stays, parse_chunk_trailers-Stays,
}
use web_server.HttpRequest.Chunked.{
  chunk_size_value, chunk_size_trimmed, chunk_size_line, chunk_size_at, parse_chunk_size,
  check_body_size, parse_chunk_data, chunk_crlf_in, parse_chunk_data_crlf, parse_chunk_trailers,
  again_if, chunked_round_in, chunked_round, is_chunk_data, chunked_measure, parse_chunked_body,
}

-- The step that each state of the decoder makes.
pub round_at_size :
    (t : HttpRequest)
    → t.chunked_state ≡ chunk_size
    → chunked_round t ≡ again_if (parse_chunk_size t)
unfolding chunked_round chunked_round_in
round_at_size t e = rw (e, chunked_round_in)

pub round_at_data :
    (t : HttpRequest)
    → t.chunked_state ≡ chunk_data
    → chunked_round t ≡ again_if (parse_chunk_data t)
unfolding chunked_round chunked_round_in
round_at_data t e = rw (e, chunked_round_in)

pub round_at_crlf :
    (t : HttpRequest)
    → t.chunked_state ≡ chunk_data_crlf
    → chunked_round t ≡ again_if (parse_chunk_data_crlf t)
unfolding chunked_round chunked_round_in
round_at_crlf t e = rw (e, chunked_round_in)

pub round_at_trailers :
    (t : HttpRequest)
    → t.chunked_state ≡ chunk_trailers
    → chunked_round t ≡ done (parse_chunk_trailers t)
unfolding chunked_round chunked_round_in
round_at_trailers t e = rw (e, chunked_round_in)

step-IsLive : (s t : HttpRequest) → IsLive s → Stays s t → IsLive t
step-IsLive s t live stays = rw stays.state live

-- A step of the chunk loop that can be resumed makes a turn that can be.
module _ (f : HttpRequest → Result) (s : HttpRequest) (more : Bytes) (live : IsLive s)
    (dispatch : (t : HttpRequest)
      → t.chunked_state ≡ s.chunked_state
      → chunked_round t ≡ again_if (f t)) where
  step_again :
      (v : Result)
      → StaysOrFails s v
      → again_if (resume_at f v more) ≡ resume_turn chunked_round (again_if v) more
  step_again (true, t) p = refl
  step_again (false, t) (inl failed) = rw failed
  step_again (false, t) (inr (stays, same)) =
      rw (step-IsLive s t live stays) (sym (dispatch (extend t more) same))

  step_turn :
      Resumes f
      → StaysOrFails s (f s)
      → chunked_round (extend s more) ≡ resume_turn chunked_round (chunked_round s) more
  step_turn resumes stays =
      rw (dispatch (extend s more) refl, dispatch s refl, resumes s more live)
        (step_again (f s) stays)

trailers_turn :
    (s : HttpRequest) (more : Bytes) (v : Result)
    → IsLive s
    → Stays s v.1
    → v.1.chunked_state ≡ s.chunked_state
    → ((t : HttpRequest)
        → t.chunked_state ≡ s.chunked_state
        → chunked_round t ≡ done (parse_chunk_trailers t))
    → ◌≡◌ {A = Turn}
        (done (resume_at parse_chunk_trailers v more))
        (resume_turn chunked_round (done v) more)
trailers_turn s more (true, t) live stays same dispatch = refl
trailers_turn s more (false, t) live stays same dispatch =
    rw (step-IsLive s t live stays, dispatch (extend t more) same)

pub chunked_turns :
    (s : HttpRequest) (more : Bytes)
    → IsLive s
    → chunked_round (extend s more) ≡ resume_turn chunked_round (chunked_round s) more
chunked_turns s more live = go s.chunked_state refl
  where
    go :
        (c : ChunkedState)
        → s.chunked_state ≡ c
        → chunked_round (extend s more) ≡ resume_turn chunked_round (chunked_round s) more
    go chunk_size e =
        step_turn parse_chunk_size s more live (λ t same. round_at_size t (same ∙ e))
          parse_chunk_size-Resumes (parse_chunk_size-Stays s)
    go chunk_data e =
        step_turn parse_chunk_data s more live (λ t same. round_at_data t (same ∙ e))
          parse_chunk_data-Resumes (parse_chunk_data-Stays s)
    go chunk_data_crlf e =
        step_turn parse_chunk_data_crlf s more live (λ t same. round_at_crlf t (same ∙ e))
          parse_chunk_data_crlf-Resumes (parse_chunk_data_crlf-Stays s)
    go chunk_trailers e =
        rw
          (
            round_at_trailers (extend s more) e,
            round_at_trailers s e,
            parse_chunk_trailers-Resumes s more live,
          )
          (trailers_turn s more (parse_chunk_trailers s) live (parse_chunk_trailers-Stays s).0
            (parse_chunk_trailers-Stays s).1 (λ t same. round_at_trailers t (same ∙ e)))

chunk_size_line-true :
    (line : Bytes) (s t : HttpRequest) → chunk_size_line line s ≡ (true, t) → t.buffer ≡ s.buffer
unfolding chunk_size_line chunk_size_trimmed chunk_size_value
chunk_size_line-true line s t e = ground arith

parse_chunk_size_falls :
    (s t : HttpRequest) → parse_chunk_size s ≡ (true, t) → length t.buffer < length s.buffer
unfolding parse_chunk_size chunk_size_at
parse_chunk_size_falls s t e = elim (Option-cases (find crlf s.buffer)) [
  | inl absent ↦ ground arith
  | inr (pos, found) ↦
      let b = buffered-erase_line s pos found in
      let same = chunk_size_line-true _ (erase_line pos s) t (rw found at e) in rw same b
]

parse_chunk_data_falls :
    (s t : HttpRequest)
    → parse_chunk_data s ≡ (true, t)
    → (length t.buffer ≤ length s.buffer) × (t.chunked_state ≡ chunk_data_crlf)
unfolding parse_chunk_data check_body_size
parse_chunk_data_falls s t e = ground (arith, length-drop s.chunk_remaining s.buffer)

parse_chunk_data_crlf_falls :
    (s t : HttpRequest)
    → parse_chunk_data_crlf s ≡ (true, t)
    → (length t.buffer < length s.buffer) × (t.chunked_state ≡ chunk_size)
unfolding parse_chunk_data_crlf chunk_crlf_in
parse_chunk_data_crlf_falls s t e = ground arith

again_if-again : (v : Result) (t : HttpRequest) → again_if v ≡ again t → v ≡ (true, t)
again_if-again (true, u) t e = cc
again_if-again (false, u) t e = cc

pub is_chunk_data-le : (c : ChunkedState) → is_chunk_data c ≤ 1
is_chunk_data-le c = ground arith

pub chunked-Falls : Falls chunked_measure chunked_round
chunked-Falls s t e = go s.chunked_state refl
  where
    go : (c : ChunkedState) → s.chunked_state ≡ c → chunked_measure t < chunked_measure s
    go chunk_size c =
        let h = parse_chunk_size_falls s t (again_if-again _ t (rw (round_at_size s c) at e)) in
        let l = is_chunk_data-le t.chunked_state in omega arith
    go chunk_data c =
        let (h, d) =
          parse_chunk_data_falls s t (again_if-again _ t (rw (round_at_data s c) at e)) in
        rw (c, d) (omega arith)
    go chunk_data_crlf c =
        let (h, d) =
          parse_chunk_data_crlf_falls s t (again_if-again _ t (rw (round_at_crlf s c) at e)) in
        rw (c, d) (omega arith)
    go chunk_trailers c = let d = rw (round_at_trailers s c) at e in cc

-- Every turn leaves the stage and the framing alone, or fails.
TurnStays : HttpRequest → Turn → Type 0
TurnStays s (again t) = Stays s t
TurnStays s (done v) = Fails v.1 ⊎ Stays s v.1

again_if-Stays : (s : HttpRequest) (v : Result) → StaysOrFails s v → TurnStays s (again_if v)
unfolding TurnStays
again_if-Stays s (true, t) h = h
again_if-Stays s (false, t) (inl h) = inl h
again_if-Stays s (false, t) (inr h) = inr h.0

chunked_round-Stays : (s : HttpRequest) → TurnStays s (chunked_round s)
chunked_round-Stays s = go s.chunked_state refl
  where
    go : (c : ChunkedState) → s.chunked_state ≡ c → TurnStays s (chunked_round s)
    go chunk_size c = rw (round_at_size s c) (again_if-Stays s _ (parse_chunk_size-Stays s))
    go chunk_data c = rw (round_at_data s c) (again_if-Stays s _ (parse_chunk_data-Stays s))
    go chunk_data_crlf c =
        rw (round_at_crlf s c) (again_if-Stays s _ (parse_chunk_data_crlf-Stays s))
    go chunk_trailers c =
        rw (round_at_trailers s c) (unfold TurnStays in inr (parse_chunk_trailers-Stays s).0)

chunked_round-again : (s t : HttpRequest) → chunked_round s ≡ again t → Stays s t
unfolding TurnStays
chunked_round-again s t e = rw e at (chunked_round-Stays s)

chunked_round-done :
    (s : HttpRequest) (v : Result) → chunked_round s ≡ done v → Fails v.1 ⊎ Stays s v.1
unfolding TurnStays
chunked_round-done s v e = rw e at (chunked_round-Stays s)

pub parse_chunked_body-Resumes : Resumes parse_chunked_body
unfolding parse_chunked_body
parse_chunked_body-Resumes s more live =
    run-Resumes chunked_measure (false, new_request) chunked_round chunked-Falls IsLive
      (λ u t ok e. step-IsLive u t ok (chunked_round-again u t e)) chunked_turns s more live

Stays-trans : (s t u : HttpRequest) → Stays s t → Stays t u → Stays s u
Stays-trans s t u p q = record {
  state = q.state ∙ p.state;
  is_chunked = q.is_chunked ∙ p.is_chunked;
}

pub parse_chunked_body-Stays :
    (s : HttpRequest) → Fails (parse_chunked_body s).1 ⊎ Stays s (parse_chunked_body s).1
unfolding parse_chunked_body
parse_chunked_body-Stays s =
    run_inv chunked_measure (false, new_request) chunked_round chunked-Falls (λ t. Stays s t)
      (λ v. Fails v.1 ⊎ Stays s v.1) (λ u t p e. Stays-trans s u t p (chunked_round-again u t e))
      (λ u v p e. last u v p (chunked_round-done u v e)) s
      (record { state = refl; is_chunked = refl })
  where
    last :
        (u : HttpRequest) (v : Result)
        → Stays s u
        → Fails v.1 ⊎ Stays u v.1
        → Fails v.1 ⊎ Stays s v.1
    last u v p (inl f) = inl f
    last u v p (inr q) = inr (Stays-trans s u v.1 p q)
