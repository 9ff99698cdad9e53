-- ===== src/HttpRequest/Chunked/Limit.antt =====
-- About the chunk steps of src/HTTPRequest.cpp and the limit on the body.
use web_server.Prelude.{ℕ, ◌≤◌, ◌<◌, ◌≡◌, refl, ◌∙◌, Bool, true, false, ◌⊎◌, inr, arith, length}
use web_server.Prelude.Loop.{again, done, run_inv}
use web_server.HttpRequest.{
  HttpRequest, new_request, ChunkedState, chunk_size, chunk_data, chunk_data_crlf, chunk_trailers,
}
use web_server.HttpRequest.Resume.{Result, Turn}
use web_server.HttpRequest.Line.{buffered}
use web_server.HttpRequest.Chunked.{
  chunk_size_line, chunk_size_trimmed, chunk_size_value, chunk_size_at, parse_chunk_size,
  parse_chunk_data, check_body_size, chunk_crlf_in, parse_chunk_data_crlf, trailers_round,
  parse_chunk_trailers, again_if, chunked_round, chunked_measure, parse_chunked_body,
}
use web_server.HttpRequest.Chunked.Stays.{Fails}
use web_server.HttpRequest.Chunked.Steps.{trailers-again, trailers-Falls, trailers-done}
use web_server.HttpRequest.Chunked.Resume.{
  chunked-Falls, round_at_size, round_at_data, round_at_crlf, round_at_trailers,
}

module _ (m : ℕ) (positive : 0 < m) where
  -- Between the steps: the limit is `m`, and the body is within it unless a chunk is being read.
  pub record IsMeasured (s : HttpRequest) : Type 0 where
    pub limit : s.max_body_size ≡ m
    pub within : (s.chunked_state ≡ chunk_data) ⊎ (length s.body ≤ m)

  -- Behind a step, or behind all: the body is within the limit at the end.
  abbrev pub Measured : Result → Type 0
  Measured (true, t) = (t.max_body_size ≡ m) × (length t.body ≤ m)
  Measured (false, t) = (t.max_body_size ≡ m) × (Fails t ⊎ IsMeasured t)

  abbrev StepMeasured : Result → Type 0
  StepMeasured (true, t) = IsMeasured t
  StepMeasured (false, t) = (t.max_body_size ≡ m) × (Fails t ⊎ IsMeasured t)

  size_measured :
      (s : HttpRequest)
      → IsMeasured s
      → s.chunked_state ≡ chunk_size
      → StepMeasured (parse_chunk_size s)
  unfolding parse_chunk_size chunk_size_at chunk_size_line chunk_size_trimmed chunk_size_value
  size_measured s i c = ground arith

  data_measured :
      (s : HttpRequest)
      → IsMeasured s
      → s.chunked_state ≡ chunk_data
      → StepMeasured (parse_chunk_data s)
  unfolding parse_chunk_data check_body_size
  data_measured s i c = ground arith

  crlf_measured :
      (s : HttpRequest)
      → IsMeasured s
      → s.chunked_state ≡ chunk_data_crlf
      → StepMeasured (parse_chunk_data_crlf s)
  unfolding parse_chunk_data_crlf chunk_crlf_in
  crlf_measured s i c = ground arith

  trailers-Measured :
      (s : HttpRequest)
      → s.max_body_size ≡ m
      → length s.body ≤ m
      → Measured (parse_chunk_trailers s)
  unfolding parse_chunk_trailers
  trailers-Measured s l b =
      run_inv buffered (false, new_request) trailers_round trailers-Falls
        (λ t. (t.max_body_size ≡ m) × (length t.body ≤ m)) Measured
        (λ u t p e. rw (trailers-again u t e).2 p) (λ u v p e. leave u v.0 v.1 p e) s (l, b)
    where
      leave :
          (u : HttpRequest) (b : Bool) (t : HttpRequest)
          → (u.max_body_size ≡ m) × (length u.body ≤ m)
          → trailers_round u ≡ done (b, t)
          → Measured (b, t)
      leave u true t p e = ground (arith, trailers-done u (true, t) e)
      leave u false t p e =
          let d = trailers-done u (false, t) e in
          (d.4 ∙ p.0, inr (record { limit = d.4 ∙ p.0; within = inr (rw d.3 p.1) }))

  TurnMeasured : Turn → Type 0
  TurnMeasured (again t) = IsMeasured t
  TurnMeasured (done v) = Measured v

  again_if_measured : (v : Result) → StepMeasured v → TurnMeasured (again_if v)
  unfolding TurnMeasured
  again_if_measured (true, t) h = h
  again_if_measured (false, t) h = h

  turn_measured : (s : HttpRequest) → IsMeasured s → TurnMeasured (chunked_round s)
  turn_measured s i = go s.chunked_state refl
    where
      go : (c : ChunkedState) → s.chunked_state ≡ c → TurnMeasured (chunked_round s)
      go chunk_size c = rw (round_at_size s c) (again_if_measured _ (size_measured s i c))
      go chunk_data c = rw (round_at_data s c) (again_if_measured _ (data_measured s i c))
      go chunk_data_crlf c = rw (round_at_crlf s c) (again_if_measured _ (crlf_measured s i c))
      go chunk_trailers c =
          rw (round_at_trailers s c)
            (unfold TurnMeasured in trailers-Measured s i.limit (ground arith))

  again-IsMeasured : (s t : HttpRequest) → IsMeasured s → chunked_round s ≡ again t → IsMeasured t
  unfolding TurnMeasured
  again-IsMeasured s t i e = rw e at (turn_measured s i)

  done-Measured :
      (s : HttpRequest) (v : Result) → IsMeasured s → chunked_round s ≡ done v → Measured v
  unfolding TurnMeasured
  done-Measured s v i e = rw e at (turn_measured s i)

  -- A chunked body that is complete is within the limit.
  pub parse_chunked_body-Measured :
      (s : HttpRequest) → IsMeasured s → Measured (parse_chunked_body s)
  unfolding parse_chunked_body
  parse_chunked_body-Measured s i =
      run_inv chunked_measure (false, new_request) chunked_round chunked-Falls IsMeasured Measured
        again-IsMeasured (λ u v p e. done-Measured u v p e) s i
