-- ===== src/HttpRequest/Parse/Limits.antt =====
-- About `parse` of src/HTTPRequest.cpp and `max_body_size_`.
use web_server.Prelude.{
  ℕ, ◌-◌, ◌≤◌, ◌<◌, ◌≡◌, ◌≢◌, refl, ◌∙◌, true, false, ◌⊎◌, inl, inr, [], ◌∷◌, arith, Bool-cases,
  length, take, length-append, length-take,
}
use web_server.Prelude.Loop.{again, done, run_inv}
use web_server.Bytes.{Bytes}
use web_server.Bytes.Decimal.{atol_size}
use web_server.HttpRequest.{
  HttpRequest, new_request, ParseState, parssing_request_line, parssing_headers, parssing_body,
  parssing_complete, parssing_error, extend, chunk_data,
}
use web_server.HttpRequest.Resume.{Result, Turn}
use web_server.HttpRequest.Line.{parse_request_line, parse_headers}
use web_server.HttpRequest.Chunked.{parse_chunked_body}
use web_server.HttpRequest.Line.Keeps.{
  KeepsBody, KeepsBody-trans, parse_request_line-KeepsBody, parse_headers-KeepsBody,
}
use web_server.HttpRequest.Chunked.Stays.{Stays, Fails}
use web_server.HttpRequest.Chunked.Resume.{parse_chunked_body-Stays}
use web_server.HttpRequest.Chunked.Limit.{IsMeasured, Measured, parse_chunked_body-Measured}
use web_server.HttpRequest.Parse.Pieces.{parse_loop-true}
use web_server.HttpRequest.Parse.Body.{content_length, parse_body_plain, parse_body_chunked}
use web_server.HttpRequest.Parse.Resume.{
  parse-Falls, at_request_line, at_headers, at_body, round_in,
}
use web_server.HttpRequest.Parse.{
  body_needs, body_of_length, body_with_length, parse_body, after_headers, again_as, parse_round_in,
  parse_round, parse_measure, parse_loop, parse,
}

-- Of a request with the limit `m`: the request is refused, or the decoder stands inside the data of
-- a chunk, or the body is within the limit.
pub record IsWithinLimit (m : ℕ) (s : HttpRequest) : Type 0 where
  pub limit : s.max_body_size ≡ m
  pub within :
      Fails s
      ⊎ ((s.state ≡ parssing_body) × (s.is_chunked ≡ true) × (s.chunked_state ≡ chunk_data))
      ⊎ (length s.body ≤ m)

module _ (m : ℕ) (positive : 0 < m) where
  kept :
      (s t : HttpRequest)
      → KeepsBody s t
      → s.max_body_size ≡ m
      → length s.body ≤ m
      → IsWithinLimit m t
  kept s t k l b = record { limit = k.max_body_size ∙ l; within = inr (inr (rw k.body b)) }

  TurnWithin : Turn → Type 0
  TurnWithin (again t) = IsWithinLimit m t
  TurnWithin (done v) = IsWithinLimit m v.1

  kept_turn :
      (g : HttpRequest → HttpRequest) (s : HttpRequest) (v : Result)
      → ((t : HttpRequest) → KeepsBody t (g t))
      → s.max_body_size ≡ m
      → length s.body ≤ m
      → KeepsBody s v.1
      → TurnWithin (again_as g v)
  unfolding TurnWithin again_as
  kept_turn g s (true, t) keeps l b k = kept s (g t) (KeepsBody-trans s t (g t) k (keeps t)) l b
  kept_turn g s (false, t) keeps l b k = kept s t k l b

  after_headers-KeepsBody : (t : HttpRequest) → KeepsBody t (after_headers t)
  unfolding after_headers
  after_headers-KeepsBody t = ground arith

  body_end : HttpRequest → HttpRequest
  body_end r = record r { state = parssing_complete }

  -- With a Content-Length the body never outgrows the limit.
  plain_turn :
      (l : Bytes) (s : HttpRequest)
      → s.max_body_size ≡ m
      → length s.body ≤ m
      → TurnWithin (again_as body_end (body_with_length l s))
  unfolding TurnWithin again_as body_end body_with_length body_of_length body_needs
  plain_turn [] s e b = ground arith
  plain_turn (c ∷ l) s e b =
      let len = atol_size (c ∷ l) in
      let n = len - length s.body in
      ground (
        arith,
        length-append s.body (take n s.buffer),
        length-append s.body s.buffer,
        length-take n s.buffer,
      )

  chunked_turn :
      (s : HttpRequest) (v : Result)
      → s.state ≡ parssing_body
      → s.is_chunked ≡ true
      → Measured m positive v
      → Fails v.1 ⊎ Stays s v.1
      → TurnWithin (again_as body_end v)
  unfolding TurnWithin again_as body_end
  chunked_turn s (true, t) e c h p = record { limit = h.0; within = inr (inr h.1) }
  chunked_turn s (false, t) e c (l, inl f) p = record { limit = l; within = inl f }
  chunked_turn s (false, t) e c (l, inr i) (inl f) = record { limit = l; within = inl f }
  chunked_turn s (false, t) e c (l, inr i) (inr stays) = record {
    limit = l;
    within = elim i.within [
      | inl inside ↦ inr (inl (stays.state ∙ e, stays.is_chunked ∙ c, inside))
      | inr short ↦ inr (inr short)
    ];
  }

  within-IsMeasured :
      (s : HttpRequest) → s.state ≡ parssing_body → IsWithinLimit m s → IsMeasured m positive s
  within-IsMeasured s e i = ground arith

  body_le :
      (c : ParseState) (s : HttpRequest)
      → s.state ≡ c
      → c ≢ parssing_body
      → c ≢ parssing_error
      → IsWithinLimit m s
      → length s.body ≤ m
  body_le c s e h k i = ground arith

  body_turn :
      (s : HttpRequest)
      → s.state ≡ parssing_body
      → IsWithinLimit m s
      → TurnWithin (again_as body_end (parse_body s))
  body_turn s e i = elim (Bool-cases s.is_chunked) [
    | inl c ↦ rw (parse_body_chunked s c) (
        chunked_turn s (parse_chunked_body s) e c
          (parse_chunked_body-Measured m positive s (within-IsMeasured s e i))
          (parse_chunked_body-Stays s))
    | inr c ↦ rw (parse_body_plain s c) (plain_turn (content_length s) s i.limit (ground arith))
  ]

  turn_within : (s : HttpRequest) → IsWithinLimit m s → TurnWithin (parse_round s)
  turn_within s i = go s.state refl
    where
      go : (c : ParseState) → s.state ≡ c → TurnWithin (parse_round s)
      go parssing_request_line e = rw (at_request_line s e) (
          kept_turn _ s (parse_request_line s)
            (λ t. record {
              body = refl;
              max_body_size = refl;
              body_too_large = refl;
              chunked_state = refl;
            })
            i.limit (body_le parssing_request_line s e (λ x. cc) (λ x. cc) i)
            (parse_request_line-KeepsBody s))
      go parssing_headers e = rw (at_headers s e) (
          kept_turn _ s (parse_headers s) after_headers-KeepsBody i.limit
            (body_le parssing_headers s e (λ x. cc) (λ x. cc) i) (parse_headers-KeepsBody s))
      go parssing_body e = rw (at_body s e) (unfold body_end in body_turn s e i)
      go parssing_complete e =
          rw (round_in parssing_complete s e) (unfold TurnWithin parse_round_in in i)
      go parssing_error e = rw (round_in parssing_error s e) (unfold TurnWithin parse_round_in in i)

  again_within :
      (s t : HttpRequest) → IsWithinLimit m s → parse_round s ≡ again t → IsWithinLimit m t
  unfolding TurnWithin
  again_within s t i e = rw e at (turn_within s i)

  done_within :
      (s : HttpRequest) (v : Result)
      → IsWithinLimit m s
      → parse_round s ≡ done v
      → IsWithinLimit m v.1
  unfolding TurnWithin
  done_within s v i e = rw e at (turn_within s i)

  loop_within : (s : HttpRequest) → IsWithinLimit m s → IsWithinLimit m (parse_loop s).1
  unfolding parse_loop
  loop_within s i =
      run_inv parse_measure (false, new_request) parse_round parse-Falls (IsWithinLimit m)
        (λ v. IsWithinLimit m v.1) again_within done_within s i

  extend_within :
      (s : HttpRequest) (more : Bytes) → IsWithinLimit m s → IsWithinLimit m (extend s more)
  extend_within s more i = record { limit = i.limit; within = i.within }

-- With a positive limit `m`: when `parse` returns true the body is at most `m` bytes long, for a
-- body with a Content-Length and for a chunked one. The call starts in a state in which the body is
-- at most `m` bytes long, or the request is refused, or the decoder stands inside the data of a
-- chunk, and whatever the input is, one of the three holds behind the call again. In the last two
-- the length of the body is not bounded.
pub parse-IsWithinLimit :
    (m : ℕ) (s : HttpRequest) (data' : Bytes)
    → 0 < m
    → IsWithinLimit m s
    → IsWithinLimit m (parse s data').1
      × ((parse s data').0 ≡ true → length (parse s data').1.body ≤ m)
unfolding parse
parse-IsWithinLimit m s data' positive i =
    let after = loop_within m positive (extend s data') (extend_within m positive s data' i) in
    (
      after,
      λ c.
          body_le m positive parssing_complete (parse_loop (extend s data')).1
            (parse_loop-true (extend s data') c) (λ x. cc) (λ x. cc) after,
    )
