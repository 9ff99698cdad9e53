-- ===== src/HttpRequest/Parse/RoundTrip.antt =====
-- About `parse` of src/HTTPRequest.cpp on the text of a request.
use web_server.Prelude.{
  ℕ, ◌-◌, ◌≤◌, ◌≡◌, refl, ap, ◌∙◌, true, false, ◌&&◌, ◌⊎◌, List, [], ◌∷◌, ◌++◌, arith, length, leb,
  ltb, length-append, take-length, drop-length, le→leb, lt→ltb,
}
use web_server.Prelude.Loop.{again, run-again}
use web_server.Bytes.{Bytes, codes, crlf, empty, contains}
use web_server.Bytes.Decimal.{atol_size}
use web_server.HttpRequest.{
  HttpRequest, new_request, set_max_body_size, parssing_headers, parssing_body, parssing_complete,
  chunk_trailers, str_to_lower, get_header_value,
}
use web_server.HttpRequest.Line.{has_body}
use web_server.HttpRequest.Line.RoundTrip.{
  RequestLine, line_text, IsLine, Header, headers_text, AreHeaders, stored, parse_request_line-text,
  parse_headers-text,
}
use web_server.HttpRequest.Chunked.RoundTrip.{
  IsSize, AreTrailers, Chunk, chunks_text, AreChunks, joined, parse_chunked_body-text,
}
use web_server.HttpRequest.Parse.Body.{content_length, parse_body_plain, parse_body_chunked}
use web_server.HttpRequest.Parse.Pieces.{complete_stands}
use web_server.HttpRequest.Parse.Resume.{parse-Falls, at_request_line, at_headers, at_body}
use web_server.HttpRequest.Parse.{
  body_needs, body_of_length, body_with_length, parse_body, after_headers, again_as, parse_round,
  parse_measure, parse_loop, parse,
}

go_on : (s t : HttpRequest) → parse_round s ≡ again t → parse_loop s ≡ parse_loop t
unfolding parse_loop
go_on s t e = run-again parse_measure (false, new_request) parse_round parse-Falls e

module _ (m : ℕ) (l : RequestLine) (hs : List Header) where
  -- The head of the request, as far as the parser stores it.
  abbrev pub head_read : HttpRequest
  head_read = record new_request {
    max_body_size = m;
    method = l.method;
    request_target = l.target;
    protocol = l.protocol;
    state = parssing_headers;
    headers = stored hs [];
  }

  -- The head of the request, and `rest` behind it.
  abbrev pub request_text : Bytes → Bytes
  request_text rest = line_text l ++ (crlf ++ headers_text hs rest)

  head_turns :
      (rest : Bytes)
      → IsLine l
      → AreHeaders hs
      → parse (set_max_body_size m new_request) (request_text rest)
        ≡ parse_loop (after_headers (record head_read { buffer = rest }))
  unfolding parse set_max_body_size
  head_turns rest wl wh =
      let s = record new_request { max_body_size = m } in
      let t = record s {
        method = l.method;
        request_target = l.target;
        protocol = l.protocol;
        state = parssing_headers;
      } in
      go_on _ (record t { buffer = headers_text hs rest })
        (at_request_line (record s { buffer = request_text rest }) refl
          ∙ (unfold again_as in
              ap (again_as (λ r. record r { state = parssing_headers }))
                (parse_request_line-text l (headers_text hs rest) s wl)))
      ∙ go_on _ (after_headers (record head_read { buffer = rest })) (
          at_headers (record t { buffer = headers_text hs rest }) refl
          ∙ (unfold again_as in ap (again_as after_headers) (parse_headers-text hs rest t wh)))

  -- How `parse` reads the headers: no body, or a length, or chunks.
  pub record HasLength (body : Bytes) : Type 0 where
    pub present : has_body head_read ≡ true
    pub unchunked :
        contains
          (codes "chunked")
          (str_to_lower (get_header_value head_read (codes "Transfer-Encoding")))
        ≡ false
    pub given : empty (content_length head_read) ≡ false
    pub value : atol_size (content_length head_read) ≡ length body
    pub allowed : (m ≡ 0) ⊎ (length body ≤ m)

  pub record HasChunks (body : Bytes) : Type 0 where
    pub present : has_body head_read ≡ true
    pub chunked :
        contains
          (codes "chunked")
          (str_to_lower (get_header_value head_read (codes "Transfer-Encoding")))
        ≡ true
    pub allowed : (m ≡ 0) ⊎ (length body ≤ m)

  abbrev at_end : Bytes → HttpRequest
  at_end rest = record head_read { buffer = rest }

  has_body-at_end : (rest : Bytes) → has_body (at_end rest) ≡ has_body head_read
  unfolding has_body
  has_body-at_end rest = refl

  value-at_end :
      (rest key : Bytes) → get_header_value (at_end rest) key ≡ get_header_value head_read key
  unfolding get_header_value
  value-at_end rest key = refl

  after_length :
      (rest body : Bytes)
      → HasLength body
      → after_headers (at_end rest)
        ≡ record (at_end rest) { is_chunked = false; state = parssing_body }
  unfolding after_headers
  after_length rest body h =
      rw (
        has_body-at_end rest,
        h.present,
        value-at_end rest (codes "Transfer-Encoding"),
        h.unchunked,
      )

  after_chunks :
      (rest body : Bytes)
      → HasChunks body
      → after_headers (at_end rest)
        ≡ record (at_end rest) { is_chunked = true; state = parssing_body }
  unfolding after_headers
  after_chunks rest body h =
      rw (has_body-at_end rest, h.present, value-at_end rest (codes "Transfer-Encoding"), h.chunked)

  after_nothing :
      (rest : Bytes)
      → has_body head_read ≡ false
      → after_headers (at_end rest) ≡ record (at_end rest) { state = parssing_complete }
  unfolding after_headers
  after_nothing rest h = rw (has_body-at_end rest, h)

allowed_test : (m n : ℕ) → (m ≡ 0) ⊎ (n ≤ m) → (ltb 0 m && ltb m n) ≡ false
allowed_test m n h = ground arith

body_read :
    (body rest : Bytes) (s : HttpRequest)
    → (s.max_body_size ≡ 0) ⊎ (length body ≤ s.max_body_size)
    → body_of_length (length body) (record s { buffer = body ++ rest; body = [] })
      ≡ (true, record s { buffer = rest; body = body })
unfolding body_of_length body_needs
body_read [] rest s h = rw (allowed_test s.max_body_size 0 h)
body_read (c ∷ body) rest s h =
    let n = length (c ∷ body) in
    let short : ltb 0 n ≡ true = lt→ltb 0 n (omega arith) in
    let need : n - 0 ≡ n = omega arith in
    let there : leb n (length (c ∷ body ++ rest)) ≡ true =
      le→leb _ _ (omega (arith, length-append (c ∷ body) rest)) in
    rw (
      allowed_test s.max_body_size n h,
      short,
      need,
      there,
      take-length (c ∷ body) rest,
      drop-length (c ∷ body) rest,
    )

with_length :
    (l : Bytes) (body rest : Bytes) (s : HttpRequest)
    → empty l ≡ false
    → atol_size l ≡ length body
    → (s.max_body_size ≡ 0) ⊎ (length body ≤ s.max_body_size)
    → body_with_length l (record s { buffer = body ++ rest; body = [] })
      ≡ (true, record s { buffer = rest; body = body })
unfolding body_with_length
with_length [] body rest s e v h = cc
with_length (c ∷ l) body rest s e v h = rw v (body_read body rest s h)

body_turn :
    (s t : HttpRequest)
    → s.state ≡ parssing_body
    → parse_body s ≡ (true, t)
    → parse_loop s ≡ (true, record t { state = parssing_complete })
unfolding again_as
body_turn s t e h =
    go_on s (record t { state = parssing_complete })
      (at_body s e ∙ ap (again_as (λ r. record r { state = parssing_complete })) h)
    ∙ complete_stands (record t { state = parssing_complete }) refl

module _ (m : ℕ) (l : RequestLine) (hs : List Header) (wl : IsLine l) (wh : AreHeaders hs) where
  -- A request whose headers announce no body is complete behind its headers.
  pub parse-bodyless :
      (rest : Bytes)
      → has_body (head_read m l hs) ≡ false
      → parse (set_max_body_size m new_request) (request_text m l hs rest)
        ≡ (true, record (head_read m l hs) { buffer = rest; state = parssing_complete })
  parse-bodyless rest h =
      head_turns m l hs rest wl wh
      ∙ ap parse_loop (after_nothing m l hs rest h)
      ∙ complete_stands _ refl

  -- A request with a Content-Length is complete behind as many bytes.
  pub parse-length :
      (body rest : Bytes)
      → HasLength m l hs body
      → parse (set_max_body_size m new_request) (request_text m l hs (body ++ rest)) ≡ (
        true,
        record (head_read m l hs) {
          buffer = rest;
          body = body;
          is_chunked = false;
          state = parssing_complete;
        },
      )
  parse-length body rest h =
      let s = record (head_read m l hs) { is_chunked = false; state = parssing_body } in
      head_turns m l hs (body ++ rest) wl wh
      ∙ ap parse_loop (after_length m l hs (body ++ rest) body h)
      ∙ body_turn (record s { buffer = body ++ rest }) (record s { buffer = rest; body = body })
          refl
          (parse_body_plain (record s { buffer = body ++ rest }) refl
            ∙ (unfold get_header_value in
                with_length (content_length (head_read m l hs)) body rest s h.given h.value
                  h.allowed))

  -- A request that is sent in chunks is complete behind its trailers.
  pub parse-chunks :
      (cs : List Chunk) (zeros : Bytes) (ts : List Bytes) (rest : Bytes)
      → AreChunks cs
      → IsSize zeros 0
      → AreTrailers ts
      → HasChunks m l hs (joined cs)
      → parse (set_max_body_size m new_request) (request_text m l hs (chunks_text cs zeros ts rest))
        ≡ (
          true,
          record (head_read m l hs) {
            buffer = rest;
            body = joined cs;
            is_chunked = true;
            chunked_state = chunk_trailers;
            state = parssing_complete;
          },
        )
  parse-chunks cs zeros ts rest wc wz wt h =
      let text = chunks_text cs zeros ts rest in
      let s = record (head_read m l hs) { is_chunked = true; state = parssing_body } in
      head_turns m l hs text wl wh
      ∙ ap parse_loop (after_chunks m l hs text (joined cs) h)
      ∙ body_turn (record s { buffer = text }) _ refl
          (parse_body_chunked (record s { buffer = text }) refl
            ∙ parse_chunked_body-text cs zeros ts rest s refl wc wz wt h.allowed)
