-- ===== src/HttpRequest/Chunked/RoundTrip.antt =====
-- About `parse_chunked_body` of src/HTTPRequest.cpp on the text of a chunked body.
use web_server.Prelude.{
  ℕ, ◌^◌, ◌+◌, ◌-◌, ◌%◌, ◌≤◌, ◌<◌, ◌≡◌, ◌≢◌, refl, ap, ◌∙◌, true, false, ◌⊎◌, inl, inr, some, List,
  [], ◌∷◌, ◌++◌, append_assoc, append-nil, arith, length, length-append, take-length, drop-length,
  take_all, leb, le→leb, ne→==,
}
use web_server.Prelude.Loop.{again, done, run-again, run-done}
use web_server.Bytes.{Bytes, crlf, empty, find, find_last_not_of}
use web_server.Bytes.Search.{Lacks, find_char-none}
use web_server.HttpRequest.{
  HttpRequest, new_request, chunk_size, chunk_data, chunk_data_crlf, chunk_trailers,
}
use web_server.HttpRequest.Line.{blanks, buffered}
use web_server.HttpRequest.Line.RoundTrip.{find_line}
use web_server.HttpRequest.Chunked.Hex.{
  all_hex-Lacks, hex_first_not_of, hex_last_not_of, parse_hex_string-value, number_of,
  number_of-all_hex,
}
use web_server.HttpRequest.Chunked.Steps.{trailers-Falls}
use web_server.HttpRequest.Chunked.Resume.{
  chunked-Falls, round_at_size, round_at_data, round_at_crlf, round_at_trailers,
}
use web_server.HttpRequest.Chunked.{
  all_hex, size_mod, parse_hex_string, strip_extension, trim_size, after_size, chunk_size_value,
  chunk_size_trimmed, chunk_size_line, chunk_size_at, parse_chunk_size, check_body_size,
  parse_chunk_data, chunk_crlf_in, parse_chunk_data_crlf, trailer_line, trailer_at, trailers_round,
  parse_chunk_trailers, again_if, chunked_round, chunked_measure, parse_chunked_body,
}

-- A size line: hexadecimal digits that write a number below 2 ^ 64.
pub record IsSize (size : Bytes) (n : ℕ) : Type 0 where
  pub nonempty : empty size ≡ false
  pub number : number_of size ≡ some n
  pub small : n < size_mod

pub IsSize-all_hex : (size : Bytes) (n : ℕ) → IsSize size n → all_hex size ≡ true
IsSize-all_hex size n w = number_of-all_hex size n w.number

pub IsSize-parse : (size : Bytes) (n : ℕ) → IsSize size n → parse_hex_string size ≡ some n
IsSize-parse size n w =
    let small = w.small in
    let m : n % 2 ^ 64 ≡ n = omega arith in parse_hex_string-value size ∙ rw (w.number, m)

trimmed :
    (c : ℕ) (s : Bytes)
    → all_hex (c ∷ s) ≡ true
    → trim_size (c ∷ s) 0 (find_last_not_of blanks (c ∷ s)) ≡ c ∷ s
unfolding trim_size
trimmed c s h =
    let n : length s - 0 + 1 ≡ length (c ∷ s) = omega arith in
    rw (hex_last_not_of c s h, n) (take_all (c ∷ s) (length (c ∷ s)) refl)

size_read :
    (size : Bytes) (n : ℕ) (s : HttpRequest)
    → IsSize size n
    → chunk_size_line size s
      ≡ (true, record s { chunk_remaining = n; chunked_state = after_size n })
unfolding chunk_size_line chunk_size_trimmed chunk_size_value
size_read [] n s w = let e = w.nonempty in cc
size_read (c ∷ size) n s w =
    let hex = IsSize-all_hex (c ∷ size) n w in
    rw (hex_first_not_of c size hex, trimmed c size hex, IsSize-parse (c ∷ size) n w)

parse_chunk_size-text :
    (size rest : Bytes) (n : ℕ) (s : HttpRequest)
    → IsSize size n
    → parse_chunk_size (record s { buffer = size ++ (crlf ++ rest) })
      ≡ (true, record s { buffer = rest; chunk_remaining = n; chunked_state = after_size n })
unfolding parse_chunk_size chunk_size_at strip_extension
parse_chunk_size-text size rest n s w =
    let (found, line, left) =
      find_line size rest (all_hex-Lacks 13 size refl (IsSize-all_hex size n w)) in
    rw
      (
        found,
        line,
        left,
        find_char-none b';' size (all_hex-Lacks b';' size refl (IsSize-all_hex size n w)),
      )
      (size_read size n (record s { buffer = rest }) w)

parse_chunk_data-text :
    (data' rest : Bytes) (s : HttpRequest)
    → s.chunk_remaining ≡ length data'
    → (s.max_body_size ≡ 0) ⊎ (length (s.body ++ data') ≤ s.max_body_size)
    → parse_chunk_data (record s { buffer = data' ++ rest }) ≡ (
      true,
      record s {
        buffer = rest;
        body = s.body ++ data';
        chunk_remaining = 0;
        chunked_state = chunk_data_crlf;
      },
    )
unfolding parse_chunk_data check_body_size
parse_chunk_data-text data' rest s e h =
    let there : leb (length data') (length (data' ++ rest)) ≡ true =
      le→leb _ _ (omega (arith, length-append data' rest)) in
    rw (e, there, take-length data' rest, drop-length data' rest) (ground arith)

parse_chunk_data_crlf-text :
    (rest : Bytes) (s : HttpRequest)
    → parse_chunk_data_crlf (record s { buffer = crlf ++ rest })
      ≡ (true, record s { buffer = rest; chunked_state = chunk_size })
unfolding parse_chunk_data_crlf chunk_crlf_in
parse_chunk_data_crlf-text rest s = refl

-- The trailer lines behind the last chunk; none is empty.
abbrev pub trailers_text : List Bytes → Bytes → Bytes
trailers_text [] rest = crlf ++ rest
trailers_text (t ∷ ts) rest = t ++ (crlf ++ trailers_text ts rest)

abbrev pub AreTrailers : List Bytes → Type 0
AreTrailers [] = Unit
AreTrailers (t ∷ ts) = Lacks 13 t × (empty t ≡ false) × AreTrailers ts

skipped : (t : Bytes) (s : HttpRequest) → empty t ≡ false → trailer_line t s ≡ again s
unfolding trailer_line
skipped [] s h = cc
skipped (c ∷ t) s h = refl

trailers_round-text :
    (t rest : Bytes) (s : HttpRequest)
    → Lacks 13 t
    → empty t ≡ false
    → trailers_round (record s { buffer = t ++ (crlf ++ rest) })
      ≡ again (record s { buffer = rest })
unfolding trailers_round trailer_at
trailers_round-text t rest s h k =
    let (found, line, left) = find_line t rest h in
    rw (found, line, left) (skipped t (record s { buffer = rest }) k)

parse_chunk_trailers-text :
    (ts : List Bytes) (rest : Bytes) (s : HttpRequest)
    → AreTrailers ts
    → parse_chunk_trailers (record s { buffer = trailers_text ts rest })
      ≡ (true, record s { buffer = rest })
unfolding parse_chunk_trailers
parse_chunk_trailers-text [] rest s w =
    run-done buffered (false, new_request) trailers_round trailers-Falls
      (unfold trailers_round trailer_at trailer_line find in refl)
parse_chunk_trailers-text (t ∷ ts) rest s w =
    run-again buffered (false, new_request) trailers_round trailers-Falls
      (trailers_round-text t (trailers_text ts rest) s w.0 w.1)
    ∙ parse_chunk_trailers-text ts rest s w.2

-- A chunk with its size line.
pub record Chunk : Type 0 where
  pub size : Bytes
  pub data' : Bytes

abbrev pub chunks_text : List Chunk → Bytes → List Bytes → Bytes → Bytes
chunks_text [] zeros ts rest = zeros ++ (crlf ++ trailers_text ts rest)
chunks_text (c ∷ cs) zeros ts rest =
    c.size ++ (crlf ++ (c.data' ++ (crlf ++ chunks_text cs zeros ts rest)))

abbrev pub AreChunks : List Chunk → Type 0
AreChunks [] = Unit
AreChunks (c ∷ cs) = IsSize c.size (length c.data') × (length c.data' ≢ 0) × AreChunks cs

abbrev pub joined : List Chunk → Bytes
joined [] = []
joined (c ∷ cs) = c.data' ++ joined cs

go_on :
    (s t : HttpRequest) → chunked_round s ≡ again t → parse_chunked_body s ≡ parse_chunked_body t
unfolding parse_chunked_body
go_on s t e = run-again chunked_measure (false, new_request) chunked_round chunked-Falls e

size_turn :
    (size rest : Bytes) (n : ℕ) (s : HttpRequest)
    → s.chunked_state ≡ chunk_size
    → IsSize size n
    → parse_chunked_body (record s { buffer = size ++ (crlf ++ rest) })
      ≡ parse_chunked_body
          (record s { buffer = rest; chunk_remaining = n; chunked_state = after_size n })
size_turn size rest n s e w = go_on _ _ (
    round_at_size (record s { buffer = size ++ (crlf ++ rest) }) e
    ∙ ap again_if (parse_chunk_size-text size rest n s w))

data_turn :
    (data' rest : Bytes) (s : HttpRequest)
    → s.chunked_state ≡ chunk_data
    → s.chunk_remaining ≡ length data'
    → (s.max_body_size ≡ 0) ⊎ (length (s.body ++ data') ≤ s.max_body_size)
    → parse_chunked_body (record s { buffer = data' ++ (crlf ++ rest) })
      ≡ parse_chunked_body (record s {
        buffer = rest;
        body = s.body ++ data';
        chunk_remaining = 0;
        chunked_state = chunk_size;
      })
data_turn data' rest s e n h =
    let t = record s {
      buffer = crlf ++ rest;
      body = s.body ++ data';
      chunk_remaining = 0;
      chunked_state = chunk_data_crlf;
    } in
    go_on _ t (
      round_at_data (record s { buffer = data' ++ (crlf ++ rest) }) e
      ∙ ap again_if (parse_chunk_data-text data' (crlf ++ rest) s n h))
    ∙ go_on t _ (round_at_crlf t refl ∙ ap again_if (parse_chunk_data_crlf-text rest t))

data_next : (n : ℕ) → n ≢ 0 → after_size n ≡ chunk_data
data_next n h = rw (ne→== n 0 h)

-- A chunk is appended to the body, and the decoder is at the next size line.
chunk_turns :
    (c : Chunk) (rest : Bytes) (s : HttpRequest)
    → s.chunked_state ≡ chunk_size
    → IsSize c.size (length c.data')
    → length c.data' ≢ 0
    → (s.max_body_size ≡ 0) ⊎ (length (s.body ++ c.data') ≤ s.max_body_size)
    → parse_chunked_body (record s { buffer = c.size ++ (crlf ++ (c.data' ++ (crlf ++ rest))) })
      ≡ parse_chunked_body (record s {
        buffer = rest;
        body = s.body ++ c.data';
        chunk_remaining = 0;
        chunked_state = chunk_size;
      })
chunk_turns c rest s e w ne h =
    let n = length c.data' in
    size_turn c.size (c.data' ++ (crlf ++ rest)) n s e w
    ∙ data_turn c.data' rest (record s { chunk_remaining = n; chunked_state = after_size n })
        (data_next n ne) refl h

last_turns :
    (zeros : Bytes) (ts : List Bytes) (rest : Bytes) (s : HttpRequest)
    → s.chunked_state ≡ chunk_size
    → IsSize zeros 0
    → AreTrailers ts
    → parse_chunked_body (record s { buffer = zeros ++ (crlf ++ trailers_text ts rest) })
      ≡ (true, record s { buffer = rest; chunk_remaining = 0; chunked_state = chunk_trailers })
last_turns zeros ts rest s e w k =
    let t = record s { chunk_remaining = 0; chunked_state = chunk_trailers } in
    size_turn zeros (trailers_text ts rest) 0 s e w
    ∙ (unfold parse_chunked_body in
        run-done chunked_measure (false, new_request) chunked_round chunked-Falls
          (round_at_trailers (record t { buffer = trailers_text ts rest }) refl
            ∙ ap done (parse_chunk_trailers-text ts rest t k)))

first_fits :
    (body data' more : Bytes) (m : ℕ)
    → (m ≡ 0) ⊎ (length (body ++ (data' ++ more)) ≤ m)
    → (m ≡ 0) ⊎ (length (body ++ data') ≤ m)
first_fits body data' more m (inl z) = inl z
first_fits body data' more m (inr h) = inr (
    omega (
      arith,
      length-append body (data' ++ more),
      length-append data' more,
      length-append body data',
    ))

-- The data of the chunks is appended to the body, in order; the trailers are dropped, and what
-- follows them stays in the buffer. The chunks are nonempty, each size line holds hexadecimal
-- digits for the length of its data, and all of the body is within the limit, if there is one.
pub parse_chunked_body-text :
    (cs : List Chunk) (zeros : Bytes) (ts : List Bytes) (rest : Bytes) (s : HttpRequest)
    → s.chunked_state ≡ chunk_size
    → AreChunks cs
    → IsSize zeros 0
    → AreTrailers ts
    → (s.max_body_size ≡ 0) ⊎ (length (s.body ++ joined cs) ≤ s.max_body_size)
    → parse_chunked_body (record s { buffer = chunks_text cs zeros ts rest }) ≡ (
      true,
      record s {
        buffer = rest;
        body = s.body ++ joined cs;
        chunk_remaining = 0;
        chunked_state = chunk_trailers;
      },
    )
parse_chunked_body-text [] zeros ts rest s e w z k h =
    rw (append-nil s.body) (last_turns zeros ts rest s e z k)
parse_chunked_body-text (c ∷ cs) zeros ts rest s e w z k h =
    let t = record s {
      body = s.body ++ c.data';
      chunk_remaining = 0;
      chunked_state = chunk_size;
    } in
    chunk_turns c (chunks_text cs zeros ts rest) s e w.0 w.1
      (first_fits s.body c.data' (joined cs) s.max_body_size h)
    ∙ rw (← append_assoc s.body c.data' (joined cs)) (
        parse_chunked_body-text cs zeros ts rest t refl w.2 z k
          (rw (append_assoc s.body c.data' (joined cs)) h))
