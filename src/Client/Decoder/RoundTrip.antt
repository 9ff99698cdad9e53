-- ===== src/Client/Decoder/RoundTrip.antt =====
-- About `decode_chunked_for_cgi` of src/Client.cpp on the text of a chunked body.
use web_server.Prelude.{
  ℕ, suc, ◌≡◌, ◌≢◌, refl, ap, ◌∙◌, true, false, some, List, [], ◌∷◌, ◌++◌, append_assoc, append-nil,
  arith, length, length-append, take-length, drop-length, ne→==, ltb, ◌==◌,
}
use web_server.Prelude.Loop.{again, run-again, run-done}
use web_server.Bytes.{Bytes, crlf, find}
use web_server.Bytes.Search.{find_char-none}
use web_server.HttpRequest.Line.RoundTrip.{find_line}
use web_server.HttpRequest.Chunked.Hex.{all_hex-Lacks}
use web_server.HttpRequest.Chunked.RoundTrip.{
  IsSize, IsSize-all_hex, IsSize-parse, trailers_text, AreTrailers, Chunk, chunks_text, AreChunks,
  joined,
}
use web_server.Client.Decoder.Hex.{decode_hex-parse_hex_string}
use web_server.Client.Decoder.Turns.{round_in}
use web_server.Client.Decoder.Resume.{decode-Falls}
use web_server.Client.Decoder.{
  chunk_dec_size, chunk_dec_data, chunk_dec_data_crlf, chunk_dec_trailers, chunk_dec_done, Decoding,
  decode_hex, size_decoded, size_line, cut_extension, size_at, data_after, crlf_in, trailer_at,
  decode_in, decode_round, decode_measure, nothing, decode_loop, decode_chunked_for_cgi,
  dec_after_size, ChunkedDecState,
}

-- The decoder is in a state, and holds a text.
abbrev at : ChunkedDecState → ℕ → Bytes → Bytes → Decoding
at state remaining buf decoded = record {
  state = state;
  remaining = remaining;
  buf = buf;
  decoded = decoded;
}

module _ (s t : Decoding) (k : ChunkedDecState) (c : ℕ) (l : Bytes) (h : s.buf ≡ c ∷ l) where
  go_on : s.state ≡ k → decode_in k s ≡ again t → decode_loop s ≡ decode_loop t
  unfolding decode_loop
  go_on f e = run-again decode_measure nothing decode_round decode-Falls (round_in s c l k h f ∙ e)

size_turn :
    (size rest : Bytes) (n r : ℕ) (out : Bytes)
    → IsSize size n
    → decode_loop (at chunk_dec_size r (size ++ (crlf ++ rest)) out)
      ≡ decode_loop (at (dec_after_size n) n rest out)
unfolding decode_in size_at size_line cut_extension size_decoded
size_turn [] rest n r out w = let e = w.nonempty in cc
size_turn (c ∷ size) rest n r out w =
    let (found, line, left) =
      find_line (c ∷ size) rest
        (all_hex-Lacks 13 (c ∷ size) refl (IsSize-all_hex (c ∷ size) n w)) in
    let read : decode_hex (some 0) (c ∷ size) ≡ some n =
      decode_hex-parse_hex_string (c ∷ size) ∙ IsSize-parse (c ∷ size) n w in
    go_on _ (at (dec_after_size n) n rest out) chunk_dec_size c (size ++ (crlf ++ rest)) refl refl (
      rw (
        found,
        line,
        left,
        find_char-none b';' (c ∷ size)
            (all_hex-Lacks b';' (c ∷ size) refl (IsSize-all_hex (c ∷ size) n w)),
        read,
      ))

data_all :
    (data' rest out : Bytes)
    → decode_in chunk_dec_data (at chunk_dec_data (length data') (data' ++ rest) out)
      ≡ again (at chunk_dec_data_crlf 0 rest (out ++ data'))
unfolding decode_in data_after
data_all data' rest out =
    let there : ltb (length (data' ++ rest)) (length data') ≡ false =
      ground (arith, length-append data' rest) in
    rw (there, take-length data' rest, drop-length data' rest) (ground arith)

-- The data of a chunk and the CRLF behind it.
data_turn :
    (c : ℕ) (data' rest out : Bytes)
    → decode_loop (at chunk_dec_data (length (c ∷ data')) (c ∷ data' ++ (crlf ++ rest)) out)
      ≡ decode_loop (at chunk_dec_size 0 rest (out ++ c ∷ data'))
unfolding decode_in crlf_in
data_turn c data' rest out =
    go_on _ (at chunk_dec_data_crlf 0 (crlf ++ rest) (out ++ c ∷ data')) chunk_dec_data c
      (data' ++ (crlf ++ rest)) refl refl (data_all (c ∷ data') (crlf ++ rest) out)
    ∙ go_on _ (at chunk_dec_size 0 rest (out ++ c ∷ data')) chunk_dec_data_crlf 13 (10 ∷ rest) refl
        refl refl

more_data : (n : ℕ) → n ≢ 0 → dec_after_size n ≡ chunk_dec_data
unfolding dec_after_size
more_data n h = rw (ne→== n 0 h)

chunk_turns :
    (size data' rest : Bytes) (r : ℕ) (out : Bytes)
    → IsSize size (length data')
    → length data' ≢ 0
    → decode_loop (at chunk_dec_size r (size ++ (crlf ++ (data' ++ (crlf ++ rest)))) out)
      ≡ decode_loop (at chunk_dec_size 0 rest (out ++ data'))
chunk_turns size [] rest r out w ne = absurd (ne refl)
chunk_turns size (c ∷ data') rest r out w ne =
    size_turn size (c ∷ data' ++ (crlf ++ rest)) (length (c ∷ data')) r out w
    ∙ ap (λ k. decode_loop (at k (length (c ∷ data')) (c ∷ data' ++ (crlf ++ rest)) out))
        (more_data (length (c ∷ data')) ne)
    ∙ data_turn c data' rest out

trailer_turns :
    (ts : List Bytes) (rest out : Bytes)
    → AreTrailers ts
    → decode_loop (at chunk_dec_trailers 0 (trailers_text ts rest) out)
      ≡ record { ok = true; eof = true; left = at chunk_dec_done 0 rest out }
unfolding decode_in trailer_at
trailer_turns [] rest out w =
    unfold decode_loop in
    run-done decode_measure nothing decode_round decode-Falls
      (round_in _ 13 (10 ∷ rest) chunk_dec_trailers refl refl ∙ (unfold find in refl))
trailer_turns ([] ∷ ts) rest out w = let e = w.1 in cc
trailer_turns ((c ∷ t) ∷ ts) rest out w =
    let (found, line, left) = find_line (c ∷ t) (trailers_text ts rest) w.0 in
    go_on _ (at chunk_dec_trailers 0 (trailers_text ts rest) out) chunk_dec_trailers c
      (t ++ (crlf ++ trailers_text ts rest)) refl refl
      (let z : (suc (length t) == 0) ≡ false = ne→== (suc (length t)) 0 (omega arith) in
        rw (found, left, z))
    ∙ trailer_turns ts rest out w.2

decode_loop-text :
    (cs : List Chunk) (zeros : Bytes) (ts : List Bytes) (rest : Bytes) (r : ℕ) (out : Bytes)
    → AreChunks cs
    → IsSize zeros 0
    → AreTrailers ts
    → decode_loop (at chunk_dec_size r (chunks_text cs zeros ts rest) out)
      ≡ record { ok = true; eof = true; left = at chunk_dec_done 0 rest (out ++ joined cs) }
unfolding dec_after_size
decode_loop-text [] zeros ts rest r out w z k =
    rw (append-nil out)
      (size_turn zeros (trailers_text ts rest) 0 r out z ∙ trailer_turns ts rest out k)
decode_loop-text (c ∷ cs) zeros ts rest r out w z k = rw (← append_assoc out c.data' (joined cs)) (
    chunk_turns c.size c.data' (chunks_text cs zeros ts rest) r out w.0 w.1
    ∙ decode_loop-text cs zeros ts rest 0 (out ++ c.data') w.2 z k)

-- A decoder that waits for a size line and holds no input decodes a whole chunked body in one call:
-- it succeeds with the end of the body, the data of the chunks is appended to the decoded bytes in
-- order, the trailers are dropped and what follows them stays in its buffer. The chunks are
-- nonempty, each size line holds hexadecimal digits for the length of its data, and no trailer
-- line is empty or holds a CR.
pub decode-text :
    (cs : List Chunk) (zeros : Bytes) (ts : List Bytes) (rest : Bytes) (r : ℕ) (out : Bytes)
    → AreChunks cs
    → IsSize zeros 0
    → AreTrailers ts
    → decode_chunked_for_cgi
        (record { state = chunk_dec_size; remaining = r; buf = [] })
        (chunks_text cs zeros ts rest)
        out
      ≡ record {
        ok = true;
        eof = true;
        left = record {
          state = chunk_dec_done;
          remaining = 0;
          buf = rest;
          decoded = out ++ joined cs;
        };
      }
unfolding decode_chunked_for_cgi
decode-text cs zeros ts rest r out w z k = decode_loop-text cs zeros ts rest r out w z k
