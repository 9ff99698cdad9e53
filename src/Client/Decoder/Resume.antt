-- ===== src/Client/Decoder/Resume.antt =====
-- About the loop of `decode_chunked_for_cgi` in src/Client.cpp, called on the pieces of an input.
use web_server.Prelude.{
  ℕ, ◌+◌, ◌*◌, ◌≤◌, ◌<◌, ◌≡◌, refl, sym, ap, ◌∙◌, inl, inr, Option, some, [], ◌∷◌, ◌++◌,
  append_assoc, arith, if◌then◌else◌, length, length-drop, Bool-cases, Option-cases,
}
use web_server.Prelude.Loop.{
  again, done, loop, loop-run, Falls, run_inv, run-again, run-done, run_lem, resume,
}
use web_server.Bytes.{Bytes, crlf, find}
use web_server.Bytes.Search.{find_bound}
use web_server.Client.Decoder.{
  ChunkedDecState, chunk_dec_size, chunk_dec_data, chunk_dec_data_crlf, chunk_dec_trailers,
  chunk_dec_done, Decoding, Decoded, size_decoded, size_line, size_at, erase_buf, avail, data_after,
  crlf_in, trailer_at, decode_in, decode_round, decode_measure, decode_chunked_for_cgi,
  ChunkDecoder, decoder_of, is_dec_data, nothing, decode_loop, feed,
}
use web_server.Client.Decoder.Turns.{round_in, round_empty, decode_turns}

is_dec_data-le : (k : ChunkedDecState) → is_dec_data k ≤ 1
unfolding is_dec_data
is_dec_data-le k = ground arith

size_decoded-again : (v : Option ℕ) (s t : Decoding) → size_decoded v s ≡ again t → t.buf ≡ s.buf
unfolding size_decoded
size_decoded-again v s t e = ground arith

crlf_in-again :
    (l : Bytes) (s t : Decoding)
    → crlf_in l s ≡ again t
    → (2 + length t.buf ≡ length l) × (t.state ≡ chunk_dec_size)
unfolding crlf_in
crlf_in-again [] s t e = cc
crlf_in-again (a ∷ []) s t e = cc
crlf_in-again (a ∷ b ∷ l) s t e = ground arith

in_falls :
    (k : ChunkedDecState) (s t : Decoding)
    → s.state ≡ k
    → decode_in k s ≡ again t
    → decode_measure t < decode_measure s
unfolding decode_in decode_measure is_dec_data size_at size_line size_decoded data_after crlf_in
    trailer_at
in_falls chunk_dec_size s t f e = elim (Option-cases (find crlf s.buf)) [
  | inl absent ↦ let h = rw absent at e in cc
  | inr (pos, found) ↦
      let b = find_bound crlf s.buf pos found in
      let l = is_dec_data-le t.state in
      let same = size_decoded-again _ (erase_buf (pos + 2) s) t (rw found at e) in
      let n = ap length same in omega (arith, length-drop (pos + 2) s.buf)
]
in_falls chunk_dec_data s t f e = ground (arith, length-drop (avail s) s.buf)
in_falls chunk_dec_data_crlf s t f e =
    let h = crlf_in-again s.buf s t e in rw h.1 (omega (arith, h.0))
in_falls chunk_dec_trailers s t f e = elim (Option-cases (find crlf s.buf)) [
  | inl absent ↦ let h = rw absent at e in cc
  | inr (pos, found) ↦
      let b = find_bound crlf s.buf pos found in
      ground (arith, length-drop (pos + 2) s.buf, length-drop 2 s.buf)
]
in_falls chunk_dec_done s t f e = cc

pub decode-Falls : Falls decode_measure decode_round
decode-Falls s t e = go s.buf refl s.state refl
  where
    go :
        (l : Bytes)
        → s.buf ≡ l
        → (k : ChunkedDecState) → s.state ≡ k
        → decode_measure t < decode_measure s
    go [] b k f = let h = rw (round_empty s b) at e in cc
    go (d ∷ l) b k f = in_falls k s t f (sym (round_in s d l k b f) ∙ e)

-- What a call on more input returns, given what it returned without.
abbrev decode_again : Decoded → Bytes → Decoded
decode_again v more =
    if v.ok then decode_loop (feed v.left more) else record v { left = feed v.left more }

decode_leaves :
    (s : Decoding) (c : ℕ) (more : Bytes) (v : Decoded)
    → decode_round s ≡ done v
    → decode_loop (feed s (c ∷ more)) ≡ decode_again v (c ∷ more)
unfolding decode_loop
decode_leaves s c more v e = elim (Bool-cases v.ok) [
  | inl ok ↦ rw ok (
      run_lem decode_measure nothing decode_round decode-Falls (feed s (c ∷ more))
      ∙ ap (resume decode_loop) {y = decode_round (feed v.left (c ∷ more))}
          (decode_turns s c more ∙ rw (e, ok))
      ∙ sym (run_lem decode_measure nothing decode_round decode-Falls (feed v.left (c ∷ more))))
  | inr bad ↦ rw bad (
      run-done decode_measure nothing decode_round decode-Falls
        (decode_turns s c more ∙ rw (e, bad)))
]

decode_loop_fed :
    (s : Decoding) (c : ℕ) (more : Bytes)
    → decode_loop (feed s (c ∷ more)) ≡ decode_again (decode_loop s) (c ∷ more)
unfolding decode_loop
decode_loop_fed s c more =
    run_inv decode_measure nothing decode_round decode-Falls
      (λ t. decode_loop (feed s (c ∷ more)) ≡ decode_loop (feed t (c ∷ more)))
      (λ v. decode_loop (feed s (c ∷ more)) ≡ decode_again v (c ∷ more))
      (λ u t p e.
        p
        ∙ run-again decode_measure nothing decode_round decode-Falls (decode_turns u c more ∙ rw e))
      (λ u v p e. p ∙ decode_leaves u c more v e) s refl

-- A call on the pieces `a` and then `c ∷ more` does what one call on the whole does: if the first
-- call succeeds, the second one, made on the decoder and the decoded bytes that the first one
-- left, returns the same success, the same end of the body, the same decoded bytes and the same
-- decoder; if the first call fails, the call on the whole fails too, with the same decoded bytes.
pub decode-append :
    (d : ChunkDecoder) (a : Bytes) (c : ℕ) (more decoded : Bytes)
    → decode_chunked_for_cgi d (a ++ c ∷ more) decoded ≡ (
        let v = decode_chunked_for_cgi d a decoded in
        if v.ok
        then decode_chunked_for_cgi (decoder_of v.left) (c ∷ more) v.left.decoded
        else record v { left = feed v.left (c ∷ more) })
unfolding decode_chunked_for_cgi
decode-append d a c more decoded = rw (sym (append_assoc d.buf a (c ∷ more))) (
    decode_loop_fed
      (record { state = d.state; remaining = d.remaining; buf = d.buf ++ a; decoded = decoded }) c
      more)

-- The loop ends: from any state of the decoder at most two turns for each byte of the buffer and
-- two more return, with what the function returns.
pub decoder_loop_ends :
    (d : Decoding) → loop (2 * length d.buf + 2) decode_round d ≡ some (decode_loop d)
unfolding decode_loop decode_measure
decoder_loop_ends d =
    let l = is_dec_data-le d.state in
    loop-run decode_measure nothing decode_round decode-Falls (2 * length d.buf + 2) d (omega arith)
