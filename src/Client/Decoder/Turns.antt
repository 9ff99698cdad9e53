-- ===== src/Client/Decoder/Turns.antt =====
-- About one turn of `decode_chunked_for_cgi` in src/Client.cpp, with less and with more input.
use web_server.Prelude.{
  ℕ, zero, suc, ◌+◌, ◌-◌, ◌≤◌, ◌<◌, ◌≡◌, refl, sym, ap, ◌∙◌, true, false, inl, inr, Option, none,
  some, [], ◌∷◌, ◌++◌, append_assoc, arith, if◌then◌else◌, length, take, drop, length-append,
  take-append_le, drop-append_le, Bool-cases, Option-cases, ltb, ltb→lt, ne→==, take_all, drop_all,
  take-length_add, drop-length_add, ◌&&◌, ◌==◌,
}
use web_server.Prelude.Loop.{again, done}
use web_server.Bytes.{Bytes, crlf, find}
use web_server.Bytes.Search.{find_bound, find-append}
use web_server.Client.Decoder.{
  ChunkedDecState, chunk_dec_size, chunk_dec_data, chunk_dec_data_crlf, chunk_dec_trailers,
  chunk_dec_done, Decoding, Turn, wait, size_decoded, size_line, size_at, erase_buf, data_taken,
  avail, data_after, crlf_in, trailer_at, decode_in, decode_buf, decode_round, feed,
}

-- What a turn returns with more input, given what it returned without: an error stands, and a
-- call that ended well is made again.
abbrev pub fed : Bytes → Turn → Turn
fed more (again t) = again (feed t more)
fed more (done v) =
    if v.ok then decode_round (feed v.left more) else done (record v { left = feed v.left more })

-- Input is at hand, whatever stood in the buffer before.
at_hand :
    (s : Decoding) (c : ℕ) (more : Bytes)
    → decode_round (feed s (c ∷ more)) ≡ decode_in s.state (feed s (c ∷ more))
unfolding decode_round decode_buf
at_hand s c more = go s.buf refl
  where
    go :
        (l : Bytes)
        → s.buf ≡ l
        → decode_buf (s.buf ++ c ∷ more) (feed s (c ∷ more)) ≡ decode_in s.state (feed s (c ∷ more))
    go [] e = rw e
    go (d ∷ l) e = rw e

line_fed :
    (s : Decoding) (more : Bytes) (pos : ℕ)
    → find crlf s.buf ≡ some pos
    → (find crlf (s.buf ++ more) ≡ some pos)
      × (take pos (s.buf ++ more) ≡ take pos s.buf)
      × (drop (pos + 2) (s.buf ++ more) ≡ drop (pos + 2) s.buf ++ more)
line_fed s more pos e =
    let b = find_bound crlf s.buf pos e in
    (
      find-append crlf s.buf more pos e,
      take-append_le pos s.buf more (omega arith),
      drop-append_le (pos + 2) s.buf more (omega arith),
    )

at_hand_in :
    (s : Decoding) (state : ChunkedDecState) (c : ℕ) (more : Bytes)
    → s.state ≡ state
    → decode_round (feed s (c ∷ more)) ≡ decode_in state (feed s (c ∷ more))
at_hand_in s state c more e = at_hand s c more ∙ ap (λ x. decode_in x (feed s (c ∷ more))) e

size_decoded-fed :
    (v : Option ℕ) (s : Decoding) (more : Bytes)
    → size_decoded v (feed s more) ≡ fed more (size_decoded v s)
unfolding size_decoded
size_decoded-fed none s more = refl
size_decoded-fed (some n) s more = refl

crlf_in-fed :
    (s : Decoding) (more l : Bytes)
    → decode_round (feed s more) ≡ crlf_in (l ++ more) (feed s more)
    → decode_round (feed s more) ≡ fed more (crlf_in l s)
unfolding crlf_in
crlf_in-fed s more [] h = refl
crlf_in-fed s more (a ∷ []) h = refl
crlf_in-fed s more (a ∷ b ∷ rest) h = h ∙ same
  where
    same : crlf_in (a ∷ b ∷ rest ++ more) (feed s more) ≡ fed more (crlf_in (a ∷ b ∷ rest) s)
    same = elim (Bool-cases (a == 13 && b == 10)) [ inl e ↦ rw e | inr e ↦ rw e ]

-- The whole buffer is taken into an open chunk.
abbrev swallow : Decoding → Decoding
swallow s = record s {
  decoded = s.decoded ++ s.buf;
  buf = [];
  remaining = s.remaining - length s.buf;
}

taken_all : (s : Decoding) → data_taken (length s.buf) s ≡ swallow s
taken_all s = rw (take_all s.buf (length s.buf) refl, drop_all s.buf)

taken_more :
    (s : Decoding) (k : ℕ) (more : Bytes)
    → data_taken (length s.buf + k) (feed s more) ≡ data_taken k (feed (swallow s) more)
taken_more s k more =
    rw
      (
        take-length_add s.buf k more,
        drop-length_add s.buf k more,
        append_assoc s.decoded s.buf (take k more),
      )
      (ap
        (λ r. record {
          state = s.state;
          remaining = r;
          buf = drop k more;
          decoded = s.decoded ++ (s.buf ++ take k more);
        })
        (omega arith))

avail_more :
    (s : Decoding) (more : Bytes)
    → length s.buf < s.remaining
    → avail (feed s more) ≡ length s.buf + avail (feed (swallow s) more)
avail_more s more h = rw (length-append s.buf more) (ground arith)

-- A turn that has input, in each state.
module _ (s : Decoding) (c : ℕ) (more : Bytes) where
  size_fed :
      s.state ≡ chunk_dec_size
      → decode_round (feed s (c ∷ more)) ≡ fed (c ∷ more) (decode_in chunk_dec_size s)
  unfolding decode_in size_at size_line
  size_fed e = elim (Option-cases (find crlf s.buf)) [
    | inl absent ↦ rw absent
    | inr (pos, found) ↦
        let f = line_fed s (c ∷ more) pos found in
        rw (at_hand_in s chunk_dec_size c more e, found, f.0, f.1, f.2)
          (size_decoded-fed _ (erase_buf (pos + 2) s) (c ∷ more))
  ]

  trailers_fed :
      s.state ≡ chunk_dec_trailers
      → decode_round (feed s (c ∷ more)) ≡ fed (c ∷ more) (decode_in chunk_dec_trailers s)
  unfolding decode_in trailer_at
  trailers_fed e = elim (Option-cases (find crlf s.buf)) [
    | inl absent ↦ rw absent
    | inr (zero, found) ↦
        let f = line_fed s (c ∷ more) 0 found in
        rw (at_hand_in s chunk_dec_trailers c more e, found, f.0, f.2)
          (sym (
            at_hand_in (record (erase_buf 2 s) { state = chunk_dec_done }) chunk_dec_done c more
              refl))
    | inr (suc pos, found) ↦
        let f = line_fed s (c ∷ more) (suc pos) found in
        let z : (suc pos == 0) ≡ false = ne→== (suc pos) 0 (omega arith) in
        rw (at_hand_in s chunk_dec_trailers c more e, found, f.0, f.2, z)
  ]

  crlf_fed :
      s.state ≡ chunk_dec_data_crlf
      → decode_round (feed s (c ∷ more)) ≡ fed (c ∷ more) (decode_in chunk_dec_data_crlf s)
  unfolding decode_in crlf_in
  crlf_fed e = crlf_in-fed s (c ∷ more) s.buf (at_hand_in s chunk_dec_data_crlf c more e)

  data_fed :
      s.state ≡ chunk_dec_data
      → decode_round (feed s (c ∷ more)) ≡ fed (c ∷ more) (decode_in chunk_dec_data s)
  unfolding decode_in data_after
  data_fed e = elim (Bool-cases (ltb (length s.buf) s.remaining)) [
    | inl short ↦
        let h = ltb→lt (length s.buf) s.remaining short in
        let z : (s.remaining - length s.buf == 0) ≡ false = ground arith in
        rw (short, taken_all s, z)
          (at_hand_in s chunk_dec_data c more e
            ∙ ap data_after (
                ap (λ k. data_taken k (feed s (c ∷ more))) (avail_more s (c ∷ more) h)
                ∙ taken_more s (avail (feed (swallow s) (c ∷ more))) (c ∷ more))
            ∙ sym (at_hand_in (swallow s) chunk_dec_data c more e))
    | inr long ↦
        let h : s.remaining ≤ length s.buf = ground arith in
        let z : ltb (length (s.buf ++ c ∷ more)) s.remaining ≡ false =
          ground (arith, length-append s.buf (c ∷ more)) in
        rw
          (
            at_hand_in s chunk_dec_data c more e,
            long,
            z,
            take-append_le s.remaining s.buf (c ∷ more) h,
            drop-append_le s.remaining s.buf (c ∷ more) h,
          )
          (let w : (s.remaining - s.remaining == 0) ≡ true = ground arith in rw w)
  ]

  done_fed :
      s.state ≡ chunk_dec_done
      → decode_round (feed s (c ∷ more)) ≡ fed (c ∷ more) (decode_in chunk_dec_done s)
  unfolding decode_in
  done_fed e = refl

pub round_in :
    (s : Decoding) (c : ℕ) (l : Bytes) (k : ChunkedDecState)
    → s.buf ≡ c ∷ l
    → s.state ≡ k
    → decode_round s ≡ decode_in k s
unfolding decode_round decode_buf
round_in s c l k e f = ap (λ b. decode_buf b s) e ∙ ap (λ x. decode_in x s) f

pub round_empty : (s : Decoding) → s.buf ≡ [] → decode_round s ≡ wait s
unfolding decode_round decode_buf
round_empty s e = ap (λ b. decode_buf b s) e

pub decode_turns :
    (s : Decoding) (c : ℕ) (more : Bytes)
    → decode_round (feed s (c ∷ more)) ≡ fed (c ∷ more) (decode_round s)
decode_turns s c more = go s.buf refl s.state refl
  where
    go :
        (l : Bytes)
        → s.buf ≡ l
        → (k : ChunkedDecState) → s.state ≡ k
        → decode_round (feed s (c ∷ more)) ≡ fed (c ∷ more) (decode_round s)
    go [] e k f = rw (round_empty s e)
    go (d ∷ l) e chunk_dec_size f = rw (round_in s d l chunk_dec_size e f) (size_fed s c more f)
    go (d ∷ l) e chunk_dec_data f = rw (round_in s d l chunk_dec_data e f) (data_fed s c more f)
    go (d ∷ l) e chunk_dec_data_crlf f =
        rw (round_in s d l chunk_dec_data_crlf e f) (crlf_fed s c more f)
    go (d ∷ l) e chunk_dec_trailers f =
        rw (round_in s d l chunk_dec_trailers e f) (trailers_fed s c more f)
    go (d ∷ l) e chunk_dec_done f = rw (round_in s d l chunk_dec_done e f) (done_fed s c more f)
