-- ===== src/Client/Decoder.antt =====
-- The chunk decoder of src/Client.cpp, on the three fields of a client that it works with.
pub mod Resume
pub mod Turns
pub mod Hex
pub mod RoundTrip
use web_server.Prelude.{
  ℕ, ◌+◌, ◌-◌, ◌*◌, ◌%◌, Bool, true, false, ◌&&◌, Option, none, some, List, [], ◌∷◌, ◌++◌,
  if◌then◌else◌, leb, ltb, length, take, drop, ◌==◌,
}
use web_server.Prelude.Loop.{Round, again, done, run}
use web_server.Bytes.{Bytes, crlf, find, find_char}
use web_server.HttpRequest.Chunked.{size_mod}

pub data ChunkedDecState : Type 0 where
  chunk_dec_size chunk_dec_data chunk_dec_data_crlf chunk_dec_trailers chunk_dec_done :
      ChunkedDecState

pub record ChunkDecoder : Type 0 where
  pub state : ChunkedDecState
  pub remaining : ℕ
  pub buf : Bytes

abbrev pub new_decoder : ChunkDecoder
new_decoder = record { state = chunk_dec_size; remaining = 0; buf = [] }

abbrev state_of_number : ℕ → ChunkedDecState
state_of_number n =
    if n == 1
    then chunk_dec_data
    else if n == 2
    then chunk_dec_data_crlf
    else if n == 3
    then chunk_dec_trailers
    else chunk_dec_size

unfoldable pub init_decoder : ℕ → ℕ → ChunkDecoder
init_decoder state remaining = record {
  state = state_of_number state;
  remaining = remaining;
  buf = [];
}

-- A run of the decoder: its state, and the bytes that it has decoded.
pub record Decoding : Type 0 where
  pub state : ChunkedDecState
  pub remaining : ℕ
  pub buf : Bytes
  pub decoded : Bytes

abbrev pub decoder_of : Decoding → ChunkDecoder
decoder_of d = record { state = d.state; remaining = d.remaining; buf = d.buf }

-- What the function returns: its result, `eof`, and the state that it leaves.
pub record Decoded : Type 0 where
  pub ok : Bool
  pub eof : Bool
  pub left : Decoding

abbrev pub Turn : Type 0
Turn = Round Decoding Decoded

abbrev pub wait : Decoding → Turn
wait d = done (record { ok = true; eof = false; left = d })

abbrev pub refuse : Decoding → Turn
refuse d = done (record { ok = false; eof = false; left = d })

abbrev pub finish : Decoding → Turn
finish d = done (record { ok = true; eof = true; left = d })

abbrev digit_or_none : ℕ → Option ℕ
digit_or_none c =
    if leb b'0' c && leb c b'9'
    then some (c - b'0')
    else if leb b'a' c && leb c b'f'
    then some (c - b'a' + 10)
    else if leb b'A' c && leb c b'F'
    then some (c - b'A' + 10)
    else none

add_digit : ℕ → Option ℕ → Option ℕ
add_digit size none = none
add_digit size (some d) = some (((size * 16) % size_mod + d) % size_mod)

-- The loop over the digits; `none` is `return false`.
unfoldable pub decode_hex : Option ℕ → Bytes → Option ℕ
unfolding add_digit
decode_hex none s = none
decode_hex (some size) [] = some size
decode_hex (some size) (c ∷ s) = decode_hex (add_digit size (digit_or_none c)) s

cut_extension : Bytes → Option ℕ → Bytes
cut_extension line none = line
cut_extension line (some semi) = take semi line

dec_after_size : ℕ → ChunkedDecState
dec_after_size size = if size == 0 then chunk_dec_trailers else chunk_dec_data

size_decoded : Option ℕ → Decoding → Turn
size_decoded none d = refuse d
size_decoded (some size) d = again (record d { remaining = size; state = dec_after_size size })

abbrev pub erase_buf : ℕ → Decoding → Decoding
erase_buf n d = record d { buf = drop n d.buf }

size_line : Bytes → Decoding → Turn
size_line line d = size_decoded (decode_hex (some 0) (cut_extension line (find_char b';' line))) d

size_at : Option ℕ → Decoding → Turn
size_at none d = wait d
size_at (some pos) d = size_line (take pos d.buf) (erase_buf (pos + 2) d)

-- `avail` bytes of the chunk are taken.
abbrev pub data_taken : ℕ → Decoding → Decoding
data_taken avail d = record d {
  decoded = d.decoded ++ take avail d.buf;
  buf = drop avail d.buf;
  remaining = d.remaining - avail;
}

abbrev pub avail : Decoding → ℕ
avail d = if ltb (length d.buf) d.remaining then length d.buf else d.remaining

data_after : Decoding → Turn
data_after d = if d.remaining == 0 then again (record d { state = chunk_dec_data_crlf }) else wait d

crlf_in : Bytes → Decoding → Turn
crlf_in (a ∷ b ∷ rest) d =
    if a == 13 && b == 10 then again (record d { buf = rest; state = chunk_dec_size }) else refuse d
crlf_in _ d = wait d

trailer_at : Option ℕ → Decoding → Turn
trailer_at none d = wait d
trailer_at (some pos) d =
    if pos == 0
    then finish (record (erase_buf 2 d) { state = chunk_dec_done })
    else again (erase_buf (pos + 2) d)

pub decode_in : ChunkedDecState → Decoding → Turn
unfolding size_at size_line size_decoded cut_extension dec_after_size data_after crlf_in trailer_at
decode_in chunk_dec_size d = size_at (find crlf d.buf) d
decode_in chunk_dec_data d = data_after (data_taken (avail d) d)
decode_in chunk_dec_data_crlf d = crlf_in d.buf d
decode_in chunk_dec_trailers d = trailer_at (find crlf d.buf) d
decode_in chunk_dec_done d = finish d

decode_buf : Bytes → Decoding → Turn
decode_buf [] d = wait d
decode_buf (_ ∷ _) d = decode_in d.state d

-- One turn of the loop.
unfoldable pub decode_round : Decoding → Turn
unfolding decode_buf decode_in
decode_round d = decode_buf d.buf d

is_dec_data : ChunkedDecState → ℕ
is_dec_data chunk_dec_data = 1
is_dec_data _ = 0

unfoldable pub decode_measure : Decoding → ℕ
unfolding is_dec_data
decode_measure d = 2 * length d.buf + is_dec_data d.state

abbrev pub nothing : Decoded
nothing = record {
  ok = false;
  eof = false;
  left = record { state = chunk_dec_size; remaining = 0; buf = []; decoded = [] };
}

unfoldable pub decode_loop : Decoding → Decoded
decode_loop = run decode_measure nothing decode_round

abbrev pub feed : Decoding → Bytes → Decoding
feed d more = record d { buf = d.buf ++ more }

-- `decoded` is what the caller's string holds before the call.
unfoldable pub decode_chunked_for_cgi : ChunkDecoder → Bytes → Bytes → Decoded
decode_chunked_for_cgi d more decoded =
    decode_loop
      (record { state = d.state; remaining = d.remaining; buf = d.buf ++ more; decoded = decoded })
