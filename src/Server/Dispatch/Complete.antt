-- ===== src/Server/Dispatch/Complete.antt =====
-- About a chunked request that is complete when `dispatch_cgi` of src/Server.cpp hands it to a
-- program.
use web_server.Prelude.{
  ℕ, ◌≡◌, refl, sym, true, false, some, inl, inr, List, [], Bool-cases, length, ltb,
}
use mathlib.Core.Path.{subst}
use web_server.Bytes.{Bytes, empty, tolower}
use web_server.StdMap.{lookup-insert_self, int_order}
use web_server.HttpRequest.{
  HttpRequest, new_request, set_max_body_size, str_to_lower, get_header_value, get_chunked_state,
  chunk_trailers, parssing_complete,
}
use web_server.HttpRequest.Line.RoundTrip.{Header, IsLine, AreHeaders, RequestLine}
use web_server.HttpRequest.Chunked.RoundTrip.{
  Chunk, AreChunks, IsSize, AreTrailers, chunks_text, joined,
}
use web_server.HttpRequest.Parse.{parse}
use web_server.HttpRequest.Parse.RoundTrip.{head_read, request_text, HasChunks, parse-chunks}
use web_server.Client.{
  Client, start_cgi, set_cgi_body_content_length, set_cgi_chunked, init_cgi_chunk_decoder,
  add_cgi_body_bytes_forwarded, append_cgi_stdin_pending,
}
use web_server.Server.State.{Server, get_client, put_client}
use web_server.Server.CgiInput.{next_write}
use web_server.Server.Dispatch.{
  Handover, is_te_chunked, expected_length, seed_decoder, hand_over, first_write, end_complete,
  register_pipes, program_started,
}

-- The decoder of a client, at the place where the parser has stopped.
abbrev seeded : HttpRequest → Client → Client
seeded req c =
    init_cgi_chunk_decoder (get_chunked_state req) req.chunk_remaining
      (set_cgi_chunked true (set_cgi_body_content_length (expected_length req) c))

chunked_handover :
    (req : HttpRequest) (c : Client)
    → is_te_chunked req ≡ true
    → empty req.buffer ≡ true
    → hand_over req c
      ≡ record { client = seeded req c; body_to_write = req.body; body_complete = false }
unfolding hand_over seed_decoder
chunked_handover req c te none_left = rw (te, none_left)

-- A client whose pipe to the program is open, without an end.
pub record IsOpenTo (fd stdin_fd : ℕ) (c : Client) : Type 0 where
  pub own : c.fd ≡ fd
  pub pipe : c.cgi_stdin_fd ≡ some stdin_fd
  pub endless : c.cgi_stdin_eof ≡ false

first_write-IsOpenTo :
    (fd stdin_fd to : ℕ) (h : Handover) (s : Server)
    → IsOpenTo fd stdin_fd h.client
    → IsOpenTo fd stdin_fd (first_write to h s).0
unfolding first_write add_cgi_body_bytes_forwarded append_cgi_stdin_pending
first_write-IsOpenTo fd stdin_fd to h s o = elim (Bool-cases (empty h.body_to_write)) [
  | inl none_left ↦ rw none_left (record { own = o.own; pipe = o.pipe; endless = o.endless })
  | inr some_left ↦ elim (Bool-cases (ltb (next_write s.sys.writes).0 (length h.body_to_write))) [
    | inl part ↦ rw (some_left, part) (record { own = o.own; pipe = o.pipe; endless = o.endless })
    | inr all ↦ rw (some_left, all) (record { own = o.own; pipe = o.pipe; endless = o.endless })
  ]
]

-- The client that a state has for a descriptor, with its pipe open.
pub record Waits (fd stdin_fd : ℕ) (s : Server) : Type 0 where
  pub client : Client
  pub there : get_client fd s ≡ some client
  pub waiting : IsOpenTo fd stdin_fd client

put-Waits :
    (fd stdin_fd : ℕ) (c : Client) (s : Server)
    → IsOpenTo fd stdin_fd c
    → Waits fd stdin_fd (put_client c s)
unfolding get_client put_client
put-Waits fd stdin_fd c s o = record {
  client = c;
  there =
      subst (λ k. get_client k (put_client c s) ≡ some c) o.own
        (lookup-insert_self c.fd c s.clients);
  waiting = o;
}

seeded-IsOpenTo :
    (pid stdin_fd stdout_fd : ℕ) (req : HttpRequest) (c : Client)
    → IsOpenTo c.fd stdin_fd (seeded req (start_cgi pid stdin_fd stdout_fd c))
unfolding start_cgi set_cgi_chunked set_cgi_body_content_length init_cgi_chunk_decoder
seeded-IsOpenTo pid stdin_fd stdout_fd req c = record { own = refl; pipe = refl; endless = refl }

started-Waits :
    (pid stdin_fd stdout_fd : ℕ) (req : HttpRequest) (c : Client) (s : Server)
    → is_te_chunked req ≡ true
    → empty req.buffer ≡ true
    → Waits c.fd stdin_fd (program_started pid stdin_fd stdout_fd req c s)
unfolding program_started end_complete
started-Waits pid stdin_fd stdout_fd req c s te none_left =
    let e = chunked_handover req (start_cgi pid stdin_fd stdout_fd c) te none_left in
    subst
      (λ h. Waits c.fd stdin_fd (
        let written = first_write stdin_fd h s in
        let ended = end_complete h.body_complete written.0 written.1 in
        put_client ended.0 (register_pipes stdout_fd h.body_complete ended.0 ended.1)))
      (sym e)
      (put-Waits c.fd stdin_fd _ _ (
        first_write-IsOpenTo c.fd stdin_fd stdin_fd
          (record {
            client = seeded req (start_cgi pid stdin_fd stdout_fd c);
            body_to_write = req.body;
            body_complete = false;
          })
          s (seeded-IsOpenTo pid stdin_fd stdout_fd req c)))

-- The request that the parser leaves.
abbrev read_request : ℕ → RequestLine → List Header → Bytes → HttpRequest
read_request m l hs body = record (head_read m l hs) {
  buffer = [];
  body = body;
  is_chunked = true;
  chunked_state = chunk_trailers;
  state = parssing_complete;
}

read_chunked :
    (m : ℕ) (l : RequestLine) (hs : List Header) (body : Bytes)
    → HasChunks m l hs body
    → is_te_chunked (read_request m l hs body) ≡ true
unfolding is_te_chunked get_header_value str_to_lower tolower
read_chunked m l hs body h = h.chunked

-- A written request in chunks that arrives whole, its trailers included, with nothing behind it:
-- when the program is started, the client's pipe to it stays open, with no end marked, as if more
-- of the body were to come.
pub complete_chunked-Waits :
    (m : ℕ) (l : RequestLine) (hs : List Header) (cs : List Chunk) (zeros : Bytes) (ts : List Bytes)
    (pid stdin_fd stdout_fd : ℕ) (c : Client) (s : Server)
    → IsLine l
    → AreHeaders hs
    → AreChunks cs
    → IsSize zeros 0
    → AreTrailers ts
    → HasChunks m l hs (joined cs)
    → Waits c.fd stdin_fd (
        program_started pid stdin_fd stdout_fd
          (parse
            (set_max_body_size m new_request)
            (request_text m l hs (chunks_text cs zeros ts []))).1
          c
          s)
complete_chunked-Waits m l hs cs zeros ts pid stdin_fd stdout_fd c s wl wh wc wz wt h =
    subst (λ r. Waits c.fd stdin_fd (program_started pid stdin_fd stdout_fd r.1 c s))
      (sym (parse-chunks m l hs wl wh cs zeros ts [] wc wz wt h))
      (started-Waits pid stdin_fd stdout_fd _ c s (read_chunked m l hs (joined cs) h) refl)
