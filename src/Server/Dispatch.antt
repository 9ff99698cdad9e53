-- ===== src/Server/Dispatch.antt =====
-- src/Server.cpp: `dispatch_cgi`, the start of a CGI program for a request.
pub mod Served
pub mod Complete
use web_server.Prelude.{
  ℕ, Bool, true, false, not, ◌||◌, Option, none, some, List, [], ◌∷◌, ◌++◌, if◌then◌else◌, length,
  take, drop, ltb, leb, ◌==◌,
}
use web_server.Bytes.{Bytes, codes, empty, contains}
use web_server.Bytes.Decimal.{atol_size}
use web_server.StdMap.{insert, int_order}
use web_server.Config.{RouteConfig}
use web_server.HttpRequest.{HttpRequest, get_header_value, get_chunked_state, str_to_lower}
use web_server.HttpResponse.{HttpResponse, set_header, to_string, error_500}
use web_server.HttpHandler.Files.{get_error_page}
use web_server.HttpHandler.Path.{strip_query_string}
use web_server.Cgi.{env_for, relative_script, resolve, dir_of}
use web_server.Client.{
  Client, close, set_response, clear_buffer, start_cgi, set_cgi_body_content_length,
  set_cgi_chunked, init_cgi_chunk_decoder, add_cgi_body_bytes_forwarded, append_cgi_stdin_pending,
  is_cgi_stdin_pending_empty, set_cgi_stdin_eof,
}
use web_server.Client.Decoder.{Decoded, decoder_of, decode_chunked_for_cgi}
use web_server.Server.{match_route}
use web_server.Server.State.{
  Server, System, Call, write, execve, system, logged, put_client, config_of, set_pollout,
  change_at, poll_entry, with_fds,
}
use web_server.Server.CgiInput.{close_stdin, next_write}

-- A response that closes the connection.
abbrev pub closing : HttpResponse → Bytes
closing response = to_string (set_header (codes "Connection") (codes "close") response)

-- The answer of `dispatch_cgi` where a call of the system fails.
unfoldable pub dispatch_failed : ℕ → Client → Server → Server
dispatch_failed idx c s =
    put_client
      (clear_buffer (
        set_response
          (closing (error_500 s.sys.files.read_file (get_error_page 500 (config_of s c)))) c))
      (with_fds (change_at idx (set_pollout true)) s)

-- The next answer of a call that can fail.
next_reply : {A : Type 0} → List (Option A) → Option A
next_reply [] = none
next_reply (reply ∷ replies) = reply

rest_of : {A : Type 0} → List A → List A
rest_of [] = []
rest_of (x ∷ xs) = xs

-- `Content-Length`, and 0 with none, and whether `Transfer-Encoding` says chunked.
unfoldable pub expected_length : HttpRequest → ℕ
expected_length req =
    let cl_str = get_header_value req (codes "content-length") in
    if empty cl_str then 0 else atol_size cl_str

unfoldable pub is_te_chunked : HttpRequest → Bool
is_te_chunked req =
    contains (codes "chunked") (str_to_lower (get_header_value req (codes "transfer-encoding")))

-- The client, the bytes for the program, and whether the body is complete.
pub record Handover : Type 0 where
  pub client : Client
  pub body_to_write : Bytes
  pub body_complete : Bool

-- What the decoder makes of the bytes that the parser has left.
leftover_decoded : Decoded → Client → Bytes → Handover
leftover_decoded d c body = record {
  client = record c { cgi_chunk = decoder_of d.left };
  body_to_write = body ++ d.left.decoded;
  body_complete = d.eof;
}

-- The decoder takes over where the parser of the request has stopped.
unfoldable pub seed_decoder : HttpRequest → Client → Handover
unfolding leftover_decoded init_cgi_chunk_decoder set_cgi_chunked get_chunked_state
seed_decoder req c =
    let d =
      init_cgi_chunk_decoder (get_chunked_state req) req.chunk_remaining (set_cgi_chunked true c) in
    if empty req.buffer
    then record { client = d; body_to_write = req.body; body_complete = false }
    else leftover_decoded (decode_chunked_for_cgi d.cgi_chunk req.buffer []) d req.body

unfoldable pub hand_over : HttpRequest → Client → Handover
unfolding expected_length is_te_chunked seed_decoder
hand_over req c =
    let cl = expected_length req in
    let d = set_cgi_body_content_length cl c in
    if is_te_chunked req then seed_decoder req d else record {
      client = d;
      body_to_write = req.body;
      body_complete = cl == 0 || leb cl (length req.body);
    }

-- The first write, what stays pending of it, and the end of a body that is complete.
unfoldable pub first_write : ℕ → Handover → Server → Client × Server
unfolding next_write append_cgi_stdin_pending
first_write stdin_fd h s =
    let taken = next_write s.sys.writes in
    let c = add_cgi_body_bytes_forwarded (length h.body_to_write) h.client in
    let t =
      logged (write stdin_fd (take taken.0 h.body_to_write) ∷ [])
        (record s { sys = record s.sys { writes = taken.1 } }) in
    if empty h.body_to_write
    then (c, s)
    else if ltb taken.0 (length h.body_to_write)
    then (append_cgi_stdin_pending (drop taken.0 h.body_to_write) c, t)
    else (c, t)

unfoldable pub end_complete : Bool → Client → Server → Client × Server
end_complete body_complete c s =
    if body_complete
    then (if is_cgi_stdin_pending_empty c then close_stdin c s else (set_cgi_stdin_eof true c, s))
    else (c, s)

-- The pipe to the program in the list and the map.
register_stdin : Option ℕ → Bool → Client → Server → Server
register_stdin none body_complete c s = s
register_stdin (some stdin_fd) body_complete c s =
    if not body_complete || not (is_cgi_stdin_pending_empty c)
    then record s {
      cgi_stdin_fd_to_client_fd = insert stdin_fd c.fd s.cgi_stdin_fd_to_client_fd;
      poll_fds = s.poll_fds ++ poll_entry stdin_fd false true ∷ [];
    }
    else s

-- The pipe for the program's output, and then that for its input.
unfoldable pub register_pipes : ℕ → Bool → Client → Server → Server
unfolding register_stdin
register_pipes stdout_fd body_complete c s =
    register_stdin c.cgi_stdin_fd body_complete c (record s {
      cgi_fd_to_client_fd = insert stdout_fd c.fd s.cgi_fd_to_client_fd;
      poll_fds = s.poll_fds ++ poll_entry stdout_fd true false ∷ [];
    })

-- The parent behind `fork`.
unfoldable pub program_started : ℕ → ℕ → ℕ → HttpRequest → Client → Server → Server
unfolding hand_over first_write end_complete register_pipes
program_started pid stdin_fd stdout_fd req c s =
    let h = hand_over req (start_cgi pid stdin_fd stdout_fd c) in
    let written = first_write stdin_fd h s in
    let ended = end_complete h.body_complete written.0 written.1 in
    put_client ended.0 (register_pipes stdout_fd h.body_complete ended.0 ended.1)

-- What the child becomes.
unfoldable pub program : System → HttpRequest → RouteConfig → Call
program sys req route =
    let relative = relative_script req route in
    let script_path = resolve sys.realpath relative in
    execve (resolve sys.realpath route.cgi_path) script_path (env_for req relative)
      (dir_of script_path)

-- The end of a pipe that is read, and the one that is written.
abbrev pub Pipe : Type 0
Pipe = ℕ × ℕ

close_pipe : Pipe → List Call
close_pipe (r, w) = system (close r) ∷ system (close w) ∷ []

forked : Option ℕ → Pipe → Pipe → ℕ → RouteConfig → Client → Server → Server
unfolding close_pipe
forked none stdin_pipe stdout_pipe idx route c s =
    dispatch_failed idx c (logged (close_pipe stdin_pipe ++ close_pipe stdout_pipe) s)
forked (some pid) stdin_pipe stdout_pipe idx route c s =
    program_started pid stdin_pipe.1 stdout_pipe.0 c.request c (
      logged
        (program s.sys c.request route
          ∷ system (close stdin_pipe.0)
          ∷ system (close stdout_pipe.1)
          ∷ [])
        s)

second_pipe : Option Pipe → Pipe → ℕ → RouteConfig → Client → Server → Server
unfolding next_reply rest_of forked
second_pipe none stdin_pipe idx route c s = dispatch_failed idx c s
second_pipe (some stdout_pipe) stdin_pipe idx route c s =
    forked (next_reply s.sys.forks) stdin_pipe stdout_pipe idx route c
      (record s { sys = record s.sys { forks = rest_of s.sys.forks } })

first_pipe : Option Pipe → ℕ → RouteConfig → Client → Server → Server
unfolding second_pipe next_reply rest_of
first_pipe none idx route c s = dispatch_failed idx c s
first_pipe (some stdin_pipe) idx route c s =
    second_pipe (next_reply s.sys.pipes) stdin_pipe idx route c
      (record s { sys = record s.sys { pipes = rest_of s.sys.pipes } })

dispatch_to : Option RouteConfig → ℕ → Client → Server → Server
unfolding first_pipe next_reply rest_of
dispatch_to none idx c s = put_client c s
dispatch_to (some route) idx c s =
    first_pipe (next_reply s.sys.pipes) idx route c
      (record s { sys = record s.sys { pipes = rest_of s.sys.pipes } })

unfoldable pub dispatch_cgi : ℕ → Client → Server → Server
unfolding dispatch_to
dispatch_cgi idx c s =
    dispatch_to (match_route (strip_query_string c.request.request_target) (config_of s c).routes)
      idx c s
