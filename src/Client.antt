-- ===== src/Client.antt =====
-- inc/Client.hpp and src/Client.cpp: what the server keeps of a connection. A file descriptor or
-- a process id is `none` where the source has -1; the calls of the system that a method makes are
-- returned in their order.
pub mod Decoder
pub mod Cgi
pub mod Pending
use web_server.Prelude.{
  ℕ, ◌+◌, ◌-◌, ◌%◌, Bool, true, false, Option, none, some, List, [], ◌∷◌, ◌++◌, if◌then◌else◌, leb,
  length, drop, ◌==◌,
}
use web_server.Bytes.{Bytes, codes, is_some, find}
use web_server.HttpRequest.{HttpRequest, new_request, reset}
use web_server.HttpRequest.Chunked.{size_mod}
use web_server.Client.Decoder.{ChunkDecoder, new_decoder, chunk_dec_size, init_decoder}

pub record Client : Type 0 where
  pub fd : ℕ
  pub buffer : Bytes
  pub response : Bytes
  pub last_activity : ℕ
  pub response_offset : ℕ
  pub server_index : ℕ
  pub request : HttpRequest
  pub request_started : Bool
  pub cgi_pid : Option ℕ
  pub cgi_stdin_fd : Option ℕ
  pub cgi_stdout_fd : Option ℕ
  pub cgi_output : Bytes
  pub cgi_active : Bool
  pub cgi_stdin_pending : Bytes
  pub cgi_stdin_pending_offset : ℕ
  pub cgi_stdin_eof : Bool
  pub cgi_body_bytes_forwarded : ℕ
  pub cgi_body_content_length : ℕ
  pub cgi_headers_sent : Bool
  pub cgi_chunked : Bool
  -- `cgi_chunk_state_`, `cgi_chunk_remaining_` and `cgi_chunk_buf_`
  pub cgi_chunk : ChunkDecoder
  pub cgi_send_pending : Bytes
  pub cgi_send_pending_offset : ℕ

-- The constructor; `now` is `time(NULL)`.
abbrev pub new_client : ℕ → ℕ → ℕ → Client
new_client fd server_index now = record {
  fd = fd;
  buffer = [];
  response = [];
  last_activity = now;
  response_offset = 0;
  server_index = server_index;
  request = new_request;
  request_started = false;
  cgi_pid = none;
  cgi_stdin_fd = none;
  cgi_stdout_fd = none;
  cgi_output = [];
  cgi_active = false;
  cgi_stdin_pending = [];
  cgi_stdin_pending_offset = 0;
  cgi_stdin_eof = false;
  cgi_body_bytes_forwarded = 0;
  cgi_body_content_length = 0;
  cgi_headers_sent = false;
  cgi_chunked = false;
  cgi_chunk = new_decoder;
  cgi_send_pending = [];
  cgi_send_pending_offset = 0;
}

-- A sum of `size_t`.
abbrev pub add_size : ℕ → ℕ → ℕ
add_size a b = (a + b) % size_mod

unfoldable pub set_request_started : Bool → Client → Client
set_request_started started c = record c { request_started = started }

unfoldable pub update_activity : ℕ → Client → Client
update_activity now c = record c { last_activity = now }

unfoldable pub advance_response_offset : ℕ → Client → Client
advance_response_offset bytes c = record c { response_offset = add_size c.response_offset bytes }

unfoldable pub reset_response_offset : Client → Client
reset_response_offset c = record c { response_offset = 0 }

unfoldable pub append_to_buffer : Bytes → Client → Client
append_to_buffer more c = record c { buffer = c.buffer ++ more }

unfoldable pub has_complete_header : Client → Bool
has_complete_header c = is_some (find (codes "\r\n\r\n") c.buffer)

unfoldable pub clear_buffer : Client → Client
unfolding reset
clear_buffer c = record c { buffer = []; request = reset c.request; request_started = false }

unfoldable pub clear_raw_buffer : Client → Client
clear_raw_buffer c = record c { buffer = [] }

unfoldable pub set_response : Bytes → Client → Client
set_response response c = record c { response = response; response_offset = 0 }

unfoldable pub clear_response : Client → Client
clear_response c = record c { response = []; response_offset = 0 }

unfoldable pub start_cgi : ℕ → ℕ → ℕ → Client → Client
start_cgi pid stdin_fd stdout_fd c = record c {
  cgi_pid = some pid;
  cgi_stdin_fd = some stdin_fd;
  cgi_stdout_fd = some stdout_fd;
  cgi_active = true;
  cgi_output = [];
  cgi_stdin_pending = [];
  cgi_stdin_pending_offset = 0;
  cgi_stdin_eof = false;
  cgi_body_bytes_forwarded = 0;
  cgi_body_content_length = 0;
  cgi_headers_sent = false;
  cgi_chunked = false;
  cgi_chunk = new_decoder;
  cgi_send_pending = [];
  cgi_send_pending_offset = 0;
}

unfoldable pub reset_cgi_stdout_fd : Client → Client
reset_cgi_stdout_fd c = record c { cgi_stdout_fd = none }

unfoldable pub append_cgi_output : Bytes → Client → Client
append_cgi_output more c = record c { cgi_output = c.cgi_output ++ more }

-- A call of the system.
pub data SysCall : Type 0 where
  close : ℕ → SysCall
  waitpid_nohang : ℕ → SysCall

abbrev pub call_if : (ℕ → SysCall) → Option ℕ → List SysCall
call_if call none = []
call_if call (some n) = call n ∷ []

unfoldable pub close_cgi_stdin : Client → List SysCall × Client
close_cgi_stdin c = (call_if close c.cgi_stdin_fd, record c { cgi_stdin_fd = none })

unfoldable pub finish_cgi : Client → List SysCall × Client
unfolding close_cgi_stdin
finish_cgi c =
    let closed = close_cgi_stdin (record c { cgi_stdout_fd = none }) in
    (
      call_if close c.cgi_stdout_fd ++ (closed.0 ++ call_if waitpid_nohang c.cgi_pid),
      record closed.1 { cgi_pid = none; cgi_active = false },
    )

unfoldable pub append_cgi_stdin_pending : Bytes → Client → Client
append_cgi_stdin_pending more c = record c { cgi_stdin_pending = c.cgi_stdin_pending ++ more }

-- The bytes from the pointer of `get_cgi_stdin_pending_ptr` to the end.
unfoldable pub get_cgi_stdin_pending_ptr : Client → Bytes
get_cgi_stdin_pending_ptr c = drop c.cgi_stdin_pending_offset c.cgi_stdin_pending

unfoldable pub get_cgi_stdin_pending_size : Client → ℕ
get_cgi_stdin_pending_size c =
    if leb (length c.cgi_stdin_pending) c.cgi_stdin_pending_offset
    then 0
    else length c.cgi_stdin_pending - c.cgi_stdin_pending_offset

unfoldable pub is_cgi_stdin_pending_empty : Client → Bool
unfolding get_cgi_stdin_pending_size
is_cgi_stdin_pending_empty c = get_cgi_stdin_pending_size c == 0

abbrev pub compact_threshold : ℕ
compact_threshold = 1048576

-- The buffer and the offset after an offset has moved.
unfoldable pub compact : Bytes → ℕ → Bytes × ℕ
compact pending offset =
    if leb compact_threshold offset
    then ((if leb (length pending) offset then [] else drop offset pending), 0)
    else (pending, offset)

unfoldable pub consume_cgi_stdin_pending : ℕ → Client → Client
unfolding compact
consume_cgi_stdin_pending bytes c =
    let (pending, offset) =
      compact c.cgi_stdin_pending (add_size c.cgi_stdin_pending_offset bytes) in
    record c { cgi_stdin_pending = pending; cgi_stdin_pending_offset = offset }

unfoldable pub set_cgi_stdin_eof : Bool → Client → Client
set_cgi_stdin_eof val c = record c { cgi_stdin_eof = val }

unfoldable pub add_cgi_body_bytes_forwarded : ℕ → Client → Client
add_cgi_body_bytes_forwarded n c = record c {
  cgi_body_bytes_forwarded = add_size c.cgi_body_bytes_forwarded n;
}

unfoldable pub set_cgi_body_content_length : ℕ → Client → Client
set_cgi_body_content_length len c = record c { cgi_body_content_length = len }

unfoldable pub set_cgi_headers_sent : Bool → Client → Client
set_cgi_headers_sent val c = record c { cgi_headers_sent = val }

unfoldable pub append_cgi_send_pending : Bytes → Client → Client
append_cgi_send_pending more c = record c { cgi_send_pending = c.cgi_send_pending ++ more }

unfoldable pub get_cgi_send_pending_ptr : Client → Bytes
get_cgi_send_pending_ptr c = drop c.cgi_send_pending_offset c.cgi_send_pending

unfoldable pub get_cgi_send_pending_size : Client → ℕ
get_cgi_send_pending_size c =
    if leb (length c.cgi_send_pending) c.cgi_send_pending_offset
    then 0
    else length c.cgi_send_pending - c.cgi_send_pending_offset

unfoldable pub consume_cgi_send_pending : ℕ → Client → Client
unfolding compact
consume_cgi_send_pending bytes c =
    let (pending, offset) = compact c.cgi_send_pending (add_size c.cgi_send_pending_offset bytes) in
    record c { cgi_send_pending = pending; cgi_send_pending_offset = offset }

unfoldable pub set_cgi_chunked : Bool → Client → Client
set_cgi_chunked val c = record c { cgi_chunked = val }

unfoldable pub init_cgi_chunk_decoder : ℕ → ℕ → Client → Client
unfolding init_decoder
init_cgi_chunk_decoder state remaining c = record c { cgi_chunk = init_decoder state remaining }
