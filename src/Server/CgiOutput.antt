-- ===== src/Server/CgiOutput.antt =====
-- src/Server.cpp: `handle_cgi_output` and `finalize_cgi`, the output of a CGI program on its way
-- to the client.
pub mod Served
pub mod Pieces
use web_server.Prelude.{
  ℕ, zero, suc, ◌+◌, ◌-◌, Bool, true, false, Option, none, some, List, [], ◌∷◌, ◌++◌, if◌then◌else◌,
  length, take, drop, get_elem?, ltb, ◌==◌,
}
use web_server.Bytes.{Bytes, codes, find, empty}
use web_server.StdMap.{erase, int_order}
use web_server.Config.{ServerConfig}
use web_server.HttpResponse.{HttpResponse, set_header, header_to_string, to_string, error_500}
use web_server.HttpHandler.Files.{get_error_page}
use web_server.HttpHandler.Cgi.{parse_cgi_headers, parse_cgi_response}
use web_server.Client.{
  Client, close, append_cgi_output, append_cgi_send_pending, set_cgi_headers_sent, set_response,
  get_cgi_send_pending_size, reset_cgi_stdout_fd, finish_cgi, clear_buffer,
}
use web_server.Server.State.{
  PollFd, ReadReply, received, end_of_input, read_blocked, read_failed, Server, Handled, logged,
  system, system_calls, get_client_by_cgi_fd, put_client, config_of, set_pollin, set_pollout,
  change_at, erase_at, change_fd, index_of, with_fds,
}

abbrev pub fair_io_limit : ℕ
fair_io_limit = 262144

abbrev pub cgi_backpressure_limit : ℕ
cgi_backpressure_limit = 4194304

-- The headers of the response to what a program has written in front of the blank line.
unfoldable pub cgi_http_header : Bytes → Bytes
cgi_http_header cgi_header_part =
    header_to_string
      (set_header (codes "Connection") (codes "close") (parse_cgi_headers cgi_header_part))

-- The blank line at `hdr_end` of the output. Appending no bytes is appending nothing.
headers_at : Option ℕ → Client → Client × Bool
unfolding append_cgi_send_pending set_cgi_headers_sent
headers_at none c = (c, false)
headers_at (some hdr_end) c =
    let queued = append_cgi_send_pending (cgi_http_header (take hdr_end c.cgi_output)) c in
    (
      set_cgi_headers_sent true (append_cgi_send_pending (drop (hdr_end + 4) c.cgi_output) queued),
      true,
    )

-- Whether the headers are sent, and the bytes that `read` returns.
take_bytes : Bool → Bytes → Client → Client × Bool
unfolding headers_at append_cgi_output append_cgi_send_pending
take_bytes true bytes c = (append_cgi_send_pending bytes c, true)
take_bytes false bytes c =
    let d = append_cgi_output bytes c in headers_at (find (codes "\r\n\r\n") d.cgi_output) d

-- Bytes that `read` returns: the client, and whether its POLLOUT is enabled.
unfoldable pub take_cgi_bytes : Bytes → Client → Client × Bool
unfolding take_bytes
take_cgi_bytes bytes c = take_bytes c.cgi_headers_sent bytes c

-- Why the loop over `read` stops.
pub data CgiStop : Type 0 where
  pressed waits ended yields : CgiStop

pub record CgiLoop : Type 0 where
  pub stop : CgiStop
  pub client : Client
  pub poll_fds : List PollFd
  pub reads : List ReadReply

abbrev enable_if : Bool → ℕ → List PollFd → List PollFd
enable_if false fd fds = fds
enable_if true fd fds = change_fd fd (set_pollout true) fds

stopped : CgiStop → List ReadReply → Client → List PollFd → CgiLoop
stopped stop reads c fds = record { stop = stop; client = c; poll_fds = fds; reads = reads }

-- while (total_read < FAIR_IO_LIMIT), over the answers of `read`.
unfoldable pub cgi_output_loop : ℕ → List ReadReply → Client → List PollFd → CgiLoop
unfolding stopped take_cgi_bytes get_cgi_send_pending_size
cgi_output_loop total_read [] c fds =
    stopped (if ltb total_read fair_io_limit then waits else yields) [] c fds
cgi_output_loop total_read (received b bytes ∷ reads) c fds =
    let taken = take_cgi_bytes (b ∷ bytes) c in
    let enabled = enable_if taken.1 c.fd fds in
    let rest = cgi_output_loop (total_read + suc (length bytes)) reads taken.0 enabled in
    if ltb total_read fair_io_limit
    then (if ltb cgi_backpressure_limit (get_cgi_send_pending_size taken.0)
        then stopped pressed reads taken.0 enabled
        else rest)
    else stopped yields (received b bytes ∷ reads) c fds
cgi_output_loop total_read (read_blocked ∷ reads) c fds =
    if ltb total_read fair_io_limit
    then stopped waits reads c fds
    else stopped yields (read_blocked ∷ reads) c fds
cgi_output_loop total_read (reply ∷ reads) c fds =
    if ltb total_read fair_io_limit
    then stopped ended reads c fds
    else stopped yields (reply ∷ reads) c fds

-- Entry `idx` if it is the client's, or the first that is.
enable_at : Option PollFd → ℕ → ℕ → List PollFd → List PollFd
enable_at none idx fd fds = change_fd fd (set_pollout true) fds
enable_at (some p) idx fd fds =
    if p.fd == fd then change_at idx (set_pollout true) fds else change_fd fd (set_pollout true) fds

-- What a program that has sent no blank line is answered with.
unfoldable pub unfinished_response : Server → Client → HttpResponse
unfinished_response s c =
    let page = get_error_page 500 (config_of s c) in
    set_header (codes "Connection") (codes "close") (
      if empty c.cgi_output
      then error_500 s.sys.files.read_file page
      else parse_cgi_response s.sys.files.read_file c.cgi_output page)

unfoldable pub finalize_cgi : Client → ℕ → Server → Server
unfolding enable_at
finalize_cgi c idx s =
    let t = logged (system_calls (finish_cgi c).0) s in
    let d = (finish_cgi c).1 in
    if c.cgi_headers_sent
    then put_client (clear_buffer d) (with_fds (change_fd c.fd (set_pollout true)) t)
    else put_client (clear_buffer (set_response (to_string (unfinished_response s c)) d))
        (with_fds (enable_at (get_elem? t.poll_fds idx) idx c.fd) t)

index_or_0 : Option ℕ → ℕ
index_or_0 none = 0
index_or_0 (some i) = i

-- The end of the output: the pipe is closed and leaves the list.
unfoldable pub cgi_output_ended : ℕ → ℕ → Client → Server → Server
unfolding index_or_0
cgi_output_ended cgi_fd idx c s =
    let client_idx = index_or_0 (index_of c.fd s.poll_fds) in
    let t = logged (system (close cgi_fd) ∷ []) s in
    finalize_cgi (reset_cgi_stdout_fd c) (if ltb idx client_idx then client_idx - 1 else client_idx)
      (record t {
        cgi_fd_to_client_fd = erase cgi_fd s.cgi_fd_to_client_fd;
        poll_fds = erase_at idx s.poll_fds;
      })

after_cgi_output : CgiStop → ℕ → ℕ → Client → Server → Handled
after_cgi_output pressed cgi_fd idx c s = record {
  handled = true;
  idx = suc idx;
  server = put_client c (with_fds (change_at idx (set_pollin false)) s);
}
after_cgi_output ended cgi_fd idx c s = record {
  handled = true;
  idx = idx;
  server = cgi_output_ended cgi_fd idx c s;
}
after_cgi_output _ cgi_fd idx c s = record {
  handled = true;
  idx = suc idx;
  server = put_client c s;
}

-- A pipe whose client is gone.
unfoldable pub orphan_output : ℕ → ℕ → Server → Server
orphan_output cgi_fd idx s =
    let t = logged (system (close cgi_fd) ∷ []) s in
    record t {
      cgi_fd_to_client_fd = erase cgi_fd s.cgi_fd_to_client_fd;
      poll_fds = erase_at idx s.poll_fds;
    }

cgi_output_of : Option Client → ℕ → ℕ → Server → Handled
unfolding after_cgi_output
cgi_output_of none cgi_fd idx s = record {
  handled = true;
  idx = idx;
  server = orphan_output cgi_fd idx s;
}
cgi_output_of (some c) cgi_fd idx s =
    let l = cgi_output_loop 0 s.sys.reads c s.poll_fds in
    after_cgi_output l.stop cgi_fd idx l.client
      (record s { poll_fds = l.poll_fds; sys = record s.sys { reads = l.reads } })

-- `cgi_fd` is poll_fds_[idx].fd.
unfoldable pub handle_cgi_output : ℕ → ℕ → Server → Handled
unfolding cgi_output_of
handle_cgi_output idx cgi_fd s = cgi_output_of (get_client_by_cgi_fd cgi_fd s) cgi_fd idx s
