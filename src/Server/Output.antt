-- ===== src/Server/Output.antt =====
-- src/Server.cpp: `handle_poll_output`, the response on its way to the client.
pub mod Served
pub mod Turn
pub mod Whole
use web_server.Prelude.{
  ℕ, zero, suc, ◌+◌, Bool, true, false, not, ◌&&◌, ◌||◌, Option, none, some, List, [], ◌∷◌, ◌++◌,
  if◌then◌else◌, length, take, drop, ltb, leb, ◌==◌,
}
use web_server.Bytes.{Bytes, empty}
use web_server.Client.{
  Client, update_activity, advance_response_offset, clear_response, get_cgi_send_pending_size,
  get_cgi_send_pending_ptr, consume_cgi_send_pending,
}
use web_server.Server.State.{
  PollFd, SendReply, sent, send_blocked, send_failed, Server, System, Call, send, Handled, logged,
  is_cgi_stdin_fd, get_client, put_client, set_pollin, set_pollout, change_at, change_fd, with_fds,
}
use web_server.Server.Remove.{remove_client}
use web_server.Server.CgiOutput.{fair_io_limit, cgi_backpressure_limit}
use web_server.Server.CgiInput.{handle_cgi_stdin_writable}

-- Why the loop over `send` stops: all is sent, nothing is pending while the program runs, the
-- client is lost, or it goes on later.
pub data SendStop : Type 0 where
  all_sent nothing_pending lost later : SendStop

pub record SendLoop : Type 0 where
  pub stop : SendStop
  pub client : Client
  pub poll_fds : List PollFd
  pub sends : List SendReply
  pub calls : List Call

send_stopped : SendStop → List SendReply → Client → List PollFd → SendLoop
send_stopped stop sends c fds = record {
  stop = stop;
  client = c;
  poll_fds = fds;
  sends = sends;
  calls = [];
}

relieve_fd : Option ℕ → List PollFd → List PollFd
relieve_fd none fds = fds
relieve_fd (some cgi_stdout) fds = change_fd cgi_stdout (set_pollin true) fds

-- The pipe of the program is read again when the queue has drained.
unfoldable pub relieve : Client → List PollFd → List PollFd
unfolding relieve_fd
relieve c fds =
    if c.cgi_active && ltb (get_cgi_send_pending_size c) cgi_backpressure_limit
    then relieve_fd c.cgi_stdout_fd fds
    else fds

-- The queue is empty.
drained : List SendReply → Client → List PollFd → SendLoop
unfolding send_stopped
drained sends c fds = send_stopped (if c.cgi_active then nothing_pending else all_sent) sends c fds

-- What is left to do where the loop does not call `send`, or the call returns no count.
unfoldable pub send_idle :
    SendStop → ℕ → List SendReply → List SendReply → Client → List PollFd → SendLoop
unfolding drained send_stopped
send_idle stop total_sent sends rest c fds =
    if not (ltb total_sent fair_io_limit)
    then send_stopped later sends c fds
    else if get_cgi_send_pending_size c == 0
    then drained sends c fds
    else send_stopped stop rest c fds

-- while (total_sent < FAIR_IO_LIMIT), over the answers of `send`.
unfoldable pub send_loop : ℕ → ℕ → List SendReply → Client → List PollFd → SendLoop
unfolding send_idle get_cgi_send_pending_ptr consume_cgi_send_pending update_activity relieve
send_loop now total_sent [] c fds = send_idle later total_sent [] [] c fds
send_loop now total_sent (send_blocked ∷ sends) c fds =
    send_idle later total_sent (send_blocked ∷ sends) sends c fds
send_loop now total_sent (send_failed ∷ sends) c fds =
    send_idle lost total_sent (send_failed ∷ sends) sends c fds
send_loop now total_sent (sent n ∷ sends) c fds =
    let d = update_activity now (consume_cgi_send_pending n c) in
    let rest = send_loop now (total_sent + n) sends d (relieve d fds) in
    let same_again = send_loop now total_sent sends c fds in
    if not (ltb total_sent fair_io_limit) || (get_cgi_send_pending_size c == 0)
    then send_idle later total_sent (sent n ∷ sends) sends c fds
    else if ltb 0 n
    then record rest { calls = send c.fd (take n (get_cgi_send_pending_ptr c)) ∷ rest.calls }
    else same_again

-- Behind the loop.
after_sending : SendStop → ℕ → ℕ → Client → Server → Handled
after_sending all_sent idx fd c s = record {
  handled = true;
  idx = idx;
  server =
      remove_client idx fd
        (put_client (clear_response c) (with_fds (change_at idx (set_pollout false)) s));
}
after_sending nothing_pending idx fd c s = record {
  handled = false;
  idx = idx;
  server = put_client c (with_fds (change_at idx (set_pollout false)) s);
}
after_sending lost idx fd c s = record {
  handled = true;
  idx = idx;
  server = remove_client idx fd (put_client c s);
}
after_sending later idx fd c s = record { handled = false; idx = idx; server = put_client c s }

unfoldable pub send_streamed : ℕ → ℕ → Client → Server → Handled
unfolding after_sending
send_streamed idx fd c s =
    let l = send_loop s.sys.now 0 s.sys.sends c s.poll_fds in
    after_sending l.stop idx fd l.client
      (logged l.calls (record s { poll_fds = l.poll_fds; sys = record s.sys { sends = l.sends } }))

-- `send` has taken `n` bytes of the response.
response_sent : ℕ → ℕ → ℕ → Client → Server → Handled
response_sent n idx fd c s =
    let t = logged (send c.fd (take n (drop c.response_offset c.response)) ∷ []) s in
    let d = update_activity s.sys.now (advance_response_offset n c) in
    if leb (length c.response) d.response_offset
    then record {
      handled = true;
      idx = idx;
      server =
          remove_client idx fd
            (put_client (clear_response d) (with_fds (change_at idx (set_pollout false)) t));
    }
    else record { handled = false; idx = idx; server = put_client d t }

-- The answer of `send`; any error ends the connection, EAGAIN too.
unfoldable pub response_reply : SendReply → ℕ → ℕ → Client → Server → Handled
unfolding response_sent
response_reply (sent n) idx fd c s = response_sent n idx fd c s
response_reply _ idx fd c s = record { handled = true; idx = idx; server = remove_client idx fd s }

unfoldable pub next_send : List SendReply → SendReply × List SendReply
next_send [] = (send_blocked, [])
next_send (reply ∷ sends) = (reply, sends)

unfoldable pub send_response : ℕ → ℕ → Client → Server → Handled
unfolding response_reply next_send
send_response idx fd c s =
    let next = next_send s.sys.sends in
    if empty c.response
    then record { handled = false; idx = idx; server = s }
    else response_reply next.0 idx fd c (record s { sys = record s.sys { sends = next.1 } })

unfoldable pub is_streaming : Client → Bool
is_streaming c = c.cgi_active || (ltb 0 (get_cgi_send_pending_size c) || c.cgi_headers_sent)

client_output : Option Client → ℕ → ℕ → Server → Handled
unfolding send_streamed send_response is_streaming
client_output none idx fd s = record { handled = false; idx = idx; server = s }
client_output (some c) idx fd s =
    if is_streaming c then send_streamed idx fd c s else send_response idx fd c s

-- `p` is poll_fds_[idx].
unfoldable pub handle_poll_output : ℕ → PollFd → Server → Handled
unfolding client_output
handle_poll_output idx p s =
    if not p.revents.writable
    then record { handled = false; idx = idx; server = s }
    else if is_cgi_stdin_fd p.fd s
    then handle_cgi_stdin_writable idx p.fd s
    else client_output (get_client p.fd s) idx p.fd s
