-- ===== src/Server/Poll.antt =====
-- src/Server.cpp: `handle_poll_errors`, `handle_poll_input` and the event loop of `start`.
pub mod Served
pub mod Reach
pub mod Twice
pub mod Timeouts
pub mod Hangup
use web_server.Prelude.{
  ℕ, zero, suc, ◌+◌, ◌-◌, Bool, true, false, not, ◌&&◌, ◌||◌, Option, none, some, List, [], ◌∷◌,
  ◌++◌, if◌then◌else◌, length, get_elem?, ltb, ◌==◌,
}
use web_server.Prelude.Loop.{Round, again, done, run}
use web_server.StdMap.{lookup, erase, int_order}
use web_server.Client.{Client, close}
use web_server.Server.State.{
  PollFd, Revents, no_events, Server, Handled, logged, system, is_listening_socket, is_cgi_fd,
  is_cgi_stdin_fd, get_client, client_of, put_client, change_at, erase_at, with_fds,
}
use web_server.Server.Remove.{remove_client, accept_client}
use web_server.Server.CgiOutput.{handle_cgi_output}
use web_server.Server.CgiInput.{close_stdin}
use web_server.Server.Read.{handle_client_read}
use web_server.Server.Output.{handle_poll_output}

abbrev pub unhandled : ℕ → Server → Handled
unhandled idx s = record { handled = false; idx = idx; server = s }

abbrev pub handled_at : ℕ → Server → Handled
handled_at idx s = record { handled = true; idx = idx; server = s }

-- The client of a pipe that broke closes it as well.
close_of : Option Client → Server → Server
close_of none s = s
close_of (some c) s = let closed = close_stdin c s in put_client closed.0 closed.1

unfoldable pub stdin_broke : ℕ → ℕ → Server → Server
unfolding close_of
stdin_broke idx fd s =
    let client = client_of (lookup fd s.cgi_stdin_fd_to_client_fd) s in
    with_fds (erase_at idx) (
      close_of client (
        logged (system (close fd) ∷ [])
          (record s { cgi_stdin_fd_to_client_fd = erase fd s.cgi_stdin_fd_to_client_fd })))

-- `p` is poll_fds_[idx].
unfoldable pub handle_poll_errors : ℕ → PollFd → Server → Handled
handle_poll_errors idx p s =
    if not (p.revents.hung_up || p.revents.failed)
    then unhandled idx s
    else if is_listening_socket p.fd s.server_fds || is_cgi_fd p.fd s
    then unhandled idx s
    else if is_cgi_stdin_fd p.fd s
    then handled_at idx (stdin_broke idx p.fd s)
    else handled_at idx (remove_client idx p.fd s)

unfoldable pub handle_poll_input : ℕ → PollFd → Server → Handled
handle_poll_input idx p s =
    let reading = handle_client_read idx p.fd s in
    if not p.revents.readable
    then (if p.revents.hung_up && is_cgi_fd p.fd s
        then handle_cgi_output idx p.fd s
        else unhandled idx s)
    else if is_listening_socket p.fd s.server_fds
    then unhandled idx (accept_client p.fd s)
    else if is_cgi_stdin_fd p.fd s
    then handled_at (suc idx) s
    else if is_cgi_fd p.fd s
    then handle_cgi_output idx p.fd s
    else unhandled reading.0 reading.1

-- A position in the list and the state.
abbrev pub Point : Type 0
Point = ℕ × Server

-- One turn of the loop over the entries. `undefined` is an index behind the end of `poll_fds_`,
-- which the source reads and writes at.
pub data Turn : Type 0 where
  next : Point → Turn
  undefined : Turn

abbrev clear_revents : PollFd → PollFd
clear_revents p = record p { revents = no_events }

-- Behind the handlers that have not finished with the entry.
abbrev pub next_entry : Handled → Turn
next_entry h =
    if h.handled
    then next (h.idx, h.server)
    else next (suc h.idx, with_fds (change_at h.idx clear_revents) h.server)

output_turn : Option PollFd → Handled → Turn
output_turn none h = undefined
output_turn (some p) h = next_entry (handle_poll_output h.idx p h.server)

input_turn : Handled → Turn
unfolding output_turn
input_turn h =
    if h.handled then next (h.idx, h.server) else output_turn (get_elem? h.server.poll_fds h.idx) h

unfoldable pub entry_turn : PollFd → Point → Turn
unfolding input_turn
entry_turn p (idx, s) =
    let errors = handle_poll_errors idx p s in
    if errors.handled
    then next (errors.idx, errors.server)
    else input_turn (handle_poll_input idx p s)

-- CLIENT_TIMEOUT, and difftime(now, last) > CLIENT_TIMEOUT
is_late : ℕ → Option Client → Bool
is_late now none = false
is_late now (some c) = ltb (c.last_activity + 120) now

-- One turn of the loop over the timeouts.
timeout_entry : Option PollFd → Point → Round Point Server
unfolding is_late
timeout_entry none (idx, s) = done s
timeout_entry (some p) (idx, s) =
    if is_listening_socket p.fd s.server_fds
    then again (suc idx, s)
    else if is_late s.sys.now (get_client p.fd s)
    then again (idx, remove_client idx p.fd s)
    else again (suc idx, s)

unfoldable pub timeout_round : Point → Round Point Server
unfolding timeout_entry
timeout_round (idx, s) = timeout_entry (get_elem? s.poll_fds idx) (idx, s)

abbrev pub entries_left : Point → ℕ
entries_left (idx, s) = length s.poll_fds - idx

unfoldable pub check_timeouts : Server → Server
check_timeouts s = run entries_left s timeout_round (0, s)
