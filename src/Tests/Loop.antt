-- ===== src/Tests/Loop.antt =====
-- Tests and examples of the event loop of src/Server.cpp.
use web_server.Prelude.{
  ℕ, ◌+◌, zero, suc, ◌≡◌, ◌⊎◌, refl, true, false, some, none, List, [], ◌∷◌, ◌++◌, drop, arith,
}
use web_server.Prelude.Loop.{loop}
use web_server.Bytes.{Bytes, codes, find, starts_with}
use web_server.StdMap.{lookup, int_order}
use web_server.Config.{ServerConfig, new_server}
use web_server.Client.{Client, new_client, get_cgi_send_pending_ptr, get_cgi_send_pending_size}
use web_server.Server.State.{
  PollFd, Revents, ReadReply, end_of_input, SendReply, Server, poll_entry, is_listening_socket,
  is_cgi_fd, is_cgi_stdin_fd, get_client,
}
use web_server.Server.CgiOutput.Pieces.{take_pieces, joined, streamed, pieces_in_order}
use web_server.Server.CgiInput.Order.{IsForwarded, forward_overtakes}
use web_server.Server.Output.{is_streaming}
use web_server.Server.Output.Turn.{IsDone, sents, output_turns}
use web_server.Server.Output.Whole.{response_whole}
use web_server.Server.Poll.{undefined, entry_turn, timeout_round, check_timeouts}
use web_server.Server.Poll.Timeouts.{timeouts_end}
use web_server.Client.{close}
use web_server.Server.State.{system}
use web_server.Server.Poll.{handle_poll_errors}
use web_server.Server.Poll.Twice.{broken_pipe_twice}
use web_server.Server.Poll.Hangup.{hangup_undefined}
use web_server.Server.Start.{SocketReply, bind_failed, listening, new_start}
use web_server.Server.Start.Cleanup.{HasFailure, IsGivenUp, IsOpen, opened, new_start_ends}
use web_server.Tests.Handler.{files}
use web_server.Server.Poll.Reach.{report, polled, timed, here, there, Reach-IsServed}
use web_server.Server.Served.{IsServed}
use web_server.Server.Start.{new_server_of, open_sockets}

abbrev pub client : Client
client = new_client 4 0 0

abbrev responding : Client
responding = record client { response = codes "HTTP/1.1 200 OK\r\n" }

abbrev client_entry : Revents → PollFd
client_entry revents = record { fd = 4; pollin = true; pollout = true; revents = revents }

abbrev writable_entry : PollFd
writable_entry =
    client_entry (record { readable = false; writable = true; hung_up = false; failed = false })

abbrev readable_entry : PollFd
readable_entry =
    client_entry (record { readable = true; writable = false; hung_up = false; failed = false })

abbrev socket_entry : PollFd
socket_entry = poll_entry 3 true false

abbrev server_with : Client → PollFd → List ReadReply → List SendReply → Server
server_with c entry reads sends = record {
  server_fds = record { fd = 3; port = 8080; index = 0 } ∷ [];
  clients = (4, c) ∷ [];
  poll_fds = socket_entry ∷ entry ∷ [];
  configs = new_server ∷ [];
  cgi_fd_to_client_fd = [];
  cgi_stdin_fd_to_client_fd = [];
  sys = record {
    reads = reads;
    sends = sends;
    writes = 2 ∷ [];
    accepts = [];
    pipes = [];
    forks = [];
    realpath = λ path. none;
    files = files;
    now = 500;
    calls = [];
  };
}

abbrev output_pieces : List Bytes
output_pieces = codes "Status: 200 OK\r" ∷ codes "\n\r" ∷ codes "\nhel" ∷ codes "lo" ∷ []

pieces_in_order_example :
    get_cgi_send_pending_ptr (take_pieces output_pieces client)
    ≡ get_cgi_send_pending_ptr client ++ streamed 14 (client.cgi_output ++ joined output_pieces)
unfolding find starts_with
pieces_in_order_example = pieces_in_order output_pieces client 14 refl (omega arith) refl refl

abbrev sending : Server
sending = server_with responding writable_entry [] (sents (5 ∷ 12 ∷ []))

response_whole_example :
    IsDone 4 (drop 0 responding.response) sending (output_turns 2 1 writable_entry sending)
unfolding get_client lookup is_streaming get_cgi_send_pending_size is_cgi_stdin_fd
response_whole_example =
    response_whole (5 ∷ 12 ∷ []) 1 writable_entry responding sending refl
      (record {
        there = refl;
        own = refl;
        plain = refl;
        no_stdin = refl;
        within = omega arith;
        sized = omega arith;
      })
      refl (omega arith, omega arith, (omega arith, omega arith, refl))

abbrev pub ending : Server
ending = server_with client readable_entry (end_of_input ∷ []) []

hangup_undefined_example : entry_turn readable_entry (1, ending) ≡ undefined
unfolding get_client lookup is_cgi_stdin_fd is_cgi_fd is_listening_socket
hangup_undefined_example =
    hangup_undefined (socket_entry ∷ []) readable_entry client [] ending refl
      (record {
        readable = refl;
        not_hung_up = refl;
        not_failed = refl;
        no_socket = refl;
        no_stdin = refl;
        no_stdout = refl;
      })
      (record {
        there = refl;
        own = refl;
        inactive = refl;
        no_stdin = refl;
        no_stdout = refl;
        ends = refl;
      })

abbrev pub all_listen : ℕ → SocketReply
all_listen n = listening (n + 3)

abbrev started : Server
started = new_server_of (new_start all_listen (new_server ∷ [])) (new_server ∷ []) ending.sys

abbrev reported : Server
reported = record started {
  poll_fds = report (readable_entry.revents ∷ []) started.poll_fds;
  sys = record ending.sys { accepts = 4 ∷ [] };
}

Reach-IsServed_example : IsServed 1 (check_timeouts reported)
unfolding new_start open_sockets
Reach-IsServed_example =
    Reach-IsServed all_listen (new_server ∷ []) ending.sys (check_timeouts reported) (omega arith)
      refl
      (there reported (check_timeouts reported)
        (there started reported here
          (polled started (readable_entry.revents ∷ []) (record ending.sys { accepts = 4 ∷ [] })))
        (timed reported))

timeouts_end_example : loop 3 timeout_round (0, ending) ≡ some (check_timeouts ending)
timeouts_end_example = timeouts_end ending

abbrev pending : Client
pending = record client { cgi_stdin_pending = codes "old" }

forward_overtakes_example : IsForwarded 7 (codes "new") pending ending
forward_overtakes_example = forward_overtakes 7 b'n' (codes "ew") pending ending (omega arith)

abbrev second_fails : ℕ → SocketReply
second_fails zero = listening 3
second_fails (suc n) = bind_failed 5

abbrev two_servers : List ServerConfig
two_servers = new_server ∷ new_server ∷ []

new_start_ends_example :
    (HasFailure second_fails 0 two_servers
      × IsGivenUp (opened second_fails 0 two_servers) (new_start second_fails two_servers))
    ⊎ IsOpen second_fails two_servers (new_start second_fails two_servers)
new_start_ends_example = new_start_ends second_fails two_servers

abbrev writing : Client
writing = record client { cgi_stdin_fd = some 7 }

abbrev broken_entry : PollFd
broken_entry = record {
  fd = 7;
  pollin = false;
  pollout = true;
  revents = record { readable = false; writable = false; hung_up = true; failed = true };
}

abbrev breaking : Server
breaking = record (server_with writing broken_entry [] []) {
  cgi_stdin_fd_to_client_fd = (7, 4) ∷ [];
}

broken_pipe_twice_example :
    (handle_poll_errors 1 broken_entry breaking).server.sys.calls
    ≡ [] ++ system (close 7) ∷ system (close 7) ∷ []
unfolding get_client lookup is_cgi_fd is_listening_socket
broken_pipe_twice_example =
    broken_pipe_twice 1 4 broken_entry writing breaking
      (record { reported = refl; no_other = refl; key = refl; there = refl; writes = refl })
