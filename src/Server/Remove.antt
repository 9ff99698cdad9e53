-- ===== src/Server/Remove.antt =====
-- src/Server.cpp: `accept_client`, `remove_client` and what they call.
pub mod Served
pub mod Gone
pub mod Plain
pub mod Shrinks
use web_server.Prelude.{
  ℕ, ◌-◌, Bool, true, false, Option, none, some, List, [], ◌∷◌, ◌++◌, if◌then◌else◌, get_elem?, ltb,
  ◌==◌,
}
use web_server.StdMap.{lookup, insert, erase, int_order}
use web_server.Client.{Client, new_client, close, finish_cgi}
use web_server.Server.State.{
  ServerSocket, PollFd, System, Server, get_client, erase_at, index_of, logged, system,
  system_calls, poll_entry,
}

-- The index of the socket that has a connection; 0 where there is none.
unfoldable pub server_index_of : ℕ → List ServerSocket → ℕ
server_index_of server_fd [] = 0
server_index_of server_fd (sock ∷ server_fds) =
    if sock.fd == server_fd then sock.index else server_index_of server_fd server_fds

-- clients_.insert, which keeps a client that is there.
add_client : ℕ → Client → Option Client → List (ℕ × Client) → List (ℕ × Client)
add_client fd c none clients = insert fd c clients
add_client fd c (some old) clients = clients

-- One connection that `accept` returns.
unfoldable pub accept_one : ℕ → ℕ → Server → Server
unfolding add_client
accept_one server_index client_fd s = record s {
  clients =
      add_client client_fd (new_client client_fd server_index s.sys.now)
        (lookup client_fd s.clients) s.clients;
  poll_fds = s.poll_fds ++ poll_entry client_fd true false ∷ [];
}

accept_all : ℕ → List ℕ → Server → Server
accept_all server_index [] s = s
accept_all server_index (fd ∷ fds) s = accept_all server_index fds (accept_one server_index fd s)

unfoldable pub accept_client : ℕ → Server → Server
unfolding accept_all
accept_client server_fd s =
    accept_all (server_index_of server_fd s.server_fds) s.sys.accepts
      (record s { sys = record s.sys { accepts = [] } })

-- The list and the index of the client behind a removal of the entry at `i`.
drop_entry : Option ℕ → List PollFd × ℕ → List PollFd × ℕ
drop_entry none (fds, index) = (fds, index)
drop_entry (some i) (fds, index) = (erase_at i fds, if ltb i index then index - 1 else index)

-- The entry of a pipe of the client.
unfoldable pub drop_pipe : Option ℕ → List PollFd × ℕ → List PollFd × ℕ
unfolding drop_entry
drop_pipe none at = at
drop_pipe (some fd) at = drop_entry (index_of fd at.0) at

erase_pipe : Option ℕ → List (ℕ × ℕ) → List (ℕ × ℕ)
erase_pipe none m = m
erase_pipe (some fd) m = erase fd m

-- What is done to the pipes and the process of the client of the entry.
unfoldable pub release_cgi : Option Client → ℕ → Server → Server × ℕ
unfolding drop_pipe erase_pipe
release_cgi none index s = (s, index)
release_cgi (some c) index s =
    let at = drop_pipe c.cgi_stdin_fd (drop_pipe c.cgi_stdout_fd (s.poll_fds, index)) in
    (
      logged (system_calls (finish_cgi c).0) (record s {
        poll_fds = at.0;
        cgi_fd_to_client_fd = erase_pipe c.cgi_stdout_fd s.cgi_fd_to_client_fd;
        cgi_stdin_fd_to_client_fd = erase_pipe c.cgi_stdin_fd s.cgi_stdin_fd_to_client_fd;
      }),
      at.1,
    )

-- `fd` is poll_fds_[index].fd.
unfoldable pub remove_client : ℕ → ℕ → Server → Server
unfolding release_cgi
remove_client index fd s =
    let released = release_cgi (get_client fd s) index s in
    let t = logged (system (close fd) ∷ []) released.0 in
    record t { clients = erase fd t.clients; poll_fds = erase_at released.1 t.poll_fds }
