-- ===== src/Server/Start.antt =====
-- src/Server.cpp: the constructor, `cleanup_sockets_` and the destructor of a server.
pub mod Cleanup
use web_server.Prelude.{ℕ, zero, suc, Bool, true, false, List, [], ◌∷◌, ◌++◌}
use web_server.Config.{ServerConfig}
use web_server.Client.{Client, SysCall, close}
use web_server.Server.State.{ServerSocket, PollFd, Server, System, poll_entry}

-- How `socket`, `bind` and `listen` go for one configuration, with the descriptor of the socket.
pub data SocketReply : Type 0 where
  socket_failed : SocketReply
  bind_failed listen_failed listening : ℕ → SocketReply

-- `init_ok_`, the two lists, and the calls of `close`.
pub record Start : Type 0 where
  pub init_ok : Bool
  pub server_fds : List ServerSocket
  pub poll_fds : List PollFd
  pub calls : List SysCall

abbrev pub close_sockets : List ServerSocket → List SysCall
close_sockets [] = []
close_sockets (sock ∷ server_fds) = close sock.fd ∷ close_sockets server_fds

-- No configured socket is -1.
unfoldable pub cleanup_sockets : List SysCall → Start → Start
cleanup_sockets calls s = record {
  init_ok = false;
  server_fds = [];
  poll_fds = [];
  calls = s.calls ++ (calls ++ close_sockets s.server_fds);
}

abbrev add_socket : ℕ → ℕ → ServerConfig → Start → Start
add_socket i fd conf s = record s {
  server_fds = s.server_fds ++ record { fd = fd; port = conf.port; index = i } ∷ [];
  poll_fds = s.poll_fds ++ poll_entry fd true false ∷ [];
}

-- The loop over the configurations; `reply` is what the system answers to each.
unfoldable pub open_sockets : (ℕ → SocketReply) → ℕ → List ServerConfig → Start → Start
open_sockets reply i [] s = s
open_sockets reply i (conf ∷ configs) s = elim (reply i) [
  | socket_failed ↦ cleanup_sockets [] s
  | bind_failed fd ↦ cleanup_sockets (close fd ∷ []) s
  | listen_failed fd ↦ cleanup_sockets (close fd ∷ []) s
  | listening fd ↦ open_sockets reply (suc i) configs (add_socket i fd conf s)
]

abbrev pub start_empty : Start
start_empty = record { init_ok = true; server_fds = []; poll_fds = []; calls = [] }

-- The constructor.
unfoldable pub new_start : (ℕ → SocketReply) → List ServerConfig → Start
new_start reply configs = open_sockets reply 0 configs start_empty

-- The server that the constructor makes.
abbrev pub new_server_of : Start → List ServerConfig → System → Server
new_server_of start configs sys = record {
  server_fds = start.server_fds;
  clients = [];
  poll_fds = start.poll_fds;
  configs = configs;
  cgi_fd_to_client_fd = [];
  cgi_stdin_fd_to_client_fd = [];
  sys = sys;
}

close_clients : List (ℕ × Client) → List SysCall
close_clients [] = []
close_clients ((fd, c) ∷ clients) = close fd ∷ close_clients clients

-- The destructor.
unfoldable pub delete_server : Server → List SysCall
unfolding close_clients
delete_server s = close_clients s.clients ++ close_sockets s.server_fds
