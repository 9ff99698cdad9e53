-- ===== src/Server/State.antt =====
-- inc/Server.hpp and the look-ups of src/Server.cpp: the state of the event loop. What the system
-- answers is a queue for each call, from which the calls take in their order.
use web_server.Prelude.{
  ℕ, zero, suc, Bool, false, Option, none, some, List, [], ◌∷◌, ◌++◌, if◌then◌else◌, get_elem?,
  ◌==◌, ◌||◌,
}
use web_server.Bytes.{Bytes, is_some}
use web_server.StdMap.{lookup, insert, int_order}
use web_server.Config.{ServerConfig, new_server}
use web_server.Client.{Client, SysCall}
use web_server.HttpHandler.Files.{Files, FileCall}

pub record ServerSocket : Type 0 where
  pub fd : ℕ
  pub port : ℕ
  pub index : ℕ

-- `revents`: POLLIN, POLLOUT, POLLHUP, and POLLERR or POLLNVAL.
pub record Revents : Type 0 where
  pub readable : Bool
  pub writable : Bool
  pub hung_up : Bool
  pub failed : Bool

abbrev pub no_events : Revents
no_events = record { readable = false; writable = false; hung_up = false; failed = false }

-- A `pollfd`; `pollin` and `pollout` are the bits of its `events`.
pub record PollFd : Type 0 where
  pub fd : ℕ
  pub pollin : Bool
  pub pollout : Bool
  pub revents : Revents

-- `read`: a byte and those behind it, the end, EAGAIN or EWOULDBLOCK, or another error.
pub data ReadReply : Type 0 where
  received : ℕ → Bytes → ReadReply
  end_of_input read_blocked read_failed : ReadReply

pub data SendReply : Type 0 where
  sent : ℕ → SendReply
  send_blocked send_failed : SendReply

-- A call of the system that is seen outside: what a client's methods call, the bytes that a
-- socket or a pipe takes, the program that a child process becomes, with its argument, its
-- environment and its directory, and the calls of a request that change files.
pub data Call : Type 0 where
  system : SysCall → Call
  send : ℕ → Bytes → Call
  write : ℕ → Bytes → Call
  execve : Bytes → Bytes → List Bytes → Bytes → Call
  file : FileCall → Call

pub record System : Type 0 where
  -- Behind its last answer `read` says EAGAIN, as `send` does; a `write` that takes nothing, or
  -- fails, is a zero.
  pub reads : List ReadReply
  pub sends : List SendReply
  pub writes : List ℕ
  -- The connections that wait; behind them `accept` says EAGAIN.
  pub accepts : List ℕ
  -- The ends of a pipe for reading and writing, and the process of a `fork`, or a failure.
  pub pipes : List (Option (ℕ × ℕ))
  pub forks : List (Option ℕ)
  pub realpath : Bytes → Option Bytes
  pub files : Files
  pub now : ℕ
  -- What has been called, in order.
  pub calls : List Call

pub record Server : Type 0 where
  pub server_fds : List ServerSocket
  pub clients : List (ℕ × Client)
  pub poll_fds : List PollFd
  pub configs : List ServerConfig
  pub cgi_fd_to_client_fd : List (ℕ × ℕ)
  pub cgi_stdin_fd_to_client_fd : List (ℕ × ℕ)
  pub sys : System

-- What a handler leaves: its result, the position and the state.
pub record Handled : Type 0 where
  pub handled : Bool
  pub idx : ℕ
  pub server : Server

abbrev pub logged : List Call → Server → Server
logged calls s = record s { sys = record s.sys { calls = s.sys.calls ++ calls } }

abbrev pub system_calls : List SysCall → List Call
system_calls [] = []
system_calls (call ∷ calls) = system call ∷ system_calls calls

unfoldable pub is_listening_socket : ℕ → List ServerSocket → Bool
is_listening_socket fd [] = false
is_listening_socket fd (sock ∷ server_fds) = sock.fd == fd || is_listening_socket fd server_fds

unfoldable pub is_cgi_fd : ℕ → Server → Bool
is_cgi_fd fd s = is_some (lookup fd s.cgi_fd_to_client_fd)

unfoldable pub is_cgi_stdin_fd : ℕ → Server → Bool
is_cgi_stdin_fd fd s = is_some (lookup fd s.cgi_stdin_fd_to_client_fd)

unfoldable pub get_client : ℕ → Server → Option Client
get_client fd s = lookup fd s.clients

abbrev pub client_of : Option ℕ → Server → Option Client
client_of none s = none
client_of (some fd) s = get_client fd s

unfoldable pub get_client_by_cgi_fd : ℕ → Server → Option Client
get_client_by_cgi_fd cgi_fd s = client_of (lookup cgi_fd s.cgi_fd_to_client_fd) s

-- What a handler has done to a client that a pointer into `clients_` leads to; the key of a client
-- is its descriptor.
unfoldable pub put_client : Client → Server → Server
put_client c s = record s { clients = insert c.fd c s.clients }

abbrev config_or_new : Option ServerConfig → ServerConfig
config_or_new none = new_server
config_or_new (some conf) = conf

-- configs_[client.get_server_index()]; an index out of range gives a new configuration here.
unfoldable pub config_of : Server → Client → ServerConfig
config_of s c = config_or_new (get_elem? s.configs c.server_index)

abbrev pub set_pollin : Bool → PollFd → PollFd
set_pollin b p = record p { pollin = b }

abbrev pub set_pollout : Bool → PollFd → PollFd
set_pollout b p = record p { pollout = b }

-- A change of poll_fds_[idx].
unfoldable pub change_at : ℕ → (PollFd → PollFd) → List PollFd → List PollFd
change_at idx f [] = []
change_at zero f (p ∷ fds) = f p ∷ fds
change_at (suc idx) f (p ∷ fds) = p ∷ change_at idx f fds

-- poll_fds_.erase(poll_fds_.begin() + idx)
unfoldable pub erase_at : ℕ → List PollFd → List PollFd
erase_at idx [] = []
erase_at zero (p ∷ fds) = fds
erase_at (suc idx) (p ∷ fds) = p ∷ erase_at idx fds

-- The loops over poll_fds_ that stop at the first entry with a descriptor.
unfoldable pub change_fd : ℕ → (PollFd → PollFd) → List PollFd → List PollFd
change_fd fd f [] = []
change_fd fd f (p ∷ fds) = if p.fd == fd then f p ∷ fds else p ∷ change_fd fd f fds

abbrev pub next_index : Option ℕ → Option ℕ
next_index none = none
next_index (some i) = some (suc i)

unfoldable pub index_of : ℕ → List PollFd → Option ℕ
index_of fd [] = none
index_of fd (p ∷ fds) = if p.fd == fd then some 0 else next_index (index_of fd fds)

abbrev pub poll_entry : ℕ → Bool → Bool → PollFd
poll_entry fd pollin pollout = record {
  fd = fd;
  pollin = pollin;
  pollout = pollout;
  revents = no_events;
}

abbrev pub with_fds : (List PollFd → List PollFd) → Server → Server
with_fds f s = record s { poll_fds = f s.poll_fds }
