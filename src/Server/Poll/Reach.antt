-- ===== src/Server/Poll/Reach.antt =====
-- About the states that the event loop of src/Server.cpp reaches.
use web_server.Prelude.{
  ℕ, suc, ◌+◌, ◌<◌, ◌≡◌, refl, true, some, inl, inr, List, [], ◌∷◌, arith, length, get_elem?,
}
use web_server.Config.{ServerConfig}
use web_server.Server.State.{ServerSocket, PollFd, Revents, System, Server}
use web_server.Server.Served.{IsServed, AreIndexed, same-IsServed}
use web_server.Server.Start.{SocketReply, new_start, new_server_of}
use web_server.Server.Start.Cleanup.{AreListening, new_start_ends}
use web_server.Server.Poll.{next, entry_turn, check_timeouts}
use web_server.Server.Poll.Served.{turn-IsServedNext, timeouts-IsServed}

-- The events that `poll` reports for the entries.
abbrev pub report : List Revents → List PollFd → List PollFd
report [] fds = fds
report (r ∷ revents) [] = []
report (r ∷ revents) (p ∷ fds) = record p { revents = r } ∷ report revents fds

-- `poll` returns, with any events and any answers of the calls to come; an entry has its turn; the
-- loop over the timeouts runs.
pub data Step : Server → Server → Type 0 where
  polled :
      (s : Server) (revents : List Revents) (sys : System)
      → Step s (record s { poll_fds = report revents s.poll_fds; sys = sys })
  entry :
      (s t : Server) (idx idx_then : ℕ) (p : PollFd)
      → get_elem? s.poll_fds idx ≡ some p
      → entry_turn p (idx, s) ≡ next (idx_then, t)
      → Step s t
  timed : (s : Server) → Step s (check_timeouts s)

-- The states behind any number of steps.
pub data Reach (start : Server) : Server → Type 0 where
  here : Reach start start
  there : (s t : Server) → Reach start s → Step s t → Reach start t

Step-IsServed : (n : ℕ) (s t : Server) → Step s t → IsServed n s → IsServed n t
Step-IsServed n _ _ (polled s revents sys) h = same-IsServed s refl refl refl h
Step-IsServed n _ _ (entry s t idx idx_then p at e) h = rw e at (turn-IsServedNext n idx p s h)
Step-IsServed n _ _ (timed s) h = timeouts-IsServed n s h

Reached-IsServed : (n : ℕ) (s t : Server) → IsServed n s → Reach s t → IsServed n t
Reached-IsServed n s _ h here = h
Reached-IsServed n s _ h (there m t r step) = Step-IsServed n m t step (Reached-IsServed n s m h r)

listening-AreIndexed :
    (reply : ℕ → SocketReply) (i n : ℕ) (configs : List ServerConfig) (socks : List ServerSocket)
    → i + length configs ≡ n
    → AreListening reply i configs socks
    → AreIndexed n socks
listening-AreIndexed reply i n [] socks e h = rw h tt
listening-AreIndexed reply i n (conf ∷ configs) (sock ∷ socks) e (_, _, at, more) =
    (rw at (omega arith), listening-AreIndexed reply (suc i) n configs socks (omega arith) more)
listening-AreIndexed reply i n (conf ∷ configs) [] e h = absurd h

start-IsServed :
    (reply : ℕ → SocketReply) (configs : List ServerConfig) (sys : System)
    → 0 < length configs
    → (new_start reply configs).init_ok ≡ true
    → IsServed (length configs) (new_server_of (new_start reply configs) configs sys)
start-IsServed reply configs sys some_config ok = elim (new_start_ends reply configs) [
  | inl (_, up) ↦ let no = up.refused in absurd (cc)
  | inr open_sockets ↦ record {
    positive = some_config;
    size = refl;
    sockets =
        listening-AreIndexed reply 0 (length configs) configs _ (omega arith) open_sockets.sockets;
    clients = tt;
  }
]

-- In every state that the event loop of a started server reaches, each client is kept under its own
-- descriptor, and the index of its configuration, as that of every listening socket, is below the
-- number of configurations: `configs_[client.get_server_index()]` is always in range. There is a
-- configuration; the events and the answers of the system are arbitrary.
pub Reach-IsServed :
    (reply : ℕ → SocketReply) (configs : List ServerConfig) (sys : System) (t : Server)
    → 0 < length configs
    → (new_start reply configs).init_ok ≡ true
    → Reach (new_server_of (new_start reply configs) configs sys) t
    → IsServed (length configs) t
Reach-IsServed reply configs sys t some_config ok r =
    Reached-IsServed (length configs) _ t (start-IsServed reply configs sys some_config ok) r
