-- ===== src/Server/Start/Cleanup.antt =====
-- About the constructor of a server in src/Server.cpp.
use web_server.Prelude.{
  ℕ, suc, ◌+◌, ◌≡◌, ◌⊎◌, refl, sym, ap, ◌∙◌, true, false, inl, inr, List, [], ◌∷◌, ◌++◌, arith,
  append-nil, append_assoc, if◌then◌else◌, ◌==◌,
}
use mathlib.Core.Path.{subst}
use web_server.Config.{ServerConfig}
use web_server.Client.{SysCall, close, waitpid_nohang}
use web_server.Server.State.{ServerSocket, PollFd, poll_entry}
use web_server.Server.Start.{
  SocketReply, socket_failed, bind_failed, listen_failed, listening, Start, close_sockets,
  cleanup_sockets, add_socket, open_sockets, new_start, start_empty,
}

abbrev pub times : ℕ → List ℕ → ℕ
times n [] = 0
times n (m ∷ l) = (if n == m then 1 else 0) + times n l

-- The descriptors that calls close.
abbrev pub closed_fds : List SysCall → List ℕ
closed_fds [] = []
closed_fds (close fd ∷ calls) = fd ∷ closed_fds calls
closed_fds (waitpid_nohang pid ∷ calls) = closed_fds calls

abbrev pub socket_fds : List ServerSocket → List ℕ
socket_fds [] = []
socket_fds (sock ∷ socks) = sock.fd ∷ socket_fds socks

abbrev pub entries : List ServerSocket → List PollFd
entries [] = []
entries (sock ∷ socks) = poll_entry sock.fd true false ∷ entries socks

-- The descriptors that `socket` returns, up to the first failure of a call.
abbrev pub opened : (ℕ → SocketReply) → ℕ → List ServerConfig → List ℕ
opened reply i [] = []
opened reply i (conf ∷ configs) = elim (reply i) [
  | socket_failed ↦ []
  | bind_failed fd ↦ fd ∷ []
  | listen_failed fd ↦ fd ∷ []
  | listening fd ↦ fd ∷ opened reply (suc i) configs
]

-- A call fails, behind the calls for the configurations in front of it, which all succeed.
abbrev pub HasFailure : (ℕ → SocketReply) → ℕ → List ServerConfig → Type 0
HasFailure reply i [] = ⊥
HasFailure reply i (conf ∷ configs) = elim (reply i) [
  | socket_failed ↦ Unit
  | bind_failed fd ↦ Unit
  | listen_failed fd ↦ Unit
  | listening fd ↦ HasFailure reply (suc i) configs
]

-- One socket for each configuration, with its port and its index.
abbrev pub AreListening : (ℕ → SocketReply) → ℕ → List ServerConfig → List ServerSocket → Type 0
AreListening reply i [] socks = socks ≡ []
AreListening reply i (conf ∷ configs) [] = ⊥
AreListening reply i (conf ∷ configs) (sock ∷ socks) =
    (reply i ≡ listening sock.fd)
    × (sock.port ≡ conf.port)
    × (sock.index ≡ i)
    × AreListening reply (suc i) configs socks

times-append : (n : ℕ) (a b : List ℕ) → times n (a ++ b) ≡ times n a + times n b
times-append n [] b = omega arith
times-append n (m ∷ a) b = ground (arith, times-append n a b)

times_swap : (n : ℕ) (a b : List ℕ) → times n (a ++ b) ≡ times n (b ++ a)
times_swap n a b = omega (arith, times-append n a b, times-append n b a)

closed_fds-append : (a b : List SysCall) → closed_fds (a ++ b) ≡ closed_fds a ++ closed_fds b
closed_fds-append [] b = refl
closed_fds-append (close fd ∷ a) b = rw (closed_fds-append a b)
closed_fds-append (waitpid_nohang pid ∷ a) b = closed_fds-append a b

closed_sockets : (socks : List ServerSocket) → closed_fds (close_sockets socks) ≡ socket_fds socks
closed_sockets [] = refl
closed_sockets (sock ∷ socks) = rw (closed_sockets socks)

socket_fds-append : (a b : List ServerSocket) → socket_fds (a ++ b) ≡ socket_fds a ++ socket_fds b
socket_fds-append [] b = refl
socket_fds-append (sock ∷ a) b = rw (socket_fds-append a b)

entries-append : (a b : List ServerSocket) → entries (a ++ b) ≡ entries a ++ entries b
entries-append [] b = refl
entries-append (sock ∷ a) b = rw (entries-append a b)

-- A start that is given up has closed each of the descriptors once.
pub record IsGivenUp (fds : List ℕ) (t : Start) : Type 0 where
  pub refused : t.init_ok ≡ false
  pub no_sockets : t.server_fds ≡ []
  pub no_entries : t.poll_fds ≡ []
  pub closed : (n : ℕ) → times n (closed_fds t.calls) ≡ times n fds

-- A start that succeeds has a socket and an entry for each configuration, and has closed nothing.
pub record IsOpen (reply : ℕ → SocketReply) (configs : List ServerConfig) (t : Start) : Type 0 where
  pub ok : t.init_ok ≡ true
  pub sockets : AreListening reply 0 configs t.server_fds
  pub watched : t.poll_fds ≡ entries t.server_fds
  pub kept : t.calls ≡ []

-- Open sockets, one for each of the configurations that are left.
record IsLonger (reply : ℕ → SocketReply) (i : ℕ) (configs : List ServerConfig) (s t : Start)
    : Type 0 where
  more : List ServerSocket
  ok : t.init_ok ≡ true
  joined : t.server_fds ≡ s.server_fds ++ more
  sockets : AreListening reply i configs more
  watched : t.poll_fds ≡ entries t.server_fds
  kept : t.calls ≡ []

-- A start that goes on.
record IsGoing (s : Start) : Type 0 where
  ok : s.init_ok ≡ true
  watched : s.poll_fds ≡ entries s.server_fds
  kept : s.calls ≡ []

abbrev Ends : (ℕ → SocketReply) → ℕ → List ServerConfig → Start → Start → Type 0
Ends reply i configs s t =
    (HasFailure reply i configs × IsGivenUp (socket_fds s.server_fds ++ opened reply i configs) t)
    ⊎ IsLonger reply i configs s t

given_up :
    (fds : List ℕ) (calls : List SysCall) (s : Start)
    → s.calls ≡ []
    → closed_fds calls ≡ fds
    → IsGivenUp (socket_fds s.server_fds ++ fds) (cleanup_sockets calls s)
unfolding cleanup_sockets
given_up fds calls s kept made = record {
  refused = refl;
  no_sockets = refl;
  no_entries = refl;
  closed = λ n.
      let cs = close_sockets s.server_fds in
      let parts : closed_fds (s.calls ++ (calls ++ cs)) ≡ fds ++ socket_fds s.server_fds =
        ap (λ k. closed_fds (k ++ (calls ++ cs))) kept
        ∙ (closed_fds-append calls cs
            ∙ (ap (λ k. k ++ closed_fds cs) made
                ∙ ap (λ k. fds ++ k) (closed_sockets s.server_fds))) in
      ap (times n) parts ∙ times_swap n fds (socket_fds s.server_fds);
}

add-IsGoing :
    (i fd : ℕ) (conf : ServerConfig) (s : Start) → IsGoing s → IsGoing (add_socket i fd conf s)
add-IsGoing i fd conf s h = record {
  ok = h.ok;
  watched =
      ap (λ k. k ++ poll_entry fd true false ∷ []) h.watched
      ∙ sym (entries-append s.server_fds (record { fd = fd; port = conf.port; index = i } ∷ []));
  kept = h.kept;
}

-- The socket that is added belongs to those behind it.
added :
    (reply : ℕ → SocketReply) (i fd : ℕ) (conf : ServerConfig) (configs : List ServerConfig)
    (s t : Start)
    → reply i ≡ listening fd
    → Ends reply (suc i) configs (add_socket i fd conf s) t
    → Ends reply i (conf ∷ configs) s t
added reply i fd conf configs s t e (inl (fails, up)) = inl (
  rw (e, HasFailure) fails,
  subst (λ k. IsGivenUp k t)
      (ap (λ k. k ++ opened reply (suc i) configs)
          (socket_fds-append s.server_fds (record { fd = fd; port = conf.port; index = i } ∷ []))
        ∙ (append_assoc (socket_fds s.server_fds) (fd ∷ []) (opened reply (suc i) configs)
            ∙ rw (e, opened)))
      up,
)
added reply i fd conf configs s t e (inr l) = inr (record {
  more = record { fd = fd; port = conf.port; index = i } ∷ l.more;
  ok = l.ok;
  joined =
      l.joined
      ∙ append_assoc s.server_fds (record { fd = fd; port = conf.port; index = i } ∷ []) l.more;
  sockets = (e, refl, refl, l.sockets);
  watched = l.watched;
  kept = l.kept;
})

-- One configuration, with what becomes of the others.
open_step :
    (reply : ℕ → SocketReply) (i : ℕ) (conf : ServerConfig) (configs : List ServerConfig)
    (s : Start)
    → IsGoing s
    → (r : SocketReply) → reply i ≡ r
    → ((fd : ℕ)
        → Ends reply
            (suc i)
            configs
            (add_socket i fd conf s)
            (open_sockets reply (suc i) configs (add_socket i fd conf s)))
    → Ends reply i (conf ∷ configs) s (open_sockets reply i (conf ∷ configs) s)
unfolding open_sockets
open_step reply i conf configs s h socket_failed e rest =
    rw (e, open_sockets, opened, HasFailure) (inl (tt, given_up [] [] s h.kept refl))
open_step reply i conf configs s h (bind_failed fd) e rest =
    rw (e, open_sockets, opened, HasFailure)
      (inl (tt, given_up (fd ∷ []) (close fd ∷ []) s h.kept refl))
open_step reply i conf configs s h (listen_failed fd) e rest =
    rw (e, open_sockets, opened, HasFailure)
      (inl (tt, given_up (fd ∷ []) (close fd ∷ []) s h.kept refl))
open_step reply i conf configs s h (listening fd) e rest =
    subst (λ k. Ends reply i (conf ∷ configs) s k) (rw (e, open_sockets))
      (added reply i fd conf configs s _ e (rest fd))

open-Ends :
    (reply : ℕ → SocketReply) (i : ℕ) (configs : List ServerConfig) (s : Start)
    → IsGoing s
    → Ends reply i configs s (open_sockets reply i configs s)
unfolding open_sockets
open-Ends reply i [] s h = inr (record {
  more = [];
  ok = h.ok;
  joined = sym (append-nil s.server_fds);
  sockets = refl;
  watched = h.watched;
  kept = h.kept;
})
open-Ends reply i (conf ∷ configs) s h =
    open_step reply i conf configs s h (reply i) refl
      (λ fd. open-Ends reply (suc i) configs (add_socket i fd conf s) (add-IsGoing i fd conf s h))

-- The constructor either opens a socket for each configuration, all calls for it having succeeded,
-- in their order, with its port and its index, watches each of them and closes nothing, or some call
-- fails, behind calls that succeed, and it gives up: it closes each descriptor that `socket` has
-- returned up to that call just as often as it was returned, and leaves no socket and no entry.
pub new_start_ends :
    (reply : ℕ → SocketReply) (configs : List ServerConfig)
    → (HasFailure reply 0 configs × IsGivenUp (opened reply 0 configs) (new_start reply configs))
      ⊎ IsOpen reply configs (new_start reply configs)
unfolding new_start
new_start_ends reply configs =
    elim (open-Ends reply 0 configs start_empty
      (record { ok = refl; watched = refl; kept = refl })) [
        | inl up ↦ inl up
        | inr l ↦ inr (record {
          ok = l.ok;
          sockets = subst (AreListening reply 0 configs) (sym l.joined) l.sockets;
          watched = l.watched;
          kept = l.kept;
        })
      ]
