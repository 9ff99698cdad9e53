-- ===== src/Server/Poll/Served.antt =====
-- About the clients in the event loop of src/Server.cpp.
use web_server.Prelude.{
  ℕ, ◌<◌, ◌≡◌, refl, false, ◌&&◌, ◌||◌, Option, none, some, inl, inr, Option-cases, Bool-cases,
  get_elem?,
}
use web_server.Prelude.Loop.{Round, again, done, run_inv}
use web_server.StdMap.{lookup, int_order}
use web_server.Client.{Client, close_cgi_stdin}
use web_server.Server.State.{
  PollFd, Server, Handled, client_of, get_client, is_listening_socket, is_cgi_fd, is_cgi_stdin_fd,
}
use web_server.Server.Served.{IsServed, IsServedTurn, put-IsServed, same-IsServed, client-IsClient}
use web_server.Server.Remove.Served.{accept-IsServed, remove-IsServed}
use web_server.Server.CgiOutput.Served.{cgi_output-IsServed}
use web_server.Server.Read.Served.{read-IsServed}
use web_server.Server.Output.{handle_poll_output}
use web_server.Server.Output.Served.{output-IsServed}
use web_server.Server.Poll.Timeouts.{timeout-Falls}
use web_server.Server.Poll.{
  close_of, stdin_broke, handle_poll_errors, handle_poll_input, Turn, next, undefined, Point,
  timeout_entry, timeout_round, is_late, entries_left, check_timeouts, next_entry, output_turn,
  input_turn, entry_turn,
}

close-IsServed :
    (n : ℕ) (c : Option Client) (s : Server)
    → ((d : Client) → c ≡ some d → d.server_index < n)
    → IsServed n s
    → IsServed n (close_of c s)
unfolding close_of close_cgi_stdin
close-IsServed n none s i h = h
close-IsServed n (some c) s i h = put-IsServed n _ _ (i c refl) (same-IsServed s refl refl refl h)

client_of-lt :
    (n : ℕ) (key : Option ℕ) (s : Server) (d : Client)
    → IsServed n s
    → client_of key s ≡ some d
    → d.server_index < n
client_of-lt n none s d h e = cc
client_of-lt n (some fd) s d h e = (client-IsClient n fd d s h e).index

broke-IsServed : (n idx fd : ℕ) (s : Server) → IsServed n s → IsServed n (stdin_broke idx fd s)
unfolding stdin_broke
broke-IsServed n idx fd s h = same-IsServed _ refl refl refl (
    close-IsServed n _ _ (λ d e. client_of-lt n (lookup fd s.cgi_stdin_fd_to_client_fd) s d h e)
      (same-IsServed s refl refl refl h))

errors-IsServed :
    (n idx : ℕ) (p : PollFd) (s : Server)
    → IsServed n s
    → IsServedTurn n (handle_poll_errors idx p s)
unfolding handle_poll_errors
errors-IsServed n idx p s h = elim (Bool-cases (p.revents.hung_up || p.revents.failed)) [
  | inr fine ↦ rw fine (record { served = h })
  | inl bad ↦ elim (Bool-cases (is_listening_socket p.fd s.server_fds || is_cgi_fd p.fd s)) [
    | inl kept ↦ rw (bad, kept) (record { served = h })
    | inr other ↦ elim (Bool-cases (is_cgi_stdin_fd p.fd s)) [
      | inl pipe ↦ rw (bad, other, pipe) (record { served = broke-IsServed n idx p.fd s h })
      | inr client ↦ rw (bad, other, client) (record { served = remove-IsServed n idx p.fd s h })
    ]
  ]
]

input-IsServed :
    (n idx : ℕ) (p : PollFd) (s : Server)
    → IsServed n s
    → IsServedTurn n (handle_poll_input idx p s)
unfolding handle_poll_input
input-IsServed n idx p s h = elim (Bool-cases p.revents.readable) [
  | inr unready ↦ elim (Bool-cases (p.revents.hung_up && is_cgi_fd p.fd s)) [
    | inl pipe ↦ rw (unready, pipe) (cgi_output-IsServed n idx p.fd s h)
    | inr nothing ↦ rw (unready, nothing) (record { served = h })
  ]
  | inl ready ↦ elim (Bool-cases (is_listening_socket p.fd s.server_fds)) [
    | inl socket ↦ rw (ready, socket) (record { served = accept-IsServed n p.fd s h })
    | inr other ↦ elim (Bool-cases (is_cgi_stdin_fd p.fd s)) [
      | inl stdin ↦ rw (ready, other, stdin) (record { served = h })
      | inr no_stdin ↦ elim (Bool-cases (is_cgi_fd p.fd s)) [
        | inl pipe ↦ rw (ready, other, no_stdin, pipe) (cgi_output-IsServed n idx p.fd s h)
        | inr client ↦
            rw (ready, other, no_stdin, client) (record { served = read-IsServed n idx p.fd s h })
      ]
    ]
  ]
]

-- What a turn leaves, if it does.
abbrev pub IsServedNext : ℕ → Turn → Type 0
IsServedNext n (next (idx, s)) = IsServed n s
IsServedNext n undefined = Unit

next-IsServed : (n : ℕ) (h : Handled) → IsServedTurn n h → IsServedNext n (next_entry h)
next-IsServed n h k = elim (Bool-cases h.handled) [
  | inl complete ↦ rw complete k.served
  | inr more ↦ rw more (same-IsServed h.server refl refl refl k.served)
]

output-IsServedNext :
    (n : ℕ) (p : Option PollFd) (h : Handled) → IsServedTurn n h → IsServedNext n (output_turn p h)
unfolding output_turn
output-IsServedNext n none h k = tt
output-IsServedNext n (some p) h k =
    next-IsServed n (handle_poll_output h.idx p h.server)
      (output-IsServed n h.idx p h.server k.served)

input-IsServedNext : (n : ℕ) (h : Handled) → IsServedTurn n h → IsServedNext n (input_turn h)
unfolding input_turn
input-IsServedNext n h k = elim (Bool-cases h.handled) [
  | inl complete ↦ rw complete k.served
  | inr more ↦ rw more (
      output-IsServedNext n (get_elem? h.server.poll_fds h.idx) (record h { handled = false })
        (record { served = k.served }))
]

-- A turn for an entry keeps the clients served.
pub turn-IsServedNext :
    (n idx : ℕ) (p : PollFd) (s : Server) → IsServed n s → IsServedNext n (entry_turn p (idx, s))
unfolding entry_turn
turn-IsServedNext n idx p s h =
    let k = errors-IsServed n idx p s h in
    elim (Bool-cases (handle_poll_errors idx p s).handled) [
      | inl complete ↦ rw complete k.served
      | inr more ↦
          rw more (input-IsServedNext n (handle_poll_input idx p s) (input-IsServed n idx p s h))
    ]

-- What a turn over the timeouts leaves.
abbrev IsServedRound : ℕ → Round Point Server → Type 0
IsServedRound n (again (idx, s)) = IsServed n s
IsServedRound n (done s) = IsServed n s

timeout-IsServedRound :
    (n idx : ℕ) (s : Server) → IsServed n s → IsServedRound n (timeout_round (idx, s))
unfolding timeout_round timeout_entry
timeout-IsServedRound n idx s h = elim (Option-cases (get_elem? s.poll_fds idx)) [
  | inl end ↦ rw end h
  | inr (p, there) ↦ elim (Bool-cases (is_listening_socket p.fd s.server_fds)) [
    | inl listens ↦ rw (there, listens) h
    | inr other ↦ elim (Bool-cases (is_late s.sys.now (get_client p.fd s))) [
      | inl late ↦ rw (there, other, late) (remove-IsServed n idx p.fd s h)
      | inr early ↦ rw (there, other, early) h
    ]
  ]
]

pub timeouts-IsServed : (n : ℕ) (s : Server) → IsServed n s → IsServed n (check_timeouts s)
unfolding check_timeouts
timeouts-IsServed n s h =
    run_inv entries_left s timeout_round timeout-Falls (λ (idx, t). IsServed n t) (IsServed n)
      (λ (idx, t) u k e. rw e at (timeout-IsServedRound n idx t k))
      (λ (idx, t) v k e. rw e at (timeout-IsServedRound n idx t k)) (0, s) h
