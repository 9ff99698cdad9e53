-- ===== src/Server/Poll/Timeouts.antt =====
-- About the loop over the connections that are late, in `start` of src/Server.cpp.
use web_server.Prelude.{
  ℕ, zero, suc, ◌<◌, ◌≡◌, some, inl, inr, List, [], ◌∷◌, arith, length, get_elem?, Bool-cases,
  Option-cases,
}
use web_server.Prelude.Loop.{Falls, Round, again, done, loop, loop-run}
use web_server.Server.State.{PollFd, Server, get_client, is_listening_socket}
use web_server.Server.Remove.Shrinks.{remove_client-lt}
use web_server.Server.Poll.{
  Point, timeout_entry, timeout_round, entries_left, is_late, check_timeouts,
}

get_elem?-lt : (fds : List PollFd) (i : ℕ) (p : PollFd) → get_elem? fds i ≡ some p → i < length fds
get_elem?-lt [] i p h = cc
get_elem?-lt (q ∷ fds) zero p h = omega arith
get_elem?-lt (q ∷ fds) (suc i) p h = omega (arith, get_elem?-lt fds i p h)

-- What a further turn has left.
abbrev Shortens : ℕ → Round Point Server → Type 0
Shortens n (again t) = entries_left t < n
Shortens n (done v) = Unit

timeout-Shortens :
    (idx : ℕ) (s : Server) → Shortens (entries_left (idx, s)) (timeout_round (idx, s))
unfolding timeout_round timeout_entry
timeout-Shortens idx s = elim (Option-cases (get_elem? s.poll_fds idx)) [
  | inl end ↦ rw end tt
  | inr (p, there) ↦
      let within = get_elem?-lt s.poll_fds idx p there in
      elim (Bool-cases (is_listening_socket p.fd s.server_fds)) [
        | inl listens ↦ rw (there, listens) (omega arith)
        | inr other ↦ elim (Bool-cases (is_late s.sys.now (get_client p.fd s))) [
          | inl late ↦
              let shorter = remove_client-lt idx p.fd s within in
              rw (there, other, late) (omega arith)
          | inr early ↦ rw (there, other, early) (omega arith)
        ]
      ]
]

pub timeout-Falls : Falls entries_left timeout_round
timeout-Falls (idx, s) t e = rw e at (timeout-Shortens idx s)

-- The loop over the timeouts ends in at most one turn for each entry and one more, whatever the
-- clients that it removes hold, and leaves what `check_timeouts` returns.
pub timeouts_end :
    (s : Server) → loop (suc (length s.poll_fds)) timeout_round (0, s) ≡ some (check_timeouts s)
unfolding check_timeouts
timeouts_end s =
    loop-run entries_left s timeout_round timeout-Falls (suc (length s.poll_fds)) (0, s)
      (omega arith)
