-- ===== src/Server/Output/Served.antt =====
-- About the clients in `handle_poll_output` of src/Server.cpp.
use web_server.Prelude.{
  ℕ, ◌+◌, ◌<◌, ◌≡◌, refl, not, ◌||◌, ◌==◌, Option, none, some, inl, inr, List, [], ◌∷◌, Bool-cases,
  ltb, leb, length,
}
use web_server.Bytes.{empty}
use web_server.Client.{
  Client, add_size, update_activity, advance_response_offset, clear_response,
  get_cgi_send_pending_size, consume_cgi_send_pending,
}
use web_server.Server.State.{
  PollFd, SendReply, sent, send_blocked, send_failed, Server, is_cgi_stdin_fd, get_client,
}
use web_server.Server.Served.{IsServed, IsServedTurn, put-IsServed, same-IsServed, client-IsClient}
use web_server.Server.Remove.Served.{remove-IsServed}
use web_server.Server.CgiOutput.{fair_io_limit}
use web_server.Server.CgiInput.Served.{stdin-IsServed}
use web_server.Server.Output.{
  SendStop, all_sent, nothing_pending, lost, later, SendLoop, send_stopped, relieve, drained,
  send_idle, send_loop, after_sending, send_streamed, response_sent, response_reply, next_send,
  send_response, is_streaming, client_output, handle_poll_output,
}

-- A client of the same configuration.
record IsOf (k : ℕ) (l : SendLoop) : Type 0 where
  same : l.client.server_index ≡ k

idle-IsOf :
    (k : ℕ) (stop : SendStop) (total : ℕ) (sends rest : List SendReply) (c : Client)
    (fds : List PollFd)
    → c.server_index ≡ k
    → IsOf k (send_idle stop total sends rest c fds)
unfolding send_idle drained send_stopped
idle-IsOf k stop total sends rest c fds e = elim (Bool-cases (ltb total fair_io_limit)) [
  | inr over ↦ rw over (record { same = e })
  | inl under ↦ elim (Bool-cases (get_cgi_send_pending_size c == 0)) [
    | inl none_left ↦ rw (under, none_left) (record { same = e })
    | inr some_left ↦ rw (under, some_left) (record { same = e })
  ]
]

loop-IsOf :
    (k now total : ℕ) (sends : List SendReply) (c : Client) (fds : List PollFd)
    → c.server_index ≡ k
    → IsOf k (send_loop now total sends c fds)
unfolding send_loop
loop-IsOf k now total [] c fds e = idle-IsOf k later total [] [] c fds e
loop-IsOf k now total (send_blocked ∷ sends) c fds e =
    idle-IsOf k later total (send_blocked ∷ sends) sends c fds e
loop-IsOf k now total (send_failed ∷ sends) c fds e =
    idle-IsOf k lost total (send_failed ∷ sends) sends c fds e
loop-IsOf k now total (sent n ∷ sends) c fds e =
    let d = update_activity now (consume_cgi_send_pending n c) in
    let same : d.server_index ≡ k =
      unfold update_activity in unfold consume_cgi_send_pending in e in
    elim (Bool-cases (not (ltb total fair_io_limit) || (get_cgi_send_pending_size c == 0))) [
      | inl stop ↦ rw stop (idle-IsOf k later total (sent n ∷ sends) sends c fds e)
      | inr go ↦ elim (Bool-cases (ltb 0 n)) [
        | inl some_taken ↦
            rw (go, some_taken)
              (record { same = (loop-IsOf k now (total + n) sends d (relieve d fds) same).same })
        | inr none_taken ↦ rw (go, none_taken) (loop-IsOf k now total sends c fds e)
      ]
    ]

after-IsServed :
    (n : ℕ) (stop : SendStop) (idx fd : ℕ) (c : Client) (s : Server)
    → c.server_index < n
    → IsServed n s
    → IsServedTurn n (after_sending stop idx fd c s)
unfolding after_sending clear_response
after-IsServed n all_sent idx fd c s i h = record {
  served = remove-IsServed n idx fd _ (put-IsServed n _ _ i (same-IsServed s refl refl refl h));
}
after-IsServed n nothing_pending idx fd c s i h = record {
  served = put-IsServed n c _ i (same-IsServed s refl refl refl h);
}
after-IsServed n lost idx fd c s i h = record {
  served = remove-IsServed n idx fd _ (put-IsServed n c s i h);
}
after-IsServed n later idx fd c s i h = record { served = put-IsServed n c s i h }

streamed-IsServed :
    (n idx fd : ℕ) (c : Client) (s : Server)
    → c.server_index < n
    → IsServed n s
    → IsServedTurn n (send_streamed idx fd c s)
unfolding send_streamed
streamed-IsServed n idx fd c s i h =
    let l = loop-IsOf c.server_index s.sys.now 0 s.sys.sends c s.poll_fds refl in
    after-IsServed n _ idx fd _ _ (rw (l.same) i) (same-IsServed s refl refl refl h)

sent-IsServed :
    (n k idx fd : ℕ) (c : Client) (s : Server)
    → c.server_index < n
    → IsServed n s
    → IsServedTurn n (response_sent k idx fd c s)
unfolding response_sent update_activity advance_response_offset clear_response
sent-IsServed n k idx fd c s i h =
    elim (Bool-cases (leb (length c.response) (add_size c.response_offset k))) [
      | inl all ↦ rw all (record {
        served =
            remove-IsServed n idx fd _ (put-IsServed n _ _ i (same-IsServed s refl refl refl h));
      })
      | inr part ↦
          rw part (record { served = put-IsServed n _ _ i (same-IsServed s refl refl refl h) })
    ]

reply-IsServed :
    (n : ℕ) (reply : SendReply) (idx fd : ℕ) (c : Client) (s : Server)
    → c.server_index < n
    → IsServed n s
    → IsServedTurn n (response_reply reply idx fd c s)
unfolding response_reply
reply-IsServed n (sent k) idx fd c s i h = sent-IsServed n k idx fd c s i h
reply-IsServed n send_blocked idx fd c s i h = record { served = remove-IsServed n idx fd s h }
reply-IsServed n send_failed idx fd c s i h = record { served = remove-IsServed n idx fd s h }

response-IsServed :
    (n idx fd : ℕ) (c : Client) (s : Server)
    → c.server_index < n
    → IsServed n s
    → IsServedTurn n (send_response idx fd c s)
unfolding send_response
response-IsServed n idx fd c s i h = elim (Bool-cases (empty c.response)) [
  | inl nothing ↦ rw nothing (record { served = h })
  | inr bytes ↦
      rw bytes
        (reply-IsServed n (next_send s.sys.sends).0 idx fd c _ i (same-IsServed s refl refl refl h))
]

client-IsServed :
    (n : ℕ) (c : Option Client) (idx fd : ℕ) (s : Server)
    → ((d : Client) → c ≡ some d → d.server_index < n)
    → IsServed n s
    → IsServedTurn n (client_output c idx fd s)
unfolding client_output
client-IsServed n none idx fd s i h = record { served = h }
client-IsServed n (some c) idx fd s i h = elim (Bool-cases (is_streaming c)) [
  | inl streams ↦ rw streams (streamed-IsServed n idx fd c s (i c refl) h)
  | inr plain ↦ rw plain (response-IsServed n idx fd c s (i c refl) h)
]

pub output-IsServed :
    (n idx : ℕ) (p : PollFd) (s : Server)
    → IsServed n s
    → IsServedTurn n (handle_poll_output idx p s)
unfolding handle_poll_output
output-IsServed n idx p s h = elim (Bool-cases p.revents.writable) [
  | inr unready ↦ rw unready (record { served = h })
  | inl ready ↦ elim (Bool-cases (is_cgi_stdin_fd p.fd s)) [
    | inl pipe ↦ rw (ready, pipe) (stdin-IsServed n idx p.fd s h)
    | inr other ↦
        rw (ready, other)
          (client-IsServed n (get_client p.fd s) idx p.fd s
            (λ d there. (client-IsClient n p.fd d s h there).index) h)
  ]
]
