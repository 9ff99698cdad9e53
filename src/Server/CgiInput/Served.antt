-- ===== src/Server/CgiInput/Served.antt =====
-- About the clients in `handle_cgi_stdin_writable` of src/Server.cpp, and in what is done with one
-- piece of a body.
use web_server.Prelude.{
  ℕ, ◌+◌, ◌<◌, ◌≡◌, refl, ◌∙◌, true, not, ◌&&◌, inl, inr, List, [], ◌∷◌, Option-cases, Bool-cases,
  length, ltb,
}
use web_server.Bytes.{Bytes, empty, is_some}
use web_server.StdMap.{lookup, int_order}
use web_server.Client.{
  Client, is_cgi_stdin_pending_empty, consume_cgi_stdin_pending, append_cgi_stdin_pending,
  set_cgi_stdin_eof, close_cgi_stdin,
}
use web_server.Server.State.{Server, get_client}
use web_server.Server.Served.{
  IsServed, IsServedTurn, IsServedPair, put-IsServed, same-IsServed, client-IsClient,
}
use web_server.Server.CgiOutput.{fair_io_limit}
use web_server.Server.CgiInput.{
  close_stdin, flush_stdin, stdin_stays, stdin_flushed, orphan_stdin, stdin_client, stdin_key,
  handle_cgi_stdin_writable, client_ended, watch_stdin, forward, next_write, body_ended,
}

flush_index :
    (stdin_fd total : ℕ) (writes : List ℕ) (c : Client)
    → (flush_stdin stdin_fd total writes c).client.server_index ≡ c.server_index
unfolding flush_stdin
flush_index stdin_fd total [] c = refl
flush_index stdin_fd total (w ∷ writes) c =
    elim (Bool-cases (not (is_cgi_stdin_pending_empty c) && ltb total fair_io_limit)) [
      | inr stop ↦ rw stop refl
      | inl go ↦ elim (Bool-cases (ltb 0 w)) [
        | inr none_taken ↦ rw (go, none_taken) refl
        | inl some_taken ↦
            rw (go, some_taken)
              (flush_index stdin_fd (total + w) writes (consume_cgi_stdin_pending w c)
                ∙ unfold consume_cgi_stdin_pending in refl)
      ]
    ]

stays-IsServed :
    (n idx : ℕ) (c : Client) (s : Server)
    → c.server_index < n
    → IsServed n s
    → IsServed n (stdin_stays idx c s)
unfolding stdin_stays
stays-IsServed n idx c s i h = put-IsServed n c _ i (same-IsServed s refl refl refl h)

flushed-IsServed :
    (n idx stdin_fd : ℕ) (c : Client) (s : Server)
    → c.server_index < n
    → IsServed n s
    → IsServedTurn n (stdin_flushed idx stdin_fd c s)
unfolding stdin_flushed close_cgi_stdin
flushed-IsServed n idx stdin_fd c s i h =
    elim (Bool-cases (is_cgi_stdin_pending_empty c && c.cgi_stdin_eof)) [
      | inl end ↦ rw end (record {
        served =
            same-IsServed _ refl refl refl
              (put-IsServed n (close_cgi_stdin c).1 _ i (same-IsServed s refl refl refl h));
      })
      | inr more ↦ rw more (record { served = stays-IsServed n idx c s i h })
    ]

pub stdin-IsServed :
    (n idx stdin_fd : ℕ) (s : Server)
    → IsServed n s
    → IsServedTurn n (handle_cgi_stdin_writable idx stdin_fd s)
unfolding handle_cgi_stdin_writable stdin_key stdin_client orphan_stdin
stdin-IsServed n idx stdin_fd s h =
    elim (Option-cases (lookup stdin_fd s.cgi_stdin_fd_to_client_fd)) [
      | inl orphan ↦ rw orphan (record { served = same-IsServed s refl refl refl h })
      | inr (fd, key) ↦ elim (Option-cases (get_client fd s)) [
        | inl gone ↦ rw (key, gone) (record { served = same-IsServed s refl refl refl h })
        | inr (c, there) ↦
            let i = (client-IsClient n fd c s h there).index in
            rw (key, there)
              (flushed-IsServed n idx stdin_fd _ _ (rw (flush_index stdin_fd 0 s.sys.writes c) i)
                (same-IsServed s refl refl refl h))
      ]
    ]

closed-IsServed :
    (n : ℕ) (c : Client) (s : Server)
    → c.server_index < n
    → IsServed n s
    → IsServedPair n (close_stdin c s)
unfolding close_cgi_stdin
closed-IsServed n c s i h = record { index = i; served = same-IsServed s refl refl refl h }

pub client_ended-IsServed :
    (n : ℕ) (c : Client) (s : Server)
    → c.server_index < n
    → IsServed n s
    → IsServedPair n (client_ended c s)
unfolding client_ended set_cgi_stdin_eof
client_ended-IsServed n c s i h =
    elim (Bool-cases (is_cgi_stdin_pending_empty (set_cgi_stdin_eof true c))) [
      | inl none_left ↦ rw none_left (closed-IsServed n (set_cgi_stdin_eof true c) s i h)
      | inr some_left ↦ rw some_left (record { index = i; served = h })
    ]

watch-IsServed :
    (n stdin_fd fd : ℕ) (s : Server) → IsServed n s → IsServed n (watch_stdin stdin_fd fd s)
unfolding watch_stdin
watch-IsServed n stdin_fd fd s h =
    elim (Bool-cases (is_some (lookup stdin_fd s.cgi_stdin_fd_to_client_fd))) [
      | inl there ↦ rw there (same-IsServed s refl refl refl h)
      | inr gone ↦ rw gone (same-IsServed s refl refl refl h)
    ]

pub forward-IsServed :
    (n stdin_fd : ℕ) (fwd : Bytes) (c : Client) (s : Server)
    → c.server_index < n
    → IsServed n s
    → IsServedPair n (forward stdin_fd fwd c s)
unfolding forward append_cgi_stdin_pending
forward-IsServed n stdin_fd fwd c s i h = elim (Bool-cases (empty fwd)) [
  | inl nothing ↦ rw nothing (record { index = i; served = h })
  | inr bytes ↦ elim (Bool-cases (ltb (next_write s.sys.writes).0 (length fwd))) [
    | inl part ↦
        rw (bytes, part)
          (record {
            index = i;
            served = watch-IsServed n stdin_fd c.fd _ (same-IsServed s refl refl refl h);
          })
    | inr all ↦ rw (bytes, all) (record { index = i; served = same-IsServed s refl refl refl h })
  ]
]

pub body_ended-IsServed :
    (n stdin_fd : ℕ) (c : Client) (s : Server)
    → c.server_index < n
    → IsServed n s
    → IsServedPair n (body_ended stdin_fd c s)
unfolding body_ended close_cgi_stdin set_cgi_stdin_eof
body_ended-IsServed n stdin_fd c s i h = elim (Bool-cases (is_cgi_stdin_pending_empty c)) [
  | inl none_left ↦ rw none_left (record { index = i; served = same-IsServed s refl refl refl h })
  | inr some_left ↦ rw some_left (record { index = i; served = h })
]
