-- ===== src/Server/CgiOutput/Served.antt =====
-- About the clients in `handle_cgi_output` and `finalize_cgi` of src/Server.cpp.
use web_server.Prelude.{
  ℕ, suc, ◌+◌, ◌<◌, ◌≡◌, refl, ◌∙◌, Bool, true, false, Option, none, some, inl, inr, List, [], ◌∷◌,
  Option-cases, Bool-cases, ltb, if◌then◌else◌, if_both, length,
}
use web_server.Bytes.{Bytes, codes, find}
use web_server.StdMap.{lookup, int_order}
use web_server.Client.{
  Client, append_cgi_output, append_cgi_send_pending, set_cgi_headers_sent, set_response,
  finish_cgi, clear_buffer, reset_cgi_stdout_fd, get_cgi_send_pending_size,
}
use web_server.Server.State.{
  PollFd, ReadReply, received, end_of_input, read_blocked, read_failed, Server,
  get_client_by_cgi_fd, client_of,
}
use web_server.Server.Served.{IsServed, IsServedTurn, put-IsServed, same-IsServed, client-IsClient}
use web_server.Server.CgiOutput.{
  headers_at, take_bytes, take_cgi_bytes, CgiStop, pressed, waits, ended, yields, CgiLoop, stopped,
  cgi_output_loop, finalize_cgi, cgi_output_ended, after_cgi_output, orphan_output, cgi_output_of,
  handle_cgi_output, fair_io_limit, cgi_backpressure_limit,
}

-- A client of the same configuration.
record IsOf (k : ℕ) (l : CgiLoop) : Type 0 where
  same : l.client.server_index ≡ k

headers_index : (at : Option ℕ) (c : Client) → (headers_at at c).0.server_index ≡ c.server_index
unfolding headers_at append_cgi_send_pending set_cgi_headers_sent
headers_index none c = refl
headers_index (some i) c = refl

take_index :
    (b : Bool) (bytes : Bytes) (c : Client) → (take_bytes b bytes c).0.server_index ≡ c.server_index
unfolding take_bytes append_cgi_send_pending append_cgi_output
take_index true bytes c = refl
take_index false bytes c =
    headers_index (find (codes "\r\n\r\n") (append_cgi_output bytes c).cgi_output)
      (append_cgi_output bytes c)

stopped-IsOf :
    (k : ℕ) (stop : CgiStop) (reads : List ReadReply) (c : Client) (fds : List PollFd)
    → c.server_index ≡ k
    → IsOf k (stopped stop reads c fds)
unfolding stopped
stopped-IsOf k stop reads c fds e = record { same = e }

take_cgi_index :
    (bytes : Bytes) (c : Client) → (take_cgi_bytes bytes c).0.server_index ≡ c.server_index
unfolding take_cgi_bytes
take_cgi_index bytes c = take_index c.cgi_headers_sent bytes c

idle-IsOf :
    (k total : ℕ) (stop : CgiStop) (rest reads : List ReadReply) (c : Client) (fds : List PollFd)
    → c.server_index ≡ k
    → IsOf k
        (if ltb total fair_io_limit then stopped stop rest c fds else stopped yields reads c fds)
idle-IsOf k total stop rest reads c fds e =
    if_both (IsOf k) (ltb total fair_io_limit) (stopped stop rest c fds)
      (stopped yields reads c fds) (stopped-IsOf k stop rest c fds e)
      (stopped-IsOf k yields reads c fds e)

loop-IsOf :
    (k total : ℕ) (reads : List ReadReply) (c : Client) (fds : List PollFd)
    → c.server_index ≡ k
    → IsOf k (cgi_output_loop total reads c fds)
unfolding cgi_output_loop
loop-IsOf k total [] c fds e = stopped-IsOf k _ [] c fds e
loop-IsOf k total (received b bytes ∷ reads) c fds e =
    let taken = take_cgi_bytes (b ∷ bytes) c in
    let same = take_cgi_index (b ∷ bytes) c ∙ e in
    elim (Bool-cases (ltb total fair_io_limit)) [
      | inr over ↦ rw over (stopped-IsOf k _ _ c fds e)
      | inl under ↦
          elim (Bool-cases (ltb cgi_backpressure_limit (get_cgi_send_pending_size taken.0))) [
            | inl full ↦ rw (under, full) (stopped-IsOf k _ _ taken.0 _ same)
            | inr room ↦
                rw (under, room) (loop-IsOf k (total + suc (length bytes)) reads taken.0 _ same)
          ]
    ]
loop-IsOf k total (read_blocked ∷ reads) c fds e = idle-IsOf k total waits reads _ c fds e
loop-IsOf k total (end_of_input ∷ reads) c fds e = idle-IsOf k total ended reads _ c fds e
loop-IsOf k total (read_failed ∷ reads) c fds e = idle-IsOf k total ended reads _ c fds e

finalize-IsServed :
    (n idx : ℕ) (c : Client) (s : Server)
    → c.server_index < n
    → IsServed n s
    → IsServed n (finalize_cgi c idx s)
unfolding finalize_cgi finish_cgi clear_buffer set_response
finalize-IsServed n idx c s i h =
    if_both (IsServed n) _ _ _ (put-IsServed n _ _ i (same-IsServed s refl refl refl h))
      (put-IsServed n _ _ i (same-IsServed s refl refl refl h))

ended-IsServed :
    (n cgi_fd idx : ℕ) (c : Client) (s : Server)
    → c.server_index < n
    → IsServed n s
    → IsServed n (cgi_output_ended cgi_fd idx c s)
unfolding cgi_output_ended reset_cgi_stdout_fd
ended-IsServed n cgi_fd idx c s i h = finalize-IsServed n _ _ _ i (same-IsServed s refl refl refl h)

after-IsServed :
    (n cgi_fd idx : ℕ) (stop : CgiStop) (c : Client) (s : Server)
    → c.server_index < n
    → IsServed n s
    → IsServedTurn n (after_cgi_output stop cgi_fd idx c s)
unfolding after_cgi_output
after-IsServed n cgi_fd idx pressed c s i h = record {
  served = put-IsServed n c _ i (same-IsServed s refl refl refl h);
}
after-IsServed n cgi_fd idx ended c s i h = record { served = ended-IsServed n cgi_fd idx c s i h }
after-IsServed n cgi_fd idx waits c s i h = record { served = put-IsServed n c s i h }
after-IsServed n cgi_fd idx yields c s i h = record { served = put-IsServed n c s i h }

cgi_client_index :
    (n cgi_fd : ℕ) (c : Client) (s : Server)
    → IsServed n s
    → get_client_by_cgi_fd cgi_fd s ≡ some c
    → c.server_index < n
unfolding get_client_by_cgi_fd
cgi_client_index n cgi_fd c s h e = go (lookup cgi_fd s.cgi_fd_to_client_fd) e
  where
    go : (key : Option ℕ) → client_of key s ≡ some c → c.server_index < n
    go none e = cc
    go (some fd) e = (client-IsClient n fd c s h e).index

pub cgi_output-IsServed :
    (n idx cgi_fd : ℕ) (s : Server) → IsServed n s → IsServedTurn n (handle_cgi_output idx cgi_fd s)
unfolding handle_cgi_output cgi_output_of orphan_output
cgi_output-IsServed n idx cgi_fd s h = elim (Option-cases (get_client_by_cgi_fd cgi_fd s)) [
  | inl gone ↦ rw gone (record { served = same-IsServed s refl refl refl h })
  | inr (c, there) ↦
      let i = cgi_client_index n cgi_fd c s h there in
      let l = loop-IsOf c.server_index 0 s.sys.reads c s.poll_fds refl in
      rw there
        (after-IsServed n cgi_fd idx _ _ _ (rw (l.same) i) (same-IsServed s refl refl refl h))
]
