-- ===== src/Server/Dispatch/Served.antt =====
-- About the clients in `dispatch_cgi` of src/Server.cpp.
use web_server.Prelude.{
  ℕ, ◌<◌, refl, Bool, true, false, not, ◌||◌, Option, none, some, inl, inr, Bool-cases, length, ltb,
}
use web_server.Bytes.{empty}
use web_server.Config.{RouteConfig}
use web_server.HttpRequest.{HttpRequest}
use web_server.Client.{
  Client, set_response, clear_buffer, start_cgi, set_cgi_body_content_length, set_cgi_chunked,
  init_cgi_chunk_decoder, add_cgi_body_bytes_forwarded, append_cgi_stdin_pending,
  is_cgi_stdin_pending_empty, set_cgi_stdin_eof, close_cgi_stdin,
}
use web_server.Server.State.{Server}
use web_server.Server.Served.{IsServed, IsServedPair, put-IsServed, same-IsServed}
use web_server.Server.CgiInput.{next_write}
use web_server.Server.Dispatch.{
  dispatch_failed, next_reply, Handover, leftover_decoded, seed_decoder, hand_over, is_te_chunked,
  expected_length, first_write, end_complete, register_stdin, register_pipes, program_started, Pipe,
  forked, second_pipe, first_pipe, dispatch_to, dispatch_cgi,
}

failed-IsServed :
    (n idx : ℕ) (c : Client) (s : Server)
    → c.server_index < n
    → IsServed n s
    → IsServed n (dispatch_failed idx c s)
unfolding dispatch_failed clear_buffer set_response
failed-IsServed n idx c s i h = put-IsServed n _ _ i (same-IsServed s refl refl refl h)

record IsOf (n : ℕ) (h : Handover) : Type 0 where
  index : h.client.server_index < n

seed-IsOf :
    (n : ℕ) (req : HttpRequest) (c : Client) → c.server_index < n → IsOf n (seed_decoder req c)
unfolding seed_decoder leftover_decoded init_cgi_chunk_decoder set_cgi_chunked
seed-IsOf n req c i = elim (Bool-cases (empty req.buffer)) [
  | inl none_left ↦ rw none_left (record { index = i })
  | inr some_left ↦ rw some_left (record { index = i })
]

hand_over-IsOf :
    (n : ℕ) (req : HttpRequest) (c : Client) → c.server_index < n → IsOf n (hand_over req c)
unfolding hand_over set_cgi_body_content_length
hand_over-IsOf n req c i = elim (Bool-cases (is_te_chunked req)) [
  | inl te ↦ rw te (seed-IsOf n req (set_cgi_body_content_length (expected_length req) c) i)
  | inr plain ↦ rw plain (record { index = i })
]

first_write-IsServed :
    (n stdin_fd : ℕ) (h : Handover) (s : Server)
    → IsOf n h
    → IsServed n s
    → IsServedPair n (first_write stdin_fd h s)
unfolding first_write add_cgi_body_bytes_forwarded append_cgi_stdin_pending
first_write-IsServed n stdin_fd h s i k = elim (Bool-cases (empty h.body_to_write)) [
  | inl none_left ↦ rw none_left (record { index = i.index; served = k })
  | inr some_left ↦ elim (Bool-cases (ltb (next_write s.sys.writes).0 (length h.body_to_write))) [
    | inl part ↦
        rw (some_left, part) (record { index = i.index; served = same-IsServed s refl refl refl k })
    | inr all ↦
        rw (some_left, all) (record { index = i.index; served = same-IsServed s refl refl refl k })
  ]
]

end-IsServed :
    (n : ℕ) (b : Bool) (c : Client) (s : Server)
    → c.server_index < n
    → IsServed n s
    → IsServedPair n (end_complete b c s)
unfolding end_complete close_cgi_stdin set_cgi_stdin_eof
end-IsServed n false c s i h = record { index = i; served = h }
end-IsServed n true c s i h = elim (Bool-cases (is_cgi_stdin_pending_empty c)) [
  | inl none_left ↦ rw none_left (record { index = i; served = same-IsServed s refl refl refl h })
  | inr some_left ↦ rw some_left (record { index = i; served = h })
]

stdin-IsServed :
    (n : ℕ) (fd : Option ℕ) (b : Bool) (c : Client) (s : Server)
    → IsServed n s
    → IsServed n (register_stdin fd b c s)
unfolding register_stdin
stdin-IsServed n none b c s h = h
stdin-IsServed n (some fd) b c s h =
    elim (Bool-cases (not b || not (is_cgi_stdin_pending_empty c))) [
      | inl some_left ↦ rw some_left (same-IsServed s refl refl refl h)
      | inr all ↦ rw all h
    ]

started-IsServed :
    (n pid stdin_fd stdout_fd : ℕ) (req : HttpRequest) (c : Client) (s : Server)
    → c.server_index < n
    → IsServed n s
    → IsServed n (program_started pid stdin_fd stdout_fd req c s)
unfolding program_started register_pipes start_cgi
started-IsServed n pid stdin_fd stdout_fd req c s i h =
    let over = hand_over-IsOf n req (start_cgi pid stdin_fd stdout_fd c) i in
    let w = first_write-IsServed n stdin_fd _ s over h in
    let e =
      end-IsServed n (hand_over req (start_cgi pid stdin_fd stdout_fd c)).body_complete _ _ w.index
        w.served in
    put-IsServed n _ _ e.index (stdin-IsServed n _ _ _ _ (same-IsServed _ refl refl refl e.served))

forked-IsServed :
    (n : ℕ) (pid : Option ℕ) (inp out : Pipe) (idx : ℕ) (route : RouteConfig) (c : Client)
    (s : Server)
    → c.server_index < n
    → IsServed n s
    → IsServed n (forked pid inp out idx route c s)
unfolding forked
forked-IsServed n none inp out idx route c s i h =
    failed-IsServed n idx c _ i (same-IsServed s refl refl refl h)
forked-IsServed n (some pid) inp out idx route c s i h =
    started-IsServed n pid inp.1 out.0 c.request c _ i (same-IsServed s refl refl refl h)

second-IsServed :
    (n : ℕ) (out : Option Pipe) (inp : Pipe) (idx : ℕ) (route : RouteConfig) (c : Client)
    (s : Server)
    → c.server_index < n
    → IsServed n s
    → IsServed n (second_pipe out inp idx route c s)
unfolding second_pipe
second-IsServed n none inp idx route c s i h = failed-IsServed n idx c s i h
second-IsServed n (some out) inp idx route c s i h =
    forked-IsServed n (next_reply s.sys.forks) inp out idx route c _ i
      (same-IsServed s refl refl refl h)

first-IsServed :
    (n : ℕ) (inp : Option Pipe) (idx : ℕ) (route : RouteConfig) (c : Client) (s : Server)
    → c.server_index < n
    → IsServed n s
    → IsServed n (first_pipe inp idx route c s)
unfolding first_pipe
first-IsServed n none idx route c s i h = failed-IsServed n idx c s i h
first-IsServed n (some inp) idx route c s i h =
    second-IsServed n (next_reply s.sys.pipes) inp idx route c _ i
      (same-IsServed s refl refl refl h)

to-IsServed :
    (n : ℕ) (route : Option RouteConfig) (idx : ℕ) (c : Client) (s : Server)
    → c.server_index < n
    → IsServed n s
    → IsServed n (dispatch_to route idx c s)
unfolding dispatch_to
to-IsServed n none idx c s i h = put-IsServed n c s i h
to-IsServed n (some route) idx c s i h =
    first-IsServed n (next_reply s.sys.pipes) idx route c _ i (same-IsServed s refl refl refl h)

pub dispatch-IsServed :
    (n idx : ℕ) (c : Client) (s : Server)
    → c.server_index < n
    → IsServed n s
    → IsServed n (dispatch_cgi idx c s)
unfolding dispatch_cgi
dispatch-IsServed n idx c s i h = to-IsServed n _ idx c s i h
