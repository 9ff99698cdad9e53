-- ===== src/Server/Poll/Twice.antt =====
-- About `handle_poll_errors` of src/Server.cpp for the pipe to a program that has gone.
use web_server.Prelude.{ℕ, ◌≡◌, ap, ◌∙◌, true, false, ◌||◌, some, [], ◌∷◌, ◌++◌, append_assoc}
use web_server.StdMap.{lookup, int_order}
use web_server.Client.{Client, close, call_if, close_cgi_stdin}
use web_server.Server.State.{
  PollFd, Server, system, system_calls, get_client, put_client, is_listening_socket, is_cgi_fd,
  is_cgi_stdin_fd,
}
use web_server.Server.Poll.{close_of, stdin_broke, handle_poll_errors}

-- The entry of a pipe to a program that reports an error, and the client that writes to it.
pub record IsBroken (p : PollFd) (client_fd : ℕ) (c : Client) (s : Server) : Type 0 where
  pub reported : (p.revents.hung_up || p.revents.failed) ≡ true
  pub no_other : (is_listening_socket p.fd s.server_fds || is_cgi_fd p.fd s) ≡ false
  pub key : lookup p.fd s.cgi_stdin_fd_to_client_fd ≡ some client_fd
  pub there : get_client client_fd s ≡ some c
  pub writes : c.cgi_stdin_fd ≡ some p.fd

broke_calls :
    (idx fd client_fd : ℕ) (c : Client) (s : Server)
    → lookup fd s.cgi_stdin_fd_to_client_fd ≡ some client_fd
    → get_client client_fd s ≡ some c
    → c.cgi_stdin_fd ≡ some fd
    → (stdin_broke idx fd s).sys.calls ≡ s.sys.calls ++ system (close fd) ∷ system (close fd) ∷ []
unfolding stdin_broke close_of close_cgi_stdin put_client
broke_calls idx fd client_fd c s key there writes =
    rw (key, there)
      (ap (λ o. (s.sys.calls ++ system (close fd) ∷ []) ++ system_calls (call_if close o)) writes
        ∙ append_assoc s.sys.calls (system (close fd) ∷ []) (system (close fd) ∷ []))

-- When the pipe to a program reports an error, `handle_poll_errors` closes its descriptor twice: it
-- closes the entry's descriptor itself, and `close_cgi_stdin` of the client that still holds it
-- closes the same number again.
pub broken_pipe_twice :
    (idx client_fd : ℕ) (p : PollFd) (c : Client) (s : Server)
    → IsBroken p client_fd c s
    → (handle_poll_errors idx p s).server.sys.calls
      ≡ s.sys.calls ++ system (close p.fd) ∷ system (close p.fd) ∷ []
unfolding handle_poll_errors is_cgi_stdin_fd
broken_pipe_twice idx client_fd p c s h =
    rw (h.reported, h.no_other, h.key) (broke_calls idx p.fd client_fd c s h.key h.there h.writes)
