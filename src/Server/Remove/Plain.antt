-- ===== src/Server/Remove/Plain.antt =====
-- About `remove_client` of src/Server.cpp for a client that holds no pipe.
use web_server.Prelude.{ℕ, ◌≡◌, none, some}
use web_server.Client.{Client}
use web_server.Server.State.{Server, erase_at, get_client}
use web_server.Server.Remove.{remove_client, release_cgi, drop_pipe}

pub remove_client-fds :
    (index fd : ℕ) (s : Server) (c : Client)
    → get_client fd s ≡ some c
    → c.cgi_stdout_fd ≡ none
    → c.cgi_stdin_fd ≡ none
    → (remove_client index fd s).poll_fds ≡ erase_at index s.poll_fds
unfolding remove_client release_cgi drop_pipe
remove_client-fds index fd s c there out inp = rw (there, out, inp)
