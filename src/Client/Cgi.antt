-- ===== src/Client/Cgi.antt =====
-- About `finish_cgi` and `close_cgi_stdin` of src/Client.cpp.
use web_server.Prelude.{◌≡◌, refl, false, none, [], ◌++◌}
use web_server.Client.{Client, close, waitpid_nohang, call_if, close_cgi_stdin, finish_cgi}

-- Behind `finish_cgi` nothing is held.
pub record IsReleased (c : Client) : Type 0 where
  pub pid : c.cgi_pid ≡ none
  pub stdin : c.cgi_stdin_fd ≡ none
  pub stdout : c.cgi_stdout_fd ≡ none
  pub inactive : c.cgi_active ≡ false

-- The calls of `finish_cgi` at a client, of a further `finish_cgi` or `close_cgi_stdin`, and of
-- `close_cgi_stdin` with a `finish_cgi` behind it.
pub record ReleasesOnce (c : Client) : Type 0 where
  pub released : IsReleased (finish_cgi c).1
  pub calls :
      (finish_cgi c).0
      ≡ call_if close c.cgi_stdout_fd
        ++ (call_if close c.cgi_stdin_fd ++ call_if waitpid_nohang c.cgi_pid)
  pub finish_again : (finish_cgi (finish_cgi c).1).0 ≡ []
  pub close_again : (close_cgi_stdin (finish_cgi c).1).0 ≡ []
  pub close_before :
      (close_cgi_stdin c).0 ++ (finish_cgi (close_cgi_stdin c).1).0
      ≡ call_if close c.cgi_stdin_fd
        ++ (call_if close c.cgi_stdout_fd ++ call_if waitpid_nohang c.cgi_pid)

-- `finish_cgi` closes the two pipes that are open and waits for the process that runs, and leaves
-- a client that holds none of them, so a further `finish_cgi` or `close_cgi_stdin` calls nothing.
-- Where `close_cgi_stdin` has closed the pipe to the program before, the two calls together close
-- each open pipe once, too.
pub finish_cgi_once : (c : Client) → ReleasesOnce c
unfolding finish_cgi close_cgi_stdin
finish_cgi_once c = record {
  released = record { pid = refl; stdin = refl; stdout = refl; inactive = refl };
  calls = refl;
  finish_again = refl;
  close_again = refl;
  close_before = refl;
}
