-- ===== src/Server/Read/Ended.antt =====
-- About `handle_client_read` of src/Server.cpp at the end of a client's input.
use web_server.Prelude.{ℕ, ◌≡◌, refl, sym, ap, Bool, false, some, none, List, ◌∷◌}
use mathlib.Core.Path.{subst}
use web_server.StdMap.{lookup-insert_self, int_order}
use web_server.Client.{Client, update_activity}
use web_server.Server.State.{Server, ReadReply, end_of_input, get_client, put_client, erase_at}
use web_server.Server.Remove.{remove_client}
use web_server.Server.Remove.Plain.{remove_client-fds}
use web_server.Server.CgiInput.{with_reads}
use web_server.Server.Read.{handle_client_read, read_of, read_next, client_reply, next_read}

-- A client that holds no pipe and has closed its connection.
pub record IsHangup (fd : ℕ) (c : Client) (reads : List ReadReply) (s : Server) : Type 0 where
  pub there : get_client fd s ≡ some c
  pub own : c.fd ≡ fd
  pub inactive : c.cgi_active ≡ false
  pub no_stdin : c.cgi_stdin_fd ≡ none
  pub no_stdout : c.cgi_stdout_fd ≡ none
  pub ends : s.sys.reads ≡ end_of_input ∷ reads

put_self : (c : Client) (s : Server) → get_client c.fd (put_client c s) ≡ some c
unfolding get_client put_client
put_self c s = lookup-insert_self c.fd c s.clients

removed_fds :
    (idx fd : ℕ) (d : Client) (s : Server)
    → d.fd ≡ fd
    → d.cgi_stdout_fd ≡ none
    → d.cgi_stdin_fd ≡ none
    → (remove_client idx fd (put_client d s)).poll_fds ≡ erase_at idx s.poll_fds
unfolding put_client
removed_fds idx fd d s own out inp =
    remove_client-fds idx fd (put_client d s) d (rw (sym own) (put_self d s)) out inp

removed_next :
    (active : Bool) (next : ReadReply × List ReadReply) (idx : ℕ) (c : Client)
    (reads : List ReadReply) (s : Server)
    → active ≡ false
    → next ≡ (end_of_input, reads)
    → c.cgi_stdout_fd ≡ none
    → c.cgi_stdin_fd ≡ none
    → (read_next active next idx c.fd c s).poll_fds ≡ erase_at idx s.poll_fds
unfolding read_next client_reply update_activity
removed_next active next idx c reads s inactive ends out inp =
    rw (inactive, ends)
      (removed_fds idx c.fd (record c { last_activity = s.sys.now }) (with_reads reads s) refl out
        inp)

-- The entry is removed, and the position stays.
pub hangup_read :
    (idx fd : ℕ) (c : Client) (reads : List ReadReply) (s : Server)
    → IsHangup fd c reads s
    → ((handle_client_read idx fd s).0 ≡ idx)
      × ((handle_client_read idx fd s).1.poll_fds ≡ erase_at idx s.poll_fds)
unfolding handle_client_read read_of next_read
hangup_read idx fd c reads s h = rw h.there (
  refl,
  subst
      (λ k.
        (read_next c.cgi_active (next_read s.sys.reads) idx k c s).poll_fds
        ≡ erase_at idx s.poll_fds)
      h.own
      (removed_next c.cgi_active (next_read s.sys.reads) idx c reads s h.inactive
        (ap next_read h.ends) h.no_stdout h.no_stdin),
)
