-- ===== src/Server/Poll/Hangup.antt =====
-- About a client that closes its connection, in the event loop of src/Server.cpp.
use web_server.Prelude.{◌≡◌, refl, true, false, none, List, [], ◌∷◌, ◌++◌, length, get_elem?}
use web_server.Client.{Client}
use web_server.Server.State.{
  PollFd, Server, ReadReply, is_listening_socket, is_cgi_fd, is_cgi_stdin_fd, erase_at,
}
use web_server.Server.Read.{handle_client_read}
use web_server.Server.Read.Ended.{IsHangup, hangup_read}
use web_server.Server.Poll.{
  undefined, entry_turn, input_turn, output_turn, handle_poll_errors, handle_poll_input,
}

get_elem?-erase_at :
    (fds : List PollFd) (p : PollFd)
    → get_elem? (erase_at (length fds) (fds ++ p ∷ [])) (length fds) ≡ none
unfolding erase_at
get_elem?-erase_at [] p = refl
get_elem?-erase_at (q ∷ fds) p = get_elem?-erase_at fds p

-- The entry of a connection whose client has closed it: it can be read, without an error.
pub record IsReadable (p : PollFd) (s : Server) : Type 0 where
  pub readable : p.revents.readable ≡ true
  pub not_hung_up : p.revents.hung_up ≡ false
  pub not_failed : p.revents.failed ≡ false
  pub no_socket : is_listening_socket p.fd s.server_fds ≡ false
  pub no_stdin : is_cgi_stdin_fd p.fd s ≡ false
  pub no_stdout : is_cgi_fd p.fd s ≡ false

-- If the last entry of the list is a connection that can be read, without an error, and whose
-- client, which holds no pipe of a program, has closed it, the loop over the entries reads behind
-- the end of the list: `handle_poll_input` reports that the entry, which it has removed, is not
-- finished with.
pub hangup_undefined :
    (fds : List PollFd) (p : PollFd) (c : Client) (reads : List ReadReply) (s : Server)
    → s.poll_fds ≡ fds ++ p ∷ []
    → IsReadable p s
    → IsHangup p.fd c reads s
    → entry_turn p (length fds, s) ≡ undefined
unfolding entry_turn input_turn output_turn handle_poll_errors handle_poll_input
hangup_undefined fds p c reads s last h k =
    let (at, left) = hangup_read (length fds) p.fd c reads s k in
    let end : get_elem? (handle_client_read (length fds) p.fd s).1.poll_fds
          (handle_client_read (length fds) p.fd s).0
        ≡ none =
      rw (at, left, last) (get_elem?-erase_at fds p) in
    rw (h.readable, h.not_hung_up, h.not_failed, h.no_socket, h.no_stdin, h.no_stdout, end)
