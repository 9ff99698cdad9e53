-- ===== src/Server/CgiInput/Order.antt =====
-- About `forward`, which writes a new piece of a body to the pipe of a CGI program.
use web_server.Prelude.{
  ℕ, ◌≤◌, ◌≡◌, sym, inl, inr, [], ◌∷◌, ◌++◌, length, take, drop, ltb, Bool-cases, append-nil,
  drop-append_le, ltb→le,
}
use web_server.Bytes.{Bytes, is_some}
use web_server.StdMap.{lookup, int_order}
use web_server.Client.Pending.{drop_short}
use web_server.Client.{Client, get_cgi_stdin_pending_ptr, append_cgi_stdin_pending}
use web_server.Server.State.{Server, write}
use web_server.Server.CgiInput.{forward, next_write, watch_stdin}

-- What the pipe takes of a new piece, and what is pending behind it.
pub record IsForwarded (stdin_fd : ℕ) (fwd : Bytes) (c : Client) (s : Server) : Type 0 where
  pub taken :
      (forward stdin_fd fwd c s).1.sys.calls
      ≡ s.sys.calls ++ write stdin_fd (take (next_write s.sys.writes).0 fwd) ∷ []
  pub pending :
      get_cgi_stdin_pending_ptr (forward stdin_fd fwd c s).0
      ≡ get_cgi_stdin_pending_ptr c ++ drop (next_write s.sys.writes).0 fwd

watch_calls :
    (stdin_fd client_fd : ℕ) (s : Server)
    → (watch_stdin stdin_fd client_fd s).sys.calls ≡ s.sys.calls
unfolding watch_stdin
watch_calls stdin_fd client_fd s =
    elim (Bool-cases (is_some (lookup stdin_fd s.cgi_stdin_fd_to_client_fd))) [
      | inl there ↦ rw there
      | inr gone ↦ rw gone
    ]

-- The pipe takes the first bytes of a new piece at once, also while others are pending, and the
-- rest of the piece is appended to these: bytes that are pending are overtaken by newer ones. The
-- piece is not empty and the offset of the queue is within it.
pub forward_overtakes :
    (stdin_fd b : ℕ) (bytes : Bytes) (c : Client) (s : Server)
    → c.cgi_stdin_pending_offset ≤ length c.cgi_stdin_pending
    → IsForwarded stdin_fd (b ∷ bytes) c s
unfolding forward get_cgi_stdin_pending_ptr append_cgi_stdin_pending
forward_overtakes stdin_fd b bytes c s h =
    elim (Bool-cases (ltb (next_write s.sys.writes).0 (length (b ∷ bytes)))) [
      | inl some_left ↦ record {
        taken = rw (some_left) (watch_calls stdin_fd c.fd _);
        pending = rw (some_left) (drop-append_le _ c.cgi_stdin_pending _ h);
      }
      | inr all ↦ record {
        taken = rw all;
        pending =
            rw (all, drop_short (next_write s.sys.writes).0 (b ∷ bytes) (ltb→le _ _ all))
              (sym (append-nil _));
      }
    ]
