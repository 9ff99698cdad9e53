-- ===== src/Server/CgiInput.antt =====
-- src/Server.cpp: `handle_cgi_stdin_writable`, and the part of `handle_client_read` for a client
-- whose CGI program runs: the body on its way to the program.
pub mod Served
pub mod Streamed
pub mod Order
use web_server.Prelude.{
  ℕ, zero, suc, ◌+◌, Bool, true, false, not, ◌&&◌, Option, none, some, List, [], ◌∷◌, ◌++◌,
  if◌then◌else◌, length, take, drop, ltb, leb, ◌==◌,
}
use web_server.Bytes.{Bytes, empty, is_some}
use web_server.StdMap.{lookup, insert, erase, int_order}
use web_server.Client.{
  Client, SysCall, close, update_activity, is_cgi_stdin_pending_empty, get_cgi_stdin_pending_ptr,
  get_cgi_stdin_pending_size, consume_cgi_stdin_pending, append_cgi_stdin_pending,
  set_cgi_stdin_eof, close_cgi_stdin, add_cgi_body_bytes_forwarded,
}
use web_server.Client.Decoder.{Decoded, decoder_of, decode_chunked_for_cgi}
use web_server.Server.State.{
  PollFd, ReadReply, received, end_of_input, read_blocked, read_failed, Server, System, Call, write,
  system, Handled, logged, system_calls, get_client, put_client, set_pollin, set_pollout, change_at,
  erase_at, change_fd, poll_entry, with_fds,
}
use web_server.Server.CgiOutput.{fair_io_limit, cgi_backpressure_limit}

-- close_cgi_stdin with its call.
abbrev pub close_stdin : Client → Server → Client × Server
close_stdin c s = ((close_cgi_stdin c).1, logged (system_calls (close_cgi_stdin c).0) s)

pub record Flush : Type 0 where
  pub client : Client
  pub writes : List ℕ
  pub calls : List Call

-- The loop that writes what is pending, over the answers of `write`.
unfoldable pub flush_stdin : ℕ → ℕ → List ℕ → Client → Flush
unfolding is_cgi_stdin_pending_empty get_cgi_stdin_pending_ptr consume_cgi_stdin_pending
flush_stdin stdin_fd total_written [] c = record { client = c; writes = []; calls = [] }
flush_stdin stdin_fd total_written (written ∷ writes) c =
    let rest =
      flush_stdin stdin_fd (total_written + written) writes (consume_cgi_stdin_pending written c) in
    if not (is_cgi_stdin_pending_empty c) && ltb total_written fair_io_limit
    then (if ltb 0 written
        then record {
          client = rest.client;
          writes = rest.writes;
          calls = write stdin_fd (take written (get_cgi_stdin_pending_ptr c)) ∷ rest.calls;
        }
        else record { client = c; writes = writes; calls = [] })
    else record { client = c; writes = written ∷ writes; calls = [] }

-- Behind the flush, where the pipe stays open.
stdin_stays : ℕ → Client → Server → Server
stdin_stays idx c s =
    let drained =
      if ltb (get_cgi_stdin_pending_size c) cgi_backpressure_limit
      then change_fd c.fd (set_pollin true) s.poll_fds
      else s.poll_fds in
    put_client c (record s {
      poll_fds =
          if is_cgi_stdin_pending_empty c
          then change_at idx (set_pollout false) drained
          else drained;
    })

unfoldable pub stdin_flushed : ℕ → ℕ → Client → Server → Handled
unfolding stdin_stays
stdin_flushed idx stdin_fd c s =
    if is_cgi_stdin_pending_empty c && c.cgi_stdin_eof
    then (let closed =
          close_stdin c
            (record s { cgi_stdin_fd_to_client_fd = erase stdin_fd s.cgi_stdin_fd_to_client_fd }) in
        record {
          handled = true;
          idx = idx;
          server = with_fds (erase_at idx) (put_client closed.0 closed.1);
        })
    else record { handled = true; idx = suc idx; server = stdin_stays idx c s }

-- An entry whose client is gone; a key that is not there is erased with no effect.
unfoldable pub orphan_stdin : ℕ → ℕ → Server → Server
orphan_stdin idx stdin_fd s =
    let t = logged (system (close stdin_fd) ∷ []) s in
    record t {
      cgi_stdin_fd_to_client_fd = erase stdin_fd s.cgi_stdin_fd_to_client_fd;
      poll_fds = erase_at idx s.poll_fds;
    }

stdin_client : Option Client → ℕ → ℕ → Server → Handled
stdin_client none idx stdin_fd s = record {
  handled = true;
  idx = idx;
  server = orphan_stdin idx stdin_fd s;
}
stdin_client (some c) idx stdin_fd s =
    let flushed = flush_stdin stdin_fd 0 s.sys.writes c in
    stdin_flushed idx stdin_fd flushed.client
      (logged flushed.calls (record s { sys = record s.sys { writes = flushed.writes } }))

stdin_key : Option ℕ → ℕ → ℕ → Server → Handled
unfolding stdin_client
stdin_key none idx stdin_fd s = record {
  handled = true;
  idx = idx;
  server = orphan_stdin idx stdin_fd s;
}
stdin_key (some client_fd) idx stdin_fd s = stdin_client (get_client client_fd s) idx stdin_fd s

-- `stdin_fd` is poll_fds_[idx].fd.
unfoldable pub handle_cgi_stdin_writable : ℕ → ℕ → Server → Handled
unfolding stdin_key
handle_cgi_stdin_writable idx stdin_fd s =
    stdin_key (lookup stdin_fd s.cgi_stdin_fd_to_client_fd) idx stdin_fd s

-- A client that sends no more: the end is marked, and the pipe closed if nothing is pending.
unfoldable pub client_ended : Client → Server → Client × Server
client_ended c s =
    let d = set_cgi_stdin_eof true c in
    if is_cgi_stdin_pending_empty d then close_stdin d s else (d, s)

-- The list watches the pipe for POLLOUT.
watch_stdin : ℕ → ℕ → Server → Server
watch_stdin stdin_fd client_fd s =
    if is_some (lookup stdin_fd s.cgi_stdin_fd_to_client_fd)
    then with_fds (change_fd stdin_fd (set_pollout true)) s
    else record s {
      cgi_stdin_fd_to_client_fd = insert stdin_fd client_fd s.cgi_stdin_fd_to_client_fd;
      poll_fds = s.poll_fds ++ poll_entry stdin_fd false true ∷ [];
    }

-- The answer of one `write`.
unfoldable pub next_write : List ℕ → ℕ × List ℕ
next_write [] = (0, [])
next_write (n ∷ writes) = (n, writes)

-- The bytes that go to the pipe, and those that stay pending.
unfoldable pub forward : ℕ → Bytes → Client → Server → Client × Server
unfolding watch_stdin append_cgi_stdin_pending next_write
forward stdin_fd fwd c s =
    let taken = next_write s.sys.writes in
    let t =
      logged (write stdin_fd (take taken.0 fwd) ∷ [])
        (record s { sys = record s.sys { writes = taken.1 } }) in
    if empty fwd
    then (c, s)
    else if ltb taken.0 (length fwd)
    then (append_cgi_stdin_pending (drop taken.0 fwd) c, watch_stdin stdin_fd c.fd t)
    else (c, t)

erase_entry : ℕ → List PollFd → List PollFd
erase_entry fd [] = []
erase_entry fd (p ∷ fds) = if p.fd == fd then fds else p ∷ erase_entry fd fds

-- The end of the body.
unfoldable pub body_ended : ℕ → Client → Server → Client × Server
unfolding erase_entry
body_ended stdin_fd c s =
    if is_cgi_stdin_pending_empty c
    then (let closed = close_stdin c s in
        (
          closed.0,
          record closed.1 {
            cgi_stdin_fd_to_client_fd = erase stdin_fd closed.1.cgi_stdin_fd_to_client_fd;
            poll_fds = erase_entry stdin_fd closed.1.poll_fds;
          },
        ))
    else (set_cgi_stdin_eof true c, s)

-- Whether the loop goes on, the client and the state.
abbrev pub Streamed : Type 0
Streamed = Bool × (Client × Server)

-- A piece of a body by length.
stream_plain : ℕ → Bytes → Client → Server → Streamed
stream_plain stdin_fd bytes c s =
    let sent = forward stdin_fd bytes (add_cgi_body_bytes_forwarded (length bytes) c) s in
    if ltb 0 sent.0.cgi_body_content_length
      && leb sent.0.cgi_body_content_length sent.0.cgi_body_bytes_forwarded
    then (false, body_ended stdin_fd sent.0 sent.1)
    else (true, sent)

-- A piece of a body by chunks.
stream_decoded : ℕ → Decoded → Client → Server → Streamed
stream_decoded stdin_fd d c s =
    let after = record c { cgi_chunk = decoder_of d.left } in
    let sent = forward stdin_fd d.left.decoded after s in
    if not d.ok
    then (false, client_ended after s)
    else if d.eof
    then (false, body_ended stdin_fd sent.0 sent.1)
    else (true, sent)

stream_to : Option ℕ → Bytes → Client → Server → Streamed
unfolding stream_plain stream_decoded
stream_to none bytes c s = (false, (c, s))
stream_to (some stdin_fd) bytes c s =
    if c.cgi_chunked
    then stream_decoded stdin_fd (decode_chunked_for_cgi c.cgi_chunk bytes []) c s
    else stream_plain stdin_fd bytes c s

-- What is done with the bytes of one `read`.
unfoldable pub stream_bytes : Bytes → Client → Server → Streamed
unfolding stream_to update_activity
stream_bytes bytes c s = let d = update_activity s.sys.now c in stream_to d.cgi_stdin_fd bytes d s

abbrev pub with_reads : List ReadReply → Server → Server
with_reads reads s = record s { sys = record s.sys { reads = reads } }

-- An answer of `read` that is not bytes.
stream_reply : ReadReply → Client → Server → Client × Server
stream_reply end_of_input c s = client_ended c s
stream_reply read_failed c s = client_ended c s
stream_reply _ c s = (c, s)

is_pressed : Client → Bool
is_pressed c = ltb cgi_backpressure_limit (get_cgi_stdin_pending_size c)

-- while (total_read < FAIR_IO_LIMIT), over the answers of `read`.
unfoldable pub stream_loop : ℕ → ℕ → List ReadReply → Client → Server → Client × Server
unfolding stream_reply is_pressed stream_bytes
stream_loop idx total_read [] c s =
    if ltb total_read fair_io_limit && is_pressed c
    then (c, with_reads [] (with_fds (change_at idx (set_pollin false)) s))
    else (c, with_reads [] s)
stream_loop idx total_read (received b bytes ∷ reads) c s =
    let streamed = stream_bytes (b ∷ bytes) c s in
    let rest = stream_loop idx (total_read + suc (length bytes)) reads streamed.1.0 streamed.1.1 in
    if not (ltb total_read fair_io_limit)
    then (c, with_reads (received b bytes ∷ reads) s)
    else if is_pressed c
    then (c, with_reads (received b bytes ∷ reads) (with_fds (change_at idx (set_pollin false)) s))
    else if streamed.0
    then rest
    else (streamed.1.0, with_reads reads streamed.1.1)
stream_loop idx total_read (reply ∷ reads) c s =
    if not (ltb total_read fair_io_limit)
    then (c, with_reads (reply ∷ reads) s)
    else if is_pressed c
    then (c, with_reads (reply ∷ reads) (with_fds (change_at idx (set_pollin false)) s))
    else ((stream_reply reply c s).0, with_reads reads (stream_reply reply c s).1)

-- The part of `handle_client_read` for a client whose program runs.
unfoldable pub handle_streaming_read : ℕ → Client → Server → Server
handle_streaming_read idx c s =
    let streamed = stream_loop idx 0 s.sys.reads c s in put_client streamed.0 streamed.1
