-- ===== src/Server/CgiInput/Streamed.antt =====
-- About the clients in the streaming part of `handle_client_read` of src/Server.cpp.
use web_server.Prelude.{
  ℕ, suc, ◌+◌, ◌<◌, refl, false, not, ◌&&◌, Option, none, some, inl, inr, List, [], ◌∷◌, Bool-cases,
  length, ltb, leb, if_both, if◌then◌else◌,
}
use web_server.Bytes.{Bytes}
use web_server.StdMap.{int_order}
use web_server.Client.{Client, update_activity, add_cgi_body_bytes_forwarded}
use web_server.Client.Decoder.{Decoded, decoder_of, decode_chunked_for_cgi}
use web_server.Server.State.{
  ReadReply, received, end_of_input, read_blocked, read_failed, Server, set_pollin, change_at,
  with_fds,
}
use web_server.Server.Served.{IsServed, IsServedPair, put-IsServed, same-IsServed}
use web_server.Server.CgiOutput.{fair_io_limit}
use web_server.Server.CgiInput.{
  forward, Streamed, stream_plain, stream_decoded, stream_to, stream_bytes, with_reads,
  stream_reply, is_pressed, stream_loop, handle_streaming_read,
}
use web_server.Server.CgiInput.Served.{forward-IsServed, body_ended-IsServed, client_ended-IsServed}

record IsStreamed (n : ℕ) (r : Streamed) : Type 0 where
  pair : IsServedPair n r.1

plain-IsStreamed :
    (n stdin_fd : ℕ) (bytes : Bytes) (c : Client) (s : Server)
    → c.server_index < n
    → IsServed n s
    → IsStreamed n (stream_plain stdin_fd bytes c s)
unfolding stream_plain add_cgi_body_bytes_forwarded
plain-IsStreamed n stdin_fd bytes c s i h =
    let d = add_cgi_body_bytes_forwarded (length bytes) c in
    let sent = forward stdin_fd bytes d s in
    let p = forward-IsServed n stdin_fd bytes d s i h in
    elim (Bool-cases (
      ltb 0 sent.0.cgi_body_content_length
      && leb sent.0.cgi_body_content_length sent.0.cgi_body_bytes_forwarded)) [
        | inl end ↦
            rw end (record { pair = body_ended-IsServed n stdin_fd sent.0 sent.1 p.index p.served })
        | inr more ↦ rw more (record { pair = p })
      ]

decoded-IsStreamed :
    (n stdin_fd : ℕ) (d : Decoded) (c : Client) (s : Server)
    → c.server_index < n
    → IsServed n s
    → IsStreamed n (stream_decoded stdin_fd d c s)
unfolding stream_decoded
decoded-IsStreamed n stdin_fd d c s i h =
    let after = record c { cgi_chunk = decoder_of d.left } in
    let p = forward-IsServed n stdin_fd d.left.decoded after s i h in
    elim (Bool-cases d.ok) [
      | inr bad ↦ rw bad (record { pair = client_ended-IsServed n after s i h })
      | inl good ↦ elim (Bool-cases d.eof) [
        | inl end ↦
            rw (good, end) (record { pair = body_ended-IsServed n stdin_fd _ _ p.index p.served })
        | inr more ↦ rw (good, more) (record { pair = p })
      ]
    ]

to-IsStreamed :
    (n : ℕ) (stdin_fd : Option ℕ) (bytes : Bytes) (c : Client) (s : Server)
    → c.server_index < n
    → IsServed n s
    → IsStreamed n (stream_to stdin_fd bytes c s)
unfolding stream_to
to-IsStreamed n none bytes c s i h = record { pair = record { index = i; served = h } }
to-IsStreamed n (some fd) bytes c s i h =
    if_both (IsStreamed n) c.cgi_chunked
      (stream_decoded fd (decode_chunked_for_cgi c.cgi_chunk bytes []) c s)
      (stream_plain fd bytes c s)
      (decoded-IsStreamed n fd (decode_chunked_for_cgi c.cgi_chunk bytes []) c s i h)
      (plain-IsStreamed n fd bytes c s i h)

bytes-IsStreamed :
    (n : ℕ) (bytes : Bytes) (c : Client) (s : Server)
    → c.server_index < n
    → IsServed n s
    → IsStreamed n (stream_bytes bytes c s)
unfolding stream_bytes update_activity
bytes-IsStreamed n bytes c s i h = to-IsStreamed n _ bytes _ s i h

reply-IsServed :
    (n : ℕ) (reply : ReadReply) (c : Client) (s : Server)
    → c.server_index < n
    → IsServed n s
    → IsServedPair n (stream_reply reply c s)
unfolding stream_reply
reply-IsServed n end_of_input c s i h = client_ended-IsServed n c s i h
reply-IsServed n read_failed c s i h = client_ended-IsServed n c s i h
reply-IsServed n read_blocked c s i h = record { index = i; served = h }
reply-IsServed n (received b bytes) c s i h = record { index = i; served = h }

-- The loop stops without a call, or goes on with `next`.
idle-IsServed :
    (n idx total : ℕ) (reads : List ReadReply) (c : Client) (s : Server) (next : Client × Server)
    → c.server_index < n
    → IsServed n s
    → IsServedPair n next
    → IsServedPair n (
        if not (ltb total fair_io_limit)
        then (c, with_reads reads s)
        else if is_pressed c
        then (c, with_reads reads (with_fds (change_at idx (set_pollin false)) s))
        else next)
idle-IsServed n idx total reads c s next i h p =
    if_both (IsServedPair n) (not (ltb total fair_io_limit)) (c, with_reads reads s) _
      (record { index = i; served = same-IsServed s refl refl refl h })
      (if_both (IsServedPair n) (is_pressed c)
        (c, with_reads reads (with_fds (change_at idx (set_pollin false)) s)) next
        (record { index = i; served = same-IsServed s refl refl refl h }) p)

reads-IsServed :
    (n : ℕ) (reads : List ReadReply) (r : Client × Server)
    → IsServedPair n r
    → IsServedPair n (r.0, with_reads reads r.1)
reads-IsServed n reads r p = record {
  index = p.index;
  served = same-IsServed r.1 refl refl refl p.served;
}

loop-IsServed :
    (n idx total : ℕ) (reads : List ReadReply) (c : Client) (s : Server)
    → c.server_index < n
    → IsServed n s
    → IsServedPair n (stream_loop idx total reads c s)
unfolding stream_loop
loop-IsServed n idx total [] c s i h =
    if_both (IsServedPair n) (ltb total fair_io_limit && is_pressed c)
      (c, with_reads [] (with_fds (change_at idx (set_pollin false)) s)) (c, with_reads [] s)
      (record { index = i; served = same-IsServed s refl refl refl h })
      (record { index = i; served = same-IsServed s refl refl refl h })
loop-IsServed n idx total (received b bytes ∷ reads) c s i h =
    let streamed = stream_bytes (b ∷ bytes) c s in
    let p = (bytes-IsStreamed n (b ∷ bytes) c s i h).pair in
    let rest = stream_loop idx (total + suc (length bytes)) reads streamed.1.0 streamed.1.1 in
    let r =
      loop-IsServed n idx (total + suc (length bytes)) reads streamed.1.0 streamed.1.1 p.index
        p.served in
    idle-IsServed n idx total (received b bytes ∷ reads) c s _ i h (
      if_both (IsServedPair n) streamed.0 rest (streamed.1.0, with_reads reads streamed.1.1) r
        (reads-IsServed n reads streamed.1 p))
loop-IsServed n idx total (end_of_input ∷ reads) c s i h =
    idle-IsServed n idx total (end_of_input ∷ reads) c s _ i h (
      reads-IsServed n reads (stream_reply end_of_input c s)
        (reply-IsServed n end_of_input c s i h))
loop-IsServed n idx total (read_blocked ∷ reads) c s i h =
    idle-IsServed n idx total (read_blocked ∷ reads) c s _ i h (
      reads-IsServed n reads (stream_reply read_blocked c s)
        (reply-IsServed n read_blocked c s i h))
loop-IsServed n idx total (read_failed ∷ reads) c s i h =
    idle-IsServed n idx total (read_failed ∷ reads) c s _ i h
      (reads-IsServed n reads (stream_reply read_failed c s) (reply-IsServed n read_failed c s i h))

pub streaming-IsServed :
    (n idx : ℕ) (c : Client) (s : Server)
    → c.server_index < n
    → IsServed n s
    → IsServed n (handle_streaming_read idx c s)
unfolding handle_streaming_read
streaming-IsServed n idx c s i h =
    let p = loop-IsServed n idx 0 s.sys.reads c s i h in put-IsServed n _ _ p.index p.served
