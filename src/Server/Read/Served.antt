-- ===== src/Server/Read/Served.antt =====
-- About the clients in `handle_client_read` of src/Server.cpp.
use web_server.Prelude.{
  ℕ, ◌<◌, refl, Bool, true, false, Option, none, some, inl, inr, List, ◌∷◌, Option-cases, if_both,
}
use web_server.Bytes.{Bytes}
use web_server.Config.{ServerConfig}
use web_server.Client.{
  Client, update_activity, append_to_buffer, has_complete_header, clear_raw_buffer,
  set_request_started, set_response, clear_buffer,
}
use web_server.Server.State.{
  ReadReply, received, end_of_input, read_blocked, read_failed, Server, get_client, config_of,
}
use web_server.Server.Served.{IsServed, put-IsServed, same-IsServed, client-IsClient}
use web_server.Server.Remove.Served.{remove-IsServed}
use web_server.Server.CgiInput.Streamed.{streaming-IsServed}
use web_server.Server.Dispatch.Served.{dispatch-IsServed}
use web_server.Server.Read.{
  admit, respond, respond_error, respond_complete, parsed_request, parse_new, client_reply,
  next_read, read_next, read_of, handle_client_read,
}

record Admits (n : ℕ) (r : Client × Option Bytes) : Type 0 where
  index : r.0.server_index < n

admit-Admits :
    (n : ℕ) (bytes : Bytes) (conf : ServerConfig) (c : Client)
    → c.server_index < n
    → Admits n (admit bytes conf c)
unfolding admit append_to_buffer set_request_started clear_raw_buffer
admit-Admits n bytes conf c i =
    if_both (Admits n) c.request_started (c, some bytes) _ (record { index = i })
      (if_both (Admits n) (has_complete_header (append_to_buffer bytes c)) _ _
        (record { index = i }) (record { index = i }))

respond-IsServed :
    (n idx : ℕ) (response : Bytes) (c : Client) (s : Server)
    → c.server_index < n
    → IsServed n s
    → IsServed n (respond idx response c s)
unfolding respond clear_buffer set_response
respond-IsServed n idx response c s i h = put-IsServed n _ _ i (same-IsServed s refl refl refl h)

error-IsServed :
    (n idx : ℕ) (c : Client) (s : Server)
    → c.server_index < n
    → IsServed n s
    → IsServed n (respond_error idx c s)
unfolding respond_error clear_buffer set_response
error-IsServed n idx c s i h = put-IsServed n _ _ i (same-IsServed s refl refl refl h)

complete-IsServed :
    (n idx : ℕ) (c : Client) (s : Server)
    → c.server_index < n
    → IsServed n s
    → IsServed n (respond_complete idx c s)
unfolding respond_complete
complete-IsServed n idx c s i h =
    if_both (IsServed n) _ _ _ (respond-IsServed n idx _ c s i h)
      (respond-IsServed n idx _ c _ i (same-IsServed s refl refl refl h))

parsed-IsServed :
    (n idx : ℕ) (complete : Bool) (c : Client) (s : Server)
    → c.server_index < n
    → IsServed n s
    → IsServed n (parsed_request idx complete c s)
unfolding parsed_request
parsed-IsServed n idx complete c s i h = if_both (IsServed n) _ _ _ (error-IsServed n idx c s i h) (
    if_both (IsServed n) _ _ _ (dispatch-IsServed n idx c s i h)
      (if_both (IsServed n) _ _ _ (complete-IsServed n idx c s i h) (put-IsServed n c s i h)))

new-IsServed :
    (n idx : ℕ) (r : Client × Option Bytes) (s : Server)
    → Admits n r
    → IsServed n s
    → IsServed n (parse_new idx r s)
unfolding parse_new clear_raw_buffer
new-IsServed n idx (c, none) s i h = put-IsServed n c s i.index h
new-IsServed n idx (c, some fresh) s i h = parsed-IsServed n idx _ _ s i.index h

reply-IsServed :
    (n idx fd : ℕ) (reply : ReadReply) (c : Client) (s : Server)
    → c.server_index < n
    → IsServed n s
    → IsServed n (client_reply reply idx fd c s)
unfolding client_reply
reply-IsServed n idx fd (received b bytes) c s i h =
    new-IsServed n idx _ s (admit-Admits n (b ∷ bytes) (config_of s c) c i) h
reply-IsServed n idx fd read_blocked c s i h = put-IsServed n c s i h
reply-IsServed n idx fd end_of_input c s i h = remove-IsServed n idx fd _ (put-IsServed n c s i h)
reply-IsServed n idx fd read_failed c s i h = remove-IsServed n idx fd _ (put-IsServed n c s i h)

next-IsServed :
    (n idx fd : ℕ) (active : Bool) (next : ReadReply × List ReadReply) (c : Client) (s : Server)
    → c.server_index < n
    → IsServed n s
    → IsServed n (read_next active next idx fd c s)
unfolding read_next update_activity
next-IsServed n idx fd true next c s i h = streaming-IsServed n idx c s i h
next-IsServed n idx fd false next c s i h =
    reply-IsServed n idx fd next.0 _ _ i (same-IsServed s refl refl refl h)

pub read-IsServed :
    (n idx fd : ℕ) (s : Server) → IsServed n s → IsServed n (handle_client_read idx fd s).1
unfolding handle_client_read read_of
read-IsServed n idx fd s h = elim (Option-cases (get_client fd s)) [
  | inl gone ↦ rw gone h
  | inr (c, there) ↦ rw there (
      next-IsServed n idx fd c.cgi_active (next_read s.sys.reads) c s
        (client-IsClient n fd c s h there).index h)
]
