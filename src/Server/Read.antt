-- ===== src/Server/Read.antt =====
-- src/Server.cpp: `handle_client_read`, from the bytes of a client to its response.
pub mod Served
pub mod Ended
use web_server.Prelude.{
  ℕ, zero, suc, ◌+◌, ◌-◌, Bool, true, false, not, ◌&&◌, ◌||◌, Option, none, some, List, [], ◌∷◌,
  ◌++◌, if◌then◌else◌, length, take, drop, ltb, leb, ◌==◌,
}
use web_server.Bytes.{Bytes, codes, empty, same, find_char, find_char_from, substr}
use web_server.Config.{RouteConfig, ServerConfig}
use web_server.HttpRequest.{HttpRequest, set_max_body_size, is_error, is_headers_done}
use web_server.HttpRequest.Parse.{parse}
use web_server.HttpResponse.{HttpResponse, error_400, error_413, redirect_301}
use web_server.HttpHandler.Files.{FileCall, get_error_page}
use web_server.HttpHandler.Path.{strip_query_string}
use web_server.HttpHandler.Request.{any_same, no_methods, max_body, is_cgi_target, handle_request}
use web_server.StdMap.{int_order}
use web_server.Client.{
  Client, update_activity, append_to_buffer, has_complete_header, clear_raw_buffer,
  set_request_started, set_response, clear_buffer,
}
use web_server.Server.{match_route}
use web_server.Server.State.{
  PollFd, ReadReply, received, end_of_input, read_blocked, read_failed, Server, Call, file, Handled,
  logged, get_client, put_client, config_of, set_pollin, set_pollout, change_at, with_fds,
}
use web_server.Server.Remove.{remove_client}
use web_server.Server.CgiInput.{handle_streaming_read, with_reads}
use web_server.Server.Dispatch.{closing, dispatch_cgi}

-- The limit on the body for the route of a target.
limit_of : Option RouteConfig → ServerConfig → ℕ
limit_of none conf = conf.client_max_body_size
limit_of (some route) conf = max_body route conf

peek_to : Option ℕ → Bytes → ℕ → ServerConfig → ℕ
unfolding limit_of
peek_to none buf sp1 conf = conf.client_max_body_size
peek_to (some sp2) buf sp1 conf =
    limit_of (match_route (strip_query_string (substr buf (sp1 + 1) (sp2 - sp1 - 1))) conf.routes)
      conf

peek_from : Option ℕ → Bytes → ServerConfig → ℕ
unfolding peek_to
peek_from none buf conf = conf.client_max_body_size
peek_from (some sp1) buf conf = peek_to (find_char_from b' ' buf (sp1 + 1)) buf sp1 conf

-- The limit that the route of the buffered request line sets.
unfoldable pub effective_max_body : Bytes → ServerConfig → ℕ
unfolding peek_from
effective_max_body buf conf = peek_from (find_char b' ' buf) buf conf

-- Until the headers are complete the bytes are only kept. With them the limit is set, and all that
-- is kept goes to the parser: `none` where more is awaited.
unfoldable pub admit : Bytes → ServerConfig → Client → Client × Option Bytes
unfolding append_to_buffer has_complete_header effective_max_body set_request_started
    clear_raw_buffer
admit bytes conf c =
    let d = append_to_buffer bytes c in
    let limited = record d {
      request = set_max_body_size (effective_max_body d.buffer conf) d.request;
    } in
    if c.request_started
    then (c, some bytes)
    else if has_complete_header d
    then (clear_raw_buffer (set_request_started true limited), some d.buffer)
    else (d, none)

abbrev pub answered : Bytes → Client → Client
answered response c = clear_buffer (set_response response c)

-- The response is set, and entry `idx` waits for output, too.
unfoldable pub respond : ℕ → Bytes → Client → Server → Server
respond idx response c s =
    put_client (answered response c) (with_fds (change_at idx (set_pollout true)) s)

-- The response to a request that the parser refuses: no more is read.
abbrev only_pollout : PollFd → PollFd
only_pollout p = record p { pollin = false; pollout = true }

unfoldable pub error_response : Server → Client → HttpResponse
error_response s c =
    if c.request.body_too_large
    then error_413 s.sys.files.read_file (get_error_page 413 (config_of s c))
    else error_400 s.sys.files.read_file (get_error_page 400 (config_of s c))

unfoldable pub respond_error : ℕ → Client → Server → Server
respond_error idx c s =
    put_client (answered (closing (error_response s c)) c) (with_fds (change_at idx only_pollout) s)

-- Whether the route sends the request to a program.
unfoldable pub is_cgi_route : HttpRequest → Option RouteConfig → Bool
is_cgi_route req none = false
is_cgi_route req (some route) =
    is_cgi_target req route
    && (no_methods route.allowed_methods || any_same req.method route.allowed_methods)

path_length : Option RouteConfig → ℕ
path_length none = 0
path_length (some route) = length route.path

-- slash_route != NULL && (route == NULL || slash_route->path.size() > route->path.size())
is_longer : Option RouteConfig → Option RouteConfig → Bool
is_longer none route = false
is_longer (some slash_route) none = true
is_longer (some slash_route) (some route) = ltb (length route.path) (length slash_route.path)

last_is_slash : Bytes → Bool
last_is_slash [] = false
last_is_slash (c ∷ []) = c == b'/'
last_is_slash (c ∷ d ∷ s) = last_is_slash (d ∷ s)

-- The redirection of a directory without its slash.
unfoldable pub is_slash_missing : Bytes → List RouteConfig → Bool
unfolding is_longer last_is_slash
is_slash_missing uri routes =
    not (empty uri)
    && (not (last_is_slash uri)
        && is_longer (match_route (uri ++ codes "/") routes) (match_route uri routes))

abbrev pub file_calls : List FileCall → List Call
file_calls [] = []
file_calls (call ∷ calls) = file call ∷ file_calls calls

-- A complete request.
unfoldable pub respond_complete : ℕ → Client → Server → Server
unfolding is_slash_missing respond
respond_complete idx c s =
    let conf = config_of s c in
    let uri = strip_query_string c.request.request_target in
    let handled = handle_request s.sys.files conf c.request (match_route uri conf.routes) in
    if is_slash_missing uri conf.routes
    then respond idx (closing (redirect_301 (uri ++ codes "/"))) c s
    else respond idx (closing handled.1) c (logged (file_calls handled.0) s)

-- Behind the parser.
unfoldable pub parsed_request : ℕ → Bool → Client → Server → Server
unfolding is_cgi_route respond_error respond_complete
parsed_request idx complete c s =
    if is_error c.request
    then respond_error idx c s
    else if is_headers_done c.request
        && (not c.cgi_active
            && is_cgi_route c.request
                (match_route (strip_query_string c.request.request_target) (config_of s c).routes))
    then dispatch_cgi idx c s
    else if complete
    then respond_complete idx c s
    else put_client c s

-- The parser is called with the request of the client.
parse_new : ℕ → Client × Option Bytes → Server → Server
unfolding parsed_request
parse_new idx (c, none) s = put_client c s
parse_new idx (c, some new_data) s =
    let parsed = parse c.request new_data in
    parsed_request idx parsed.0 (clear_raw_buffer (record c { request = parsed.1 })) s

-- What `read` returns to a client with no program; `fd` is poll_fds_[idx].fd.
unfoldable pub client_reply : ReadReply → ℕ → ℕ → Client → Server → Server
unfolding parse_new
client_reply (received b bytes) idx fd c s = parse_new idx (admit (b ∷ bytes) (config_of s c) c) s
client_reply read_blocked idx fd c s = put_client c s
client_reply _ idx fd c s = remove_client idx fd (put_client c s)

unfoldable pub next_read : List ReadReply → ReadReply × List ReadReply
next_read [] = (read_blocked, [])
next_read (reply ∷ reads) = (reply, reads)

-- Whether a program runs, and the next answer of `read`.
read_next : Bool → ReadReply × List ReadReply → ℕ → ℕ → Client → Server → Server
unfolding client_reply update_activity
read_next true next idx fd c s = handle_streaming_read idx c s
read_next false next idx fd c s =
    client_reply next.0 idx fd (update_activity s.sys.now c) (with_reads next.1 s)

read_of : Option Client → ℕ → ℕ → Server → ℕ × Server
unfolding read_next next_read
read_of none idx fd s = (suc idx, s)
read_of (some c) idx fd s = (idx, read_next c.cgi_active (next_read s.sys.reads) idx fd c s)

-- The position and the state behind it.
unfoldable pub handle_client_read : ℕ → ℕ → Server → ℕ × Server
unfolding read_of
handle_client_read idx fd s = read_of (get_client fd s) idx fd s
