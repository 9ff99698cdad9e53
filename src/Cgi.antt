-- ===== src/Cgi.antt =====
-- src/CGI.cpp: the environment and the paths of a CGI program, which `dispatch_cgi` of
-- src/Server.cpp builds with a copy of the code.
use web_server.Prelude.{
  ℕ, ◌+◌, ◌-◌, Bool, ◌&&◌, ◌||◌, Option, none, some, List, [], ◌∷◌, ◌++◌, if◌then◌else◌, take, drop,
  leb, ◌==◌,
}
use web_server.Bytes.{Bytes, codes, same, find_char}
use web_server.Config.{RouteConfig}
use web_server.HttpRequest.{HttpRequest, get_header_value}
use web_server.HttpHandler.Path.{strip_query_string, strip_route_prefix}

-- std::toupper in the C locale
unfoldable pub toupper : ℕ → ℕ
toupper c = if leb b'a' c && leb c b'z' then c - 32 else c

-- A byte of a header name in the name of a variable.
unfoldable pub env_byte : ℕ → ℕ
unfolding toupper
env_byte c = if c == b'-' then b'_' else toupper c

unfoldable pub env_bytes : Bytes → Bytes
unfolding env_byte
env_bytes [] = []
env_bytes (c ∷ s) = env_byte c ∷ env_bytes s

abbrev pub env_line : Bytes × Bytes → Bytes
env_line (key, value) = codes "HTTP_" ++ env_bytes key ++ (codes "=" ++ value)

-- Whether a header has a variable of its own.
unfoldable pub is_own : Bytes → Bool
is_own key = same key (codes "content-type") || same key (codes "content-length")

-- The loop over the headers.
unfoldable pub header_vars : List (Bytes × Bytes) → List Bytes
unfolding is_own
header_vars [] = []
header_vars ((key, value) ∷ headers) =
    if is_own key then header_vars headers else env_line (key, value) ∷ header_vars headers

query_from : Bytes → Option ℕ → Bytes
query_from request_target none = []
query_from request_target (some query_pos) = drop (query_pos + 1) request_target

unfoldable pub query_string : Bytes → Bytes
unfolding query_from
query_string request_target = query_from request_target (find_char b'?' request_target)

-- The variables in front of those of the headers.
unfoldable pub request_vars : HttpRequest → List Bytes
request_vars r =
    codes "GATEWAY_INTERFACE=CGI/1.1"
    ∷ (codes "SERVER_PROTOCOL=" ++ r.protocol)
    ∷ (codes "SERVER_NAME=" ++ get_header_value r (codes "host"))
    ∷ (codes "REQUEST_METHOD=" ++ r.method)
    ∷ (codes "SCRIPT_NAME=" ++ strip_query_string r.request_target)
    ∷ (codes "PATH_INFO=" ++ r.request_target)
    ∷ (codes "REQUEST_URI=" ++ r.request_target)
    ∷ (codes "QUERY_STRING=" ++ query_string r.request_target)
    ∷ (codes "CONTENT_TYPE=" ++ get_header_value r (codes "content-type"))
    ∷ (codes "CONTENT_LENGTH=" ++ get_header_value r (codes "content-length"))
    ∷ []

-- The variables for a path of the script, with those for php-cgi.
unfoldable pub env_for : HttpRequest → Bytes → List Bytes
unfolding request_vars header_vars
env_for r script_path =
    request_vars r
    ++ (header_vars r.headers
        ++ ((codes "SCRIPT_FILENAME=" ++ script_path) ∷ codes "REDIRECT_STATUS=200" ∷ []))

-- route.root and the target without its query and the prefix of the route.
unfoldable pub relative_script : HttpRequest → RouteConfig → Bytes
relative_script r route =
    route.root ++ strip_route_prefix (strip_query_string r.request_target) route.path

resolved : Bytes → Option Bytes → Bytes
resolved path none = path
resolved path (some real) = real

-- A path, or what `realpath` makes of it.
unfoldable pub resolve : (Bytes → Option Bytes) → Bytes → Bytes
unfolding resolved
resolve realpath path = resolved path (realpath path)

-- The position of the last slash.
unfoldable pub find_last_slash : Bytes → Option ℕ
find_last_slash [] = none
find_last_slash (c ∷ s) = elim (find_last_slash s) [
  | some i ↦ some (i + 1)
  | none ↦ if c == b'/' then some 0 else none
]

dir_to : Bytes → Option ℕ → Bytes
dir_to path none = path
dir_to path (some i) = take i path

unfoldable pub dir_of : Bytes → Bytes
unfolding dir_to find_last_slash
dir_of path = dir_to path (find_last_slash path)

unfoldable pub get_script_path : (Bytes → Option Bytes) → HttpRequest → RouteConfig → Bytes
unfolding resolve relative_script
get_script_path realpath r route = resolve realpath (relative_script r route)

-- `_env`
unfoldable pub set_environment : (Bytes → Option Bytes) → HttpRequest → RouteConfig → List Bytes
unfolding get_script_path env_for
set_environment realpath r route = env_for r (get_script_path realpath r route)
