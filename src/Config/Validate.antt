-- ===== src/Config/Validate.antt =====
-- `validate` of src/Config.cpp: the first complaint about a configuration, or `none`.
pub mod Sound
use web_server.Prelude.{
  ℕ, ◌+◌, Bool, true, false, not, ◌&&◌, ◌||◌, Option, none, some, List, [], ◌∷◌, ◌++◌,
  if◌then◌else◌, leb, ◌==◌,
}
use web_server.Bytes.{Bytes, codes, same}
use web_server.HttpResponse.{print_int}
use web_server.Config.{RouteConfig, ServerConfig}

-- route.path.empty() || route.path[0] != '/'
unfoldable pub is_rootless : Bytes → Bool
is_rootless [] = true
is_rootless (c ∷ path) = not (c == b'/')

-- What the inner loop says of the routes of a server.
unfoldable pub check_routes : List RouteConfig → Option Bytes
unfolding is_rootless
check_routes [] = none
check_routes (route ∷ routes) =
    if is_rootless route.path
    then some (codes "route path must start with '/': '" ++ (route.path ++ codes "'"))
    else if not (route.redirect_code == 0)
        && (not (route.redirect_code == 301) && not (route.redirect_code == 302))
    then some (codes "redirect code must be 301 or 302, got " ++ print_int route.redirect_code)
    else check_routes routes

-- srv.port < MIN_PORT || srv.port > MAX_PORT; a negative port is a word above the range.
unfoldable pub is_port_bad : ℕ → Bool
is_port_bad port = not (leb 1 port && leb port 65535)

or_check : Option Bytes → Option Bytes → Option Bytes
or_check (some e) rest = some e
or_check none rest = rest

unfoldable pub check_servers : List ServerConfig → Option Bytes
unfolding or_check is_port_bad check_routes
check_servers [] = none
check_servers (srv ∷ servers) =
    if is_port_bad srv.port
    then some (codes "port must be between 1 and 65535")
    else or_check (check_routes srv.routes) (check_servers servers)

-- The inner loop over the servers behind one.
unfoldable pub check_listen : ServerConfig → List ServerConfig → Option Bytes
check_listen srv [] = none
check_listen srv (other ∷ servers) =
    if same srv.host other.host && srv.port == other.port
    then some (codes "duplicate listen: " ++ (srv.host ++ (codes ":" ++ print_int srv.port)))
    else check_listen srv servers

unfoldable pub check_duplicates : List ServerConfig → Option Bytes
unfolding or_check check_listen
check_duplicates [] = none
check_duplicates (srv ∷ servers) = or_check (check_listen srv servers) (check_duplicates servers)

unfoldable pub validate : List ServerConfig → Option Bytes
unfolding or_check check_servers check_duplicates
validate servers = or_check (check_servers servers) (check_duplicates servers)
