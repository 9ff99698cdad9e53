-- ===== src/Config/Directives.antt =====
-- The directives of a server and of a route, in src/Config.cpp. A line is given by its words.
use web_server.Prelude.{
  ℕ, ◌+◌, true, false, Option, none, some, List, [], ◌∷◌, ◌++◌, if◌then◌else◌, take, drop, ltb,
  length,
}
use web_server.Bytes.{Bytes, codes, same, find_char}
use web_server.StdMap.{int_order, insert}
use web_server.Config.Lines.{expect_args}
use web_server.Config.Numbers.{read_int, parse_size}
use web_server.Config.{RouteConfig, ServerConfig, Parsed, ok, refused, undefined, ◌>>=◌, ◌>>◌}

-- words[1], behind a test that there is one
abbrev pub second : List Bytes → Bytes
second (_ ∷ word ∷ _) = word
second _ = []

abbrev third : List Bytes → Bytes
third (_ ∷ _ ∷ word ∷ _) = word
third _ = []

port_read : Bytes → ServerConfig → Option ℕ → Parsed ServerConfig
port_read text srv none = refused (codes "invalid port: '" ++ (text ++ codes "'"))
port_read text srv (some port) = ok (record srv { port = port })

listen_at : Bytes → ServerConfig → Option ℕ → Parsed ServerConfig
unfolding port_read
listen_at value srv none = port_read value srv (read_int value)
listen_at value srv (some colon) =
    let port_str = drop (colon + 1) value in
    port_read port_str (record srv { host = take colon value }) (read_int port_str)

unfoldable pub parse_listen : Bytes → ServerConfig → Parsed ServerConfig
unfolding listen_at
parse_listen value srv = listen_at value srv (find_char b':' value)

listen_directive : ServerConfig → List Bytes → Parsed ServerConfig
listen_directive srv words = do
  expect_args words 2 (codes "listen")
  (if srv.has_listen
      then refused (codes "duplicate listen directive")
      else parse_listen (second words) (record srv { has_listen = true }))

server_name_directive : ServerConfig → List Bytes → Parsed ServerConfig
server_name_directive srv words = do
  expect_args words 2 (codes "server_name")
  ok (record srv { server_names = srv.server_names ++ drop 1 words })

error_code_read : ServerConfig → List Bytes → Option ℕ → Parsed ServerConfig
error_code_read srv words none =
    refused (codes "invalid error code: '" ++ (second words ++ codes "'"))
error_code_read srv words (some code) =
    ok (record srv { error_pages = insert code (third words) srv.error_pages })

error_page_directive : ServerConfig → List Bytes → Parsed ServerConfig
unfolding error_code_read
error_page_directive srv words =
    if ltb (length words) 3
    then refused (codes "error_page requires a code and a path")
    else error_code_read srv words (read_int (second words))

body_size_directive : ServerConfig → List Bytes → Parsed ServerConfig
body_size_directive srv words = do
  expect_args words 2 (codes "client_max_body_size")
  size ← parse_size (second words)
  ok (record srv { client_max_body_size = size })

unfoldable pub parse_directive : ServerConfig → List Bytes → Parsed ServerConfig
unfolding listen_directive server_name_directive error_page_directive body_size_directive
parse_directive srv [] = undefined
parse_directive srv (key ∷ args) =
    if same key (codes "listen")
    then listen_directive srv (key ∷ args)
    else if same key (codes "server_name")
    then server_name_directive srv (key ∷ args)
    else if same key (codes "error_page")
    then error_page_directive srv (key ∷ args)
    else if same key (codes "client_max_body_size")
    then body_size_directive srv (key ∷ args)
    else refused (codes "unknown directive: '" ++ (key ++ codes "'"))

-- The value of a directive that sets a text.
unfoldable pub parse_route_string_directive : List Bytes → Bytes → Parsed Bytes
parse_route_string_directive words directive = do expect_args words 2 directive; ok (second words)

unfoldable pub parse_autoindex : RouteConfig → List Bytes → Parsed RouteConfig
parse_autoindex route words = do
  expect_args words 2 (codes "autoindex")
  (if same (second words) (codes "on")
      then ok (record route { autoindex = true })
      else if same (second words) (codes "off")
      then ok (record route { autoindex = false })
      else refused (codes "autoindex must be 'on' or 'off', got '" ++ (second words ++ codes "'")))

unfoldable pub parse_allow_methods : RouteConfig → List Bytes → Parsed RouteConfig
parse_allow_methods route words = do
  expect_args words 2 (codes "allow_methods")
  ok (record route { allowed_methods = drop 1 words })

redirect_read : RouteConfig → List Bytes → Option ℕ → Parsed RouteConfig
redirect_read route words none =
    refused (codes "invalid redirect code: '" ++ (second words ++ codes "'"))
redirect_read route words (some code) =
    ok (record route { redirect_code = code; redirect_url = third words })

unfoldable pub parse_return : RouteConfig → List Bytes → Parsed RouteConfig
unfolding redirect_read
parse_return route words =
    if ltb (length words) 3
    then refused (codes "return requires a code and a URL")
    else redirect_read route words (read_int (second words))

route_size_directive : RouteConfig → List Bytes → Parsed RouteConfig
route_size_directive route words = do
  expect_args words 2 (codes "client_max_body_size")
  size ← parse_size (second words)
  ok (record route { client_max_body_size = size; has_client_max_body_size = true })

unfoldable pub parse_route_directive : RouteConfig → List Bytes → Parsed RouteConfig
unfolding route_size_directive
parse_route_directive route [] = undefined
parse_route_directive route (key ∷ args) =
    let words = key ∷ args in
    if same key (codes "root")
    then parse_route_string_directive words key >>= (λ s. ok (record route { root = s }))
    else if same key (codes "index")
    then parse_route_string_directive words key >>= (λ s. ok (record route { index = s }))
    else if same key (codes "autoindex")
    then parse_autoindex route words
    else if same key (codes "allow_methods")
    then parse_allow_methods route words
    else if same key (codes "return")
    then parse_return route words
    else if same key (codes "upload_store")
    then parse_route_string_directive words key >>= (λ s. ok (record route { upload_store = s }))
    else if same key (codes "cgi_extension")
    then parse_route_string_directive words key >>= (λ s. ok (record route { cgi_extension = s }))
    else if same key (codes "cgi_path")
    then parse_route_string_directive words key >>= (λ s. ok (record route { cgi_path = s }))
    else if same key (codes "client_max_body_size")
    then route_size_directive route words
    else refused (codes "unknown directive in location block: '" ++ (key ++ codes "'"))
