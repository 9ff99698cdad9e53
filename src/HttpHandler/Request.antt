-- ===== src/HttpHandler/Request.antt =====
-- src/HTTPHandler.cpp: `handle_request`, the guards in front of the handlers of the methods.
pub mod Framed
pub mod Head
use web_server.Prelude.{
  ℕ, ◌-◌, Bool, true, false, not, ◌&&◌, ◌||◌, Option, none, some, List, [], ◌∷◌, ◌++◌,
  if◌then◌else◌, length, drop, ◌==◌, ltb, leb,
}
use web_server.Bytes.{Bytes, codes, same, empty}
use web_server.Bytes.Decimal.{atol_size}
use web_server.StdMap.{Order}
use web_server.Config.{RouteConfig, ServerConfig}
use web_server.HttpRequest.{HttpRequest, get_header_value}
use web_server.HttpResponse.{
  HttpResponse, clear_body, error_404, error_405, error_413, error_500, redirect_301, redirect_302,
}
use web_server.HttpHandler.Path.{strip_query_string}
use web_server.HttpHandler.Files.{Files, FileCall, get_error_page}
use web_server.HttpHandler.Get.{handle_get, handle_delete}
use web_server.HttpHandler.Post.{handle_post}
use web_server.HttpHandler.Cgi.{parse_cgi_response}

abbrev pub Handled : Type 0
Handled = List FileCall × HttpResponse

-- The loop over the allowed methods.
unfoldable pub any_same : Bytes → List Bytes → Bool
any_same method [] = false
any_same method (m ∷ l) = same m method || any_same method l

unfoldable pub no_methods : List Bytes → Bool
no_methods [] = true
no_methods (_ ∷ _) = false

unfoldable pub max_body : RouteConfig → ServerConfig → ℕ
max_body route server =
    if route.has_client_max_body_size
    then route.client_max_body_size
    else server.client_max_body_size

unfoldable pub is_cgi_target : HttpRequest → RouteConfig → Bool
is_cgi_target request route =
    let request_target = strip_query_string request.request_target in
    let ext_len = length route.cgi_extension in
    not (empty route.cgi_extension)
    && (leb ext_len (length request_target)
        && same (drop (length request_target - ext_len) request_target) route.cgi_extension)

module _ (fs : Files) ⦃o : Order ℕ⦄ (server : ServerConfig) where
  abbrev pub error_page : ℕ → Bytes
  error_page status_code = get_error_page status_code server

  handle_method : HttpRequest → RouteConfig → Handled
  handle_method request route =
      if same request.method (codes "GET")
      then ([], handle_get fs error_page request route)
      else if same request.method (codes "HEAD")
      then ([], clear_body (handle_get fs error_page request route))
      else if same request.method (codes "POST")
      then handle_post fs request route
      else if same request.method (codes "DELETE")
      then handle_delete fs error_page request route
      else ([], error_405 fs.read_file (error_page 405))

  handle_cgi : Bytes → Handled
  handle_cgi raw =
      if empty raw
      then ([], error_500 fs.read_file (error_page 500))
      else ([], parse_cgi_response fs.read_file raw (error_page 500))

  -- Behind the redirection: the method, the size, the program.
  handle_allowed : HttpRequest → RouteConfig → Handled
  unfolding handle_cgi handle_method no_methods
  handle_allowed request route =
      let content_length_header = get_header_value request (codes "Content-Length") in
      let limit = max_body route server in
      if not (no_methods route.allowed_methods)
        && not (any_same request.method route.allowed_methods)
      then ([], error_405 fs.read_file (error_page 405))
      else if not (empty content_length_header)
          && (ltb 0 limit && ltb limit (atol_size content_length_header))
      then ([], error_413 fs.read_file (error_page 413))
      else if is_cgi_target request route
      then handle_cgi (fs.run_cgi request route)
      else handle_method request route

  handle_route : HttpRequest → Option RouteConfig → Handled
  unfolding handle_allowed
  handle_route request none = ([], error_404 fs.read_file (error_page 404))
  handle_route request (some route) =
      if route.redirect_code == 301
      then ([], redirect_301 route.redirect_url)
      else if route.redirect_code == 302
      then ([], redirect_302 route.redirect_url)
      else handle_allowed request route

  -- The calls that change files, and the response; `none` is a route that is NULL.
  unfoldable pub handle_request : HttpRequest → Option RouteConfig → Handled
  unfolding handle_route
  handle_request request route = handle_route request route
