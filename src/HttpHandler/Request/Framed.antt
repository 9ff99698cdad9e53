-- ===== src/HttpHandler/Request/Framed.antt =====
-- About `handle_request` of src/HTTPHandler.cpp and the length of a body.
use web_server.Prelude.{
  ℕ, ◌≡◌, false, Option, none, some, Bool-cases, inl, inr, not, ◌&&◌, ltb, ◌==◌,
}
use web_server.Bytes.{Bytes, codes, same, empty}
use web_server.Bytes.Decimal.{atol_size}
use web_server.StdMap.{Order}
use web_server.Config.{RouteConfig, ServerConfig}
use web_server.HttpRequest.{HttpRequest, get_header_value}
use web_server.HttpResponse.Framed.{IsFramed, pages_framed}
use web_server.HttpHandler.Files.{Files}
use web_server.HttpHandler.Get.Framed.{handle_get-IsFramed, handle_delete-IsFramed}
use web_server.HttpHandler.Post.Framed.{handle_post-IsFramed}
use web_server.HttpHandler.Cgi.Framed.{parse_cgi_response-IsFramed}
use web_server.HttpHandler.Request.{
  handle_method, handle_cgi, handle_allowed, handle_route, handle_request, any_same, no_methods,
  max_body, is_cgi_target, error_page,
}

module _ (fs : Files) ⦃o : Order ℕ⦄ (server : ServerConfig) where
  cgi-IsFramed : (raw : Bytes) → IsFramed (handle_cgi fs server raw).1
  unfolding handle_cgi
  cgi-IsFramed raw = elim (Bool-cases (empty raw)) [
    | inl e ↦ rw e ((pages_framed fs.read_file).server_error (error_page fs server 500))
    | inr e ↦ rw e (parse_cgi_response-IsFramed fs.read_file raw (error_page fs server 500))
  ]

  method-IsFramed :
      (request : HttpRequest) (route : RouteConfig)
      → same request.method (codes "HEAD") ≡ false
      → IsFramed (handle_method fs server request route).1
  unfolding handle_method
  method-IsFramed request route head = elim (Bool-cases (same request.method (codes "GET"))) [
    | inl get ↦ rw get (handle_get-IsFramed fs (error_page fs server) request route)
    | inr a ↦ elim (Bool-cases (same request.method (codes "POST"))) [
      | inl post ↦ rw (a, head, post) (handle_post-IsFramed fs request route)
      | inr b ↦ elim (Bool-cases (same request.method (codes "DELETE"))) [
        | inl del ↦
            rw (a, head, b, del) (handle_delete-IsFramed fs (error_page fs server) request route)
        | inr c ↦
            rw (a, head, b, c) ((pages_framed fs.read_file).not_allowed (error_page fs server 405))
      ]
    ]
  ]

  allowed-IsFramed :
      (request : HttpRequest) (route : RouteConfig)
      → same request.method (codes "HEAD") ≡ false
      → IsFramed (handle_allowed fs server request route).1
  unfolding handle_allowed
  allowed-IsFramed request route head =
      let length_header = get_header_value request (codes "Content-Length") in
      let limit = max_body route server in
      elim (Bool-cases (
        not (no_methods route.allowed_methods)
        && not (any_same request.method route.allowed_methods))) [
          | inl bad ↦ rw bad ((pages_framed fs.read_file).not_allowed (error_page fs server 405))
          | inr good ↦
              elim (Bool-cases (
                not (empty length_header)
                && (ltb 0 limit && ltb limit (atol_size length_header)))) [
                  | inl large ↦
                      rw (good, large)
                        ((pages_framed fs.read_file).too_large (error_page fs server 413))
                  | inr fits ↦ elim (Bool-cases (is_cgi_target request route)) [
                    | inl cgi ↦ rw (good, fits, cgi) (cgi-IsFramed (fs.run_cgi request route))
                    | inr plain ↦ rw (good, fits, plain) (method-IsFramed request route head)
                  ]
                ]
        ]

  -- Every response of `handle_request` to a request whose method is not HEAD, errors, redirections
  -- and CGI output included, has a Content-Length header that is the decimal length of its body.
  pub handle_request-IsFramed :
      (request : HttpRequest) (route : Option RouteConfig)
      → same request.method (codes "HEAD") ≡ false
      → IsFramed (handle_request fs server request route).1
  unfolding handle_request handle_route
  handle_request-IsFramed request none head =
      (pages_framed fs.read_file).not_found (error_page fs server 404)
  handle_request-IsFramed request (some route) head =
      elim (Bool-cases (route.redirect_code == 301)) [
        | inl moved ↦ rw moved ((pages_framed fs.read_file).moved route.redirect_url)
        | inr a ↦ elim (Bool-cases (route.redirect_code == 302)) [
          | inl found ↦ rw (a, found) ((pages_framed fs.read_file).found route.redirect_url)
          | inr b ↦ rw (a, b) (allowed-IsFramed request route head)
        ]
      ]
