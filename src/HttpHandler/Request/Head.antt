-- ===== src/HttpHandler/Request/Head.antt =====
-- About `handle_request` of src/HTTPHandler.cpp at HEAD and at GET.
use web_server.Prelude.{ℕ, ◌≡◌, false, some, not, ◌&&◌, ltb, ◌==◌, [], refl, length}
use web_server.Bytes.{codes, same, empty}
use web_server.Bytes.Decimal.{atol_size, print_decimal}
use web_server.StdMap.{Order, bytes_order, lookup}
use web_server.Config.{RouteConfig, ServerConfig}
use web_server.HttpRequest.{HttpRequest, get_header_value}
use web_server.HttpResponse.{HttpResponse, clear_body}
use web_server.HttpHandler.Files.{Files}
use web_server.HttpHandler.Get.{handle_get}
use web_server.HttpHandler.Get.Framed.{handle_get-IsFramed}
use web_server.HttpHandler.Get.Method.{with_method, handle_get-method}
use web_server.HttpHandler.Request.{
  handle_method, handle_allowed, handle_route, handle_request, any_same, no_methods, max_body,
  is_cgi_target, error_page,
}

-- The guards in front of the methods let a request with this method pass.
pub record IsServed (server : ServerConfig) (route : RouteConfig) (request : HttpRequest)
    : Type 0 where
  pub not_moved : (route.redirect_code == 301) ≡ false
  pub not_found : (route.redirect_code == 302) ≡ false
  pub allowed :
      (not (no_methods route.allowed_methods)
        && not (any_same request.method route.allowed_methods))
      ≡ false
  pub fits :
      (not (empty (get_header_value request (codes "Content-Length")))
        && (ltb 0 (max_body route server)
            && ltb
                (max_body route server)
                (atol_size (get_header_value request (codes "Content-Length")))))
      ≡ false
  pub not_cgi : is_cgi_target request route ≡ false

-- `head` is `get` without its body, whose length it announces.
pub record IsHeadOf (get head : HttpResponse) : Type 0 where
  pub status_line : head.status_line ≡ get.status_line
  pub headers : head.headers ≡ get.headers
  pub body : head.body ≡ []
  pub announced :
      lookup (codes "Content-Length") head.headers ≡ some (print_decimal (length get.body))

module _ (fs : Files) ⦃o : Order ℕ⦄ (server : ServerConfig) (route : RouteConfig) where
  -- Behind the guards a request goes to its method.
  served :
      (request : HttpRequest)
      → IsServed server route request
      → handle_request fs server request (some route) ≡ handle_method fs server request route
  unfolding handle_request handle_route handle_allowed
  served request h = rw (h.not_moved, h.not_found, h.allowed, h.fits, h.not_cgi)

  on_get :
      (request : HttpRequest)
      → handle_method fs server (with_method (codes "GET") request) route
        ≡ ([], handle_get fs (error_page fs server) request route)
  unfolding handle_method same
  on_get request = rw (handle_get-method fs (error_page fs server) (codes "GET") request route)

  on_head :
      (request : HttpRequest)
      → handle_method fs server (with_method (codes "HEAD") request) route
        ≡ ([], clear_body (handle_get fs (error_page fs server) request route))
  unfolding handle_method same
  on_head request = rw (handle_get-method fs (error_page fs server) (codes "HEAD") request route)

  clear_body-IsHeadOf :
      (request : HttpRequest)
      → IsHeadOf
          (handle_get fs (error_page fs server) request route)
          (clear_body (handle_get fs (error_page fs server) request route))
  unfolding clear_body
  clear_body-IsHeadOf request = record {
    status_line = refl;
    headers = refl;
    body = refl;
    announced = handle_get-IsFramed fs (error_page fs server) request route;
  }

  -- A HEAD request is answered with the status line and the headers of the answer to the same
  -- request with GET, with a Content-Length header that is the decimal length of the body of that
  -- answer, and with an empty body, and changes no file. The guards in front of the methods let both
  -- pass: no redirection, an allowed method, a size within the limit, no program.
  pub head-get :
      (request : HttpRequest)
      → IsServed server route (with_method (codes "GET") request)
      → IsServed server route (with_method (codes "HEAD") request)
      → ((handle_request fs server (with_method (codes "HEAD") request) (some route)).0 ≡ [])
        × IsHeadOf
            (handle_request fs server (with_method (codes "GET") request) (some route)).1
            (handle_request fs server (with_method (codes "HEAD") request) (some route)).1
  head-get request g h =
      rw
        (
          served (with_method (codes "HEAD") request) h,
          served (with_method (codes "GET") request) g,
          on_head request,
          on_get request,
        )
        (refl, clear_body-IsHeadOf request)
