-- ===== src/HttpHandler/Get/Method.antt =====
-- About `handle_get` of src/HTTPHandler.cpp at requests with different methods.
use web_server.Prelude.{ℕ, ◌≡◌, refl, true, false, Bool, Option, none, some, ◌++◌}
use web_server.Bytes.{Bytes}
use web_server.Config.{RouteConfig}
use web_server.HttpRequest.{HttpRequest}
use web_server.HttpHandler.Files.{Files}
use web_server.HttpHandler.Get.{serve_dir, get_at, handle_get, root_dir, target_of}

abbrev pub with_method : Bytes → HttpRequest → HttpRequest
with_method method request = record request { method = method }

module _ (fs : Files) (error_page : ℕ → Bytes) (method : Bytes) (request : HttpRequest)
    (route : RouteConfig) where
  serve_dir-method :
      (path index_path : Bytes) (index : Option Bool)
      → serve_dir fs error_page (with_method method request) route path index_path index
        ≡ serve_dir fs error_page request route path index_path index
  unfolding serve_dir
  serve_dir-method path index_path none = refl
  serve_dir-method path index_path (some dir) = refl

  get_at-method :
      (path : Bytes) (mode : Option Bool)
      → get_at fs error_page (with_method method request) route path mode
        ≡ get_at fs error_page request route path mode
  unfolding get_at
  get_at-method path none = refl
  get_at-method path (some false) = refl
  get_at-method path (some true) = serve_dir-method path _ _

  pub handle_get-method :
      handle_get fs error_page (with_method method request) route
      ≡ handle_get fs error_page request route
  unfolding handle_get
  handle_get-method =
      get_at-method (root_dir route ++ target_of request route)
        (fs.stat (root_dir route ++ target_of request route))
