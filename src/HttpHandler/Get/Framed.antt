-- ===== src/HttpHandler/Get/Framed.antt =====
-- About `handle_get` and `handle_delete` of src/HTTPHandler.cpp and the length of a body.
use web_server.Prelude.{ℕ, true, false, Bool, Option, none, some, List, Bool-cases, inl, inr, ◌++◌}
use web_server.Bytes.{Bytes, codes, same}
use web_server.Config.{RouteConfig}
use web_server.HttpRequest.{HttpRequest}
use web_server.HttpResponse.Framed.{IsFramed, pages_framed}
use web_server.HttpHandler.Files.{Files}
use web_server.HttpHandler.Get.{
  autoindex_of, generate_autoindex, file_of, serve_file, serve_dir, get_at, handle_get, delete_file,
  delete_at, handle_delete, target_of, root_dir,
}

module _ (fs : Files) (error_page : ℕ → Bytes) where
  autoindex-IsFramed : (path uri : Bytes) → IsFramed (generate_autoindex fs error_page path uri)
  unfolding generate_autoindex
  autoindex-IsFramed path uri = go (fs.list_dir path)
    where
      go : (l : Option (List Bytes)) → IsFramed (autoindex_of fs error_page path uri l)
      go none = unfold autoindex_of in (pages_framed fs.read_file).not_found (error_page 404)
      go (some l) = unfold autoindex_of in (pages_framed fs.read_file).ok _ (codes "text/html")

  file_of-IsFramed :
      (path : Bytes) (content : Option Bytes) → IsFramed (file_of fs error_page path content)
  unfolding file_of
  file_of-IsFramed path none = (pages_framed fs.read_file).server_error (error_page 500)
  file_of-IsFramed path (some body) = (pages_framed fs.read_file).ok body _

  serve_file-IsFramed : (path : Bytes) → IsFramed (serve_file fs error_page path)
  unfolding serve_file
  serve_file-IsFramed path = elim (Bool-cases (fs.exists path)) [
    | inr absent ↦ rw absent ((pages_framed fs.read_file).not_found (error_page 404))
    | inl there ↦ elim (Bool-cases (fs.readable path)) [
      | inr closed ↦ rw (there, closed) ((pages_framed fs.read_file).forbidden (error_page 403))
      | inl open_ ↦ rw (there, open_) (file_of-IsFramed path (fs.read_file path))
    ]
  ]

  serve_dir-IsFramed :
      (request : HttpRequest) (route : RouteConfig) (path index_path : Bytes) (index : Option Bool)
      → IsFramed (serve_dir fs error_page request route path index_path index)
  unfolding serve_dir
  serve_dir-IsFramed request route path index_path (some _) = serve_file-IsFramed index_path
  serve_dir-IsFramed request route path index_path none = elim (Bool-cases route.autoindex) [
    | inl on ↦ rw on (autoindex-IsFramed path _)
    | inr off ↦ rw off ((pages_framed fs.read_file).not_found (error_page 404))
  ]

  get_at-IsFramed :
      (request : HttpRequest) (route : RouteConfig) (path : Bytes) (mode : Option Bool)
      → IsFramed (get_at fs error_page request route path mode)
  unfolding get_at
  get_at-IsFramed request route path none = (pages_framed fs.read_file).not_found (error_page 404)
  get_at-IsFramed request route path (some false) = serve_file-IsFramed path
  get_at-IsFramed request route path (some true) = serve_dir-IsFramed request route path _ _

  pub handle_get-IsFramed :
      (request : HttpRequest) (route : RouteConfig)
      → IsFramed (handle_get fs error_page request route)
  unfolding handle_get
  handle_get-IsFramed request route =
      get_at-IsFramed request route (root_dir route ++ target_of request route)
        (fs.stat (root_dir route ++ target_of request route))

  delete_file-IsFramed : (target path : Bytes) → IsFramed (delete_file fs error_page target path).1
  unfolding delete_file
  delete_file-IsFramed target path = elim (Bool-cases (fs.exists path)) [
    | inr absent ↦ rw absent ((pages_framed fs.read_file).not_found (error_page 404))
    | inl there ↦ elim (Bool-cases (fs.writable path)) [
      | inr closed ↦ rw (there, closed) ((pages_framed fs.read_file).forbidden (error_page 403))
      | inl free ↦ elim (Bool-cases (fs.can_unlink path)) [
        | inr kept ↦
            rw (there, free, kept) ((pages_framed fs.read_file).server_error (error_page 500))
        | inl gone ↦ rw (there, free, gone) ((pages_framed fs.read_file).ok _ (codes "text/html"))
      ]
    ]
  ]

  delete_at-IsFramed :
      (target path : Bytes) (mode : Option Bool)
      → IsFramed (delete_at fs error_page target path mode).1
  unfolding delete_at
  delete_at-IsFramed target path none = (pages_framed fs.read_file).not_found (error_page 404)
  delete_at-IsFramed target path (some true) =
      (pages_framed fs.read_file).bad_request (error_page 400)
  delete_at-IsFramed target path (some false) = delete_file-IsFramed target path

  pub handle_delete-IsFramed :
      (request : HttpRequest) (route : RouteConfig)
      → IsFramed (handle_delete fs error_page request route).1
  unfolding handle_delete
  handle_delete-IsFramed request route =
      elim (Bool-cases (same (target_of request route) (codes "/"))) [
        | inl top ↦ rw top ((pages_framed fs.read_file).bad_request (error_page 400))
        | inr other ↦ rw other (delete_at-IsFramed (target_of request route) _ _)
      ]
