-- ===== src/HttpHandler/Get.antt =====
-- src/HTTPHandler.cpp: GET, the listing of a directory, and DELETE.
pub mod Framed
pub mod Method
pub mod Confined
use web_server.Prelude.{
  ℕ, suc, ◌-◌, ◌+◌, Bool, true, false, not, ◌||◌, Option, none, some, List, [], ◌∷◌, ◌++◌,
  if◌then◌else◌, length, drop, ◌==◌,
}
use web_server.Bytes.{Bytes, codes, same, empty}
use web_server.Config.{RouteConfig, ServerConfig}
use web_server.HttpRequest.{HttpRequest}
use web_server.HttpResponse.{HttpResponse, success_200, error_400, error_403, error_404, error_500}
use web_server.HttpHandler.Path.{strip_query_string, strip_route_prefix, sanitize_path}
use web_server.HttpHandler.Files.{Files, FileCall, unlink}

-- The text behind the last dot; `none` where there is no dot.
extension : Bytes → Option Bytes
extension [] = none
extension (c ∷ path) = elim (extension path) [
  | some ext ↦ some ext
  | none ↦ if c == b'.' then some path else none
]

mime_of : Option Bytes → Bytes
mime_of none = codes "application/octet-stream"
mime_of (some ext) =
    if same ext (codes "html") || same ext (codes "htm")
    then codes "text/html"
    else if same ext (codes "css")
    then codes "text/css"
    else if same ext (codes "js")
    then codes "application/javascript"
    else if same ext (codes "json")
    then codes "application/json"
    else if same ext (codes "xml")
    then codes "application/xml"
    else if same ext (codes "txt")
    then codes "text/plain"
    else if same ext (codes "jpg") || same ext (codes "jpeg")
    then codes "image/jpeg"
    else if same ext (codes "png")
    then codes "image/png"
    else if same ext (codes "gif")
    then codes "image/gif"
    else if same ext (codes "svg")
    then codes "image/svg+xml"
    else if same ext (codes "ico")
    then codes "image/x-icon"
    else if same ext (codes "pdf")
    then codes "application/pdf"
    else if same ext (codes "zip")
    then codes "application/zip"
    else if same ext (codes "mp4")
    then codes "video/mp4"
    else if same ext (codes "mp3")
    then codes "audio/mpeg"
    else codes "application/octet-stream"

unfoldable pub get_mime_type : Bytes → Bytes
unfolding extension mime_of
get_mime_type path = mime_of (extension path)

-- if (full_path[full_path.size() - 1] != '/') full_path += "/"
end_slash : Bytes → Bytes
end_slash [] = codes "/"
end_slash (c ∷ []) = if c == b'/' then c ∷ [] else c ∷ b'/' ∷ []
end_slash (c ∷ d ∷ s) = c ∷ end_slash (d ∷ s)

slash_if : Bool → Bytes
slash_if true = codes "/"
slash_if false = []

stat_is_dir : Option Bool → Bool
stat_is_dir none = false
stat_is_dir (some dir) = dir

-- The mode of an entry, which stays as it was where `stat` fails.
mode_is_dir : Bool → Option Bool → Bool
mode_is_dir stale none = stale
mode_is_dir stale (some dir) = dir

abbrev pub index_or : Bytes → Bytes → Bytes
index_or default text = if empty text then default else text

-- `root_dir` with the sanitized target behind it.
abbrev pub target_of : HttpRequest → RouteConfig → Bytes
target_of request route =
    sanitize_path (strip_route_prefix (strip_query_string request.request_target) route.path)

abbrev pub root_dir : RouteConfig → Bytes
root_dir route = index_or (codes "files") route.root

module _ (fs : Files) (error_page : ℕ → Bytes) where
  autoindex_entry : Bytes → Bytes → Bytes
  unfolding slash_if end_slash stat_is_dir mode_is_dir
  autoindex_entry path name =
      let stat = fs.stat (end_slash path ++ name) in
      codes "<a href=\""
      ++ (name
          ++ (slash_if (mode_is_dir (fs.stale_is_dir (end_slash path ++ name)) stat)
              ++ (codes "\">" ++ (name ++ (slash_if (stat_is_dir stat) ++ codes "</a>\n")))))

  autoindex_entries : Bytes → List Bytes → Bytes
  unfolding autoindex_entry
  autoindex_entries path [] = []
  autoindex_entries path (name ∷ l) =
      (if same name (codes ".") then [] else autoindex_entry path name) ++ autoindex_entries path l

  autoindex_of : Bytes → Bytes → Option (List Bytes) → HttpResponse
  unfolding autoindex_entries
  autoindex_of path uri none = error_404 fs.read_file (error_page 404)
  autoindex_of path uri (some l) =
      success_200
        (codes "<html>\n<head><title>Index of "
          ++ (uri
              ++ (codes "</title></head>\n<body>\n<h1>Index of "
                  ++ (uri
                      ++ (codes "</h1><hr><pre>\n"
                          ++ (autoindex_entries path l ++ codes "</pre><hr></body>\n</html>"))))))
        (codes "text/html")

  unfoldable pub generate_autoindex : Bytes → Bytes → HttpResponse
  unfolding autoindex_of
  generate_autoindex path uri = autoindex_of path uri (fs.list_dir path)

  file_of : Bytes → Option Bytes → HttpResponse
  file_of file_path none = error_500 fs.read_file (error_page 500)
  file_of file_path (some body) = success_200 body (get_mime_type file_path)

  -- From the two calls of `access` on.
  serve_file : Bytes → HttpResponse
  unfolding file_of
  serve_file file_path =
      if not (fs.exists file_path)
      then error_404 fs.read_file (error_page 404)
      else if not (fs.readable file_path)
      then error_403 fs.read_file (error_page 403)
      else file_of file_path (fs.read_file file_path)

  -- A directory, where the `stat` of its index file said `index`.
  serve_dir : HttpRequest → RouteConfig → Bytes → Bytes → Option Bool → HttpResponse
  unfolding serve_file
  serve_dir request route file_path index_path (some _) = serve_file index_path
  serve_dir request route file_path index_path none =
      if route.autoindex
      then generate_autoindex file_path (strip_query_string request.request_target)
      else error_404 fs.read_file (error_page 404)

  get_at : HttpRequest → RouteConfig → Bytes → Option Bool → HttpResponse
  unfolding serve_dir serve_file
  get_at request route file_path none = error_404 fs.read_file (error_page 404)
  get_at request route file_path (some false) = serve_file file_path
  get_at request route file_path (some true) =
      let index_path = file_path ++ (codes "/" ++ index_or (codes "index.html") route.index) in
      serve_dir request route file_path index_path (fs.stat index_path)

  -- `error_page` is `get_error_page` of the server.
  unfoldable pub handle_get : HttpRequest → RouteConfig → HttpResponse
  unfolding get_at
  handle_get request route =
      let file_path = root_dir route ++ target_of request route in
      get_at request route file_path (fs.stat file_path)

  delete_file : Bytes → Bytes → List FileCall × HttpResponse
  delete_file request_target file_path =
      if not (fs.exists file_path)
      then ([], error_404 fs.read_file (error_page 404))
      else if not (fs.writable file_path)
      then ([], error_403 fs.read_file (error_page 403))
      else if not (fs.can_unlink file_path)
      then (unlink file_path ∷ [], error_500 fs.read_file (error_page 500))
      else (
        unlink file_path ∷ [],
        success_200
            (codes "<html><body><h1>200 OK</h1><p>File deleted: "
              ++ (request_target ++ codes "</p></body></html>"))
            (codes "text/html"),
      )

  delete_at : Bytes → Bytes → Option Bool → List FileCall × HttpResponse
  unfolding delete_file
  delete_at request_target file_path none = ([], error_404 fs.read_file (error_page 404))
  delete_at request_target file_path (some true) = ([], error_400 fs.read_file (error_page 400))
  delete_at request_target file_path (some false) = delete_file request_target file_path

  unfoldable pub handle_delete : HttpRequest → RouteConfig → List FileCall × HttpResponse
  unfolding delete_at
  handle_delete request route =
      let request_target = target_of request route in
      let file_path = root_dir route ++ request_target in
      if same request_target (codes "/")
      then ([], error_400 fs.read_file (error_page 400))
      else delete_at request_target file_path (fs.stat file_path)
