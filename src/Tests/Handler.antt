-- ===== src/Tests/Handler.antt =====
-- Tests and examples of src/HTTPHandler.cpp and src/HTTPResponse.cpp.
use Prim.Native.Nat.{compare}
use web_server.Prelude.{
  ℕ, ◌+◌, ◌≡◌, refl, true, false, some, none, List, [], ◌∷◌, ◌++◌, length, arith, leb, Bool, ◌&&◌,
  ◌↔◌,
}
use web_server.Prelude.Loop.{loop}
use web_server.Bytes.{Bytes, codes, same}
use web_server.Bytes.Decimal.{print_decimal}
use web_server.StdMap.{Order, is_eq}
use web_server.Config.{RouteConfig, ServerConfig}
use web_server.HttpRequest.{HttpRequest, new_request}
use web_server.HttpResponse.{set_header, set_status}
use web_server.HttpResponse.Framed.{IsFramed}
use web_server.HttpHandler.Path.{sanitize_path, process_path_segment, strip_route_prefix, join}
use web_server.HttpHandler.Path.Clean.{
  AreNames, sanitize_path-AreNames, sanitize_path-append, sanitize_path_twice,
}
use web_server.HttpHandler.Files.{Files}
use web_server.HttpHandler.Get.{handle_delete, root_dir}
use web_server.HttpHandler.Get.Confined.{IsConfined, handle_delete-IsConfined}
use web_server.HttpHandler.Post.{url_decode, read_hex}
use web_server.HttpHandler.Post.UrlDecode.{url_encode, url_decode-url_encode}
use web_server.HttpHandler.Cgi.{cgi_round, cgi_start, parse_cgi_headers, cgi_line, strip_cr, atoi}
use web_server.HttpHandler.Cgi.Ends.{cgi_loop_ends}
use web_server.HttpHandler.Request.{handle_request, any_same, no_methods, max_body, is_cgi_target}
use web_server.HttpHandler.Request.Head.{IsServed, IsHeadOf, head-get}
use web_server.HttpHandler.Get.Method.{with_method}
use web_server.HttpHandler.Request.Framed.{handle_request-IsFramed}
use web_server.Tests.Request.{parser}

test_path : sanitize_path (codes "/a/./b/../../../c//d/") ≡ codes "/c/d"
unfolding sanitize_path process_path_segment same
test_path = refl

-- A prefix of a route is cut off in the middle of a name, too.
test_prefix : strip_route_prefix (codes "/imgs/a") (codes "/img") ≡ codes "/s/a"
unfolding strip_route_prefix same parser
test_prefix = refl

test_url : url_decode (codes "a%41+b%zz%4") ≡ codes "aA b%zz%4"
unfolding url_decode read_hex parser
test_url = refl

test_cgi :
    (parse_cgi_headers (codes "Status: 404 Gone\r\nX: 1\n")).status_line ≡ codes "HTTP/1.1 404 Gone"
unfolding parse_cgi_headers cgi_round cgi_line strip_cr atoi set_status set_header print_decimal
    same parser
test_cgi = refl

sanitize_path-AreNames_example :
    (l : List Bytes) × AreNames l × (sanitize_path (codes "/a/../../etc") ≡ b'/' ∷ join l)
sanitize_path-AreNames_example = sanitize_path-AreNames (codes "/a/../../etc")

sanitize_path-append_example :
    sanitize_path (sanitize_path (codes "/a/..") ++ b'/' ∷ codes "../b")
    ≡ sanitize_path (codes "/a/.." ++ b'/' ∷ codes "../b")
sanitize_path-append_example = sanitize_path-append (codes "/a/..") (codes "../b")

sanitize_path_twice_example :
    sanitize_path (sanitize_path (codes "x//../y")) ≡ sanitize_path (codes "x//../y")
sanitize_path_twice_example = sanitize_path_twice (codes "x//../y")

numbers_iff : (a b : ℕ) → (is_eq (compare a b) ≡ true) ↔ (a ≡ b)
numbers_iff a b = ground arith

instance abbrev numbers : Order ℕ
numbers = record { cmp = compare; cmp_iff = numbers_iff }

-- A system where every path is a file that can be read, written and removed.
abbrev pub files : Files
files = record {
  read_file = λ path. some (codes "<p>");
  stat = λ path. some false;
  exists = λ path. true;
  readable = λ path. true;
  writable = λ path. true;
  list_dir = λ path. none;
  stale_is_dir = λ path. false;
  can_write = λ path. true;
  can_append = λ path. true;
  can_unlink = λ path. true;
  run_cgi = λ request route. [];
}

abbrev route : RouteConfig
route = record {
  path = codes "/";
  allowed_methods = codes "GET" ∷ codes "DELETE" ∷ [];
  root = codes "www";
  index = [];
  autoindex = false;
  upload_store = [];
  redirect_url = [];
  redirect_code = 0;
  cgi_extension = [];
  cgi_path = [];
  client_max_body_size = 0;
  has_client_max_body_size = false;
}

abbrev server : ServerConfig
server = record {
  host = codes "localhost";
  port = 8080;
  has_listen = true;
  server_names = [];
  error_pages = (404, codes "404.html") ∷ [];
  client_max_body_size = 100;
  routes = route ∷ [];
}

abbrev delete_request : HttpRequest
delete_request = record new_request { method = codes "DELETE"; request_target = codes "/../a?x" }

abbrev pages : ℕ → Bytes
pages status_code = []

handle_delete-IsConfined_example :
    IsConfined (root_dir route) (handle_delete files pages delete_request route).0
handle_delete-IsConfined_example = handle_delete-IsConfined files pages delete_request route

handle_request-IsFramed_example :
    IsFramed (handle_request files server delete_request (some route)).1
unfolding same
handle_request-IsFramed_example =
    handle_request-IsFramed files server delete_request (some route) refl

cgi_loop_ends_example :
    loop (length (codes "A: b\n") + 1) (cgi_round (codes "A: b\n")) cgi_start
    ≡ some (parse_cgi_headers (codes "A: b\n"))
cgi_loop_ends_example = cgi_loop_ends (codes "A: b\n")

-- With no list of methods every method passes.
abbrev open_route : RouteConfig
open_route = record route { allowed_methods = [] }

served_example : (method : Bytes) → IsServed server open_route (with_method method delete_request)
unfolding parser any_same no_methods max_body is_cgi_target same
served_example method = record {
  not_moved = refl;
  not_found = refl;
  allowed = refl;
  fits = refl;
  not_cgi = refl;
}

head-get_example :
    ((handle_request files server (with_method (codes "HEAD") delete_request) (some open_route)).0
      ≡ [])
    × IsHeadOf
        (handle_request files server (with_method (codes "GET") delete_request) (some open_route)).1
        (handle_request files server
          (with_method (codes "HEAD") delete_request)
          (some open_route)).1
head-get_example =
    head-get files server open_route delete_request (served_example (codes "GET"))
      (served_example (codes "HEAD"))

-- Letters are kept.
abbrev letters : ℕ → Bool
letters c = leb b'a' c && leb c b'z'

url_decode-url_encode_example : url_decode (url_encode letters (codes "a b%&")) ≡ codes "a b%&"
url_decode-url_encode_example =
    url_decode-url_encode letters (codes "a b%&") refl refl (omega arith)
