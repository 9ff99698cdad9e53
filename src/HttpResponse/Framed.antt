-- ===== src/HttpResponse/Framed.antt =====
-- About the pages of src/HTTPResponse.cpp and the length of a body.
use web_server.Prelude.{ℕ, ◌≡◌, refl, ◌∙◌, false, Option, some, length}
use web_server.Bytes.{Bytes, codes}
use web_server.Bytes.Decimal.{print_decimal}
use web_server.StdMap.{bytes_order, lookup, lookup-insert, lookup-insert_self, is_eq, compare_bytes}
use web_server.HttpResponse.{
  HttpResponse, new_response, set_status, set_header, set_body, error_400, error_403, error_404,
  error_405, error_413, error_500, success_200, success_201, redirect_301, redirect_302, page,
  redirect,
}

abbrev pub IsFramed : HttpResponse → Type 0
IsFramed r = lookup (codes "Content-Length") r.headers ≡ some (print_decimal (length r.body))

pub set_body-IsFramed : (body : Bytes) (r : HttpResponse) → IsFramed (set_body body r)
unfolding set_body set_header
set_body-IsFramed body r =
    lookup-insert_self (codes "Content-Length") (print_decimal (length body)) r.headers

-- Setting another header keeps it.
pub set_header-IsFramed :
    (key value : Bytes) (r : HttpResponse)
    → is_eq (compare_bytes (codes "Content-Length") key) ≡ false
    → IsFramed r
    → IsFramed (set_header key value r)
unfolding set_header
set_header-IsFramed key value r other h =
    lookup-insert key (codes "Content-Length") value r.headers ∙ rw other h

type_header : is_eq (compare_bytes (codes "Content-Length") (codes "Content-Type")) ≡ false
unfolding compare_bytes
type_header = refl

page-IsFramed :
    (code : ℕ) (reason body content_type : Bytes) → IsFramed (page code reason body content_type)
page-IsFramed code reason body content_type =
    set_header-IsFramed (codes "Content-Type") content_type _ type_header
      (set_body-IsFramed body (set_status code reason new_response))

redirect-IsFramed : (code : ℕ) (reason body url : Bytes) → IsFramed (redirect code reason body url)
redirect-IsFramed code reason body url =
    set_header-IsFramed (codes "Content-Type") (codes "text/html") _ type_header (
      set_body-IsFramed body
        (set_header (codes "Location") url (set_status code reason new_response)))

-- Every page that the server makes itself.
pub record ArePagesFramed (read_file : Bytes → Option Bytes) : Type 0 where
  pub bad_request : (path : Bytes) → IsFramed (error_400 read_file path)
  pub forbidden : (path : Bytes) → IsFramed (error_403 read_file path)
  pub not_found : (path : Bytes) → IsFramed (error_404 read_file path)
  pub not_allowed : (path : Bytes) → IsFramed (error_405 read_file path)
  pub too_large : (path : Bytes) → IsFramed (error_413 read_file path)
  pub server_error : (path : Bytes) → IsFramed (error_500 read_file path)
  pub ok : (body content_type : Bytes) → IsFramed (success_200 body content_type)
  pub created : (body content_type : Bytes) → IsFramed (success_201 body content_type)
  pub moved : (url : Bytes) → IsFramed (redirect_301 url)
  pub found : (url : Bytes) → IsFramed (redirect_302 url)

pub pages_framed : (read_file : Bytes → Option Bytes) → ArePagesFramed read_file
unfolding error_400 error_403 error_404 error_405 error_413 error_500 success_200 success_201
    redirect_301 redirect_302
pages_framed read_file = record {
  bad_request = λ path. page-IsFramed 400 (codes "Bad Request") _ _;
  forbidden = λ path. page-IsFramed 403 (codes "Forbidden") _ _;
  not_found = λ path. page-IsFramed 404 (codes "Not Found") _ _;
  not_allowed = λ path. page-IsFramed 405 (codes "Method Not Allowed") _ _;
  too_large = λ path. page-IsFramed 413 (codes "Payload Too Large") _ _;
  server_error = λ path. page-IsFramed 500 (codes "Internal Server Error") _ _;
  ok = λ body content_type. page-IsFramed 200 (codes "OK") body content_type;
  created = λ body content_type. page-IsFramed 201 (codes "Created") body content_type;
  moved = λ url.
      redirect-IsFramed 301 (codes "Moved Permanently")
        (codes "<html><body><h1>301 Moved Permanently</h1></body></html>") url;
  found = λ url.
      redirect-IsFramed 302 (codes "Found") (codes "<html><body><h1>302 Found</h1></body></html>")
        url;
}
