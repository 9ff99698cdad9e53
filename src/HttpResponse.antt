-- ===== src/HttpResponse.antt =====
-- src/HTTPResponse.cpp: a response and its text. The files of error pages are a parameter, what the
-- stream reads from a path, or `none` where it cannot be opened.
pub mod Framed
use web_server.Prelude.{
  ℕ, ◌-◌, ◌^◌, Option, none, some, List, [], ◌∷◌, ◌++◌, if◌then◌else◌, length, ltb,
}
use web_server.Bytes.{Bytes, codes, crlf, empty}
use web_server.Bytes.Decimal.{print_decimal}
use web_server.StdMap.{bytes_order, insert}

pub record HttpResponse : Type 0 where
  pub status_line : Bytes
  pub headers : List (Bytes × Bytes)
  pub body : Bytes

abbrev pub new_response : HttpResponse
new_response = record { status_line = []; headers = []; body = [] }

-- stream << n, for an `int` that is the word `n` of 32 bits
unfoldable pub print_int : ℕ → Bytes
print_int n = if ltb n (2 ^ 31) then print_decimal n else b'-' ∷ print_decimal (2 ^ 32 - n)

unfoldable pub set_status : ℕ → Bytes → HttpResponse → HttpResponse
unfolding print_int
set_status status_code reason_phrase r = record r {
  status_line = codes "HTTP/1.1 " ++ (print_int status_code ++ (codes " " ++ reason_phrase));
}

unfoldable pub set_header : Bytes → Bytes → HttpResponse → HttpResponse
set_header key value r = record r { headers = insert key value r.headers }

unfoldable pub set_body : Bytes → HttpResponse → HttpResponse
unfolding set_header
set_body body r =
    set_header (codes "Content-Length") (print_decimal (length body)) (record r { body = body })

unfoldable pub clear_body : HttpResponse → HttpResponse
clear_body r = record r { body = [] }

header_lines : List (Bytes × Bytes) → Bytes
header_lines [] = []
header_lines ((key, value) ∷ l) = key ++ (codes ": " ++ (value ++ (crlf ++ header_lines l)))

unfoldable pub build_response : HttpResponse → Bytes
unfolding header_lines
build_response r = r.status_line ++ (crlf ++ (header_lines r.headers ++ (crlf ++ r.body)))

unfoldable pub to_string : HttpResponse → Bytes
unfolding build_response
to_string r = build_response r

unfoldable pub header_to_string : HttpResponse → Bytes
unfolding header_lines
header_to_string r = r.status_line ++ (crlf ++ (header_lines r.headers ++ crlf))

or_page : Bytes → Option Bytes → Bytes
or_page fallback none = fallback
or_page fallback (some content) = content

-- The page with a status, a body and a content type, as every constructor function sets them.
abbrev page : ℕ → Bytes → Bytes → Bytes → HttpResponse
page status_code reason_phrase body content_type =
    set_header (codes "Content-Type") content_type
      (set_body body (set_status status_code reason_phrase new_response))

module _ (read_file : Bytes → Option Bytes) where
  unfoldable pub load_error_page : Bytes → Bytes → Bytes
  unfolding or_page
  load_error_page page_path fallback =
      if empty page_path then fallback else or_page fallback (read_file page_path)

  unfoldable pub error_400 : Bytes → HttpResponse
  unfolding set_header set_body set_status
  error_400 page_path =
      page 400 (codes "Bad Request") (load_error_page page_path (codes "400 Bad Request"))
        (codes "text/html")

  unfoldable pub error_403 : Bytes → HttpResponse
  unfolding set_header set_body set_status
  error_403 page_path =
      page 403 (codes "Forbidden") (load_error_page page_path (codes "403 Forbidden"))
        (codes "text/html")

  unfoldable pub error_404 : Bytes → HttpResponse
  unfolding set_header set_body set_status
  error_404 page_path =
      page 404 (codes "Not Found") (load_error_page page_path (codes "404 Not Found"))
        (codes "text/html")

  unfoldable pub error_405 : Bytes → HttpResponse
  unfolding set_header set_body set_status
  error_405 page_path =
      page 405 (codes "Method Not Allowed")
        (load_error_page page_path (codes "405 Method Not Allowed")) (codes "text/html")

  unfoldable pub error_413 : Bytes → HttpResponse
  unfolding set_header set_body set_status
  error_413 page_path =
      page 413 (codes "Payload Too Large")
        (load_error_page page_path (codes "413 Payload Too Large")) (codes "text/html")

  unfoldable pub error_500 : Bytes → HttpResponse
  unfolding set_header set_body set_status
  error_500 page_path =
      page 500 (codes "Internal Server Error")
        (load_error_page page_path (codes "500 Internal Server Error")) (codes "text/html")

unfoldable pub success_200 : Bytes → Bytes → HttpResponse
unfolding set_header set_body set_status
success_200 body content_type = page 200 (codes "OK") body content_type

unfoldable pub success_201 : Bytes → Bytes → HttpResponse
unfolding set_header set_body set_status
success_201 body content_type = page 201 (codes "Created") body content_type

unfoldable pub success_204 : HttpResponse
unfolding set_status
success_204 = set_status 204 (codes "No Content") new_response

-- A redirection, which sets its location in front of its body.
abbrev redirect : ℕ → Bytes → Bytes → Bytes → HttpResponse
redirect status_code reason_phrase body url =
    set_header (codes "Content-Type") (codes "text/html") (
      set_body body
        (set_header (codes "Location") url (set_status status_code reason_phrase new_response)))

unfoldable pub redirect_301 : Bytes → HttpResponse
unfolding set_header set_body set_status
redirect_301 url =
    redirect 301 (codes "Moved Permanently")
      (codes "<html><body><h1>301 Moved Permanently</h1></body></html>") url

unfoldable pub redirect_302 : Bytes → HttpResponse
unfolding set_header set_body set_status
redirect_302 url =
    redirect 302 (codes "Found") (codes "<html><body><h1>302 Found</h1></body></html>") url
