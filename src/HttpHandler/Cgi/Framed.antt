-- ===== src/HttpHandler/Cgi/Framed.antt =====
-- About `parse_cgi_response` of src/HTTPHandler.cpp and the length of a body.
use web_server.Prelude.{Option, none, some}
use web_server.Bytes.{Bytes}
use web_server.HttpResponse.Framed.{IsFramed, pages_framed, set_body-IsFramed}
use web_server.HttpHandler.Cgi.{cgi_parts, split_cgi, parse_cgi_response, parse_cgi_headers}

-- A header of the program that says another length is replaced.
pub parse_cgi_response-IsFramed :
    (read_file : Bytes → Option Bytes) (raw error_page : Bytes)
    → IsFramed (parse_cgi_response read_file raw error_page)
unfolding parse_cgi_response
parse_cgi_response-IsFramed read_file raw error_page = go (split_cgi raw)
  where
    go : (parts : Option (Bytes × Bytes)) → IsFramed (cgi_parts read_file error_page parts)
    go none = unfold cgi_parts in (pages_framed read_file).server_error error_page
    go (some (head, body)) = unfold cgi_parts in set_body-IsFramed body (parse_cgi_headers head)
