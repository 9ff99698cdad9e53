-- ===== src/HttpHandler/Post.antt =====
-- src/HTTPHandler.cpp: POST, with the upload of a file and of a form.
pub mod Framed
pub mod UrlDecode
use web_server.Prelude.{
  ℕ, suc, ◌+◌, ◌-◌, ◌*◌, ◌%◌, Bool, true, false, ◌&&◌, ◌||◌, Option, none, some, List, [], ◌∷◌,
  ◌++◌, if◌then◌else◌, length, drop, take, ◌==◌,
}
use web_server.Bytes.{
  Bytes, codes, same, empty, find, find_char, find_from, find_char_from, substr, is_some, contains,
}
use web_server.Bytes.Decimal.{print_decimal, is_space}
use web_server.Config.{RouteConfig}
use web_server.HttpRequest.{HttpRequest, get_header_value}
use web_server.HttpRequest.Chunked.{is_hex, hex_digit}
use web_server.HttpResponse.{HttpResponse, success_200, success_201}
use web_server.HttpHandler.Files.{Files, FileCall, write_file, append_file}
use web_server.HttpHandler.Get.{index_or}

-- iss >> std::hex >> hex_val on two characters, cast to `char`; `none` where the stream fails. A
-- blank is skipped, a sign is read, `0x` is a prefix without digits, and a character that is no
-- digit ends the number.
unfoldable pub read_hex : ℕ → ℕ → Option ℕ
read_hex a b =
    if is_hex a
    then (if is_hex b
        then some (16 * hex_digit a + hex_digit b)
        else if a == b'0' && (b == b'x' || b == b'X')
        then none
        else some (hex_digit a))
    else if is_hex b && (is_space a || a == b'+')
    then some (hex_digit b)
    else if is_hex b && a == b'-'
    then some ((256 - hex_digit b) % 256)
    else none

plus_or : ℕ → ℕ
plus_or c = if c == b'+' then b' ' else c

-- The loop of `url_decode`.
unfoldable pub url_decode : Bytes → Bytes
unfolding read_hex plus_or
url_decode (c ∷ a ∷ b ∷ value) =
    let rest = url_decode (a ∷ b ∷ value) in
    let skipped = url_decode value in
    if c == b'%'
    then elim (read_hex a b) [ some hex_val ↦ hex_val ∷ skipped | none ↦ c ∷ rest ]
    else plus_or c ∷ rest
url_decode (c ∷ value) = plus_or c ∷ url_decode value
url_decode [] = []

-- The parts of an uploaded file that are found, each behind the one before.
pub record Upload : Type 0 where
  pub filename : Bytes
  pub file_data : Bytes

data_end_or : Bytes → Option ℕ → ℕ
data_end_or body none = length body
data_end_or body (some data_end) = data_end

upload_data : Bytes → Bytes → Bytes → Option ℕ → Option Upload
unfolding data_end_or
upload_data boundary body filename none = none
upload_data boundary body filename (some at) =
    let data_start = at + 4 in
    let data_end =
      data_end_or body (find_from (codes "\r\n--" ++ drop 2 boundary) body data_start) in
    some
      (record { filename = filename; file_data = substr body data_start (data_end - data_start) })

-- With no closing quote `filename_end` is npos, and nothing is found behind it.
upload_named : Bytes → Bytes → ℕ → Option ℕ → Option Upload
unfolding upload_data
upload_named boundary body filename_start none = none
upload_named boundary body filename_start (some filename_end) =
    upload_data boundary body (substr body filename_start (filename_end - filename_start))
      (find_from (codes "\r\n\r\n") body filename_end)

upload_at : Bytes → Bytes → Option ℕ → Option Upload
unfolding upload_named
upload_at boundary body none = none
upload_at boundary body (some filename_pos) =
    let filename_start = filename_pos + 10 in
    upload_named boundary body filename_start (find_char_from b'"' body filename_start)

upload_with : Bytes → Bytes → Option ℕ → Option Upload
unfolding upload_at
upload_with content_type body none = none
upload_with content_type body (some boundary_pos) =
    upload_at (codes "--" ++ drop (boundary_pos + 9) content_type) body
      (find (codes "filename=\"") body)

unfoldable pub find_upload : Bytes → Bytes → Option Upload
unfolding upload_with
find_upload content_type body =
    upload_with content_type body (find (codes "boundary=") content_type)

-- The answer at the end of the function.
abbrev received : Bytes → List FileCall × HttpResponse
received body = (
  [],
  success_200
      (codes "<html><body><h1>200 OK</h1><p>Body received: "
        ++ (print_decimal (length body) ++ codes " bytes</p></body></html>"))
      (codes "text/html"),
)

module _ (fs : Files) where
  post_upload : Bytes → Bytes → Option Upload → List FileCall × HttpResponse
  post_upload uploads_dir body none = received body
  post_upload uploads_dir body (some u) =
      let upload_path = uploads_dir ++ (codes "/" ++ u.filename) in
      if fs.can_write upload_path
      then (
        write_file upload_path u.file_data ∷ [],
        success_201
            (codes "<html><body><h1>201 Created</h1><p>File uploaded: "
              ++ (u.filename ++ codes "</p></body></html>"))
            (codes "text/html"),
      )
      else received body

  post_form : Bytes → Bytes → List FileCall × HttpResponse
  post_form uploads_dir body =
      let decoded_body = url_decode body in
      let upload_path = uploads_dir ++ codes "/form_data.txt" in
      if fs.can_append upload_path
      then (
        append_file upload_path (decoded_body ++ codes "\n") ∷ [],
        success_201
            (codes "<html><body><h1>201 Created</h1><p>Data received: "
              ++ (decoded_body ++ codes "</p></body></html>"))
            (codes "text/html"),
      )
      else received body

  unfoldable pub handle_post : HttpRequest → RouteConfig → List FileCall × HttpResponse
  unfolding post_upload post_form
  handle_post request route =
      let content_type = get_header_value request (codes "content-type") in
      let uploads_dir = index_or (codes "uploads") route.upload_store in
      if contains (codes "multipart/form-data") content_type
      then post_upload uploads_dir request.body (find_upload content_type request.body)
      else if contains (codes "application/x-www-form-urlencoded") content_type
      then post_form uploads_dir request.body
      else received request.body
