-- ===== src/HttpHandler/Post/Framed.antt =====
-- About `handle_post` of src/HTTPHandler.cpp and the length of a body.
use web_server.Prelude.{Option, none, some, Bool-cases, inl, inr, ◌++◌}
use web_server.Bytes.{Bytes, codes, contains}
use web_server.Config.{RouteConfig}
use web_server.HttpRequest.{HttpRequest, get_header_value}
use web_server.HttpResponse.Framed.{IsFramed, pages_framed}
use web_server.HttpHandler.Files.{Files}
use web_server.HttpHandler.Post.{Upload, received, post_upload, post_form, find_upload, handle_post}

module _ (fs : Files) where
  received-IsFramed : (body : Bytes) → IsFramed (received body).1
  received-IsFramed body = (pages_framed fs.read_file).ok _ (codes "text/html")

  post_upload-IsFramed :
      (dir body : Bytes) (u : Option Upload) → IsFramed (post_upload fs dir body u).1
  unfolding post_upload
  post_upload-IsFramed dir body none = received-IsFramed body
  post_upload-IsFramed dir body (some u) =
      elim (Bool-cases (fs.can_write (dir ++ (codes "/" ++ u.filename)))) [
        | inl can ↦ rw can ((pages_framed fs.read_file).created _ (codes "text/html"))
        | inr cannot ↦ rw cannot (received-IsFramed body)
      ]

  post_form-IsFramed : (dir body : Bytes) → IsFramed (post_form fs dir body).1
  unfolding post_form
  post_form-IsFramed dir body = elim (Bool-cases (fs.can_append (dir ++ codes "/form_data.txt"))) [
    | inl can ↦ rw can ((pages_framed fs.read_file).created _ (codes "text/html"))
    | inr cannot ↦ rw cannot (received-IsFramed body)
  ]

  pub handle_post-IsFramed :
      (request : HttpRequest) (route : RouteConfig) → IsFramed (handle_post fs request route).1
  unfolding handle_post
  handle_post-IsFramed request route =
      let kind = get_header_value request (codes "content-type") in
      elim (Bool-cases (contains (codes "multipart/form-data") kind)) [
        | inl parts ↦ rw parts (post_upload-IsFramed _ request.body (find_upload kind request.body))
        | inr other ↦
            elim (Bool-cases (contains (codes "application/x-www-form-urlencoded") kind)) [
              | inl form ↦ rw (other, form) (post_form-IsFramed _ request.body)
              | inr plain ↦ rw (other, plain) (received-IsFramed request.body)
            ]
      ]
