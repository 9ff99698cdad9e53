-- ===== src/HttpHandler/Get/Confined.antt =====
-- About the paths that `handle_delete` of src/HTTPHandler.cpp removes.
use web_server.Prelude.{
  ℕ, ◌≡◌, ◌≢◌, refl, ap, ◌∙◌, true, false, Bool, Option, none, some, List, [], ◌∷◌, ◌++◌,
  Bool-cases, ◌⊎◌, inl, inr,
}
use web_server.Bytes.{Bytes, codes, same}
use web_server.Bytes.Search.{same_refl}
use web_server.Config.{RouteConfig}
use web_server.HttpRequest.{HttpRequest}
use web_server.HttpHandler.Path.{join, strip_route_prefix, strip_query_string}
use web_server.HttpHandler.Path.Clean.{AreNames, sanitize_path-AreNames}
use web_server.HttpHandler.Files.{Files, FileCall, unlink}
use web_server.HttpHandler.Get.{delete_file, delete_at, handle_delete, target_of, root_dir}

-- No call, or one that removes `path`.
abbrev Removes : Bytes → List FileCall → Type 0
Removes path calls = (calls ≡ []) ⊎ (calls ≡ unlink path ∷ [])

-- No call, or one that removes an entry named by one name or more below the directory `root`.
abbrev pub IsConfined : Bytes → List FileCall → Type 0
IsConfined root calls =
    (calls ≡ [])
    ⊎ ((l : List Bytes) × AreNames l × (l ≢ []) × (calls ≡ unlink (root ++ b'/' ∷ join l) ∷ []))

not_top :
    (target : Bytes) (l : List Bytes)
    → target ≡ b'/' ∷ join l
    → same target (codes "/") ≡ false
    → l ≢ []
not_top target l e h k =
    let top : target ≡ codes "/" = e ∙ ap (λ m. b'/' ∷ join m) k in
    let bad = rw top at h in let self = same_refl (codes "/") in cc

module _ (fs : Files) (error_page : ℕ → Bytes) where
  delete_at-Removes :
      (target path : Bytes) (mode : Option Bool)
      → Removes path (delete_at fs error_page target path mode).0
  unfolding delete_at delete_file
  delete_at-Removes target path none = inl refl
  delete_at-Removes target path (some true) = inl refl
  delete_at-Removes target path (some false) = elim (Bool-cases (fs.exists path)) [
    | inr absent ↦ inl (rw absent)
    | inl there ↦ elim (Bool-cases (fs.writable path)) [
      | inr closed ↦ inl (rw (there, closed))
      | inl free ↦ elim (Bool-cases (fs.can_unlink path)) [
        | inr kept ↦ inr (rw (there, free, kept))
        | inl gone ↦ inr (rw (there, free, gone))
      ]
    ]
  ]

  -- Whatever the target of the request, DELETE removes at most one file, and its path is the root
  -- directory of the route, a slash, and one or more names with a slash between them; none of
  -- these is empty, `.` or `..`.
  pub handle_delete-IsConfined :
      (request : HttpRequest) (route : RouteConfig)
      → IsConfined (root_dir route) (handle_delete fs error_page request route).0
  unfolding handle_delete
  handle_delete-IsConfined request route =
      let target = target_of request route in
      let path = root_dir route ++ target in
      let (l, names, e) =
        sanitize_path-AreNames
          (strip_route_prefix (strip_query_string request.request_target) route.path) in
      elim (Bool-cases (same target (codes "/"))) [
        | inl top ↦ inl (rw top)
        | inr other ↦ elim (delete_at-Removes target path (fs.stat path)) [
          | inl none_ ↦ inl (rw other none_)
          | inr one ↦ inr (
            l,
            names,
            not_top target l e other,
            rw other (one ∙ ap (λ t. unlink (root_dir route ++ t) ∷ []) e),
          )
        ]
      ]
