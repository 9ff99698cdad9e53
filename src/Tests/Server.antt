-- ===== src/Tests/Server.antt =====
-- Tests and examples of the routing of src/Server.cpp.
use web_server.Prelude.{◌≡◌, refl, false, some, none, List, [], ◌∷◌}
use web_server.Bytes.{Bytes, codes, same, starts_with}
use web_server.Config.{RouteConfig}
use web_server.Server.{is_match, match_route}
use web_server.Server.Route.{IsLongest, match_route-IsLongest}

abbrev route_at : Bytes → RouteConfig
route_at path = record {
  path = path;
  allowed_methods = [];
  root = [];
  index = [];
  autoindex = false;
  upload_store = [];
  redirect_url = [];
  redirect_code = 0;
  cgi_extension = [];
  cgi_path = [];
  client_max_body_size = 0;
  has_client_max_body_size = false;
}

abbrev routes : List RouteConfig
routes = route_at (codes "/") ∷ route_at (codes "/img") ∷ route_at (codes "/img/big") ∷ []

test_longest : match_route (codes "/img/big/a") routes ≡ some (route_at (codes "/img/big"))
unfolding match_route is_match same starts_with
test_longest = refl

-- A route ends at a slash of the target.
test_boundary : match_route (codes "/images") routes ≡ some (route_at (codes "/"))
unfolding match_route is_match same starts_with
test_boundary = refl

test_none : match_route (codes "x") routes ≡ none
unfolding match_route is_match same starts_with
test_none = refl

match_route-IsLongest_example :
    IsLongest (codes "/img/big/a") routes (match_route (codes "/img/big/a") routes)
match_route-IsLongest_example = match_route-IsLongest (codes "/img/big/a") routes
