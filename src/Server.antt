-- ===== src/Server.antt =====
-- src/Server.cpp: the route of a request.
pub mod Covers
pub mod Route
pub mod State
pub mod Served
pub mod Remove
pub mod CgiOutput
pub mod CgiInput
pub mod Dispatch
pub mod Read
pub mod Output
pub mod Start
pub mod Poll
use web_server.Prelude.{
  ℕ, ◌+◌, Bool, true, false, ◌&&◌, ◌||◌, Option, none, some, List, [], ◌∷◌, if◌then◌else◌, length,
  get_elem?, ltb, ◌==◌,
}
use web_server.Bytes.{Bytes, codes, same, starts_with}
use web_server.Config.{RouteConfig}

-- uri[i] == '/'; the byte behind the end is NUL.
slash_at : Option ℕ → Bool
slash_at none = false
slash_at (some c) = c == b'/'

-- route.path[route.path.size() - 1] == '/'. An empty path, where the source reads in front of the
-- text, is never taken, since its length is not above `best_length`.
ends_with_slash : Bytes → Bool
ends_with_slash [] = false
ends_with_slash (c ∷ []) = c == b'/'
ends_with_slash (c ∷ d ∷ path) = ends_with_slash (d ∷ path)

unfoldable pub is_match : Bytes → RouteConfig → Bool
unfolding slash_at ends_with_slash
is_match uri route =
    starts_with route.path uri
    && (length uri == length route.path
        || slash_at (get_elem? uri (length route.path))
        || same route.path (codes "/")
        || ends_with_slash route.path)

-- `best_match` and `best_length`
abbrev pub Best : Type 0
Best = Option RouteConfig × ℕ

match_step : Bytes → RouteConfig → Best → Best
match_step uri route best =
    if is_match uri route && ltb best.1 (length route.path)
    then (some route, length route.path)
    else best

match_from : Bytes → List RouteConfig → Best → Best
unfolding match_step
match_from uri [] best = best
match_from uri (route ∷ routes) best = match_from uri routes (match_step uri route best)

unfoldable pub match_route : Bytes → List RouteConfig → Option RouteConfig
unfolding match_from
match_route uri routes = (match_from uri routes (none, 0)).0
