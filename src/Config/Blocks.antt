-- ===== src/Config/Blocks.antt =====
-- The blocks of a configuration file, in src/Config.cpp. A block's function returns the lines
-- behind its closing brace.
pub mod Ends
use web_server.Prelude.{
  ℕ, ◌+◌, Bool, true, false, Option, none, some, List, [], ◌∷◌, ◌++◌, if◌then◌else◌, length,
}
use web_server.Prelude.Loop.{Round, again, done, run}
use web_server.Bytes.{Bytes, codes, same}
use web_server.Config.Lines.{tokenize, read_next_line, expect_open_brace}
use web_server.Config.Directives.{parse_directive, parse_route_directive}
use web_server.Config.{RouteConfig, new_route, ServerConfig, Parsed, ok, refused, undefined, ◌>>=◌}

-- A block that is being read: what it has set, and the lines that are left.
abbrev pub Reading : Type 0 → Type 0
Reading A = A × List Bytes

abbrev pub BlockRound : Type 0 → Type 0
BlockRound A = Round (Reading A) (Parsed (Reading A))

-- `if (!f(...)) return false`, and round again with what it gives
abbrev pub go_on : {A B : Type 0} → Parsed A → (A → B) → Round B (Parsed B)
go_on (ok a) f = again (f a)
go_on (refused e) f = done (refused e)
go_on undefined f = done undefined

abbrev pub missing_brace : {A : Type 0} → BlockRound A
missing_brace = done (refused (codes "unexpected end of config: missing '}'"))

abbrev pub lines_left : {A : Type 0} → Reading A → ℕ
lines_left s = length s.1

location_line : RouteConfig → Option (Bytes × List Bytes) → BlockRound RouteConfig
location_line out none = missing_brace
location_line out (some (trimmed, rest)) =
    if same trimmed (codes "}")
    then done (ok (out, rest))
    else go_on (parse_route_directive out (tokenize trimmed)) (λ route. (route, rest))

-- One turn of the loop of `parse_location_block`.
unfoldable pub location_round : Reading RouteConfig → BlockRound RouteConfig
unfolding location_line
location_round s = location_line s.0 (read_next_line s.1)

unfoldable pub parse_location_block : List Bytes → Bytes → Parsed (Reading RouteConfig)
parse_location_block lines path =
    run lines_left undefined location_round (record new_route { path = path }, lines)

abbrev with_route : ServerConfig → Reading RouteConfig → Reading ServerConfig
with_route srv block = (record srv { routes = srv.routes ++ block.0 ∷ [] }, block.1)

-- A `location` line, with its path.
location_of : ServerConfig → Bytes → List Bytes → BlockRound ServerConfig
location_of srv path rest =
    go_on (expect_open_brace rest (codes "location") >>= λ inside. parse_location_block inside path)
      (with_route srv)

server_words : ServerConfig → List Bytes → List Bytes → BlockRound ServerConfig
unfolding location_of
server_words srv [] rest = done undefined
server_words srv (key ∷ path ∷ []) rest =
    if same key (codes "location")
    then location_of srv path rest
    else go_on (parse_directive srv (key ∷ path ∷ [])) (λ srv. (srv, rest))
server_words srv (key ∷ args) rest =
    if same key (codes "location")
    then done (refused (codes "location requires exactly a path"))
    else go_on (parse_directive srv (key ∷ args)) (λ srv. (srv, rest))

server_line : ServerConfig → Option (Bytes × List Bytes) → BlockRound ServerConfig
unfolding server_words
server_line srv none = missing_brace
server_line srv (some (trimmed, rest)) =
    if same trimmed (codes "}")
    then done (ok (srv, rest))
    else server_words srv (tokenize trimmed) rest

-- One turn of the loop of `parse_server_block`.
unfoldable pub server_round : Reading ServerConfig → BlockRound ServerConfig
unfolding server_line
server_round s = server_line s.0 (read_next_line s.1)

unfoldable pub parse_server_block : List Bytes → ServerConfig → Parsed (Reading ServerConfig)
parse_server_block lines srv = run lines_left undefined server_round (srv, lines)
