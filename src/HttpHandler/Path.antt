-- ===== src/HttpHandler/Path.antt =====
-- The URI utilities of src/HTTPHandler.cpp.
pub mod Clean
use web_server.Prelude.{
  ℕ, Bool, true, false, ◌&&◌, ◌||◌, Option, none, some, List, [], ◌∷◌, ◌++◌, if◌then◌else◌, length,
  take, drop, ◌==◌,
}
use web_server.Bytes.{Bytes, codes, same, empty, starts_with, find_char}

cut_query : Bytes → Option ℕ → Bytes
cut_query uri none = uri
cut_query uri (some pos) = take pos uri

unfoldable pub strip_query_string : Bytes → Bytes
unfolding cut_query
strip_query_string uri = cut_query uri (find_char b'?' uri)

-- `if (stripped.empty() || stripped[0] != '/')`
with_slash : Bytes → Bytes
with_slash [] = codes "/"
with_slash (c ∷ s) = if c == b'/' then c ∷ s else b'/' ∷ c ∷ s

unfoldable pub strip_route_prefix : Bytes → Bytes → Bytes
unfolding with_slash
strip_route_prefix uri route_path =
    if same route_path (codes "/") || empty route_path
    then uri
    else if starts_with route_path uri
    then with_slash (drop (length route_path) uri)
    else uri

-- `pop_back` of a vector; it is called where the vector is not empty.
pop_back : List Bytes → List Bytes
pop_back [] = []
pop_back (s ∷ []) = []
pop_back (s ∷ t ∷ l) = s ∷ pop_back (t ∷ l)

unfoldable pub process_path_segment : List Bytes → Bytes → List Bytes
unfolding pop_back
process_path_segment segments segment =
    if same segment (codes "..")
    then pop_back segments
    else if same segment (codes ".")
    then segments
    else segments ++ segment ∷ []

-- `segments` and `segment`
abbrev pub Parts : Type 0
Parts = List Bytes × Bytes

end_segment : Parts → List Bytes
end_segment p = if empty p.1 then p.0 else process_path_segment p.0 p.1

-- One turn of the loop, on the byte `c`.
next_byte : ℕ → Parts → Parts
unfolding end_segment
next_byte c p = if c == b'/' then (end_segment p, []) else (p.0, p.1 ++ c ∷ [])

path_segments : Parts → Bytes → List Bytes
unfolding end_segment next_byte
path_segments p [] = end_segment p
path_segments p (c ∷ path) = path_segments (next_byte c p) path

-- The segments with `/` between them.
abbrev pub join : List Bytes → Bytes
join [] = []
join (s ∷ []) = s
join (s ∷ t ∷ l) = s ++ b'/' ∷ join (t ∷ l)

unfoldable pub sanitize_path : Bytes → Bytes
unfolding path_segments
sanitize_path path = b'/' ∷ join (path_segments ([], []) path)
