-- ===== src/Tests/Config.antt =====
-- Tests and examples of src/Config.cpp.
use web_server.Prelude.{◌≡◌, ◌↔◌, refl, true, false, Option, some, none, [], ◌∷◌, arith}
use web_server.Prelude.Loop.{run, loop}
use web_server.Bytes.{Bytes, codes, same, find_char, find_first_not_of, find_last_not_of}
use web_server.Bytes.Decimal.{digits_value, skip_space, print_decimal}
use web_server.StdMap.{insert}
use web_server.HttpResponse.{print_int}
use web_server.Config.Lines.{
  lines_of, clean_line, strip_semicolon, words_from, tokenize, read_next_line, expect_args,
  expect_open_brace,
}
use web_server.Config.Numbers.{read_signed, read_int, read_size, parse_size}
use web_server.Config.Numbers.Sizes.{AreSizes, parse_size-AreSizes}
use web_server.Config.Directives.{
  parse_listen, parse_directive, parse_route_string_directive, parse_autoindex, parse_allow_methods,
  parse_return, parse_route_directive,
}
use web_server.Config.Blocks.{
  location_round, parse_location_block, server_round, parse_server_block,
}
use web_server.Config.Validate.{
  is_rootless, check_routes, is_port_bad, check_servers, check_listen, check_duplicates, validate,
}
use web_server.Config.Validate.Sound.{AreServers, AreApart, validate_iff}
use web_server.Config.Parse.{new_config, returns, undefined_outcome, config_round, parse}
use web_server.Config.Parse.Valid.{IsSound, parse-IsSound, lone_semicolon_undefined}
use web_server.Config.{new_route, new_server, ServerConfig, ok}

-- Everything that a run of the configuration parser computes with.
unfoldable pub configuration : Unit {0}
unfolding run loop same find_char find_first_not_of find_last_not_of digits_value skip_space insert
    print_int print_decimal lines_of clean_line strip_semicolon words_from tokenize read_next_line
    expect_args expect_open_brace read_signed read_int read_size parse_size parse_listen
    parse_directive parse_route_string_directive parse_autoindex parse_allow_methods parse_return
    parse_route_directive location_round parse_location_block server_round parse_server_block
    is_rootless check_routes is_port_bad check_servers check_listen check_duplicates validate
    config_round parse
configuration = tt

abbrev pub file : Bytes → Bytes → Option Bytes
file text path = some text

abbrev pub small_text : Bytes
small_text = codes "# one\nserver\n{\n\tlisten a:80;\nlocation /x\n {\nautoindex on\n}\n\n}\n"

abbrev pub small_server : ServerConfig
small_server = record new_server {
  host = codes "a";
  port = 80;
  has_listen = true;
  routes = record new_route { path = codes "/x"; autoindex = true } ∷ [];
}

test_parse :
    parse (file small_text) (codes "c") new_config
    ≡ returns true (record { servers = small_server ∷ []; error = [] })
unfolding configuration
test_parse = refl

test_unclosed :
    parse (file (codes "server\n{\nlisten 80\n")) (codes "c") new_config
    ≡ returns false (record { servers = []; error = codes "unexpected end of config: missing '}'" })
unfolding configuration
test_unclosed = refl

-- What stands behind the digits of a port is passed over.
test_port : read_int (codes "80abc") ≡ some 80
unfolding configuration
test_port = refl

-- 2 ^ 44 megabytes are no limit.
test_wrap : parse_size (codes "17592186044416M") ≡ ok 0
unfolding configuration
test_wrap = refl

-- A negative size is a large one.
test_negative : parse_size (codes "-1") ≡ ok 18446744073709551615
unfolding configuration
test_negative = refl

parse-IsSound_example : IsSound (parse (file small_text) (codes "c") new_config)
parse-IsSound_example = parse-IsSound (file small_text) (codes "c")

lone_semicolon_undefined_example :
    parse (file (codes " ; \nserver\n")) (codes "c") new_config ≡ undefined_outcome
unfolding configuration
lone_semicolon_undefined_example =
    lone_semicolon_undefined (file (codes " ; \nserver\n")) (codes "c") (codes " ; \nserver\n")
      (codes " ; ") (codes "server" ∷ []) refl refl refl

validate_iff_example :
    (validate (small_server ∷ []) ≡ none)
    ↔ (AreServers (small_server ∷ []) × AreApart (small_server ∷ []))
validate_iff_example = validate_iff (small_server ∷ [])

parse_size-AreSizes_example : AreSizes 17592186044416
parse_size-AreSizes_example = parse_size-AreSizes 17592186044416 (omega arith)
