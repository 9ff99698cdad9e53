-- ===== src/Config/Parse.antt =====
-- `parse` of src/Config.cpp. The file is a parameter: its text, or `none` where it does not open.
pub mod Ends
pub mod Valid
use web_server.Prelude.{
  ℕ, Bool, true, false, Option, none, some, List, [], ◌∷◌, ◌++◌, if◌then◌else◌, length,
}
use web_server.Prelude.Loop.{Round, again, done, run}
use web_server.Bytes.{Bytes, codes, same}
use web_server.Config.Lines.{lines_of, tokenize, read_next_line, expect_open_brace}
use web_server.Config.Blocks.{Reading, parse_server_block}
use web_server.Config.Validate.{validate}
use web_server.Config.{ServerConfig, new_server, Parsed, ok, refused, undefined, ◌>>=◌}

-- The object: `servers_` and `error_`.
pub record Config : Type 0 where
  pub servers : List ServerConfig
  pub error : Bytes

abbrev pub new_config : Config
new_config = record { servers = []; error = [] }

-- How a call ends: with a Boolean and the object that is left, or by undefined behaviour.
pub data Outcome : Type 0 where
  returns : Bool → Config → Outcome
  undefined_outcome : Outcome

pub record Parsing : Type 0 where
  pub config : Config
  pub found_server : Bool
  pub lines : List Bytes

abbrev pub ParseRound : Type 0
ParseRound = Round Parsing Outcome

abbrev pub fails : Config → Bytes → Outcome
fails c e = returns false (record c { error = e })

validated : Config → Option Bytes → Outcome
validated c none = returns true c
validated c (some e) = fails c e

end_of_file : Parsing → Outcome
unfolding validated
end_of_file s =
    if s.found_server
    then validated s.config (validate s.config.servers)
    else fails s.config (codes "config file is empty")

server_parsed : Config → Parsed (Reading ServerConfig) → ParseRound
server_parsed c (ok (srv, rest)) = again (record {
  config = record c { servers = c.servers ++ srv ∷ [] };
  found_server = true;
  lines = rest;
})
server_parsed c (refused e) = done (fails c e)
server_parsed c undefined = done undefined_outcome

not_alone : List Bytes → Bool
not_alone [] = false
not_alone (_ ∷ _) = true

top_words : Config → List Bytes → List Bytes → ParseRound
unfolding server_parsed not_alone
top_words c [] rest = done undefined_outcome
top_words c (key ∷ args) rest =
    if same key (codes "server")
    then (if not_alone args
        then done (fails c (codes "expected 'server' alone on its line"))
        else server_parsed c (
            expect_open_brace rest (codes "server") >>= λ inside.
            parse_server_block inside new_server))
    else done (fails c (codes "expected 'server' block, got '" ++ (key ++ codes "'")))

top_line : Parsing → Option (Bytes × List Bytes) → ParseRound
unfolding top_words end_of_file
top_line s none = done (end_of_file s)
top_line s (some (trimmed, rest)) = top_words s.config (tokenize trimmed) rest

-- One turn of the loop of `parse`.
unfoldable pub config_round : Parsing → ParseRound
unfolding top_line
config_round s = top_line s (read_next_line s.lines)

abbrev pub parsing_left : Parsing → ℕ
parsing_left s = length s.lines

parse_text : Config → Bytes → Option Bytes → Outcome
parse_text c filepath none = fails c (codes "cannot open config file: " ++ filepath)
parse_text c filepath (some text) =
    run parsing_left undefined_outcome config_round
      (record { config = c; found_server = false; lines = lines_of text })

unfoldable pub parse : (Bytes → Option Bytes) → Bytes → Config → Outcome
unfolding parse_text
parse read_file filepath c = parse_text c filepath (read_file filepath)
