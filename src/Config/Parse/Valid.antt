-- ===== src/Config/Parse/Valid.antt =====
-- About the configurations that `parse` of src/Config.cpp accepts, and the lines that it has no
-- defined behaviour on.
use web_server.Prelude.{
  ◌≡◌, ◌≢◌, refl, true, false, Option, none, some, List, [], ◌∷◌, ◌++◌, Bool-cases, Option-cases,
  inl, inr,
}
use web_server.Prelude.Loop.{again, done, run_inv, run-done}
use web_server.Bytes.{Bytes, codes, same}
use web_server.Config.Lines.{
  clean_line, lines_of, tokenize, strip_semicolon, words_from, read_next_line,
}
use web_server.Config.Blocks.{Reading}
use web_server.Config.Validate.{validate}
use web_server.Config.Validate.Sound.{AreServers, AreApart, validate_iff}
use web_server.Config.Parse.Ends.{config-Falls}
use web_server.Config.Parse.{
  Config, new_config, Outcome, returns, undefined_outcome, Parsing, ParseRound, validated,
  end_of_file, server_parsed, not_alone, top_words, top_line, config_round, parsing_left,
  parse_text, parse,
}
use web_server.Config.{ServerConfig, Parsed, ok, refused, undefined}

-- What a configuration has that is accepted.
pub record IsConfig (servers : List ServerConfig) : Type 0 where
  pub nonempty : servers ≢ []
  pub well_formed : AreServers servers
  pub apart : AreApart servers

-- An accepted configuration is one; nothing is said of another outcome.
abbrev pub IsSound : Outcome → Type 0
IsSound (returns true c) = IsConfig c.servers
IsSound (returns false c) = Unit
IsSound undefined_outcome = Unit

abbrev HasServer : Parsing → Type 0
HasServer s = s.found_server ≡ true → s.config.servers ≢ []

-- What a turn keeps.
abbrev TurnKeeps : ParseRound → Type 0
TurnKeeps (again t) = HasServer t
TurnKeeps (done v) = IsSound v

append-ne-nil : (l : List ServerConfig) (srv : ServerConfig) → l ++ srv ∷ [] ≢ []
append-ne-nil [] srv e = cc
append-ne-nil (s ∷ l) srv e = cc

validated-IsSound :
    (c : Config) (v : Option Bytes)
    → validate c.servers ≡ v
    → c.servers ≢ []
    → IsSound (validated c v)
unfolding validated
validated-IsSound c none e h =
    let both = (validate_iff c.servers).0 e in
    record { nonempty = h; well_formed = both.0; apart = both.1 }
validated-IsSound c (some m) e h = tt

end-IsSound : (s : Parsing) → HasServer s → IsSound (end_of_file s)
unfolding end_of_file
end-IsSound s h = elim (Bool-cases s.found_server) [
  | inl found ↦ rw found (validated-IsSound s.config (validate s.config.servers) refl (h found))
  | inr missing ↦ rw missing tt
]

parsed-TurnKeeps : (c : Config) (p : Parsed (Reading ServerConfig)) → TurnKeeps (server_parsed c p)
unfolding server_parsed
parsed-TurnKeeps c (ok s) = λ e. append-ne-nil c.servers s.0
parsed-TurnKeeps c (refused e) = tt
parsed-TurnKeeps c undefined = tt

words-TurnKeeps : (c : Config) (words rest : List Bytes) → TurnKeeps (top_words c words rest)
unfolding top_words
words-TurnKeeps c [] rest = tt
words-TurnKeeps c (key ∷ args) rest = elim (Bool-cases (same key (codes "server"))) [
  | inr other ↦ rw other tt
  | inl server ↦ elim (Bool-cases (not_alone args)) [
    | inl more ↦ rw (server, more) tt
    | inr alone ↦ rw (server, alone) (parsed-TurnKeeps c _)
  ]
]

round-TurnKeeps : (s : Parsing) → HasServer s → TurnKeeps (config_round s)
unfolding config_round top_line
round-TurnKeeps s h = elim (Option-cases (read_next_line s.lines)) [
  | inl end ↦ rw end (end-IsSound s h)
  | inr ((line, rest), got) ↦ rw got (words-TurnKeeps s.config (tokenize line) rest)
]

-- A configuration that `parse` accepts, from a new object, has a server; each port is between 1 and
-- 65535, each route has a path that starts with a slash and redirects with 301 or 302 or not at
-- all, and no two servers listen on the same host and port.
pub parse-IsSound :
    (read_file : Bytes → Option Bytes) (filepath : Bytes)
    → IsSound (parse read_file filepath new_config)
unfolding parse
parse-IsSound read_file filepath = go (read_file filepath)
  where
    go : (text : Option Bytes) → IsSound (parse_text new_config filepath text)
    go none = unfold parse_text in tt
    go (some text) =
        unfold parse_text in
        run_inv parsing_left undefined_outcome config_round config-Falls HasServer IsSound
          (λ s t h e. rw e at (round-TurnKeeps s h)) (λ s v h e. rw e at (round-TurnKeeps s h))
          (record { config = new_config; found_server = false; lines = lines_of text }) (λ e. cc)

no_words : tokenize (codes ";") ≡ []
unfolding tokenize strip_semicolon words_from
no_words = refl

read_lone :
    (line : Bytes) (rest : List Bytes)
    → clean_line line ≡ codes ";"
    → read_next_line (line ∷ rest) ≡ some (codes ";", rest)
unfolding read_next_line
read_lone line rest lone = rw lone

lone_round :
    (c : Config) (line : Bytes) (rest : List Bytes)
    → clean_line line ≡ codes ";"
    → config_round (record { config = c; found_server = false; lines = line ∷ rest })
      ≡ done undefined_outcome
unfolding config_round top_line top_words
lone_round c line rest lone = rw (read_lone line rest lone, no_words)

-- If the first line of the file holds, cleaned, a lone semicolon, the behaviour of `parse` from a new
-- object is undefined, whatever else the file holds: the line has no word, and `words[0]` is read.
pub lone_semicolon_undefined :
    (read_file : Bytes → Option Bytes) (filepath text line : Bytes) (rest : List Bytes)
    → read_file filepath ≡ some text
    → lines_of text ≡ line ∷ rest
    → clean_line line ≡ codes ";"
    → parse read_file filepath new_config ≡ undefined_outcome
unfolding parse parse_text
lone_semicolon_undefined read_file filepath text line rest file lines lone =
    rw (file, lines)
      (run-done parsing_left undefined_outcome config_round config-Falls
        (lone_round new_config line rest lone))
