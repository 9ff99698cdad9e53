-- ===== src/Config/Parse/Ends.antt =====
-- About the loop of `parse` in src/Config.cpp, over the servers of a file.
use web_server.Prelude.{
  ℕ, ◌+◌, ◌<◌, ◌≡◌, refl, some, List, [], ◌∷◌, arith, length, Bool-cases, Option-cases, inl, inr,
}
use web_server.Prelude.Loop.{again, done, run, loop, loop-run, Falls}
use web_server.Bytes.{Bytes, codes, same}
use web_server.Config.Lines.{tokenize, read_next_line, expect_open_brace}
use web_server.Config.Lines.Shorter.{read_next_line-lt, expect_open_brace-lt}
use web_server.Config.Blocks.{
  Reading, location_round, parse_location_block, server_round, parse_server_block, lines_left,
}
use web_server.Config.Blocks.Ends.{Leaves, location-Falls, server-Falls, server-Leaves}
use web_server.Config.Parse.{
  Config, undefined_outcome, Parsing, ParseRound, server_parsed, not_alone, top_words, top_line,
  config_round, parsing_left,
}
use web_server.Config.{new_route, ServerConfig, new_server, Parsed, ok, refused, undefined, ◌>>=◌}

abbrev Shrinks : ℕ → ParseRound → Type 0
Shrinks n (again t) = length t.lines < n
Shrinks n (done v) = Unit

module _ (n : ℕ) (c : Config) where
  parsed-Shrinks : (p : Parsed (Reading ServerConfig)) → Leaves n p → Shrinks n (server_parsed c p)
  unfolding server_parsed
  parsed-Shrinks (ok s) h = h
  parsed-Shrinks (refused e) h = tt
  parsed-Shrinks undefined h = tt

  inside-Leaves :
      (rest : List Bytes) (p : Parsed (List Bytes))
      → ((inside : List Bytes) → p ≡ ok inside → length inside < length rest)
      → length rest < n
      → Leaves n (p >>= λ inside. parse_server_block inside new_server)
  inside-Leaves rest (ok inside) h k =
      let b = h inside refl in
      shorter (parse_server_block inside new_server) (server-Leaves inside new_server) (omega arith)
    where
      shorter :
          (p : Parsed (Reading ServerConfig))
          → Leaves (length inside) p
          → length inside < n
          → Leaves n p
      shorter (ok s) l m = omega arith
      shorter (refused e) l m = tt
      shorter undefined l m = tt
  inside-Leaves rest (refused e) h k = tt
  inside-Leaves rest undefined h k = tt

  words-Shrinks : (words rest : List Bytes) → length rest < n → Shrinks n (top_words c words rest)
  unfolding top_words
  words-Shrinks [] rest h = tt
  words-Shrinks (key ∷ args) rest h = elim (Bool-cases (same key (codes "server"))) [
    | inr other ↦ rw other tt
    | inl server ↦ elim (Bool-cases (not_alone args)) [
      | inl more ↦ rw (server, more) tt
      | inr alone ↦
          rw (server, alone)
            (parsed-Shrinks _ (
              inside-Leaves rest (expect_open_brace rest (codes "server"))
                (expect_open_brace-lt rest (codes "server")) h))
    ]
  ]

config-Shrinks : (s : Parsing) → Shrinks (length s.lines) (config_round s)
unfolding config_round top_line
config-Shrinks s = elim (Option-cases (read_next_line s.lines)) [
  | inl end ↦ rw end tt
  | inr ((line, rest), got) ↦ rw got (
      words-Shrinks (length s.lines) s.config (tokenize line) rest
        (read_next_line-lt s.lines line rest got))
]

pub config-Falls : Falls parsing_left config_round
config-Falls s t e = rw e at (config-Shrinks s)

-- The loops over a file and over its blocks.
pub record DoEnd : Type 0 where
  pub of_file :
      (s : Parsing)
      → loop (length s.lines + 1) config_round s
        ≡ some (run parsing_left undefined_outcome config_round s)
  pub of_server :
      (lines : List Bytes) (srv : ServerConfig)
      → loop (length lines + 1) server_round (srv, lines) ≡ some (parse_server_block lines srv)
  pub of_location :
      (lines : List Bytes) (path : Bytes)
      → loop (length lines + 1) location_round (record new_route { path = path }, lines)
        ≡ some (parse_location_block lines path)

-- The three loops of the configuration parser, over the servers of a file, over the lines of a
-- server and over those of a location, end: each makes at most one turn for each line that is left
-- and one more, and returns what its function returns.
pub config_loops_end : DoEnd
unfolding parse_server_block parse_location_block
config_loops_end = record {
  of_file = λ s.
      loop-run parsing_left undefined_outcome config_round config-Falls (length s.lines + 1) s
        (omega arith);
  of_server = λ lines srv.
      loop-run lines_left undefined server_round server-Falls (length lines + 1) (srv, lines)
        (omega arith);
  of_location = λ lines path.
      loop-run lines_left undefined location_round location-Falls (length lines + 1)
        (record new_route { path = path }, lines) (omega arith);
}
