-- ===== src/Config/Blocks/Ends.antt =====
-- About the loops over the lines of a block, in src/Config.cpp.
use web_server.Prelude.{
  ℕ, ◌≤◌, ◌<◌, ◌≡◌, refl, some, List, [], ◌∷◌, arith, length, Bool-cases, Option-cases, inl, inr,
}
use web_server.Prelude.Loop.{again, done, run, Falls, run_inv}
use web_server.Bytes.{Bytes, codes, same}
use web_server.Config.Lines.{tokenize, read_next_line, expect_open_brace}
use web_server.Config.Lines.Shorter.{read_next_line-lt, expect_open_brace-lt}
use web_server.Config.Directives.{parse_directive, parse_route_directive}
use web_server.Config.Blocks.{
  Reading, BlockRound, go_on, lines_left, location_line, location_round, parse_location_block,
  location_of, server_words, server_line, server_round, parse_server_block, with_route,
}
use web_server.Config.{RouteConfig, new_route, ServerConfig, Parsed, ok, refused, undefined, ◌>>=◌}

-- A block leaves fewer than `n` lines behind it.
abbrev pub Leaves : {A : Type 0} → ℕ → Parsed (Reading A) → Type 0
Leaves n (ok s) = length s.1 < n
Leaves n (refused e) = Unit
Leaves n undefined = Unit

-- A turn leaves fewer than `n` lines.
abbrev Shrinks : {A : Type 0} → ℕ → BlockRound A → Type 0
Shrinks n (again t) = length t.1 < n
Shrinks n (done v) = Leaves n v

go_on-Shrinks :
    {A B : Type 0} (n : ℕ) (rest : List Bytes) (p : Parsed A) (f : A → B)
    → length rest < n
    → Shrinks n (go_on p (λ a. (f a, rest)))
go_on-Shrinks n rest (ok a) f h = h
go_on-Shrinks n rest (refused e) f h = tt
go_on-Shrinks n rest undefined f h = tt

Leaves-mono : {A : Type 0} (m n : ℕ) (p : Parsed (Reading A)) → m ≤ n → Leaves m p → Leaves n p
Leaves-mono m n (ok s) h k = omega arith
Leaves-mono m n (refused e) h k = tt
Leaves-mono m n undefined h k = tt

-- A loop whose turns take lines ends, and so does its block.
module _ {A : Type 0} (round : Reading A → BlockRound A)
    (shrinks : (s : Reading A) → Shrinks (length s.1) (round s)) where
  block-Falls : Falls lines_left round
  block-Falls s t e = rw e at (shrinks s)

  block-Leaves : (s : Reading A) → Leaves (length s.1) (run lines_left undefined round s)
  block-Leaves s =
      run_inv lines_left undefined round block-Falls (λ t. length t.1 ≤ length s.1)
        (λ v. Leaves (length s.1) v) (λ t u h e. let f = block-Falls t u e in omega arith)
        (λ t v h e. Leaves-mono (length t.1) (length s.1) v h (rw e at (shrinks t))) s (omega arith)

location-Shrinks : (s : Reading RouteConfig) → Shrinks (length s.1) (location_round s)
unfolding location_round
location-Shrinks s = elim (Option-cases (read_next_line s.1)) [
  | inl end ↦ rw end (unfold location_line in tt)
  | inr ((line, rest), got) ↦ rw got (in_line line rest (read_next_line-lt s.1 line rest got))
]
  where
    in_line :
        (line : Bytes) (rest : List Bytes)
        → length rest < length s.1
        → Shrinks (length s.1) (location_line s.0 (some (line, rest)))
    in_line line rest h = elim (Bool-cases (same line (codes "}"))) [
      | inl close ↦ unfold location_line in rw close h
      | inr other ↦
          unfold location_line in
          rw other
            (go_on-Shrinks (length s.1) rest (parse_route_directive s.0 (tokenize line)) (λ r. r) h)
    ]

pub location-Falls : Falls lines_left location_round
location-Falls = block-Falls location_round location-Shrinks

location-Leaves :
    (lines : List Bytes) (path : Bytes) → Leaves (length lines) (parse_location_block lines path)
unfolding parse_location_block
location-Leaves lines path =
    block-Leaves location_round location-Shrinks (record new_route { path = path }, lines)

-- A location behind its brace.
inside-Leaves :
    (n : ℕ) (rest : List Bytes) (p : Parsed (List Bytes)) (path : Bytes)
    → ((inside : List Bytes) → p ≡ ok inside → length inside < length rest)
    → length rest < n
    → Leaves n (p >>= λ inside. parse_location_block inside path)
inside-Leaves n rest (ok inside) path h k =
    let b = h inside refl in
    Leaves-mono (length inside) n (parse_location_block inside path) (omega arith)
      (location-Leaves inside path)
inside-Leaves n rest (refused e) path h k = tt
inside-Leaves n rest undefined path h k = tt

with_route-Shrinks :
    (n : ℕ) (srv : ServerConfig) (p : Parsed (Reading RouteConfig))
    → Leaves n p
    → Shrinks n (go_on p (with_route srv))
with_route-Shrinks n srv (ok s) h = h
with_route-Shrinks n srv (refused e) h = tt
with_route-Shrinks n srv undefined h = tt

module _ (n : ℕ) (srv : ServerConfig) (rest : List Bytes) (h : length rest < n) where
  location_of-Shrinks : (path : Bytes) → Shrinks n (location_of srv path rest)
  unfolding location_of
  location_of-Shrinks path =
      with_route-Shrinks n srv
        (expect_open_brace rest (codes "location") >>= λ inside. parse_location_block inside path)
        (inside-Leaves n rest (expect_open_brace rest (codes "location")) path
          (expect_open_brace-lt rest (codes "location")) h)

  server_words-Shrinks : (words : List Bytes) → Shrinks n (server_words srv words rest)
  unfolding server_words
  server_words-Shrinks [] = tt
  server_words-Shrinks (key ∷ []) = elim (Bool-cases (same key (codes "location"))) [
    | inl e ↦ rw e tt
    | inr e ↦ rw e (go_on-Shrinks n rest (parse_directive srv (key ∷ [])) (λ s. s) h)
  ]
  server_words-Shrinks (key ∷ path ∷ []) = elim (Bool-cases (same key (codes "location"))) [
    | inl e ↦ rw e (location_of-Shrinks path)
    | inr e ↦ rw e (go_on-Shrinks n rest (parse_directive srv (key ∷ path ∷ [])) (λ s. s) h)
  ]
  server_words-Shrinks (key ∷ a ∷ b ∷ l) = elim (Bool-cases (same key (codes "location"))) [
    | inl e ↦ rw e tt
    | inr e ↦ rw e (go_on-Shrinks n rest (parse_directive srv (key ∷ a ∷ b ∷ l)) (λ s. s) h)
  ]

server-Shrinks : (s : Reading ServerConfig) → Shrinks (length s.1) (server_round s)
unfolding server_round
server-Shrinks s = elim (Option-cases (read_next_line s.1)) [
  | inl end ↦ rw end (unfold server_line in tt)
  | inr ((line, rest), got) ↦ rw got (in_line line rest (read_next_line-lt s.1 line rest got))
]
  where
    in_line :
        (line : Bytes) (rest : List Bytes)
        → length rest < length s.1
        → Shrinks (length s.1) (server_line s.0 (some (line, rest)))
    in_line line rest h = elim (Bool-cases (same line (codes "}"))) [
      | inl close ↦ unfold server_line in rw close h
      | inr other ↦
          unfold server_line in
          rw other (server_words-Shrinks (length s.1) s.0 rest h (tokenize line))
    ]

pub server-Falls : Falls lines_left server_round
server-Falls = block-Falls server_round server-Shrinks

pub server-Leaves :
    (lines : List Bytes) (srv : ServerConfig) → Leaves (length lines) (parse_server_block lines srv)
unfolding parse_server_block
server-Leaves lines srv = block-Leaves server_round server-Shrinks (srv, lines)
