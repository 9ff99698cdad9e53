-- ===== src/Main.antt =====
-- src/main.cpp and src/init.cpp: from the arguments to a server that runs.
pub mod Running
use web_server.Prelude.{ℕ, true, false, Option, none, some, List, [], ◌∷◌, if◌then◌else◌}
use web_server.Bytes.{Bytes, codes}
use web_server.Config.{ServerConfig}
use web_server.Config.Parse.{Outcome, returns, undefined_outcome, new_config, parse}
use web_server.Server.State.{System, Server}
use web_server.Server.Start.{SocketReply, Start, new_start, new_server_of}

-- The arguments behind the program's name: the path of the configuration, or `none` with more than
-- one.
unfoldable pub init_args : List Bytes → Option Bytes
init_args [] = some (codes "default.conf")
init_args (path ∷ []) = some path
init_args (_ ∷ _ ∷ _) = none

-- What the program does: it returns EXIT_FAILURE, or it calls `start` of a server.
pub data Program : Type 0 where
  exit_failure : Program
  starts : Server → Program
  undefined_program : Program

started_program : Start → List ServerConfig → System → Program
started_program start configs sys =
    if start.init_ok then starts (new_server_of start configs sys) else exit_failure

-- Behind `init_config`.
configured : Outcome → (ℕ → SocketReply) → System → Program
unfolding started_program
configured (returns true c) reply sys = started_program (new_start reply c.servers) c.servers sys
configured (returns false c) reply sys = exit_failure
configured undefined_outcome reply sys = undefined_program

with_path : Option Bytes → (Bytes → Option Bytes) → (ℕ → SocketReply) → System → Program
unfolding configured
with_path none read_file reply sys = exit_failure
with_path (some path) read_file reply sys = configured (parse read_file path new_config) reply sys

unfoldable pub main : List Bytes → (Bytes → Option Bytes) → (ℕ → SocketReply) → System → Program
unfolding with_path
main args read_file reply sys = with_path (init_args args) read_file reply sys
