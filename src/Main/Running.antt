-- ===== src/Main/Running.antt =====
-- About the server that `main` of src/main.cpp starts.
use web_server.Prelude.{
  ℕ, ◌<◌, ◌≡◌, ◌≢◌, refl, ap, true, false, Option, none, some, inl, inr, List, [], ◌∷◌, arith,
  length, Bool-cases,
}
use mathlib.Core.Path.{subst}
use web_server.Bytes.{Bytes}
use web_server.Config.{ServerConfig}
use web_server.Config.Validate.Sound.{AreServers, AreApart}
use web_server.Config.Parse.{Outcome, returns, undefined_outcome, new_config, parse}
use web_server.Config.Parse.Valid.{IsSound, parse-IsSound}
use web_server.Server.State.{System, Server}
use web_server.Server.Served.{IsServed}
use web_server.Server.Start.{SocketReply, new_start, new_server_of}
use web_server.Server.Poll.Reach.{Reach, Reach-IsServed}
use web_server.Main.{
  Program, exit_failure, starts, undefined_program, started_program, configured, with_path,
  init_args, main,
}

-- A state `t` of a server that was started as `s`.
pub record IsRunning (s t : Server) : Type 0 where
  pub well_formed : AreServers s.configs
  pub apart : AreApart s.configs
  pub served : IsServed (length s.configs) t

nonempty : (l : List ServerConfig) → l ≢ [] → 0 < length l
nonempty [] h = absurd (h refl)
nonempty (conf ∷ l) h = omega arith

server_of : Server → Program → Server
server_of s (starts t) = t
server_of s exit_failure = s
server_of s undefined_program = s

configured-IsRunning :
    (o : Outcome) (reply : ℕ → SocketReply) (sys : System) (s t : Server)
    → IsSound o
    → configured o reply sys ≡ starts s
    → Reach s t
    → IsRunning s t
unfolding configured started_program server_of
configured-IsRunning (returns true c) reply sys s t h e =
    let start = new_server_of (new_start reply c.servers) c.servers sys in
    elim (Bool-cases (new_start reply c.servers).init_ok) [
      | inr failed ↦ let no = rw failed at e in absurd (cc)
      | inl ok ↦
          let same : start ≡ s = ap (server_of s) (rw ok at e) in
          subst (λ k. Reach k t → IsRunning k t) same
            (λ r. record {
              well_formed = h.well_formed;
              apart = h.apart;
              served = Reach-IsServed reply c.servers sys t (nonempty c.servers h.nonempty) ok r;
            })
    ]
configured-IsRunning (returns false c) reply sys s t h e = absurd (cc)
configured-IsRunning undefined_outcome reply sys s t h e = absurd (cc)

-- If the program starts a server, whatever its arguments, its files and the answers of the system,
-- the configuration that it runs on has valid ports, routes and redirections, and no two servers
-- on the same host and port, and in every state that the event loop reaches each client is kept
-- under its own descriptor with the index of one of its configurations.
pub main-IsRunning :
    (args : List Bytes) (read_file : Bytes → Option Bytes) (reply : ℕ → SocketReply) (sys : System)
    (s t : Server)
    → main args read_file reply sys ≡ starts s
    → Reach s t
    → IsRunning s t
unfolding main
main-IsRunning args read_file reply sys s t = go (init_args args)
  where
    go :
        (path : Option Bytes)
        → with_path path read_file reply sys ≡ starts s
        → Reach s t
        → IsRunning s t
    go none e = absurd (unfold with_path in cc)
    go (some path) e =
        configured-IsRunning (parse read_file path new_config) reply sys s t
          (parse-IsSound read_file path) (unfold with_path in e)
