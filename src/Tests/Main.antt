-- ===== src/Tests/Main.antt =====
-- An example of the start of the program in src/main.cpp.
use web_server.Prelude.{refl, [], ◌∷◌}
use web_server.Bytes.{codes}
use web_server.Server.State.{Server}
use web_server.Server.Start.{new_start, open_sockets, new_server_of}
use web_server.Server.Poll.{check_timeouts}
use web_server.Server.Poll.Reach.{there, here, timed}
use web_server.Main.{init_args, main}
use web_server.Main.Running.{IsRunning, main-IsRunning}
use web_server.Tests.Config.{configuration, file, small_text, small_server}
use web_server.Tests.Loop.{all_listen, ending}

abbrev begun : Server
begun = new_server_of (new_start all_listen (small_server ∷ [])) (small_server ∷ []) ending.sys

main-IsRunning_example : IsRunning begun (check_timeouts begun)
unfolding main init_args new_start open_sockets configuration
main-IsRunning_example =
    main-IsRunning (codes "c" ∷ []) (file small_text) all_listen ending.sys begun
      (check_timeouts begun) refl (there begun (check_timeouts begun) here (timed begun))
