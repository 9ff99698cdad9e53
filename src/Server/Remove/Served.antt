-- ===== src/Server/Remove/Served.antt =====
-- About the clients in `accept_client` and `remove_client` of src/Server.cpp.
use web_server.Prelude.{ℕ, ◌<◌, refl, Option, none, some, List, [], ◌∷◌, if_both}
use web_server.StdMap.{lookup, int_order}
use web_server.Client.{Client, new_client}
use web_server.Server.State.{ServerSocket, Server, get_client}
use web_server.Server.Served.{
  AreIndexed, AreClients, IsServed, insert-AreClients, erase-AreClients, same-IsServed,
}
use web_server.Server.Remove.{
  server_index_of, add_client, accept_one, accept_all, accept_client, release_cgi, remove_client,
}

server_index_of-lt :
    (n fd : ℕ) (socks : List ServerSocket)
    → 0 < n
    → AreIndexed n socks
    → server_index_of fd socks < n
unfolding server_index_of
server_index_of-lt n fd [] p h = p
server_index_of-lt n fd (sock ∷ socks) p h =
    if_both (λ i. i < n) _ _ _ h.0 (server_index_of-lt n fd socks p h.1)

add-AreClients :
    (n index fd now : ℕ) (old : Option Client) (m : List (ℕ × Client))
    → index < n
    → AreClients n m
    → AreClients n (add_client fd (new_client fd index now) old m)
unfolding add_client
add-AreClients n index fd now none m i h =
    insert-AreClients n fd (new_client fd index now) m (record { own = refl; index = i }) h
add-AreClients n index fd now (some c) m i h = h

accept_one-IsServed :
    (n index fd : ℕ) (s : Server) → index < n → IsServed n s → IsServed n (accept_one index fd s)
unfolding accept_one
accept_one-IsServed n index fd s i h = record {
  positive = h.positive;
  size = h.size;
  sockets = h.sockets;
  clients = add-AreClients n index fd s.sys.now (lookup fd s.clients) s.clients i h.clients;
}

accept_all-IsServed :
    (n index : ℕ) (fds : List ℕ) (s : Server)
    → index < n
    → IsServed n s
    → IsServed n (accept_all index fds s)
unfolding accept_all
accept_all-IsServed n index [] s i h = h
accept_all-IsServed n index (fd ∷ fds) s i h =
    accept_all-IsServed n index fds (accept_one index fd s) i (accept_one-IsServed n index fd s i h)

pub accept-IsServed : (n fd : ℕ) (s : Server) → IsServed n s → IsServed n (accept_client fd s)
unfolding accept_client
accept-IsServed n fd s h =
    accept_all-IsServed n _ s.sys.accepts _
      (server_index_of-lt n fd s.server_fds h.positive h.sockets) (same-IsServed s refl refl refl h)

release-IsServed :
    (n index : ℕ) (c : Option Client) (s : Server)
    → IsServed n s
    → IsServed n (release_cgi c index s).0
unfolding release_cgi
release-IsServed n index none s h = h
release-IsServed n index (some c) s h = same-IsServed s refl refl refl h

pub remove-IsServed :
    (n index fd : ℕ) (s : Server) → IsServed n s → IsServed n (remove_client index fd s)
unfolding remove_client
remove-IsServed n index fd s h =
    let r = release-IsServed n index (get_client fd s) s h in
    record {
      positive = r.positive;
      size = r.size;
      sockets = r.sockets;
      clients = erase-AreClients n fd _ r.clients;
    }
