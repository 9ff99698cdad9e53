-- ===== src/Server/Served.antt =====
-- The connections of src/Server.cpp: each client is kept under its own descriptor, and has the
-- index of a configuration.
use web_server.Prelude.{ℕ, ◌<◌, ◌≡◌, refl, sym, some, inl, inr, List, [], ◌∷◌, length, Bool-cases}
use mathlib.Core.Path.{subst}
use Prim.Native.Nat.{Ordering, compare}
use web_server.StdMap.{lookup, insert, erase, is_eq, compare_iff, int_order}
use web_server.Client.{Client}
use web_server.Server.State.{ServerSocket, Server, Handled, get_client, put_client}

pub record IsClient (n fd : ℕ) (c : Client) : Type 0 where
  pub own : c.fd ≡ fd
  pub index : c.server_index < n

abbrev pub AreClients : ℕ → List (ℕ × Client) → Type 0
AreClients n [] = Unit
AreClients n ((fd, c) ∷ clients) = IsClient n fd c × AreClients n clients

abbrev pub AreIndexed : ℕ → List ServerSocket → Type 0
AreIndexed n [] = Unit
AreIndexed n (sock ∷ socks) = (sock.index < n) × AreIndexed n socks

-- With `n` configurations, at least one.
pub record IsServed (n : ℕ) (s : Server) : Type 0 where
  pub positive : 0 < n
  pub size : length s.configs ≡ n
  pub sockets : AreIndexed n s.server_fds
  pub clients : AreClients n s.clients

pub record IsServedPair (n : ℕ) (r : Client × Server) : Type 0 where
  pub index : r.0.server_index < n
  pub served : IsServed n r.1

pub record IsServedTurn (n : ℕ) (h : Handled) : Type 0 where
  pub served : IsServed n h.server

-- A state with the same connections and configurations.
pub same-IsServed :
    {n : ℕ} (s : Server) {t : Server}
    → t.configs ≡ s.configs
    → t.server_fds ≡ s.server_fds
    → t.clients ≡ s.clients
    → IsServed n s
    → IsServed n t
same-IsServed {n} s a b c h = record {
  positive = h.positive;
  size = rw a h.size;
  sockets = rw b h.sockets;
  clients = rw c h.clients;
}

pub insert-AreClients :
    (n fd : ℕ) (c : Client) (m : List (ℕ × Client))
    → IsClient n fd c
    → AreClients n m
    → AreClients n (insert fd c m)
unfolding insert
insert-AreClients n fd c [] h k = (h, tt)
insert-AreClients n fd c ((j, d) ∷ m) h k = go (compare fd j) (insert-AreClients n fd c m h k.1)
  where
    go :
        (o : Ordering)
        → AreClients n (insert fd c m)
        → AreClients n (elim o [
          | Ordering.lt ↦ (fd, c) ∷ (j, d) ∷ m
          | Ordering.eq ↦ (fd, c) ∷ m
          | Ordering.gt ↦ (j, d) ∷ insert fd c m
        ])
    go Ordering.lt rest = (h, k)
    go Ordering.eq rest = (h, k.1)
    go Ordering.gt rest = (k.0, rest)

pub erase-AreClients :
    (n fd : ℕ) (m : List (ℕ × Client)) → AreClients n m → AreClients n (erase fd m)
unfolding erase
erase-AreClients n fd [] k = tt
erase-AreClients n fd ((j, d) ∷ m) k = elim (Bool-cases (is_eq (compare fd j))) [
  | inl e ↦ rw e (erase-AreClients n fd m k.1)
  | inr e ↦ rw e (k.0, erase-AreClients n fd m k.1)
]

pub put-IsServed :
    (n : ℕ) (c : Client) (s : Server)
    → c.server_index < n
    → IsServed n s
    → IsServed n (put_client c s)
unfolding put_client
put-IsServed n c s i h = record {
  positive = h.positive;
  size = h.size;
  sockets = h.sockets;
  clients = insert-AreClients n c.fd c s.clients (record { own = refl; index = i }) h.clients;
}

lookup-IsClient :
    (n fd : ℕ) (c : Client) (m : List (ℕ × Client))
    → AreClients n m
    → lookup fd m ≡ some c
    → IsClient n fd c
unfolding lookup
lookup-IsClient n fd c [] k e = cc
lookup-IsClient n fd c ((j, d) ∷ m) k e = elim (Bool-cases (is_eq (compare fd j))) [
  | inl same ↦
      let found = rw same at e in
      let value : d ≡ c = cc in
      subst (IsClient n fd) value
        (subst (λ key. IsClient n key d) (sym ((compare_iff fd j).0 same)) k.0)
  | inr other ↦ lookup-IsClient n fd c m k.1 (rw other at e)
]

pub client-IsClient :
    (n fd : ℕ) (c : Client) (s : Server) → IsServed n s → get_client fd s ≡ some c → IsClient n fd c
unfolding get_client
client-IsClient n fd c s h e = lookup-IsClient n fd c s.clients h.clients e
