-- ===== src/Server/Remove/Gone.antt =====
-- About the client and the calls behind `remove_client` of src/Server.cpp.
use web_server.Prelude.{
  ℕ, ◌≡◌, refl, ap, ◌∙◌, Option, none, some, inl, inr, List, [], ◌∷◌, ◌++◌, append-nil,
  append_assoc, if◌then◌else◌, ◌==◌, Bool-cases, sym,
}
use web_server.Bytes.{Bytes}
use web_server.StdMap.{lookup-erase_self, int_order}
use web_server.Client.{Client, SysCall, close, finish_cgi}
use web_server.Server.State.{
  Server, Call, system, send, write, execve, file, system_calls, get_client,
}
use web_server.Server.Remove.{remove_client, release_cgi}

-- The bytes that a socket has taken.
unfoldable pub bytes_to : ℕ → List Call → Bytes
bytes_to fd [] = []
bytes_to fd (send socket bytes ∷ calls) =
    if socket == fd then bytes ++ bytes_to fd calls else bytes_to fd calls
bytes_to fd (call ∷ calls) = bytes_to fd calls

pub bytes_to-append :
    (fd : ℕ) (a b : List Call) → bytes_to fd (a ++ b) ≡ bytes_to fd a ++ bytes_to fd b
unfolding bytes_to
bytes_to-append fd [] b = refl
bytes_to-append fd (send socket bytes ∷ a) b = elim (Bool-cases (socket == fd)) [
  | inl e ↦ rw (e, bytes_to-append fd a b) (sym (append_assoc bytes _ _))
  | inr e ↦ rw (e, bytes_to-append fd a b)
]
bytes_to-append fd (system _ ∷ a) b = bytes_to-append fd a b
bytes_to-append fd (write _ _ ∷ a) b = bytes_to-append fd a b
bytes_to-append fd (execve _ _ _ _ ∷ a) b = bytes_to-append fd a b
bytes_to-append fd (file _ ∷ a) b = bytes_to-append fd a b

bytes_to_system : (fd : ℕ) (l : List SysCall) → bytes_to fd (system_calls l) ≡ []
unfolding bytes_to
bytes_to_system fd [] = refl
bytes_to_system fd (call ∷ l) = bytes_to_system fd l

pub remove_client-gone :
    (index fd : ℕ) (s : Server) → get_client fd (remove_client index fd s) ≡ none
unfolding remove_client get_client
remove_client-gone index fd s =
    lookup-erase_self fd (release_cgi (get_client fd s) index s).0.clients

silent :
    (fd : ℕ) (calls : List Call) (l : List SysCall)
    → bytes_to fd (calls ++ system_calls l) ≡ bytes_to fd calls
silent fd calls l =
    bytes_to-append fd calls (system_calls l)
    ∙ ap (λ k. bytes_to fd calls ++ k) (bytes_to_system fd l)
    ∙ append-nil (bytes_to fd calls)

release_bytes :
    (to index : ℕ) (c : Option Client) (s : Server)
    → bytes_to to (release_cgi c index s).0.sys.calls ≡ bytes_to to s.sys.calls
unfolding release_cgi
release_bytes to index none s = refl
release_bytes to index (some c) s = silent to s.sys.calls (finish_cgi c).0

-- Removing a client sends nothing.
pub remove_client-bytes :
    (to index fd : ℕ) (s : Server)
    → bytes_to to (remove_client index fd s).sys.calls ≡ bytes_to to s.sys.calls
unfolding remove_client
remove_client-bytes to index fd s =
    silent to (release_cgi (get_client fd s) index s).0.sys.calls (close fd ∷ [])
    ∙ release_bytes to index (get_client fd s) s
