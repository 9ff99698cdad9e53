-- ===== src/Server/Remove/Shrinks.antt =====
-- About the list of descriptors in `remove_client` of src/Server.cpp.
use web_server.Prelude.{
  ℕ, zero, suc, ◌≤◌, ◌<◌, ◌≡◌, ◌⊎◌, Option, none, some, inl, inr, List, [], ◌∷◌, arith, length,
  Bool-cases, Option-cases, ◌==◌,
}
use web_server.Server.State.{PollFd, Server, erase_at, index_of, get_client}
use web_server.Server.Remove.{remove_client, release_cgi, drop_pipe, drop_entry}

length-erase_at :
    (i : ℕ) (fds : List PollFd) → i < length fds → length (erase_at i fds) < length fds
unfolding erase_at
length-erase_at i [] h = absurd (omega arith)
length-erase_at zero (p ∷ fds) h = omega arith
length-erase_at (suc i) (p ∷ fds) h = omega (arith, length-erase_at i fds (omega arith))

length-erase_at_le : (i : ℕ) (fds : List PollFd) → length (erase_at i fds) ≤ length fds
unfolding erase_at
length-erase_at_le i [] = omega arith
length-erase_at_le zero (p ∷ fds) = omega arith
length-erase_at_le (suc i) (p ∷ fds) = omega (arith, length-erase_at_le i fds)

index_of-lt : (fd i : ℕ) (fds : List PollFd) → index_of fd fds ≡ some i → i < length fds
unfolding index_of
index_of-lt fd i [] h = cc
index_of-lt fd i (p ∷ fds) h = elim (Bool-cases (p.fd == fd)) [
  | inl e ↦ let k = rw e at h in ground arith
  | inr e ↦ elim (Option-cases (index_of fd fds)) [
    | inl gone ↦ let k = rw (e, gone) at h in cc
    | inr (j, there) ↦
        let k = rw (e, there) at h in let b = index_of-lt fd j fds there in ground arith
  ]
]

-- The list is shorter than `n`, or not longer and the index is within it.
abbrev IsWithin : ℕ → List PollFd × ℕ → Type 0
IsWithin n at = (length at.0 < n) ⊎ ((length at.0 ≤ n) × (at.1 < length at.0))

IsWithin-drop :
    (n i : ℕ) (fds : List PollFd) (index : ℕ)
    → i < length fds
    → IsWithin n (fds, index)
    → length (drop_entry (some i) (fds, index)).0 < n
unfolding drop_entry
IsWithin-drop n i fds index h (inl k) = omega (arith, length-erase_at_le i fds)
IsWithin-drop n i fds index h (inr k) = omega (arith, length-erase_at i fds h)

drop_pipe-IsWithin :
    (n : ℕ) (fd : Option ℕ) (fds : List PollFd) (index : ℕ)
    → IsWithin n (fds, index)
    → IsWithin n (drop_pipe fd (fds, index))
unfolding drop_pipe
drop_pipe-IsWithin n none fds index h = h
drop_pipe-IsWithin n (some fd) fds index h = elim (Option-cases (index_of fd fds)) [
  | inl gone ↦ unfold drop_entry in rw gone h
  | inr (i, there) ↦ rw there (inl (IsWithin-drop n i fds index (index_of-lt fd i fds there) h))
]

IsWithin-erase :
    (n : ℕ) (fds : List PollFd) (index : ℕ)
    → IsWithin n (fds, index)
    → length (erase_at index fds) < n
IsWithin-erase n fds index (inl k) = omega (arith, length-erase_at_le index fds)
IsWithin-erase n fds index (inr k) = omega (arith, length-erase_at index fds k.1)

-- Removing the client of an entry of the list makes the list shorter.
pub remove_client-lt :
    (index fd : ℕ) (s : Server)
    → index < length s.poll_fds
    → length (remove_client index fd s).poll_fds < length s.poll_fds
unfolding remove_client release_cgi
remove_client-lt index fd s h = elim (Option-cases (get_client fd s)) [
  | inl gone ↦ rw gone (length-erase_at index s.poll_fds h)
  | inr (c, there) ↦
      let first =
        drop_pipe-IsWithin (length s.poll_fds) c.cgi_stdout_fd s.poll_fds index
          (inr (omega arith, h)) in
      let out = drop_pipe c.cgi_stdout_fd (s.poll_fds, index) in
      let second = drop_pipe-IsWithin (length s.poll_fds) c.cgi_stdin_fd out.0 out.1 first in
      rw there (IsWithin-erase (length s.poll_fds) _ _ second)
]
