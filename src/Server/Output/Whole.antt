-- ===== src/Server/Output/Whole.antt =====
-- About `handle_poll_output` of src/Server.cpp for a response that is kept whole.
use web_server.Prelude.{
  ℕ, ◌+◌, ◌-◌, ◌≤◌, ◌≡◌, refl, sym, ap, ◌∙◌, true, inl, inr, List, [], ◌∷◌, ◌++◌, arith, length,
  take, drop, leb, append_assoc, Bool-cases, leb→le, leb→lt,
}
use mathlib.Core.Path.{subst}
use web_server.StdMap.{int_order}
use web_server.Client.{Client, add_size}
use web_server.Server.State.{PollFd, Server, Handled, send, put_client}
use web_server.Server.Remove.Gone.{bytes_to}
use web_server.Server.Output.{handle_poll_output}
use web_server.Server.Output.Turn.{
  go_on, output_turns, IsResponding, sents, AreParts, IsDone, with_sends, part_client, part_server,
  sent_bytes, part_joined, go_on_done, last_turn, part_turn, part-IsResponding,
}

-- What a part and the turns behind it send, joined.
after_part :
    (k : ℕ) (counts : List ℕ) (p : PollFd) (c : Client) (s : Server) (v : Handled)
    → c.fd ≡ p.fd
    → add_size c.response_offset k ≡ c.response_offset + k
    → IsDone p.fd
        (drop (add_size c.response_offset k) c.response)
        (put_client (part_client k c s) (part_server k c (with_sends (sents counts) s)))
        v
    → IsDone p.fd (drop c.response_offset c.response) s v
unfolding put_client
after_part k counts p c s v own sum d = record {
  handled = d.handled;
  gone = d.gone;
  taken =
      d.taken
      ∙ (ap (λ b. b ++ drop (add_size c.response_offset k) c.response)
            (subst
              (λ fd.
                bytes_to fd
                  (s.sys.calls ++ send c.fd (take k (drop c.response_offset c.response)) ∷ [])
                ≡ bytes_to fd s.sys.calls ++ take k (drop c.response_offset c.response))
              own (sent_bytes c.fd s.sys.calls (take k (drop c.response_offset c.response))))
          ∙ (append_assoc (bytes_to p.fd s.sys.calls) (take k (drop c.response_offset c.response))
                (drop (add_size c.response_offset k) c.response)
              ∙ ap (λ b. bytes_to p.fd s.sys.calls ++ b)
                  (ap (λ n. take k (drop c.response_offset c.response) ++ drop n c.response) sum
                    ∙ part_joined c.response_offset k c.response)));
}

-- A response that waits for output is sent whole and in order, whatever positive counts `send`
-- returns, each at most what is left, until they add up to what is left of the response: after as
-- many turns for its entry as there are counts, the socket has taken just the rest of the response,
-- and the connection is removed. No program belongs to the client, the entry can be written at each
-- turn, and the response is shorter than 2 ^ 64.
pub response_whole :
    (counts : List ℕ) (idx : ℕ) (p : PollFd) (c : Client) (s : Server)
    → p.revents.writable ≡ true
    → IsResponding p c s
    → s.sys.sends ≡ sents counts
    → AreParts counts (length c.response - c.response_offset)
    → IsDone p.fd (drop c.response_offset c.response) s (output_turns (length counts) idx p s)
unfolding output_turns
response_whole [] idx p c s writable h sends parts = absurd (let w = h.within in omega arith)
response_whole (k ∷ counts) idx p c s writable h sends parts =
    let w = h.within in
    let small = h.sized in
    let le = parts.1 in
    let sum : add_size c.response_offset k ≡ c.response_offset + k = omega arith in
    let f = output_turns (length counts) idx p in
    elim (Bool-cases (leb (length c.response) (add_size c.response_offset k))) [
      | inl full ↦
          let all : length c.response ≤ c.response_offset + k =
            (let b = leb→le _ _ full in omega arith) in
          let d = last_turn idx k counts p c s writable h sends full all in
          subst (λ v. IsDone p.fd (drop c.response_offset c.response) s v)
            (sym (go_on_done f (handle_poll_output idx p s) d.handled)) d
      | inr some_left ↦
          let below = leb→lt _ _ some_left in
          let step = part_turn idx k counts p c s writable h sends some_left in
          let next =
            put_client (part_client k c s) (part_server k c (with_sends (sents counts) s)) in
          let rest =
            response_whole counts idx p (part_client k c s) next writable
              (part-IsResponding k counts p c s h below) (unfold put_client in refl)
              (subst (AreParts counts) (omega arith) parts.2) in
          subst (λ v. IsDone p.fd (drop c.response_offset c.response) s v)
            (sym (ap (go_on f) step ∙ unfold go_on in refl))
            (after_part k counts p c s (f next) h.own sum rest)
    ]
