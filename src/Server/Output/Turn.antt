-- ===== src/Server/Output/Turn.antt =====
-- About one turn of `handle_poll_output` of src/Server.cpp for a response that is kept whole.
use web_server.Prelude.{
  ℕ, zero, suc, ◌+◌, ◌-◌, ◌≤◌, ◌<◌, ◌≡◌, refl, sym, ap, ◌∙◌, true, false, none, some, List, [], ◌∷◌,
  ◌++◌, arith, length, take, drop, leb, if◌then◌else◌, append-nil, ==-refl, take-append-drop,
}
use mathlib.Core.Path.{subst}
use web_server.Bytes.{Bytes, empty}
use web_server.StdMap.{lookup-insert_self, int_order}
use web_server.HttpRequest.Chunked.{size_mod}
use web_server.Client.{
  Client, add_size, update_activity, advance_response_offset, get_cgi_send_pending_size,
}
use web_server.Client.Pending.{drop-drop, drop_short}
use web_server.Server.State.{
  PollFd, SendReply, sent, Server, Handled, Call, send, get_client, put_client, is_cgi_stdin_fd,
}
use web_server.Server.Remove.Gone.{
  bytes_to, bytes_to-append, remove_client-gone, remove_client-bytes,
}
use web_server.Server.Output.{
  handle_poll_output, client_output, send_response, next_send, response_reply, response_sent,
  is_streaming,
}

unfoldable pub go_on : (Server → Handled) → Handled → Handled
go_on f h = if h.handled then h else f h.server

-- At most `n` calls of the handler for one entry, until the entry is done with.
unfoldable pub output_turns : ℕ → ℕ → PollFd → Server → Handled
unfolding go_on
output_turns zero idx p s = record { handled = false; idx = idx; server = s }
output_turns (suc n) idx p s = go_on (output_turns n idx p) (handle_poll_output idx p s)

-- The client of an entry that has a response and no program.
pub record IsResponding (p : PollFd) (c : Client) (s : Server) : Type 0 where
  pub there : get_client p.fd s ≡ some c
  pub own : c.fd ≡ p.fd
  pub plain : is_streaming c ≡ false
  pub no_stdin : is_cgi_stdin_fd p.fd s ≡ false
  pub within : c.response_offset < length c.response
  pub sized : length c.response < size_mod

abbrev pub sents : List ℕ → List SendReply
sents [] = []
sents (n ∷ counts) = sent n ∷ sents counts

-- Positive counts that add up to `n`.
abbrev pub AreParts : List ℕ → ℕ → Type 0
AreParts [] n = n ≡ 0
AreParts (k ∷ counts) n = (0 < k) × (k ≤ n) × AreParts counts (n - k)

nonempty : (n : ℕ) (l : Bytes) → n < length l → empty l ≡ false
nonempty n [] h = absurd (omega arith)
nonempty n (x ∷ l) h = refl

abbrev pub with_sends : List SendReply → Server → Server
with_sends sends s = record s { sys = record s.sys { sends = sends } }

-- One turn sends.
turn_sends :
    (idx k : ℕ) (counts : List ℕ) (p : PollFd) (c : Client) (s : Server)
    → p.revents.writable ≡ true
    → IsResponding p c s
    → s.sys.sends ≡ sent k ∷ sents counts
    → handle_poll_output idx p s ≡ response_sent k idx p.fd c (with_sends (sents counts) s)
unfolding handle_poll_output client_output send_response response_reply
turn_sends idx k counts p c s writable h sends =
    let next : next_send s.sys.sends ≡ (sent k, sents counts) =
      unfold next_send in ap next_send sends in
    rw (writable, h.no_stdin, h.there, h.plain, nonempty c.response_offset c.response h.within)
      (ap (λ n. response_reply n.0 idx p.fd c (with_sends n.1 s)) next)

-- The bytes that a `send` logs.
pub sent_bytes :
    (fd : ℕ) (calls : List Call) (bytes : Bytes)
    → bytes_to fd (calls ++ send fd bytes ∷ []) ≡ bytes_to fd calls ++ bytes
unfolding bytes_to
sent_bytes fd calls bytes =
    bytes_to-append fd calls (send fd bytes ∷ [])
    ∙ ap (λ b. bytes_to fd calls ++ (if b then bytes ++ [] else [])) (==-refl fd)
    ∙ ap (λ k. bytes_to fd calls ++ k) (append-nil bytes)

-- What is left when a response is done with: the client is gone, and its socket has taken `bytes`.
pub record IsDone (fd : ℕ) (bytes : Bytes) (s : Server) (h : Handled) : Type 0 where
  pub handled : h.handled ≡ true
  pub gone : get_client fd h.server ≡ none
  pub taken : bytes_to fd h.server.sys.calls ≡ bytes_to fd s.sys.calls ++ bytes

last_sent :
    (idx k : ℕ) (c : Client) (s : Server)
    → leb (length c.response) (add_size c.response_offset k) ≡ true
    → IsDone c.fd (take k (drop c.response_offset c.response)) s (response_sent k idx c.fd c s)
unfolding response_sent update_activity advance_response_offset
last_sent idx k c s all = rw all (record {
  handled = refl;
  gone = remove_client-gone idx c.fd _;
  taken =
      remove_client-bytes c.fd idx c.fd _
      ∙ unfold put_client in
        sent_bytes c.fd s.sys.calls (take k (drop c.response_offset c.response));
})

-- The client and the state behind a part.
abbrev pub part_client : ℕ → Client → Server → Client
part_client k c s = record c {
  response_offset = add_size c.response_offset k;
  last_activity = s.sys.now;
}

abbrev pub part_server : ℕ → Client → Server → Server
part_server k c s = record s {
  sys = record s.sys {
    calls = s.sys.calls ++ send c.fd (take k (drop c.response_offset c.response)) ∷ [];
  };
}

part_sent :
    (idx k : ℕ) (c : Client) (s : Server)
    → leb (length c.response) (add_size c.response_offset k) ≡ false
    → response_sent k idx c.fd c s ≡ record {
      handled = false;
      idx = idx;
      server = put_client (part_client k c s) (part_server k c s);
    }
unfolding response_sent update_activity advance_response_offset
part_sent idx k c s some_left = rw some_left

-- Nothing is left for a further part.
parts_end : (counts : List ℕ) → AreParts counts 0 → counts ≡ []
parts_end [] h = refl
parts_end (k ∷ counts) h = absurd (omega arith)

-- The parts of a list.
pub part_joined : (off k : ℕ) (l : Bytes) → take k (drop off l) ++ drop (off + k) l ≡ drop off l
part_joined off k l =
    ap (λ m. take k (drop off l) ++ m) (sym (drop-drop off k l)) ∙ take-append-drop k (drop off l)

take_all : (off k : ℕ) (l : Bytes) → length l ≤ off + k → take k (drop off l) ≡ drop off l
take_all off k l h =
    sym (append-nil (take k (drop off l)))
    ∙ ap (λ m. take k (drop off l) ++ m) (sym (drop_short (off + k) l h))
    ∙ part_joined off k l

pub go_on_done : (f : Server → Handled) (h : Handled) → h.handled ≡ true → go_on f h ≡ h
unfolding go_on
go_on_done f h e = ap (λ b. if b then h else f h.server) e

go_on_more : (f : Server → Handled) (h : Handled) → h.handled ≡ false → go_on f h ≡ f h.server
unfolding go_on
go_on_more f h e = ap (λ b. if b then h else f h.server) e

-- The turn that sends the last part.
pub last_turn :
    (idx k : ℕ) (counts : List ℕ) (p : PollFd) (c : Client) (s : Server)
    → p.revents.writable ≡ true
    → IsResponding p c s
    → s.sys.sends ≡ sent k ∷ sents counts
    → leb (length c.response) (add_size c.response_offset k) ≡ true
    → length c.response ≤ c.response_offset + k
    → IsDone p.fd (drop c.response_offset c.response) s (handle_poll_output idx p s)
last_turn idx k counts p c s writable h sends full all =
    subst (λ v. IsDone p.fd (drop c.response_offset c.response) s v)
      (sym (turn_sends idx k counts p c s writable h sends))
      (subst
        (λ fd.
          IsDone fd (drop c.response_offset c.response) s
            (response_sent k idx fd c (with_sends (sents counts) s)))
        h.own
        (subst
          (λ bytes. IsDone c.fd bytes s (response_sent k idx c.fd c (with_sends (sents counts) s)))
          (take_all c.response_offset k c.response all)
          (let d = last_sent idx k c (with_sends (sents counts) s) full in
            record { handled = d.handled; gone = d.gone; taken = d.taken })))

-- A turn that leaves a part.
pub part_turn :
    (idx k : ℕ) (counts : List ℕ) (p : PollFd) (c : Client) (s : Server)
    → p.revents.writable ≡ true
    → IsResponding p c s
    → s.sys.sends ≡ sent k ∷ sents counts
    → leb (length c.response) (add_size c.response_offset k) ≡ false
    → handle_poll_output idx p s ≡ record {
      handled = false;
      idx = idx;
      server = put_client (part_client k c s) (part_server k c (with_sends (sents counts) s));
    }
part_turn idx k counts p c s writable h sends some_left =
    turn_sends idx k counts p c s writable h sends
    ∙ ap (λ fd. response_sent k idx fd c (with_sends (sents counts) s)) (sym h.own)
    ∙ part_sent idx k c (with_sends (sents counts) s) some_left

put_self : (c : Client) (s : Server) → get_client c.fd (put_client c s) ≡ some c
unfolding get_client put_client
put_self c s = lookup-insert_self c.fd c s.clients

-- A part leaves a client that has a response.
pub part-IsResponding :
    (k : ℕ) (counts : List ℕ) (p : PollFd) (c : Client) (s : Server)
    → IsResponding p c s
    → add_size c.response_offset k < length c.response
    → IsResponding p
        (part_client k c s)
        (put_client (part_client k c s) (part_server k c (with_sends (sents counts) s)))
unfolding put_client is_cgi_stdin_fd is_streaming get_cgi_send_pending_size
part-IsResponding k counts p c s h within = record {
  there =
      subst
        (λ fd.
          get_client fd
            (put_client (part_client k c s) (part_server k c (with_sends (sents counts) s)))
          ≡ some (part_client k c s))
        h.own (put_self (part_client k c s) (part_server k c (with_sends (sents counts) s)));
  own = h.own;
  plain = h.plain;
  no_stdin = h.no_stdin;
  within = within;
  sized = h.sized;
}
