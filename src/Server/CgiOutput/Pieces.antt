-- ===== src/Server/CgiOutput/Pieces.antt =====
-- About the bytes of a CGI program on their way to the queue of its client, in src/Server.cpp.
use web_server.Prelude.{
  ℕ, ◌+◌, ◌≤◌, ◌≡◌, refl, sym, ap, ◌∙◌, true, false, Option, none, some, inl, inr, List, [], ◌∷◌,
  ◌++◌, arith, length, take, drop, length-append, append-nil, append_assoc, drop-append_le,
  take-append_le, Option-cases,
}
use web_server.Bytes.{Bytes, codes, find}
use web_server.Bytes.Search.{find-append, find_bound}
use web_server.Client.{
  Client, append_cgi_output, append_cgi_send_pending, set_cgi_headers_sent,
  get_cgi_send_pending_ptr,
}
use web_server.Server.CgiOutput.{take_cgi_bytes, take_bytes, headers_at, cgi_http_header}

-- The pieces that `read` returns, one behind the other.
unfoldable pub take_pieces : List Bytes → Client → Client
take_pieces [] c = c
take_pieces (bytes ∷ l) c = take_pieces l (take_cgi_bytes bytes c).0

abbrev pub joined : List Bytes → Bytes
joined [] = []
joined (bytes ∷ l) = bytes ++ joined l

-- The offset of the queue is within it.
abbrev pub IsQueued : Client → Type 0
IsQueued c = c.cgi_send_pending_offset ≤ length c.cgi_send_pending

append-ptr :
    (more : Bytes) (c : Client)
    → IsQueued c
    → get_cgi_send_pending_ptr (append_cgi_send_pending more c) ≡ get_cgi_send_pending_ptr c ++ more
unfolding get_cgi_send_pending_ptr append_cgi_send_pending
append-ptr more c h = drop-append_le c.cgi_send_pending_offset c.cgi_send_pending more h

append-IsQueued :
    (more : Bytes) (c : Client) → IsQueued c → IsQueued (append_cgi_send_pending more c)
unfolding append_cgi_send_pending
append-IsQueued more c h = omega (arith, length-append c.cgi_send_pending more)

-- A piece behind the headers.
body_piece :
    (bytes : Bytes) (c : Client)
    → c.cgi_headers_sent ≡ true
    → (take_cgi_bytes bytes c).0 ≡ append_cgi_send_pending bytes c
unfolding take_cgi_bytes take_bytes
body_piece bytes c sent = ap (λ b. (take_bytes b bytes c).0) sent

body_pieces :
    (l : List Bytes) (c : Client)
    → c.cgi_headers_sent ≡ true
    → IsQueued c
    → get_cgi_send_pending_ptr (take_pieces l c) ≡ get_cgi_send_pending_ptr c ++ joined l
unfolding take_pieces
body_pieces [] c sent h = sym (append-nil _)
body_pieces (bytes ∷ l) c sent h =
    let next = append_cgi_send_pending bytes c in
    ap (λ d. get_cgi_send_pending_ptr (take_pieces l d)) (body_piece bytes c sent)
    ∙ (body_pieces l next (unfold append_cgi_send_pending in sent) (append-IsQueued bytes c h)
        ∙ (ap (λ k. k ++ joined l) (append-ptr bytes c h)
            ∙ append_assoc (get_cgi_send_pending_ptr c) bytes (joined l)))

abbrev pub blank_line : Bytes
blank_line = codes "\r\n\r\n"

head_piece :
    (bytes : Bytes) (c : Client) (at : Option ℕ)
    → c.cgi_headers_sent ≡ false
    → find blank_line (c.cgi_output ++ bytes) ≡ at
    → (take_cgi_bytes bytes c).0 ≡ (headers_at at (append_cgi_output bytes c)).0
unfolding take_cgi_bytes take_bytes append_cgi_output
head_piece bytes c at unsent e =
    ap (λ b. (take_bytes b bytes c).0) unsent
    ∙ ap (λ k. (headers_at k (append_cgi_output bytes c)).0) e

-- The piece with the blank line.
found_ptr :
    (i : ℕ) (c : Client)
    → IsQueued c
    → (get_cgi_send_pending_ptr (headers_at (some i) c).0
        ≡ get_cgi_send_pending_ptr c
          ++ (cgi_http_header (take i c.cgi_output) ++ drop (i + 4) c.cgi_output))
      × IsQueued (headers_at (some i) c).0
unfolding headers_at set_cgi_headers_sent get_cgi_send_pending_ptr append_cgi_send_pending
found_ptr i c h =
    let header = cgi_http_header (take i c.cgi_output) in
    let body = drop (i + 4) c.cgi_output in
    let queued = append-IsQueued header c h in
    (
      drop-append_le c.cgi_send_pending_offset (c.cgi_send_pending ++ header) body
            (unfold append_cgi_send_pending in queued)
          ∙ (ap (λ k. k ++ body)
                (drop-append_le c.cgi_send_pending_offset c.cgi_send_pending header h)
              ∙ append_assoc (drop c.cgi_send_pending_offset c.cgi_send_pending) header body),
      unfold append_cgi_send_pending in
          append-IsQueued body (append_cgi_send_pending header c) queued,
    )

-- What the queue holds for a whole output with its blank line at `i`.
abbrev pub streamed : ℕ → Bytes → Bytes
streamed i whole = cgi_http_header (take i whole) ++ drop (i + 4) whole

streamed-append : (i : ℕ) (a b : Bytes) → i + 4 ≤ length a → streamed i a ++ b ≡ streamed i (a ++ b)
streamed-append i a b h =
    append_assoc (cgi_http_header (take i a)) (drop (i + 4) a) b
    ∙ (ap (λ k. cgi_http_header (take i a) ++ k) (sym (drop-append_le (i + 4) a b h))
        ∙ ap (λ k. cgi_http_header k ++ drop (i + 4) (a ++ b))
            (sym (take-append_le i a b (omega arith))))

-- The headers are found in the first of the pieces.
found_first :
    (bytes : Bytes) (l : List Bytes) (c : Client) (i : ℕ)
    → c.cgi_headers_sent ≡ false
    → IsQueued c
    → find blank_line (c.cgi_output ++ bytes) ≡ some i
    → get_cgi_send_pending_ptr (take_pieces (bytes ∷ l) c)
      ≡ get_cgi_send_pending_ptr c ++ streamed i ((c.cgi_output ++ bytes) ++ joined l)
unfolding take_pieces append_cgi_output
found_first bytes l c i unsent h e =
    let d = append_cgi_output bytes c in
    let next = headers_at (some i) d in
    let found = found_ptr i d h in
    let bound = find_bound blank_line (c.cgi_output ++ bytes) i e in
    ap (λ k. get_cgi_send_pending_ptr (take_pieces l k)) (head_piece bytes c (some i) unsent e)
    ∙ (body_pieces l next.0 (unfold headers_at in unfold set_cgi_headers_sent in refl) found.1
        ∙ (ap (λ k. k ++ joined l) found.0
            ∙ (append_assoc (get_cgi_send_pending_ptr d) (streamed i (c.cgi_output ++ bytes))
                  (joined l)
                ∙ (ap (λ k. get_cgi_send_pending_ptr d ++ k)
                      (streamed-append i (c.cgi_output ++ bytes) (joined l) bound)
                    ∙ unfold get_cgi_send_pending_ptr in refl))))

abbrev with_output : Bytes → Client → Client
with_output bytes c = record c { cgi_output = c.cgi_output ++ bytes }

-- A piece that leaves the headers open.
more_piece :
    (bytes : Bytes) (c : Client)
    → c.cgi_headers_sent ≡ false
    → find blank_line (c.cgi_output ++ bytes) ≡ none
    → (take_cgi_bytes bytes c).0 ≡ with_output bytes c
unfolding headers_at append_cgi_output
more_piece bytes c unsent more = head_piece bytes c none unsent more

-- The blank line is where the first pieces have it.
same_place :
    (i j : ℕ) (bytes : Bytes) (l : List Bytes) (c : Client)
    → find blank_line (c.cgi_output ++ bytes) ≡ some j
    → find blank_line (c.cgi_output ++ (bytes ++ joined l)) ≡ some i
    → j ≡ i
same_place i j bytes l c found e =
    let a = find-append blank_line (c.cgi_output ++ bytes) (joined l) j found in
    let b = ap (find blank_line) (append_assoc c.cgi_output bytes (joined l)) ∙ e in cc

-- The pieces of a program's output put into the queue to the client, behind what it holds, the
-- headers of the response made of what stands in front of the first blank line, and then all that
-- follows that line, unchanged and in order, however the output is cut into pieces. The headers are
-- not sent before, and the output that was collected before holds no blank line.
pub pieces_in_order :
    (l : List Bytes) (c : Client) (i : ℕ)
    → c.cgi_headers_sent ≡ false
    → IsQueued c
    → find blank_line c.cgi_output ≡ none
    → find blank_line (c.cgi_output ++ joined l) ≡ some i
    → get_cgi_send_pending_ptr (take_pieces l c)
      ≡ get_cgi_send_pending_ptr c ++ streamed i (c.cgi_output ++ joined l)
unfolding take_pieces get_cgi_send_pending_ptr
pieces_in_order [] c i unsent h before e =
    let gone = rw (append-nil c.cgi_output) at e in absurd (cc)
pieces_in_order (bytes ∷ l) c i unsent h before e =
    let assoc = append_assoc c.cgi_output bytes (joined l) in
    elim (Option-cases (find blank_line (c.cgi_output ++ bytes))) [
      | inr (j, found) ↦
          found_first bytes l c j unsent h found
          ∙ ap (λ k. get_cgi_send_pending_ptr c ++ k)
              (ap (λ k. streamed k ((c.cgi_output ++ bytes) ++ joined l))
                  (same_place i j bytes l c found e)
                ∙ ap (streamed i) assoc)
      | inl more ↦
          ap (λ k. get_cgi_send_pending_ptr (take_pieces l k)) (more_piece bytes c unsent more)
          ∙ pieces_in_order l (with_output bytes c) i unsent h more (ap (find blank_line) assoc ∙ e)
          ∙ ap (λ k. get_cgi_send_pending_ptr c ++ streamed i k) assoc
    ]
