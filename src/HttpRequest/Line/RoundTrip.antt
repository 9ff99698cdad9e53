-- ===== src/HttpRequest/Line/RoundTrip.antt =====
-- About `parse_request_line` and `parse_headers` on the text of a request.
use web_server.Prelude.{
  suc, ◌+◌, ◌-◌, ◌≡◌, refl, ◌∙◌, true, false, some, List, [], ◌∷◌, ◌++◌, arith, length, take, drop,
  take-length, drop-length_add,
}
use web_server.Prelude.Loop.{again, run-again, run-done}
use web_server.Bytes.{Bytes, crlf, empty, find, find_char_from}
use web_server.Bytes.Search.{Lacks, Lacks-append, find-crlf, find_char-Lacks}
use web_server.Bytes.Trim.{Within}
use web_server.StdMap.{insert, bytes_order}
use web_server.HttpRequest.{HttpRequest, new_request, str_to_lower}
use web_server.HttpRequest.Line.{
  request_line_parts, second_space_at, first_space_at, request_line_at, parse_request_line, blanks,
  trim_value, header_colon_at, header_line, header_line_at, headers_round, buffered, parse_headers,
}
use web_server.HttpRequest.Line.Resume.{headers-Falls}
use web_server.HttpRequest.Line.Values.{IsTrimmed, trim_value-padded}

-- A line in front of the buffer is found and cut off.
pub find_line :
    (line rest : Bytes)
    → Lacks 13 line
    → (find crlf (line ++ (crlf ++ rest)) ≡ some (length line))
      × (take (length line) (line ++ (crlf ++ rest)) ≡ line)
      × (drop (length line + 2) (line ++ (crlf ++ rest)) ≡ rest)
find_line line rest h =
    (find-crlf line rest h, take-length line (crlf ++ rest), drop-length_add line 2 (crlf ++ rest))

-- The three parts of a request line.
pub record RequestLine : Type 0 where
  pub method : Bytes
  pub target : Bytes
  pub protocol : Bytes

abbrev pub line_text : RequestLine → Bytes
line_text l = l.method ++ b' ' ∷ (l.target ++ b' ' ∷ l.protocol)

-- No part is empty, none holds a CR, and the first two hold no space.
pub record IsLine (l : RequestLine) : Type 0 where
  pub method : (Lacks b' ' l.method) × Lacks 13 l.method × (empty l.method ≡ false)
  pub target : (Lacks b' ' l.target) × Lacks 13 l.target × (empty l.target ≡ false)
  pub protocol : Lacks 13 l.protocol × (empty l.protocol ≡ false)

line_text-Lacks : (l : RequestLine) → IsLine l → Lacks 13 (line_text l)
line_text-Lacks l w =
    Lacks-append 13 l.method _ w.method.1
      ((λ e. cc), Lacks-append 13 l.target _ w.target.1 ((λ e. cc), w.protocol.0))

module _ (l : RequestLine) where
  method_read : take (length l.method) (line_text l) ≡ l.method
  method_read = take-length l.method _

  target_read :
      take
        (length l.method + 1 + length l.target - length l.method - 1)
        (drop (length l.method + 1) (line_text l))
      ≡ l.target
  target_read =
      let n : length l.method + 1 + length l.target - length l.method - 1 ≡ length l.target =
        omega arith in
      rw (n, drop-length_add l.method 1 (b' ' ∷ (l.target ++ b' ' ∷ l.protocol)))
        (take-length l.target _)

  protocol_read : drop (length l.method + 1 + length l.target + 1) (line_text l) ≡ l.protocol
  protocol_read =
      let n : length l.method + 1 + length l.target + 1
          ≡ length l.method + suc (length l.target + 1) =
        omega arith in
      rw
        (
          n,
          drop-length_add l.method (suc (length l.target + 1))
              (b' ' ∷ (l.target ++ b' ' ∷ l.protocol)),
        )
        (drop-length_add l.target 1 (b' ' ∷ l.protocol))

  second_found :
      Lacks b' ' l.target
      → find_char_from b' ' (line_text l) (length l.method + 1)
        ≡ some (length l.method + 1 + length l.target)
  unfolding find_char_from
  second_found h = rw (
    drop-length_add l.method 1 (b' ' ∷ (l.target ++ b' ' ∷ l.protocol)),
    find_char-Lacks b' ' l.target l.protocol h,
  )

parts_read :
    (l : RequestLine) (s : HttpRequest)
    → IsLine l
    → request_line_parts (line_text l) (length l.method) (length l.method + 1 + length l.target) s
      ≡ (true, record s { method = l.method; request_target = l.target; protocol = l.protocol })
unfolding request_line_parts
parts_read l s w =
    rw (method_read l, target_read l, protocol_read l, w.method.2, w.target.2, w.protocol.1)

-- The request line is read, and what follows it stays in the buffer.
pub parse_request_line-text :
    (l : RequestLine) (rest : Bytes) (s : HttpRequest)
    → IsLine l
    → parse_request_line (record s { buffer = line_text l ++ (crlf ++ rest) }) ≡ (
      true,
      record s {
        buffer = rest;
        method = l.method;
        request_target = l.target;
        protocol = l.protocol;
      },
    )
unfolding parse_request_line request_line_at first_space_at second_space_at
parse_request_line-text l rest s w =
    let (found, line, left) = find_line (line_text l) rest (line_text-Lacks l w) in
    rw
      (
        found,
        line,
        left,
        find_char-Lacks b' ' l.method (l.target ++ b' ' ∷ l.protocol) w.method.0,
        second_found l w.target.0,
      )
      (parts_read l (record s { buffer = rest }) w)

-- A header line; its value stands between blanks.
pub record Header : Type 0 where
  pub key : Bytes
  pub before : Bytes
  pub value : Bytes
  pub after : Bytes

abbrev pub header_text : Header → Bytes
header_text h = h.key ++ b':' ∷ (h.before ++ (h.value ++ h.after))

pub record IsHeader (h : Header) : Type 0 where
  pub key : Lacks b':' h.key × Lacks 13 h.key
  pub before : Within blanks h.before × Lacks 13 h.before
  pub value : IsTrimmed h.value × Lacks 13 h.value
  pub after : Within blanks h.after × Lacks 13 h.after

header_text-Lacks : (h : Header) → IsHeader h → Lacks 13 (header_text h)
header_text-Lacks h w = Lacks-append 13 h.key _ w.key.1 (
  (λ e. cc),
  Lacks-append 13 h.before _ w.before.1 (Lacks-append 13 h.value h.after w.value.1 w.after.1),
)

abbrev pub store : Header → HttpRequest → HttpRequest
store h s = record s { headers = insert (str_to_lower h.key) h.value s.headers }

header_line-text :
    (line key value : Bytes) (s : HttpRequest)
    → line ≡ key ++ b':' ∷ value
    → Lacks b':' key
    → header_line line s
      ≡ again (record s { headers = insert (str_to_lower key) (trim_value value) s.headers })
unfolding header_line header_colon_at
header_line-text [] [] value s e h = cc
header_line-text [] (c ∷ key) value s e h = cc
header_line-text (c ∷ line) key value s e h = rw (
  e,
  find_char-Lacks b':' key value h,
  take-length key (b':' ∷ value),
  drop-length_add key 1 (b':' ∷ value),
)

headers_round-text :
    (h : Header) (rest : Bytes) (s : HttpRequest)
    → IsHeader h
    → headers_round (record s { buffer = header_text h ++ (crlf ++ rest) })
      ≡ again (record (store h s) { buffer = rest })
unfolding headers_round header_line_at
headers_round-text h rest s w =
    let (found, line, left) = find_line (header_text h) rest (header_text-Lacks h w) in
    rw (
      found,
      line,
      left,
      header_line-text (header_text h) h.key (h.before ++ (h.value ++ h.after))
          (record s { buffer = rest }) refl w.key.0,
      trim_value-padded h.before h.value h.after w.before.0 w.value.0 w.after.0,
    )

abbrev pub headers_text : List Header → Bytes → Bytes
headers_text [] rest = crlf ++ rest
headers_text (h ∷ hs) rest = header_text h ++ (crlf ++ headers_text hs rest)

abbrev pub AreHeaders : List Header → Type 0
AreHeaders [] = Unit
AreHeaders (h ∷ hs) = IsHeader h × AreHeaders hs

-- The header map that the lines leave.
abbrev pub stored : List Header → List (Bytes × Bytes) → List (Bytes × Bytes)
stored [] m = m
stored (h ∷ hs) m = stored hs (insert (str_to_lower h.key) h.value m)

-- The header lines are stored in order, up to the empty line, and what follows it stays.
pub parse_headers-text :
    (hs : List Header) (rest : Bytes) (s : HttpRequest)
    → AreHeaders hs
    → parse_headers (record s { buffer = headers_text hs rest })
      ≡ (true, record s { buffer = rest; headers = stored hs s.headers })
unfolding parse_headers
parse_headers-text [] rest s w =
    run-done buffered (false, new_request) headers_round headers-Falls
      (unfold headers_round header_line_at header_line find in refl)
parse_headers-text (h ∷ hs) rest s w =
    run-again buffered (false, new_request) headers_round headers-Falls
      (headers_round-text h (headers_text hs rest) s w.0)
    ∙ parse_headers-text hs rest (store h s) w.1
