-- ===== src/Client/Pending.antt =====
-- About the two queues of src/Client.cpp, to a CGI program and to the peer: a buffer of which a
-- front part has been consumed stands for the bytes behind that part.
use web_server.Prelude.{
  ℕ, zero, suc, ◌+◌, ◌-◌, ◌≤◌, ◌<◌, ◌≡◌, refl, sym, ap, ◌∙◌, inl, inr, List, [], ◌∷◌, ◌++◌, arith,
  if◌then◌else◌, leb, length, take, drop, length-drop, length-append, drop-append_le, append-nil,
  append_assoc, take-append-drop, Bool-cases, leb→le,
}
use web_server.Bytes.{Bytes}
use web_server.HttpRequest.Chunked.{size_mod}
use web_server.Client.{
  Client, add_size, compact, compact_threshold, append_cgi_stdin_pending, get_cgi_stdin_pending_ptr,
  get_cgi_stdin_pending_size, consume_cgi_stdin_pending, append_cgi_send_pending,
  get_cgi_send_pending_ptr, get_cgi_send_pending_size, consume_cgi_send_pending,
}

-- What the buffer and the offset of a queue stand for.
abbrev pub view : Bytes × ℕ → Bytes
view q = drop q.1 q.0

-- The offset is within the buffer, and the buffer has a size.
abbrev pub IsQueue : Bytes × ℕ → Type 0
IsQueue q = (q.1 ≤ length q.0) × (length q.0 < size_mod)

pub drop_short : (n : ℕ) (xs : Bytes) → length xs ≤ n → drop n xs ≡ []
drop_short zero [] h = refl
drop_short (suc n) [] h = refl
drop_short zero (x ∷ xs) h = absurd (omega arith)
drop_short (suc n) (x ∷ xs) h = drop_short n xs (omega arith)

pub drop-drop : (n m : ℕ) (xs : Bytes) → drop m (drop n xs) ≡ drop (n + m) xs
drop-drop zero m xs = ap (λ k. drop k xs) (omega arith)
drop-drop (suc n) m [] =
    drop_short m [] (omega arith) ∙ sym (drop_short (suc n + m) [] (omega arith))
drop-drop (suc n) m (x ∷ xs) =
    drop-drop n m xs ∙ ap (λ k. drop k (x ∷ xs)) {x = suc (n + m)} (omega arith)

-- Compaction is not seen, and keeps the queue.
compact-view : (pending : Bytes) (offset : ℕ) → view (compact pending offset) ≡ drop offset pending
unfolding compact
compact-view pending offset = elim (Bool-cases (leb compact_threshold offset)) [
  | inr e ↦ rw e
  | inl e ↦ elim (Bool-cases (leb (length pending) offset)) [
    | inl past ↦ rw (e, past) (sym (drop_short offset pending (leb→le _ _ past)))
    | inr within ↦ rw (e, within)
  ]
]

compact_bounds :
    (pending : Bytes) (offset : ℕ)
    → offset ≤ length pending
    → ((compact pending offset).1 ≤ length (compact pending offset).0)
      × (length (compact pending offset).0 ≤ length pending)
unfolding compact
compact_bounds pending offset h = ground (arith, length-drop offset pending)

-- The sum of two sizes within a buffer does not wrap.
add_size_lem : (q : Bytes × ℕ) (n : ℕ) → IsQueue q → n ≤ length (view q) → add_size q.1 n ≡ q.1 + n
add_size_lem q n h k = omega (arith, length-drop q.1 q.0)

-- The operations that a queue has.
pub record ByteQueue : Type 0 where
  pub queue : Client → Bytes × ℕ
  pub append : Bytes → Client → Client
  pub ptr : Client → Bytes
  pub size : Client → ℕ
  pub consume : ℕ → Client → Client

abbrev pub stdin_queue : ByteQueue
stdin_queue = record {
  queue = λ c. (c.cgi_stdin_pending, c.cgi_stdin_pending_offset);
  append = append_cgi_stdin_pending;
  ptr = get_cgi_stdin_pending_ptr;
  size = get_cgi_stdin_pending_size;
  consume = consume_cgi_stdin_pending;
}

abbrev pub send_queue : ByteQueue
send_queue = record {
  queue = λ c. (c.cgi_send_pending, c.cgi_send_pending_offset);
  append = append_cgi_send_pending;
  ptr = get_cgi_send_pending_ptr;
  size = get_cgi_send_pending_size;
  consume = consume_cgi_send_pending;
}

-- A queue in order: what each operation does to what the buffer stands for.
pub record IsByteQueue (Q : ByteQueue) : Type 0 where
  pub ptr_lem : (c : Client) → Q.ptr c ≡ view (Q.queue c)
  pub size_lem : (c : Client) → Q.size c ≡ length (view (Q.queue c))
  pub append_lem :
      (more : Bytes) (c : Client)
      → Q.queue (Q.append more c) ≡ ((Q.queue c).0 ++ more, (Q.queue c).1)
  pub consume_lem :
      (n : ℕ) (c : Client)
      → Q.queue (Q.consume n c) ≡ compact (Q.queue c).0 (add_size (Q.queue c).1 n)

size_left :
    (q : Bytes × ℕ) → (if leb (length q.0) q.1 then 0 else length q.0 - q.1) ≡ length (view q)
size_left q = ground (arith, length-drop q.1 q.0)

stdin-IsByteQueue : IsByteQueue stdin_queue
unfolding append_cgi_stdin_pending get_cgi_stdin_pending_ptr get_cgi_stdin_pending_size
    consume_cgi_stdin_pending
stdin-IsByteQueue = record {
  ptr_lem = λ c. refl;
  size_lem = λ c. size_left (c.cgi_stdin_pending, c.cgi_stdin_pending_offset);
  append_lem = λ more c. refl;
  consume_lem = λ n c. refl;
}

send-IsByteQueue : IsByteQueue send_queue
unfolding append_cgi_send_pending get_cgi_send_pending_ptr get_cgi_send_pending_size
    consume_cgi_send_pending
send-IsByteQueue = record {
  ptr_lem = λ c. refl;
  size_lem = λ c. size_left (c.cgi_send_pending, c.cgi_send_pending_offset);
  append_lem = λ more c. refl;
  consume_lem = λ n c. refl;
}

-- What happens to a queue: bytes are appended, or a call of `write` or `send` has taken `n` bytes.
pub data Event : Type 0 where
  put : Bytes → Event
  took : ℕ → Event

-- The bytes that are taken, and the client that is left.
abbrev pub serve : ByteQueue → List Event → Client → Bytes × Client
serve Q [] c = ([], c)
serve Q (put more ∷ es) c = serve Q es (Q.append more c)
serve Q (took n ∷ es) c =
    (take n (Q.ptr c) ++ (serve Q es (Q.consume n c)).0, (serve Q es (Q.consume n c)).1)

-- No call takes more than there is.
abbrev pub AreAllowed : ByteQueue → List Event → Client → Type 0
AreAllowed Q [] c = Unit
AreAllowed Q (put more ∷ es) c = AreAllowed Q es (Q.append more c)
AreAllowed Q (took n ∷ es) c = (n ≤ Q.size c) × AreAllowed Q es (Q.consume n c)

abbrev pub all_put : List Event → Bytes
all_put [] = []
all_put (put more ∷ es) = more ++ all_put es
all_put (took n ∷ es) = all_put es

-- The offset is within the buffer, which has a size with all that is to come.
abbrev pub HasRoom : ByteQueue → List Event → Client → Type 0
HasRoom Q es c =
    ((Q.queue c).1 ≤ length (Q.queue c).0) × (length (Q.queue c).0 + length (all_put es) < size_mod)

module _ (Q : ByteQueue) (laws : IsByteQueue Q) where
  -- Appending is at the end of what is left.
  ptr-append :
      (more : Bytes) (c : Client)
      → (Q.queue c).1 ≤ length (Q.queue c).0
      → Q.ptr (Q.append more c) ≡ Q.ptr c ++ more
  ptr-append more c h =
      rw (laws.ptr_lem (Q.append more c), laws.append_lem more c, laws.ptr_lem c)
        (drop-append_le (Q.queue c).1 (Q.queue c).0 more h)

  -- What is taken leaves from the front, and the queue stays within its buffer.
  module _ (n : ℕ) (c : Client) (h : IsQueue (Q.queue c)) (k : n ≤ Q.size c) where
    moved : Q.queue (Q.consume n c) ≡ compact (Q.queue c).0 ((Q.queue c).1 + n)
    moved =
        laws.consume_lem n c
        ∙ ap (compact (Q.queue c).0) (add_size_lem (Q.queue c) n h (rw (laws.size_lem c) at k))

    ptr-consume : Q.ptr (Q.consume n c) ≡ drop n (Q.ptr c)
    ptr-consume =
        rw (laws.ptr_lem (Q.consume n c), moved, laws.ptr_lem c)
          (compact-view (Q.queue c).0 ((Q.queue c).1 + n)
            ∙ sym (drop-drop (Q.queue c).1 n (Q.queue c).0))

    consume_bounds :
        ((Q.queue (Q.consume n c)).1 ≤ length (Q.queue (Q.consume n c)).0)
        × (length (Q.queue (Q.consume n c)).0 ≤ length (Q.queue c).0)
    consume_bounds =
        let l = rw (laws.size_lem c) at k in
        rw moved (
          compact_bounds (Q.queue c).0 ((Q.queue c).1 + n)
            (omega (arith, length-drop (Q.queue c).1 (Q.queue c).0)))

  append_room :
      (more : Bytes) (es : List Event) (c : Client)
      → HasRoom Q (put more ∷ es) c
      → HasRoom Q es (Q.append more c)
  append_room more es c h = rw (laws.append_lem more c) (
    omega (arith, length-append (Q.queue c).0 more),
    omega (arith, length-append (Q.queue c).0 more, length-append more (all_put es)),
  )

  in_order :
      (es : List Event) (c : Client)
      → HasRoom Q es c
      → AreAllowed Q es c
      → (serve Q es c).0 ++ Q.ptr (serve Q es c).1 ≡ Q.ptr c ++ all_put es
  in_order [] c h k = sym (append-nil (Q.ptr c))
  in_order (put more ∷ es) c h k =
      in_order es (Q.append more c) (append_room more es c h) k
      ∙ rw (ptr-append more c h.0) (append_assoc (Q.ptr c) more (all_put es))
  in_order (took n ∷ es) c h k =
      let b = consume_bounds n c (h.0, omega arith) k.0 in
      let ih = in_order es (Q.consume n c) (b.0, omega arith) k.1 in
      append_assoc (take n (Q.ptr c)) (serve Q es (Q.consume n c)).0 _
      ∙ ap (◌++◌ (take n (Q.ptr c))) {y = drop n (Q.ptr c) ++ all_put es}
          (ih ∙ ap (λ l. l ++ all_put es) (ptr-consume n c (h.0, omega arith) k.0))
      ∙ sym (append_assoc (take n (Q.ptr c)) (drop n (Q.ptr c)) (all_put es))
      ∙ ap (λ l. l ++ all_put es) (take-append-drop n (Q.ptr c))

-- The bytes that are taken from the queue to a CGI program, in whatever parts, and the bytes that
-- are left in it are, in their order, the bytes that it held and the bytes appended to it: none is
-- lost, repeated or moved by an offset or a compaction. It is a queue whose offset is within its
-- buffer, no call takes more than its size, and the buffer with all that is appended stays below
-- 2 ^ 64 bytes.
pub stdin_in_order :
    (es : List Event) (c : Client)
    → HasRoom stdin_queue es c
    → AreAllowed stdin_queue es c
    → (serve stdin_queue es c).0 ++ get_cgi_stdin_pending_ptr (serve stdin_queue es c).1
      ≡ get_cgi_stdin_pending_ptr c ++ all_put es
stdin_in_order = in_order stdin_queue stdin-IsByteQueue

-- The same of the queue to the peer: the bytes that are sent, in whatever parts, and the bytes that
-- are left are, in their order, the bytes that it held and the bytes appended to it. Its offset is
-- within its buffer, no call takes more than its size, and the buffer with all that is appended
-- stays below 2 ^ 64 bytes.
pub send_in_order :
    (es : List Event) (c : Client)
    → HasRoom send_queue es c
    → AreAllowed send_queue es c
    → (serve send_queue es c).0 ++ get_cgi_send_pending_ptr (serve send_queue es c).1
      ≡ get_cgi_send_pending_ptr c ++ all_put es
send_in_order = in_order send_queue send-IsByteQueue
