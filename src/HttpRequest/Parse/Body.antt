-- ===== src/HttpRequest/Parse/Body.antt =====
-- About `parse_body` of src/HTTPRequest.cpp, called on the pieces of an input.
use web_server.Prelude.{
  ℕ, ◌-◌, ◌≤◌, ◌<◌, ◌≡◌, refl, sym, ap, ◌∙◌, true, false, ◌&&◌, ◌⊎◌, inl, inr, [], ◌∷◌, ◌++◌,
  append_assoc, arith, if◌then◌else◌, length, length-append, take-append_le, take-append_ge,
  drop-append_le, drop-append_ge, leb→le, leb→lt, le→leb, ltb→lt, lt→ltb, leb, ltb, Bool-cases,
}
use web_server.Bytes.{Bytes, codes}
use web_server.Bytes.Decimal.{atol_size}
use web_server.HttpRequest.{HttpRequest, is_parssing_error, extend, get_header_value}
use web_server.HttpRequest.Resume.{Result, resume_at, IsLive, Resumes}
use web_server.HttpRequest.Chunked.{parse_chunked_body}
use web_server.HttpRequest.Chunked.Stays.{Stays, Fails}
use web_server.HttpRequest.Chunked.Resume.{parse_chunked_body-Resumes, parse_chunked_body-Stays}
use web_server.HttpRequest.Parse.{
  body_taken, body_part_taken, body_needs, body_of_length, body_with_length, parse_body,
}

body_taken_later :
    (needed : ℕ) (s : HttpRequest) (more : Bytes)
    → length s.buffer ≤ needed
    → body_taken needed (extend s more)
      ≡ body_taken (needed - length s.buffer) (extend (body_part_taken s) more)
body_taken_later needed s more h =
    rw
      (take-append_ge needed s.buffer more h, drop-append_ge needed s.buffer more h, ← append_assoc)

-- A call of `body_needs` that waits leaves the rest of the need.
body_needs-extend :
    (needed : ℕ) (s : HttpRequest) (more : Bytes)
    → body_needs needed (extend s more) ≡ (
        if leb needed (length s.buffer)
        then (true, extend (body_taken needed s) more)
        else body_needs (needed - length s.buffer) (extend (body_part_taken s) more))
unfolding body_needs
body_needs-extend needed s more = elim (Bool-cases (leb needed (length s.buffer))) [
  | inl all ↦
      let h = leb→le _ _ all in
      let all' =
        le→leb needed (length (s.buffer ++ more)) (omega (arith, length-append s.buffer more)) in
      rw (all, all', take-append_le needed s.buffer more h, drop-append_le needed s.buffer more h)
  | inr part ↦
      let h = leb→lt _ _ part in
      let test : leb needed (length (s.buffer ++ more))
          ≡ leb (needed - length s.buffer) (length more) =
        ground (arith, length-append s.buffer more) in
      rw (
        part,
        test,
        body_taken_later needed s more (omega arith),
        append_assoc s.body s.buffer more,
      )
]

body_of_length_waits :
    (len : ℕ) (s : HttpRequest) (more : Bytes)
    → length s.body < len
    → (ltb 0 s.max_body_size && ltb s.max_body_size len) ≡ false
    → leb (len - length s.body) (length s.buffer) ≡ false
    → body_of_length len (extend (body_part_taken s) more)
      ≡ body_needs (len - length s.body - length s.buffer) (extend (body_part_taken s) more)
unfolding body_of_length body_needs
body_of_length_waits len s more short ok part =
    let h = leb→lt _ _ part in
    let l = length-append s.body s.buffer in
    let still : ltb (length (s.body ++ s.buffer)) len ≡ true = lt→ltb _ _ (omega arith) in
    let left : len - length (s.body ++ s.buffer) ≡ len - length s.body - length s.buffer =
      omega arith in
    rw (ok, still, left)

step_whole :
    (len : ℕ) (s : HttpRequest) (more : Bytes)
    → (ltb 0 s.max_body_size && ltb s.max_body_size len) ≡ false
    → ltb (length s.body) len ≡ true
    → body_of_length len (extend s more) ≡ body_needs (len - length s.body) (extend s more)
unfolding body_of_length
step_whole len s more ok short = rw (ok, short)

step_part :
    (len : ℕ) (s : HttpRequest)
    → (ltb 0 s.max_body_size && ltb s.max_body_size len) ≡ false
    → ltb (length s.body) len ≡ true
    → leb (len - length s.body) (length s.buffer) ≡ false
    → body_of_length len s ≡ (false, body_part_taken s)
unfolding body_of_length body_needs
step_part len s ok short part = rw (ok, short, part)

pub body_of_length-Resumes : (len : ℕ) → Resumes (body_of_length len)
body_of_length-Resumes len s more live =
    elim (Bool-cases (ltb 0 s.max_body_size && ltb s.max_body_size len)) [
      | inl big ↦ unfold body_of_length in rw big
      | inr ok ↦ elim (Bool-cases (ltb (length s.body) len)) [
        | inr full ↦ unfold body_of_length in rw (ok, full)
        | inl short ↦ elim (Bool-cases (leb (len - length s.body) (length s.buffer))) [
          | inl all ↦
              unfold body_of_length in
              rw (ok, short, body_needs-extend (len - length s.body) s more, all)
          | inr part ↦
              rw
                (
                  step_whole len s more ok short,
                  step_part len s ok short part,
                  live,
                  body_needs-extend (len - length s.body) s more,
                  part,
                )
                (sym (body_of_length_waits len s more (ltb→lt _ _ short) ok part))
        ]
      ]
    ]

-- A body that waits has taken what there was.
body_of_length-false :
    (len : ℕ) (s t : HttpRequest)
    → body_of_length len s ≡ (false, t)
    → Fails t ⊎ (t ≡ body_part_taken s)
unfolding body_of_length body_needs
body_of_length-false len s t e = ground arith

body_with_length-false :
    (l : Bytes) (s t : HttpRequest)
    → body_with_length l s ≡ (false, t)
    → Fails t ⊎ (t ≡ body_part_taken s)
unfolding body_with_length
body_with_length-false [] s t e = cc
body_with_length-false (c ∷ l) s t e = body_of_length-false (atol_size (c ∷ l)) s t e

body_with_length-Resumes : (l : Bytes) → Resumes (body_with_length l)
unfolding body_with_length
body_with_length-Resumes [] s more live = refl
body_with_length-Resumes (c ∷ l) s more live =
    body_of_length-Resumes (atol_size (c ∷ l)) s more live

abbrev pub content_length : HttpRequest → Bytes
content_length s = get_header_value s (codes "Content-Length")

pub parse_body_plain :
    (s : HttpRequest) → s.is_chunked ≡ false → parse_body s ≡ body_with_length (content_length s) s
unfolding parse_body
parse_body_plain s e = rw e

pub parse_body_chunked :
    (s : HttpRequest) → s.is_chunked ≡ true → parse_body s ≡ parse_chunked_body s
unfolding parse_body
parse_body_chunked s e = rw e

content_length_part : (s : HttpRequest) → content_length (body_part_taken s) ≡ content_length s
unfolding get_header_value
content_length_part s = refl

content_length-extend :
    (s : HttpRequest) (more : Bytes) → content_length (extend s more) ≡ content_length s
unfolding get_header_value
content_length-extend s more = refl

Fails-cases : {P : Type 0} (t : HttpRequest) → Fails t ⊎ P → Fails t ⊎ (IsLive t × P)
Fails-cases t (inl f) = inl f
Fails-cases t (inr p) = elim (Bool-cases (is_parssing_error t.state)) [
  | inl f ↦ inl f
  | inr live ↦ inr (live, p)
]

-- A waiting call is made again by `parse_body` as by the part that waits.
plain_again :
    (s : HttpRequest) (more : Bytes) (v : Result)
    → s.is_chunked ≡ false
    → body_with_length (content_length s) s ≡ v
    → resume_at (body_with_length (content_length s)) v more ≡ resume_at parse_body v more
plain_again s more (true, t) c e = refl
plain_again s more (false, t) c e =
    elim (Fails-cases t (body_with_length-false (content_length s) s t e)) [
      | inl f ↦ rw f
      | inr (live, same) ↦ rw (
        live,
        same,
        parse_body_plain (extend (body_part_taken s) more) c,
        content_length-extend (body_part_taken s) more,
        content_length_part s,
      )
    ]

chunked_again :
    (s : HttpRequest) (more : Bytes) (v : Result)
    → s.is_chunked ≡ true
    → Fails v.1 ⊎ Stays s v.1
    → resume_at parse_chunked_body v more ≡ resume_at parse_body v more
chunked_again s more (true, t) c p = refl
chunked_again s more (false, t) c p = elim (Fails-cases t p) [
  | inl f ↦ rw f
  | inr (live, stays) ↦ rw (live, parse_body_chunked (extend t more) (stays.is_chunked ∙ c))
]

pub parse_body-Resumes : Resumes parse_body
parse_body-Resumes s more live = elim (Bool-cases s.is_chunked) [
  | inl c ↦
      parse_body_chunked (extend s more) c
      ∙ parse_chunked_body-Resumes s more live
      ∙ chunked_again s more (parse_chunked_body s) c (parse_chunked_body-Stays s)
      ∙ ap (λ v. resume_at parse_body v more) (sym (parse_body_chunked s c))
  | inr c ↦
      parse_body_plain (extend s more) c
      ∙ ap (λ l. body_with_length l (extend s more)) (content_length-extend s more)
      ∙ body_with_length-Resumes (content_length s) s more live
      ∙ plain_again s more (body_with_length (content_length s) s) c refl
      ∙ ap (λ v. resume_at parse_body v more) (sym (parse_body_plain s c))
]

pub parse_body-state :
    (s : HttpRequest) (t : HttpRequest) → parse_body s ≡ (false, t) → Fails t ⊎ (t.state ≡ s.state)
parse_body-state s t e = elim (Bool-cases s.is_chunked) [
  | inl c ↦
      let stays : Fails t ⊎ Stays s t =
        rw (sym (parse_body_chunked s c) ∙ e) at (parse_chunked_body-Stays s) in
      elim stays [ inl f ↦ inl f | inr p ↦ inr p.state ]
  | inr c ↦ elim (body_with_length-false (content_length s) s t (sym (parse_body_plain s c) ∙ e)) [
    | inl f ↦ inl f
    | inr p ↦ inr (rw p)
  ]
]
