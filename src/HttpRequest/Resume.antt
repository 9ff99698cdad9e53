-- ===== src/HttpRequest/Resume.antt =====
-- About functions of src/HTTPRequest.cpp that stop for lack of input, and are called again.
use web_server.Prelude.{
  ℕ, ◌≡◌, refl, sym, ap, ◌∙◌, Bool, true, false, inl, inr, ◌++◌, append_assoc, if◌then◌else◌,
  Bool-cases,
}
use web_server.Prelude.Loop.{
  Round, again, done, run, Falls, run-again, run-done, run_inv, run_lem, resume,
}
use web_server.Bytes.{Bytes}
use web_server.HttpRequest.{HttpRequest, is_parssing_error, extend}

abbrev pub Result : Type 0
Result = Bool × HttpRequest

abbrev pub Turn : Type 0
Turn = Round HttpRequest Result

-- What a call returns on `more` input, given what it returned without: a success or an error
-- stands, and a call that waits is made again.
abbrev pub resume_at : (HttpRequest → Result) → Result → Bytes → Result
resume_at f (true, t) more = (true, extend t more)
resume_at f (false, t) more =
    if is_parssing_error t.state then (false, extend t more) else f (extend t more)

abbrev pub IsLive : HttpRequest → Type 0
IsLive s = is_parssing_error s.state ≡ false

abbrev pub Resumes : (HttpRequest → Result) → Type 0
Resumes f = (s : HttpRequest) (more : Bytes) → IsLive s → f (extend s more) ≡ resume_at f (f s) more

-- The same for one turn of a loop.
abbrev pub resume_turn : (HttpRequest → Turn) → Turn → Bytes → Turn
resume_turn f (again t) more = again (extend t more)
resume_turn f (done (true, t)) more = done (true, extend t more)
resume_turn f (done (false, t)) more =
    if is_parssing_error t.state then done (false, extend t more) else f (extend t more)

pub extend-extend : (s : HttpRequest) (a b : Bytes) → extend (extend s a) b ≡ extend s (a ++ b)
extend-extend s a b = ap (λ l. record s { buffer = l }) (append_assoc s.buffer a b)

module _ (measure : HttpRequest → ℕ) (d : Result) (body : HttpRequest → Turn)
    (falls : Falls measure body) (Ok : HttpRequest → Type 0)
    (keeps : (s t : HttpRequest) → Ok s → body s ≡ again t → Ok t)
    (turns : (s : HttpRequest) (more : Bytes)
      → Ok s
      → body (extend s more) ≡ resume_turn body (body s) more) where
  leave :
      (s : HttpRequest) (more : Bytes) (b : Bool) (t : HttpRequest)
      → Ok s
      → body s ≡ done (b, t)
      → run measure d body (extend s more) ≡ resume_at (run measure d body) (b, t) more
  leave s more true t ok e = run-done measure d body falls (turns s more ok ∙ rw e)
  leave s more false t ok e = elim (Bool-cases (is_parssing_error t.state)) [
    | inl failed ↦ rw failed (run-done measure d body falls (turns s more ok ∙ rw (e, failed)))
    | inr waits ↦ rw waits (
        run_lem measure d body falls (extend s more)
        ∙ ap (resume (run measure d body)) {y = body (extend t more)}
            (turns s more ok ∙ rw (e, waits))
        ∙ sym (run_lem measure d body falls (extend t more)))
  ]

  -- If every turn can be resumed, so can the loop.
  pub run-Resumes :
      (s : HttpRequest) (more : Bytes)
      → Ok s
      → run measure d body (extend s more)
        ≡ resume_at (run measure d body) (run measure d body s) more
  run-Resumes s more ok =
      run_inv measure d body falls
        (λ t. Ok t × (run measure d body (extend s more) ≡ run measure d body (extend t more)))
        (λ v. run measure d body (extend s more) ≡ resume_at (run measure d body) v more)
        (λ u t p e.
          (keeps u t p.0 e, p.1 ∙ run-again measure d body falls (turns u more p.0 ∙ rw e)))
        (λ u v p e. p.1 ∙ leave u more v.0 v.1 p.0 e) s (ok, refl)
