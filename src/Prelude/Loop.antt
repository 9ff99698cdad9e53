-- ===== src/Prelude/Loop.antt =====
-- `while` loops over a state, on fuel that a measure of the state bounds.
use Prim.Native.Nat.{ℕ, zero, suc, ◌<◌}
use mathlib.Core.Path.{◌≡◌, refl, sym, ◌∙◌}
use mathlib.Core.Logic.{◌⊎◌, inl, inr}
use mathlib.Core.Option.{Option, none, some}
use native.Mathlib.Omega.{arith}

-- One turn of a loop body: it goes round again, or the function returns a value.
pub data Round (S R : Type 0) : Type 0 where
  again : S → Round S R
  done : R → Round S R

pub Round-cases :
    {S R : Type 0} (r : Round S R) → ((t : S) × (r ≡ again t)) ⊎ ((v : R) × (r ≡ done v))
Round-cases (again t) = inl (t, refl)
Round-cases (done v) = inr (v, refl)

abbrev pub resume : {S R : Type 0} → (S → R) → Round S R → R
resume f (again t) = f t
resume f (done v) = v

abbrev or_else : {R : Type 0} → R → Option R → R
or_else d none = d
or_else d (some v) = v

module _ {S R : Type 0} where
  -- `none`: the fuel ran out.
  unfoldable pub loop : ℕ → (S → Round S R) → S → Option R
  loop zero body s = none
  loop (suc n) body s = elim (body s) [ again t ↦ loop n body t | done v ↦ some v ]

  -- The loop with the fuel that its measure asks for; `d` is never returned (`loop-run`).
  unfoldable pub run : (S → ℕ) → R → (S → Round S R) → S → R
  unfolding loop
  run measure d body s = or_else d (loop (suc (measure s)) body s)

-- Each further turn makes the measure smaller.
abbrev pub Falls : {S R : Type 0} → (S → ℕ) → (S → Round S R) → Type 0
Falls {S} measure body = (s t : S) → body s ≡ again t → measure t < measure s

module _ {S R : Type 0} (measure : S → ℕ) (d : R) (body : S → Round S R)
    (falls : Falls measure body) where
  loop_agree : (n m : ℕ) (s : S) → measure s < n → measure s < m → loop n body s ≡ loop m body s
  unfolding loop
  loop_agree zero m s h k = elim h [ ]
  loop_agree (suc n) zero s h k = elim k [ ]
  loop_agree (suc n) (suc m) s h k = elim (Round-cases (body s)) [
    | inl (t, e) ↦
        rw (e, loop) (let f = falls s t e in loop_agree n m t (omega arith) (omega arith))
    | inr (v, e) ↦ rw (e, loop)
  ]

  loop-some : (n : ℕ) (s : S) → measure s < n → (v : R) × (loop n body s ≡ some v)
  unfolding loop
  loop-some zero s h = elim h [ ]
  loop-some (suc n) s h = elim (Round-cases (body s)) [
    | inl (t, e) ↦
        let f = falls s t e in let (v, q) = loop-some n t (omega arith) in (v, rw (e, loop) q)
    | inr (v, e) ↦ (v, rw (e, loop))
  ]

  -- Fuel above the measure is enough, and any such fuel gives the same result.
  pub loop-run : (n : ℕ) (s : S) → measure s < n → loop n body s ≡ some (run measure d body s)
  unfolding run
  loop-run n s h =
      let (v, q) = loop-some (suc (measure s)) s (omega arith) in
      loop_agree n (suc (measure s)) s h (omega arith) ∙ rw q

  some_inj : {a b : R} → some a ≡ some b → a ≡ b
  some_inj h = cc

  -- `run` is the loop: it unrolls by one turn.
  pub run_lem : (s : S) → run measure d body s ≡ resume (run measure d body) (body s)
  unfolding loop
  run_lem s = some_inj (sym (loop-run (suc (measure s)) s (omega arith)) ∙ turn)
    where
      turn : loop (suc (measure s)) body s ≡ some (resume (run measure d body) (body s))
      turn = elim (Round-cases (body s)) [
        | inl (t, e) ↦ let f = falls s t e in rw (e, loop) (loop-run (measure s) t (omega arith))
        | inr (v, e) ↦ rw (e, loop)
      ]

  pub run-again : {s t : S} → body s ≡ again t → run measure d body s ≡ run measure d body t
  run-again {s} e = rw run_lem (rw e)

  pub run-done : {s : S} {v : R} → body s ≡ done v → run measure d body s ≡ v
  run-done {s} e = rw run_lem (rw e)

  pub run_inv :
      (P : S → Type 0) (Q : R → Type 0)
      → ((s t : S) → P s → body s ≡ again t → P t)
      → ((s : S) (v : R) → P s → body s ≡ done v → Q v)
      → (s : S) → P s
      → Q (run measure d body s)
  run_inv P Q keep leave s p = go (suc (measure s)) s (omega arith) p
    where
      go : (n : ℕ) (s : S) → measure s < n → P s → Q (run measure d body s)
      go zero s h p = elim h [ ]
      go (suc n) s h p = elim (Round-cases (body s)) [
        | inl (t, e) ↦ let f = falls s t e in rw (run-again e) (go n t (omega arith) (keep s t p e))
        | inr (v, e) ↦ rw (run-done e) (leave s v p e)
      ]
