-- ===== src/Setup/Reconcile/Applies.antt =====
-- `applyPending`: what it does, as a relation of its own.
use weave_adapters.Prelude.{
  ◌≡◌, refl, true, false, Option, none, some, List, [], ◌∷◌, length, arith, All, Bool-cases, inl,
  inr,
}
use weave_adapters.Setup.Reconcile.{
  Err, applying, Plan, Step, StepResult, is_pending, is_some, any_err, Applied, done, index_panic,
  keep_entry, after_apply, apply_pending,
}
use weave_adapters.Setup.Reconcile.Checks.{IsFresh}

-- `Progress steps p es q fs err`: from the plan `p` and the entries `es` of the checks, the steps
-- are taken in order. One that is not pending is passed over. A pending one is applied once, to the
-- plan that the one before it left, and marked. The first that fails holds its error, ends the run
-- with it, and nothing behind it is touched.
pub data Progress {R : Type 0}
    : List (Step R)
      → Plan R
      → List StepResult
      → Plan R
      → List StepResult
      → Option Err
      → Type 0 where
  finished : {p : Plan R} → Progress [] p [] p [] none
  passed :
      {s : Step R} {steps : List (Step R)} {p q : Plan R} {e : StepResult} {es fs : List StepResult}
      {err : Option Err}
      → is_pending e.verdict.condition ≡ false
      → Progress steps p es q fs err
      → Progress (s ∷ steps) p (e ∷ es) q (e ∷ fs) err
  applied :
      {s : Step R} {steps : List (Step R)} {p q : Plan R} {e : StepResult} {es fs : List StepResult}
      {err : Option Err}
      → is_pending e.verdict.condition ≡ true
      → (s.apply p).1 ≡ none
      → Progress steps (s.apply p).0 es q fs err
      → Progress (s ∷ steps) p (e ∷ es) q (record e { applied = true } ∷ fs) err
  stopped :
      {s : Step R} {steps : List (Step R)} {p : Plan R} {e : StepResult} {es : List StepResult}
      {x : Err}
      → is_pending e.verdict.condition ≡ true
      → (s.apply p).1 ≡ some x
      → Progress
          (s ∷ steps)
          p
          (e ∷ es)
          (s.apply p).0
          (record e { err = some x } ∷ es)
          (some (applying s.name x))

-- The loop ends without a panic, and made that progress.
abbrev pub Makes : {R : Type 0} → List (Step R) → Plan R → List StepResult → Applied R → Type 0
Makes steps p es (done q fs err) = Progress steps p es q fs err
Makes steps p es index_panic = ⊥

module _ {R : Type 0} where
  Makes-passed :
      (s : Step R) (steps : List (Step R)) (p : Plan R) (e : StepResult) (es : List StepResult)
      (a : Applied R)
      → is_pending e.verdict.condition ≡ false
      → Makes steps p es a
      → Makes (s ∷ steps) p (e ∷ es) (keep_entry e a)
  Makes-passed s steps p e es (done q fs err) n h = passed n h
  Makes-passed s steps p e es index_panic n h = h

  Makes-after_apply :
      (s : Step R) (steps : List (Step R)) (p : Plan R) (e : StepResult) (es : List StepResult)
      (a : Applied R) (answer : Option Err)
      → is_pending e.verdict.condition ≡ true
      → (s.apply p).1 ≡ answer
      → Makes steps (s.apply p).0 es a
      → Makes (s ∷ steps) p (e ∷ es) (after_apply answer (s.apply p).0 e es s.name a)
  Makes-after_apply s steps p e es a (some x) n r h = stopped n r
  Makes-after_apply s steps p e es (done q fs err) none n r h = applied n r h
  Makes-after_apply s steps p e es index_panic none n r h = h

  pub apply_pending-Makes :
      (steps : List (Step R)) (es : List StepResult) (p : Plan R)
      → length es ≡ length steps
      → Makes steps p es (apply_pending steps es p)
  unfolding apply_pending
  apply_pending-Makes [] [] p h = finished
  apply_pending-Makes [] (e ∷ es) p h = absurd (omega arith)
  apply_pending-Makes (s ∷ steps) [] p h = absurd (omega arith)
  apply_pending-Makes (s ∷ steps) (e ∷ es) p h =
      elim (Bool-cases (is_pending e.verdict.condition)) [
        | inl n ↦ rw n (
            Makes-after_apply s steps p e es _ (s.apply p).1 n refl
              (apply_pending-Makes steps es (s.apply p).0 (omega arith)))
        | inr n ↦
            rw n (Makes-passed s steps p e es _ n (apply_pending-Makes steps es p (omega arith)))
      ]

  -- Only pending steps are applied, and the run has an error exactly when an entry has one.
  pub Progress-any_err :
      {steps : List (Step R)} {p q : Plan R} {es fs : List StepResult} {err : Option Err}
      → All IsFresh es
      → Progress steps p es q fs err
      → any_err fs ≡ is_some err
  unfolding any_err
  Progress-any_err f finished = refl
  Progress-any_err f (passed n h) = rw f.0.1 (Progress-any_err f.1 h)
  Progress-any_err f (applied n r h) = rw f.0.1 (Progress-any_err f.1 h)
  Progress-any_err f (stopped n r) = refl
