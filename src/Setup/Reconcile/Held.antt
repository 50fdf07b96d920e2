-- ===== src/Setup/Reconcile/Held.antt =====
-- Runs that change nothing: a dry run, a run with a blocked step, one whose check fails, and one
-- that finds every step satisfied.
use weave_adapters.Prelude.{
  ◌≡◌, refl, sym, ap, ◌∙◌, Bool, true, false, not, ◌||◌, Option, none, some, List, [], ◌∷◌,
  if◌then◌else◌, Bool-cases, ◌⊎◌, inl, inr,
}
use weave_adapters.Setup.Reconcile.{
  Err, Plan, Checked, verdict, failed, Step, StepResult, Result, is_empty, is_pending, note,
  after_check, check_all, start, keep_entry, fill, after_checks, apply_pending, run_over,
}

-- The two lists of steps have the same names and checks; their `Apply` may do different things.
abbrev pub SameChecks : {R : Type 0} → List (Step R) → List (Step R) → Type 0
SameChecks [] [] = Unit
SameChecks [] (t ∷ ts) = ⊥
SameChecks (s ∷ ss) [] = ⊥
SameChecks (s ∷ ss) (t ∷ ts) = (s.name ≡ t.name) × (s.check ≡ t.check) × SameChecks ss ts

abbrev no_pending : List StepResult → Bool
no_pending [] = true
no_pending (e ∷ es) = if is_pending e.verdict.condition then false else no_pending es

-- A check failed, or the run is dry, or a step is blocked, or none is pending.
abbrev pub IsHeld : {R : Type 0} → Plan R × Result × Option Err → Type 0
IsHeld (p, r, some x) = Unit
IsHeld (p, r, none) =
    (r.dry_run ≡ true) ⊎ (is_empty r.blocked ≡ false) ⊎ (no_pending r.steps ≡ true)

if-or_not {ℓ} : {A : Type ℓ} (a b : Bool) (x y : A) → b ≡ false → (if a || not b then x else y) ≡ x
if-or_not true b x y h = refl
if-or_not false b x y h = rw h

module _ {R : Type 0} where
  blocked-held :
      (steps : List (Step R)) (p : Plan R) (r : Result)
      → is_empty r.blocked ≡ false
      → after_checks steps (p, r, none) ≡ some (p, fill p r, none)
  blocked-held steps p r b = if-or_not r.dry_run (is_empty r.blocked) _ _ b

  check_all-SameChecks :
      (ss ts : List (Step R)) (p : Plan R) (r : Result)
      → SameChecks ss ts
      → check_all ss p r ≡ check_all ts p r
  unfolding check_all
  check_all-SameChecks [] [] p r h = refl
  check_all-SameChecks [] (t ∷ ts) p r h = absurd h
  check_all-SameChecks (s ∷ ss) [] p r h = absurd h
  check_all-SameChecks (s ∷ ss) (t ∷ ts) p r (n, c, h) =
      rw (n, c) (same (t.check p).1 (λ b. check_all-SameChecks ss ts (t.check p).0 b h))
    where
      same :
          (a : Checked)
          → ((b : Result) → check_all ss (t.check p).0 b ≡ check_all ts (t.check p).0 b)
          → after_check a t.name (t.check p).0 r (check_all ss (t.check p).0)
            ≡ after_check a t.name (t.check p).0 r (check_all ts (t.check p).0)
      same (failed x) ih = refl
      same (verdict v) ih = ih (note t.name v r)

  apply_pending-no_pending :
      (ss ts : List (Step R)) (es : List StepResult) (p : Plan R)
      → SameChecks ss ts
      → no_pending es ≡ true
      → apply_pending ss es p ≡ apply_pending ts es p
  unfolding apply_pending
  apply_pending-no_pending [] [] es p h n = refl
  apply_pending-no_pending [] (t ∷ ts) es p h n = absurd h
  apply_pending-no_pending (s ∷ ss) [] es p h n = absurd h
  apply_pending-no_pending (s ∷ ss) (t ∷ ts) [] p h n = refl
  apply_pending-no_pending (s ∷ ss) (t ∷ ts) (e ∷ es) p (_, _, h) n =
      elim (Bool-cases (is_pending e.verdict.condition)) [
        | inl q ↦ cc (rw q at n)
        | inr q ↦ rw q (ap (keep_entry e) (apply_pending-no_pending ss ts es p h (rw q at n)))
      ]

  after_checks-held :
      (ss ts : List (Step R)) (c : Plan R × Result × Option Err)
      → SameChecks ss ts
      → IsHeld c
      → after_checks ss c ≡ after_checks ts c
  after_checks-held ss ts (p, r, some x) h held = refl
  after_checks-held ss ts (p, r, none) h (inl d) = rw d
  after_checks-held ss ts (p, r, none) h (inr (inl b)) =
      blocked-held ss p r b ∙ sym (blocked-held ts p r b)
  after_checks-held ss ts (p, r, none) h (inr (inr n)) =
      rw (apply_pending-no_pending ss ts r.steps p h n)

  -- `Apply` is not called in such a run: steps with the same names and checks, whatever their
  -- `Apply` would do, give the same plan, result and error.
  pub run_over-held :
      (dry_run : Bool) (plan : Plan R) (ss ts : List (Step R))
      → SameChecks ss ts
      → IsHeld (check_all ss plan (start dry_run))
      → run_over dry_run plan ss ≡ run_over dry_run plan ts
  unfolding run_over
  run_over-held dry_run plan ss ts h held =
      after_checks-held ss ts (check_all ss plan (start dry_run)) h held
      ∙ ap (after_checks ts) (check_all-SameChecks ss ts plan (start dry_run) h)
