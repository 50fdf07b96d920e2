-- ===== src/Setup/Reconcile/Runs.antt =====
-- `runOver` as a whole.
use weave_adapters.Prelude.{
  suc, ◌≡◌, refl, sym, ap, ap₂, subst, ◌∙◌, Bool, true, false, not, ◌||◌, Option, none, some, List,
  [], ◌∷◌, ◌++◌, length, arith, if◌then◌else◌, All, Bool-cases, inl, inr,
}
use weave_adapters.Setup.Reconcile.{
  Err, Plan, Checked, verdict, failed, Step, StepResult, Result, is_empty, is_some, any_err,
  has_failed, failed_check, note, after_check, check_all, start, Applied, done, index_panic,
  finish_apply, fill, after_checks, apply_pending, run_over,
}
use weave_adapters.Setup.Reconcile.Checks.{IsFresh, names, step_names, check_all-Recorded}
use weave_adapters.Setup.Reconcile.Applies.{Progress, Makes, apply_pending-Makes, Progress-any_err}

module _ {R : Type 0} where
  names-length :
      (es : List StepResult) (steps : List (Step R))
      → names es ≡ step_names steps
      → length es ≡ length steps
  names-length [] [] h = refl
  names-length [] (s ∷ steps) h = cc
  names-length (e ∷ es) [] h = cc
  names-length (e ∷ es) (s ∷ steps) h = ap suc (names-length es steps (cc))

any_err-append_last :
    (es : List StepResult) (e : StepResult) → is_some e.err ≡ true → any_err (es ++ e ∷ []) ≡ true
unfolding any_err
any_err-append_last [] e h = rw h
any_err-append_last (f ∷ es) e h = rw (any_err-append_last es e h) (ground arith)

any_err_fresh : (es : List StepResult) → All IsFresh es → any_err es ≡ false
unfolding any_err
any_err_fresh [] h = refl
any_err_fresh (e ∷ es) h = rw h.0.1 (any_err_fresh es h.1)

module _ {R : Type 0} where
  -- A check that fails leaves its error in the last entry.
  check_all-any_err :
      (steps : List (Step R)) (p q : Plan R) (before after : Result) {x : Err}
      → check_all steps p before ≡ (q, after, some x)
      → any_err after.steps ≡ true
  unfolding check_all
  check_all-any_err [] p q before after h = cc (ap (λ (t : Plan R × Result × Option Err). t.2) h)
  check_all-any_err (s ∷ steps) p q before after {x} h =
      go (s.check p).1 (λ b. check_all-any_err steps (s.check p).0 q b after) h
    where
      go :
          (c : Checked)
          → ((b : Result)
              → check_all steps (s.check p).0 b ≡ (q, after, some x)
              → any_err after.steps ≡ true)
          → after_check c s.name (s.check p).0 before (check_all steps (s.check p).0)
            ≡ (q, after, some x)
          → any_err after.steps ≡ true
      go (failed y) ih e =
          rw (← ap (λ (t : Plan R × Result × Option Err). t.1.steps) e)
            (any_err-append_last before.steps (failed_check s.name y) refl)
      go (verdict v) ih e = ih (note s.name v before) e

  -- The entries of a whole run's checks.
  pub checked_entries :
      (dry_run : Bool) (steps : List (Step R)) (p q : Plan R) (r : Result)
      → check_all steps p (start dry_run) ≡ (q, r, none)
      → All IsFresh r.steps × (length r.steps ≡ length steps)
  checked_entries dry_run steps p q r h =
      let rec = check_all-Recorded steps p q (start dry_run) r h in
      (
        subst (All IsFresh) (sym rec.steps_are) rec.fresh,
        ap length rec.steps_are ∙ names-length rec.entries steps rec.in_order,
      )

  -- The result that `runOver` returns reports a failure exactly when it returns an error.
  abbrev pub Agrees : Option (Plan R × Result × Option Err) → Type 0
  Agrees none = ⊥
  Agrees (some (p, r, err)) = has_failed r ≡ is_some err

  finish_apply-Agrees :
      (steps : List (Step R)) (p : Plan R) (r : Result) (a : Applied R)
      → All IsFresh r.steps
      → Makes steps p r.steps a
      → Agrees (finish_apply r a)
  unfolding has_failed
  finish_apply-Agrees steps p r (done q fs err) f h = Progress-any_err f h
  finish_apply-Agrees steps p r index_panic f h = h

  after_checks-Agrees :
      (steps : List (Step R)) (p q : Plan R) (r : Result) (err : Option Err) (dry_run : Bool)
      → check_all steps p (start dry_run) ≡ (q, r, err)
      → Agrees (after_checks steps (q, r, err))
  unfolding has_failed
  after_checks-Agrees steps p q r (some x) dry_run h = check_all-any_err steps p q _ r h
  after_checks-Agrees steps p q r none dry_run h =
      let (f, n) = checked_entries dry_run steps p q r h in
      elim (Bool-cases (r.dry_run || not (is_empty r.blocked))) [
        | inl e ↦
            subst
              (λ b. Agrees (
                if b
                then some (q, fill q r, none)
                else finish_apply r (apply_pending steps r.steps q)))
              (sym e) (any_err_fresh r.steps f)
        | inr e ↦
            subst
              (λ b. Agrees (
                if b
                then some (q, fill q r, none)
                else finish_apply r (apply_pending steps r.steps q)))
              (sym e) (finish_apply-Agrees steps q r _ f (apply_pending-Makes steps r.steps q n))
      ]

  -- `runOver` never indexes past its entries, and its result says that the run failed exactly when
  -- it returns an error: whatever the steps answer, in a dry run and in a real one.
  pub run_over-Agrees :
      (dry_run : Bool) (plan : Plan R) (steps : List (Step R))
      → Agrees (run_over dry_run plan steps)
  unfolding run_over
  run_over-Agrees dry_run plan steps =
      let c = check_all steps plan (start dry_run) in
      after_checks-Agrees steps plan c.0 c.1 c.2 dry_run refl

  -- A real run in which every check answers and no step is blocked applies the pending steps: each
  -- once, in order, on the plan that the one before left, up to the first that fails, whose error
  -- is the run's. The result carries what the last plan holds.
  pub run_over-Progress :
      (plan p : Plan R) (steps : List (Step R)) (r : Result)
      → check_all steps plan (start false) ≡ (p, r, none)
      → r.blocked ≡ []
      → (q : Plan R) × (fs : List StepResult) × (err : Option Err) × (run_over false plan steps
          ≡ some (q, fill q (record r { steps = fs }), err))
        × Progress steps p r.steps q fs err
  unfolding run_over
  run_over-Progress plan p steps r h b =
      let (f, n) = checked_entries false steps plan p r h in
      made (apply_pending steps r.steps p) refl (apply_pending-Makes steps r.steps p n)
    where
      real : r.dry_run ≡ false
      real = (check_all-Recorded steps plan p (start false) r h).same_mode

      runs :
          after_checks steps (check_all steps plan (start false))
          ≡ finish_apply r (apply_pending steps r.steps p)
      runs =
          subst (λ c. after_checks steps c ≡ finish_apply r (apply_pending steps r.steps p)) (sym h)
            (ap₂
              (λ d l.
                if d || not (is_empty l)
                then some (p, fill p r, none)
                else finish_apply r (apply_pending steps r.steps p))
              real b)

      made :
          (a : Applied R)
          → apply_pending steps r.steps p ≡ a
          → Makes steps p r.steps a
          → (q : Plan R) × (fs : List StepResult) × (err : Option Err) × (after_checks steps
                (check_all steps plan (start false))
              ≡ some (q, fill q (record r { steps = fs }), err))
            × Progress steps p r.steps q fs err
      made (done q fs err) e m = (q, fs, err, runs ∙ ap (finish_apply r) e, m)
      made index_panic e m = absurd m
