-- ===== src/Setup/Reconcile/Checks.antt =====
-- The first loop of `runOver`: what is recorded of the checks.
use mathlib.Core.List.{append_assoc, append-nil}
use weave_adapters.Prelude.{
  ◌≡◌, refl, sym, ap, ◌∙◌, false, Option, none, List, [], ◌∷◌, ◌++◌, String, map, arith,
  if◌then◌else◌, All, Bool-cases, inl, inr,
}
use weave_adapters.Setup.Reconcile.{
  Verdict, Err, Plan, Checked, verdict, failed, Step, StepResult, Result, is_blocked, entry, note,
  after_check, check_all,
}

abbrev pub names : List StepResult → List String
names = map (λ e. e.name)

abbrev pub step_names : {R : Type 0} → List (Step R) → List String
step_names = map (λ s. s.name)

-- an entry of a step that has been checked and not applied
abbrev pub IsFresh : StepResult → Type 0
IsFresh e = (e.applied ≡ false) × (e.err ≡ none)

abbrev pub blocked_of : List StepResult → List StepResult
blocked_of [] = []
blocked_of (e ∷ es) =
    let rest = blocked_of es in if is_blocked e.verdict.condition then e ∷ rest else rest

-- The checks went through: `es` are their entries, behind what the result held before.
pub record Recorded {R : Type 0} (steps : List (Step R)) (before after : Result) : Type 0 where
  pub entries : List StepResult
  pub in_order : names entries ≡ step_names steps
  pub fresh : All IsFresh entries
  pub steps_are : after.steps ≡ before.steps ++ entries
  pub blocked_are : after.blocked ≡ before.blocked ++ blocked_of entries
  pub same_mode : after.dry_run ≡ before.dry_run

note-steps :
    (n : String) (v : Verdict) (r : Result) → (note n v r).steps ≡ r.steps ++ entry n v ∷ []
note-steps n v r = ground arith

note-blocked :
    (n : String) (v : Verdict) (r : Result)
    → (note n v r).blocked ≡ r.blocked ++ blocked_of (entry n v ∷ [])
note-blocked n v r = elim (Bool-cases (is_blocked v.condition)) [
  | inl e ↦ rw e
  | inr e ↦ rw e (sym (append-nil r.blocked))
]

note-dry_run : (n : String) (v : Verdict) (r : Result) → (note n v r).dry_run ≡ r.dry_run
note-dry_run n v r = ground arith

blocked_of-cons :
    (e : StepResult) (es : List StepResult)
    → blocked_of (e ∷ es) ≡ blocked_of (e ∷ []) ++ blocked_of es
blocked_of-cons e es = ground arith

module _ {R : Type 0} where
  Recorded-cons :
      (step : Step R) (steps : List (Step R)) (v : Verdict) (before after : Result)
      → Recorded steps (note step.name v before) after
      → Recorded (step ∷ steps) before after
  Recorded-cons step steps v before after h = record {
    entries = e ∷ h.entries;
    in_order = ap (◌∷◌ step.name) h.in_order;
    fresh = ((refl, refl), h.fresh);
    steps_are =
        h.steps_are
        ∙ ap (λ l. l ++ h.entries) (note-steps step.name v before)
        ∙ append_assoc before.steps (e ∷ []) h.entries;
    blocked_are =
        h.blocked_are
        ∙ ap (λ l. l ++ blocked_of h.entries) (note-blocked step.name v before)
        ∙ append_assoc before.blocked (blocked_of (e ∷ [])) (blocked_of h.entries)
        ∙ ap (λ l. before.blocked ++ l) (sym (blocked_of-cons e h.entries));
    same_mode = h.same_mode ∙ note-dry_run step.name v before;
  }
    where
      e : StepResult
      e = entry step.name v

  after_check-none :
      (c : Checked) (n : String) (q : Plan R) (r : Result)
      (rest : Result → Plan R × Result × Option Err) {p : Plan R} {r' : Result}
      → after_check c n q r rest ≡ (p, r', none)
      → (v : Verdict) × (c ≡ verdict v) × (rest (note n v r) ≡ (p, r', none))
  after_check-none (failed x) n q r rest h = cc (ap (λ t. t.2) h)
  after_check-none (verdict v) n q r rest h = (v, refl, h)

  -- Where every check answers with a verdict, each step has one entry, in the order of the steps,
  -- under its own name and not applied, and the blocked list holds those whose verdict is
  -- `Blocked`, in the same order.
  pub check_all-Recorded :
      (steps : List (Step R)) (p q : Plan R) (before after : Result)
      → check_all steps p before ≡ (q, after, none)
      → Recorded steps before after
  unfolding check_all
  check_all-Recorded [] p q before after h = record {
    entries = [];
    in_order = refl;
    fresh = tt;
    steps_are =
        ap (λ (t : Plan R × Result × Option Err). t.1.steps) (sym h)
        ∙ sym (append-nil before.steps);
    blocked_are =
        ap (λ (t : Plan R × Result × Option Err). t.1.blocked) (sym h)
        ∙ sym (append-nil before.blocked);
    same_mode = ap (λ (t : Plan R × Result × Option Err). t.1.dry_run) (sym h);
  }
  check_all-Recorded (step ∷ steps) p q before after h =
      let (v, e, rest) =
        after_check-none (step.check p).1 step.name (step.check p).0 before
          (check_all steps (step.check p).0) h in
      Recorded-cons step steps v before after
        (check_all-Recorded steps (step.check p).0 q (note step.name v before) after rest)
