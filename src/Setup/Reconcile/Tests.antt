-- ===== src/Setup/Reconcile/Tests.antt =====
-- Provisioning runs over three steps.
use weave_adapters.Prelude.{
  ℕ, ◌+◌, ◌≡◌, refl, Bool, true, false, Option, none, some, List, [], ◌∷◌, String, map, inl,
}
use weave_adapters.Setup.Reconcile.{
  Condition, satisfied, pending, blocked, Err, step_failed, applying, Plan, Checked, verdict, Step,
  StepResult, Result, no_health, check_all, fill, start, run_over,
}
use weave_adapters.Setup.Reconcile.Applies.{Progress}
use weave_adapters.Setup.Reconcile.Held.{run_over-held}
use weave_adapters.Setup.Reconcile.Runs.{Agrees, run_over-Agrees, run_over-Progress}

-- The other fields of the plan are a count of the calls of `Apply`.
abbrev plan : Plan ℕ
plan = record {
  config_exists = false;
  token = "";
  health = no_health;
  restart_wanted = "";
  others = 0;
}

abbrev answers : Condition → Plan ℕ → Plan ℕ × Checked
answers c p = (p, verdict (record { condition = c; detail = "" }))

abbrev step : String → Condition → Option Err → Step ℕ
step n c err = record {
  name = n;
  check = answers c;
  apply = λ p. (record p { others = p.others + 1 }, err);
}

abbrev steps : List (Step ℕ)
steps =
    step "directories" satisfied none
    ∷ step "config" pending none
    ∷ step "install" pending (some (step_failed "denied"))
    ∷ step "start" pending none
    ∷ []

abbrev inert : Step ℕ → Step ℕ
inert s = record { name = s.name; check = s.check; apply = λ p. (p, none) }

abbrev idle : List (Step ℕ)
idle = map inert steps

abbrev held : List (Step ℕ)
held = step "config" pending none ∷ step "install" blocked none ∷ []

abbrev done_in : Option (Plan ℕ × Result × Option Err) → Option (ℕ × List Bool × Option Err)
done_in none = none
done_in (some (p, r, err)) = some (p.others, map (λ e. e.applied) r.steps, err)

steps_run :
    done_in (run_over false plan steps)
    ≡ some (2, false ∷ true ∷ false ∷ false ∷ [], some (applying "install" (step_failed "denied")))
unfolding run_over
steps_run = refl

run_over-Agrees_example : Agrees (run_over false plan steps)
run_over-Agrees_example = run_over-Agrees false plan steps

abbrev checked_steps : Result
checked_steps = (check_all steps plan (start false)).1

run_over-Progress_example :
    (q : Plan ℕ) × (fs : List StepResult) × (err : Option Err) × (run_over false plan steps
      ≡ some (q, fill q (record checked_steps { steps = fs }), err))
    × Progress steps plan checked_steps.steps q fs err
unfolding check_all
run_over-Progress_example = run_over-Progress plan plan steps checked_steps refl refl

run_over-held_example : run_over true plan steps ≡ run_over true plan idle
unfolding check_all
run_over-held_example =
    run_over-held true plan steps idle ((refl, refl, (refl, refl, (refl, refl, (refl, refl, tt)))))
      (inl refl)
