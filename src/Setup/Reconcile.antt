-- ===== src/Setup/Reconcile.antt =====
-- internal/core/setup/reconcile.go, and of plan.go the plan that its steps share: check every step,
-- then apply what is pending. `ctx` has no part in it, and the steps' pointer to the plan is the
-- plan passed along.
pub mod Checks
pub mod Applies
pub mod Runs
pub mod Held
mod Tests
use weave_adapters.Prelude.{
  ℕ, ◌≡◌, Bool, true, false, not, ◌||◌, Option, none, some, List, [], ◌∷◌, ◌++◌, String, str_eq,
  if◌then◌else◌,
}

pub data Condition : Type 0 where
  satisfied pending blocked : Condition

pub record Verdict : Type 0 where
  pub condition : Condition
  pub detail : String

-- a step's error, as it is and as `runOver` and `applyPending` wrap it
pub data Err : Type 0 where
  step_failed : String → Err
  checking : String → Err → Err
  applying : String → Err → Err

pub record HealthReport : Type 0 where
  pub checked : Bool
  pub reachable : Bool
  pub component_healthy : Bool
  pub component : String
  pub detail : String
  pub auth_proved : Bool
  pub auth_skipped : Bool
  pub auth_skip_reason : String
  pub auth_rejected : String

-- `others` stands for the fields that only the steps read: the options and the dependencies, the
-- paths, the configuration's values, the service definition and what was locked down.
pub record Plan (R : Type 0) : Type 0 where
  pub config_exists : Bool
  pub token : String
  pub health : HealthReport
  pub restart_wanted : String
  pub others : R

-- the answer of `Check`
pub data Checked : Type 0 where
  verdict : Verdict → Checked
  failed : Err → Checked

-- the interface `Step`
pub record Step (R : Type 0) : Type 0 where
  pub name : String
  pub check : Plan R → Plan R × Checked
  pub apply : Plan R → Plan R × Option Err

pub record StepResult : Type 0 where
  pub name : String
  pub verdict : Verdict
  pub applied : Bool
  pub err : Option Err

pub record Result : Type 0 where
  pub steps : List StepResult
  pub dry_run : Bool
  pub blocked : List StepResult
  pub health : HealthReport
  pub token : String
  pub config_written : Bool

abbrev pub no_health : HealthReport
no_health = record {
  checked = false;
  reachable = false;
  component_healthy = false;
  component = "";
  detail = "";
  auth_proved = false;
  auth_skipped = false;
  auth_skip_reason = "";
  auth_rejected = "";
}

-- the zero `Verdict`, whose condition is `Satisfied`
abbrev pub zero_verdict : Verdict
zero_verdict = record { condition = satisfied; detail = "" }

abbrev pub is_some {ℓ} : {A : Type ℓ} → Option A → Bool
is_some none = false
is_some (some a) = true

abbrev pub is_blocked : Condition → Bool
is_blocked blocked = true
is_blocked _ = false

abbrev pub is_pending : Condition → Bool
is_pending pending = true
is_pending _ = false

abbrev pub is_empty {ℓ} : {A : Type ℓ} → List A → Bool
is_empty [] = true
is_empty (a ∷ l) = false

-- the loop of `Result.Failed`
pub any_err : List StepResult → Bool
any_err [] = false
any_err (s ∷ steps) = is_some s.err || any_err steps

unfoldable pub has_failed : Result → Bool
unfolding any_err
has_failed r = any_err r.steps

-- `Plan.fill`
abbrev pub fill : {R : Type 0} → Plan R → Result → Result
fill p result = record result {
  health = p.health;
  token = p.token;
  config_written = not p.config_exists;
}

abbrev pub entry : String → Verdict → StepResult
entry name v = record { name = name; verdict = v; applied = false; err = none }

abbrev pub failed_check : String → Err → StepResult
failed_check name e = record {
  name = name;
  verdict = zero_verdict;
  applied = false;
  err = some (checking name e);
}

abbrev pub append_step : Result → StepResult → Result
append_step r s = record r { steps = r.steps ++ s ∷ [] }

abbrev pub append_blocked : Result → StepResult → Result
append_blocked r s =
    if is_blocked s.verdict.condition then record r { blocked = r.blocked ++ s ∷ [] } else r

-- one round of the loop over `Check`
abbrev pub note : String → Verdict → Result → Result
note name v r = append_blocked (append_step r (entry name v)) (entry name v)

abbrev pub start : Bool → Result
start dry_run = record {
  steps = [];
  dry_run = dry_run;
  blocked = [];
  health = no_health;
  token = "";
  config_written = false;
}

-- What the second loop leaves, or the panic of `result.Steps[i]` past the end.
pub data Applied (R : Type 0) : Type 0 where
  done : Plan R → List StepResult → Option Err → Applied R
  index_panic : Applied R

module _ {R : Type 0} where
  abbrev pub after_check :
      Checked
      → String
      → Plan R
      → Result
      → (Result → Plan R × Result × Option Err)
      → Plan R × Result × Option Err
  after_check (failed e) name q r rest =
      (q, append_step r (failed_check name e), some (checking name e))
  after_check (verdict v) name q r rest = rest (note name v r)

  -- the first loop of `runOver`; an error ends the run where it is
  unfoldable pub check_all : List (Step R) → Plan R → Result → Plan R × Result × Option Err
  check_all [] p r = (p, r, none)
  check_all (step ∷ steps) p r =
      let (q, answer) = step.check p in after_check answer step.name q r (check_all steps q)

  abbrev pub keep_entry : StepResult → Applied R → Applied R
  keep_entry e (done p es err) = done p (e ∷ es) err
  keep_entry e index_panic = index_panic

  -- the body of the loop behind `step.Apply`
  abbrev pub after_apply :
      Option Err → Plan R → StepResult → List StepResult → String → Applied R → Applied R
  after_apply (some x) q e es name rest =
      done q (record e { err = some x } ∷ es) (some (applying name x))
  after_apply none q e es name rest = keep_entry (record e { applied = true }) rest

  -- `applyPending`: the steps and their entries side by side, from the i-th on
  unfoldable pub apply_pending : List (Step R) → List StepResult → Plan R → Applied R
  apply_pending [] es p = done p es none
  apply_pending (step ∷ steps) [] p = index_panic
  apply_pending (step ∷ steps) (e ∷ es) p =
      let is_due = is_pending e.verdict.condition in
      let (q, answer) = step.apply p in
      let rest = apply_pending steps es (if is_due then q else p) in
      if not is_due then keep_entry e rest else after_apply answer q e es step.name rest

  abbrev pub finish_apply : Result → Applied R → Option (Plan R × Result × Option Err)
  finish_apply r (done p es err) = some (p, fill p (record r { steps = es }), err)
  finish_apply r index_panic = none

  -- `runOver` behind its first loop; a check's error returns before `fill`
  abbrev pub after_checks :
      List (Step R) → Plan R × Result × Option Err → Option (Plan R × Result × Option Err)
  after_checks steps (p, r, some x) = some (p, r, some x)
  after_checks steps (p, r, none) =
      if r.dry_run || not (is_empty r.blocked)
      then some (p, fill p r, none)
      else finish_apply r (apply_pending steps r.steps p)

  -- `runOver`, on `opts.DryRun`; `none` is a panic
  unfoldable pub run_over : Bool → Plan R → List (Step R) → Option (Plan R × Result × Option Err)
  unfolding check_all apply_pending
  run_over dry_run plan steps = after_checks steps (check_all steps plan (start dry_run))

  -- `Plan.wantsRestart`, on `p.restartWanted == ""`
  unfoldable pub wants_restart : Plan R → String → Plan R
  wants_restart p reason =
      if str_eq p.restart_wanted "" then record p { restart_wanted = reason } else p
