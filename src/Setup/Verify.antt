-- ===== src/Setup/Verify.antt =====
-- internal/core/setup/verify.go: the step that waits for the service and shows it the token. Each round of the
-- loop sees what `Observed` says. An error is its format, without what it names.
pub mod Ends
mod Tests
use Prim.Native.String.{◌++◌ as str_append}
use weave_adapters.Prelude.{
  ℕ, zero, suc, ◌+◌, ◌*◌, ◌^◌, Bool, true, false, not, ◌&&◌, ◌||◌, Option, none, some, List, [],
  ◌∷◌, String, str_eq, ltb, ◌==◌, if◌then◌else◌,
}
use weave_adapters.Setup.Reconcile.{
  pending, Verdict, Err, step_failed, HealthReport, no_health, Plan, Checked, verdict,
}
use weave_adapters.Health.{Status, healthy, unhealthy, unavailable, other, Component}

-- an answer to a request: its status and its body
pub record Answer : Type 0 where
  pub status : ℕ
  pub body : List ℕ

-- One round: the answer, or none for an error; whether the context ended before or during the wait; and
-- the time behind the request.
pub record Observed : Type 0 where
  pub answer : Option Answer
  pub canceled : Bool
  pub now : ℕ
  pub canceled_waiting : Bool

-- 1 second, in nanoseconds
abbrev pub verify_poll : ℕ
verify_poll = 10 ^ 9

abbrev pub status_text : Status → String
status_text healthy = "healthy"
status_text unhealthy = "unhealthy"
status_text unavailable = "unavailable"
status_text (other s) = s

abbrev is_healthy : Status → Bool
is_healthy healthy = true
is_healthy _ = false

-- the loop of `readComponent`
unfoldable pub read_listed : HealthReport → List Component → HealthReport
read_listed r [] = record r { detail = "no component named %q is registered" }
read_listed r (c ∷ cs) = if not (str_eq c.name r.component) then read_listed r cs else record r {
  component_healthy = is_healthy c.status;
  detail =
      if str_eq c.detail ""
      then status_text c.status
      else str_append (str_append (status_text c.status) ": ") c.detail;
}

abbrev read_parsed : HealthReport → Option (List Component) → HealthReport
read_parsed r none = record r { detail = "the health response could not be parsed: %w" }
read_parsed r (some cs) = read_listed r cs

-- `readComponent`; `parse` is the JSON library's
unfoldable pub read_component :
    (List ℕ → Option (List Component)) → HealthReport → List ℕ → HealthReport
read_component parse r body = read_parsed r (parse body)

abbrev pub canceled_error : Err
canceled_error = step_failed "context canceled"

abbrev pub is_answer : Option Answer → Bool
is_answer none = false
is_answer (some a) = ltb 0 a.status

abbrev body_of : Option Answer → List ℕ
body_of none = []
body_of (some a) = a.body

abbrev pub reached :
    (List ℕ → Option (List Component)) → HealthReport → Option Answer → HealthReport × Option Err
reached parse r a = (read_component parse (record r { reachable = true }) (body_of a), none)

module _ (parse : List ℕ → Option (List Component)) (seen : ℕ → Observed) (deadline : ℕ) where
  -- the loop of `pollHealth` from its i-th round on; `none` is out of fuel
  unfoldable pub poll_from : ℕ → ℕ → HealthReport → Option (HealthReport × Option Err)
  poll_from zero i r = none
  poll_from (suc fuel) i r =
      let o = seen i in
      let rest = poll_from fuel (suc i) r in
      if is_answer o.answer
      then some (reached parse r o.answer)
      else if o.canceled
      then some (r, some canceled_error)
      else if not (ltb o.now deadline)
      then some (r, none)
      else if o.canceled_waiting
      then some (r, some canceled_error)
      else rest

-- `pollHealth`, from the instant `started`
unfoldable pub poll_health :
    (List ℕ → Option (List Component))
    → (ℕ → Observed)
    → ℕ
    → ℕ
    → String
    → ℕ
    → Option (HealthReport × Option Err)
poll_health parse seen started budget component fuel =
    poll_from parse seen (started + budget) fuel 0
      (record no_health { checked = true; component = component })

-- What `proveAuth` reads: the options, the configuration and the answer of the protected route.
pub record Protected : Type 0 where
  pub auth_disabled : Bool
  pub protected_path : String
  pub answer : Option Answer

abbrev pub skipped : String → HealthReport → HealthReport
skipped reason r = record r { auth_skipped = true; auth_skip_reason = reason }

abbrev pub proved : Option Answer → HealthReport → HealthReport
proved none r = skipped "the protected route could not be reached: %w" r
proved (some a) r = if not (a.status == 401) then record r { auth_proved = true } else record r {
  auth_proved = false;
  auth_rejected = "%s answered 401 to the token this run minted: the service is not reading %s";
}

-- `proveAuth`, with the token of the plan
unfoldable pub prove_auth : Protected → String → HealthReport → HealthReport
prove_auth x token r =
    if x.auth_disabled
    then skipped "disableAuth is true, so no route is authenticated" r
    else if str_eq x.protected_path ""
    then skipped "no protected route was named to test against" r
    else if str_eq token ""
    then skipped "no token was minted this run, so none is available to present" r
    else proved x.answer r

abbrev pub with_health : {R : Type 0} → HealthReport → Plan R → Plan R
with_health r p = record p { health = r }

abbrev pub verified :
    {R : Type 0} → Protected → Plan R → HealthReport × Option Err → Plan R × Option Err
verified x p (r, some e) = (p, some e)
verified x p (r, none) =
    let proof = prove_auth x p.token r in
    if not r.reachable
    then (with_health r p, some (step_failed "%s was started but never answered %s within %s"))
    else if not proof.auth_skipped && not proof.auth_proved
    then (with_health proof p, some (step_failed "%s answered 401 to the token this run minted"))
    else (with_health proof p, none)

abbrev pub verified_in :
    {R : Type 0}
    → Protected
    → Plan R
    → Option (HealthReport × Option Err)
    → Option (Plan R × Option Err)
verified_in x p none = none
verified_in x p (some a) = some (verified x p a)

-- `verifyStep.Apply`; `none` is out of fuel
unfoldable pub apply_verify :
    {R : Type 0}
    → (List ℕ → Option (List Component))
    → (ℕ → Observed)
    → (started budget : ℕ) → String
    → Protected
    → (fuel : ℕ) → Plan R
    → Option (Plan R × Option Err)
apply_verify parse seen started budget component x fuel p =
    verified_in x p (poll_health parse seen started budget component fuel)
