-- ===== src/Health.antt =====
-- internal/core/health: component.go and health.go. Instants and durations are numbers; a probe's answer, at
-- each time that the probes run, is an argument.
pub mod Worst
mod Tests
use weave_adapters.Prelude.Text.{Text}
use weave_adapters.Prelude.{
  ℕ, ◌+◌, ◌-◌, ◌*◌, ◌^◌, Bool, true, false, not, ◌&&◌, ◌||◌, Option, none, some, List, [], ◌∷◌,
  String, str_eq, leb, ltb, if◌then◌else◌,
}

-- `Status`; a text that is none of the three is another one, and the zero value is the empty text
pub data Status : Type 0 where
  healthy unhealthy unavailable : Status
  other : String → Status

pub record Component : Type 0 where
  pub name : String
  pub status : Status
  pub detail : String

-- `rank`
unfoldable pub rank : Status → ℕ
rank healthy = 0
rank unhealthy = 1
rank unavailable = 2
rank (other s) = 3

-- the loop of `overallStatus`
unfoldable pub worst_from : Status → List Component → Status
worst_from worst [] = worst
worst_from worst (c ∷ cs) =
    worst_from (if ltb (rank worst) (rank c.status) then c.status else worst) cs

-- `overallStatus`
unfoldable pub overall_status : List Component → Status
overall_status cs = worst_from healthy cs

-- `httpStatus`
unfoldable pub http_status : Status → ℕ
http_status healthy = 200
http_status unhealthy = 200
http_status unavailable = 503
http_status (other s) = 503

-- `coreProbe`
abbrev pub core_component : Component
core_component = record { name = "core"; status = healthy; detail = "adapter core running" }

-- 5 seconds, in nanoseconds
abbrev pub probe_cache_ttl : ℕ
probe_cache_ttl = 5 * 10 ^ 9

-- `last` is the empty text before the first evaluation
pub record Handler : Type 0 where
  pub ttl : ℕ
  pub components : Option (List Component)
  pub checked_at : ℕ
  pub last : Status

-- `NewHandler`
abbrev pub new_handler : Handler
new_handler = record { ttl = probe_cache_ttl; components = none; checked_at = 0; last = other "" }

abbrev pub is_stale : Handler → ℕ → Option (List Component) → Bool
is_stale h now none = true
is_stale h now (some cs) = leb (h.checked_at + h.ttl) now

abbrev pub same_status : Status → Status → Bool
same_status healthy healthy = true
same_status unhealthy unhealthy = true
same_status unavailable unavailable = true
same_status (other s) (other t) = str_eq s t
same_status _ _ = false

-- the statuses between which the overall one went, if it did
abbrev pub transition : Status → Status → Option (Status × Status)
transition from overall =
    if same_status from (other "")
    then none
    else if same_status overall from
    then none
    else some (from, overall)

abbrev pub evaluated : Handler → ℕ → List Component → Handler × Status × Option (Status × Status)
evaluated h checked_at cs = (
  record h { components = some cs; checked_at = checked_at; last = overall_status cs },
  overall_status cs,
  transition h.last (overall_status cs),
)

abbrev pub cached : Option (List Component) → List Component
cached none = []
cached (some cs) = cs

-- `refresh` and the event of `evaluate`: `now` is read before the probes, `after` behind them, and `probed` is
-- what `runProbes` would give
unfoldable pub refresh :
    ℕ → ℕ → List Component → Handler → Handler × Status × Option (Status × Status)
refresh now after probed h =
    if is_stale h now h.components
    then evaluated h after (core_component ∷ probed)
    else evaluated h h.checked_at (cached h.components)
