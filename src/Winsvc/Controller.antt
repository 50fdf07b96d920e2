-- ===== src/Winsvc/Controller.antt =====
-- internal/core/winsvc/controller.go: the service control state machine.
-- A `select` takes whichever of its channels is ready, so a run is read off the order in which
-- values arrive: a list of arrivals. What a `select` does not listen to stays unread and changes
-- nothing. What the controller does to the outside, the reports that it sends and its calls of
-- `cancel`, is kept in the session beside the source's fields.
pub mod Reports
pub mod Returns
pub mod Settings
mod Tests
use Prim.Native.Nat.{bit_or}
use weave_adapters.Prelude.Int.{ℤ, pos, negsuc, is_positive, add64}
use weave_adapters.Prelude.{
  ℕ, ◌+◌, ◌*◌, ◌%◌, ◌^◌, ◌≡◌, Bool, true, false, not, ◌&&◌, ◌||◌, Option, none, some, List, [], ◌∷◌,
  String, if◌then◌else◌,
}

pub data State : Type 0 where
  start_pending running stop_pending stopped : State

pub data Command : Type 0 where
  interrogate stop pre_shutdown : Command
  -- any other value of the integer type
  other : ℕ → Command

abbrev pub accept_stop : ℕ
accept_stop = 1

abbrev pub accept_pre_shutdown : ℕ
accept_pre_shutdown = 2

pub record Report : Type 0 where
  pub state : State
  pub accepts : ℕ  -- uint32
  pub check_point : ℕ  -- uint32
  pub wait_hint : ℤ  -- time.Duration

pub record Outcome : Type 0 where
  pub service_specific : Bool
  pub code : ℕ  -- uint32

-- what `Serve` returns when it fails, and the controller's own error
pub data Err : Type 0 where
  serve_failed : String → Err
  serve_overran : Err

-- nanoseconds
abbrev pub second : ℕ
second = 1_000_000_000

abbrev pub default_start_hint : ℤ
default_start_hint = pos (15 * second)

abbrev pub default_checkpoint_every : ℤ
default_checkpoint_every = pos (2 * second)

abbrev pub default_drain_margin : ℤ
default_drain_margin = pos (5 * second)

abbrev pub drain_deadline : ℤ → ℤ
drain_deadline budget = add64 budget default_drain_margin

-- `has_serve` and `has_report` say that the two functions are not nil.
pub record Config : Type 0 where
  pub has_serve : Bool
  pub has_report : Bool
  pub drain_budget : ℤ
  pub start_hint : ℤ
  pub checkpoint_every : ℤ
  pub drain_margin : ℤ

-- a duration, or its default where it is not positive
or_default : ℤ → ℤ → ℤ
or_default d default = if not (is_positive d) then default else d

-- `New`; `none` is a panic
unfoldable pub new : Config → Option Config
unfolding or_default
new cfg =
    if not cfg.has_serve
    then none
    else if not cfg.has_report
    then none
    else if not (is_positive cfg.drain_budget)
    then none
    else some (record cfg {
      start_hint = or_default cfg.start_hint default_start_hint;
      checkpoint_every = or_default cfg.checkpoint_every default_checkpoint_every;
      drain_margin = or_default cfg.drain_margin default_drain_margin;
    })

-- What a `select` can take: `ready` closed, the value of `Serve`, a request (`none`: the channel is
-- closed), the checkpoint ticker, the backstop timer.
pub data Arrival : Type 0 where
  ready : Arrival
  result : Option Err → Arrival
  request : Option Command → Arrival
  tick : Arrival
  backstop : Arrival

-- `sent` holds the reports, newest first, and `cancels` counts the calls of `cancel`.
pub record Session : Type 0 where
  pub cfg : Config
  pub last : Report
  pub stopped : Bool
  pub sent : List Report
  pub cancels : ℕ

abbrev pub report : Session → Report → Session
report s r = record s { last = r; sent = r ∷ s.sent }

abbrev pub drain_hint : Session → ℤ
drain_hint s = add64 s.cfg.drain_budget s.cfg.drain_margin

abbrev request_stop : Session → Session
request_stop s = record s { stopped = true; cancels = s.cancels + 1 }

abbrev stop_report : Session → Report
stop_report s = record {
  state = stop_pending;
  accepts = 0;
  check_point = 1;
  wait_hint = drain_hint s;
}

-- the case `CmdStop, CmdPreShutdown` of `control`
drain_on_stop : Session → Session × Bool
drain_on_stop s = if s.stopped then (s, true) else (report (request_stop s) (stop_report s), true)

unfoldable pub control : Session → Command → Session × Bool
unfolding drain_on_stop
control s interrogate = (report s s.last, false)
control s stop = drain_on_stop s
control s pre_shutdown = drain_on_stop s
control s (other n) = (s, s.stopped)

pub record Returned : Type 0 where
  pub session : Session
  pub outcome : Outcome
  pub error : Option Err

abbrev final_report : Report
final_report = record { state = stopped; accepts = 0; check_point = 0; wait_hint = pos 0 }

abbrev pub is_some {ℓ} : {A : Type ℓ} → Option A → Bool
is_some none = false
is_some (some a) = true

unfoldable pub finish : Session → Option Err → Returned
finish s err = record {
  session = report s final_report;
  outcome =
      if is_some err && not s.stopped
      then record { service_specific = true; code = 1 }
      else record { service_specific = false; code = 0 };
  error = err;
}

-- How a loop ends: it still waits when the arrivals run out, `Run` returns, or the loop is left.
pub data Flow : Type 0 where
  waiting : Session → Flow
  returned : Returned → Flow
  leaves : Session → List Arrival → Flow

-- the last `select` of `abandon`
await_result : Session → List Arrival → Flow
await_result s [] = waiting s
await_result s (result err ∷ rest) = returned (finish s err)
await_result s (backstop ∷ rest) = returned (finish s (some serve_overran))
await_result s (ready ∷ rest) = await_result s rest
await_result s (request r ∷ rest) = await_result s rest
await_result s (tick ∷ rest) = await_result s rest

unfoldable pub abandon : Session → List Arrival → Flow
unfolding await_result finish
abandon s rest = await_result (if not s.stopped then request_stop s else s) rest

abbrev running_report : Report
running_report = record {
  state = running;
  accepts = bit_or accept_stop accept_pre_shutdown;
  check_point = 0;
  wait_hint = pos 0;
}

-- leave the loop if a stop has begun
abbrev leave_if : Bool → Session → List Arrival → Flow → Flow
leave_if draining s rest continue = if draining then leaves s rest else continue

unfoldable pub starting : Session → List Arrival → Flow
unfolding abandon control finish
starting s [] = waiting s
starting s (ready ∷ rest) = leaves (report s running_report) rest
starting s (result err ∷ rest) = returned (finish s err)
starting s (request none ∷ rest) = abandon s rest
starting s (request (some cmd) ∷ rest) =
    leave_if (control s cmd).1 (control s cmd).0 rest (starting (control s cmd).0 rest)
starting s (tick ∷ rest) = starting s rest
starting s (backstop ∷ rest) = starting s rest

unfoldable pub serving : Session → List Arrival → Flow
unfolding abandon control finish
serving s [] = waiting s
serving s (result err ∷ rest) = returned (finish s err)
serving s (request none ∷ rest) = abandon s rest
serving s (request (some cmd) ∷ rest) =
    leave_if (control s cmd).1 (control s cmd).0 rest (serving (control s cmd).0 rest)
serving s (ready ∷ rest) = serving s rest
serving s (tick ∷ rest) = serving s rest
serving s (backstop ∷ rest) = serving s rest

-- `next := s.last; next.CheckPoint++`
abbrev checkpoint : Report → Report
checkpoint r = record r { check_point = (r.check_point + 1) % 2 ^ 32 }

unfoldable pub draining : Session → List Arrival → Flow
unfolding abandon control finish
draining s [] = waiting s
draining s (result err ∷ rest) = returned (finish s err)
draining s (tick ∷ rest) = draining (report s (checkpoint s.last)) rest
draining s (backstop ∷ rest) = returned (finish s (some serve_overran))
draining s (request none ∷ rest) = abandon s rest
draining s (request (some cmd) ∷ rest) = draining (control s cmd).0 rest
draining s (ready ∷ rest) = draining s rest

-- the loops of `Run` in turn, from where the one before was left
abbrev and_then : Flow → (Session → List Arrival → Flow) → Flow
and_then (waiting s) next = waiting s
and_then (returned r) next = returned r
and_then (leaves s rest) next = next s rest

abbrev serve_unless_stopped : Session → List Arrival → Flow
serve_unless_stopped s rest = if not s.stopped then serving s rest else leaves s rest

abbrev start_report : Config → Report
start_report cfg = record {
  state = start_pending;
  accepts = 0;
  check_point = 1;
  wait_hint = cfg.start_hint;
}

abbrev pub begin : Config → Session
begin cfg = record {
  cfg = cfg;
  last = start_report cfg;
  stopped = false;
  sent = start_report cfg ∷ [];
  cancels = 0;
}

-- the loops of `Controller.Run` on the arrivals in their order
unfoldable pub phases : Config → List Arrival → Flow
unfolding starting serving draining
phases cfg arrivals =
    and_then (and_then (starting (begin cfg) arrivals) serve_unless_stopped) draining

-- `defer cancel()`
abbrev pub canceled : Returned → Returned
canceled r = record r { session = record r.session { cancels = r.session.cancels + 1 } }

abbrev pub deferred_cancel : Flow → Flow
deferred_cancel (waiting s) = waiting s
deferred_cancel (returned r) = returned (canceled r)
deferred_cancel (leaves s rest) = leaves s rest

-- `Controller.Run`
unfoldable pub run : Config → List Arrival → Flow
unfolding phases
run cfg arrivals = deferred_cancel (phases cfg arrivals)
