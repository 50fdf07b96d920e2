-- ===== src/Winsvc/Controller/Reports.antt =====
-- What the service control manager is told: the order of the reports that `Run` sends.
use weave_adapters.Prelude.{
  ℕ, ◌+◌, ◌%◌, ◌^◌, ◌≡◌, refl, sym, subst, ◌≢◌, ◌⊎◌, inl, inr, Bool, true, false, not, Option, none,
  some, List, [], ◌∷◌, arith, if◌then◌else◌, Bool-cases,
}
use weave_adapters.Winsvc.Controller.{
  State, start_pending, running, stop_pending, stopped, Command, interrogate, stop, pre_shutdown,
  other, Report, Config, Err, serve_overran, Arrival, ready, result, request, tick, backstop,
  Session, report, drain_on_stop, control, finish, Flow, waiting, returned, leaves, request_stop,
  running_report, serve_unless_stopped, and_then, await_result, abandon, starting, serving,
  draining, begin, phases, deferred_cancel, run,
}

-- `Next p q`: the manager may be told `q` right after `p`.
pub data Next (p q : Report) : Type 0 where
  -- an interrogation is answered with the last report
  again : p.state ≢ stopped → q ≡ p → Next p q
  started : p.state ≡ start_pending → q.state ≡ running → q.accepts ≡ 3 → Next p q
  stopping :
      (p.state ≡ start_pending) ⊎ (p.state ≡ running)
      → q.state ≡ stop_pending
      → q.accepts ≡ 0
      → q.check_point ≡ 1
      → Next p q
  -- a checkpoint moves on by one, and nothing else changes
  progress :
      p.state ≡ stop_pending
      → q ≡ record p { check_point = (p.check_point + 1) % 2 ^ 32 }
      → Next p q
  ended : p.state ≢ stopped → q.state ≡ stopped → q.accepts ≡ 0 → Next p q

-- The reports, newest first: each may follow the one before, and the first one is the start.
abbrev pub Chain : Config → List Report → Type 0
Chain cfg [] = ⊥
Chain cfg (q ∷ []) =
    (q.state ≡ start_pending)
    × (q.accepts ≡ 0)
    × (q.check_point ≡ 1)
    × (q.wait_hint ≡ cfg.start_hint)
Chain cfg (q ∷ p ∷ older) = Next p q × Chain cfg (p ∷ older)

-- `last` is the report sent last, and there has been one call of `cancel` if a stop has begun.
pub record IsLive (cfg : Config) (s : Session) : Type 0 where
  pub newest : (older : List Report) × (s.sent ≡ s.last ∷ older)
  pub ordered : Chain cfg s.sent
  pub open_still : s.last.state ≢ stopped
  pub stop_began : s.last.state ≡ stop_pending → s.stopped ≡ true
  pub cancelled_once : s.cancels ≡ (if s.stopped then 1 else 0)

-- The loops have sent a legal sequence that ends in `stopped`.
pub record IsOver (cfg : Config) (s : Session) : Type 0 where
  pub ordered : Chain cfg s.sent
  pub closed : s.last.state ≡ stopped
  pub newest : (older : List Report) × (s.sent ≡ s.last ∷ older)
  pub cancelled_once : s.cancels ≡ (if s.stopped then 1 else 0)

-- `Run` has returned: as the loops left it, and the deferred call of `cancel` has come after theirs.
pub record IsReturned (cfg : Config) (s : Session) : Type 0 where
  pub ordered : Chain cfg s.sent
  pub closed : s.last.state ≡ stopped
  pub newest : (older : List Report) × (s.sent ≡ s.last ∷ older)
  pub cancelled : s.cancels ≡ (if s.stopped then 2 else 1)

abbrev pub Keeps : Config → Flow → Type 0
Keeps cfg (waiting s) = IsLive cfg s
Keeps cfg (returned r) = IsReturned cfg r.session
Keeps cfg (leaves s rest) = ⊥

Chain-cons :
    (cfg : Config) (sent : List Report) (p q : Report) (older : List Report)
    → sent ≡ p ∷ older
    → Chain cfg sent
    → Next p q
    → Chain cfg (q ∷ sent)
Chain-cons cfg [] p q older e h n = absurd h
Chain-cons cfg (r ∷ sent) p q older e h n = (subst (λ x. Next x q) (sym (ground arith)) n, h)

module _ {cfg : Config} where
  -- sending a report that may follow
  report-Chain : (s : Session) (q : Report) → IsLive cfg s → Next s.last q → Chain cfg (q ∷ s.sent)
  report-Chain s q h n = Chain-cons cfg s.sent s.last q h.newest.0 h.newest.1 h.ordered n

  finish-IsOver :
      (s : Session) (err : Option Err) → IsLive cfg s → IsOver cfg (finish s err).session
  unfolding finish
  finish-IsOver s err h = record {
    ordered = report-Chain s _ h (ended h.open_still refl refl);
    closed = refl;
    newest = (s.sent, refl);
    cancelled_once = h.cancelled_once;
  }

  tick-IsLive :
      (s : Session)
      → IsLive cfg s
      → s.last.state ≡ stop_pending
      → IsLive cfg (report s (record s.last { check_point = (s.last.check_point + 1) % 2 ^ 32 }))
  tick-IsLive s h d = record {
    newest = (s.sent, refl);
    ordered = report-Chain s _ h (progress d refl);
    open_still = h.open_still;
    stop_began = h.stop_began;
    cancelled_once = h.cancelled_once;
  }

  interrogate-IsLive : (s : Session) → IsLive cfg s → IsLive cfg (report s s.last)
  interrogate-IsLive s h = record {
    newest = (s.sent, refl);
    ordered = report-Chain s _ h (again h.open_still refl);
    open_still = h.open_still;
    stop_began = h.stop_began;
    cancelled_once = h.cancelled_once;
  }

  before_stop :
      (s : Session)
      → IsLive cfg s
      → s.stopped ≡ false
      → (s.last.state ≡ start_pending) ⊎ (s.last.state ≡ running)
  before_stop s h e = go s.last.state refl
    where
      go :
          (t : State) → s.last.state ≡ t → (s.last.state ≡ start_pending) ⊎ (s.last.state ≡ running)
      go start_pending q = inl q
      go running q = inr q
      go stop_pending q = cc (h.stop_began q)
      go stopped q = absurd (h.open_still q)

  drain_on_stop-IsLive : (s : Session) → IsLive cfg s → IsLive cfg (drain_on_stop s).0
  unfolding drain_on_stop
  drain_on_stop-IsLive s h = elim (Bool-cases s.stopped) [
    | inl e ↦ simp e h
    | inr e ↦ simp e (record {
      newest = (s.sent, refl);
      ordered = report-Chain s _ h (stopping (before_stop s h e) refl refl refl);
      open_still = λ c. cc;
      stop_began = λ c. refl;
      cancelled_once = omega (arith, rw e at h.cancelled_once);
    })
  ]

  control-IsLive : (s : Session) (cmd : Command) → IsLive cfg s → IsLive cfg (control s cmd).0
  unfolding control
  control-IsLive s interrogate h = interrogate-IsLive s h
  control-IsLive s stop h = drain_on_stop-IsLive s h
  control-IsLive s pre_shutdown h = drain_on_stop-IsLive s h
  control-IsLive s (other n) h = h

-- Before the drain: no stop has begun, and the last report is of state `t`.
abbrev Before : State → Config → Session → Type 0
Before t cfg s = IsLive cfg s × (s.stopped ≡ false) × (s.last.state ≡ t)

abbrev InDrain : Config → Session → Type 0
InDrain cfg s = IsLive cfg s × (s.stopped ≡ true) × (s.last.state ≡ stop_pending)

control-InDrain :
    {cfg : Config} {t : State} (s : Session) (cmd : Command)
    → Before t cfg s
    → (control s cmd).1 ≡ true
    → InDrain cfg (control s cmd).0
control-InDrain {cfg} {t} s cmd (h, e, l) d =
    (control-IsLive s cmd h, (drains s cmd e d).0, (drains s cmd e d).1)
  where
    drains :
        (s : Session) (cmd : Command)
        → s.stopped ≡ false
        → (control s cmd).1 ≡ true
        → ((control s cmd).0.stopped ≡ true) × ((control s cmd).0.last.state ≡ stop_pending)
    drains s cmd e d = unfold control in ground arith

control-Before :
    {cfg : Config} {t : State} (s : Session) (cmd : Command)
    → Before t cfg s
    → (control s cmd).1 ≡ false
    → Before t cfg (control s cmd).0
control-Before {cfg} {t} s cmd (h, e, l) d =
    (control-IsLive s cmd h, (stays s cmd e d l).0, (stays s cmd e d l).1)
  where
    stays :
        (s : Session) (cmd : Command)
        → s.stopped ≡ false
        → (control s cmd).1 ≡ false
        → s.last.state ≡ t
        → ((control s cmd).0.stopped ≡ false) × ((control s cmd).0.last.state ≡ t)
    stays s cmd e d l = unfold control in ground arith

control_draining :
    {cfg : Config} (s : Session) (cmd : Command) → InDrain cfg s → InDrain cfg (control s cmd).0
control_draining {cfg} s cmd (h, e, l) =
    (control-IsLive s cmd h, (stays s cmd e l).0, (stays s cmd e l).1)
  where
    stays :
        (s : Session) (cmd : Command)
        → s.stopped ≡ true
        → s.last.state ≡ stop_pending
        → ((control s cmd).0.stopped ≡ true) × ((control s cmd).0.last.state ≡ stop_pending)
    stays s cmd e l = unfold control in ground arith

-- The two ways in which `starting` and `serving` are left.
abbrev Leaves : Config → Session → Type 0
Leaves cfg s = Before running cfg s ⊎ InDrain cfg s

abbrev KeepsTo : (Session → Type 0) → Config → Flow → Type 0
KeepsTo P cfg (waiting s) = IsLive cfg s
KeepsTo P cfg (returned r) = IsOver cfg r.session
KeepsTo P cfg (leaves s rest) = P s

module _ (P : Session → Type 0) (cfg : Config) where
  leave-KeepsTo :
      (d : Bool) (s : Session) (rest : List Arrival) (next : Flow)
      → (d ≡ true → P s)
      → (d ≡ false → KeepsTo P cfg next)
      → KeepsTo P cfg (if d then leaves s rest else next)
  leave-KeepsTo true s rest next h k = h refl
  leave-KeepsTo false s rest next h k = k refl

  await_result-KeepsTo :
      (s : Session) (rest : List Arrival) → IsLive cfg s → KeepsTo P cfg (await_result s rest)
  unfolding await_result
  await_result-KeepsTo s [] h = h
  await_result-KeepsTo s (result err ∷ rest) h = finish-IsOver s err h
  await_result-KeepsTo s (backstop ∷ rest) h = finish-IsOver s (some serve_overran) h
  await_result-KeepsTo s (ready ∷ rest) h = await_result-KeepsTo s rest h
  await_result-KeepsTo s (request r ∷ rest) h = await_result-KeepsTo s rest h
  await_result-KeepsTo s (tick ∷ rest) h = await_result-KeepsTo s rest h

  abandon-KeepsTo :
      (s : Session) (rest : List Arrival) → IsLive cfg s → KeepsTo P cfg (abandon s rest)
  unfolding abandon
  abandon-KeepsTo s rest h = await_result-KeepsTo _ rest (given (Bool-cases s.stopped))
    where
      given :
          (s.stopped ≡ true) ⊎ (s.stopped ≡ false)
          → IsLive cfg (if not s.stopped then request_stop s else s)
      given (inl e) = simp e h
      given (inr e) = simp e (record {
        newest = h.newest;
        ordered = h.ordered;
        open_still = h.open_still;
        stop_began = λ c. refl;
        cancelled_once = omega (arith, rw e at h.cancelled_once);
      })

and_then-KeepsTo :
    (cfg : Config) (P Q : Session → Type 0) (f : Flow) (next : Session → List Arrival → Flow)
    → KeepsTo P cfg f
    → ((s : Session) (rest : List Arrival) → P s → KeepsTo Q cfg (next s rest))
    → KeepsTo Q cfg (and_then f next)
and_then-KeepsTo cfg P Q (waiting s) next h k = h
and_then-KeepsTo cfg P Q (returned r) next h k = h
and_then-KeepsTo cfg P Q (leaves s rest) next h k = k s rest h

module _ {cfg : Config} where
  running-Before :
      (s : Session) → Before start_pending cfg s → Before running cfg (report s running_report)
  running-Before s (h, e, l) = (
    record {
      newest = (s.sent, refl);
      ordered = report-Chain s _ h (started l refl refl);
      open_still = λ c. cc;
      stop_began = λ c. cc;
      cancelled_once = h.cancelled_once;
    },
    e,
    refl,
  )

  starting-KeepsTo :
      (s : Session) (rest : List Arrival)
      → Before start_pending cfg s
      → KeepsTo (Leaves cfg) cfg (starting s rest)
  unfolding starting
  starting-KeepsTo s [] h = h.0
  starting-KeepsTo s (ready ∷ rest) h = inl (running-Before s h)
  starting-KeepsTo s (result err ∷ rest) h = finish-IsOver s err h.0
  starting-KeepsTo s (request none ∷ rest) h = abandon-KeepsTo (Leaves cfg) cfg s rest h.0
  starting-KeepsTo s (request (some cmd) ∷ rest) h =
      leave-KeepsTo (Leaves cfg) cfg (control s cmd).1 _ rest _
        (λ d. inr (control-InDrain s cmd h d))
        (λ d. starting-KeepsTo (control s cmd).0 rest (control-Before s cmd h d))
  starting-KeepsTo s (tick ∷ rest) h = starting-KeepsTo s rest h
  starting-KeepsTo s (backstop ∷ rest) h = starting-KeepsTo s rest h

  serving-KeepsTo :
      (s : Session) (rest : List Arrival)
      → Before running cfg s
      → KeepsTo (InDrain cfg) cfg (serving s rest)
  unfolding serving
  serving-KeepsTo s [] h = h.0
  serving-KeepsTo s (result err ∷ rest) h = finish-IsOver s err h.0
  serving-KeepsTo s (request none ∷ rest) h = abandon-KeepsTo (InDrain cfg) cfg s rest h.0
  serving-KeepsTo s (request (some cmd) ∷ rest) h =
      leave-KeepsTo (InDrain cfg) cfg (control s cmd).1 _ rest _ (λ d. control-InDrain s cmd h d)
        (λ d. serving-KeepsTo (control s cmd).0 rest (control-Before s cmd h d))
  serving-KeepsTo s (ready ∷ rest) h = serving-KeepsTo s rest h
  serving-KeepsTo s (tick ∷ rest) h = serving-KeepsTo s rest h
  serving-KeepsTo s (backstop ∷ rest) h = serving-KeepsTo s rest h

  draining-KeepsTo :
      (s : Session) (rest : List Arrival) → InDrain cfg s → KeepsTo (λ _. ⊥) cfg (draining s rest)
  unfolding draining
  draining-KeepsTo s [] h = h.0
  draining-KeepsTo s (result err ∷ rest) h = finish-IsOver s err h.0
  draining-KeepsTo s (tick ∷ rest) (h, e, l) =
      draining-KeepsTo
        (report s (record s.last { check_point = (s.last.check_point + 1) % 2 ^ 32 })) rest
        (tick-IsLive s h l, e, l)
  draining-KeepsTo s (backstop ∷ rest) h = finish-IsOver s (some serve_overran) h.0
  draining-KeepsTo s (request none ∷ rest) h = abandon-KeepsTo (λ _. ⊥) cfg s rest h.0
  draining-KeepsTo s (request (some cmd) ∷ rest) h =
      draining-KeepsTo (control s cmd).0 rest (control_draining s cmd h)
  draining-KeepsTo s (ready ∷ rest) h = draining-KeepsTo s rest h

  serve_unless_stopped-KeepsTo :
      (s : Session) (rest : List Arrival)
      → Leaves cfg s
      → KeepsTo (InDrain cfg) cfg (serve_unless_stopped s rest)
  serve_unless_stopped-KeepsTo s rest (inl h) = simp h.1 (serving-KeepsTo s rest h)
  serve_unless_stopped-KeepsTo s rest (inr (h, e, l)) =
      subst (λ b. KeepsTo (InDrain cfg) cfg (if not b then serving s rest else leaves s rest))
        (sym e) (h, e, l)

begin-Before : (cfg : Config) → Before start_pending cfg (begin cfg)
begin-Before cfg = (
  record {
    newest = ([], refl);
    ordered = (refl, refl, refl, refl);
    open_still = λ c. cc;
    stop_began = λ c. cc;
    cancelled_once = refl;
  },
  refl,
  refl,
)

cancelled_twice : (b : Bool) (n : ℕ) → n ≡ (if b then 1 else 0) → n + 1 ≡ (if b then 2 else 1)
cancelled_twice true n h = omega (arith, h)
cancelled_twice false n h = omega (arith, h)

deferred_cancel-Keeps :
    (cfg : Config) (f : Flow) → KeepsTo (λ _. ⊥) cfg f → Keeps cfg (deferred_cancel f)
deferred_cancel-Keeps cfg (waiting s) h = h
deferred_cancel-Keeps cfg (returned r) h = record {
  ordered = h.ordered;
  closed = h.closed;
  newest = h.newest;
  cancelled = cancelled_twice r.session.stopped r.session.cancels h.cancelled_once;
}
deferred_cancel-Keeps cfg (leaves s rest) h = absurd h

-- Whatever arrives in whatever order, the reports sent form a legal sequence for the service
-- manager: it begins in `start_pending`, goes on to `running` (where alone stops are accepted) and
-- `stop_pending` and never back, its checkpoints move on one at a time, and `stopped` comes last
-- and exactly when `Run` returns. While `Run` has not returned, `cancel` was called once if a stop
-- has begun and else never; each return calls it once more.
pub run-Keeps : (cfg : Config) (arrivals : List Arrival) → Keeps cfg (run cfg arrivals)
unfolding run phases
run-Keeps cfg arrivals = deferred_cancel-Keeps cfg _ (
    and_then-KeepsTo cfg (InDrain cfg) (λ _. ⊥) _ draining
      (and_then-KeepsTo cfg (Leaves cfg) (InDrain cfg) _ serve_unless_stopped
        (starting-KeepsTo (begin cfg) arrivals (begin-Before cfg)) serve_unless_stopped-KeepsTo)
      draining-KeepsTo)
