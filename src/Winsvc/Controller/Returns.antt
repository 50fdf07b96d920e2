-- ===== src/Winsvc/Controller/Returns.antt =====
-- When `Run` returns, and with which outcome: what decides whether the service manager's recovery
-- actions restart the service.
use weave_adapters.Prelude.{
  ℕ, ◌+◌, ◌≡◌, refl, sym, ap, subst, ◌∙◌, ◌⊎◌, inl, inr, Bool, true, false, Option, none, some,
  List, [], ◌∷◌, ◌++◌, arith, contains_func,
}
use weave_adapters.Winsvc.Controller.{
  Command, interrogate, stop, pre_shutdown, other, Config, Err, serve_overran, Outcome, Arrival,
  ready, result, request, tick, backstop, Session, report, control, Returned, finish, Flow, waiting,
  returned, leaves, await_result, abandon, starting, serving, draining, serve_unless_stopped,
  and_then, running_report, begin, phases, canceled, deferred_cancel, run,
}

-- arrivals that neither end the run nor begin a stop
abbrev pub is_quiet : Arrival → Bool
is_quiet ready = true
is_quiet (result err) = false
is_quiet (request none) = false
is_quiet (request (some interrogate)) = true
is_quiet (request (some stop)) = false
is_quiet (request (some pre_shutdown)) = false
is_quiet (request (some (other n))) = true
is_quiet tick = true
is_quiet backstop = true

abbrev pub Quiet : List Arrival → Type 0
Quiet [] = Unit
Quiet (a ∷ rest) = (is_quiet a ≡ true) × Quiet rest

-- `Serve` returns, or the backstop goes off
abbrev pub is_end : Arrival → Bool
is_end (result err) = true
is_end backstop = true
is_end _ = false

abbrev pub is_stop : Command → Bool
is_stop stop = true
is_stop pre_shutdown = true
is_stop _ = false

abbrev pub clean : Outcome
clean = record { service_specific = false; code = 0 }

abbrev pub failure : Outcome
failure = record { service_specific = true; code = 1 }

-- `Run` from each of its loops on
abbrev from_start : Session → List Arrival → Flow
from_start s rest = and_then (and_then (starting s rest) serve_unless_stopped) draining

abbrev from_serving : Session → List Arrival → Flow
from_serving s rest = and_then (serving s rest) draining

control_quiet :
    (s : Session) (cmd : Command)
    → s.stopped ≡ false
    → is_stop cmd ≡ false
    → ((control s cmd).0.stopped ≡ false)
      × ((control s cmd).1 ≡ false)
      × ((control s cmd).0.cancels ≡ s.cancels)
unfolding control
control_quiet s cmd e q = ground arith

from_serving-Quiet :
    (pre rest : List Arrival) (s : Session)
    → s.stopped ≡ false
    → Quiet pre
    → (t : Session) × (t.stopped ≡ false)
      × (t.cancels ≡ s.cancels)
      × (from_serving s (pre ++ rest) ≡ from_serving t rest)
unfolding serving
from_serving-Quiet [] rest s e q = (s, e, refl, refl)
from_serving-Quiet (ready ∷ pre) rest s e q = from_serving-Quiet pre rest s e q.1
from_serving-Quiet (result err ∷ pre) rest s e q = cc (q.0)
from_serving-Quiet (request none ∷ pre) rest s e q = cc (q.0)
from_serving-Quiet (request (some cmd) ∷ pre) rest s e q =
    let (e', d, c) = control_quiet s cmd e (ground arith) in
    let (t, u, v, w) = from_serving-Quiet pre rest (control s cmd).0 e' q.1 in (t, u, v ∙ c, rw d w)
from_serving-Quiet (tick ∷ pre) rest s e q = from_serving-Quiet pre rest s e q.1
from_serving-Quiet (backstop ∷ pre) rest s e q = from_serving-Quiet pre rest s e q.1

serve_unless_stopped-serving :
    (s : Session) (rest : List Arrival)
    → s.stopped ≡ false
    → serve_unless_stopped s rest ≡ serving s rest
serve_unless_stopped-serving s rest e = simp e

-- `Run` is past `starting` once `ready` was taken, so there are two places to be in.
from_start-Quiet :
    (pre rest : List Arrival) (s : Session)
    → s.stopped ≡ false
    → Quiet pre
    → (t : Session) × (t.stopped ≡ false)
      × (t.cancels ≡ s.cancels)
      × ((from_start s (pre ++ rest) ≡ from_start t rest)
          ⊎ (from_start s (pre ++ rest) ≡ from_serving t rest))
unfolding starting
from_start-Quiet [] rest s e q = (s, e, refl, inl refl)
from_start-Quiet (ready ∷ pre) rest s e q =
    let (t, u, v, w) = from_serving-Quiet pre rest (report s running_report) e q.1 in
    let enter = serve_unless_stopped-serving (report s running_report) (pre ++ rest) e in
    (t, u, v, inr (ap (λ f. and_then f draining) enter ∙ w))
from_start-Quiet (result err ∷ pre) rest s e q = cc (q.0)
from_start-Quiet (request none ∷ pre) rest s e q = cc (q.0)
from_start-Quiet (request (some cmd) ∷ pre) rest s e q =
    let (e', d, c) = control_quiet s cmd e (ground arith) in
    let (t, u, v, w) = from_start-Quiet pre rest (control s cmd).0 e' q.1 in (t, u, v ∙ c, rw d w)
from_start-Quiet (tick ∷ pre) rest s e q = from_start-Quiet pre rest s e q.1
from_start-Quiet (backstop ∷ pre) rest s e q = from_start-Quiet pre rest s e q.1

-- What holds of both loops, from any session in which no stop has begun, holds of `Run`'s loops
-- behind a quiet prefix.
phases_quiet :
    (P : Flow → Type 0) (cfg : Config) (pre rest : List Arrival)
    → Quiet pre
    → ((t : Session)
        → t.stopped ≡ false
        → t.cancels ≡ 0
        → P (from_start t rest) × P (from_serving t rest))
    → P (phases cfg (pre ++ rest))
unfolding phases
phases_quiet P cfg pre rest q h =
    let (t, u, c, w) = from_start-Quiet pre rest (begin cfg) refl q in
    elim w [ inl e ↦ subst P (sym e) (h t u c).0 | inr e ↦ subst P (sym e) (h t u c).1 ]

abbrev pub ReturnsWith : (Returned → Type 0) → Flow → Type 0
ReturnsWith P (waiting s) = ⊥
ReturnsWith P (returned r) = P r
ReturnsWith P (leaves s rest) = ⊥

ReturnsWith-canceled :
    (P Q : Returned → Type 0) (f : Flow)
    → ((r : Returned) → P r → Q (canceled r))
    → ReturnsWith P f
    → ReturnsWith Q (deferred_cancel f)
ReturnsWith-canceled P Q (waiting s) c h = absurd h
ReturnsWith-canceled P Q (returned r) c h = c r h
ReturnsWith-canceled P Q (leaves s rest) c h = absurd h

-- `Serve` failed with `e` and nobody had asked for a stop: `cancel` was called `n` times.
abbrev pub Failed : ℕ → Err → Returned → Type 0
Failed n e r = (r.outcome ≡ failure) × (r.error ≡ some e) × (r.session.cancels ≡ n)

phases-Failed :
    (cfg : Config) (pre post : List Arrival) (e : Err)
    → Quiet pre
    → ReturnsWith (Failed 0 e) (phases cfg (pre ++ result (some e) ∷ post))
phases-Failed cfg pre post e q =
    phases_quiet (ReturnsWith (Failed 0 e)) cfg pre (result (some e) ∷ post) q
      (λ t u c. (failed-starting t u c, failed-serving t u c))
  where
    failed-starting :
        (t : Session)
        → t.stopped ≡ false
        → t.cancels ≡ 0
        → ReturnsWith (Failed 0 e) (from_start t (result (some e) ∷ post))
    failed-starting t u c = unfold starting in (simp u, refl, c)

    failed-serving :
        (t : Session)
        → t.stopped ≡ false
        → t.cancels ≡ 0
        → ReturnsWith (Failed 0 e) (from_serving t (result (some e) ∷ post))
    failed-serving t u c = unfold serving in (simp u, refl, c)

-- A `Serve` that fails before any stop was asked for, whether it had become ready or not, makes
-- `Run` return that error with the service-specific exit code 1; `cancel` is called once, by the
-- deferred call of `Run`, and not before it returns.
pub failure-restarts :
    (cfg : Config) (pre post : List Arrival) (e : Err)
    → Quiet pre
    → ReturnsWith (Failed 1 e) (run cfg (pre ++ result (some e) ∷ post))
unfolding run
failure-restarts cfg pre post e q =
    ReturnsWith-canceled (Failed 0 e) (Failed 1 e) _ (λ r h. (h.0, h.1, omega (arith, h.2)))
      (phases-Failed cfg pre post e q)

abbrev pub Waits : Flow → Type 0
Waits (waiting s) = Unit
Waits (returned r) = ⊥
Waits (leaves s rest) = ⊥

-- the error that `Run` hands on from what ended it
abbrev pub error_of : Arrival → Option Err
error_of (result err) = err
error_of _ = some serve_overran

-- The run was ended by `a`: its exit code says success, its error is what `a` says, and `cancel` was
-- called `n` times.
abbrev pub Stopped : ℕ → Arrival → Returned → Type 0
Stopped n a r =
    (r.outcome ≡ clean)
    × (r.error ≡ error_of a)
    × (r.session.stopped ≡ true)
    × (r.session.cancels ≡ n)

finish-Stopped :
    (s : Session) (a : Arrival)
    → s.stopped ≡ true
    → s.cancels ≡ 1
    → Stopped 1 a (finish s (error_of a))
unfolding finish
finish-Stopped s a e c = (ground arith, refl, e, c)

-- How a loop ends that is left only by the arrival `a`, behind `mid`.
abbrev Ends : Arrival → (List Arrival → Flow) → List Arrival → List Arrival → Type 0
Ends a loop mid post = Waits (loop mid) × ReturnsWith (Stopped 1 a) (loop (mid ++ a ∷ post))

await_result-Ends :
    (s : Session) (a : Arrival) (mid post : List Arrival)
    → s.stopped ≡ true
    → s.cancels ≡ 1
    → contains_func mid is_end ≡ false
    → is_end a ≡ true
    → Ends a (await_result s) mid post
unfolding await_result
await_result-Ends s (result err) [] post e c h k = (tt, finish-Stopped s (result err) e c)
await_result-Ends s backstop [] post e c h k = (tt, finish-Stopped s backstop e c)
await_result-Ends s ready [] post e c h k = cc
await_result-Ends s (request r) [] post e c h k = cc
await_result-Ends s tick [] post e c h k = cc
await_result-Ends s a (result err ∷ mid) post e c h k = cc
await_result-Ends s a (backstop ∷ mid) post e c h k = cc
await_result-Ends s a (ready ∷ mid) post e c h k = await_result-Ends s a mid post e c h k
await_result-Ends s a (request r ∷ mid) post e c h k = await_result-Ends s a mid post e c h k
await_result-Ends s a (tick ∷ mid) post e c h k = await_result-Ends s a mid post e c h k

control_stopped :
    (s : Session) (cmd : Command)
    → s.stopped ≡ true
    → ((control s cmd).0.stopped ≡ true) × ((control s cmd).0.cancels ≡ s.cancels)
unfolding control
control_stopped s cmd e = ground arith

draining-Ends :
    (s : Session) (a : Arrival) (mid post : List Arrival)
    → s.stopped ≡ true
    → s.cancels ≡ 1
    → contains_func mid is_end ≡ false
    → is_end a ≡ true
    → Ends a (draining s) mid post
unfolding draining abandon
draining-Ends s (result err) [] post e c h k = (tt, finish-Stopped s (result err) e c)
draining-Ends s backstop [] post e c h k = (tt, finish-Stopped s backstop e c)
draining-Ends s ready [] post e c h k = cc
draining-Ends s (request r) [] post e c h k = cc
draining-Ends s tick [] post e c h k = cc
draining-Ends s a (result err ∷ mid) post e c h k = cc
draining-Ends s a (backstop ∷ mid) post e c h k = cc
draining-Ends s a (tick ∷ mid) post e c h k = draining-Ends (report s _) a mid post e c h k
draining-Ends s a (ready ∷ mid) post e c h k = draining-Ends s a mid post e c h k
draining-Ends s a (request none ∷ mid) post e c h k =
    simp e (await_result-Ends s a mid post e c h k)
draining-Ends s a (request (some cmd) ∷ mid) post e c h k =
    let (e', c') = control_stopped s cmd e in
    draining-Ends (control s cmd).0 a mid post e' (c' ∙ c) h k

control_stop :
    (s : Session) (cmd : Command)
    → s.stopped ≡ false
    → is_stop cmd ≡ true
    → ((control s cmd).1 ≡ true)
      × ((control s cmd).0.stopped ≡ true)
      × ((control s cmd).0.cancels ≡ s.cancels + 1)
unfolding control
control_stop s cmd e q = ground arith

-- What holds of the drain behind a first stop holds of the loops.
phases_stop :
    (P : Flow → Type 0) (cfg : Config) (pre rest : List Arrival) (cmd : Command)
    → Quiet pre
    → is_stop cmd ≡ true
    → ((t : Session) → t.stopped ≡ true → t.cancels ≡ 1 → P (draining t rest))
    → P (phases cfg (pre ++ request (some cmd) ∷ rest))
phases_stop P cfg pre rest cmd q k h =
    phases_quiet P cfg pre (request (some cmd) ∷ rest) q
      (λ t u c. (stopped-starting t u c, stopped-serving t u c))
  where
    drains : (t : Session) → t.stopped ≡ false → t.cancels ≡ 0 → P (draining (control t cmd).0 rest)
    drains t u c =
        let (d, e, n) = control_stop t cmd u k in h (control t cmd).0 e (omega (arith, n))

    stopped-starting :
        (t : Session)
        → t.stopped ≡ false
        → t.cancels ≡ 0
        → P (from_start t (request (some cmd) ∷ rest))
    stopped-starting t u c =
        let (d, e, n) = control_stop t cmd u k in unfold starting in rw d (rw e (drains t u c))

    stopped-serving :
        (t : Session)
        → t.stopped ≡ false
        → t.cancels ≡ 0
        → P (from_serving t (request (some cmd) ∷ rest))
    stopped-serving t u c =
        let (d, e, n) = control_stop t cmd u k in unfold serving in rw d (drains t u c)

Waits-canceled : (f : Flow) → Waits f → Waits (deferred_cancel f)
Waits-canceled (waiting s) h = tt
Waits-canceled (returned r) h = h
Waits-canceled (leaves s rest) h = h

-- A stop or preshutdown request that comes before `Serve` has returned ends the run: whatever else
-- arrives, `Run` goes on waiting as long as neither `Serve` has returned nor the backstop has gone
-- off, and returns at the first of the two, with the clean outcome even if `Serve` failed or
-- overran, and with the error of `Serve` or `serve_overran`. `cancel` was then called twice, at the
-- stop and by the deferred call.
pub stop-Stopped :
    (cfg : Config) (pre mid post : List Arrival) (cmd : Command) (a : Arrival)
    → Quiet pre
    → is_stop cmd ≡ true
    → contains_func mid is_end ≡ false
    → is_end a ≡ true
    → Waits (run cfg (pre ++ request (some cmd) ∷ mid))
      × ReturnsWith (Stopped 2 a) (run cfg (pre ++ request (some cmd) ∷ (mid ++ a ∷ post)))
unfolding run
stop-Stopped cfg pre mid post cmd a q k h l = (
  Waits-canceled _
      (phases_stop Waits cfg pre mid cmd q k (λ t e c. (draining-Ends t a mid post e c h l).0)),
  ReturnsWith-canceled (Stopped 1 a) (Stopped 2 a) _ (λ r d. (d.0, d.1, d.2, omega (arith, d.3)))
      (phases_stop (ReturnsWith (Stopped 1 a)) cfg pre (mid ++ a ∷ post) cmd q k
        (λ t e c. (draining-Ends t a mid post e c h l).1)),
)
