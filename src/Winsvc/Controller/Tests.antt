-- ===== src/Winsvc/Controller/Tests.antt =====
-- Runs of the service controller.
use weave_adapters.Prelude.Int.{pos}
use weave_adapters.Prelude.{◌≡◌, refl, true, none, some, List, [], ◌∷◌, ◌++◌, map, ℕ}
use weave_adapters.Winsvc.Controller.Reports.{Keeps, run-Keeps}
use weave_adapters.Winsvc.Controller.Returns.{
  ReturnsWith, Waits, Failed, Stopped, failure-restarts, stop-Stopped,
}
use weave_adapters.Winsvc.Controller.{
  State, start_pending, running, stop_pending, stopped, stop, interrogate, Config, serve_failed,
  Arrival, ready, result, request, tick, backstop, Flow, waiting, returned, leaves, run,
}

abbrev settings : Config
settings = record {
  has_serve = true;
  has_report = true;
  drain_budget = pos 10;
  start_hint = pos 3;
  checkpoint_every = pos 2;
  drain_margin = pos 5;
}

abbrev told : Flow → List (State × ℕ)
told (waiting s) = map (λ r. (r.state, r.check_point)) s.sent
told (returned r) = map (λ r. (r.state, r.check_point)) r.session.sent
told (leaves s rest) = []

abbrev orderly : List Arrival
orderly =
    request (some interrogate)
    ∷ ready
    ∷ request (some stop)
    ∷ tick
    ∷ tick
    ∷ request (some stop)
    ∷ result none
    ∷ []

orderly_reports :
    told (run settings orderly)
    ≡ (stopped, 0)
      ∷ (stop_pending, 3)
      ∷ (stop_pending, 2)
      ∷ (stop_pending, 1)
      ∷ (running, 0)
      ∷ (start_pending, 1)
      ∷ (start_pending, 1)
      ∷ []
unfolding run
orderly_reports = refl

run-Keeps_example : Keeps settings (run settings orderly)
run-Keeps_example = run-Keeps settings orderly

failure-restarts_example :
    ReturnsWith
      (Failed 1 (serve_failed "listen"))
      (run settings ((ready ∷ []) ++ result (some (serve_failed "listen")) ∷ []))
failure-restarts_example =
    failure-restarts settings (ready ∷ []) [] (serve_failed "listen") (refl, tt)

stop-Stopped_example :
    Waits (run settings ((ready ∷ []) ++ request (some stop) ∷ tick ∷ request none ∷ []))
    × ReturnsWith (Stopped 2 backstop) (
        run settings
          ((ready ∷ []) ++ request (some stop) ∷ (tick ∷ request none ∷ []) ++ backstop ∷ []))
stop-Stopped_example =
    stop-Stopped settings (ready ∷ []) (tick ∷ request none ∷ []) [] stop backstop (refl, tt) refl
      refl refl
