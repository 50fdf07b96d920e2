-- ===== src/Winsvc/Controller/Settings.antt =====
-- What `New` makes of a configuration.
use weave_adapters.Prelude.Int.{is_positive}
use weave_adapters.Prelude.{◌≡◌, true, some, arith}
use weave_adapters.Winsvc.Controller.{Config, new}

-- The settings that a controller runs with, made from `cfg`.
pub record Usable (cfg c : Config) : Type 0 where
  pub serve_set : c.has_serve ≡ true
  pub report_set : c.has_report ≡ true
  pub same_budget : c.drain_budget ≡ cfg.drain_budget
  pub budget_positive : is_positive c.drain_budget ≡ true
  pub start_positive : is_positive c.start_hint ≡ true
  pub every_positive : is_positive c.checkpoint_every ≡ true
  pub margin_positive : is_positive c.drain_margin ≡ true

-- A controller that `New` returns without a panic has both functions, the budget it was given, and
-- no duration that is zero or negative.
pub new-Usable : (cfg : Config) {c : Config} → new cfg ≡ some c → Usable cfg c
unfolding new
new-Usable cfg h = ground arith
