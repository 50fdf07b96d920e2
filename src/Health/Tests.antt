-- ===== src/Health/Tests.antt =====
-- A backend that goes down between two runs of the probes.
use weave_adapters.Prelude.{◌*◌, ◌^◌, ◌≡◌, refl, some, List, [], ◌∷◌}
use weave_adapters.Health.{
  healthy, unavailable, Component, Handler, new_handler, refresh, overall_status, worst_from, rank,
}

abbrev down : List Component
down = record { name = "dhcp"; status = unavailable; detail = "" } ∷ []

abbrev asked : Handler
unfolding refresh overall_status worst_from rank
asked = (refresh 0 1 [] new_handler).0

still_healthy : (refresh 10 11 down asked).1 ≡ healthy
unfolding refresh overall_status worst_from rank
still_healthy = refl

turned : (refresh (6 * 10 ^ 9) (6 * 10 ^ 9) down asked).2 ≡ some (healthy, unavailable)
unfolding refresh overall_status worst_from rank
turned = refl
