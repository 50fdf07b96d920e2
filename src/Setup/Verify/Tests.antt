-- ===== src/Setup/Verify/Tests.antt =====
-- A service that answers in the second round, with a token that it lets in.
use weave_adapters.Prelude.{
  ℕ, zero, suc, ◌+◌, ◌*◌, ◌^◌, ◌≤◌, ◌≡◌, ◌⊎◌, true, false, Option, none, some, List, [], ◌∷◌, arith,
}
use weave_adapters.Setup.Reconcile.{Err, Plan, no_health}
use weave_adapters.Health.{healthy, Component}
use weave_adapters.Setup.Verify.{Observed, Protected, verify_poll, apply_verify}
use weave_adapters.Setup.Verify.Ends.{IsClock, IsVerified, apply_verify-IsVerified}

abbrev parse : List ℕ → Option (List Component)
parse body = some (record { name = "dhcp"; status = healthy; detail = "" } ∷ [])

abbrev seen : ℕ → Observed
seen zero = record { answer = none; canceled = false; now = 7; canceled_waiting = false }
seen (suc i) = record {
  answer = some (record { status = 200; body = [] });
  canceled = false;
  now = 7 + suc i * verify_poll;
  canceled_waiting = false;
}

seen-IsClock : IsClock 5 seen
seen-IsClock = record { begins = omega arith; advances = advances }
  where
    advances : (i : ℕ) → (seen i).now + verify_poll ≤ (seen (suc i)).now
    advances zero = omega arith
    advances (suc i) = omega arith

abbrev route : Protected
route = record {
  auth_disabled = false;
  protected_path = "/api/v1/scopes";
  answer = some (record { status = 200; body = [] });
}

abbrev plan : Plan ℕ
plan = record {
  config_exists = true;
  token = "wadapt_abc";
  health = no_health;
  restart_wanted = "";
  others = 0;
}

apply_verify-IsVerified_example :
    (q : Plan ℕ) × (err : Option Err) × (apply_verify parse seen 5
        (60 * 10 ^ 9)
        "dhcp"
        route
        61
        plan
      ≡ some (q, err))
    × (((e : Err) × (err ≡ some e)) ⊎ IsVerified seen route "wadapt_abc" q.health)
apply_verify-IsVerified_example =
    apply_verify-IsVerified parse seen 5 (60 * 10 ^ 9) 60 "dhcp" route plan seen-IsClock
      (omega arith)
