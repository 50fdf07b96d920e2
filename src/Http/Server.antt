-- ===== src/Http/Server.antt =====
-- internal/core/httpserver/server.go: the patterns of routes, the order of the middleware, and what `Run` returns.
use weave_adapters.Prelude.Text.{Text, text, text_eq, is_blank}
use weave_adapters.Prelude.{
  ℕ, ◌≡◌, refl, ap, subst, Bool, true, false, not, ◌||◌, Option, none, some, List, [], ◌∷◌, ◌++◌,
  ◌==◌, if◌then◌else◌, arith,
}
use weave_adapters.Auth.Bearer.{cut_space}
use weave_adapters.Http.Middleware.{chain}

abbrev pub health_path : Text
health_path = text "/api/v1/health"

abbrev pub open_api_path : Text
open_api_path = text "/openapi.yaml"

abbrev starts_with_slash : Text → Bool
starts_with_slash [] = false
starts_with_slash (c ∷ cs) = c == 47

abbrev pub is_valid_cut : Option (Text × Text) → Bool
is_valid_cut none = false
is_valid_cut (some (method, path)) =
    if is_blank method || not (starts_with_slash path)
    then false
    else if text_eq path health_path || text_eq path open_api_path
    then false
    else not (text_eq path (text "/"))

-- `validateRoute` does not panic
unfoldable pub validate_route : Text → Bool
validate_route pattern = is_valid_cut (cut_space pattern)

-- `Unauthenticated`, on the request's path
unfoldable pub unauthenticated : Text → Bool
unauthenticated path = text_eq path health_path || text_eq path open_api_path

-- `skipHealthPolls`
unfoldable pub skip_health_polls : Text → Text → ℕ → Bool
skip_health_polls path method status =
    if not (text_eq path health_path) || not (text_eq method (text "GET"))
    then false
    else status == 200 || status == 503

-- `NewHandler`: the three standard middlewares, those of the options, and `ProblemErrors` around the router
unfoldable pub new_handler :
    {H : Type 0} → (H → H) → (H → H) → (H → H) → (H → H) → H → List (H → H) → H
new_handler recovery request_id logging problem_errors router inner =
    chain router ((recovery ∷ request_id ∷ logging ∷ []) ++ inner ++ problem_errors ∷ [])

-- What `Serve` and `Shutdown` return, by whether it is nil or `ErrServerClosed`.
pub data Served : Type 0 where
  closed : Served
  serve_failed : Text → Served

pub data Outcome : Type 0 where
  clean : Outcome
  failed_with : Text → Outcome
  shutdown_incomplete : Text → Outcome

abbrev pub served : Served → Outcome
served closed = clean
served (serve_failed m) = failed_with m

-- `Run` behind `Listen`: `Serve` returns on its own, or the context ends and `Shutdown` has an error or none
unfoldable pub run_outcome : Bool → Option Text → Served → Outcome
run_outcome false shutdown s = served s
run_outcome true none s = served s
run_outcome true (some m) s = shutdown_incomplete m

-- A route that is let through stands on no path that is exempt from authentication.
pub validate_route-unauthenticated :
    (pattern method path : Text)
    → cut_space pattern ≡ some (method, path)
    → validate_route pattern ≡ true
    → unauthenticated path ≡ false
unfolding validate_route unauthenticated
validate_route-unauthenticated pattern method path c h =
    exempt method path (subst (λ o. is_valid_cut o ≡ true) c h)
  where
    exempt :
        (method path : Text)
        → is_valid_cut (some (method, path)) ≡ true
        → (text_eq path health_path || text_eq path open_api_path) ≡ false
    exempt method path h = ground (arith, h)

-- The recovery stands outermost, and `ProblemErrors` innermost.
pub new_handler-chain :
    {H : Type 0} (recovery request_id logging problem_errors : H → H) (router : H)
    (inner : List (H → H))
    → new_handler recovery request_id logging problem_errors router inner
      ≡ recovery (request_id (logging (chain (problem_errors router) inner)))
unfolding new_handler chain
new_handler-chain {H = H} recovery request_id logging problem_errors router inner =
    ap (λ h. recovery (request_id (logging h))) (innermost inner)
  where
    innermost :
        (inner : List (H → H))
        → chain router (inner ++ problem_errors ∷ []) ≡ chain (problem_errors router) inner
    innermost [] = refl
    innermost (m ∷ ms) = ap m (innermost ms)
