-- ===== src/Auth/Middleware.antt =====
-- internal/core/auth/bearer.go: `Bearer`, around the next handler.
use weave_adapters.Prelude.Text.{Text, text}
use weave_adapters.Prelude.{ℕ, Bool, true, false, Option, none, some, List, [], ◌∷◌, if◌then◌else◌}
use weave_adapters.Events.{Events, Context, with_caller, set_identity}
use weave_adapters.Apierror.{Fields, ApiError, new}
use weave_adapters.Apierror.Write.{Problem, Request, api_failure, Written, panicked, write_error}
use weave_adapters.Http.Writer.{Response}
use weave_adapters.Auth.Store.{Store, Crypto}
use weave_adapters.Auth.Bearer.{
  Denied, api_020, api_021, api_022, api_023, Authenticated, accepted, denied, authenticate,
}

abbrev formatted : (ℕ → Text) → Option ℕ → Text
formatted format none = []
formatted format (some t) = format t

-- the arguments of `New` in `authenticate`; `format` is that of RFC 3339
unfoldable pub denial : (ℕ → Text) → Denied → Text × Fields
denial format api_020 = (text "API-020", [])
denial format (api_021 scheme) = (text "API-021", (text "scheme", scheme) ∷ [])
denial format api_022 = (text "API-022", [])
denial format (api_023 e) = (
  text "API-023",
  (text "label", e.label) ∷ (text "expiredAt", formatted format e.expires_at) ∷ [],
)

abbrev pub caller_role : Text
caller_role = text "service"

abbrev with_identity : Text → Request → Context × Bool → Context
with_identity label r (ctx, true) = ctx
with_identity label r (ctx, false) =
    with_caller
      (record {
        subject = label;
        role = caller_role;
        remote_addr = r.remote_addr;
        request_id = [];
        method = r.method;
        path = r.path;
      })
      ctx

-- the request with its caller
unfoldable pub identified : Text → Request → Request
identified label r = record r {
  context = with_identity label r (set_identity label caller_role r.context);
}

module _ (s : Events) (encode : Problem → List ℕ) (format : ℕ → Text) where
  abbrev pub rejected_with : Request → Response → Option ApiError → Written
  rejected_with r w none = panicked
  rejected_with r w (some e) = write_error s encode r (api_failure false e) w

  -- the error of a request that is not let in, as its answer
  unfoldable pub rejected : Request → Denied → Response → Written
  rejected r d w = rejected_with r w (new s (denial format d).0 (denial format d).1)

  abbrev pub let_through :
      (Request → Response → Written) → Request → Response → Authenticated → Written
  let_through next r w (accepted e) = next (identified e.label r) w
  let_through next r w (denied d) = rejected r d w

  -- `Bearer`; `headers` are the values of the Authorization header
  unfoldable pub bearer :
      Crypto
      → ℕ
      → Store
      → (Request → Bool)
      → (Request → Response → Written)
      → Request
      → List Text
      → Response
      → Written
  bearer c now entries skip next r headers w =
      if skip r then next r w else let_through next r w (authenticate c now entries headers)
