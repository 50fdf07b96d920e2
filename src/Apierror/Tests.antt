-- ===== src/Apierror/Tests.antt =====
-- A validation error of a request, answered from the catalog.
use weave_adapters.Prelude.Text.{text}
use weave_adapters.Prelude.{ℕ, ◌≡◌, refl, false, none, List, [], ◌∷◌, length}
use weave_adapters.Events.Catalog.{client_events}
use weave_adapters.Apierror.{validation, render, replace_from, placeholder_at, starts_with}
use weave_adapters.Apierror.Write.{Problem, Request, Failure, api_failure}
use weave_adapters.Http.Writer.{new_response}
use weave_adapters.Apierror.Answers.{IsAnswered, write_error-IsAnswered}

abbrev request : Request
request = record {
  method = text "GET";
  path = text "/api/v1/leases";
  remote_addr = text "192.0.2.1:1234";
  context = none;
  done = false;
}

abbrev encode : Problem → List ℕ
encode p = p.status ∷ length p.errors ∷ []

abbrev bad_page : Failure
unfolding validation
bad_page =
    api_failure false
      (validation (record { field = text "pageSize"; message = text "must be at least 1" } ∷ []))

write_error-IsAnswered_example : IsAnswered client_events encode request bad_page (new_response [])
unfolding text
write_error-IsAnswered_example =
    write_error-IsAnswered client_events encode request bad_page (new_response []) refl refl refl
      refl

rendered :
    render (text "The requested {{resource}} was not found.") ((text "resource", text "lease") ∷ [])
    ≡ text "The requested lease was not found."
unfolding render replace_from placeholder_at starts_with text
rendered = refl
