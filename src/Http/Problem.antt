-- ===== src/Http/Problem.antt =====
-- internal/core/middleware/problem.go: answers of the router that become problems. `media_type` is
-- `mime.ParseMediaType`, without the parameters.
use weave_adapters.Prelude.Text.{Text, text, text_eq}
use weave_adapters.Prelude.{
  ℕ, Bool, true, false, not, ◌||◌, Option, none, some, List, [], ◌∷◌, ◌++◌, ◌==◌, if◌then◌else◌,
}
use weave_adapters.Events.{Events}
use weave_adapters.Apierror.{ApiError, new, not_found, truncate_path}
use weave_adapters.Apierror.Write.{
  Problem, Request, api_failure, content_type, Written, written, panicked, write_error,
}
use weave_adapters.Http.Writer.{
  Response, write_header, write, with_header, set, del, get, Call, setting, deleting, heading,
  writing,
}

pub record ProblemWriter : Type 0 where
  pub inner : Response
  pub replaced : Bool
  pub wrote : Bool

unfoldable pub new_problem_writer : Response → ProblemWriter
new_problem_writer w = record { inner = w; replaced = false; wrote = false }

abbrev is_problem : Option Text → Bool
is_problem none = false
is_problem (some t) = text_eq t content_type

abbrev pub is_router_error : ℕ → Bool
is_router_error code = code == 404 || code == 405

abbrev pub begun : ProblemWriter → ProblemWriter
begun w = record w {
  wrote = true;
  replaced = true;
  inner = with_header (del "Content-Length") w.inner;
}

abbrev pub as_written : ProblemWriter → Written → Option ProblemWriter
as_written w panicked = none
as_written w (written v line) = some (record w { inner = v })

-- `Write`
unfoldable pub problem_write : List ℕ → ProblemWriter → ProblemWriter
problem_write b w = if w.replaced then w else record w { wrote = true; inner = write b w.inner }

-- `problemFor`; `none` is a panic
unfoldable pub problem_for : Events → Request → ℕ → ProblemWriter → Option ApiError
problem_for s r code w =
    if code == 405
    then new s (text "API-902")
        ((text "method", r.method) ∷ (text "allow", get "Allow" w.inner.header) ∷ [])
    else some (not_found (((text "route " ++ r.method) ++ text " ") ++ truncate_path r.path))

module _ (s : Events) (encode : Problem → List ℕ) (r : Request) where
  abbrev pub replace_with : ProblemWriter → Option ApiError → Option ProblemWriter
  replace_with w none = none
  replace_with w (some e) = as_written w (write_error s encode r (api_failure false e) w.inner)

module _ (media_type : Text → Option Text) where
  -- the header names the media type of a problem
  abbrev pub names_problem : Text → Bool
  names_problem header = is_problem (media_type header)

  -- `shouldReplace`
  unfoldable pub should_replace : ℕ → ProblemWriter → Bool
  should_replace code w =
      if not (is_router_error code)
      then false
      else not (names_problem (get "Content-Type" w.inner.header))

  module _ (s : Events) (encode : Problem → List ℕ) (r : Request) where
    -- `WriteHeader`; `none` is a panic
    unfoldable pub problem_header : ℕ → ProblemWriter → Option ProblemWriter
    problem_header code w =
        if w.wrote
        then some w
        else if not (should_replace code w)
        then some (record w { wrote = true; inner = write_header code w.inner })
        else replace_with s encode r (begun w) (problem_for s r code (begun w))

    unfoldable pub problem_call : Call → ProblemWriter → Option ProblemWriter
    problem_call (setting k v) w = some (record w { inner = with_header (set k v) w.inner })
    problem_call (deleting k) w = some (record w { inner = with_header (del k) w.inner })
    problem_call (heading code) w = problem_header code w
    problem_call (writing b) w = some (problem_write b w)

    -- `ProblemErrors`, around a handler that makes these calls
    unfoldable pub problem_calls : List Call → ProblemWriter → Option ProblemWriter
    problem_calls [] w = some w
    problem_calls (c ∷ cs) w = elim (problem_call c w) [ none ↦ none | some v ↦ problem_calls cs v ]
