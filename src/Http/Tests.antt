-- ===== src/Http/Tests.antt =====
-- Handlers behind the writers of the middleware.
use weave_adapters.Prelude.Text.{Text, text, text_eq}
use weave_adapters.Prelude.{ℕ, ◌≡◌, refl, false, none, some, List, [], ◌∷◌, length}
use weave_adapters.Events.Catalog.{client_events, events_of, api_011}
use weave_adapters.Events.{get as get_event}
use weave_adapters.Apierror.Write.{Problem}
use weave_adapters.Apierror.Write.{Request as ApiRequest}
use weave_adapters.Http.Writer.{Call, setting, heading, writing, new_response, serve, finish}
use weave_adapters.Http.Conditional.{Request, conditional_up_to}
use weave_adapters.Http.Transparent.{IsSameOrKnown, conditional-IsSameOrKnown}
use weave_adapters.Http.Problem.{problem_calls, new_problem_writer}
use weave_adapters.Http.Beside.{HasRouterEvents, Leads}
use weave_adapters.Http.Replaced.{problem_calls-IsBeside}
use weave_adapters.Http.Middleware.{Run, panics, recovery}
use weave_adapters.Http.Recovered.{IsRecovered, recovery-IsRecovered}

abbrev calls : List Call
calls = writing (1 ∷ 2 ∷ []) ∷ writing (3 ∷ []) ∷ []

abbrev polling : Request
polling = record { method = "GET"; if_none_match = text "\"x\""; canceled = false }

abbrev compute : List ℕ → Text
compute body = text "\"x\""

conditional-IsSameOrKnown_example :
    IsSameOrKnown compute polling
      (finish (conditional_up_to 4 compute polling calls (new_response [])))
      (finish (serve calls (new_response [])))
conditional-IsSameOrKnown_example = conditional-IsSameOrKnown compute polling refl 4 calls []

client_events-HasRouterEvents : HasRouterEvents client_events
unfolding client_events events_of get_event text text_eq
client_events-HasRouterEvents = record {
  missing = _;
  missing_is = refl;
  missing_code = refl;
  refused = _;
  refused_is = refl;
  refused_code = refl;
  refused_detail = refl;
}

abbrev request : ApiRequest
request = record {
  method = text "GET";
  path = text "/nowhere";
  remote_addr = text "192.0.2.1:1234";
  context = none;
  done = false;
}

abbrev encode : Problem → List ℕ
encode p = p.status ∷ length p.errors ∷ []

-- the router's own 404
abbrev missing : List Call
missing = setting "Content-Type" (text "text/plain") ∷ heading 404 ∷ writing (52 ∷ []) ∷ []

problem_calls-IsBeside_example :
    Leads some client_events encode request
      (problem_calls some client_events encode request missing
        (new_problem_writer (new_response [])))
      (serve missing (new_response []))
unfolding text
problem_calls-IsBeside_example =
    problem_calls-IsBeside some client_events encode request client_events-HasRouterEvents refl
      missing []

api_011_registered : get_event (text "API-011") (api_011 ∷ []) ≡ some api_011
unfolding get_event text text_eq
api_011_registered = refl

abbrev crash : Run
crash = record { calls = setting "Allow" (text "GET") ∷ []; end = panics (text "nil map") }

recovery-IsRecovered_example :
    IsRecovered encode request
      (panics (text "nil map"))
      (serve crash.calls (new_response []))
      (recovery (api_011 ∷ []) encode request crash (new_response []))
recovery-IsRecovered_example =
    recovery-IsRecovered (api_011 ∷ []) encode request crash [] api_011_registered
