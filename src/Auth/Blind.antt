-- ===== src/Auth/Blind.antt =====
-- What internal/core/auth/bearer.go tells a client of the tokens that there are.
use weave_adapters.Prelude.Text.{Text, text, text_eq, is_blank}
use weave_adapters.Prelude.{
  ℕ, ◌≡◌, ◌∙◌, refl, sym, ap, Bool, true, false, ◌&&◌, Option, none, some, List, [], if◌then◌else◌,
}
use weave_adapters.Events.{
  Event, Events, Context, Line, get, emit, ensure_caller, caller_from, logged,
}
use weave_adapters.Events.Catalog.{client_events, events_of}
use weave_adapters.Apierror.{
  ApiError, new, new_error, render, replace_from, placeholder_at, starts_with,
}
use weave_adapters.Apierror.Write.{
  Problem, Request, api_failure, Written, written, panicked, as_error, problem, fallback_caller,
  write_problem, write_error, after_emit,
}
use weave_adapters.Http.Writer.{Response}
use weave_adapters.Auth.Store.{Entry, Store, Crypto}
use weave_adapters.Auth.Bearer.{Denied, api_022, api_023, denied, authenticate}
use weave_adapters.Auth.Middleware.{denial, rejected_with, rejected, bearer}

abbrev pub response_of : Written → Option Response
response_of panicked = none
response_of (written w line) = some w

module _ (encode : Problem → List ℕ) (format : ℕ → Text) (r : Request) where
  same_problem :
      (e : Entry)
      → problem client_events (new_error (text "API-022") []) r
        ≡ problem client_events (new_error (text "API-023") (denial format (api_023 e)).1) r
  unfolding client_events events_of problem new_error denial get text text_eq render replace_from
      placeholder_at starts_with
  same_problem e = refl

  new_unknown : new client_events (text "API-022") [] ≡ some (new_error (text "API-022") [])
  unfolding client_events events_of new get text text_eq
  new_unknown = refl

  new_expired :
      (fields : List (Text × Text))
      → new client_events (text "API-023") fields ≡ some (new_error (text "API-023") fields)
  unfolding client_events events_of new get text text_eq
  new_expired fields = refl

  -- the answer is the problem's, where the log takes the line
  abbrev answer : Bool → Problem → Response → Option Response
  answer b p w = if b then none else some (write_problem encode p w)

  unknown_found :
      (spec : Event) × (get (text "API-022") client_events ≡ some spec)
      × (spec.external_source ≡ true)
  unfolding client_events events_of get text text_eq
  unknown_found = (_, refl, refl)

  expired_found :
      (spec : Event) × (get (text "API-023") client_events ≡ some spec)
      × (spec.external_source ≡ true)
  unfolding client_events events_of get text text_eq
  expired_found = (_, refl, refl)

  live : (b : Bool) → (b && false) ≡ false
  live true = refl
  live false = refl

  emitted :
      (s : Events) (id : Text) (fields : List (Text × Text)) (ctx : Context) (spec : Event)
      → get id s ≡ some spec
      → spec.external_source ≡ true
      → emit s ctx id fields ≡ (
          if is_blank (caller_from ctx).remote_addr
          then none
          else some (logged spec (some (caller_from ctx)) fields))
  unfolding emit
  emitted s id fields ctx spec g x = rw (g, x) refl

  after_emit-response :
      (b : Bool) (l : Line) (p : Problem) (w : Response)
      → response_of (after_emit (if b then none else some l) (write_problem encode p w))
        ≡ answer b p w
  after_emit-response true l p w = refl
  after_emit-response false l p w = refl

  write_error-response :
      (s : Events) (e : ApiError) (spec : Event) (w : Response)
      → get e.event_id s ≡ some spec
      → spec.external_source ≡ true
      → response_of (write_error s encode r (api_failure false e) w)
        ≡ answer
            (is_blank (caller_from (ensure_caller (fallback_caller r) r.context)).remote_addr)
            (problem s e r)
            w
  unfolding write_error as_error
  write_error-response s e spec w g x =
      let ctx = ensure_caller (fallback_caller r) r.context in
      ap
        (λ b. response_of (
          if b
          then written w none
          else after_emit (emit s ctx e.event_id e.fields)
              (write_problem encode (problem s e r) w)))
        (live r.done)
      ∙ ap (λ o. response_of (after_emit o (write_problem encode (problem s e r) w)))
          (emitted s e.event_id e.fields ctx spec g x)
      ∙ after_emit-response (is_blank (caller_from ctx).remote_addr)
          (logged spec (some (caller_from ctx)) e.fields) (problem s e r) w

  rejected-response :
      (d : Denied) (spec : Event) (w : Response)
      → new client_events (denial format d).0 (denial format d).1
        ≡ some (new_error (denial format d).0 (denial format d).1)
      → get (denial format d).0 client_events ≡ some spec
      → spec.external_source ≡ true
      → response_of (rejected client_events encode format r d w)
        ≡ answer
            (is_blank (caller_from (ensure_caller (fallback_caller r) r.context)).remote_addr)
            (problem client_events (new_error (denial format d).0 (denial format d).1) r)
            w
  unfolding rejected new_error
  rejected-response d spec w n g x =
      ap (λ o. response_of (rejected_with client_events encode format r w o)) n
      ∙ write_error-response client_events (new_error (denial format d).0 (denial format d).1) spec
          w g x

  -- An unknown token and an expired one get the same answer, byte for byte.
  rejected-same :
      (e : Entry) (w : Response)
      → response_of (rejected client_events encode format r api_022 w)
        ≡ response_of (rejected client_events encode format r (api_023 e) w)
  unfolding denial
  rejected-same e w =
      let (one, g, x) = unknown_found in
      let (two, h, y) = expired_found in
      rejected-response api_022 one w new_unknown g x
      ∙ ap
          (λ p.
            answer
              (is_blank (caller_from (ensure_caller (fallback_caller r) r.context)).remote_addr) p
              w)
          (same_problem e)
      ∙ sym (rejected-response (api_023 e) two w (new_expired (denial format (api_023 e)).1) h y)

  -- From the answer to a request the client cannot tell a token that the store does not have from one of the
  -- store that has expired, whatever the store and the time are.
  pub bearer-IsBlind :
      (c : Crypto) (now later : ℕ) (s t : Store) (skip : Request → Bool)
      (next : Request → Response → Written)
      → (unknown old : List Text) (e : Entry) (w : Response) → skip r ≡ false
      → authenticate c now s unknown ≡ denied api_022
      → authenticate c later t old ≡ denied (api_023 e)
      → response_of (bearer client_events encode format c now s skip next r unknown w)
        ≡ response_of (bearer client_events encode format c later t skip next r old w)
  unfolding bearer
  bearer-IsBlind c now later s t skip next unknown old e w k a b = rw (k, a, b) (rejected-same e w)
