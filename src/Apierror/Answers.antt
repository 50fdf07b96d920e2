-- ===== src/Apierror/Answers.antt =====
-- What a client gets of an error, and what the log gets: internal/core/apierror/write.go and taxonomy.go.
use weave_adapters.Prelude.Text.{Text, text_eq, text_eq_iff, is_blank}
use weave_adapters.Prelude.{
  ℕ, ◌≤◌, ◌≡◌, ◌∙◌, refl, ap, subst, true, false, ◌&&◌, Option, none, some, List, [], ◌∷◌, arith,
  All, inl, inr, Option-cases, Bool-cases, le→not_ltb,
}
use weave_adapters.Events.{
  Event, Events, get, Caller, Context, caller_from, ensure_caller, Line, unknown_event, logged,
  emit, emit_known, emit_found,
}
use weave_adapters.Apierror.{Meaning, taxonomy, lookup_in, lookup, ApiError}
use weave_adapters.Apierror.Write.{
  Problem, Request, Failure, is_canceled, as_error, fallback_caller, problem_of, problem,
  content_type, at_least_100, write_problem, written, write_error,
}
use weave_adapters.Http.Writer.{Response, get as get_header, set, write, write_header}

abbrev IsError : Meaning → Type 0
IsError m = 400 ≤ m.status

lookup_in-IsError :
    (es : List (Text × Meaning)) (code : Text)
    → All (λ e. IsError e.1) es
    → IsError (lookup_in es code)
unfolding lookup_in
lookup_in-IsError [] code h = omega arith
lookup_in-IsError (e ∷ es) code h = ground (arith, h.0, lookup_in-IsError es code h.1)

lookup-IsError : (code : Text) → IsError (lookup code)
unfolding lookup
lookup-IsError code = lookup_in-IsError taxonomy code (ground arith)

abbrev pub line_id : Line → Text
line_id (unknown_event id fields) = id
line_id (logged e c fields) = e.id

get-id : (id : Text) (s : Events) (e : Event) → get id s ≡ some e → e.id ≡ id
unfolding get
get-id id [] e h = ground (arith, h)
get-id id (d ∷ s) e h = elim (Bool-cases (text_eq d.id id)) [
  | inl t ↦
      let same : d ≡ e = ground (arith, h, t) in
      subst (λ e. e.id ≡ id) same ((text_eq_iff d.id id).0 t)
  | inr f ↦ get-id id s e (ground (arith, h, f))
]

-- The answer to a request of an error, and its line of the log, which are of the same event: the status is an
-- error's and the one that the body states, and the media type is that of a problem.
pub record IsAnswered (s : Events) (encode : Problem → List ℕ) (r : Request) (err : Failure)
    (w : Response) : Type 0 where
  pub answer : Response
  pub line : Line
  pub outcome : write_error s encode r err w ≡ written answer (some line)
  pub same_event : line_id line ≡ (as_error err).event_id
  pub sent : answer.sent ≡ true
  pub status : answer.status ≡ (problem s (as_error err) r).status
  pub error_status : 400 ≤ answer.status
  pub typed : get_header "Content-Type" answer.sent_header ≡ content_type
  pub body : answer.body ≡ encode (problem s (as_error err) r)

problem-IsError : (s : Events) (e : ApiError) (r : Request) → 400 ≤ (problem s e r).status
unfolding problem
problem-IsError s e r = go (get e.event_id s)
  where
    go : (o : Option Event) → 400 ≤ (problem_of e r o).status
    go none = omega arith
    go (some spec) = lookup-IsError spec.response_code

emit_known-line :
    (ctx : Context) (fields : List (Text × Text)) (e : Event)
    → is_blank (caller_from ctx).remote_addr ≡ false
    → (l : Line) × (emit_known ctx fields e ≡ some l) × (line_id l ≡ e.id)
emit_known-line ctx fields e h = elim (Bool-cases e.external_source) [
  | inl x ↦ (logged e (some (caller_from ctx)) fields, ground (arith, h, x), refl)
  | inr i ↦ (logged e none fields, ground (arith, i), refl)
]

-- Where the context has an address, `Emit` logs a line of that event.
emit-line :
    (s : Events) (ctx : Context) (id : Text) (fields : List (Text × Text))
    → is_blank (caller_from ctx).remote_addr ≡ false
    → (l : Line) × (emit s ctx id fields ≡ some l) × (line_id l ≡ id)
unfolding emit
emit-line s ctx id fields h = elim (Option-cases (get id s)) [
  | inl n ↦ (unknown_event id fields, ap (emit_found ctx id fields) n, refl)
  | inr (e, g) ↦
      let (l, m, q) = emit_known-line ctx fields e h in
      (l, ap (emit_found ctx id fields) g ∙ m, q ∙ get-id id s e g)
]

ensure_caller-address :
    (c : Caller) (ctx : Context)
    → is_blank c.remote_addr ≡ false
    → is_blank (caller_from (ensure_caller c ctx)).remote_addr ≡ false
unfolding ensure_caller
ensure_caller-address c ctx h = elim (Bool-cases (is_blank (caller_from ctx).remote_addr)) [
  | inl t ↦ rw t h
  | inr f ↦ rw f f
]

at_least_100-same : (p : Problem) → 400 ≤ p.status → at_least_100 p ≡ p
at_least_100-same p h = rw (le→not_ltb p.status 100 (omega (arith, h))) refl

-- A request with an address gets an answer on a response that is not begun, as `IsAnswered` says, unless its
-- context has ended and the error says so.
pub write_error-IsAnswered :
    (s : Events) (encode : Problem → List ℕ) (r : Request) (err : Failure) (w : Response)
    → is_blank r.remote_addr ≡ false
    → (r.done && is_canceled err) ≡ false
    → w.sent ≡ false
    → w.body ≡ []
    → IsAnswered s encode r err w
unfolding write_error write_problem write write_header get_header set
write_error-IsAnswered s encode r err w address live unsent empty =
    let e = as_error err in
    let (l, m, q) =
      emit-line s (ensure_caller (fallback_caller r) r.context) e.event_id e.fields
        (ensure_caller-address (fallback_caller r) r.context address) in
    let error_status = problem-IsError s e r in
    let same = at_least_100-same (problem s e r) error_status in
    record {
      answer = write_problem encode (problem s e r) w;
      line = l;
      outcome = rw (live, m) refl;
      same_event = q;
      sent = rw unsent refl;
      status = rw (unsent, same) refl;
      error_status = rw (unsent, same) error_status;
      typed = rw unsent refl;
      body = rw (unsent, same, empty) refl;
    }
