-- ===== src/Http/Recovered.antt =====
-- What internal/core/middleware/recovery.go leaves of a panic.
use weave_adapters.Prelude.Text.{Text, text}
use weave_adapters.Prelude.{
  ℕ, ◌≡◌, ◌⊎◌, ◌∙◌, refl, ap, true, false, none, some, List, [], ◌∷◌, arith, inl, inr, Bool-cases,
}
use weave_adapters.Events.{Events, Event, Context, Line, logged, emit}
use weave_adapters.Events.{get as get_event}
use weave_adapters.Events.Catalog.{api_011}
use weave_adapters.Apierror.Write.{Problem, Request, content_type, write_problem}
use weave_adapters.Http.Writer.{
  Headers, Response, new_response, write_header, write, set, get, Call, setting, deleting, heading,
  writing, call, serve,
}
use weave_adapters.Http.Recorder.{Recorder, new_recorder, record_calls, Knows, new_recorder-Knows}
use weave_adapters.Http.Middleware.{
  End, returns, aborts, panics, Run, Seen, returned, aborted, request_id_header, panic_fields,
  panic_problem, answered, recovered, recovery,
}

-- By how the handler ends, where its own response is `d`: that goes through, and an abort too, and
-- nothing is logged. A panic does not go on: it becomes the one line API-011 of the log, with its
-- text and the ID of the request, and a 500 with a problem as its body where the handler has not
-- answered yet.
abbrev pub IsRecovered : (Problem → List ℕ) → Request → End → Response → Seen → Type 0
IsRecovered encode r returns d seen =
    (seen.response ≡ d) × (seen.lines ≡ []) × (seen.left ≡ returned)
IsRecovered encode r aborts d seen = (seen.response ≡ d) × (seen.lines ≡ []) × (seen.left ≡ aborted)
IsRecovered encode r (panics value) d seen =
    (seen.left ≡ returned)
    × (seen.lines
        ≡ logged api_011 none (panic_fields r (get request_id_header d.header) value) ∷ [])
    × (((d.sent ≡ true) × (seen.response ≡ d))
        ⊎ ((d.sent ≡ false)
            × (seen.response.status ≡ 500)
            × (get "Content-Type" seen.response.sent_header ≡ content_type)
            × ((p : Problem) × (p.status ≡ 500) × (seen.response.body ≡ encode p))))

abbrev IsStarted : Response → Type 0
IsStarted w = (w.sent ≡ true) ⊎ (w.body ≡ [])

serve-IsStarted : (cs : List Call) (w : Response) → IsStarted w → IsStarted (serve cs w)
unfolding serve call write write_header
serve-IsStarted [] w h = h
serve-IsStarted (c ∷ cs) w h = serve-IsStarted cs (call c w) (one c)
  where
    one : (c : Call) → IsStarted (call c w)
    one (setting k v) = h
    one (deleting k) = h
    one (heading code) = ground (arith, h)
    one (writing b) = inl (ground arith)

emit-logged :
    (s : Events) (ctx : Context) (id : Text) (e : Event) (fields : List (Text × Text))
    → get_event id s ≡ some e
    → e.external_source ≡ false
    → emit s ctx id fields ≡ some (logged e none fields)
unfolding emit
emit-logged s ctx id e fields h x = rw (h, x) refl

module _ (s : Events) (encode : Problem → List ℕ) (r : Request) where
  panic-unanswered :
      (rec : Recorder) (d : Response) (line : Line)
      → rec.inner ≡ d
      → rec.wrote ≡ false
      → d.sent ≡ false
      → d.body ≡ []
      → ((answered s encode r rec (some line)).response.status ≡ 500)
        × (get "Content-Type" (answered s encode r rec (some line)).response.sent_header
            ≡ content_type)
        × ((p : Problem) × (p.status ≡ 500)
            × ((answered s encode r rec (some line)).response.body ≡ encode p))
  unfolding write_problem write write_header get set
  panic-unanswered rec d line e unwritten unsent empty =
      let inner_unsent = ap (λ v. v.sent) e ∙ unsent in
      let inner_empty = ap (λ v. v.body) e ∙ empty in
      (
        rw (unwritten, inner_unsent) refl,
        rw (unwritten, inner_unsent) refl,
        (panic_problem r rec, refl, rw (unwritten, inner_unsent, inner_empty) refl),
      )

  by_end :
      (end : End) (rec : Recorder) (d : Response)
      → get_event (text "API-011") s ≡ some api_011
      → Knows rec
      → rec.inner ≡ d
      → IsStarted d
      → IsRecovered encode r end d (recovered s encode r end rec)
  unfolding recovered
  by_end returns rec d a k e i = (e, refl, refl)
  by_end aborts rec d a k e i = (e, refl, refl)
  by_end (panics value) rec d a k e i =
      let id = get request_id_header rec.inner.header in
      let fields = panic_fields r id value in
      rw (emit-logged s r.context (text "API-011") api_011 fields a refl) (
        refl,
        ap (λ w. logged api_011 none (panic_fields r (get request_id_header w.header) value) ∷ [])
            e,
        elim (Bool-cases d.sent) [
          | inl t ↦ inl (t, rw (k.wrote_is ∙ ap (λ v. v.sent) e ∙ t) e)
          | inr f ↦
              let (status, media, problem) =
                panic-unanswered rec d (logged api_011 none fields) e
                  (k.wrote_is ∙ ap (λ v. v.sent) e ∙ f) f (ground (arith, i, f)) in
              inr (f, status, media, problem)
        ],
      )

  -- `IsRecovered` holds of any handler behind `Recovery`, on a fresh response, where API-011 is
  -- registered as the catalog registers it.
  pub recovery-IsRecovered :
      (run : Run) (h : Headers)
      → get_event (text "API-011") s ≡ some api_011
      → IsRecovered encode r run.end
          (serve run.calls (new_response h))
          (recovery s encode r run (new_response h))
  unfolding recovery
  recovery-IsRecovered run h a =
      let (k, e) = new_recorder-Knows run.calls h in
      by_end run.end (record_calls run.calls (new_recorder (new_response h)))
        (serve run.calls (new_response h)) a k e
        (serve-IsStarted run.calls (new_response h) (inr refl))
