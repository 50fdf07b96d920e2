-- ===== src/Http/Beside.antt =====
-- What internal/core/middleware/problem.go makes of a response, beside the one that the handler gives: the two
-- relations between them, and the answer that takes the other's place.
use weave_adapters.Prelude.Text.{Text, text, text_eq, is_blank}
use weave_adapters.Prelude.{
  ℕ, ◌≡◌, ◌⊎◌, ◌∙◌, refl, sym, ap, subst, Bool, true, false, Option, some, List, [], ◌∷◌, ◌++◌,
  ◌==◌, if◌then◌else◌, arith, inl, inr, Bool-cases, ==_iff,
}
use weave_adapters.Events.{Event, Events, get}
use weave_adapters.Apierror.{
  ApiError, new, new_found, not_found, truncate_path, new_error, lookup, lookup_in,
}
use weave_adapters.Apierror.Write.{
  Problem, Request, api_failure, content_type, problem, problem_of, as_error,
}
use weave_adapters.Apierror.Answers.{write_error-IsAnswered}
use weave_adapters.Http.Writer.{Response, write_header, get as get_header}
use weave_adapters.Http.Problem.{
  ProblemWriter, is_router_error, names_problem, should_replace, problem_for, as_written,
  replace_with, begun,
}

pub if_true {ℓ} : {A : Type ℓ} {b : Bool} (x y : A) → b ≡ true → (if b then x else y) ≡ x
if_true x y h = rw h refl

pub if_false {ℓ} : {A : Type ℓ} {b : Bool} (x y : A) → b ≡ false → (if b then x else y) ≡ y
if_false x y h = rw h refl

pub not_both : true ≡ false → ⊥
not_both h = ground (arith, h)

abbrev pub refused_fields : Request → ProblemWriter → List (Text × Text)
refused_fields r w =
    (text "method", r.method) ∷ (text "allow", get_header "Allow" (begun w).inner.header) ∷ []

abbrev pub resource : Request → Text
resource r = ((text "route " ++ r.method) ++ text " ") ++ truncate_path r.path

abbrev pub passed : ℕ → ProblemWriter → ProblemWriter
passed code w = record w { wrote = true; inner = write_header code w.inner }

-- The catalog has the two events of the router's answers, with their codes.
pub record HasRouterEvents (s : Events) : Type 0 where
  pub missing : Event
  pub missing_is : get (text "API-900") s ≡ some missing
  pub missing_code : missing.response_code ≡ text "not-found"
  pub refused : Event
  pub refused_is : get (text "API-902") s ≡ some refused
  pub refused_code : refused.response_code ≡ text "method-not-allowed"
  pub refused_detail : is_blank refused.response_detail ≡ false

module _ (media_type : Text → Option Text) where
  -- The response `d` of the handler went through as it is: it is no 404 or 405, or it is a problem already.
  pub record IsSame (w : ProblemWriter) (d : Response) : Type 0 where
    pub inner : w.inner ≡ d
    pub replaced : w.replaced ≡ false
    pub wrote : w.wrote ≡ d.sent
    pub unsent : (d.sent ≡ true) ⊎ ((d.status ≡ 200) × (d.body ≡ []))
    pub kept :
        (is_router_error d.status ≡ false)
        ⊎ (names_problem media_type (get_header "Content-Type" d.sent_header) ≡ true)

  -- The handler's response is a 404 or 405, and a problem of that status stands in its place.
  pub record IsReplaced (encode : Problem → List ℕ) (w : ProblemWriter) (d : Response)
      : Type 0 where
    pub replaced : w.replaced ≡ true
    pub wrote : w.wrote ≡ true
    pub started : d.sent ≡ true
    pub router_error : is_router_error d.status ≡ true
    pub sent : w.inner.sent ≡ true
    pub status : w.inner.status ≡ d.status
    pub typed : get_header "Content-Type" w.inner.sent_header ≡ content_type
    pub problem : Problem
    pub stated : problem.status ≡ d.status
    pub body : w.inner.body ≡ encode problem

  pub not_replaced :
      (code : ℕ) (w : ProblemWriter) (d : Response)
      → w.inner ≡ d
      → should_replace media_type code w ≡ false
      → (is_router_error code ≡ false)
        ⊎ (names_problem media_type (get_header "Content-Type" d.header) ≡ true)
  unfolding should_replace
  not_replaced code w d e g = elim (Bool-cases (is_router_error code)) [
    | inr f ↦ inl f
    | inl t ↦
        elim (Bool-cases (names_problem media_type (get_header "Content-Type" w.inner.header))) [
          | inl n ↦ inr (
              subst (λ d. names_problem media_type (get_header "Content-Type" d.header) ≡ true) e n)
          | inr n ↦ absurd (not_both (sym (rw (t, n) refl) ∙ g))
        ]
  ]

  pub router_replaced :
      (code : ℕ) (w : ProblemWriter)
      → should_replace media_type code w ≡ true
      → is_router_error code ≡ true
  unfolding should_replace
  router_replaced code w g = elim (Bool-cases (is_router_error code)) [
    | inl t ↦ t
    | inr f ↦ absurd (not_both (sym g ∙ rw f refl))
  ]

  module _ (s : Events) (encode : Problem → List ℕ) (r : Request) where
    abbrev pub IsBeside : ProblemWriter → Response → Type 0
    IsBeside w d = IsSame w d ⊎ IsReplaced encode w d

    abbrev pub Leads : Option ProblemWriter → Response → Type 0
    Leads o d = (v : ProblemWriter) × (o ≡ some v) × IsBeside v d

    module _ (has : HasRouterEvents s) (address : is_blank r.remote_addr ≡ false) where
      replaced_by :
          (e : ApiError) (code : ℕ) (w : ProblemWriter) (d : Response)
          → is_router_error code ≡ true
          → (problem s e r).status ≡ code
          → w.inner.sent ≡ false
          → w.inner.body ≡ []
          → d.sent ≡ true
          → d.status ≡ code
          → Leads (replace_with s encode r (begun w) (some e)) d
      unfolding as_error
      replaced_by e code w d router stated unsent empty sent status =
          let a =
            write_error-IsAnswered s encode r (api_failure false e) (begun w).inner address
              (ground arith) unsent empty in
          (
            record (begun w) { inner = a.answer },
            ap (as_written (begun w)) a.outcome,
            inr (record {
              replaced = refl;
              wrote = refl;
              started = sent;
              router_error = subst (λ c. is_router_error c ≡ true) (sym status) router;
              sent = a.sent;
              status = a.status ∙ stated ∙ sym status;
              typed = a.typed;
              problem = problem s e r;
              stated = stated ∙ sym status;
              body = a.body;
            }),
          )

      abbrev Onward : Response → ProblemWriter → Option ApiError → Type 0
      Onward d w o = Leads (replace_with s encode r (begun w) o) d

      missing_status : (resource : Text) → (problem s (not_found resource) r).status ≡ 404
      unfolding problem not_found new_error lookup lookup_in text text_eq
      missing_status resource =
          subst (λ o. (problem_of (not_found resource) r o).status ≡ 404) (sym has.missing_is)
            (subst (λ c. (lookup c).status ≡ 404) (sym has.missing_code) refl)

      refused_new :
          (fields : List (Text × Text))
          → new s (text "API-902") fields ≡ some (new_error (text "API-902") fields)
      unfolding new text
      refused_new fields =
          ap (new_found (text "API-902") fields) has.refused_is
          ∙ rw (has.refused_code, has.refused_detail) refl

      refused_status :
          (fields : List (Text × Text))
          → (problem s (new_error (text "API-902") fields) r).status ≡ 405
      unfolding problem new_error lookup lookup_in text text_eq
      refused_status fields =
          subst (λ o. (problem_of (new_error (text "API-902") fields) r o).status ≡ 405)
            (sym has.refused_is) (subst (λ c. (lookup c).status ≡ 405) (sym has.refused_code) refl)

      pub replaced_header :
          (code : ℕ) (w : ProblemWriter) (d : Response)
          → is_router_error code ≡ true
          → w.inner.sent ≡ false
          → w.inner.body ≡ []
          → d.sent ≡ true
          → d.status ≡ code
          → Leads (replace_with s encode r (begun w) (problem_for s r code (begun w))) d
      unfolding problem_for
      replaced_header code w d router unsent empty sent status = elim (Bool-cases (code == 405)) [
        | inl t ↦
            let e = new_error (text "API-902") (refused_fields r w) in
            subst (Onward d w) {x = some e} (sym (if_true _ _ t ∙ refused_new (refused_fields r w)))
              (replaced_by e code w d router
                (refused_status (refused_fields r w) ∙ sym ((==_iff code 405).0 t)) unsent empty
                sent status)
        | inr f ↦
            let e = not_found (resource r) in
            subst (Onward d w) {x = some e} (sym (if_false _ _ f)) (
              replaced_by e code w d router
                (missing_status (resource r) ∙ ground (arith, f, router)) unsent empty sent status)
      ]
