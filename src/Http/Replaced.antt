-- ===== src/Http/Replaced.antt =====
-- Behind internal/core/middleware/problem.go every response is the handler's own, or a problem in its place.
use weave_adapters.Prelude.Text.{Text, is_blank}
use weave_adapters.Prelude.{
  ℕ, ◌≡◌, ◌∙◌, refl, sym, ap, subst, true, false, Option, none, some, List, [], ◌∷◌, arith, inl,
  inr, Bool-cases,
}
use weave_adapters.Events.{Events}
use weave_adapters.Apierror.Write.{Problem, Request}
use weave_adapters.Http.Writer.{
  Headers, Response, new_response, write_header, write, with_header, set, del, Call, setting,
  deleting, heading, writing, call, serve,
}
use weave_adapters.Http.Problem.{
  ProblemWriter, new_problem_writer, should_replace, problem_for, replace_with, begun,
  problem_header, problem_write, problem_call, problem_calls,
}
use weave_adapters.Http.Beside.{
  if_true, if_false, passed, not_replaced, router_replaced, replaced_header, HasRouterEvents,
  IsSame, IsReplaced, IsBeside, Leads,
}

module _ (media_type : Text → Option Text) where
  module _ (s : Events) (encode : Problem → List ℕ) (r : Request) where
    module _ (has : HasRouterEvents s) (address : is_blank r.remote_addr ≡ false) where
      header-begun :
          (code : ℕ) (w : ProblemWriter)
          → w.wrote ≡ true
          → problem_header media_type s encode r code w ≡ some w
      unfolding problem_header
      header-begun code w t = if_true _ _ t

      header-passed :
          (code : ℕ) (w : ProblemWriter)
          → w.wrote ≡ false
          → should_replace media_type code w ≡ false
          → problem_header media_type s encode r code w ≡ some (passed code w)
      unfolding problem_header
      header-passed code w f g = if_false _ _ f ∙ rw g refl

      header-replaced :
          (code : ℕ) (w : ProblemWriter)
          → w.wrote ≡ false
          → should_replace media_type code w ≡ true
          → problem_header media_type s encode r code w
            ≡ replace_with s encode r (begun w) (problem_for s r code (begun w))
      unfolding problem_header
      header-replaced code w f g = if_false _ _ f ∙ rw g refl

      header-same :
          (code : ℕ) (w : ProblemWriter) (d : Response)
          → IsSame media_type w d
          → Leads media_type s encode r
              (problem_header media_type s encode r code w)
              (write_header code d)
      unfolding should_replace write_header
      header-same code w d h = elim (Bool-cases d.sent) [
        | inl t ↦ (
          w,
          header-begun code w (h.wrote ∙ t),
          inl (subst (λ d. IsSame media_type w d) (sym (if_true _ _ t)) h),
        )
        | inr f ↦ elim (Bool-cases (should_replace media_type code w)) [
          | inr g ↦ (
            passed code w,
            header-passed code w (h.wrote ∙ f) g,
            inl (record {
              inner = ap (write_header code) h.inner;
              replaced = h.replaced;
              wrote = rw f refl;
              unsent = inl (rw f refl);
              kept = rw f (not_replaced media_type code w d h.inner g);
            }),
          )
          | inl g ↦
              subst (λ o. Leads media_type s encode r o (write_header code d))
                (sym (header-replaced code w (h.wrote ∙ f) g))
                (replaced_header media_type s encode r has address code w (write_header code d)
                  (router_replaced media_type code w g) (ap (λ v. v.sent) h.inner ∙ f)
                  (ap (λ v. v.body) h.inner ∙ ground (arith, f, h.unsent)) (rw f refl) (rw f refl))
        ]
      ]

      call-replaced :
          (c : Call) (w : ProblemWriter) (d : Response)
          → IsReplaced media_type encode w d
          → Leads media_type s encode r (problem_call media_type s encode r c w) (call c d)
      unfolding problem_call problem_header problem_write call write write_header
      call-replaced (setting k v) w d h =
          (record w { inner = with_header (set k v) w.inner }, refl, inr (ground arith))
      call-replaced (deleting k) w d h =
          (record w { inner = with_header (del k) w.inner }, refl, inr (ground arith))
      call-replaced (heading code) w d h = (w, if_true _ _ h.wrote, inr (ground arith))
      call-replaced (writing b) w d h = (w, ap some (if_true _ _ h.replaced), inr (ground arith))

      call-same :
          (c : Call) (w : ProblemWriter) (d : Response)
          → IsSame media_type w d
          → Leads media_type s encode r (problem_call media_type s encode r c w) (call c d)
      unfolding problem_call problem_write call write write_header
      call-same (setting k v) w d h =
          (record w { inner = with_header (set k v) w.inner }, refl, inl (ground arith))
      call-same (deleting k) w d h =
          (record w { inner = with_header (del k) w.inner }, refl, inl (ground arith))
      call-same (heading code) w d h = header-same code w d h
      call-same (writing b) w d h = (
        record w { wrote = true; inner = write b w.inner },
        ap some (if_false _ _ h.replaced),
        inl (ground arith),
      )

      abbrev go_on : List Call → Option ProblemWriter → Option ProblemWriter
      go_on cs o = elim o [ none ↦ none | some v ↦ problem_calls media_type s encode r cs v ]

      calls-beside :
          (cs : List Call) (w : ProblemWriter) (d : Response)
          → IsBeside media_type s encode r w d
          → Leads media_type s encode r (problem_calls media_type s encode r cs w) (serve cs d)
      unfolding problem_calls serve
      calls-beside [] w d h = (w, refl, h)
      calls-beside (c ∷ cs) w d h =
          let (v, e, k) = one c w d h in
          let (u, f, l) = calls-beside cs v (call c d) k in (u, ap (go_on cs) e ∙ f, l)
        where
          one :
              (c : Call) (w : ProblemWriter) (d : Response)
              → IsBeside media_type s encode r w d
              → Leads media_type s encode r (problem_call media_type s encode r c w) (call c d)
          one c w d (inl h) = call-same c w d h
          one c w d (inr h) = call-replaced c w d h

      -- Behind `ProblemErrors` no call panics, and the response ends as the handler's own where that is no
      -- 404 or 405, or is a problem already; else as a problem of the same status. The catalog has the
      -- router's events, and the request an address.
      pub problem_calls-IsBeside :
          (cs : List Call) (h : Headers)
          → Leads media_type s encode r
              (problem_calls media_type s encode r cs (new_problem_writer (new_response h)))
              (serve cs (new_response h))
      unfolding new_problem_writer
      problem_calls-IsBeside cs h =
          calls-beside cs (new_problem_writer (new_response h)) (new_response h) (
            inl (record {
              inner = refl;
              replaced = refl;
              wrote = refl;
              unsent = inr (refl, refl);
              kept = inl refl;
            }))
