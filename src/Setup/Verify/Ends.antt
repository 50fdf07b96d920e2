-- ===== src/Setup/Verify/Ends.antt =====
-- The loop of internal/core/setup/verify.go ends, after at most one round for each second of its budget and one
-- more; and what a verification without an error has seen.
use weave_adapters.Prelude.{
  ℕ, zero, suc, ◌+◌, ◌*◌, ◌≤◌, ◌<◌, ◌≢◌, ◌==◌, str_eq, ltb→lt, ◌≡◌, ◌⊎◌, ◌∙◌, refl, sym, ap, subst,
  Bool, true, false, not, ◌&&◌, Option, none, some, List, [], ◌∷◌, String, ltb, if◌then◌else◌,
  arith, inl, inr, Bool-cases, Option-cases, le→not_ltb,
}
use weave_adapters.Setup.Reconcile.{Err, HealthReport, no_health, Plan}
use weave_adapters.Health.{Component}
use weave_adapters.Setup.Verify.{
  Answer, Observed, is_answer, body_of, read_listed, read_component, verify_poll, poll_from,
  poll_health, Protected, proved, prove_auth, verified, with_health, verified_in, apply_verify,
}

-- The clock does not run backwards before the first round, and each wait takes its second.
pub record IsClock (started : ℕ) (seen : ℕ → Observed) : Type 0 where
  pub begins : started ≤ (seen 0).now
  pub advances : (i : ℕ) → (seen i).now + verify_poll ≤ (seen (suc i)).now

branch :
    {A : Type 0} {o : Option A} (b : Bool) (x : A)
    → (a : A) × (o ≡ some a)
    → (a : A) × ((if b then some x else o) ≡ some a)
branch true x h = (x, refl)
branch false x h = h

module _ (parse : List ℕ → Option (List Component)) (seen : ℕ → Observed) (deadline : ℕ) where
  abbrev Returns : ℕ → ℕ → HealthReport → Type 0
  Returns fuel i r =
      (a : HealthReport × Option Err) × (poll_from parse seen deadline fuel i r ≡ some a)

  poll_from-once :
      (n i : ℕ) (r : HealthReport)
      → (ltb (seen i).now deadline ≡ false) ⊎ Returns n (suc i) r
      → Returns (suc n) i r
  unfolding poll_from
  poll_from-once n i r h =
      let o = seen i in
      branch (is_answer o.answer) _ (
        branch o.canceled _ (elim h [
          | inl late ↦ ((r, none), rw late refl)
          | inr more ↦ branch (not (ltb o.now deadline)) _ (branch o.canceled_waiting _ more)
        ]))

  poll_from-Returns :
      ((i : ℕ) → (seen i).now + verify_poll ≤ (seen (suc i)).now)
      → (n i : ℕ) (r : HealthReport) → deadline ≤ (seen i).now + n * verify_poll
      → Returns (suc n) i r
  poll_from-Returns c zero i r h =
      poll_from-once zero i r (inl (le→not_ltb (seen i).now deadline (omega (arith, h))))
  poll_from-Returns c (suc n) i r h =
      poll_from-once (suc n) i r (inr (poll_from-Returns c n (suc i) r (omega (arith, h, c i))))

-- Some round of the loop had an answer.
abbrev pub IsReached : (ℕ → Observed) → Type 0
IsReached seen = (i : ℕ) × (a : Answer) × ((seen i).answer ≡ some a) × (0 < a.status)

-- The token was not shown, for a reason that the report names as skipped; or it was, to a route that
-- answered anything but 401.
abbrev pub IsProved : Protected → String → HealthReport → Type 0
IsProved x token r =
    ((r.auth_skipped ≡ true)
      × ((x.auth_disabled ≡ true)
          ⊎ ((str_eq x.protected_path "" ≡ true) ⊎ ((str_eq token "" ≡ true) ⊎ (x.answer ≡ none)))))
    ⊎ ((r.auth_proved ≡ true) × ((a : Answer) × (x.answer ≡ some a) × (a.status ≢ 401)))

-- The service answered some round, and the report says so; and the token, where it was shown, was not
-- refused.
pub record IsVerified (seen : ℕ → Observed) (x : Protected) (token : String) (r : HealthReport)
    : Type 0 where
  pub reported : r.reachable ≡ true
  pub answered : IsReached seen
  pub admitted : IsProved x token r

-- nothing is said of the token yet
abbrev IsUnproved : HealthReport → Type 0
IsUnproved r = (r.auth_skipped ≡ false) × (r.auth_proved ≡ false)

proved-reachable : (a : Option Answer) (r : HealthReport) → (proved a r).reachable ≡ r.reachable
proved-reachable none r = refl
proved-reachable (some a) r = ground arith

prove_auth-reachable :
    (x : Protected) (token : String) (r : HealthReport)
    → (prove_auth x token r).reachable ≡ r.reachable
unfolding prove_auth
prove_auth-reachable x token r = ground (arith, proved-reachable x.answer r)

proved-IsProved :
    (x : Protected) (token : String) (o : Option Answer) (r : HealthReport)
    → x.answer ≡ o
    → IsUnproved r
    → (not (proved o r).auth_skipped && not (proved o r).auth_proved) ≡ false
    → IsProved x token (proved o r)
proved-IsProved x token none r e u h = inl (refl, inr (inr (inr e)))
proved-IsProved x token (some a) r e (s, p) h = elim (Bool-cases (a.status == 401)) [
  | inl t ↦ ground (arith, h, s, t)
  | inr f ↦ inr (ground (arith, f), (a, e, ground (arith, f)))
]

prove_auth-IsProved :
    (x : Protected) (token : String) (r : HealthReport)
    → IsUnproved r
    → (not (prove_auth x token r).auth_skipped && not (prove_auth x token r).auth_proved) ≡ false
    → IsProved x token (prove_auth x token r)
unfolding prove_auth
prove_auth-IsProved x token r u h = elim (Bool-cases x.auth_disabled) [
  | inl d ↦ inl (rw d refl, inl d)
  | inr d ↦ elim (Bool-cases (str_eq x.protected_path "")) [
    | inl n ↦ inl (rw (d, n) refl, inr (inl n))
    | inr n ↦ elim (Bool-cases (str_eq token "")) [
      | inl t ↦ inl (rw (d, n, t) refl, inr (inr (inl t)))
      | inr t ↦
          let shown : prove_auth x token r ≡ proved x.answer r = rw (d, n, t) refl in
          subst (IsProved x token) (sym shown) (
            proved-IsProved x token x.answer r refl u
              (ap (λ q. not q.auth_skipped && not q.auth_proved) (sym shown) ∙ h))
    ]
  ]
]

read_listed-flags :
    (r : HealthReport) (cs : List Component)
    → ((read_listed r cs).auth_skipped ≡ r.auth_skipped)
      × ((read_listed r cs).auth_proved ≡ r.auth_proved)
unfolding read_listed
read_listed-flags r [] = (refl, refl)
read_listed-flags r (c ∷ cs) = ground (arith, read_listed-flags r cs)

read_component-flags :
    (parse : List ℕ → Option (List Component)) (r : HealthReport) (body : List ℕ)
    → ((read_component parse r body).auth_skipped ≡ r.auth_skipped)
      × ((read_component parse r body).auth_proved ≡ r.auth_proved)
unfolding read_component
read_component-flags parse r body = elim (Option-cases (parse body)) [
  | inl n ↦ rw n (refl, refl)
  | inr (cs, e) ↦ rw e (read_listed-flags r cs)
]

answer-IsReached : (seen : ℕ → Observed) (i : ℕ) → is_answer (seen i).answer ≡ true → IsReached seen
answer-IsReached seen i h = elim (Option-cases (seen i).answer) [
  | inl n ↦ ground (arith, h, n)
  | inr (a, e) ↦ (i, a, e, ltb→lt 0 a.status (sym (ap is_answer e) ∙ h))
]

-- What the loop leaves: nothing is said of the token, and the service was not reached or answered.
abbrev Polled : (ℕ → Observed) → HealthReport → Type 0
Polled seen r = IsUnproved r × ((r.reachable ≡ false) ⊎ IsReached seen)

either :
    {A : Type 0} (P : A → Type 0) (c : Bool) (a b : A)
    → (c ≡ true → P a)
    → P b
    → P (if c then a else b)
either P true a b h k = h refl
either P false a b h k = k

module _ (parse : List ℕ → Option (List Component)) (seen : ℕ → Observed) (deadline : ℕ) where
  -- no result, or one as `Polled` says
  abbrev IsPolled : Option (HealthReport × Option Err) → Type 0
  IsPolled none = Unit
  IsPolled (some (r, e)) = Polled seen r

  poll_from-IsPolled :
      (n i : ℕ) (r : HealthReport)
      → IsUnproved r
      → r.reachable ≡ false
      → IsPolled (poll_from parse seen deadline n i r)
  unfolding poll_from
  poll_from-IsPolled zero i r u f = tt
  poll_from-IsPolled (suc n) i r u f =
      let o = seen i in
      let body = body_of o.answer in
      let (s, p) = read_component-flags parse (record r { reachable = true }) body in
      either IsPolled (is_answer o.answer) _ _
        (λ a. ((s ∙ u.0, p ∙ u.1), inr (answer-IsReached seen i a)))
        (either IsPolled o.canceled _ _ (λ c. (u, inl f))
          (either IsPolled (not (ltb o.now deadline)) _ _ (λ c. (u, inl f))
            (either IsPolled o.canceled_waiting _ _ (λ c. (u, inl f))
              (poll_from-IsPolled n (suc i) r u f))))

reached-IsReached :
    (seen : ℕ → Observed) (r : HealthReport) → Polled seen r → r.reachable ≡ true → IsReached seen
reached-IsReached seen r (u, inl f) t = ground (arith, f, t)
reached-IsReached seen r (u, inr a) t = a

module _ {R : Type 0} (parse : List ℕ → Option (List Component)) (seen : ℕ → Observed) where
  closed :
      (x : Protected) (p : Plan R) (r : HealthReport)
      → r.reachable ≡ true
      → (not (prove_auth x p.token r).auth_skipped && not (prove_auth x p.token r).auth_proved)
        ≡ false
      → verified x p (r, none) ≡ (with_health (prove_auth x p.token r) p, none)
  closed x p r t g = simp (t, g)

  verified-IsVerified :
      (x : Protected) (p q : Plan R) (a : HealthReport × Option Err)
      → Polled seen a.0
      → verified x p a ≡ (q, none)
      → IsVerified seen x p.token q.health
  verified-IsVerified x p q (r, some e) k h = ground (arith, h)
  verified-IsVerified x p q (r, none) k h =
      let proof = prove_auth x p.token r in
      elim (Bool-cases r.reachable) [
        | inr f ↦ ground (arith, h, f)
        | inl t ↦ elim (Bool-cases (not proof.auth_skipped && not proof.auth_proved)) [
          | inl g ↦ ground (arith, h, t, g)
          | inr g ↦
              let same = sym (ap (λ o. o.0.health) h) ∙ ap (λ o. o.0.health) (closed x p r t g) in
              subst (IsVerified seen x p.token) (sym same) (record {
                reported = prove_auth-reachable x p.token r ∙ t;
                answered = reached-IsReached seen r k t;
                admitted = prove_auth-IsProved x p.token r k.0 g;
              })
        ]
      ]

  -- `Apply` of the step `verify` returns, with fuel for one round more than its budget has seconds; and
  -- where it returns no error, the service has answered a round, and the token of the plan was shown to
  -- a route that answered other than 401, or was not shown: authentication is off, no route was named,
  -- no token was minted, or the route could not be reached.
  pub apply_verify-IsVerified :
      (started budget n : ℕ) (component : String) (x : Protected) (p : Plan R)
      → IsClock started seen
      → budget ≤ n * verify_poll
      → (q : Plan R) × (err : Option Err) × (apply_verify parse seen started budget component x
            (suc n)
            p
          ≡ some (q, err))
        × (((e : Err) × (err ≡ some e)) ⊎ IsVerified seen x p.token q.health)
  unfolding apply_verify poll_health
  apply_verify-IsVerified started budget n component x p c h =
      let first = record no_health { checked = true; component = component } in
      let (a, e) =
        poll_from-Returns parse seen (started + budget) c.advances n 0 first
          (omega (arith, c.begins, h)) in
      let polled =
        subst (IsPolled parse seen (started + budget)) e
          (poll_from-IsPolled parse seen (started + budget) (suc n) 0 first (refl, refl) refl) in
      let out = verified x p a in
      (
        out.0,
        out.1,
        ap (verified_in x p) e,
        elim (Option-cases out.1) [
          | inl none_there ↦
              inr (verified-IsVerified x p out.0 a polled (ap (λ o. (out.0, o)) none_there))
          | inr (err, there) ↦ inl (err, there)
        ],
      )
