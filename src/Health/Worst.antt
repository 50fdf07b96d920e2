-- ===== src/Health/Worst.antt =====
-- What internal/core/health says overall: the worst of the components, and a change once.
use text.Mathlib.TextEquality.{eq_iff}
use weave_adapters.Prelude.{
  ℕ, ◌+◌, ◌≤◌, ◌≡◌, ◌⊎◌, ◌∙◌, refl, sym, ap, subst, Bool, true, false, none, some, List, [], ◌∷◌,
  leb, ltb, if◌then◌else◌, arith, All, inl, inr, Bool-cases, ltb→lt, not_ltb→le, ◌<◌,
}
use weave_adapters.Health.{
  Status, healthy, unhealthy, unavailable, other, Component, rank, worst_from, overall_status,
  Handler, core_component, same_status, transition, is_stale, evaluated, refresh,
}

abbrev pub IsNoWorse : Status → Component → Type 0
IsNoWorse s c = rank c.status ≤ rank s

abbrev pub HasStatus : Status → List Component → Type 0
HasStatus s [] = ⊥
HasStatus s (c ∷ cs) = (c.status ≡ s) ⊎ HasStatus s cs

-- `s` is the status of a component, or the one before, and none is worse.
pub record IsWorst (before : Status) (cs : List Component) (s : Status) : Type 0 where
  pub bound : All (IsNoWorse s) cs
  pub above : rank before ≤ rank s
  pub reached : (s ≡ before) ⊎ HasStatus s cs

worse :
    (s : Status) (c : Component) (cs : List Component) (t : Status)
    → ltb (rank s) (rank c.status) ≡ true
    → IsWorst c.status cs t
    → IsWorst s (c ∷ cs) t
worse s c cs t l h =
    let lower = ltb→lt (rank s) (rank c.status) l in
    record {
      bound = (h.above, h.bound);
      above = omega (arith, lower, h.above);
      reached = elim h.reached [ inl q ↦ inr (inl (sym q)) | inr i ↦ inr (inr i) ];
    }

no_worse :
    (s : Status) (c : Component) (cs : List Component) (t : Status)
    → ltb (rank s) (rank c.status) ≡ false
    → IsWorst s cs t
    → IsWorst s (c ∷ cs) t
no_worse s c cs t l h =
    let upper = not_ltb→le (rank s) (rank c.status) l in
    record {
      bound = (omega (arith, upper, h.above), h.bound);
      above = h.above;
      reached = elim h.reached [ inl q ↦ inl q | inr i ↦ inr (inr i) ];
    }

worst_from-IsWorst : (s : Status) (cs : List Component) → IsWorst s cs (worst_from s cs)
unfolding worst_from
worst_from-IsWorst s [] = record { bound = tt; above = omega arith; reached = inl refl }
worst_from-IsWorst s (c ∷ cs) = elim (Bool-cases (ltb (rank s) (rank c.status))) [
  | inl t ↦ worse s c cs _ t (rw t (worst_from-IsWorst c.status cs))
  | inr f ↦ no_worse s c cs _ f (rw f (worst_from-IsWorst s cs))
]

-- No component is worse than the overall status, which is a component's, or healthy.
pub overall_status-IsWorst : (cs : List Component) → IsWorst healthy cs (overall_status cs)
unfolding overall_status
overall_status-IsWorst cs = worst_from-IsWorst healthy cs

same_status_refl : (s : Status) → same_status s s ≡ true
same_status_refl healthy = refl
same_status_refl unhealthy = refl
same_status_refl unavailable = refl
same_status_refl (other s) = (eq_iff s s).1 refl

if_same : {A : Type 0} (b : Bool) {x : A} → (if b then x else x) ≡ x
if_same true = refl
if_same false = refl

lt→not_leb : (a b : ℕ) → a < b → leb b a ≡ false
lt→not_leb a b h = ground (arith, h)

transition-same : (s : Status) → transition s s ≡ none
transition-same s = rw (same_status_refl s) (if_same (same_status s (other "")))

refresh-stale :
    (now after : ℕ) (probed : List Component) (h : Handler)
    → is_stale h now h.components ≡ true
    → refresh now after probed h ≡ evaluated h after (core_component ∷ probed)
unfolding refresh
refresh-stale now after probed h t = rw t refl

refresh-cached :
    (now after : ℕ) (probed cs : List Component) (h : Handler)
    → h.components ≡ some cs
    → now < h.checked_at + h.ttl
    → refresh now after probed h ≡ evaluated h h.checked_at cs
unfolding refresh
refresh-cached now after probed cs h c l = rw (c, lt→not_leb now (h.checked_at + h.ttl) l) refl

-- Behind a request that ran the probes, one within their time to live gets the same status, without an event,
-- whatever the probes would say, and leaves the handler as it is.
pub refresh-refresh :
    (now after later end : ℕ) (probed changed : List Component) (h : Handler)
    → is_stale h now h.components ≡ true
    → later < after + h.ttl
    → refresh later end changed (refresh now after probed h).0
      ≡ ((refresh now after probed h).0, (refresh now after probed h).1, none)
refresh-refresh now after later end probed changed h t l =
    let cs = core_component ∷ probed in
    let run = evaluated h after cs in
    subst (λ r. refresh later end changed r.0 ≡ (r.0, r.1, none))
      (sym (refresh-stale now after probed h t))
      (refresh-cached later end changed cs run.0 refl l
        ∙ ap (λ o. (run.0, run.1, o)) (transition-same (overall_status cs)))
