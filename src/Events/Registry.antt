-- ===== src/Events/Registry.antt =====
-- What internal/core/events/registry.go keeps true of the catalog.
use weave_adapters.Prelude.Text.{Text, text_eq, is_blank}
use weave_adapters.Prelude.{
  ℕ, ◌≤◌, ◌≡◌, ◌≢◌, ◌⊎◌, ◌↔◌, refl, true, false, none, some, [], ◌∷◌, arith, All,
}
use weave_adapters.Events.{
  Event, Events, get, is_known, is_claimed, is_refused_by_log, has_all, standard_caller_fields,
  field_names, max_event_log_id, register,
}

abbrev pub HasOther : Text → Event → Type 0
HasOther id e = text_eq e.id id ≡ false

abbrev pub IsUnclaimed : ℕ → Event → Type 0
IsUnclaimed n e = e.event_log_id ≢ n

-- An ID of the Windows Event Log is in range, no other event's, and no event of a request has one.
abbrev pub IsLoggable : Event → Events → Type 0
IsLoggable e s =
    (e.event_log_id ≡ 0)
    ⊎ ((e.event_log_id ≤ max_event_log_id)
        × (e.external_source ≡ false)
        × All (IsUnclaimed e.event_log_id) s)

-- Each event has its own ID; one with an answer's detail has a code; its ID of the Windows Event Log, if
-- any, is as `IsLoggable` says; and an event of a request has the caller's fields.
abbrev pub IsCatalog : Events → Type 0
IsCatalog [] = Unit
IsCatalog (e ∷ s) =
    All (HasOther e.id) s
    × ((is_blank e.response_detail ≡ true) ⊎ (is_blank e.response_code ≡ false))
    × IsLoggable e s
    × ((e.external_source ≡ false) ⊎ (has_all standard_caller_fields (field_names e.fields) ≡ true))
    × IsCatalog s

get-All : (id : Text) (s : Events) → (is_known (get id s) ≡ false) ↔ All (HasOther id) s
unfolding get
get-All id [] = (λ h. tt, λ h. refl)
get-All id (e ∷ s) =
    let rest = get-All id s in
    (λ h. (ground (arith, h), rest.0 (ground (arith, h))), λ h. ground (arith, h.0, rest.1 h.1))

is_claimed-All : (n : ℕ) (s : Events) → (is_claimed n s ≡ false) ↔ All (IsUnclaimed n) s
unfolding is_claimed
is_claimed-All n [] = (λ h. tt, λ h. refl)
is_claimed-All n (e ∷ s) =
    let rest = is_claimed-All n s in
    (λ h. (ground (arith, h), rest.0 (ground (arith, h))), λ h. ground (arith, h.0, rest.1 h.1))

refused-IsLoggable : (e : Event) (s : Events) → (is_refused_by_log e s ≡ false) ↔ IsLoggable e s
refused-IsLoggable e s = ground (arith, is_claimed-All e.event_log_id s)

-- The tests of `Register` are all passed.
record IsAccepted (e : Event) (s : Events) : Type 0 where
  fresh : is_known (get e.id s) ≡ false
  answerable : (is_blank e.response_detail ≡ true) ⊎ (is_blank e.response_code ≡ false)
  loggable : is_refused_by_log e s ≡ false
  traceable :
      (e.external_source ≡ false) ⊎ (has_all standard_caller_fields (field_names e.fields) ≡ true)

register-IsAccepted_iff : (e : Event) (s : Events) → (register e s ≡ some (e ∷ s)) ↔ IsAccepted e s
unfolding register
register-IsAccepted_iff e s = ground arith

register_cases : (e : Event) (s : Events) → (register e s ≡ some (e ∷ s)) ⊎ (register e s ≡ none)
unfolding register
register_cases e s = ground arith

-- `Register` goes through exactly if the catalog with the event is well-formed, the one before being so;
-- else it panics.
pub register-IsCatalog_iff :
    (e : Event) (s : Events)
    → IsCatalog s
    → ((register e s ≡ some (e ∷ s)) ↔ IsCatalog (e ∷ s))
      × ((register e s ≡ some (e ∷ s)) ⊎ (register e s ≡ none))
register-IsCatalog_iff e s h =
    let fresh = get-All e.id s in
    let loggable = refused-IsLoggable e s in
    let accepted = register-IsAccepted_iff e s in
    (
      (
        λ r.
            let a = accepted.0 r in
            (fresh.0 a.fresh, a.answerable, loggable.0 a.loggable, a.traceable, h),
        λ c. accepted.1 (record {
          fresh = fresh.1 c.0;
          answerable = c.1;
          loggable = loggable.1 c.2;
          traceable = c.3;
        }),
      ),
      register_cases e s,
    )
