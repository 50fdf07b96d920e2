-- ===== src/Events/Tests.antt =====
-- The events of client errors, and one that must not reach the Windows Event Log.
use weave_adapters.Prelude.Text.{text, text_eq, contains}
use weave_adapters.Prelude.{◌≡◌, ◌⊎◌, ◌↔◌, refl, true, none, some, [], ◌∷◌}
use weave_adapters.Events.{Event, register, get, has_all, is_claimed, info}
use weave_adapters.Events.Catalog.{
  client_errors, register_all, events_of, client_events, caller_fields,
}
use weave_adapters.Events.Registry.{IsCatalog, register-IsCatalog_iff}

all_registered : register_all client_errors [] ≡ some client_events
unfolding client_events register_all events_of register get has_all is_claimed text text_eq contains
all_registered = refl

abbrev flooding : Event
flooding = record {
  id = text "API-099";
  level = info;
  message_template = [];
  fields = caller_fields;
  external_source = true;
  event_log_id = 7;
  response_detail = [];
  response_code = [];
}

flooding_refused : register flooding [] ≡ none
unfolding register get has_all is_claimed text text_eq contains
flooding_refused = refl

register-IsCatalog_iff_example :
    ((register flooding [] ≡ some (flooding ∷ [])) ↔ IsCatalog (flooding ∷ []))
    × ((register flooding [] ≡ some (flooding ∷ [])) ⊎ (register flooding [] ≡ none))
register-IsCatalog_iff_example = register-IsCatalog_iff flooding [] tt
