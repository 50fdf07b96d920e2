-- ===== src/Apierror.antt =====
-- internal/core/apierror: taxonomy.go, problem.go and write.go. Errors that become an answer and a line of
-- the log. A field's value is what `fmt.Sprint` gives of it.
pub mod Write
pub mod Answers
mod Tests
use weave_adapters.Prelude.Text.{Text, text, text_eq, is_blank, byte_len, utf8_len}
use weave_adapters.Prelude.{
  ℕ, zero, suc, ◌+◌, ◌-◌, Bool, true, false, not, ◌&&◌, ◌||◌, Option, none, some, List, [], ◌∷◌,
  ◌++◌, ltb, leb, ◌==◌, if◌then◌else◌, length,
}
use weave_adapters.Events.{Event, Events, get}

-- `entry` of the taxonomy
pub record Meaning : Type 0 where
  pub status : ℕ
  pub title : Text

abbrev meaning : ℕ → Text → Meaning
meaning status title = record { status = status; title = title }

abbrev pub code_internal : Text
code_internal = text "internal"

abbrev pub internal_meaning : Meaning
internal_meaning = meaning 500 (text "Internal server error")

abbrev pub taxonomy : List (Text × Meaning)
taxonomy =
    (text "validation-failed", meaning 400 (text "Validation failed"))
    ∷ (text "unauthorized", meaning 401 (text "Unauthorized"))
    ∷ (text "not-found", meaning 404 (text "Not found"))
    ∷ (text "method-not-allowed", meaning 405 (text "Method not allowed"))
    ∷ (code_internal, internal_meaning)
    ∷ (text "payload-too-large", meaning 413 (text "Payload too large"))
    ∷ (text "unsupported-media-type", meaning 415 (text "Unsupported media type"))
    ∷ (text "conflict", meaning 409 (text "Conflict"))
    ∷ (text "unprocessable", meaning 422 (text "Unprocessable"))
    ∷ (text "backend-unavailable", meaning 502 (text "Backend unavailable"))
    ∷ (text "backend-timeout", meaning 504 (text "Backend timeout"))
    ∷ (text "backend-error", meaning 502 (text "Backend error"))
    ∷ []

unfoldable pub lookup_in : List (Text × Meaning) → Text → Meaning
lookup_in [] code = internal_meaning
lookup_in (e ∷ es) code = if text_eq e.0 code then e.1 else lookup_in es code

-- `lookup`
unfoldable pub lookup : Text → Meaning
lookup code = lookup_in taxonomy code

abbrev pub type_prefix : Text
type_prefix = text "weave-adapters:"

-- `TypeFor`
abbrev pub type_for : Text → Text
type_for code = type_prefix ++ code

-- `TitleFor`
abbrev pub title_for : Text → Text
title_for code = (lookup code).title

pub record FieldError : Type 0 where
  pub field : Text
  pub message : Text

abbrev pub Fields : Type 0
Fields = List (Text × Text)

-- `Error`; a cause is its own `Error()`
pub record ApiError : Type 0 where
  pub event_id : Text
  pub fields : Fields
  pub cause : Option Text
  pub field_errors : List FieldError
  pub backend_error : Text

-- `newError`
unfoldable pub new_error : Text → Fields → ApiError
new_error id fields = record {
  event_id = id;
  fields = fields;
  cause = none;
  field_errors = [];
  backend_error = [];
}

-- `WithCause`
abbrev pub with_cause : Option Text → ApiError → ApiError
with_cause cause e = record e { cause = cause }

-- `WithBackendError`
abbrev pub with_backend_error : Text → ApiError → ApiError
with_backend_error m e = record e { backend_error = m }

-- `WithFieldErrors`
abbrev pub with_field_errors : List FieldError → ApiError → ApiError
with_field_errors fs e = record e { field_errors = e.field_errors ++ fs }

abbrev pub new_found : Text → Fields → Option Event → Option ApiError
new_found id fields none = none
new_found id fields (some e) =
    if is_blank e.response_code || is_blank e.response_detail
    then none
    else some (new_error id fields)

-- `New`, on fields that are pairs; `none` is a panic
unfoldable pub new : Events → Text → Fields → Option ApiError
new s id fields = new_found id fields (get id s)

-- `NotFound`
unfoldable pub not_found : Text → ApiError
not_found resource = new_error (text "API-900") ((text "resource", resource) ∷ [])

-- `strings.Join(names, ", ")`
abbrev pub join : List FieldError → Text
join [] = []
join (f ∷ []) = f.field
join (f ∷ g ∷ fs) = (f.field ++ text ", ") ++ join (g ∷ fs)

abbrev named : List FieldError → Text
named [] = text "(none)"
named (f ∷ fs) = join (f ∷ fs)

-- `Validation`
unfoldable pub validation : List FieldError → ApiError
unfolding new_error
validation fs = with_field_errors fs (new_error (text "API-903") ((text "fields", named fs) ∷ []))

-- `Internal`
unfoldable pub internal : Option Text → ApiError
unfolding new_error
internal none = with_cause none (new_error (text "API-901") ((text "error", []) ∷ []))
internal (some m) = with_cause (some m) (new_error (text "API-901") ((text "error", m) ∷ []))

abbrev pub max_reflected_path_len : ℕ
max_reflected_path_len = 128

-- the characters that lie whole in the first `n` bytes
unfoldable pub cut_at : ℕ → Text → Text
cut_at n [] = []
cut_at n (c ∷ cs) =
    let rest = cut_at (n - utf8_len c) cs in if leb (utf8_len c) n then c ∷ rest else []

-- `TruncatePath`
unfoldable pub truncate_path : Text → Text
truncate_path path =
    if leb (byte_len path) max_reflected_path_len
    then path
    else cut_at max_reflected_path_len path ++ 0x2026 ∷ []

-- whether `p` is a prefix of `t`
unfoldable pub starts_with : Text → Text → Bool
starts_with [] t = true
starts_with (p ∷ ps) [] = false
starts_with (p ∷ ps) (c ∷ cs) = p == c && starts_with ps cs

abbrev placeholder : Text → Text
placeholder key = (text "{{" ++ key) ++ text "}}"

unfoldable pub placeholder_at : Fields → Text → Option (Text × Text)
placeholder_at [] t = none
placeholder_at (f ∷ fs) t =
    if starts_with (placeholder f.0) t then some (placeholder f.0, f.1) else placeholder_at fs t

abbrev pub replacing : Option (Text × Text) → ℕ → (ℕ → Text) → Text
replacing none c rest = c ∷ rest 0
replacing (some (old, value)) c rest = value ++ rest (length old - 1)

-- `strings.NewReplacer(...).Replace` with these pairs; `skip` characters are already replaced. The order of
-- the pairs matters only where one placeholder begins another.
unfoldable pub replace_from : Fields → ℕ → Text → Text
replace_from fields skip [] = []
replace_from fields (suc n) (c ∷ cs) = replace_from fields n cs
replace_from fields zero (c ∷ cs) =
    replacing (placeholder_at fields (c ∷ cs)) c (λ n. replace_from fields n cs)

-- `render`; without fields or without `{{` the replacer gives the template too
unfoldable pub render : Text → Fields → Text
render template fields = replace_from fields 0 template
