-- ===== src/Config/Tests.antt =====
-- A specification of two keys, and one that `index` lets through with one flag for two keys.
use weave_adapters.Prelude.Text.{Text, text, text_eq}
use weave_adapters.Prelude.Int.{pos}
use weave_adapters.Prelude.{
  ◌≡◌, refl, true, false, Option, none, some, List, [], ◌∷◌, arith, inl, ◌↔◌, All,
}
use weave_adapters.Config.{
  KeyType, int_type, string_type, Value, int_value, string_value, not_a_path, file_path,
  command_path, Key, Spec, Parsers, Source, flag_name, words, words_from, join, index, index_from,
  is_among, load, resolve, env_source, env_transform, defaults, layered, value_in, coerce,
  coerce_value, get, key_of, has_type, to_upper, env_name,
}
use weave_adapters.Config.Names.{IsUnambiguous, AreNamed, index-IsUnambiguous}
use weave_adapters.Config.Typed.{load-IsTyped}
use weave_adapters.Config.ServicePath.{
  PathErr, unset, relative_path, check_service_paths, check_keys, check_path,
  is_absolute_windows_path, is_bare_command_name, normalized,
}
use weave_adapters.Config.Located.{IsWell, check_service_paths-IsWell}

abbrev key : Text → KeyType → Option Value → Key
key name t default = record {
  name = name;
  key_type = t;
  default = default;
  path = not_a_path;
  service_required = false;
  no_flag = false;
}

abbrev spec : Spec
spec =
    key (text "port") int_type (some (int_value (pos 8444)))
    ∷ key (text "dhcp.commandTimeout") string_type none
    ∷ []

flag : flag_name (text "dhcp.commandTimeout") ≡ text "dhcp-command-timeout"
unfolding flag_name words words_from join text
flag = refl

-- With a dash in its name a key derives the flag of another.
one_flag :
    (index (key (text "a-b") int_type none ∷ key (text "aB") int_type none ∷ []) ≡ true)
    × (flag_name (text "a-b") ≡ flag_name (text "aB"))
unfolding index index_from is_among flag_name words words_from join text text_eq
one_flag = (refl, refl)

spec-AreNamed : AreNamed spec
unfolding text
spec-AreNamed = ground arith

indexed : index spec ≡ true
unfolding index index_from is_among flag_name words words_from join text text_eq
indexed = refl

index-IsUnambiguous_example : IsUnambiguous spec
index-IsUnambiguous_example = index-IsUnambiguous spec spec-AreNamed indexed

abbrev parsers : Parsers
parsers = record {
  parse_int = λ t. some (pos 9000);
  parse_bool = λ t. none;
  parse_duration = λ t. none;
}

abbrev environ : List (Text × Text)
environ = (text "WEAVE_ADAPTER_PORT", text "9000") ∷ []

abbrev values : Source
values = (text "port", int_value (pos 9000)) ∷ (text "dhcp.commandTimeout", string_value []) ∷ []

loaded : load parsers [] environ [] spec ≡ some values
unfolding load index index_from is_among flag_name words words_from join text text_eq resolve
    env_source env_transform defaults layered value_in coerce coerce_value to_upper env_name
loaded = refl

load-IsTyped_example :
    (v : Value) × (get spec values (text "port") int_type ≡ some v)
    × (has_type int_type v ≡ true)
    × (coerce parsers int_type
          (layered (text "port") (defaults spec ∷ [] ∷ env_source spec environ ∷ [] ∷ []))
        ≡ some v)
load-IsTyped_example =
    load-IsTyped parsers [] environ [] spec values
      (key (text "port") int_type (some (int_value (pos 8444)))) loaded (inl refl)

-- a path that a service needs, and the command that it runs
abbrev located : Spec
located =
    record (key (text "logFile") string_type none) { path = file_path; service_required = true }
    ∷ record (key (text "dhcp.command") string_type (some (string_value (text "powershell.exe")))) {
      path = command_path;
    }
    ∷ []

abbrev located_environ : List (Text × Text)
located_environ = (text "WEAVE_ADAPTER_LOG_FILE", text "C:\\log.txt") ∷ []

abbrev located_values : Source
located_values =
    (text "logFile", string_value (text "C:\\log.txt"))
    ∷ (text "dhcp.command", string_value (text "powershell.exe"))
    ∷ []

located_loaded : load parsers [] located_environ [] located ≡ some located_values
unfolding load index index_from is_among flag_name words words_from join text text_eq resolve
    env_source env_transform defaults layered value_in coerce coerce_value to_upper env_name
located_loaded = refl

no_errors : check_service_paths located located_values ≡ some []
unfolding check_service_paths check_keys check_path is_absolute_windows_path is_bare_command_name
    normalized text text_eq get key_of value_in
no_errors = refl

-- A relative path is reported, and so is one that is not set.
abbrev misplaced_values : Source
misplaced_values =
    (text "logFile", string_value []) ∷ (text "dhcp.command", string_value (text ".\\a.exe")) ∷ []

two_errors :
    check_service_paths located misplaced_values
    ≡ some (unset (text "logFile") ∷ relative_path (text "dhcp.command") ∷ [])
unfolding check_service_paths check_keys check_path is_absolute_windows_path is_bare_command_name
    normalized text text_eq get key_of value_in
two_errors = refl

check_service_paths-IsWell_example :
    (errs : List PathErr) × (check_service_paths located located_values ≡ some errs)
    × ((errs ≡ []) ↔ All (IsWell located located_values) located)
check_service_paths-IsWell_example =
    check_service_paths-IsWell parsers [] located_environ [] located located_values located_loaded
