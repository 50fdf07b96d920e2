-- ===== src/Config/ServicePath.antt =====
-- internal/core/config/servicepath.go: the paths of a service, and config.go: the check of the core's keys.
use weave_adapters.Prelude.Text.{Text, text, is_blank, contains}
use weave_adapters.Prelude.Int.{ℤ, pos, negsuc}
use weave_adapters.Prelude.{
  ℕ, Bool, true, false, not, ◌&&◌, ◌||◌, Option, none, some, List, [], ◌∷◌, ◌++◌, leb, ◌==◌,
  if◌then◌else◌,
}
use weave_adapters.Config.{
  KeyType, string_type, int_type, bool_type, Value, string_value, int_value, bool_value, PathKind,
  not_a_path, file_path, command_path, Key, Spec, Source, get,
}

abbrev pub backslash : ℕ → ℕ
backslash c = if c == 47 then 92 else c

-- `strings.ReplaceAll(value, "/", "\\")`
unfoldable pub normalized : Text → Text
normalized [] = []
normalized (c ∷ cs) = backslash c ∷ normalized cs

abbrev pub is_drive_letter : ℕ → Bool
is_drive_letter c = (leb 97 c && leb c 122) || (leb 65 c && leb c 90)

abbrev pub is_unc : Text → Bool
is_unc (c ∷ d ∷ cs) = c == 92 && d == 92
is_unc _ = false

abbrev pub is_rooted : Text → Bool
is_rooted (a ∷ c ∷ d ∷ cs) = c == 58 && (d == 92 && is_drive_letter a)
is_rooted _ = false

-- `isAbsoluteWindowsPath`
unfoldable pub is_absolute_windows_path : Text → Bool
is_absolute_windows_path value =
    if is_unc (normalized value) then true else is_rooted (normalized value)

-- `isBareCommandName`
unfoldable pub is_bare_command_name : Text → Bool
is_bare_command_name [] = true
is_bare_command_name (c ∷ cs) = not (c == 47 || c == 92) && is_bare_command_name cs

abbrev pub is_command : PathKind → Bool
is_command command_path = true
is_command _ = false

abbrev pub is_a_path : PathKind → Bool
is_a_path not_a_path = false
is_a_path _ = true

-- `checkPath` has no error
unfoldable pub check_path : PathKind → Text → Bool
check_path kind value =
    if is_blank value
    then true
    else if is_absolute_windows_path value
    then true
    else is_command kind && is_bare_command_name value

-- an error of `CheckServicePaths`, by the name of its key
pub data PathErr : Type 0 where
  unset relative_path : Text → PathErr

abbrev pub path_errors : Key → Text → List PathErr
path_errors k value =
    if k.service_required && is_blank value
    then unset k.name ∷ []
    else if not (is_a_path k.path)
    then []
    else if not (check_path k.path value)
    then relative_path k.name ∷ []
    else []

abbrev pub is_string : KeyType → Bool
is_string string_type = true
is_string _ = false

abbrev pub errors_at : Key → Option Value → Option (List PathErr)
errors_at k (some (string_value s)) = some (path_errors k s)
errors_at k _ = none

abbrev pub append_errors : Option (List PathErr) → Option (List PathErr) → Option (List PathErr)
append_errors (some a) (some b) = some (a ++ b)
append_errors _ _ = none

-- the loop of `CheckServicePaths`, in the order of the keys given; `none` is a panic of `get`
unfoldable pub check_keys : Spec → Source → List Key → Option (List PathErr)
check_keys spec values [] = some []
check_keys spec values (k ∷ ks) =
    let rest = check_keys spec values ks in
    if not (is_string k.key_type)
    then rest
    else append_errors (errors_at k (get spec values k.name string_type)) rest

-- `CheckServicePaths`; the code goes through the keys by their names in order
unfoldable pub check_service_paths : Spec → Source → Option (List PathErr)
check_service_paths spec values = check_keys spec values spec

pub record Config : Type 0 where
  pub port : ℤ
  pub disable_https : Bool
  pub log_severity : Text
  pub log_file : Text
  pub auth_tokens_file : Text
  pub disable_auth : Bool
  pub max_request_body_bytes : ℤ

pub data ConfigErr : Type 0 where
  bad_port bad_severity bad_body_limit needs_https needs_tokens_file : ConfigErr

abbrev pub is_port : ℤ → Bool
is_port (pos n) = leb 1 n && leb n 65535
is_port (negsuc n) = false

abbrev pub is_at_least_one : ℤ → Bool
is_at_least_one (pos n) = leb 1 n
is_at_least_one (negsuc n) = false

abbrev pub valid_log_severities : List Text
valid_log_severities = text "debug" ∷ text "info" ∷ text "warn" ∷ text "error" ∷ []

abbrev error_if : Bool → ConfigErr → List ConfigErr
error_if b e = if b then e ∷ [] else []

-- `Validate`: all its errors
unfoldable pub validate : Config → List ConfigErr
validate c =
    error_if (not (is_port c.port)) bad_port
    ++ error_if (not (contains valid_log_severities c.log_severity)) bad_severity
    ++ error_if (not (is_at_least_one c.max_request_body_bytes)) bad_body_limit
    ++ error_if (not c.disable_https) needs_https
    ++ error_if (not c.disable_auth && is_blank c.auth_tokens_file) needs_tokens_file

abbrev pub core_key : Text → KeyType → Value → PathKind → Bool → Key
core_key name t default path required = record {
  name = name;
  key_type = t;
  default = some default;
  path = path;
  service_required = required;
  no_flag = false;
}

-- `CoreKeys`
abbrev pub core_keys : Spec
core_keys =
    core_key (text "port") int_type (int_value (pos 8444)) not_a_path false
    ∷ core_key (text "disableHttps") bool_type (bool_value true) not_a_path false
    ∷ core_key (text "logSeverity") string_type (string_value (text "info")) not_a_path false
    ∷ core_key (text "logFile") string_type (string_value []) file_path true
    ∷ core_key (text "authTokensFile") string_type (string_value (text "tokens.toml")) file_path
        false
    ∷ core_key (text "disableAuth") bool_type (bool_value false) not_a_path false
    ∷ core_key (text "maxRequestBodyBytes") int_type (int_value (pos 1048576)) not_a_path false
    ∷ []

abbrev int_of : Option Value → Option ℤ
int_of (some (int_value n)) = some n
int_of _ = none

abbrev bool_of : Option Value → Option Bool
bool_of (some (bool_value b)) = some b
bool_of _ = none

abbrev string_of : Option Value → Option Text
string_of (some (string_value s)) = some s
string_of _ = none

abbrev pub core_of :
    Option ℤ
    → Option Bool
    → Option Text
    → Option Text
    → Option Text
    → Option Bool
    → Option ℤ
    → Option Config
core_of (some port) (some https) (some severity) (some log) (some tokens) (some auth) (some size) =
    some (record {
      port = port;
      disable_https = https;
      log_severity = severity;
      log_file = log;
      auth_tokens_file = tokens;
      disable_auth = auth;
      max_request_body_bytes = size;
    })
core_of _ _ _ _ _ _ _ = none

abbrev validated : Option Config → Option (Config × List ConfigErr)
validated none = none
validated (some c) = some (c, validate c)

-- `Core`: the configuration with the errors of its check; `none` is a panic of `get`
unfoldable pub core : Spec → Source → Option (Config × List ConfigErr)
core spec values = validated (
    core_of (int_of (get spec values (text "port") int_type))
      (bool_of (get spec values (text "disableHttps") bool_type))
      (string_of (get spec values (text "logSeverity") string_type))
      (string_of (get spec values (text "logFile") string_type))
      (string_of (get spec values (text "authTokensFile") string_type))
      (bool_of (get spec values (text "disableAuth") bool_type))
      (int_of (get spec values (text "maxRequestBodyBytes") int_type)))
