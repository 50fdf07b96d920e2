-- ===== src/Setup/Provision.antt =====
-- internal/core/setup/provision.go: the steps `config` and `token`, with the store of internal/core/auth. A
-- verdict's detail and an error are their format, without what it names. The configuration's reader, its
-- renderer and the adapter's own check are arguments, as are the file system's answers.
pub mod Settled
mod Tests
use weave_adapters.Prelude.Text.{Text}
use weave_adapters.Prelude.{
  ℕ, Bool, true, false, not, ◌&&◌, Option, none, some, List, [], ◌∷◌, String, str_eq, ltb,
  if◌then◌else◌,
}
use weave_adapters.Auth.Store.{
  Entry, Store, Answer, ok, err, Crypto, missing, unreadable_file, content, find, load_or_empty,
  mint,
}
use weave_adapters.Auth.Store.{File as Reading}
use weave_adapters.Auth.Save.{Bytes, File, Files, Outcomes, Trace, save}
use weave_adapters.Auth.Expiry.{Times, Toml, marshal, unmarshal, expiry_in_days}
use weave_adapters.Auth.Verifier.{usable}
use weave_adapters.Setup.Reconcile.{
  satisfied, pending, Condition, Verdict, Err, step_failed, Plan, Checked, verdict, failed,
}

-- What the two steps read and change beside the plan: `values` are the plan's, and the token files those at
-- the path that they name.
pub record World (V : Type 0) : Type 0 where
  pub config_file : Option Bytes
  pub token_files : Files
  pub values : V

abbrev pub with_others : {V : Type 0} → World V → Plan (World V) → Plan (World V)
with_others w p = record p { others = w }

abbrev pub verdict_of : Condition → String → Checked
verdict_of c detail = verdict (record { condition = c; detail = detail })

abbrev pub wants_restart : {R : Type 0} → String → Plan R → Plan R
wants_restart reason p =
    if str_eq p.restart_wanted "" then record p { restart_wanted = reason } else p

-- `resolve` and `resolve_bytes` are `LoadWithoutEnvironment` on the file and `ResolveBytes`. `stat_fails`:
-- whether the file is there cannot be told; `creates`: nothing else creates it first;
-- `written`: the calls behind that succeed, else `part` is what is there.
pub record ConfigEnv (V : Type 0) : Type 0 where
  pub stat_fails : Bool
  pub rendered : Option Bytes
  pub resolve : Bytes → Option V
  pub resolve_bytes : Bytes → Option V
  pub valid : V → Bool
  pub provisioned : List (Text × Text)
  pub value_of : V → Text → Option Text
  pub equivalent : Text → Text → Text → Bool
  pub creates : Bool
  pub written : Bool
  pub part : Bytes

module _ {V : Type 0} (env : ConfigEnv V) where
  abbrev is_equivalent : Text → Text → Option Text → Bool
  is_equivalent key value none = false
  is_equivalent key value (some got) = env.equivalent key value got

  -- `refuseDisagreements` has no error
  unfoldable pub agrees : V → List (Text × Text) → Bool
  agrees v [] = true
  agrees v (e ∷ es) = is_equivalent e.0 e.1 (env.value_of v e.0) && agrees v es

  abbrev existing : Plan (World V) → Option V → Plan (World V) × Checked
  existing p none = (p, failed (step_failed "reading %q: %w"))
  existing p (some v) =
      if not (env.valid v)
      then (
        p,
        failed (step_failed "the existing configuration at %q would not start as a service:\n%w"),
      )
      else if not (agrees v env.provisioned)
      then (p, failed (step_failed "%s was supplied but differs from what %q already sets"))
      else (
        record p { others = record p.others { values = v }; config_exists = true },
        verdict_of satisfied "%s exists and would start; it is left exactly as it is",
      )

  abbrev projected_values : Plan (World V) → Option V → Plan (World V) × Checked
  projected_values p none =
      (p, failed (step_failed "the configuration this run would write does not parse: %w"))
  projected_values p (some v) =
      if not (env.valid v)
      then (
        p,
        failed (
            step_failed "the configuration this run would write would not start as a service:\n%w"),
      )
      else (
        record p { others = record p.others { values = v }; config_exists = false },
        verdict_of pending "write %s",
      )

  abbrev projected : Plan (World V) → Option Bytes → Plan (World V) × Checked
  projected p none = (p, failed (step_failed "render"))
  projected p (some bytes) = projected_values p (env.resolve_bytes bytes)

  abbrev config_found : Plan (World V) → Option Bytes → Plan (World V) × Checked
  config_found p (some bytes) = existing p (env.resolve bytes)
  config_found p none = projected p env.rendered

  -- `configStep.Check`
  unfoldable pub check_config : Plan (World V) → Plan (World V) × Checked
  check_config p =
      if env.stat_fails
      then (p, failed (step_failed "reading %q: %w"))
      else config_found p p.others.config_file

  abbrev reread : Plan (World V) → Option V → Plan (World V) × Option Err
  reread p none = (p, some (step_failed "reading %q: %w"))
  reread p (some v) = (with_others (record p.others { values = v }) p, none)

  abbrev with_config : Bytes → Plan (World V) → Plan (World V)
  with_config bytes p = with_others (record p.others { config_file = some bytes }) p

  abbrev create_config : Plan (World V) → Option Bytes → Option Bytes → Plan (World V) × Option Err
  create_config p none there = (p, some (step_failed "render"))
  create_config p (some bytes) (some there) =
      (p, some (step_failed "%q appeared after this run started; nothing was changed"))
  create_config p (some bytes) none =
      if not env.creates
      then (p, some (step_failed "creating %q: %w"))
      else if not env.written
      then (with_config env.part p, some (step_failed "writing %q: %w"))
      else reread (with_config bytes p) (env.resolve bytes)

  -- `configStep.Apply`
  unfoldable pub apply_config : Plan (World V) → Plan (World V) × Option Err
  apply_config p = create_config p env.rendered p.others.config_file

-- `token_text` is a token as it is shown.
pub record TokenEnv (V : Type 0) : Type 0 where
  pub crypto : Crypto
  pub times : Times
  pub toml : Toml
  pub auth_disabled : V → Bool
  pub label : Text
  pub expires_in_days : ℕ
  pub token_text : Text → String

-- what the outside answers in one `Apply`
pub record TokenAnswers : Type 0 where
  pub random : Option (List ℕ)
  pub outcomes : Outcomes
  pub secured : Bool

abbrev pub reading : Option File → Reading
reading none = missing
reading (some f) = content f.content

module _ {V : Type 0} (env : TokenEnv V) where
  unfoldable pub load_tokens : Plan (World V) → Answer Store
  load_tokens p = load_or_empty (unmarshal env.times env.toml) (reading p.others.token_files.target)

  abbrev pub no_token_usable : Plan (World V) → Option Entry → Plan (World V) × Checked
  no_token_usable p (some e) = (
    p,
    failed (
        step_failed
          "the token labelled %q in %s has expired (%s) and the store refuses a duplicate label"),
  )
  no_token_usable p none = (
    wants_restart "a token will be minted, and the store is read only at startup" p,
    verdict_of pending "mint a token labelled %q into %s",
  )

  abbrev pub check_loaded : ℕ → Plan (World V) → Answer Store → Plan (World V) × Checked
  check_loaded now p (err e) = (p, failed (step_failed "reading the token store"))
  check_loaded now p (ok s) =
      if ltb 0 (usable now s)
      then (p, verdict_of satisfied "%s already holds a usable token")
      else no_token_usable p (find env.label s)

  -- `tokenStep.Check`, at the instant `now`
  unfoldable pub check_token : ℕ → Plan (World V) → Plan (World V) × Checked
  check_token now p =
      if env.auth_disabled p.others.values
      then (
        p,
        verdict_of satisfied "%s is true, so nothing reads the token store; no token was minted",
      )
      else check_loaded now p (load_tokens p)

  abbrev pub with_files : Files → Plan (World V) → Plan (World V)
  with_files fs p = with_others (record p.others { token_files = fs }) p

  abbrev pub saved : TokenAnswers → Plan (World V) → Text → Trace → Plan (World V) × Option Err
  saved a p token t =
      if not t.ok then (with_files t.final p, some (step_failed "saving the token store")) else (
        record (with_files t.final p) { token = env.token_text token },
        if not a.secured then some (step_failed "locking down %q: %w") else none,
      )

  abbrev pub minted :
      TokenAnswers → Plan (World V) → Answer (Text × Store) → Plan (World V) × Option Err
  minted a p (err e) = (p, some (step_failed "minting"))
  minted a p (ok (token, t)) =
      saved a p token (save a.outcomes (marshal env.times env.toml t) p.others.token_files)

  -- the expiry that is asked for; no days are none
  unfoldable pub expiry : ℕ → Option (Option ℕ)
  expiry now =
      if not (ltb 0 env.expires_in_days)
      then some none
      else elim (expiry_in_days env.times now env.expires_in_days) [
        | none ↦ none
        | some t ↦ some (some t)
      ]

  abbrev pub apply_expiring :
      ℕ → TokenAnswers → Plan (World V) → Store → Option (Option ℕ) → Plan (World V) × Option Err
  apply_expiring now a p s none =
      (p, some (step_failed "the requested token expiry of %d days: %w"))
  apply_expiring now a p s (some expires) =
      minted a p (mint env.crypto env.label now expires a.random s)

  abbrev pub apply_loaded :
      ℕ → TokenAnswers → Plan (World V) → Answer Store → Plan (World V) × Option Err
  apply_loaded now a p (err e) = (p, some (step_failed "reading the token store"))
  apply_loaded now a p (ok s) = apply_expiring now a p s (expiry now)

  -- `tokenStep.Apply`
  unfoldable pub apply_token : ℕ → TokenAnswers → Plan (World V) → Plan (World V) × Option Err
  apply_token now a p = apply_loaded now a p (load_tokens p)
