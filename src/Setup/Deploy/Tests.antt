-- ===== src/Setup/Deploy/Tests.antt =====
-- A run that replaces the binary of a running service, and may restart it.
use weave_adapters.Prelude.Text.{text, text_eq}
use weave_adapters.Prelude.{◌≡◌, refl, Bool, true, false, none, some, [], ◌∷◌}
use weave_adapters.Setup.Reconcile.{pending, Verdict, Plan, verdict, no_health}
use weave_adapters.Setup.Deploy.{
  Manager, Host, Options, Disk, read_status, check_binary, apply_binary, stop_for_replace,
}
use weave_adapters.Setup.Deploy.Replacing.{
  MayStop, check_binary-MayStop, IsDone, apply_binary-IsDone,
}

-- a machine is whether the service runs
abbrev manager : Manager Bool
manager = record {
  opens = λ x. true;
  status = λ x. some (record { installed = true; running = x; command = none });
  stop = λ x. (false, none);
  start = λ x. (true, none);
  uninstall = λ x. (false, none);
}

abbrev options : Options
options = record {
  source_path = text "C:\\new.exe";
  dest_path = text "C:\\bin\\new.exe";
  config_path = text "C:\\c.toml";
  no_copy = false;
  reinstall = false;
  restart = true;
}

abbrev disk : Disk
disk = record {
  same_file = false;
  sum = λ b. b;
  readable = true;
  makes_dir = true;
  copies = true;
  copy = λ b. b;
}

abbrev plan : Plan (Host Bool)
plan = record {
  config_exists = true;
  token = "";
  health = no_health;
  restart_wanted = "";
  others = record { machine = true; source = some (1 ∷ []); dest = some (2 ∷ []); bin_path = [] };
}

abbrev found : Verdict
found = record { condition = pending; detail = "stop the service and replace %s" }

checked : (check_binary manager options disk plan).1 ≡ verdict found
unfolding check_binary read_status text_eq
checked = refl

check_binary-MayStop_example : MayStop manager options disk true
check_binary-MayStop_example =
    check_binary-MayStop manager options disk plan (2 ∷ []) found refl checked refl

abbrev after : Plan (Host Bool)
after = (apply_binary manager options disk plan).0

stopped : after.others.machine ≡ false
unfolding apply_binary stop_for_replace text_eq
stopped = refl

applied : apply_binary manager options disk plan ≡ (after, none)
unfolding apply_binary stop_for_replace text_eq
applied = refl

binary_current : IsDone manager options disk after
binary_current = apply_binary-IsDone manager options disk plan after refl applied
