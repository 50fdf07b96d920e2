-- ===== src/Setup/Deploy.antt =====
-- internal/core/setup/deploy.go: the steps `binary`, `install` and `start`, over the interface `Manager` of
-- internal/core/winsvc/service.go. The file system's answers and the adapter's `Install` are arguments. Paths are
-- absolute; a verdict's detail and an error are their format, without what it names.
pub mod Replacing
mod Tests
use weave_adapters.Prelude.Text.{Text, text, text_eq, is_blank}
use weave_adapters.Prelude.{
  ℕ, Bool, true, false, not, ◌&&◌, ◌||◌, Option, none, some, List, [], ◌∷◌, String, str_eq,
  if◌then◌else◌,
}
use weave_adapters.Auth.Bearer.{equal_fold}
use weave_adapters.Auth.Save.{Bytes}
use weave_adapters.Setup.Reconcile.{
  satisfied, pending, blocked, Condition, Verdict, Err, step_failed, Plan, Checked, verdict, failed,
}
use weave_adapters.Setup.Provision.{verdict_of, wants_restart}

-- the fields of `ServiceStatus` that the steps read; `command` is none where it could not be read back
pub record ServiceStatus : Type 0 where
  pub installed : Bool
  pub running : Bool
  pub command : Option (List Text)

pub data ManagerErr : Type 0 where
  not_installed other_failure : ManagerErr

-- `Manager`, on the services of a machine: a call of `NewManager` first, then the operation.
pub record Manager (M : Type 0) : Type 0 where
  pub opens : M → Bool
  pub status : M → Option ServiceStatus
  pub stop : M → M × Option ManagerErr
  pub start : M → M × Option ManagerErr
  pub uninstall : M → M × Option ManagerErr

-- The machine, and the two files of the step `binary`: none where there is no file.
pub record Host (M : Type 0) : Type 0 where
  pub machine : M
  pub source : Option Bytes
  pub dest : Option Bytes
  pub bin_path : Text

pub record Options : Type 0 where
  pub source_path : Text
  pub dest_path : Text
  pub config_path : Text
  pub no_copy : Bool
  pub reinstall : Bool
  pub restart : Bool

-- What the file system answers: whether the two paths are one file, `fileSum`, whether the file at the
-- destination can be read, whether the directory can be made and the copy be put in place, and what is copied.
pub record Disk : Type 0 where
  pub same_file : Bool
  pub sum : Bytes → Text
  pub readable : Bool
  pub makes_dir : Bool
  pub copies : Bool
  pub copy : Bytes → Bytes

abbrev pub is_running : ServiceStatus → Bool
is_running s = s.installed && s.running

module _ {M : Type 0} (m : Manager M) where
  -- the state that a step asks for; none for an error
  unfoldable pub read_status : M → Option ServiceStatus
  read_status x = if not (m.opens x) then none else m.status x

  module _ (o : Options) (d : Disk) where
    abbrev pub with_host : Host M → Plan (Host M) → Plan (Host M)
    with_host h p = record p { others = h }

    abbrev pub with_bin : Text → Plan (Host M) → Plan (Host M)
    with_bin path p = record p { others = record p.others { bin_path = path } }

    abbrev pub replace_verdict : Plan (Host M) → Option ServiceStatus → Plan (Host M) × Checked
    replace_verdict p none = (p, failed (step_failed "reading the state of %s: %w"))
    replace_verdict p (some s) =
        if not (is_running s)
        then (p, verdict_of pending "replace %s")
        else if o.restart
        then (
          wants_restart "the binary is being replaced" p,
          verdict_of pending "stop the service and replace %s",
        )
        else (
          p,
          verdict_of blocked "%s differs from this binary and %s is running, which holds it open",
        )

    abbrev pub compared : Plan (Host M) → Option Bytes → Option Bytes → Plan (Host M) × Checked
    compared p source none = (p, verdict_of pending "copy %s to %s")
    compared p none (some old) = (p, failed (step_failed "reading %q: %w"))
    compared p (some new) (some old) =
        if not d.readable
        then (p, failed (step_failed "reading %q: %w"))
        else if text_eq (d.sum new) (d.sum old)
        then (p, verdict_of satisfied "%s is already this exact binary")
        else replace_verdict p (read_status p.others.machine)

    -- `binaryStep.Check`
    unfoldable pub check_binary : Plan (Host M) → Plan (Host M) × Checked
    check_binary p =
        if o.no_copy
        then (with_bin o.source_path p, verdict_of satisfied "registering %s where it is")
        else if d.same_file
        then (with_bin o.dest_path p, verdict_of satisfied "%s is already the installed binary")
        else compared (with_bin o.dest_path p) p.others.source p.others.dest

    abbrev pub is_missing : ManagerErr → Bool
    is_missing not_installed = true
    is_missing other_failure = false

    abbrev pub stopped : String → Plan (Host M) → M × Option ManagerErr → Plan (Host M) × Option Err
    stopped wrap p (x, none) = (with_host (record p.others { machine = x }) p, none)
    stopped wrap p (x, some e) = (
      with_host (record p.others { machine = x }) p,
      if is_missing e then none else some (step_failed wrap),
    )

    abbrev pub stop_present : Plan (Host M) → Option Bytes → Plan (Host M) × Option Err
    stop_present p none = (p, none)
    stop_present p (some old) =
        if not (m.opens p.others.machine)
        then (p, some (step_failed "manager"))
        else stopped "stopping %s before replacing its binary: %w" p (m.stop p.others.machine)

    -- `stopForReplace`
    unfoldable pub stop_for_replace : Plan (Host M) → Plan (Host M) × Option Err
    stop_for_replace p = stop_present p p.others.dest

    abbrev pub with_dest : Bytes → Plan (Host M) → Plan (Host M)
    with_dest bytes p = with_host (record p.others { dest = some bytes }) p

    -- `copyFile`, and the comparison behind it
    abbrev pub copied : Plan (Host M) → Option Bytes → Plan (Host M) × Option Err
    copied p none = (p, some (step_failed "opening %q: %w"))
    copied p (some new) = if not d.copies then (p, some (step_failed "replacing %q: %w")) else (
      with_dest (d.copy new) p,
      if not d.readable
          then some (step_failed "reading %q: %w")
          else if text_eq (d.sum new) (d.sum (d.copy new))
          then none
          else some
              (step_failed "the copy of %s at %s does not match the source; it was not registered"),
    )

    abbrev pub then_copy : Plan (Host M) × Option Err → Plan (Host M) × Option Err
    then_copy (p, some e) = (p, some e)
    then_copy (p, none) = copied p p.others.source

    -- `binaryStep.Apply`
    unfoldable pub apply_binary : Plan (Host M) → Plan (Host M) × Option Err
    apply_binary p =
        if o.no_copy || d.same_file
        then (p, none)
        else if not d.makes_dir
        then (p, some (step_failed "creating %q: %w"))
        else then_copy (stop_for_replace p)

    -- `sameCommand`, on ASCII
    unfoldable pub same_command : List Text → List Text → Bool
    same_command [] [] = true
    same_command (a ∷ as_) (b ∷ bs) = equal_fold a b && same_command as_ bs
    same_command _ _ = false

    abbrev pub wanted : Plan (Host M) → List Text
    wanted p = p.others.bin_path ∷ text "--config" ∷ o.config_path ∷ []

    abbrev registered : Plan (Host M) → Option (List Text) → Plan (Host M) × Checked
    registered p none =
        (p, verdict_of blocked "%s is registered but its command line could not be read back (%q)")
    registered p (some command) =
        if same_command command (wanted p)
        then (p, verdict_of satisfied "%s is registered and already runs %s")
        else if o.reinstall
        then (p, verdict_of pending "re-register %s: it currently runs %v")
        else (p, verdict_of blocked "%s is registered but runs %v, not %v")

    abbrev install_verdict : Plan (Host M) → Option ServiceStatus → Plan (Host M) × Checked
    install_verdict p none = (p, failed (step_failed "reading the state of %s: %w"))
    install_verdict p (some s) =
        if not s.installed
        then (p, verdict_of pending "register %s to run %s")
        else registered p s.command

    -- `installStep.Check`
    unfoldable pub check_install : Plan (Host M) → Plan (Host M) × Checked
    check_install p = install_verdict p (read_status p.others.machine)

    abbrev removed : Plan (Host M) → M × Option ManagerErr → Plan (Host M) × Option Err
    removed p (x, none) = (with_host (record p.others { machine = x }) p, none)
    removed p (x, some e) = (
      with_host (record p.others { machine = x }) p,
      if is_missing e
          then none
          else some (step_failed "removing the existing registration of %s: %w"),
    )

    abbrev remove_listed : Plan (Host M) → Option ServiceStatus → Plan (Host M) × Option Err
    remove_listed p none = (p, some (step_failed "reading the state of %s: %w"))
    remove_listed p (some s) =
        if not s.installed then (p, none) else removed p (m.uninstall p.others.machine)

    -- `removeExisting`
    unfoldable pub remove_existing : Plan (Host M) → Plan (Host M) × Option Err
    remove_existing p = remove_listed p (read_status p.others.machine)

    abbrev start_running : Plan (Host M) → Plan (Host M) × Checked
    start_running p =
        if str_eq p.restart_wanted ""
        then (p, verdict_of satisfied "%s is running")
        else if o.restart
        then (p, verdict_of pending "restart %s: %s")
        else (p, verdict_of blocked "%s is running and needs a restart (%s); re-run with --restart")

    abbrev pub start_verdict : Plan (Host M) → Option ServiceStatus → Plan (Host M) × Checked
    start_verdict p none = (p, failed (step_failed "reading the state of %s: %w"))
    start_verdict p (some s) =
        if not (is_running s) then (p, verdict_of pending "start %s") else start_running p

    -- `startStep.Check`
    unfoldable pub check_start : Plan (Host M) → Plan (Host M) × Checked
    check_start p = start_verdict p (read_status p.others.machine)

    abbrev pub started : Plan (Host M) → M × Option ManagerErr → Plan (Host M) × Option Err
    started p (x, none) = (with_host (record p.others { machine = x }) p, none)
    started p (x, some e) =
        (with_host (record p.others { machine = x }) p, some (step_failed "starting %s: %w"))

    abbrev pub then_start : Plan (Host M) × Option Err → Plan (Host M) × Option Err
    then_start (p, some e) = (p, some e)
    then_start (p, none) = started p (m.start p.others.machine)

    -- `startStep.Apply`
    unfoldable pub apply_start : Plan (Host M) → Plan (Host M) × Option Err
    apply_start p =
        if not (m.opens p.others.machine)
        then (p, some (step_failed "manager"))
        else if str_eq p.restart_wanted ""
        then then_start (p, none)
        else then_start (stopped "stopping %s: %w" p (m.stop p.others.machine))
