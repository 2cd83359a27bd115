-- ===== src/Release/Tests.antt =====
-- Runs of internal/release at concrete inputs.
use anix_ops_sd_wan.Base.{
  ◌==◌, eqb, str, trim_space, contains_any, has_prefix, none, some, [], ◌∷◌, ◌≡◌, refl,
  if◌then◌else◌, ok, err,
}
use anix_ops_sd_wan.Release.{
  Command, RollbackPlan, command_failed, runner_required, artifact_path_required, path_outside,
  require_all, validate_arguments, validate_command, validate_commands, validate_rollback,
  trim_non_empty, normalize_command, normalize_rollback_plan, slashed, clean_relative_artifact_path,
  empty_result, run_commands, run_plan, execute_rollback,
}

abbrev stop_agent : Command
stop_agent = record { name = str "systemctl"; args = str "stop" ∷ str "anix-agent" ∷ [] }

abbrev restore_binary : Command
restore_binary = record { name = str "install"; args = str "/var/lib/anix/agent" ∷ [] }

abbrev start_agent : Command
start_agent = record { name = str "systemctl"; args = str "start" ∷ str "anix-agent" ∷ [] }

abbrev plan : RollbackPlan
plan = record {
  previous_version = str "v1.2.0";
  restore_state = str "/var/lib/anix" ∷ [];
  commands = stop_agent ∷ restore_binary ∷ start_agent ∷ [];
  verification = str "anix-agent status" ∷ [];
}

valid : validate_rollback plan ≡ ok tt
unfolding validate_rollback require_all validate_commands validate_command validate_arguments
    trim_space ◌==◌ contains_any
valid = refl

all_run :
    execute_rollback plan (some (λ n c. none))
    ≡ (record { previous_version = str "v1.2.0"; commands = plan.commands }, ok tt)
unfolding execute_rollback run_plan run_commands validate_rollback require_all validate_commands
    validate_command validate_arguments trim_space ◌==◌ contains_any
all_run = refl

second_fails :
    execute_rollback plan (some (λ n c. if eqb n 1 then some (str "disk full") else none)) ≡ (
      record { previous_version = str "v1.2.0"; commands = stop_agent ∷ [] },
      err (command_failed (str "install") (str "disk full")),
    )
unfolding execute_rollback run_plan run_commands validate_rollback require_all validate_commands
    validate_command validate_arguments trim_space ◌==◌ contains_any
second_fails = refl

without_runner : execute_rollback plan none ≡ (empty_result, err runner_required)
unfolding execute_rollback run_plan validate_rollback require_all validate_commands validate_command
    validate_arguments trim_space ◌==◌ contains_any
without_runner = refl

abbrev spaced : RollbackPlan
spaced = record plan { restore_state = str " /var/lib/anix " ∷ str "  " ∷ [] }

trimmed : normalize_rollback_plan spaced ≡ plan
unfolding normalize_rollback_plan normalize_command trim_non_empty trim_space ◌==◌
trimmed = refl

-- filepath.Clean answers to these paths with the path itself.
climbing :
    clean_relative_artifact_path (λ path. path) (str "..\\etc") ≡ err (path_outside (str "..\\etc"))
unfolding clean_relative_artifact_path slashed trim_space ◌==◌ has_prefix
climbing = refl

nothing_named : clean_relative_artifact_path (λ path. path) (str ".") ≡ err artifact_path_required
unfolding clean_relative_artifact_path slashed trim_space ◌==◌
nothing_named = refl
