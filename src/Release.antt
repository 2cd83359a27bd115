-- ===== src/Release.antt =====
-- internal/release: the plan of a roll-back with its Validate, its normal form and its run
-- (rollback.go), and the Validate of a manifest. filepath.Clean is an argument.
pub mod Rollback
mod Tests
use anix_ops_sd_wan.Base.{
  ℕ, suc, ℤ, pos, eqbℤ, ltbℤ, leb, eqb, length, Text, str, ◌==◌, trim_space, is_blank, has_prefix,
  contains, contains_any, utf8, Bool, true, false, not, ◌&&◌, ◌||◌, Option, none, some, List, [],
  ◌∷◌, map, if◌then◌else◌, Outcome, ok, err, ◌>>=◌, ◌>>◌, reject,
}

pub record Command : Type 0 where
  pub name : Text
  pub args : List Text

pub record RollbackPlan : Type 0 where
  pub previous_version : Text
  pub restore_state : List Text
  pub commands : List Command
  pub verification : List Text

pub record ChangeRecord : Type 0 where
  pub id : Text
  pub impact : List Text
  pub verification : List Text

pub record Artifact : Type 0 where
  pub path : Text
  pub size : ℤ
  pub sha256 : Text

-- A time is a number, the zero time the number 0.
pub record Manifest : Type 0 where
  pub version : ℤ
  pub product : Text
  pub release_version : Text
  pub commit : Text
  pub build_date : ℕ
  pub generated_at : ℕ
  pub change : ChangeRecord
  pub artifacts : List Artifact
  pub rollback : RollbackPlan

pub data ReleaseError : Type 0 where
  unsupported_version : ℤ → ReleaseError
  product_required version_required commit_required build_date_required : ReleaseError
  generated_at_required artifact_required : ReleaseError
  impact_required change_verification_required : ReleaseError
  impact_item_required change_verification_item_required : ReleaseError
  previous_version_required restore_state_required commands_required : ReleaseError
  verification_required restore_path_required step_required : ReleaseError
  command_name_required unsafe_command_name unsafe_argument : ReleaseError
  artifact_path_required : ReleaseError
  path_outside unsafe_path not_normalized negative_size bad_length not_hex : Text → ReleaseError
  duplicate_artifact : Text → ReleaseError
  runner_required : ReleaseError
  command_failed : Text → Text → ReleaseError

-- "\x00\r\n"
abbrev pub unsafe_runes : Text
unsafe_runes = 0 ∷ 13 ∷ 10 ∷ []

-- for _, value := range values { if strings.TrimSpace(value) == "" { return ... } }
unfoldable pub require_all : ReleaseError → List Text → Outcome ReleaseError (Unit {0})
require_all why [] = ok tt
require_all why (value ∷ values) = do reject (is_blank value) why; require_all why values

unfoldable pub validate_arguments : List Text → Outcome ReleaseError (Unit {0})
validate_arguments [] = ok tt
validate_arguments (arg ∷ args) = do
  reject (contains_any arg unsafe_runes) unsafe_argument
  validate_arguments args

unfoldable pub validate_command : Command → Outcome ReleaseError (Unit {0})
validate_command c = do
  reject (is_blank c.name) command_name_required
  reject (contains_any c.name unsafe_runes) unsafe_command_name
  validate_arguments c.args

unfoldable pub validate_commands : List Command → Outcome ReleaseError (Unit {0})
validate_commands [] = ok tt
validate_commands (c ∷ commands) = do validate_command c; validate_commands commands

abbrev is_empty : {A : Type 0} → List A → Bool
is_empty [] = true
is_empty (a ∷ rest) = false

unfoldable pub validate_rollback : RollbackPlan → Outcome ReleaseError (Unit {0})
validate_rollback p = do
  reject (is_blank p.previous_version) previous_version_required
  reject (is_empty p.restore_state) restore_state_required
  reject (is_empty p.commands) commands_required
  reject (is_empty p.verification) verification_required
  require_all restore_path_required p.restore_state
  validate_commands p.commands
  require_all step_required p.verification

unfoldable pub validate_change : ChangeRecord → Outcome ReleaseError (Unit {0})
validate_change c = do
  reject (is_empty c.impact) impact_required
  reject (is_empty c.verification) change_verification_required
  require_all impact_item_required c.impact
  require_all change_verification_item_required c.verification

unfoldable pub trim_non_empty : List Text → List Text
trim_non_empty [] = []
trim_non_empty (value ∷ values) =
    let rest = trim_non_empty values in if is_blank value then rest else trim_space value ∷ rest

unfoldable pub normalize_command : Command → Command
normalize_command c = record { name = trim_space c.name; args = trim_non_empty c.args }

unfoldable pub normalize_rollback_plan : RollbackPlan → RollbackPlan
normalize_rollback_plan p = record {
  previous_version = trim_space p.previous_version;
  restore_state = trim_non_empty p.restore_state;
  commands = map normalize_command p.commands;
  verification = trim_non_empty p.verification;
}

unfoldable pub normalize_change_record : ChangeRecord → ChangeRecord
normalize_change_record c = record {
  id = trim_space c.id;
  impact = trim_non_empty c.impact;
  verification = trim_non_empty c.verification;
}

-- strings.ReplaceAll(s, "\\", "/")
unfoldable pub slashed : Text → Text
slashed = map (λ c. if eqb c 92 then 47 else c)

-- hex.DecodeString accepts the digits of a text of even length.
unfoldable pub is_hex : Text → Bool
is_hex [] = true
is_hex (c ∷ s) =
    ((leb 48 c && leb c 57) || (leb 65 c && leb c 70) || (leb 97 c && leb c 102)) && is_hex s

unfoldable pub is_seen : List Text → Text → Bool
is_seen [] path = false
is_seen (p ∷ seen) path = (p == path) || is_seen seen path

module _ (clean : Text → Text) where
  unfoldable pub clean_relative_artifact_path : Text → Outcome ReleaseError Text
  clean_relative_artifact_path raw =
      let path = clean (slashed (trim_space raw)) in
      do
        reject ((path == str ".") || (path == [])) artifact_path_required
        reject
            (has_prefix path (str "/")
              || (path == str "..")
              || has_prefix path (str "../")
              || contains path (str "/../"))
            (path_outside raw)
        reject (contains_any path unsafe_runes) (unsafe_path raw)
        ok path

  unfoldable pub validate_artifact : Artifact → Outcome ReleaseError (Unit {0})
  validate_artifact a = do
    path ← clean_relative_artifact_path a.path
    reject (not (path == a.path)) (not_normalized a.path)
    reject (ltbℤ a.size (pos 0)) (negative_size a.path)
    reject (not (eqb (length (utf8 a.sha256)) 64)) (bad_length a.path)
    reject (not (is_hex a.sha256)) (not_hex a.path)

  unfoldable pub validate_artifacts : List Text → List Artifact → Outcome ReleaseError (Unit {0})
  validate_artifacts seen [] = ok tt
  validate_artifacts seen (a ∷ artifacts) = do
    validate_artifact a
    reject (is_seen seen a.path) (duplicate_artifact a.path)
    validate_artifacts (a.path ∷ seen) artifacts

  unfoldable pub validate_manifest : Manifest → Outcome ReleaseError (Unit {0})
  validate_manifest m = do
    reject (not (eqbℤ m.version (pos 1))) (unsupported_version m.version)
    reject (is_blank m.product) product_required
    reject (is_blank m.release_version) version_required
    reject (is_blank m.commit) commit_required
    reject (eqb m.build_date 0) build_date_required
    reject (eqb m.generated_at 0) generated_at_required
    reject (is_empty m.artifacts) artifact_required
    validate_change m.change
    validate_artifacts [] m.artifacts
    validate_rollback m.rollback

pub record RollbackResult : Type 0 where
  pub previous_version : Text
  pub commands : List Command

abbrev pub Runner : Type 0
Runner = ℕ → Command → Option Text

module _ (runner : Runner) where
  -- The loop of ExecuteRollback behind n commands: what it appends, and how it ends.
  unfoldable pub run_commands : ℕ → List Command → List Command × Outcome ReleaseError (Unit {0})
  run_commands n [] = ([], ok tt)
  run_commands n (c ∷ commands) =
      let rest = run_commands (suc n) commands in
      elim (runner n c) [
        | some why ↦ ([], err (command_failed c.name why))
        | none ↦ (c ∷ rest.0, rest.1)
      ]

abbrev pub empty_result : RollbackResult
empty_result = record { previous_version = []; commands = [] }

unfoldable pub run_plan :
    RollbackPlan → Option Runner → RollbackResult × Outcome ReleaseError (Unit {0})
unfolding run_commands
run_plan plan none = (empty_result, err runner_required)
run_plan plan (some runner) =
    let r = run_commands runner 0 plan.commands in
    (record { previous_version = plan.previous_version; commands = r.0 }, r.1)

-- The runner is none where the call is given nil.
unfoldable pub execute_rollback :
    RollbackPlan → Option Runner → RollbackResult × Outcome ReleaseError (Unit {0})
execute_rollback plan runner = elim (validate_rollback plan) [
  | err why ↦ (empty_result, err why)
  | ok u ↦ run_plan plan runner
]
