-- ===== src/Release/Rollback.antt =====
-- internal/release: what a run of a roll-back does, and what the normal form of a plan keeps.
use anix_ops_sd_wan.Base.{
  ℕ, suc, Bool-cases, is_blank, is_blank-trim_space, Option-cases, none, some, List, [], ◌∷◌, ◌++◌,
  ◌≡◌, ◌∙◌, ap, ◌⊎◌, refl, inl, inr, Outcome, ok, err, Text,
}
use anix_ops_sd_wan.Release.{
  Command, RollbackPlan, ReleaseError, command_failed, Runner, run_commands, run_plan, empty_result,
  execute_rollback, validate_rollback, trim_non_empty, require_all,
}

-- The runner answers well to each command of the list, in turn from the n-th call.
RunsAll : Runner → ℕ → List Command → Type 0
RunsAll runner n [] = Unit {0}
RunsAll runner n (c ∷ commands) = (runner n c ≡ none) × RunsAll runner (suc n) commands

-- Either all commands ran well, or those before the one that fails did.
IsRun : Runner → ℕ → List Command → List Command × Outcome ReleaseError (Unit {0}) → Type 0
IsRun runner n commands r =
    RunsAll runner n r.0
    × (((r.0 ≡ commands) × (r.1 ≡ ok tt))
        ⊎ ((c : Command) × (rest : List Command) × (why : Text) × ((commands ≡ r.0 ++ (c ∷ rest))
              × (r.1 ≡ err (command_failed c.name why)))))

-- The commands of the result are those that ran well, an initial part of the plan's: all of them
-- where the run ends well, and else those before the first that fails, which the error names.
run_commands-IsRun :
    (runner : Runner) (n : ℕ) (commands : List Command)
    → IsRun runner n commands (run_commands runner n commands)
unfolding run_commands IsRun RunsAll
run_commands-IsRun runner n [] = (tt, inl (refl, refl))
run_commands-IsRun runner n (c ∷ commands) = elim (Option-cases (runner n c)) [
  | inl well ↦
      let rest = run_commands-IsRun runner (suc n) commands in
      rw (well, run_commands)
        (
          (well, rest.0),
          elim rest.1 [
            | inl all ↦ inl (ap (λ l. c ∷ l) all.0, all.1)
            | inr fails ↦
                let (d, behind, why, (split, ends)) = fails in
                inr (d, behind, why, (ap (λ l. c ∷ l) split, ends))
          ],
        )
  | inr fails ↦
      let (why, e) = fails in rw (e, run_commands) (tt, inr (c, commands, why, (refl, refl)))
]

-- The items of a normal form pass the check that none of them is blank.
require_all-trim_non_empty :
    (why : ReleaseError) (values : List Text) → require_all why (trim_non_empty values) ≡ ok tt
unfolding require_all trim_non_empty
require_all-trim_non_empty why [] = refl
require_all-trim_non_empty why (value ∷ values) = elim (Bool-cases (is_blank value)) [
  | inl blank ↦ rw blank (require_all-trim_non_empty why values)
  | inr inked ↦
      let kept = is_blank-trim_space value ∙ inked in
      rw inked (rw kept (require_all-trim_non_empty why values))
]

-- A run on a valid plan names the plan's previous version, and its commands are those that ran well:
-- all of the plan's where the run ends well, and else those before the first that fails, which the
-- error names.
execute_rollback-IsRun :
    (plan : RollbackPlan) (runner : Runner)
    → validate_rollback plan ≡ ok tt
    → let r = execute_rollback plan (some runner) in
      (r.0.previous_version ≡ plan.previous_version)
      × IsRun runner 0 plan.commands (r.0.commands, r.1)
unfolding execute_rollback run_plan
execute_rollback-IsRun plan runner valid =
    rw (valid, execute_rollback) (refl, run_commands-IsRun runner 0 plan.commands)

-- Of a plan that does not validate nothing runs, and the error is that of the check.
execute_rollback-refused :
    (plan : RollbackPlan) (runner : Runner) (why : ReleaseError)
    → validate_rollback plan ≡ err why
    → execute_rollback plan (some runner) ≡ (empty_result, err why)
unfolding execute_rollback
execute_rollback-refused plan runner why h = rw (h, execute_rollback) refl
