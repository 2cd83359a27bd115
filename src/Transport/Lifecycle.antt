-- ===== src/Transport/Lifecycle.antt =====
-- Supervisor of internal/transport/supervisor.go: one protocol runs at a time. What the commands,
-- the starts and the stops of processes answer is an argument. It may differ from call to call, so
-- each is given the number of the calls before it, which the state counts.
pub mod Supervision
use anix_ops_sd_wan.Base.{
  ℕ, suc, Text, str, ◌==◌, is_blank, Bool, true, false, not, ◌&&◌, ◌||◌, Option, none, some, List,
  [], ◌∷◌, if◌then◌else◌, Outcome, ok, err, ◌>>=◌, ◌>>◌, reject,
}
use anix_ops_sd_wan.Base.Table.{Table, lookup, put}
use anix_ops_sd_wan.Transport.{Protocol, known_protocol}

abbrev pub lifecycle_command : Text
lifecycle_command = str "command"

abbrev pub lifecycle_process : Text
lifecycle_process = str "process"

pub record ProcessCommand : Type 0 where
  pub name : Text
  pub args : List Text

pub record ProtocolLifecycleSpec : Type 0 where
  pub protocol : Protocol
  pub mode : Text
  pub start : ProcessCommand
  pub stop : ProcessCommand

pub data LifecycleError : Type 0 where
  unknown_protocol : Protocol → LifecycleError
  unsupported_mode : Text → LifecycleError
  start_name_required stop_name_required : LifecycleError
  duplicate_spec no_spec : Protocol → LifecycleError
  no_specs : LifecycleError
  failed : Text → LifecycleError
  stop_failed start_failed : Protocol → LifecycleError → LifecycleError
  restore_failed : Protocol → LifecycleError → Protocol → LifecycleError → LifecycleError

unfoldable pub validate_spec : ProtocolLifecycleSpec → Outcome LifecycleError (Unit {0})
validate_spec s = do
  reject (not (known_protocol s.protocol)) (unknown_protocol s.protocol)
  reject (not (s.mode == lifecycle_command || s.mode == lifecycle_process))
      (unsupported_mode s.mode)
  reject (is_blank s.start.name) start_name_required
  reject (s.mode == lifecycle_command && is_blank s.stop.name) stop_name_required
  reject (not (s.stop.name == []) && is_blank s.stop.name) stop_name_required

-- A process is known by a number; `none` is a nil process.
pub record Supervisor : Type 0 where
  pub specs : Table ProtocolLifecycleSpec
  pub active : Protocol
  pub active_set : Bool
  pub process : Option ℕ
  pub calls : ℕ

-- What the runner, the starter and a process answer to a call: an error's text, or none.
pub record Outside : Type 0 where
  pub run : ℕ → ProcessCommand → Option Text
  pub start : ℕ → ProcessCommand → Outcome Text (Option ℕ)
  pub stop : ℕ → ℕ → Option Text

abbrev pub is_set : Option ProtocolLifecycleSpec → Bool
is_set none = false
is_set (some spec) = true

unfoldable pub add_specs :
    Table ProtocolLifecycleSpec
    → List ProtocolLifecycleSpec
    → Outcome LifecycleError (Table ProtocolLifecycleSpec)
add_specs m [] = ok m
add_specs m (spec ∷ specs) =
    let rest = add_specs (put spec.protocol spec m) specs in
    do
      validate_spec spec
      reject (is_set (lookup spec.protocol m)) (duplicate_spec spec.protocol)
      rest

some_specs : Table ProtocolLifecycleSpec → Outcome LifecycleError Supervisor
some_specs [] = err no_specs
some_specs (entry ∷ rest) =
    ok (record { specs = entry ∷ rest; active = []; active_set = false; process = none; calls = 0 })

unfoldable pub new_supervisor : List ProtocolLifecycleSpec → Outcome LifecycleError Supervisor
unfolding some_specs
new_supervisor specs = do m ← add_specs [] specs; some_specs m

-- One more call has been made.
abbrev pub counted : Supervisor → Supervisor
counted s = record s { calls = suc s.calls }

-- An error where there is one.
abbrev pub answered : {A : Type 0} → A → Option Text → Outcome LifecycleError A
answered a none = ok a
answered a (some e) = err (failed e)

started : Outcome Text (Option ℕ) → Outcome LifecycleError (Option ℕ)
started (err e) = err (failed e)
started (ok process) = ok process

no_process : Option ℕ
no_process = none

module _ (outside : Outside) where
  unfoldable pub start_locked :
      Supervisor → ProtocolLifecycleSpec → Supervisor × Outcome LifecycleError (Option ℕ)
  unfolding started no_process
  start_locked s spec =
      if spec.mode == lifecycle_command
      then (counted s, answered no_process (outside.run s.calls spec.start))
      else if spec.mode == lifecycle_process
      then (counted s, started (outside.start s.calls spec.start))
      else (s, err (unsupported_mode spec.mode))

  stop_process : Supervisor → Option ℕ → Supervisor × Option Text
  stop_process s none = (s, none)
  stop_process s (some p) = (counted s, outside.stop s.calls p)

  -- The stop command of the active specification, which a missing one lacks.
  stop_command : Supervisor → Option ProtocolLifecycleSpec → Supervisor × Option Text
  stop_command s none = (s, none)
  stop_command s (some spec) =
      if spec.stop.name == [] then (s, none) else (counted s, outside.run s.calls spec.stop)

  cleared : Supervisor → Option Text → Option Text → Supervisor × Outcome LifecycleError (Unit {0})
  cleared s (some e) answer = (s, err (failed e))
  cleared s none (some e) = (s, err (failed e))
  cleared s none none = (record s { active = []; active_set = false; process = none }, ok tt)

  unfoldable pub stop_locked : Supervisor → Supervisor × Outcome LifecycleError (Unit {0})
  unfolding stop_process stop_command cleared
  stop_locked s =
      let (s₁, e₁) = stop_process s s.process in
      let (s₂, e₂) = stop_command s₁ (lookup s.active s.specs) in cleared s₂ e₁ e₂

  -- The state after a start, and its error.
  taken :
      Protocol
      → Supervisor × Outcome LifecycleError (Option ℕ)
      → Supervisor × Outcome LifecycleError (Unit {0})
  taken p (s, err e) = (s, err e)
  taken p (s, ok process) = (record s { active = p; active_set = true; process = process }, ok tt)

  start_known :
      Protocol
      → Supervisor
      → Option ProtocolLifecycleSpec
      → Supervisor × Outcome LifecycleError (Unit {0})
  start_known p s none = (s, err (no_spec p))
  start_known p s (some spec) = taken p (start_locked s spec)

  unfoldable pub restore_locked :
      Supervisor → Protocol → Supervisor × Outcome LifecycleError (Unit {0})
  unfolding taken start_known
  restore_locked s p = start_known p s (lookup p s.specs)

  restored :
      Protocol
      → Protocol
      → LifecycleError
      → Supervisor × Outcome LifecycleError (Unit {0})
      → Supervisor × Outcome LifecycleError (Unit {0})
  restored p previous e (s, err r) = (s, err (restore_failed p e previous r))
  restored p previous e (s, ok u) = (s, err (start_failed p e))

  -- The answer to a start, where a protocol ran before if `had` says so.
  finished :
      Protocol
      → Protocol
      → Bool
      → Supervisor × Outcome LifecycleError (Unit {0})
      → Supervisor × Outcome LifecycleError (Unit {0})
  finished p previous had (s, ok u) = (s, ok tt)
  finished p previous had (s, err e) =
      if had then restored p previous e (restore_locked s previous) else (s, err (start_failed p e))

  replace :
      Protocol
      → Protocol
      → Bool
      → ProtocolLifecycleSpec
      → Supervisor × Outcome LifecycleError (Unit {0})
      → Supervisor × Outcome LifecycleError (Unit {0})
  replace p previous had spec (s, err e) = (s, err (stop_failed previous e))
  replace p previous had spec (s, ok u) = finished p previous had (taken p (start_locked s spec))

  activate_known :
      Supervisor
      → Protocol
      → Option ProtocolLifecycleSpec
      → Supervisor × Outcome LifecycleError (Unit {0})
  activate_known s p none = (s, err (no_spec p))
  activate_known s p (some spec) =
      replace p s.active s.active_set spec (if s.active_set then stop_locked s else (s, ok tt))

  unfoldable pub activate : Supervisor → Protocol → Supervisor × Outcome LifecycleError (Unit {0})
  unfolding taken restored finished replace activate_known
  activate s p =
      if s.active_set && s.active == p then (s, ok tt) else activate_known s p (lookup p s.specs)

  unfoldable pub stop : Supervisor → Supervisor × Outcome LifecycleError (Unit {0})
  stop s = if s.active_set then stop_locked s else (s, ok tt)
