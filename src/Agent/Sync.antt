-- ===== src/Agent/Sync.antt =====
-- internal/agent/sync.go: a round of the agent, from the configurations of the control server to the
-- push of a report, and the waits between rounds.
use anix_ops_sd_wan.Base.{
  ℕ, ℤ, Text, ◌==◌, Float64, Option, none, some, List, [], ◌∷◌, if◌then◌else◌, Outcome, ok, err,
  ◌>>=◌,
}
use anix_ops_sd_wan.Net.{Net}
use anix_ops_sd_wan.Domain.{ConfigBundle}
use anix_ops_sd_wan.Domain.Selection.{supersedes, select_config}
use anix_ops_sd_wan.Telemetry.{Report}
use anix_ops_sd_wan.Agent.Queue.{FileTelemetryQueue, DiskFaults, QueueError, push_telemetry}
use anix_ops_sd_wan.Agent.Service.{Service, AgentError}
use anix_ops_sd_wan.Agent.Changes.{apply_config, telemetry_report}

-- A configsign.SignedBundle: the bundle and what is signed with it.
pub record SignedBundle : Type 0 where
  pub bundle : ConfigBundle
  pub signature : Text

pub data SyncError : Type 0 where
  fetch_failed verify_failed : Text → SyncError
  apply_failed : AgentError → SyncError
  push_failed : QueueError → SyncError

-- `verify` is what the verifier answers for a bundle.
module _ (verify : SignedBundle → Option Text) where
  unfoldable pub next_verified :
      Option ConfigBundle → SignedBundle → Option Text → Outcome Text (Option ConfigBundle)
  next_verified selected candidate (some why) = err why
  next_verified none candidate none = ok (some candidate.bundle)
  next_verified (some selected) candidate none =
      ok (some (if supersedes candidate.bundle selected then candidate.bundle else selected))

  unfoldable pub choose_verified :
      Text → Option ConfigBundle → List SignedBundle → Outcome Text (Option ConfigBundle)
  choose_verified device_id selected [] = ok selected
  choose_verified device_id selected (candidate ∷ configs) =
      (if candidate.bundle.target_id == device_id
        then next_verified selected candidate (verify candidate)
        else ok selected)
      >>= λ next. choose_verified device_id next configs

  unfoldable pub select_verified_config :
      List SignedBundle → Text → Outcome Text (Option ConfigBundle)
  unfolding next_verified choose_verified
  select_verified_config configs device_id = choose_verified device_id none configs

-- The agent with its queue, and what the server has accepted in the last round.
pub record Agent : Type 0 where
  pub service : Service
  pub queue : FileTelemetryQueue
  pub accepted : List Report

-- What a round meets: the disk's faults, the clock when a configuration is applied and when the
-- report is made, and the server's answers to pushes.
pub record Round : Type 0 where
  pub cache_fault : Option Text
  pub disk : DiskFaults
  pub clock : ℕ
  pub later : ℕ
  pub server : ℕ → Report → Option Text

module _ (net : Net) (of_int : ℤ → Float64) (round : Round) where
  unfoldable pub pushed :
      Service
      → (FileTelemetryQueue × Outcome QueueError (Unit {0})) × List Report
      → Agent × Outcome SyncError (Unit {0})
  pushed s ((queue, ok u), sent) = (record { service = s; queue = queue; accepted = sent }, ok tt)
  pushed s ((queue, err why), sent) =
      (record { service = s; queue = queue; accepted = sent }, err (push_failed why))

  unfoldable pub reporting :
      FileTelemetryQueue
      → Service × Outcome AgentError (Unit {0})
      → Agent × Outcome SyncError (Unit {0})
  reporting queue (s, err why) =
      (record { service = s; queue = queue; accepted = [] }, err (apply_failed why))
  reporting queue (s, ok u) = pushed s (
      push_telemetry net round.server queue round.disk round.later
        (telemetry_report of_int s round.later))

  unfoldable pub applying : Service → Option ConfigBundle → Service × Outcome AgentError (Unit {0})
  applying s none = (s, ok tt)
  applying s (some bundle) = apply_config net s bundle round.cache_fault round.clock

  unfoldable pub choosing :
      Agent → Outcome Text (Option ConfigBundle) → Agent × Outcome SyncError (Unit {0})
  choosing a (err why) = (record a { accepted = [] }, err (verify_failed why))
  choosing a (ok choice) = reporting a.queue (applying a.service choice)

  -- SyncOnce of a service with a queue; `accepted` is what the server takes in this round.
  unfoldable pub sync_once :
      Agent → Outcome Text (List ConfigBundle) → Agent × Outcome SyncError (Unit {0})
  unfolding pushed reporting applying choosing
  sync_once a (err why) = (record a { accepted = [] }, err (fetch_failed why))
  sync_once a (ok configs) = choosing a (ok (select_config configs a.service.snapshot.device_id))

  -- SyncSignedOnce
  unfoldable pub sync_signed_once :
      (SignedBundle → Option Text)
      → Agent
      → Outcome Text (List SignedBundle)
      → Agent × Outcome SyncError (Unit {0})
  unfolding pushed reporting applying choosing
  sync_signed_once verify a (err why) = (record a { accepted = [] }, err (fetch_failed why))
  sync_signed_once verify a (ok configs) =
      choosing a (select_verified_config verify configs a.service.snapshot.device_id)
