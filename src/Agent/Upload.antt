-- ===== src/Agent/Upload.antt =====
-- A whole round of internal/agent/sync.go: the configuration is taken, and the report and the queue
-- are pushed.
use mathlib.Core.List.{append-nil}
use anix_ops_sd_wan.Base.{
  ℕ, ◌-◌, ℤ, Text, ◌==◌, Float64, List, [], ◌∷◌, ◌++◌, ◌≡◌, ◌≢◌, refl, ap, ◌∙◌, sym, arith, Outcome,
  ok, err,
}
use anix_ops_sd_wan.Base.Sorting.{All}
use anix_ops_sd_wan.Net.{Net}
use anix_ops_sd_wan.Domain.{ConfigBundle}
use anix_ops_sd_wan.Domain.Selection.{select_config}
use anix_ops_sd_wan.Telemetry.{Report, validate_report, sanitized}
use anix_ops_sd_wan.Telemetry.Idempotence.{HasMaps}
use anix_ops_sd_wan.Agent.Queue.{
  FileTelemetryQueue, QueueError, no_faults, file_reports, newest, push_telemetry,
}
use anix_ops_sd_wan.Agent.Delivery.{
  drop-nil, IsSettled, IsQueue, push_telemetry-accounts, push_telemetry-IsQueue,
}
use anix_ops_sd_wan.Agent.Service.{Service, AgentError}
use anix_ops_sd_wan.Agent.Changes.{telemetry_report}
use anix_ops_sd_wan.Agent.Sync.{Agent, Round, pushed, reporting, applying, choosing, sync_once}

telemetry_report-HasMaps :
    (of_int : ℤ → Float64) (s : Service) (clock : ℕ) → HasMaps (telemetry_report of_int s clock)
unfolding telemetry_report ◌==◌
telemetry_report-HasMaps of_int s clock = (
  ((refl, (refl, (refl, tt))), ((refl, (refl, tt)), ((refl, tt), (tt, tt)))),
  (((refl, (refl, (refl, tt))), ((refl, (refl, tt)), ((refl, tt), (tt, tt)))), tt),
)

module _ (net : Net) (of_int : ℤ → Float64) (round : Round) where
  pushed-IsQueue :
      (s : Service) (p : (FileTelemetryQueue × Outcome QueueError (Unit {0})) × List Report)
      → IsQueue net p.0.0
      → IsQueue net (pushed net of_int round s p).0.queue
  unfolding pushed
  pushed-IsQueue s ((queue, ok u), sent) h = h
  pushed-IsQueue s ((queue, err why), sent) h = h

  reporting-IsQueue :
      (queue : FileTelemetryQueue) (p : Service × Outcome AgentError (Unit {0}))
      → round.later ≢ 0
      → IsQueue net queue
      → IsQueue net (reporting net of_int round queue p).0.queue
  unfolding reporting
  reporting-IsQueue queue (s, err why) set h = h
  reporting-IsQueue queue (s, ok u) set h =
      let report = telemetry_report of_int s round.later in
      pushed-IsQueue s (push_telemetry net round.server queue round.disk round.later report) (
        push_telemetry-IsQueue net round.server queue round.disk round.later report h
          (telemetry_report-HasMaps of_int s round.later) set)

  -- Whatever the server answers and whichever faults the disk has, a round of SyncOnce at a set clock
  -- keeps the queue file within its bound and its reports valid and as sanitizing leaves them.
  pub sync_once-IsQueue :
      (a : Agent) (answer : Outcome Text (List ConfigBundle))
      → round.later ≢ 0
      → IsQueue net a.queue
      → IsQueue net (sync_once net of_int round a answer).0.queue
  unfolding sync_once choosing
  sync_once-IsQueue a (err why) set h = h
  sync_once-IsQueue a (ok configs) set h =
      let choice = select_config configs a.service.snapshot.device_id in
      reporting-IsQueue a.queue (applying net of_int round a.service choice) set h

  pushed-ok :
      (s : Service) (p : (FileTelemetryQueue × Outcome QueueError (Unit {0})) × List Report)
      (a' : Agent)
      → pushed net of_int round s p ≡ (a', ok tt)
      → (p.0.1 ≡ ok tt) × (a' ≡ record { service = s; queue = p.0.0; accepted = p.1 })
  unfolding pushed
  pushed-ok s ((queue, ok u), sent) a' h = (refl, sym (ap (λ r. r.0) h))
  pushed-ok s ((queue, err why), sent) a' h = ground (arith, ap (λ r. r.1) h)

  reporting-delivers :
      (queue : FileTelemetryQueue) (p : Service × Outcome AgentError (Unit {0})) (a' : Agent)
      → round.disk ≡ no_faults
      → round.later ≢ 0
      → All (IsSettled net) (file_reports queue.file)
      → reporting net of_int round queue p ≡ (a', ok tt)
      → validate_report (sanitized net (telemetry_report of_int a'.service round.later) round.later)
        ≡ ok tt
      → (a'.accepted
          ≡ file_reports queue.file
            ++ (sanitized net (telemetry_report of_int a'.service round.later) round.later ∷ []))
        × (file_reports a'.queue.file ≡ [])
  unfolding reporting newest
  reporting-delivers queue (s, err why) a' disk set settled h valid =
      ground (arith, ap (λ r. r.1) h)
  reporting-delivers queue (s, ok u) a' disk set settled h valid =
      let report = telemetry_report of_int s round.later in
      let result = push_telemetry net round.server queue round.disk round.later report in
      let (passed, end) = pushed-ok s result a' h in
      let given = push_telemetry net round.server queue no_faults round.later report in
      let same : result ≡ given =
        ap (λ d. push_telemetry net round.server queue d round.later report) disk in
      let service : a'.service ≡ s = ap Agent.service end in
      let fit : validate_report (sanitized net report round.later) ≡ ok tt = rw service at valid in
      let (rest, all, kept, iff) =
        push_telemetry-accounts net round.server queue round.later report settled
          (telemetry_report-HasMaps of_int s round.later) set fit in
      let gone : rest ≡ [] = iff.0 (ap (λ r. r.0.1) (sym same) ∙ passed) in
      let whole : given.1 ≡ file_reports queue.file ++ (sanitized net report round.later ∷ []) =
        sym (append-nil given.1) ∙ ap (◌++◌ given.1) (sym gone) ∙ all in
      rw service (
        ap Agent.accepted end ∙ ap (λ r. r.1) same ∙ whole,
        ap (λ a. file_reports a.queue.file) end
            ∙ ap (λ r. file_reports r.0.0.file) same
            ∙ kept
            ∙ ap (newest queue.max_reports) gone
            ∙ drop-nil (0 - queue.max_reports),
      )

  -- A round of SyncOnce that succeeds, at a set clock and with no fault of the disk for the queue, has
  -- delivered everything: where the queue held reports that are valid and as sanitizing leaves
  -- them, and the new report passes validation, the server has accepted those of the queue and then
  -- the new one, each once and in this order, and the queue is empty.
  pub sync_once-delivers :
      (a a' : Agent) (answer : Outcome Text (List ConfigBundle))
      → round.disk ≡ no_faults
      → round.later ≢ 0
      → All (IsSettled net) (file_reports a.queue.file)
      → sync_once net of_int round a answer ≡ (a', ok tt)
      → validate_report (sanitized net (telemetry_report of_int a'.service round.later) round.later)
        ≡ ok tt
      → (a'.accepted
          ≡ file_reports a.queue.file
            ++ (sanitized net (telemetry_report of_int a'.service round.later) round.later ∷ []))
        × (file_reports a'.queue.file ≡ [])
  unfolding sync_once choosing
  sync_once-delivers a a' (err why) disk set settled h valid = ground (arith, ap (λ r. r.1) h)
  sync_once-delivers a a' (ok configs) disk set settled h valid =
      let choice = select_config configs a.service.snapshot.device_id in
      reporting-delivers a.queue (applying net of_int round a.service choice) a' disk set settled h
        valid
