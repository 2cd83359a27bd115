-- ===== src/Agent/Tests.antt =====
-- Runs of internal/agent, and the theorems at concrete inputs.
use anix_ops_sd_wan.Base.{
  ℕ, ℤ, pos, wrap_int, Text, str, ◌==◌, trim_space, eqb, Float64, Bool, true, false, ◌≡◌, ◌↔◌, refl,
  arith, Option, none, some, List, [], ◌∷◌, ◌++◌, ok, if◌then◌else◌,
}
use anix_ops_sd_wan.Base.Sorting.{All}
use anix_ops_sd_wan.Base.Table.{lookup, put}
use anix_ops_sd_wan.Net.{to_lower}
use anix_ops_sd_wan.Net.Samples.{plain_net}
use anix_ops_sd_wan.Domain.{ConfigBundle, validate_config}
use anix_ops_sd_wan.Domain.Selection.{select_config, choose, next_choice}
use anix_ops_sd_wan.Policy.Bundle.{text_at}
use anix_ops_sd_wan.Telemetry.{Report, validate_report, sanitized, sanitize_log, redact_fields}
use anix_ops_sd_wan.Transport.{
  Protocol, wire_guard, hysteria, select, link_selection, selection, fallbacks_of,
  apply_handshake_fallback, validate_signals,
}
use anix_ops_sd_wan.Transport.Switching.{SwitchRuntime, SwitchReport, evaluate, is_cooling}
use anix_ops_sd_wan.Agent.Queue.{
  FileTelemetryQueue, no_faults, file_reports, newest, clean_all, load, save, push_all,
  push_telemetry,
}
use anix_ops_sd_wan.Agent.Delivery.{IsSettled, IsQueue, push_telemetry-accounts}
use anix_ops_sd_wan.Agent.Service.{
  Config, Service, initial_signals, validate, check_transport, load_cache, with_cached, restored,
  snapshot_with_signals, initial_snapshot, new_service, parse_transport_protocol,
}
use anix_ops_sd_wan.Agent.Changes.{
  apply_config, configured, with_protocol, cache_fault, evaluate_and_apply, telemetry_report,
}
use anix_ops_sd_wan.Agent.Sync.{
  Agent, Round, SignedBundle, sync_once, select_verified_config, next_verified, choose_verified,
}
use anix_ops_sd_wan.Agent.Backoff.{
  SyncLoopOptions, normalize_sync_loop_options, next_sync_backoff, delays, capped, delays-capped,
}
use anix_ops_sd_wan.Agent.Rounds.{IsSigned, select_verified_config-agrees}
use anix_ops_sd_wan.Agent.Restart.{IsFollowing, evaluate_and_apply-IsFollowing}
use anix_ops_sd_wan.Agent.Upload.{sync_once-IsQueue, sync_once-delivers}

abbrev cfg : Config
cfg = record {
  tenant_id = str "t1";
  device_id = str "d1";
  config_version = str "dev";
  listen_addr = str "127.0.0.1:8080";
}

abbrev zero_float : ℤ → Float64
zero_float n = 0

abbrev plain_percent : Float64 → Text
plain_percent rate = str "20"

abbrev runtime : SwitchRuntime
runtime = record { active = wire_guard; cooldown = pos 30; last_switch = 0 }

abbrev service : Service
service = record {
  cfg = cfg;
  switch_runtime = some runtime;
  cache = some none;
  snapshot =
      snapshot_with_signals (str "linux/amd64") cfg false wire_guard
        (str "transport runtime active") 3 initial_signals;
}

service_made :
    new_service (str "linux/amd64") plain_percent cfg (some none) none (some runtime) true 3
    ≡ ok service
unfolding new_service validate check_transport restored load_cache with_cached initial_snapshot ◌==◌
service_made = refl

abbrev bundle : ConfigBundle
bundle = record {
  id = str "c1";
  tenant_id = str "t1";
  target_id = str "d1";
  version = str "v2";
  values = (str "transport", str " TUIC ") ∷ [];
  created_at = 9;
}

abbrev configured_service : Service
configured_service = configured plain_net service bundle 40

service_configured : apply_config plain_net service bundle none 40 ≡ (configured_service, ok tt)
unfolding apply_config cache_fault validate_config trim_space ◌==◌
service_configured = refl

abbrev always : Option (Protocol → Option Text)
always = some (λ p. none)

abbrev switched_report : SwitchReport
switched_report = record {
  previous = wire_guard;
  selected = hysteria;
  applied = true;
  suppressed = false;
  rolled_back = false;
  reason = str "public link detected; prefer primary cross-border transport";
  error = [];
  signals = initial_signals;
  evaluated_at = 50;
}

abbrev switched_service : Service
switched_service =
    (evaluate_and_apply (str "linux/amd64") plain_percent service 50 initial_signals always none).0

service_switched :
    evaluate_and_apply (str "linux/amd64") plain_percent service 50 initial_signals always none
    ≡ (switched_service, ok switched_report)
unfolding evaluate_and_apply evaluate is_cooling select validate_signals link_selection selection
    fallbacks_of apply_handshake_fallback lookup ◌==◌
service_switched = refl

evaluate_and_apply-IsFollowing_example :
    (switched_service.snapshot.protocol ≡ hysteria)
    × IsFollowing switched_service
    × (switched_service.cfg ≡ cfg)
    × (switched_service.cache ≡ some none)
evaluate_and_apply-IsFollowing_example =
    evaluate_and_apply-IsFollowing (str "linux/amd64") plain_percent service switched_service 50
      initial_signals always none switched_report service_switched

abbrev signed : SignedBundle
signed = record { bundle = bundle; signature = str "good" }

abbrev verify : SignedBundle → Option Text
verify c = if c.signature == str "good" then none else some (str "bad signature")

select_verified_config-agrees_example :
    (select_config (bundle ∷ []) (str "d1") ≡ some bundle)
    × All (IsSigned verify (str "d1")) (signed ∷ [])
select_verified_config-agrees_example =
    select_verified_config-agrees verify (str "d1") (signed ∷ []) (some bundle)
      (unfold select_verified_config next_verified choose_verified ◌==◌ in refl)

abbrev options : SyncLoopOptions
options = record { interval = pos 30; initial_backoff = pos 3; max_backoff = pos 10 }

abbrev rounds : List Bool
rounds = false ∷ false ∷ false ∷ true ∷ false ∷ []

delays_run : delays options (pos 3) rounds ≡ pos 3 ∷ pos 6 ∷ pos 10 ∷ pos 30 ∷ pos 3 ∷ []
unfolding delays next_sync_backoff wrap_int
delays_run = refl

delays-capped_example : delays options (pos 3) rounds ≡ capped (pos 30) 3 10 0 rounds
delays-capped_example =
    delays-capped options options rounds (ground arith) (ground arith) (ground arith)
      (unfold normalize_sync_loop_options in refl)

abbrev waiting : Report
waiting = record {
  tenant_id = str "t1";
  subject_id = str "d1";
  subject_kind = str "agent";
  timestamp = 7;
  metrics = [];
  logs = [];
}

abbrev queue : FileTelemetryQueue
queue = record { max_reports = 5; file = some (waiting ∷ []) }

queue-IsSettled : All (IsSettled plain_net) (file_reports queue.file)
unfolding sanitized validate_report trim_space ◌==◌
queue-IsSettled = ((λ clock. refl, refl), tt)

-- The server takes the first push and fails the second.
abbrev once : ℕ → Report → Option Text
once n report = if eqb n 0 then none else some (str "503")

push_telemetry-accounts_example :
    (rest : List Report) × ((push_telemetry plain_net once queue no_faults 8 waiting).1 ++ rest
      ≡ waiting ∷ sanitized plain_net waiting 8 ∷ [])
    × (file_reports (push_telemetry plain_net once queue no_faults 8 waiting).0.0.file
        ≡ newest 5 rest)
    × (((push_telemetry plain_net once queue no_faults 8 waiting).0.1 ≡ ok tt) ↔ (rest ≡ []))
push_telemetry-accounts_example =
    push_telemetry-accounts plain_net once queue 8 waiting queue-IsSettled (tt, tt) (λ e. cc)
      (unfold sanitized validate_report trim_space ◌==◌ in refl)

abbrev agent : Agent
agent = record { service = service; queue = queue; accepted = [] }

abbrev round : Round
round = record {
  cache_fault = none;
  disk = no_faults;
  clock = 60;
  later = 61;
  server = λ n r. none;
}

abbrev agent_after : Agent
agent_after = (sync_once plain_net zero_float round agent (ok (bundle ∷ []))).0

agent_synced : sync_once plain_net zero_float round agent (ok (bundle ∷ [])) ≡ (agent_after, ok tt)
unfolding sync_once select_config choose next_choice apply_config cache_fault validate_config
    push_telemetry load clean_all push_all save telemetry_report configured sanitized sanitize_log
    redact_fields put validate_report trim_space snapshot_with_signals ◌==◌
agent_synced = refl

agent_after-valid :
    validate_report (sanitized plain_net (telemetry_report zero_float agent_after.service 61) 61)
    ≡ ok tt
unfolding sync_once select_config choose next_choice apply_config cache_fault validate_config
    push_telemetry load clean_all push_all save telemetry_report configured with_protocol
    parse_transport_protocol text_at lookup to_lower sanitized validate_report trim_space put
    snapshot_with_signals ◌==◌
agent_after-valid = refl

sync_once-IsQueue_example :
    IsQueue plain_net (sync_once plain_net zero_float round agent (ok (bundle ∷ []))).0.queue
sync_once-IsQueue_example =
    sync_once-IsQueue plain_net zero_float round agent (ok (bundle ∷ [])) (λ e. cc)
      (ground arith, queue-IsSettled)

sync_once-delivers_example :
    (agent_after.accepted
      ≡ waiting ∷ sanitized plain_net (telemetry_report zero_float agent_after.service 61) 61 ∷ [])
    × (file_reports agent_after.queue.file ≡ [])
sync_once-delivers_example =
    sync_once-delivers plain_net zero_float round agent agent_after (ok (bundle ∷ [])) refl
      (λ e. cc) queue-IsSettled agent_synced agent_after-valid
