-- ===== src/Agent/Changes.antt =====
-- ApplyConfig, EvaluateAndApply and TelemetryReport of internal/agent/service.go.
use anix_ops_sd_wan.Base.{
  ℕ, ℤ, Text, str, ◌==◌, Float64, Bool, true, false, not, ◌&&◌, Option, none, some, [], ◌∷◌, ◌++◌,
  if◌then◌else◌, Outcome, ok, err,
}
use anix_ops_sd_wan.Net.{Net}
use anix_ops_sd_wan.Domain.{ConfigBundle, validate_config}
use anix_ops_sd_wan.Telemetry.{Report}
use anix_ops_sd_wan.Transport.{Protocol, Signals}
use anix_ops_sd_wan.Transport.Switching.{
  SwitchRuntime, SwitchReport, Evaluated, refused, reported, evaluate,
}
use anix_ops_sd_wan.Policy.Bundle.{text_at}
use anix_ops_sd_wan.Agent.Service.{
  Service, AgentError, Snapshot, config_invalid, other_tenant, other_target, cache_save_failed,
  switch_refused, report_failed, snapshot_with_signals, evaluate_service, parse_transport_protocol,
}

-- (*FileConfigCache).Save of a valid bundle; nothing is saved where there is no cache.
unfoldable pub save_cache :
    Option (Option ConfigBundle) → ConfigBundle → Option (Option ConfigBundle)
save_cache none bundle = none
save_cache (some file) bundle = some (some bundle)

unfoldable pub cache_fault : Option (Option ConfigBundle) → Option Text → Option Text
cache_fault none fault = none
cache_fault (some file) fault = fault

unfoldable pub with_protocol : Snapshot → Option Protocol → Snapshot
with_protocol snapshot none = snapshot
with_protocol snapshot (some protocol) = record snapshot { protocol = protocol }

module _ (net : Net) where
  -- After the checks and the save.
  unfoldable pub configured : Service → ConfigBundle → ℕ → Service
  configured s bundle clock =
      let named = parse_transport_protocol net (text_at (str "transport") bundle.values) in
      record s {
        cfg = record s.cfg { config_version = bundle.version };
        cache = save_cache s.cache bundle;
        snapshot = record (with_protocol s.snapshot named) {
          config_version = bundle.version;
          updated_at = clock;
        };
      }

  unfoldable pub saving :
      Service → ConfigBundle → ℕ → Option Text → Service × Outcome AgentError (Unit {0})
  saving s bundle clock (some why) = (s, err (cache_save_failed why))
  saving s bundle clock none = (configured s bundle clock, ok tt)

  -- ApplyConfig: `fault` is what the save of the cache would fail with.
  unfoldable pub apply_config :
      Service → ConfigBundle → Option Text → ℕ → Service × Outcome AgentError (Unit {0})
  unfolding saving
  apply_config s bundle fault clock = elim (validate_config bundle) [
    | err why ↦ (s, err (config_invalid why))
    | ok u ↦
        let saved = saving s bundle clock (cache_fault s.cache fault) in
        if not (bundle.tenant_id == s.cfg.tenant_id)
        then (s, err other_tenant)
        else if not (bundle.target_id == s.cfg.device_id)
        then (s, err other_target)
        else saved
  ]

-- The report of a service without a runtime.
unfoldable pub unswitched_report : Protocol → Snapshot → Signals → SwitchReport
unswitched_report previous snapshot signals = record {
  previous = previous;
  selected = snapshot.protocol;
  applied = true;
  suppressed = false;
  rolled_back = false;
  reason = snapshot.reason;
  error = [];
  signals = signals;
  evaluated_at = snapshot.updated_at;
}

unfoldable pub shown_reason : SwitchReport → Text
shown_reason report =
    if report.rolled_back && not (report.error == [])
    then report.reason ++ (str ": " ++ report.error)
    else report.reason

module _ (platform : Text) (percent : Float64 → Text) where
  -- The runtime keeps what Evaluate did to it; the snapshot follows where Evaluate gives no error.
  unfoldable pub evaluated :
      Service → ℕ → Signals → SwitchRuntime × Evaluated → Service × Outcome AgentError SwitchReport
  evaluated s now signals (r, refused why) =
      (record s { switch_runtime = some r }, err (switch_refused why))
  evaluated s now signals (r, reported report (some why)) =
      (record s { switch_runtime = some r }, err (report_failed why))
  evaluated s now signals (r, reported report none) = (
    record s {
      switch_runtime = some r;
      snapshot =
          snapshot_with_signals platform s.cfg s.snapshot.running report.selected
            (shown_reason report) now signals;
    },
    ok report,
  )

  unfoldable pub evaluating :
      Service
      → Option SwitchRuntime
      → ℕ
      → Signals
      → Option (Protocol → Option Text)
      → Option (SwitchReport → Option Text)
      → Service × Outcome AgentError SwitchReport
  evaluating s none now signals apply reporter =
      let s' = evaluate_service platform percent s signals now in
      (s', ok (unswitched_report s.snapshot.protocol s'.snapshot signals))
  evaluating s (some r) now signals apply reporter =
      evaluated s now signals (evaluate percent r now signals apply reporter)

  unfoldable pub evaluate_and_apply :
      Service
      → ℕ
      → Signals
      → Option (Protocol → Option Text)
      → Option (SwitchReport → Option Text)
      → Service × Outcome AgentError SwitchReport
  unfolding evaluated evaluating
  evaluate_and_apply s now signals apply reporter =
      evaluating s s.switch_runtime now signals apply reporter

-- `of_int` is the conversion float64(n).
module _ (of_int : ℤ → Float64) where
  abbrev pub bool_metric : Bool → Float64
  bool_metric true = 0x3FF0000000000000
  bool_metric false = 0

  unfoldable pub telemetry_report : Service → ℕ → Report
  telemetry_report s clock = record {
    tenant_id = s.snapshot.tenant_id;
    subject_id = s.snapshot.device_id;
    subject_kind = str "agent";
    timestamp = clock;
    metrics =
        (str "rtt_millis", of_int s.snapshot.rtt_millis)
        ∷ (str "packet_loss_permil", of_int s.snapshot.packet_loss_permil)
        ∷ (str "jitter_millis", of_int s.snapshot.jitter_millis)
        ∷ (str "udp_available", bool_metric s.snapshot.udp_available)
        ∷ [];
    logs =
        (record {
          level = str "info";
          message = str "agent snapshot";
          fields =
              (str "platform", s.snapshot.platform)
              ∷ (str "protocol", s.snapshot.protocol)
              ∷ (str "config_version", s.snapshot.config_version)
              ∷ (str "link_class", s.snapshot.link_class)
              ∷ [];
        })
        ∷ [];
  }
