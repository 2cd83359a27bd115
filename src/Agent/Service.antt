-- ===== src/Agent/Service.antt =====
-- internal/agent/service.go, its configuration (internal/config/config.go) and its cache of the last
-- configuration (internal/agent/cache.go). Faults of the disk are the text of their error; the
-- platform, the clock and the conversion of an int to a float64 are arguments.
use anix_ops_sd_wan.Base.{
  ℕ, ℤ, pos, Text, str, ◌==◌, trim_space, Float64, Bool, true, false, not, ◌||◌, Option, none, some,
  [], if◌then◌else◌, Outcome, ok, err, ◌>>=◌, ◌>>◌, reject,
}
use anix_ops_sd_wan.Net.{Net, to_lower}
use anix_ops_sd_wan.Domain.{ConfigBundle, DomainError, validate_config}
use anix_ops_sd_wan.Transport.{
  Protocol, Signals, TransportError, wire_guard, hysteria, reality, tuic, link_unknown, select,
}
use anix_ops_sd_wan.Transport.Switching.{SwitchRuntime}

pub record Config : Type 0 where
  pub tenant_id : Text
  pub device_id : Text
  pub config_version : Text
  pub listen_addr : Text

pub data AgentError : Type 0 where
  tenant_required device_required version_required listen_required : AgentError
  apply_required runtime_required : AgentError
  cache_open_failed cache_save_failed : Text → AgentError
  cache_invalid config_invalid : DomainError → AgentError
  cached_tenant cached_target other_tenant other_target : AgentError
  switch_refused : TransportError → AgentError
  report_failed : Text → AgentError

unfoldable pub validate : Config → Outcome AgentError (Unit {0})
validate c = do
  reject (c.tenant_id == []) tenant_required
  reject (c.device_id == []) device_required
  reject (c.config_version == []) version_required
  reject (c.listen_addr == []) listen_required

pub record Snapshot : Type 0 where
  pub tenant_id : Text
  pub device_id : Text
  pub platform : Text
  pub config_version : Text
  pub running : Bool
  pub protocol : Protocol
  pub link_class : Text
  pub rtt_millis : ℤ
  pub packet_loss_permil : ℤ
  pub jitter_millis : ℤ
  pub udp_available : Bool
  pub reason : Text
  pub updated_at : ℕ

-- `cache` is what the cache file holds: none where the service has no cache, some none where the
-- file is absent. The telemetry queue is in Agent/Queue.
pub record Service : Type 0 where
  pub cfg : Config
  pub switch_runtime : Option SwitchRuntime
  pub cache : Option (Option ConfigBundle)
  pub snapshot : Snapshot

unfoldable pub invalid_cache : Outcome DomainError (Unit {0}) → Outcome AgentError (Unit {0})
invalid_cache (err why) = err (cache_invalid why)
invalid_cache (ok u) = ok tt

-- (*FileConfigCache).Load; `ok none` is ErrConfigCacheMiss, and the fault is of opening or decoding.
unfoldable pub load_cache :
    Option Text → Option ConfigBundle → Outcome AgentError (Option ConfigBundle)
unfolding invalid_cache
load_cache (some why) file = err (cache_open_failed why)
load_cache none none = ok none
load_cache none (some bundle) = do invalid_cache (validate_config bundle); ok (some bundle)

-- cfg with the version of the cached bundle, which has to be of this agent
unfoldable pub with_cached : Config → Option ConfigBundle → Outcome AgentError Config
with_cached cfg none = ok cfg
with_cached cfg (some cached) = do
  reject (not (cached.tenant_id == cfg.tenant_id)) cached_tenant
  reject (not (cached.target_id == cfg.device_id)) cached_target
  ok (record cfg { config_version = cached.version })

unfoldable pub restored :
    Config → Option (Option ConfigBundle) → Option Text → Outcome AgentError Config
restored cfg none fault = ok cfg
restored cfg (some file) fault = do cached ← load_cache fault file; with_cached cfg cached

-- Transport and apply function are configured together or not at all.
unfoldable pub check_transport : Option SwitchRuntime → Bool → Outcome AgentError (Unit {0})
check_transport (some r) has_apply = reject (not has_apply) apply_required
check_transport none has_apply = reject has_apply runtime_required

unfoldable pub snapshot_with_signals :
    Text → Config → Bool → Protocol → Text → ℕ → Signals → Snapshot
snapshot_with_signals platform cfg running protocol reason now signals = record {
  tenant_id = cfg.tenant_id;
  device_id = cfg.device_id;
  platform = platform;
  config_version = cfg.config_version;
  running = running;
  protocol = protocol;
  link_class = if signals.link_class == [] then link_unknown else signals.link_class;
  rtt_millis = signals.rtt_millis;
  packet_loss_permil = signals.packet_loss_permil;
  jitter_millis = signals.jitter_millis;
  udp_available = signals.udp_available;
  reason = reason;
  updated_at = now;
}

abbrev pub initial_signals : Signals
initial_signals = record {
  link_class = link_unknown;
  udp_available = true;
  qos_risk = false;
  dpi_risk = false;
  rtt_millis = pos 0;
  packet_loss_permil = pos 0;
  jitter_millis = pos 0;
  handshake_success = [];
}

unfoldable pub parse_transport_protocol : Net → Text → Option Protocol
parse_transport_protocol net value =
    let name = trim_space (to_lower net value) in
    if name == wire_guard || name == str "wireguard"
    then some wire_guard
    else if name == hysteria
    then some hysteria
    else if name == reality
    then some reality
    else if name == tuic
    then some tuic
    else none

module _ (platform : Text) (percent : Float64 → Text) where
  unfoldable pub evaluate_locked : Config → Bool → Signals → ℕ → Snapshot
  evaluate_locked cfg running signals now =
      let selected = select percent signals in
      snapshot_with_signals platform cfg running selected.protocol selected.reason now signals

  unfoldable pub initial_snapshot : Config → Option SwitchRuntime → ℕ → Snapshot
  initial_snapshot cfg none now = evaluate_locked cfg false initial_signals now
  initial_snapshot cfg (some r) now =
      snapshot_with_signals platform cfg false r.active (str "transport runtime active") now
        initial_signals

  -- newServiceWithDependencies
  unfoldable pub new_service :
      Config
      → Option (Option ConfigBundle)
      → Option Text
      → Option SwitchRuntime
      → Bool
      → ℕ
      → Outcome AgentError Service
  new_service cfg cache fault runtime has_apply now = do
    validate cfg
    check_transport runtime has_apply
    cfg' ← restored cfg cache fault
    ok (record {
      cfg = cfg';
      switch_runtime = runtime;
      cache = cache;
      snapshot = initial_snapshot cfg' runtime now;
    })

  unfoldable pub evaluate_service : Service → Signals → ℕ → Service
  evaluate_service s signals now = record s {
    snapshot = evaluate_locked s.cfg s.snapshot.running signals now;
  }
