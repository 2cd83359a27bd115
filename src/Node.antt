-- ===== src/Node.antt =====
-- internal/node/service.go: the service of a node, with its snapshot for its state. What the control
-- server answers and the readings of the clock are arguments.
pub mod Health
mod Tests
use anix_ops_sd_wan.Base.{
  ℕ, eqb, ltb, Text, str, ◌==◌, is_blank, trim_space, less_text, Bool, true, false, not, ◌&&◌, ◌||◌,
  Option, none, some, List, [], ◌∷◌, if◌then◌else◌, Outcome, ok, err, ◌>>=◌, ◌>>◌, reject,
}
use anix_ops_sd_wan.Base.Table.{Table, lookup}
use anix_ops_sd_wan.Domain.{Node, NodeHeartbeat, ConfigBundle, DomainError, validate_config}
use anix_ops_sd_wan.Domain.Selection.{select_config}

pub record Snapshot : Type 0 where
  pub tenant_id : Text
  pub node_id : Text
  pub role : Text
  pub region : Text
  pub endpoint : Text
  pub healthy : Bool
  pub config_version : Text
  pub updated_at : ℕ

pub data NodeError : Type 0 where
  tenant_required id_required role_required role_unsupported region_required : NodeError
  invalid_config : DomainError → NodeError
  other_tenant other_target parse_healthy : NodeError
  fetch_failed watch_failed push_failed : Text → NodeError

unfoldable pub valid_node_role : Text → Bool
valid_node_role role =
    role == str "china-entry"
    || role == str "overseas-edge"
    || role == str "core"
    || role == str "egress"

unfoldable pub validate : Snapshot → Outcome NodeError (Unit {0})
validate s = do
  reject (is_blank s.tenant_id) tenant_required
  reject (is_blank s.node_id) id_required
  reject (s.role == []) role_required
  reject (not (valid_node_role s.role)) role_unsupported
  reject (is_blank s.region) region_required

unfoldable pub new_service : Snapshot → ℕ → Outcome NodeError Snapshot
new_service s clock = do
  validate s
  ok (record s { updated_at = if eqb s.updated_at 0 then clock else s.updated_at })

-- bundle.Values[key], "" where it is missing
unfoldable pub value_of : Text → Table Text → Text
value_of key values = elim (lookup key values) [ none ↦ [] | some v ↦ v ]

-- strconv.ParseBool
unfoldable pub parse_bool : Text → Option Bool
parse_bool s =
    if s == str "1"
      || s == str "t"
      || s == str "T"
      || s == str "TRUE"
      || s == str "true"
      || s == str "True"
    then some true
    else if s == str "0"
        || s == str "f"
        || s == str "F"
        || s == str "FALSE"
        || s == str "false"
        || s == str "False"
    then some false
    else none

-- The values that a bundle sets, before its `healthy` is parsed.
unfoldable pub with_places : Snapshot → Table Text → Snapshot
with_places s values =
    let endpoint = trim_space (value_of (str "endpoint") values) in
    let region = trim_space (value_of (str "region") values) in
    record s {
      endpoint = if endpoint == [] then s.endpoint else endpoint;
      region = if region == [] then s.region else region;
    }

with_version : Snapshot → ConfigBundle → ℕ → Snapshot
with_version s bundle clock = record s { config_version = bundle.version; updated_at = clock }

parsed_healthy : Snapshot → ConfigBundle → ℕ → Option Bool → Snapshot × Outcome NodeError (Unit {0})
parsed_healthy s bundle clock none = (s, err parse_healthy)
parsed_healthy s bundle clock (some healthy) =
    (with_version (record s { healthy = healthy }) bundle clock, ok tt)

-- ApplyConfig: the snapshot after the call and its result; an error can come after a first change.
unfoldable pub apply_config : Snapshot → ConfigBundle → ℕ → Snapshot × Outcome NodeError (Unit {0})
unfolding with_version parsed_healthy
apply_config s bundle clock = elim (validate_config bundle) [
  | err why ↦ (s, err (invalid_config why))
  | ok u ↦
      let placed = with_places s bundle.values in
      let raw = trim_space (value_of (str "healthy") bundle.values) in
      let rest = parsed_healthy placed bundle clock (parse_bool raw) in
      if not (bundle.tenant_id == s.tenant_id)
      then (s, err other_tenant)
      else if not (bundle.target_id == s.node_id)
      then (s, err other_target)
      else if raw == []
      then (with_version placed bundle clock, ok tt)
      else rest
]

unfoldable pub observe_control_node : Snapshot → Node → ℕ → Snapshot
observe_control_node s updated clock =
    if not (updated.tenant_id == []) && not (updated.tenant_id == s.tenant_id)
    then s
    else if not (updated.id == []) && not (updated.id == s.node_id)
    then s
    else record s {
      endpoint = if updated.endpoint == [] then s.endpoint else updated.endpoint;
      healthy = updated.healthy;
      updated_at = if eqb updated.updated_at 0 then clock else updated.updated_at;
    }

unfoldable pub heartbeat_of : Snapshot → NodeHeartbeat
heartbeat_of s = record {
  tenant_id = s.tenant_id;
  node_id = s.node_id;
  healthy = s.healthy;
  endpoint = s.endpoint;
}

-- The answer to the heartbeat is observed on the snapshot as it is then.
module _ (push : NodeHeartbeat → Outcome Text Node) where
  observed : Snapshot → ℕ → Outcome Text Node → Snapshot × Outcome NodeError (Unit {0})
  observed s clock (err why) = (s, err (push_failed why))
  observed s clock (ok updated) = (observe_control_node s updated clock, ok tt)

  beat : ℕ → Snapshot × Outcome NodeError (Unit {0}) → Snapshot × Outcome NodeError (Unit {0})
  beat clock (s, err why) = (s, err why)
  beat clock (s, ok u) = observed s clock (push (heartbeat_of s))

  after_choice : Snapshot → ℕ → Option ConfigBundle → Snapshot × Outcome NodeError (Unit {0})
  after_choice s clock none = (s, ok tt)
  after_choice s clock (some bundle) = apply_config s bundle clock

  -- SyncOnce, with no other call of the service between its steps.
  unfoldable pub sync_once :
      Snapshot → Outcome Text (List ConfigBundle) → ℕ → ℕ → Snapshot × Outcome NodeError (Unit {0})
  unfolding observed beat after_choice
  sync_once s (err why) clock later = (s, err (fetch_failed why))
  sync_once s (ok configs) clock later =
      beat later (after_choice s clock (select_config configs s.node_id))

  -- WatchConfigOnce: the answer is a bundle where the configuration has changed.
  unfoldable pub watch_config_once :
      Snapshot
      → Outcome Text (Option ConfigBundle)
      → ℕ
      → ℕ
      → Snapshot × Outcome NodeError (Unit {0})
  unfolding observed beat after_choice
  watch_config_once s (err why) clock later = (s, err (watch_failed why))
  watch_config_once s (ok changed) clock later = beat later (after_choice s clock changed)
