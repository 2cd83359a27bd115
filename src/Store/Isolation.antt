-- ===== src/Store/Isolation.antt =====
-- The tenants of internal/store/memory.go are kept apart: no call for one shows to another.
use anix_ops_sd_wan.Base.{Text, ◌==◌, Bool, false, ◌≡◌, refl, arith}
use anix_ops_sd_wan.Base.Table.{lookup, lookup-put}
use anix_ops_sd_wan.Net.{Net}
use anix_ops_sd_wan.Telemetry.{sanitized}
use anix_ops_sd_wan.Policy.{Request}
use anix_ops_sd_wan.Store.{
  Memory, audit_locked, completed, create_tenant, register_device, register_node,
  record_node_heartbeat, retire_node, upsert_config, record_audit_event, record_telemetry,
  upsert_policy_rule,
}
use anix_ops_sd_wan.Store.Reads.{
  inventory, policy_rules, evaluate_policy, configs_of, telemetry_of, audit_events,
}
use anix_ops_sd_wan.Store.Calls.{
  Call, creates, adds_device, adds_node, beats, retires, configures, notes, reports, rules,
  tenant_of, after_either, call,
}

-- Everything that the two states hold for a tenant.
record IsSameFor (j : Text) (m m' : Memory) : Type 0 where
  tenants : lookup j m'.tenants ≡ lookup j m.tenants
  devices : lookup j m'.devices ≡ lookup j m.devices
  nodes : lookup j m'.nodes ≡ lookup j m.nodes
  policies : lookup j m'.policies ≡ lookup j m.policies
  configs : lookup j m'.configs ≡ lookup j m.configs
  telemetry : lookup j m'.telemetry ≡ lookup j m.telemetry
  audit : lookup j m'.audit ≡ lookup j m.audit

unaltered : (j : Text) (m : Memory) → IsSameFor j m m
unaltered j m = record {
  tenants = refl;
  devices = refl;
  nodes = refl;
  policies = refl;
  configs = refl;
  telemetry = refl;
  audit = refl;
}

module _ (net : Net) where
  call_same :
      (m : Memory) (c : Call) (j : Text)
      → (tenant_of c == j) ≡ false
      → IsSameFor j m (call net m c).0
  unfolding call tenant_of audit_locked completed sanitized create_tenant register_device
      register_node record_node_heartbeat retire_node upsert_config record_audit_event
      record_telemetry upsert_policy_rule
  call_same m (creates done tenant now now') j e =
      after_either (λ r. IsSameFor j m r.0) m (create_tenant m done tenant now now') (unaltered j m)
        (λ m' a h. grind (arith, h, e, lookup-put))
  call_same m (adds_device done device now now') j e =
      after_either (λ r. IsSameFor j m r.0) m (register_device m done device now now')
        (unaltered j m) (λ m' a h. grind (arith, h, e, lookup-put))
  call_same m (adds_node done node now now') j e =
      after_either (λ r. IsSameFor j m r.0) m (register_node m done node now now') (unaltered j m)
        (λ m' a h. grind (arith, h, e, lookup-put))
  call_same m (beats done heartbeat now now') j e =
      after_either (λ r. IsSameFor j m r.0) m (record_node_heartbeat m done heartbeat now now')
        (unaltered j m) (λ m' a h. grind (arith, h, e, lookup-put))
  call_same m (retires done tenant_id node_id now now') j e =
      after_either (λ r. IsSameFor j m r.0) m (retire_node m done tenant_id node_id now now')
        (unaltered j m) (λ m' a h. grind (arith, h, e, lookup-put))
  call_same m (configures done bundle now now') j e =
      after_either (λ r. IsSameFor j m r.0) m (upsert_config m done bundle now now') (unaltered j m)
        (λ m' a h. grind (arith, h, e, lookup-put))
  call_same m (notes done event now) j e =
      after_either (λ r. IsSameFor j m r.0) m (record_audit_event m done event now) (unaltered j m)
        (λ m' a h. grind (arith, h, e, lookup-put))
  call_same m (reports done report clock now) j e =
      after_either (λ r. IsSameFor j m r.0) m (record_telemetry net m done report clock now)
        (unaltered j m) (λ m' a h. grind (arith, h, e, lookup-put))
  call_same m (rules done rule now) j e =
      after_either (λ r. IsSameFor j m r.0) m (upsert_policy_rule net m done rule now)
        (unaltered j m) (λ m' a h. grind (arith, h, e, lookup-put))

-- Every read for the tenant answers the same in the two states, errors included.
pub record ReadsSame (net : Net) (j : Text) (done : Bool) (m m' : Memory) : Type 0 where
  pub inventory : inventory m' done j ≡ inventory m done j
  pub rules : policy_rules m' done j ≡ policy_rules m done j
  pub decisions :
      (request : Request)
      → request.tenant_id ≡ j
      → evaluate_policy net m' done request ≡ evaluate_policy net m done request
  pub configs : configs_of m' done j ≡ configs_of m done j
  pub telemetry : telemetry_of m' done j ≡ telemetry_of m done j
  pub audit : audit_events m' done j ≡ audit_events m done j

module _ (net : Net) where
  rules_same :
      (j : Text) (done : Bool) (m m' : Memory)
      → IsSameFor j m m'
      → policy_rules m' done j ≡ policy_rules m done j
  unfolding policy_rules
  rules_same j done m m' same = rw (same.tenants, same.policies) refl

  -- A call for one tenant, whether it succeeds or fails, leaves what every read answers for
  -- another: its inventory, rules, decisions, configurations, telemetry and audit events.
  pub call_isolated :
      (m : Memory) (c : Call) (j : Text) (done : Bool)
      → (tenant_of c == j) ≡ false
      → ReadsSame net j done m (call net m c).0
  unfolding inventory evaluate_policy configs_of telemetry_of audit_events
  call_isolated m c j done e =
      let same = call_same net m c j e in
      let m' = (call net m c).0 in
      record {
        inventory = rw (same.tenants, same.devices, same.nodes) refl;
        rules = rules_same j done m m' same;
        decisions = λ request of_j. rw (of_j, rules_same j done m m' same) refl;
        configs = rw (same.tenants, same.configs) refl;
        telemetry = rw (same.tenants, same.telemetry) refl;
        audit = rw (same.tenants, same.audit) refl;
      }
