-- ===== src/Store.antt =====
-- internal/store/memory.go: the repository of the control plane. A map of maps is a table of
-- tables, in which a missing inner map reads as an empty one. Each call is given whether its
-- context is done and what the clock answers, in the order in which it is read. A call that
-- returns an error has written nothing, so it returns the new state beside its value only.
pub mod Files
pub mod Reads
pub mod Calls
pub mod Journal
pub mod Numbering
pub mod Isolation
pub mod Ownership
pub mod Integrity
pub mod Views
pub mod Nodes
mod Tests
use anix_ops_sd_wan.Base.{
  ℕ, suc, Text, str, ◌==◌, less_text, six_digits, length, eqb, Bool, true, false, not, ◌&&◌, Option,
  none, some, List, [], ◌∷◌, ◌++◌, if◌then◌else◌, Outcome, ok, err, ◌>>=◌, ◌>>◌, reject,
}
use anix_ops_sd_wan.Base.Sorting.{sort}
use anix_ops_sd_wan.Base.Table.{Table, lookup, put, remove, values}
use anix_ops_sd_wan.Net.{Net}
use anix_ops_sd_wan.Domain.{
  DomainError, Tenant, Device, Node, NodeHeartbeat, AuditEvent, Inventory, ConfigBundle,
  validate_tenant, validate_device, validate_node, validate_heartbeat, validate_event,
  validate_config,
}
use anix_ops_sd_wan.Telemetry.{Report, TelemetryError, validate_report, sanitized}
use anix_ops_sd_wan.Policy.{
  Rule, PolicyError, Request, Decision, rule_before, validate, new_engine, evaluate,
}

pub record Memory : Type 0 where
  pub tenants : Table Tenant
  pub devices : Table (Table Device)
  pub nodes : Table (Table Node)
  pub policies : Table (Table Rule)
  pub configs : Table (Table ConfigBundle)
  pub telemetry : Table (List Report)
  pub audit : Table (List AuditEvent)

abbrev pub new_memory : Memory
new_memory = record {
  tenants = [];
  devices = [];
  nodes = [];
  policies = [];
  configs = [];
  telemetry = [];
  audit = [];
}

pub data StoreError : Type 0 where
  context_done : StoreError
  tenant_exists tenant_not_found node_not_found : Text → StoreError
  retire_tenant_required retire_node_required : StoreError
  invalid : DomainError → StoreError
  invalid_report : TelemetryError → StoreError
  invalid_rule : PolicyError → StoreError

-- The list under a key, where a missing key reads as a nil slice or map.
abbrev pub list_of {ℓ} : {A : Type ℓ} → Option (List A) → List A
list_of none = []
list_of (some xs) = xs

-- m[t]
abbrev pub inner : {A : Type 0} → Text → Table (List A) → List A
inner t m = list_of (lookup t m)

-- if m[t] == nil { m[t] = make(...) }; m[t][k] = v
abbrev pub put_inner : {V : Type 0} → Text → Text → V → Table (Table V) → Table (Table V)
put_inner t k v m = put t (put k v (inner t m)) m

-- m[t] = append(m[t], x)
abbrev pub append_inner : {A : Type 0} → Text → A → Table (List A) → Table (List A)
append_inner t x m = put t (inner t m ++ (x ∷ [])) m

-- An error of another package, as one of the store.
abbrev pub wrapped : {E A : Type 0} → (E → StoreError) → Outcome E A → Outcome StoreError A
wrapped f (err e) = err (f e)
wrapped f (ok a) = ok a

abbrev pub known {ℓ} : {V : Type ℓ} → StoreError → Option V → Outcome StoreError V
known e none = err e
known e (some v) = ok v

unfoldable pub event_id : Text → ℕ → Text
event_id tenant_id n = tenant_id ++ str "-" ++ six_digits n

-- len(m.audit[tenantID]) + 1
abbrev pub next_id : Memory → Text → Text
next_id m tenant_id = event_id tenant_id (suc (length (inner tenant_id m.audit)))

abbrev pub event_of : Memory → Text → Text → Text → Text → Text → ℕ → AuditEvent
event_of m tenant_id actor action object_type object_id now = record {
  id = next_id m tenant_id;
  tenant_id = tenant_id;
  actor = actor;
  action = action;
  object_type = object_type;
  object_id = object_id;
  message = [];
  created_at = now;
}

unfoldable pub audit_locked : Memory → Text → Text → Text → Text → Text → ℕ → Memory
audit_locked m tenant_id actor action object_type object_id now =
    let event = event_of m tenant_id actor action object_type object_id now in
    record m { audit = append_inner tenant_id event m.audit }

-- if _, exists := m.tenants[tenantID]; !exists { return error }
abbrev pub known_tenant : Memory → Text → Outcome StoreError Tenant
known_tenant m tenant_id = known (tenant_not_found tenant_id) (lookup tenant_id m.tenants)

abbrev pub absent : StoreError → Option Tenant → Outcome StoreError (Unit {0})
absent e none = ok tt
absent e (some t) = err e

abbrev pub check_tenant : Memory → Text → Outcome StoreError (Unit {0})
check_tenant m tenant_id = known_tenant m tenant_id >>= λ tenant. ok tt

unfoldable pub create_tenant : Memory → Bool → Tenant → ℕ → ℕ → Outcome StoreError (Memory × Tenant)
create_tenant m done tenant now now' = do
  reject done context_done
  wrapped invalid (validate_tenant tenant)
  absent (tenant_exists tenant.id) (lookup tenant.id m.tenants)
  let created = record tenant { created_at = now }
  let m' = record m { tenants = put tenant.id created m.tenants }
  ok (
    audit_locked m' tenant.id (str "system") (str "tenant.create") (str "tenant") tenant.id now',
    created,
  )

-- if s == "" { s = default }
abbrev pub or_default : Text → Text → Text
or_default s default = if s == [] then default else s

unfoldable pub register_device :
    Memory → Bool → Device → ℕ → ℕ → Outcome StoreError (Memory × Device)
register_device m done device now now' = do
  reject done context_done
  wrapped invalid (validate_device device)
  check_tenant m device.tenant_id
  let created = record device {
    created_at = now;
    updated_at = now;
    status = or_default device.status (str "registered");
    config_version = or_default device.config_version (str "initial");
  }
  let m' = record m { devices = put_inner device.tenant_id device.id created m.devices }
  ok (
    audit_locked m' device.tenant_id device.id (str "device.register") (str "device") device.id
        now',
    created,
  )

unfoldable pub register_node : Memory → Bool → Node → ℕ → ℕ → Outcome StoreError (Memory × Node)
register_node m done node now now' = do
  reject done context_done
  wrapped invalid (validate_node node)
  check_tenant m node.tenant_id
  let created = record node { created_at = now; updated_at = now }
  let m' = record m { nodes = put_inner node.tenant_id node.id created m.nodes }
  ok (
    audit_locked m' node.tenant_id node.id (str "node.register") (str "node") node.id now',
    created,
  )

unfoldable pub record_node_heartbeat :
    Memory → Bool → NodeHeartbeat → ℕ → ℕ → Outcome StoreError (Memory × Node)
record_node_heartbeat m done heartbeat now now' = do
  reject done context_done
  wrapped invalid (validate_heartbeat heartbeat)
  check_tenant m heartbeat.tenant_id
  node ←
      known (node_not_found heartbeat.node_id)
        (lookup heartbeat.node_id (inner heartbeat.tenant_id m.nodes))
  let updated = record node {
    healthy = heartbeat.healthy;
    endpoint = if heartbeat.endpoint == [] then node.endpoint else heartbeat.endpoint;
    updated_at = now;
  }
  let m' = record m { nodes = put_inner heartbeat.tenant_id heartbeat.node_id updated m.nodes }
  ok (
    audit_locked m' heartbeat.tenant_id heartbeat.node_id (str "node.heartbeat") (str "node")
        heartbeat.node_id now',
    updated,
  )

unfoldable pub retire_node :
    Memory → Bool → Text → Text → ℕ → ℕ → Outcome StoreError (Memory × Node)
retire_node m done tenant_id node_id now now' = do
  reject done context_done
  reject (tenant_id == []) retire_tenant_required
  reject (node_id == []) retire_node_required
  check_tenant m tenant_id
  node ← known (node_not_found node_id) (lookup node_id (inner tenant_id m.nodes))
  let m' = record m { nodes = put tenant_id (remove node_id (inner tenant_id m.nodes)) m.nodes }
  ok (
    audit_locked m' tenant_id node_id (str "node.retire") (str "node") node_id now',
    record node { healthy = false; updated_at = now },
  )

unfoldable pub upsert_config :
    Memory → Bool → ConfigBundle → ℕ → ℕ → Outcome StoreError (Memory × ConfigBundle)
upsert_config m done bundle now now' = do
  reject done context_done
  wrapped invalid (validate_config bundle)
  check_tenant m bundle.tenant_id
  let created = record bundle { created_at = now }
  let m' = record m { configs = put_inner bundle.tenant_id bundle.id created m.configs }
  ok (
    audit_locked m' bundle.tenant_id (str "system") (str "config.upsert") (str "config_bundle")
        bundle.id now',
    created,
  )

-- The event with the ID and the time that it came without.
unfoldable pub completed : Memory → AuditEvent → ℕ → AuditEvent
completed m event now = record event {
  id =
      if event.id == [] && not (event.tenant_id == []) then next_id m event.tenant_id else event.id;
  created_at = if eqb event.created_at 0 then now else event.created_at;
}

unfoldable pub record_audit_event :
    Memory → Bool → AuditEvent → ℕ → Outcome StoreError (Memory × AuditEvent)
record_audit_event m done event now = do
  reject done context_done
  let named = completed m event now
  wrapped invalid (validate_event named)
  ok (record m { audit = append_inner named.tenant_id named m.audit }, named)

module _ (net : Net) where
  -- `clock` is what Sanitized reads.
  unfoldable pub record_telemetry :
      Memory → Bool → Report → ℕ → ℕ → Outcome StoreError (Memory × Report)
  record_telemetry m done report clock now = do
    reject done context_done
    wrapped invalid_report (validate_report report)
    check_tenant m report.tenant_id
    let clean = sanitized net report clock
    let m' = record m { telemetry = append_inner clean.tenant_id clean m.telemetry }
    ok (
      audit_locked m' clean.tenant_id clean.subject_id (str "telemetry.record") clean.subject_kind
          clean.subject_id now,
      clean,
    )

  unfoldable pub upsert_policy_rule : Memory → Bool → Rule → ℕ → Outcome StoreError (Memory × Rule)
  upsert_policy_rule m done rule now = do
    reject done context_done
    wrapped invalid_rule (validate net rule)
    check_tenant m rule.tenant_id
    let m' = record m { policies = put_inner rule.tenant_id rule.id rule m.policies }
    ok (
      audit_locked m' rule.tenant_id (str "system") (str "policy.upsert") (str "policy_rule")
          rule.id now,
      rule,
    )
