-- ===== src/Store/Calls.antt =====
-- The calls that change the repository (internal/store/memory.go), and histories of them.
use anix_ops_sd_wan.Base.{ℕ, Text, Bool, true, false, List, [], ◌∷◌, ◌≡◌, refl, Outcome, ok, err}
use anix_ops_sd_wan.Net.{Net}
use anix_ops_sd_wan.Domain.{Tenant, Device, Node, NodeHeartbeat, AuditEvent, ConfigBundle}
use anix_ops_sd_wan.Telemetry.{Report}
use anix_ops_sd_wan.Policy.{Rule}
use anix_ops_sd_wan.Store.{
  Memory, StoreError, create_tenant, register_device, register_node, record_node_heartbeat,
  retire_node, upsert_config, record_audit_event, record_telemetry, upsert_policy_rule,
}

-- The numbers are the answers of the clock, and the test tells whether the context is done.
pub data Call : Type 0 where
  creates : Bool → Tenant → ℕ → ℕ → Call
  adds_device : Bool → Device → ℕ → ℕ → Call
  adds_node : Bool → Node → ℕ → ℕ → Call
  beats : Bool → NodeHeartbeat → ℕ → ℕ → Call
  retires : Bool → Text → Text → ℕ → ℕ → Call
  configures : Bool → ConfigBundle → ℕ → ℕ → Call
  notes : Bool → AuditEvent → ℕ → Call
  reports : Bool → Report → ℕ → ℕ → Call
  rules : Bool → Rule → ℕ → Call

-- The tenant that a call names.
unfoldable pub tenant_of : Call → Text
tenant_of (creates done tenant now now') = tenant.id
tenant_of (adds_device done device now now') = device.tenant_id
tenant_of (adds_node done node now now') = node.tenant_id
tenant_of (beats done heartbeat now now') = heartbeat.tenant_id
tenant_of (retires done tenant_id node_id now now') = tenant_id
tenant_of (configures done bundle now now') = bundle.tenant_id
tenant_of (notes done event now) = event.tenant_id
tenant_of (reports done report clock now) = report.tenant_id
tenant_of (rules done rule now) = rule.tenant_id

-- The state after a call, and whether the call returned without an error.
abbrev pub after : {A : Type 0} → Memory → Outcome StoreError (Memory × A) → Memory × Bool
after m (err e) = (m, false)
after m (ok (m', a)) = (m', true)

module _ (net : Net) where
  unfoldable pub call : Memory → Call → Memory × Bool
  call m (creates done tenant now now') = after m (create_tenant m done tenant now now')
  call m (adds_device done device now now') = after m (register_device m done device now now')
  call m (adds_node done node now now') = after m (register_node m done node now now')
  call m (beats done heartbeat now now') = after m (record_node_heartbeat m done heartbeat now now')
  call m (retires done tenant_id node_id now now') =
      after m (retire_node m done tenant_id node_id now now')
  call m (configures done bundle now now') = after m (upsert_config m done bundle now now')
  call m (notes done event now) = after m (record_audit_event m done event now)
  call m (reports done report clock now) = after m (record_telemetry net m done report clock now)
  call m (rules done rule now) = after m (upsert_policy_rule net m done rule now)

  unfoldable pub run : Memory → List Call → Memory
  run m [] = m
  run m (c ∷ cs) = run (call m c).0 cs

-- What holds where nothing is written, and of each state that the call may write, holds after it.
pub after_either :
    {A : Type 0} (P : Memory × Bool → Type 0) (m : Memory) (x : Outcome StoreError (Memory × A))
    → P (m, false)
    → ((m' : Memory) (a : A) → x ≡ ok (m', a) → P (m', true))
    → P (after m x)
after_either P m (err e) h f = h
after_either P m (ok (m', a)) h f = f m' a refl
