-- ===== src/Store/Reads.antt =====
-- The reads of internal/store/memory.go: listings in a fixed order, and the decision over a policy
-- request by an engine built from the stored rules.
use anix_ops_sd_wan.Base.{Text, less_text, Bool, List, Outcome, ok, ◌>>=◌, ◌>>◌, reject}
use anix_ops_sd_wan.Base.Sorting.{sort}
use anix_ops_sd_wan.Base.Table.{values}
use anix_ops_sd_wan.Net.{Net}
use anix_ops_sd_wan.Domain.{Device, Node, AuditEvent, Inventory, ConfigBundle}
use anix_ops_sd_wan.Telemetry.{Report}
use anix_ops_sd_wan.Policy.{Rule, Request, Decision, rule_before, new_engine, evaluate}
use anix_ops_sd_wan.Store.{
  Memory, StoreError, context_done, invalid_rule, inner, wrapped, known_tenant, check_tenant,
}

abbrev pub device_before : Device → Device → Bool
device_before a b = less_text a.id b.id

abbrev pub node_before : Node → Node → Bool
node_before a b = less_text a.id b.id

abbrev pub bundle_before : ConfigBundle → ConfigBundle → Bool
bundle_before a b = less_text a.id b.id

unfoldable pub inventory : Memory → Bool → Text → Outcome StoreError Inventory
inventory m done tenant_id = do
  reject done context_done
  tenant ← known_tenant m tenant_id
  ok (record {
    tenant = tenant;
    devices = sort device_before (values (inner tenant_id m.devices));
    nodes = sort node_before (values (inner tenant_id m.nodes));
  })

unfoldable pub policy_rules : Memory → Bool → Text → Outcome StoreError (List Rule)
policy_rules m done tenant_id = do
  reject done context_done
  check_tenant m tenant_id
  ok (sort rule_before (values (inner tenant_id m.policies)))

unfoldable pub evaluate_policy : Net → Memory → Bool → Request → Outcome StoreError Decision
evaluate_policy net m done request = do
  rules ← policy_rules m done request.tenant_id
  engine ← wrapped invalid_rule (new_engine net rules)
  ok (evaluate net engine request)

unfoldable pub configs_of : Memory → Bool → Text → Outcome StoreError (List ConfigBundle)
configs_of m done tenant_id = do
  reject done context_done
  check_tenant m tenant_id
  ok (sort bundle_before (values (inner tenant_id m.configs)))

unfoldable pub telemetry_of : Memory → Bool → Text → Outcome StoreError (List Report)
telemetry_of m done tenant_id = do
  reject done context_done
  check_tenant m tenant_id
  ok (inner tenant_id m.telemetry)

unfoldable pub audit_events : Memory → Bool → Text → Outcome StoreError (List AuditEvent)
audit_events m done tenant_id = do
  reject done context_done
  check_tenant m tenant_id
  ok (inner tenant_id m.audit)
