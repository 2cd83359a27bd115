-- ===== src/Store/Integrity.antt =====
-- Every call of internal/store/memory.go keeps what the repository promises of its entries.
use anix_ops_sd_wan.Base.{
  subst, sym, ◌≢◌, ℕ, Text, Bool, ◌≡◌, refl, none, List, [], ◌∷◌, arith, Option-cases, ok,
  Outcome-cases, inl, inr,
}
use anix_ops_sd_wan.Base.Table.{Table, lookup, put, remove, put-IsMap, put-Entries, lookup-Entries}
use anix_ops_sd_wan.Net.{Net}
use anix_ops_sd_wan.Domain.{Tenant, Device, Node, NodeHeartbeat, ConfigBundle}
use anix_ops_sd_wan.Policy.{Rule, validate}
use anix_ops_sd_wan.Store.{
  Memory, new_memory, inner, put_inner, audit_locked, create_tenant, register_device, register_node,
  record_node_heartbeat, retire_node, upsert_config, record_audit_event, record_telemetry,
  upsert_policy_rule,
}
use anix_ops_sd_wan.Store.Calls.{
  Call, creates, adds_device, adds_node, beats, retires, configures, notes, reports, rules,
  after_either, call, run,
}
use anix_ops_sd_wan.Store.Ownership.{
  IsKnown, IsOwned-grown, inner-IsShelf, put_inner-IsOwned, remove_inner-IsOwned, OwnDevice,
  OwnNode, OwnBundle, OwnRule, IsRepository,
}

module _ (net : Net) where
  IsKnown-lookup :
      (tenants : Table Tenant) (t : Text) → (lookup t tenants ≢ none) → IsKnown tenants t
  IsKnown-lookup tenants t some_there = elim (Option-cases (lookup t tenants)) [
    | inl e ↦ absurd (some_there e)
    | inr found ↦ found
  ]

  -- Each call writes one table besides the log, and keeps what the invariant says of it.
  call-device :
      (m m' : Memory) (done : Bool) (device : Device) (a : Device) (now now' : ℕ)
      → register_device m done device now now' ≡ ok (m', a)
      → IsRepository net m
      → IsRepository net m'
  unfolding register_device audit_locked
  call-device m m' done device a now now' h v =
      let known = IsKnown-lookup m.tenants device.tenant_id (λ e. ground (arith, h, e)) in
      let eq : m' ≡ record m {
        devices = put_inner device.tenant_id device.id a m.devices;
        audit = m'.audit;
      } =
        ground (arith, h) in
      subst (IsRepository net) (sym eq) (record {
        tenants = v.tenants;
        devices =
            put_inner-IsOwned OwnDevice m.tenants device.tenant_id device.id a m.devices known
              (ground (arith, h)) v.devices;
        nodes = v.nodes;
        policies = v.policies;
        configs = v.configs;
      })

  call-node :
      (m m' : Memory) (done : Bool) (node : Node) (a : Node) (now now' : ℕ)
      → register_node m done node now now' ≡ ok (m', a)
      → IsRepository net m
      → IsRepository net m'
  unfolding register_node audit_locked
  call-node m m' done node a now now' h v =
      let known = IsKnown-lookup m.tenants node.tenant_id (λ e. ground (arith, h, e)) in
      let eq : m'
          ≡ record m { nodes = put_inner node.tenant_id node.id a m.nodes; audit = m'.audit } =
        ground (arith, h) in
      subst (IsRepository net) (sym eq) (record {
        tenants = v.tenants;
        devices = v.devices;
        nodes =
            put_inner-IsOwned OwnNode m.tenants node.tenant_id node.id a m.nodes known
              (ground (arith, h)) v.nodes;
        policies = v.policies;
        configs = v.configs;
      })

  call-bundle :
      (m m' : Memory) (done : Bool) (bundle : ConfigBundle) (a : ConfigBundle) (now now' : ℕ)
      → upsert_config m done bundle now now' ≡ ok (m', a)
      → IsRepository net m
      → IsRepository net m'
  unfolding upsert_config audit_locked
  call-bundle m m' done bundle a now now' h v =
      let known = IsKnown-lookup m.tenants bundle.tenant_id (λ e. ground (arith, h, e)) in
      let eq : m' ≡ record m {
        configs = put_inner bundle.tenant_id bundle.id a m.configs;
        audit = m'.audit;
      } =
        ground (arith, h) in
      subst (IsRepository net) (sym eq) (record {
        tenants = v.tenants;
        devices = v.devices;
        nodes = v.nodes;
        policies = v.policies;
        configs =
            put_inner-IsOwned OwnBundle m.tenants bundle.tenant_id bundle.id a m.configs known
              (ground (arith, h)) v.configs;
      })

  call-heartbeat :
      (m m' : Memory) (done : Bool) (beat : NodeHeartbeat) (a : Node) (now now' : ℕ)
      → record_node_heartbeat m done beat now now' ≡ ok (m', a)
      → IsRepository net m
      → IsRepository net m'
  unfolding record_node_heartbeat audit_locked
  call-heartbeat m m' done beat a now now' h v =
      let known = IsKnown-lookup m.tenants beat.tenant_id (λ e. ground (arith, h, e)) in
      let found = Option-cases (lookup beat.node_id (inner beat.tenant_id m.nodes)) in
      let own : OwnNode beat.tenant_id beat.node_id a = elim found [
        | inl e ↦ absurd (ground (arith, h, e))
        | inr (node, e) ↦
            let shelf = inner-IsShelf OwnNode m.tenants beat.tenant_id m.nodes v.nodes in
            let before =
              lookup-Entries (OwnNode beat.tenant_id) beat.node_id (inner beat.tenant_id m.nodes)
                shelf.1 e in
            ground (arith, h, e, before.0, before.1)
      ] in
      let eq : m'
          ≡ record m { nodes = put_inner beat.tenant_id beat.node_id a m.nodes; audit = m'.audit } =
        ground (arith, h) in
      subst (IsRepository net) (sym eq) (record {
        tenants = v.tenants;
        devices = v.devices;
        nodes =
            put_inner-IsOwned OwnNode m.tenants beat.tenant_id beat.node_id a m.nodes known own
              v.nodes;
        policies = v.policies;
        configs = v.configs;
      })

  call-retirement :
      (m m' : Memory) (done : Bool) (t k : Text) (a : Node) (now now' : ℕ)
      → retire_node m done t k now now' ≡ ok (m', a)
      → IsRepository net m
      → IsRepository net m'
  unfolding retire_node audit_locked
  call-retirement m m' done t k a now now' h v =
      let known = IsKnown-lookup m.tenants t (λ e. ground (arith, h, e)) in
      let eq : m'
          ≡ record m { nodes = put t (remove k (inner t m.nodes)) m.nodes; audit = m'.audit } =
        ground (arith, h) in
      subst (IsRepository net) (sym eq) (record {
        tenants = v.tenants;
        devices = v.devices;
        nodes = remove_inner-IsOwned OwnNode m.tenants t k m.nodes known v.nodes;
        policies = v.policies;
        configs = v.configs;
      })

  call-tenant :
      (m m' : Memory) (done : Bool) (tenant a : Tenant) (now now' : ℕ)
      → create_tenant m done tenant now now' ≡ ok (m', a)
      → IsRepository net m
      → IsRepository net m'
  unfolding create_tenant audit_locked
  call-tenant m m' done tenant a now now' h v =
      let eq : m' ≡ record m { tenants = put tenant.id a m.tenants; audit = m'.audit } =
        ground (arith, h) in
      subst (IsRepository net) (sym eq) (record {
        tenants = (
          put-IsMap tenant.id a m.tenants v.tenants.0,
          put-Entries (λ k t. t.id ≡ k) tenant.id a m.tenants (ground (arith, h)) v.tenants.1,
        );
        devices = IsOwned-grown OwnDevice m.tenants tenant.id a m.devices v.devices;
        nodes = IsOwned-grown OwnNode m.tenants tenant.id a m.nodes v.nodes;
        policies = IsOwned-grown (OwnRule net) m.tenants tenant.id a m.policies v.policies;
        configs = IsOwned-grown OwnBundle m.tenants tenant.id a m.configs v.configs;
      })

  call-rule :
      (m m' : Memory) (done : Bool) (rule a : Rule) (now : ℕ)
      → upsert_policy_rule net m done rule now ≡ ok (m', a)
      → IsRepository net m
      → IsRepository net m'
  unfolding upsert_policy_rule audit_locked
  call-rule m m' done rule a now h v =
      let known = IsKnown-lookup m.tenants rule.tenant_id (λ e. ground (arith, h, e)) in
      let valid : validate net rule ≡ ok tt = elim (Outcome-cases (validate net rule)) [
        | inl (u, e) ↦ e
        | inr (error, e) ↦ absurd (ground (arith, h, e))
      ] in
      let eq : m' ≡ record m {
        policies = put_inner rule.tenant_id rule.id rule m.policies;
        audit = m'.audit;
      } =
        ground (arith, h) in
      subst (IsRepository net) (sym eq) (record {
        tenants = v.tenants;
        devices = v.devices;
        nodes = v.nodes;
        policies =
            put_inner-IsOwned (OwnRule net) m.tenants rule.tenant_id rule.id rule m.policies known
              (refl, refl, valid) v.policies;
        configs = v.configs;
      })

  -- A call that writes the log and the telemetry only.
  call-record :
      (m m' : Memory)
      → m' ≡ record m { telemetry = m'.telemetry; audit = m'.audit }
      → IsRepository net m
      → IsRepository net m'
  call-record m m' eq v = subst (IsRepository net) (sym eq) (record {
    tenants = v.tenants;
    devices = v.devices;
    nodes = v.nodes;
    policies = v.policies;
    configs = v.configs;
  })

  call-IsRepository :
      (m : Memory) (c : Call) → IsRepository net m → IsRepository net (call net m c).0
  unfolding call record_audit_event record_telemetry audit_locked
  call-IsRepository m (creates done tenant now now') v =
      after_either (λ r. IsRepository net r.0) m (create_tenant m done tenant now now') v
        (λ m' a h. call-tenant m m' done tenant a now now' h v)
  call-IsRepository m (adds_device done device now now') v =
      after_either (λ r. IsRepository net r.0) m (register_device m done device now now') v
        (λ m' a h. call-device m m' done device a now now' h v)
  call-IsRepository m (adds_node done node now now') v =
      after_either (λ r. IsRepository net r.0) m (register_node m done node now now') v
        (λ m' a h. call-node m m' done node a now now' h v)
  call-IsRepository m (beats done beat now now') v =
      after_either (λ r. IsRepository net r.0) m (record_node_heartbeat m done beat now now') v
        (λ m' a h. call-heartbeat m m' done beat a now now' h v)
  call-IsRepository m (retires done t k now now') v =
      after_either (λ r. IsRepository net r.0) m (retire_node m done t k now now') v
        (λ m' a h. call-retirement m m' done t k a now now' h v)
  call-IsRepository m (configures done bundle now now') v =
      after_either (λ r. IsRepository net r.0) m (upsert_config m done bundle now now') v
        (λ m' a h. call-bundle m m' done bundle a now now' h v)
  call-IsRepository m (notes done event now) v =
      after_either (λ r. IsRepository net r.0) m (record_audit_event m done event now) v
        (λ m' a h. call-record m m' (ground (arith, h)) v)
  call-IsRepository m (reports done report clock now) v =
      after_either (λ r. IsRepository net r.0) m (record_telemetry net m done report clock now) v
        (λ m' a h. call-record m m' (ground (arith, h)) v)
  call-IsRepository m (rules done rule now) v =
      after_either (λ r. IsRepository net r.0) m (upsert_policy_rule net m done rule now) v
        (λ m' a h. call-rule m m' done rule a now h v)

  run-IsRepository :
      (m : Memory) (cs : List Call) → IsRepository net m → IsRepository net (run net m cs)
  unfolding run
  run-IsRepository m [] v = v
  run-IsRepository m (c ∷ cs) v = run-IsRepository (call net m c).0 cs (call-IsRepository m c v)

  -- After any history from the empty repository, every device, node, policy rule and configuration
  -- stands under its own ID and tenant, no ID twice, that tenant has been created, and every rule
  -- passes validation.
  pub history-IsRepository : (cs : List Call) → IsRepository net (run net new_memory cs)
  history-IsRepository cs =
      run-IsRepository new_memory cs
        (record { tenants = (tt, tt); devices = tt; nodes = tt; policies = tt; configs = tt })
