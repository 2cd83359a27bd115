-- ===== src/Store/Nodes.antt =====
-- RegisterNode, RecordNodeHeartbeat and RetireNode of internal/store/memory.go together.
use anix_ops_sd_wan.Base.{
  ℕ, Text, ◌==◌, eq_refl, false, ◌≡◌, Option, some, [], arith, Option-cases, ok, err, inl, inr,
  if◌then◌else◌,
}
use anix_ops_sd_wan.Base.Table.{lookup, put, remove, lookup-put, lookup-remove}
use anix_ops_sd_wan.Domain.{Node, NodeHeartbeat, validate_heartbeat}
use anix_ops_sd_wan.Store.{
  Memory, inner, node_not_found, audit_locked, record_node_heartbeat, retire_node,
}

-- The node that stands for a tenant under an ID.
abbrev pub node_at : Text → Text → Memory → Option Node
node_at t k m = lookup k (inner t m.nodes)

-- A retirement that succeeds removes this node and no other: a valid heartbeat that names it is
-- then refused as of an unknown node, and every other node of the tenant stands as before.
pub heartbeat-retire :
    (m m' : Memory) (t k : Text) (node : Node) (now now' later later' : ℕ) (beat : NodeHeartbeat)
    (other : Text)
    → retire_node m false t k now now' ≡ ok (m', node)
    → beat.tenant_id ≡ t
    → beat.node_id ≡ k
    → validate_heartbeat beat ≡ ok tt
    → (record_node_heartbeat m' false beat later later' ≡ err (node_not_found k))
      × ((k == other) ≡ false → node_at t other m' ≡ node_at t other m)
unfolding retire_node record_node_heartbeat audit_locked
heartbeat-retire m m' t k node now now' later later' beat other h of_t of_k valid =
    let shelf = remove k (inner t m.nodes) in
    let nodes : m'.nodes ≡ put t shelf m.nodes = ground (arith, h) in
    let tenants : m'.tenants ≡ m.tenants = ground (arith, h) in
    let stored = lookup-put t t shelf m.nodes in
    (
      ground (
        arith,
        h,
        of_t,
        of_k,
        valid,
        tenants,
        nodes,
        stored,
        eq_refl t,
        eq_refl k,
        lookup-remove k k (inner t m.nodes),
      ),
      λ apart.
          ground (arith, nodes, stored, eq_refl t, apart, lookup-remove k other (inner t m.nodes)),
    )

-- A heartbeat that succeeds sets the health of the node that it names, and its endpoint where it
-- brings one, and leaves the role and the region of this node and every other node of the tenant.
pub heartbeat_updates :
    (m m' : Memory) (beat : NodeHeartbeat) (a : Node) (now now' : ℕ) (other : Text)
    → record_node_heartbeat m false beat now now' ≡ ok (m', a)
    → (before : Node) × (node_at beat.tenant_id beat.node_id m ≡ some before)
      × (node_at beat.tenant_id beat.node_id m'
          ≡ some (record before {
            healthy = beat.healthy;
            endpoint = if beat.endpoint == [] then before.endpoint else beat.endpoint;
            updated_at = now;
          }))
      × ((beat.node_id == other) ≡ false
          → node_at beat.tenant_id other m' ≡ node_at beat.tenant_id other m)
unfolding record_node_heartbeat audit_locked
heartbeat_updates m m' beat a now now' other h =
    let t = beat.tenant_id in
    let k = beat.node_id in
    let shelf = inner t m.nodes in
    elim (Option-cases (lookup k shelf)) [
      | inl e ↦ absurd (ground (arith, h, e))
      | inr (before, e) ↦
          let nodes : m'.nodes ≡ put t (put k a shelf) m.nodes = ground (arith, h) in
          let stored = lookup-put t t (put k a shelf) m.nodes in
          (
            before,
            e,
            ground (arith, h, e, nodes, stored, eq_refl t, eq_refl k, lookup-put k k a shelf),
            λ apart. ground (arith, nodes, stored, eq_refl t, apart, lookup-put k other a shelf),
          )
    ]
