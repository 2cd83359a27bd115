-- ===== src/Node/Health.antt =====
-- What the calls of internal/node/service.go keep of a node, and what the control server knows of it
-- after a heartbeat.
use anix_ops_sd_wan.Base.{
  ℕ, Text, str, ◌==◌, eq_iff, is_blank, trim_space, is_blank-trim_space, Bool, false, not, ◌&&◌,
  Option, none, some, List, [], ◌≡◌, ◌⊎◌, inl, inr, refl, ap, sym, ◌∙◌, arith, if◌then◌else◌,
  Outcome, ok, err, Bool-cases, Option-cases, Outcome-cases,
}
use anix_ops_sd_wan.Base.Table.{Table, lookup-Entries}
use anix_ops_sd_wan.Net.{Net}
use anix_ops_sd_wan.Domain.{Node, NodeHeartbeat, ConfigBundle, validate_config}
use anix_ops_sd_wan.Domain.Selection.{select_config}
use anix_ops_sd_wan.Store.{Memory, inner, record_node_heartbeat}
use anix_ops_sd_wan.Store.Ownership.{OwnNode, IsRepository, inner-IsShelf}
use anix_ops_sd_wan.Store.Nodes.{node_at, heartbeat_updates}
use anix_ops_sd_wan.Node.{
  Snapshot, NodeError, parse_healthy, invalid_config, other_tenant, other_target, validate,
  value_of, parse_bool, with_places, with_version, parsed_healthy, apply_config,
  observe_control_node, heartbeat_of, observed, beat, after_choice, sync_once,
}

-- The snapshot passes Validate, and it is of the same node of the same tenant in the same role.
abbrev pub IsSameNode : Snapshot → Snapshot → Type 0
IsSameNode s s' =
    (s'.tenant_id ≡ s.tenant_id)
    × (s'.node_id ≡ s.node_id)
    × (s'.role ≡ s.role)
    × (is_blank s'.region ≡ is_blank s.region)

placed-region :
    (s : Snapshot) (values : Table Text)
    → is_blank s.region ≡ false
    → is_blank (with_places s values).region ≡ false
unfolding with_places
placed-region s values valid =
    let region = value_of (str "region") values in
    elim (Bool-cases (trim_space region == [])) [
      | inl none_set ↦ rw none_set valid
      | inr set ↦ rw set (rw (is_blank-trim_space region) set)
    ]

placed-IsSameNode :
    (s : Snapshot) (values : Table Text)
    → is_blank s.region ≡ false
    → IsSameNode s (with_places s values)
unfolding with_places
placed-IsSameNode s values valid = (refl, refl, refl, placed-region s values valid ∙ sym valid)

IsSameNode-refl : (s : Snapshot) → IsSameNode s s
IsSameNode-refl s = (refl, refl, refl, refl)

-- The three ends of a call: a refusal, a failure after the first changes, and a configuration taken.
abbrev IsEnd : Snapshot → ConfigBundle → ℕ → Snapshot × Outcome NodeError (Unit {0}) → Type 0
IsEnd s bundle clock r =
    ((r.0 ≡ s) × (why : NodeError) × (r.1 ≡ err why))
    ⊎ (((r.0 ≡ with_places s bundle.values) × (r.1 ≡ err parse_healthy))
        ⊎ ((healthy : Bool) × (r.0 ≡ record (with_places s bundle.values) {
          healthy = healthy;
          config_version = bundle.version;
          updated_at = clock;
        })
            × (r.1 ≡ ok tt)
            × (bundle.tenant_id ≡ s.tenant_id)
            × (bundle.target_id ≡ s.node_id)))

apply_config-IsEnd :
    (s : Snapshot) (bundle : ConfigBundle) (clock : ℕ)
    → IsEnd s bundle clock (apply_config s bundle clock)
unfolding apply_config with_version parsed_healthy
apply_config-IsEnd s bundle clock =
    let raw = trim_space (value_of (str "healthy") bundle.values) in
    elim (Outcome-cases (validate_config bundle)) [
      | inr (why, e) ↦ rw (apply_config, e) (inl (refl, invalid_config why, refl))
      | inl (u, e) ↦ elim (Bool-cases (bundle.tenant_id == s.tenant_id)) [
        | inr t ↦ rw (apply_config, e, t) (inl (refl, other_tenant, refl))
        | inl t ↦ elim (Bool-cases (bundle.target_id == s.node_id)) [
          | inr k ↦ rw (apply_config, e, t, k) (inl (refl, other_target, refl))
          | inl k ↦
              let tenant = (eq_iff bundle.tenant_id s.tenant_id).0 t in
              let target = (eq_iff bundle.target_id s.node_id).0 k in
              elim (Bool-cases (raw == [])) [
                | inl unset ↦
                    rw (apply_config, e, t, k, unset)
                      (inr
                        (inr ((with_places s bundle.values).healthy, refl, refl, tenant, target)))
                | inr set ↦ elim (Option-cases (parse_bool raw)) [
                  | inl bad ↦ rw (apply_config, e, t, k, set, bad) (inr (inl (refl, refl)))
                  | inr (b, good) ↦
                      rw (apply_config, e, t, k, set, good)
                        (inr (inr (b, refl, refl, tenant, target)))
                ]
              ]
        ]
      ]
    ]

-- A call of ApplyConfig that succeeds is for a bundle of the node and its tenant, and takes over its
-- version. One that fails keeps the version: either it leaves the whole snapshot as it was, or the
-- bundle's `healthy` did not parse, and the endpoint and the region are already those of the bundle.
pub apply_config-accounts :
    (s : Snapshot) (bundle : ConfigBundle) (clock : ℕ)
    → let r = apply_config s bundle clock in
      ((r.1 ≡ ok tt)
        × (r.0.config_version ≡ bundle.version)
        × (bundle.tenant_id ≡ s.tenant_id)
        × (bundle.target_id ≡ s.node_id))
      ⊎ ((why : NodeError) × (r.1 ≡ err why)
          × (r.0.config_version ≡ s.config_version)
          × ((r.0 ≡ s) ⊎ ((why ≡ parse_healthy) × (r.0 ≡ with_places s bundle.values))))
unfolding with_places
apply_config-accounts s bundle clock = elim (apply_config-IsEnd s bundle clock) [
  | inl (same, why, e) ↦ inr (why, e, ap Snapshot.config_version same, inl same)
  | inr (inl (placed, e)) ↦
      inr (parse_healthy, e, ap Snapshot.config_version placed, inr (refl, placed))
  | inr (inr (healthy, taken, e, tenant, target)) ↦
      inl (e, ap Snapshot.config_version taken, tenant, target)
]

same_trans : (a b c : Snapshot) → IsSameNode a b → IsSameNode b c → IsSameNode a c
same_trans a b c h k = (k.0 ∙ h.0, k.1 ∙ h.1, k.2 ∙ h.2, k.3 ∙ h.3)

apply_config-IsSameNode :
    (s : Snapshot) (bundle : ConfigBundle) (clock : ℕ)
    → is_blank s.region ≡ false
    → IsSameNode s (apply_config s bundle clock).0
apply_config-IsSameNode s bundle clock valid =
    let placed = placed-IsSameNode s bundle.values valid in
    elim (apply_config-IsEnd s bundle clock) [
      | inl (same, why, e) ↦ rw same (IsSameNode-refl s)
      | inr (inl (half, e)) ↦ rw half placed
      | inr (inr (healthy, taken, e, tenant, target)) ↦ rw taken placed
    ]

observe-IsSameNode :
    (s : Snapshot) (updated : Node) (clock : ℕ)
    → IsSameNode s (observe_control_node s updated clock)
unfolding observe_control_node
observe-IsSameNode s updated clock =
    let other_tenant = not (updated.tenant_id == []) && not (updated.tenant_id == s.tenant_id) in
    let other_node = not (updated.id == []) && not (updated.id == s.node_id) in
    elim (Bool-cases other_tenant) [
      | inl t ↦ rw t (IsSameNode-refl s)
      | inr t ↦ elim (Bool-cases other_node) [
        | inl k ↦ rw (t, k) (IsSameNode-refl s)
        | inr k ↦ rw (t, k) (refl, refl, refl, refl)
      ]
    ]

module _ (push : NodeHeartbeat → Outcome Text Node) where
  beat-IsSameNode :
      (clock : ℕ) (r : Snapshot × Outcome NodeError (Unit {0}))
      → IsSameNode r.0 (beat push clock r).0
  unfolding beat observed
  beat-IsSameNode clock (s, err why) = IsSameNode-refl s
  beat-IsSameNode clock (s, ok u) = elim (Outcome-cases (push (heartbeat_of s))) [
    | inl (updated, e) ↦ rw (beat, e) (observe-IsSameNode s updated clock)
    | inr (why, e) ↦ rw (beat, e) (IsSameNode-refl s)
  ]

  after_choice-IsSameNode :
      (s : Snapshot) (clock : ℕ) (choice : Option ConfigBundle)
      → is_blank s.region ≡ false
      → IsSameNode s (after_choice push s clock choice).0
  unfolding after_choice
  after_choice-IsSameNode s clock none valid = IsSameNode-refl s
  after_choice-IsSameNode s clock (some bundle) valid = apply_config-IsSameNode s bundle clock valid

  -- Whatever the server answers, a snapshot that passes Validate still passes after SyncOnce, with
  -- the tenant, the node and the role that it had.
  pub sync_once-IsSameNode :
      (s : Snapshot) (answer : Outcome Text (List ConfigBundle)) (clock later : ℕ)
      → validate s ≡ ok tt
      → let s' = (sync_once push s answer clock later).0 in (validate s' ≡ ok tt) × IsSameNode s s'
  unfolding sync_once validate
  sync_once-IsSameNode s (err why) clock later valid = (valid, IsSameNode-refl s)
  sync_once-IsSameNode s (ok configs) clock later valid =
      let region : is_blank s.region ≡ false = ground (arith, valid) in
      let chosen = after_choice push s clock (select_config configs s.node_id) in
      let same =
        same_trans s chosen.0 (beat push later chosen).0
          (after_choice-IsSameNode s clock (select_config configs s.node_id) region)
          (beat-IsSameNode later chosen) in
      (rw (same.0, same.1, same.2, same.3) valid, same)

-- The answer is the node that was there, with what the heartbeat brings.
answer-heartbeat :
    (m m' : Memory) (beat : NodeHeartbeat) (before a : Node) (now now' : ℕ)
    → record_node_heartbeat m false beat now now' ≡ ok (m', a)
    → node_at beat.tenant_id beat.node_id m ≡ some before
    → a ≡ record before {
      healthy = beat.healthy;
      endpoint = if beat.endpoint == [] then before.endpoint else beat.endpoint;
      updated_at = now;
    }
unfolding record_node_heartbeat
answer-heartbeat m m' beat before a now now' h e = ground (arith, h, e)

-- The node observed is the snapshot's own: its health and endpoint become the node's.
observe-own :
    (s : Snapshot) (updated : Node) (clock : ℕ)
    → updated.tenant_id ≡ s.tenant_id
    → updated.id ≡ s.node_id
    → let s' = observe_control_node s updated clock in
      (s'.healthy ≡ updated.healthy)
      × (s'.endpoint ≡ (if updated.endpoint == [] then s.endpoint else updated.endpoint))
unfolding observe_control_node
observe-own s updated clock tenant node =
    ground
      (arith, (eq_iff updated.tenant_id s.tenant_id).1 tenant, (eq_iff updated.id s.node_id).1 node)

-- After a heartbeat that the repository takes, with the node of the heartbeat observed, the
-- repository and the snapshot agree on the health and the endpoint of the node, where the
-- repository holds each node under its own tenant and ID; the snapshot's health is as it was.
pub observe-heartbeat :
    (net : Net) (m m' : Memory) (s : Snapshot) (updated : Node) (now now' clock : ℕ)
    → IsRepository net m
    → record_node_heartbeat m false (heartbeat_of s) now now' ≡ ok (m', updated)
    → let s' = observe_control_node s updated clock in
      (stored : Node) × (node_at s.tenant_id s.node_id m' ≡ some stored)
      × (s'.healthy ≡ stored.healthy)
      × (s'.endpoint ≡ stored.endpoint)
      × (s'.healthy ≡ s.healthy)
unfolding heartbeat_of
observe-heartbeat net m m' s updated now now' clock v h =
    let (before, e, after, others) =
      heartbeat_updates m m' (heartbeat_of s) updated now now' s.node_id h in
    let shelf = inner-IsShelf OwnNode m.tenants s.tenant_id m.nodes v.nodes in
    let own =
      lookup-Entries (OwnNode s.tenant_id) s.node_id (inner s.tenant_id m.nodes) shelf.1 e in
    let answer = answer-heartbeat m m' (heartbeat_of s) before updated now now' h e in
    let tenant = ap Node.tenant_id answer ∙ own.1 in
    let node = ap Node.id answer ∙ own.0 in
    let seen = observe-own s updated clock tenant node in
    let endpoint : updated.endpoint ≡ (if s.endpoint == [] then before.endpoint else s.endpoint) =
      ap Node.endpoint answer in
    (
      updated,
      after ∙ ap some (sym answer),
      seen.0,
      seen.1 ∙ ground (arith, endpoint, eq_iff s.endpoint [], eq_iff updated.endpoint []),
      seen.0 ∙ ap Node.healthy answer,
    )
