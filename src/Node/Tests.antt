-- ===== src/Node/Tests.antt =====
-- Runs of internal/node, and the theorems at concrete inputs.
use anix_ops_sd_wan.Base.{
  Text, str, ◌==◌, trim_space, less_text, true, false, ◌≡◌, refl, ◌⊎◌, inl, inr, some, List, [],
  ◌∷◌, Outcome, ok, err,
}
use anix_ops_sd_wan.Base.Table.{lookup, put}
use anix_ops_sd_wan.Net.Samples.{plain_net}
use anix_ops_sd_wan.Domain.{
  Node, NodeHeartbeat, ConfigBundle, validate_config, validate_tenant, validate_node,
  validate_heartbeat,
}
use anix_ops_sd_wan.Domain.Selection.{
  select_config, Agree, Targeted, IsNewest, select_config-IsNewest, select_config-by_order,
}
use anix_ops_sd_wan.Store.{
  Memory, new_memory, audit_locked, create_tenant, register_node, record_node_heartbeat,
}
use anix_ops_sd_wan.Store.Calls.{Call, creates, adds_node, beats, call, run}
use anix_ops_sd_wan.Store.Nodes.{node_at}
use anix_ops_sd_wan.Store.Integrity.{history-IsRepository}
use anix_ops_sd_wan.Node.{
  Snapshot, NodeError, parse_healthy, valid_node_role, validate, value_of, parse_bool, with_places,
  apply_config, observe_control_node, heartbeat_of, sync_once,
}
use anix_ops_sd_wan.Node.Health.{
  IsSameNode, apply_config-accounts, sync_once-IsSameNode, observe-heartbeat,
}

-- The version v9 is older than v10, and ahead of it in the order of texts.
abbrev v9 : ConfigBundle
v9 = record {
  id = str "c9";
  tenant_id = str "t1";
  target_id = str "hk";
  version = str "v9";
  values = (str "endpoint", str " hk:9 ") ∷ (str "healthy", str "maybe") ∷ [];
  created_at = 10;
}

abbrev v8 : ConfigBundle
v8 = record v9 { id = str "c8"; version = str "v8"; created_at = 5 }

abbrev v10 : ConfigBundle
v10 = record v9 {
  id = str "c10";
  version = str "v10";
  values = (str "endpoint", str "hk:10") ∷ [];
  created_at = 20;
}

abbrev hk : Snapshot
hk = record {
  tenant_id = str "t1";
  node_id = str "hk";
  role = str "egress";
  region = str "asia";
  endpoint = str "hk:1";
  healthy = true;
  config_version = str "v1";
  updated_at = 5;
}

hk-valid : validate hk ≡ ok tt
unfolding validate valid_node_role trim_space ◌==◌
hk-valid = refl

half_taken : apply_config hk v9 30 ≡ (record hk { endpoint = str "hk:9" }, err parse_healthy)
unfolding apply_config with_places value_of parse_bool validate_config trim_space lookup ◌==◌
half_taken = refl

taken :
    (apply_config hk v10 30).0
    ≡ record hk { endpoint = str "hk:10"; config_version = str "v10"; updated_at = 30 }
unfolding apply_config with_places value_of parse_bool validate_config trim_space lookup ◌==◌
taken = refl

abbrev in_order : List ConfigBundle
in_order = v9 ∷ v8 ∷ []

in_order-Agree :
    (a b : ConfigBundle)
    → Targeted (str "hk") in_order a
    → Targeted (str "hk") in_order b
    → Agree a b
unfolding less_text
in_order-Agree a b (inl p, ta) (inl q, tb) = rw (p, q) (λ e. (refl, refl))
in_order-Agree a b (inl p, ta) (inr (inl q), tb) = rw (p, q) (λ e. (refl, refl))
in_order-Agree a b (inr (inl p), ta) (inl q, tb) = rw (p, q) (elim [ inl e ↦ cc | inr e ↦ cc ])
in_order-Agree a b (inr (inl p), ta) (inr (inl q), tb) = rw (p, q) (λ e. (refl, refl))
in_order-Agree a b (inl p, ta) (inr (inr none_left), tb) = elim none_left [ ]
in_order-Agree a b (inr (inl p), ta) (inr (inr none_left), tb) = elim none_left [ ]
in_order-Agree a b (inr (inr none_left), ta) t = elim none_left [ ]

select_config-IsNewest_example : IsNewest (str "hk") in_order (select_config in_order (str "hk"))
select_config-IsNewest_example = select_config-IsNewest (str "hk") in_order in_order-Agree

abbrev elsewhere : ConfigBundle
elsewhere = record v8 { target_id = str "sg" }

select_config-by_order_example :
    (select_config (elsewhere ∷ v9 ∷ v10 ∷ []) (str "hk") ≡ some v10)
    × (select_config (elsewhere ∷ v10 ∷ v9 ∷ []) (str "hk") ≡ some v9)
unfolding less_text ◌==◌
select_config-by_order_example =
    select_config-by_order (str "hk") v9 v10 (elsewhere ∷ []) [] [] refl refl (refl, tt) tt tt refl
      refl

apply_config-accounts_example :
    (((apply_config hk v9 30).1 ≡ ok tt)
      × ((apply_config hk v9 30).0.config_version ≡ str "v9")
      × (str "t1" ≡ str "t1")
      × (str "hk" ≡ str "hk"))
    ⊎ ((why : NodeError) × ((apply_config hk v9 30).1 ≡ err why)
        × ((apply_config hk v9 30).0.config_version ≡ str "v1")
        × (((apply_config hk v9 30).0 ≡ hk)
            ⊎ ((why ≡ parse_healthy) × ((apply_config hk v9 30).0 ≡ with_places hk v9.values))))
apply_config-accounts_example = apply_config-accounts hk v9 30

abbrev no_push : NodeHeartbeat → Outcome Text Node
no_push beat = err (str "unreachable")

sync_once-IsSameNode_example :
    (validate (sync_once no_push hk (ok (v9 ∷ v10 ∷ [])) 30 31).0 ≡ ok tt)
    × IsSameNode hk (sync_once no_push hk (ok (v9 ∷ v10 ∷ [])) 30 31).0
sync_once-IsSameNode_example = sync_once-IsSameNode no_push hk (ok (v9 ∷ v10 ∷ [])) 30 31 hk-valid

abbrev history : List Call
history =
    creates false (record { id = str "t1"; name = str "One"; created_at = 0 }) 1 2
    ∷ adds_node false
        (record {
          id = str "hk";
          tenant_id = str "t1";
          role = str "egress";
          region = str "asia";
          endpoint = str "hk:0";
          healthy = false;
          created_at = 0;
          updated_at = 0;
        })
        3 4
    ∷ []

abbrev at_history : Memory
at_history = run plain_net new_memory history

abbrev beaten : Memory
beaten = (call plain_net at_history (beats false (heartbeat_of hk) 22 23)).0

abbrev hk_node : Node
hk_node = record {
  id = str "hk";
  tenant_id = str "t1";
  role = str "egress";
  region = str "asia";
  endpoint = str "hk:1";
  healthy = true;
  created_at = 3;
  updated_at = 22;
}

beat_stored : record_node_heartbeat at_history false (heartbeat_of hk) 22 23 ≡ ok (beaten, hk_node)
unfolding run call create_tenant register_node record_node_heartbeat audit_locked heartbeat_of
    validate_heartbeat validate_tenant validate_node trim_space lookup put ◌==◌
beat_stored = refl

observe-heartbeat_example :
    (stored : Node) × (node_at (str "t1") (str "hk") beaten ≡ some stored)
    × ((observe_control_node hk hk_node 40).healthy ≡ stored.healthy)
    × ((observe_control_node hk hk_node 40).endpoint ≡ stored.endpoint)
    × ((observe_control_node hk hk_node 40).healthy ≡ true)
observe-heartbeat_example =
    observe-heartbeat plain_net at_history beaten hk hk_node 22 23 40
      (history-IsRepository plain_net history) beat_stored
