-- ===== src/Gateway/Egress.antt =====
-- internal/linuxgw/egress_plan.go: the route rules of a gateway, planned from the rules of the policy.
use anix_ops_sd_wan.Base.{
  ℕ, suc, ◌+◌, ◌-◌, leb, ℤ, pos, negsuc, wrap_int, lebℤ, eqbℤ, Text, str, ◌==◌, is_blank,
  trim_space, not, ◌&&◌, Option, none, some, List, [], ◌∷◌, ◌++◌, if◌then◌else◌, Outcome, ok, err,
  ◌>>=◌, ◌>>◌, reject,
}
use anix_ops_sd_wan.Base.Sorting.{sort}
use anix_ops_sd_wan.Base.Table.{Table, lookup, put}
use anix_ops_sd_wan.Net.{Net}
use anix_ops_sd_wan.Policy.{Rule, PolicyError, rule_before, validate}
use anix_ops_sd_wan.Gateway.{RouteRule, is_none}

pub record EgressRouteTarget : Type 0 where
  pub node_id : Text
  pub gateway : Text
  pub interface : Text
  pub table : ℤ

pub record PolicyRoutePlanOptions : Type 0 where
  pub mark_base : ℤ
  pub preference_base : ℤ
  pub dest_cidr : Text

pub data PlanError : Type 0 where
  node_required : PlanError
  gateway_invalid interface_missing table_invalid duplicate_target : Text → PlanError
  rule_invalid : PolicyError → PlanError
  unknown_egress : Text → Text → PlanError
  mark_base_invalid preference_base_invalid destination_invalid : PlanError

-- n + k for an int n and an index k, which is less than 2^63; above 2^63 - 1 the int wraps.
unfoldable pub plus : ℤ → ℕ → ℤ
plus (pos n) k = wrap_int (n + k)
plus (negsuc n) k = if leb k n then negsuc (n - k) else pos (k - suc n)

unfoldable pub trimmed : EgressRouteTarget → EgressRouteTarget
trimmed t = record t { node_id = trim_space t.node_id; interface = trim_space t.interface }

module _ (net : Net) where
  open net use {parse_ip, parse_cidr}

  unfoldable pub validate_target : EgressRouteTarget → Outcome PlanError (Unit {0})
  validate_target t = do
    reject (is_blank t.node_id) node_required
    reject (not (t.gateway == []) && is_none (parse_ip t.gateway)) (gateway_invalid t.node_id)
    reject (is_blank t.interface) (interface_missing t.node_id)
    reject (lebℤ t.table (pos 0)) (table_invalid t.node_id)

  unfoldable pub targets_into :
      Table EgressRouteTarget → List EgressRouteTarget → Outcome PlanError (Table EgressRouteTarget)
  targets_into by_node [] = ok by_node
  targets_into by_node (target ∷ targets) =
      let t = trimmed target in
      let rest = targets_into (put t.node_id t by_node) targets in
      do
        validate_target target
        reject (not (is_none (lookup t.node_id by_node))) (duplicate_target t.node_id)
        rest

  unfoldable pub egress_route_targets_by_node :
      List EgressRouteTarget → Outcome PlanError (Table EgressRouteTarget)
  unfolding targets_into
  egress_route_targets_by_node targets = targets_into [] targets

  unfoldable pub normalize_options :
      PolicyRoutePlanOptions → Outcome PlanError PolicyRoutePlanOptions
  normalize_options o =
      let mark_base = if eqbℤ o.mark_base (pos 0) then pos 1000 else o.mark_base in
      let preference_base =
        if eqbℤ o.preference_base (pos 0) then pos 10000 else o.preference_base in
      let dest_cidr = trim_space (if o.dest_cidr == [] then str "0.0.0.0/0" else o.dest_cidr) in
      do
        reject (lebℤ mark_base (pos 0)) mark_base_invalid
        reject (lebℤ preference_base (pos 0)) preference_base_invalid
        reject (is_none (parse_cidr dest_cidr)) destination_invalid
        ok (record {
          mark_base = mark_base;
          preference_base = preference_base;
          dest_cidr = dest_cidr;
        })

  unfoldable pub checked_rule : Outcome PolicyError (Unit {0}) → Outcome PlanError (Unit {0})
  checked_rule (err why) = err (rule_invalid why)
  checked_rule (ok u) = ok tt

  -- The loop that refuses a rule that is invalid or names no target.
  unfoldable pub check_rules : Table EgressRouteTarget → List Rule → Outcome PlanError (Unit {0})
  check_rules by_node [] = ok tt
  check_rules by_node (rule ∷ rules) =
      let rest = check_rules by_node rules in
      do
        checked_rule (validate net rule)
        reject (is_none (lookup (trim_space rule.egress_node_id) by_node))
            (unknown_egress rule.id rule.egress_node_id)
        rest

-- byNode[key], the zero target where it is missing
unfoldable pub target_of : Option EgressRouteTarget → EgressRouteTarget
target_of none = record { node_id = []; gateway = []; interface = []; table = pos 0 }
target_of (some target) = target

unfoldable pub planned_rule :
    PolicyRoutePlanOptions → Table EgressRouteTarget → ℕ → Rule → RouteRule
unfolding target_of
planned_rule o by_node index rule =
    let target = target_of (lookup (trim_space rule.egress_node_id) by_node) in
    record {
      name = str "policy-" ++ rule.id;
      mark = plus o.mark_base index;
      match_cidr = trim_space rule.ip_cidr;
      table = target.table;
      dest_cidr = o.dest_cidr;
      gateway = target.gateway;
      interface = target.interface;
      preference = plus o.preference_base index;
    }

-- for index, rule := range copied
unfoldable pub planned_from :
    PolicyRoutePlanOptions → Table EgressRouteTarget → ℕ → List Rule → List RouteRule
planned_from o by_node index [] = []
planned_from o by_node index (rule ∷ rules) =
    planned_rule o by_node index rule ∷ planned_from o by_node (suc index) rules

unfoldable pub plan_policy_route_rules :
    Net
    → List Rule
    → List EgressRouteTarget
    → PolicyRoutePlanOptions
    → Outcome PlanError (List RouteRule)
unfolding check_rules checked_rule
plan_policy_route_rules net rules targets options = do
  o ← normalize_options net options
  by_node ← egress_route_targets_by_node net targets
  check_rules net by_node rules
  ok (planned_from o by_node 0 (sort rule_before rules))
