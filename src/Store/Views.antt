-- ===== src/Store/Views.antt =====
-- What the reads of internal/store/memory.go answer.
use anix_ops_sd_wan.Base.{
  Text, less_text_asym, less_text_cotrans, Bool, false, ◌≡◌, refl, ◌↔◌, some, List, arith, ok, In,
}
use anix_ops_sd_wan.Base.Sorting.{sort, IsOrder, IsSorted, sort-IsSorted, In-sort, In-sort_of}
use anix_ops_sd_wan.Base.Table.{
  Table, lookup, values, IsMap, Entries, lookup-In, map-Entries, In-values, lookup-Entries,
}
use anix_ops_sd_wan.Net.{Net}
use anix_ops_sd_wan.Domain.{Tenant, Device, Node, Inventory}
use anix_ops_sd_wan.Policy.{Rule, Request, Decision, Engine, rule_before, validate, evaluate}
use anix_ops_sd_wan.Policy.Routing.{IsBestDecision, evaluate_best, new_engine-of, best_of_sorted}
use anix_ops_sd_wan.Store.{Memory, new_memory, inner}
use anix_ops_sd_wan.Store.Reads.{
  device_before, node_before, inventory, policy_rules, evaluate_policy,
}
use anix_ops_sd_wan.Store.Calls.{Call, run}
use anix_ops_sd_wan.Store.Ownership.{inner-IsShelf, OwnDevice, OwnNode, OwnRule}
use anix_ops_sd_wan.Store.Integrity.{history-IsRepository}

device_before-IsOrder : IsOrder device_before
device_before-IsOrder = record {
  asym = λ a b. less_text_asym a.id b.id;
  cotrans = λ a b c. less_text_cotrans a.id b.id c.id;
}

node_before-IsOrder : IsOrder node_before
node_before-IsOrder = record {
  asym = λ a b. less_text_asym a.id b.id;
  cotrans = λ a b c. less_text_cotrans a.id b.id c.id;
}

-- What a sorted listing of a table shows, where each entry stands under its own name.
listed :
    {V : Type 0} (less : V → V → Bool) (key : V → Text) (shelf : Table V) (v : V)
    → IsMap shelf
    → Entries (λ k w. key w ≡ k) shelf
    → In v (sort less (values shelf)) ↔ (lookup (key v) shelf ≡ some v)
listed less key shelf v keys own = (
  λ m.
      let (k, e) = In-values shelf v keys (In-sort less v (values shelf) m) in
      let same : key v ≡ k = lookup-Entries (λ k w. key w ≡ k) k shelf own e in rw same e,
  λ e. In-sort_of less v (values shelf) (lookup-In (key v) shelf v e),
)

-- The lists of an inventory show what is stored for the tenant, in the order of the IDs.
pub record IsListing (m : Memory) (t : Text) (i : Inventory) : Type 0 where
  pub tenant : lookup t m.tenants ≡ some i.tenant
  pub devices : (d : Device) → In d i.devices ↔ (lookup d.id (inner t m.devices) ≡ some d)
  pub nodes : (n : Node) → In n i.nodes ↔ (lookup n.id (inner t m.nodes) ≡ some n)
  pub devices_sorted : IsSorted device_before i.devices
  pub nodes_sorted : IsSorted node_before i.nodes

module _ (net : Net) where
  -- After any history, an inventory that is returned for a tenant shows that tenant and lists a
  -- device or a node exactly if it is the one stored under its ID for this tenant, and both lists
  -- are in the order of the IDs.
  pub inventory-IsListing :
      (cs : List Call) (t : Text) (i : Inventory)
      → inventory (run net new_memory cs) false t ≡ ok i
      → IsListing (run net new_memory cs) t i
  unfolding inventory
  inventory-IsListing cs t i h =
      let m = run net new_memory cs in
      let v = history-IsRepository net cs in
      let (dkeys, devices) = inner-IsShelf OwnDevice m.tenants t m.devices v.devices in
      let (nkeys, nodes) = inner-IsShelf OwnNode m.tenants t m.nodes v.nodes in
      let ds : i.devices ≡ sort device_before (values (inner t m.devices)) = ground (arith, h) in
      let ns : i.nodes ≡ sort node_before (values (inner t m.nodes)) = ground (arith, h) in
      record {
        tenant = ground (arith, h);
        devices = λ d. rw ds (
            listed device_before (λ x. x.id) (inner t m.devices) d dkeys
              (map-Entries (OwnDevice t) (λ k x. x.id ≡ k) (inner t m.devices) (λ k x o. o.0)
                devices));
        nodes = λ n. rw ns (
            listed node_before (λ x. x.id) (inner t m.nodes) n nkeys
              (map-Entries (OwnNode t) (λ k x. x.id ≡ k) (inner t m.nodes) (λ k x o. o.0) nodes));
        devices_sorted =
            rw ds (sort-IsSorted device_before device_before-IsOrder (values (inner t m.devices)));
        nodes_sorted =
            rw ns (sort-IsSorted node_before node_before-IsOrder (values (inner t m.nodes)));
      }

  -- After any history, a policy request for a tenant that exists, made while its context is not
  -- done, is always decided, by the best of the rules stored for that tenant or, where none
  -- applies, with no match.
  pub evaluate_policy_decides :
      (cs : List Call) (request : Request) (tenant : Tenant)
      → lookup request.tenant_id (run net new_memory cs).tenants ≡ some tenant
      → (d : Decision) × (evaluate_policy net (run net new_memory cs) false request ≡ ok d)
        × IsBestDecision net
            (values (inner request.tenant_id (run net new_memory cs).policies))
            request
            d
  unfolding evaluate_policy policy_rules
  evaluate_policy_decides cs request tenant h =
      let m = run net new_memory cs in
      let stored = inner request.tenant_id m.policies in
      let rules = sort rule_before (values stored) in
      let (keys, own) =
        inner-IsShelf (OwnRule net) m.tenants request.tenant_id m.policies
          (history-IsRepository net cs).policies in
      let valid : (rule : Rule) → In rule rules → validate net rule ≡ ok tt = λ rule at.
        let (k, e) = In-values stored rule keys (In-sort rule_before rule (values stored) at) in
        (lookup-Entries (OwnRule net request.tenant_id) k stored own e).2 in
      let built = new_engine-of net rules valid in
      let engine : Engine = record { rules = sort rule_before rules } in
      let best = evaluate_best net rules engine request built in
      (
        evaluate net engine request,
        rw (h, built) refl,
        best_of_sorted net (values stored) request (evaluate net engine request) best,
      )
