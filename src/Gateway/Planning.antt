-- ===== src/Gateway/Planning.antt =====
-- What a plan of internal/linuxgw/egress_plan.go has to do with the rules of the policy, the targets, and
-- the checks of the gateway.
use anix_ops_sd_wan.Base.{
  ℕ, suc, ◌+◌, length, pos, lebℤ, Text, str, ◌==◌, eq_iff, is_blank, trim_space, not, ◌&&◌, false,
  Bool-cases, Option, none, some, List, [], ◌∷◌, ◌++◌, map, In, ◌≡◌, ◌↔◌, refl, ap, sym, ◌∙◌, arith,
  inl, inr, Outcome, ok, err, ◌>>=◌, ◌>>◌, reject, >>-succeeded, >>=-succeeded,
}
use anix_ops_sd_wan.Base.Sorting.{sort, All, All-of, All-In, In-sort, In-sort_of, length-sort}
use anix_ops_sd_wan.Base.Table.{Table, lookup, put, Entries, put-Entries, lookup-Entries}
use anix_ops_sd_wan.Net.{Net}
use anix_ops_sd_wan.Policy.{
  Rule, PolicyError, rule_before as policy_before, cidr_error, validate, check_cidr,
}
use anix_ops_sd_wan.Gateway.{RouteRule, is_none, validate_rule, validate_rules, sorted_route_rules}
use anix_ops_sd_wan.Gateway.Marks.{
  base_of, Fits, Fits-suc, Fits-zero, IsBased, normalize_options-IsBased, plus-positive,
  sort-planned, planned-Fits,
}
use anix_ops_sd_wan.Gateway.Egress.{
  EgressRouteTarget, PolicyRoutePlanOptions, PlanError, unknown_egress, plus, validate_target,
  trimmed, targets_into, egress_route_targets_by_node, normalize_options, checked_rule, check_rules,
  target_of, planned_rule, planned_from, plan_policy_route_rules,
}

-- The options with which a plan is made.
abbrev IsUsable : Net → PolicyRoutePlanOptions → Type 0
IsUsable net o =
    (lebℤ o.mark_base (pos 0) ≡ false)
    × (lebℤ o.preference_base (pos 0) ≡ false)
    × (is_none (net.parse_cidr o.dest_cidr) ≡ false)

normalize_options-IsUsable :
    (net : Net) (o o' : PolicyRoutePlanOptions) → normalize_options net o ≡ ok o' → IsUsable net o'
unfolding normalize_options
normalize_options-IsUsable net o o' h = ground (arith, h)

-- The targets of the table: each came, with its spaces, through the validation.
abbrev IsTarget : Net → List EgressRouteTarget → Text → EgressRouteTarget → Type 0
IsTarget net targets key t =
    (source : EgressRouteTarget) × In source targets
    × (validate_target net source ≡ ok tt)
    × (t ≡ trimmed source)
    × (key ≡ trim_space source.node_id)

names-planned :
    (o : PolicyRoutePlanOptions) (by_node : Table EgressRouteTarget) (index : ℕ) (rules : List Rule)
    → map RouteRule.name (planned_from o by_node index rules)
      ≡ map (λ r. str "policy-" ++ r.id) rules
unfolding planned_from planned_rule
names-planned o by_node index [] = refl
names-planned o by_node index (rule ∷ rules) =
    ap (◌∷◌ (str "policy-" ++ rule.id)) (names-planned o by_node (suc index) rules)

module _ (net : Net) where
  targets_into-Entries :
      (by_node table : Table EgressRouteTarget) (all targets : List EgressRouteTarget)
      → ((t : EgressRouteTarget) → In t targets → In t all)
      → Entries (IsTarget net all) by_node
      → targets_into net by_node targets ≡ ok table
      → Entries (IsTarget net all) table
  unfolding targets_into trimmed
  targets_into-Entries by_node table all [] within h e =
      let same : by_node ≡ table = cc in rw (← same) h
  targets_into-Entries by_node table all (target ∷ targets) within h e =
      let t = trimmed target in
      let rest = targets_into net (put t.node_id t by_node) targets in
      let fresh =
        reject (not (is_none (lookup t.node_id by_node))) (PlanError.duplicate_target t.node_id) in
      let (valid, e1) = >>-succeeded (validate_target net target) (fresh >> rest) e in
      let (new, e2) = >>-succeeded fresh rest e1 in
      targets_into-Entries (put t.node_id t by_node) table all targets (λ u m. within u (inr m))
        (put-Entries (IsTarget net all) t.node_id t by_node
          (target, within target (inl refl), valid, refl, refl) h)
        e2

  checked_rule-ok : (m : Outcome PolicyError (Unit {0})) → checked_rule net m ≡ ok tt → m ≡ ok tt
  unfolding checked_rule
  checked_rule-ok (err why) h = cc
  checked_rule-ok (ok u) h = refl

  found_in :
      (why : PlanError) (there : Option EgressRouteTarget)
      → reject (is_none there) why ≡ ok tt
      → (target : EgressRouteTarget) × (there ≡ some target)
  found_in why none h = cc
  found_in why (some target) h = (target, refl)

  match-valid :
      (rule : Rule)
      → ((s : Text) → is_none (net.parse_cidr s) ≡ false → trim_space s ≡ s)
      → validate net rule ≡ ok tt
      → (not (trim_space rule.ip_cidr == []) && is_none (net.parse_cidr (trim_space rule.ip_cidr)))
        ≡ false
  unfolding validate check_cidr cidr_error
  match-valid rule tight valid = elim (Bool-cases (rule.ip_cidr == [])) [
    | inl empty ↦
        let none_set = (eq_iff rule.ip_cidr []).0 empty in
        rw none_set (unfold trim_space ◌==◌ in refl)
    | inr set ↦
        let parsed : is_none (net.parse_cidr rule.ip_cidr) ≡ false = ground (arith, valid, set) in
        rw (tight rule.ip_cidr parsed, set, parsed) refl
  ]

  check_rules-All :
      (by_node : Table EgressRouteTarget) (rules : List Rule)
      → check_rules net by_node rules ≡ ok tt
      → All
          (λ r.
            (validate net r ≡ ok tt)
            × (target : EgressRouteTarget) × (lookup (trim_space r.egress_node_id) by_node
                ≡ some target))
          rules
  unfolding check_rules
  check_rules-All by_node [] e = tt
  check_rules-All by_node (rule ∷ rules) e =
      let rest = check_rules net by_node rules in
      let there = lookup (trim_space rule.egress_node_id) by_node in
      let names = reject (is_none there) (unknown_egress rule.id rule.egress_node_id) in
      let (valid, e1) = >>-succeeded (checked_rule net (validate net rule)) (names >> rest) e in
      let (known, e2) = >>-succeeded names rest e1 in
      (
        (
          checked_rule-ok (validate net rule) valid,
          (found_in (unknown_egress rule.id rule.egress_node_id) there known).0,
          (found_in (unknown_egress rule.id rule.egress_node_id) there known).1,
        ),
        check_rules-All by_node rules e2,
      )

  -- A rule planned for a target that passed its validation passes that of the gateway.
  planned_rule-valid :
      (o : PolicyRoutePlanOptions) (by_node : Table EgressRouteTarget) (index : ℕ) (rule : Rule)
      (source : EgressRouteTarget)
      → ((s : Text) → is_none (net.parse_cidr s) ≡ false → trim_space s ≡ s)
      → IsUsable net o
      → lebℤ (plus o.mark_base index) (pos 0) ≡ false
      → validate net rule ≡ ok tt
      → validate_target net source ≡ ok tt
      → lookup (trim_space rule.egress_node_id) by_node ≡ some (trimmed source)
      → validate_rule net (planned_rule o by_node index rule) ≡ ok tt
  unfolding validate_rule planned_rule target_of trimmed validate_target ◌==◌
  planned_rule-valid o by_node index rule source tight usable mark valid fit found =
      let table : lebℤ source.table (pos 0) ≡ false = ground (arith, fit) in
      let gateway : (not (source.gateway == []) && is_none (net.parse_ip source.gateway)) ≡ false =
        ground (arith, fit) in
      let interface : is_blank source.interface ≡ false = ground (arith, fit) in
      rw (found, mark, table, match-valid rule tight valid, usable.2, gateway, interface) refl

  planned_from-valid :
      (o : PolicyRoutePlanOptions) (by_node : Table EgressRouteTarget)
      (all : List EgressRouteTarget) (index : ℕ) (rules : List Rule)
      → ((s : Text) → is_none (net.parse_cidr s) ≡ false → trim_space s ≡ s)
      → IsUsable net o
      → Fits o.mark_base (index + length rules)
      → Entries (IsTarget net all) by_node
      → All
          (λ r.
            (validate net r ≡ ok tt)
            × (target : EgressRouteTarget) × (lookup (trim_space r.egress_node_id) by_node
                ≡ some target))
          rules
      → validate_rules net (planned_from o by_node index rules) ≡ ok tt
  unfolding validate_rules planned_from
  planned_from-valid o by_node all index [] tight usable fits targets h = refl
  planned_from-valid o by_node all index (rule ∷ rules) tight usable fits targets h =
      let (valid, target, found) = h.0 in
      let (source, there, fit, same, key) =
        lookup-Entries (IsTarget net all) (trim_space rule.egress_node_id) by_node targets found in
      let first =
        planned_rule-valid o by_node index rule source tight usable
          (plus-positive o.mark_base index (length rules) usable.0 fits) valid fit
          (found ∙ ap some same) in
      let rest =
        planned_from-valid o by_node all (suc index) rules tight usable
          (Fits-suc o.mark_base index (length rules) fits) targets h.1 in
      rw (first, rest) refl

  -- What a plan that is made comes from: usable options, a table of valid targets, valid rules.
  plan-parts :
      (rules : List Rule) (targets : List EgressRouteTarget) (options : PolicyRoutePlanOptions)
      (planned : List RouteRule)
      → plan_policy_route_rules net rules targets options ≡ ok planned
      → (o : PolicyRoutePlanOptions) × (by_node : Table EgressRouteTarget) × IsUsable net o
        × IsBased options o
        × Entries (IsTarget net targets) by_node
        × All
            (λ r.
              (validate net r ≡ ok tt)
              × (target : EgressRouteTarget) × (lookup (trim_space r.egress_node_id) by_node
                  ≡ some target))
            rules
        × (planned ≡ planned_from o by_node 0 (sort policy_before rules))
  unfolding plan_policy_route_rules egress_route_targets_by_node
  plan-parts rules targets options planned h =
      let made : Table EgressRouteTarget → PolicyRoutePlanOptions → List RouteRule =
        λ by_node o. planned_from o by_node 0 (sort policy_before rules) in
      let last : PolicyRoutePlanOptions
          → Table EgressRouteTarget
          → Outcome PlanError (List RouteRule) =
        λ o by_node. check_rules net by_node rules >> ok (made by_node o) in
      let second : PolicyRoutePlanOptions → Outcome PlanError (List RouteRule) =
        λ o. targets_into net [] targets >>= last o in
      let (o, h1, normal) = >>=-succeeded (normalize_options net options) second h in
      let (by_node, h2, table) = >>=-succeeded (targets_into net [] targets) (last o) h1 in
      let (checked, h3) = >>-succeeded (check_rules net by_node rules) (ok (made by_node o)) h2 in
      (
        o,
        by_node,
        normalize_options-IsUsable net options o normal,
        normalize_options-IsBased net options o normal,
        targets_into-Entries [] by_node targets targets (λ t m. m) tt table,
        check_rules-All by_node rules checked,
        ground (arith, h3),
      )

  -- A plan that is made, where ParseCIDR accepts no text with spaces around it, the base of the marks is
  -- an int64, and so are as many preferences as there are rules, from their base on: it passes the
  -- gateway's validation of its rules exactly where as many marks, from their base on, are int64
  -- values; the gateway sorts it to its own order; and it names the rules of the policy in the
  -- order in which the policy engine tries them.
  pub plan-IsOrdered :
      (rules : List Rule) (targets : List EgressRouteTarget) (options : PolicyRoutePlanOptions)
      (planned : List RouteRule)
      → ((s : Text) → is_none (net.parse_cidr s) ≡ false → trim_space s ≡ s)
      → Fits (base_of (pos 1000) options.mark_base) 1
      → Fits (base_of (pos 10000) options.preference_base) (length rules)
      → plan_policy_route_rules net rules targets options ≡ ok planned
      → ((validate_rules net planned ≡ ok tt)
          ↔ Fits (base_of (pos 1000) options.mark_base) (length rules))
        × (sorted_route_rules planned false ≡ planned)
        × (map RouteRule.name planned ≡ map (λ r. str "policy-" ++ r.id) (sort policy_before rules))
  unfolding sorted_route_rules
  plan-IsOrdered rules targets options planned tight base preferences h =
      let (o, by_node, usable, based, table, checked, made) =
        plan-parts rules targets options planned h in
      let ordered = sort policy_before rules in
      let all =
        All-of
          (λ r.
            (validate net r ≡ ok tt)
            × (target : EgressRouteTarget) × (lookup (trim_space r.egress_node_id) by_node
                ≡ some target))
          ordered (λ r m. All-In _ rules r checked (In-sort policy_before r rules m)) in
      let count = length-sort policy_before rules in
      let marked : Fits o.mark_base 1 = rw based.0 base in
      let in_order : Fits o.preference_base (length ordered) = rw (count, based.1) preferences in
      let judged : (validate_rules net (planned_from o by_node 0 ordered) ≡ ok tt)
          ↔ Fits o.mark_base (length ordered) =
        (
          planned-Fits net o by_node ordered usable.0 marked,
          λ fits.
              planned_from-valid o by_node targets 0 ordered tight usable
                (Fits-zero o.mark_base (length ordered) fits) table all,
        ) in
      rw (made, ← based.0, ← count)
        (
          judged,
          sort-planned o by_node 0 ordered usable.1
              (Fits-zero o.preference_base (length ordered) in_order),
          names-planned o by_node 0 ordered,
        )

  In-planned :
      (o : PolicyRoutePlanOptions) (by_node : Table EgressRouteTarget) (index : ℕ)
      (rules : List Rule) (rule : Rule)
      → In rule rules
      → (k : ℕ) × In (planned_rule o by_node k rule) (planned_from o by_node index rules)
  unfolding planned_from
  In-planned o by_node index [] rule m = elim m [ ]
  In-planned o by_node index (first ∷ rules) rule (inl e) =
      (index, inl (ap (planned_rule o by_node index) e))
  In-planned o by_node index (first ∷ rules) rule (inr m) =
      let (k, there) = In-planned o by_node (suc index) rules rule m in (k, inr there)

  -- In a plan that is made, each rule of the policy has a planned rule of its name, which goes through
  -- the table and the gateway of one of the targets, the one that the policy rule names as its
  -- egress node when the spaces around both names are left out.
  pub plan-routes :
      (rules : List Rule) (targets : List EgressRouteTarget) (options : PolicyRoutePlanOptions)
      (planned : List RouteRule) (rule : Rule)
      → plan_policy_route_rules net rules targets options ≡ ok planned
      → In rule rules
      → (source : EgressRouteTarget) × (p : RouteRule) × In source targets
        × In p planned
        × (p.name ≡ str "policy-" ++ rule.id)
        × (p.table ≡ source.table)
        × (p.gateway ≡ source.gateway)
        × (trim_space source.node_id ≡ trim_space rule.egress_node_id)
  unfolding planned_rule target_of trimmed
  plan-routes rules targets options planned rule h there =
      let (o, by_node, usable, based, table, checked, made) =
        plan-parts rules targets options planned h in
      let (valid, target, found) = All-In _ rules rule checked there in
      let (source, given, fit, same, key) =
        lookup-Entries (IsTarget net targets) (trim_space rule.egress_node_id) by_node table
          found in
      let ordered = sort policy_before rules in
      let (k, place) =
        In-planned o by_node 0 ordered rule (In-sort_of policy_before rule rules there) in
      let routed = ap target_of (found ∙ ap some same) in
      (
        source,
        planned_rule o by_node k rule,
        given,
        rw made place,
        refl,
        ap EgressRouteTarget.table routed,
        ap EgressRouteTarget.gateway routed,
        sym key,
      )
