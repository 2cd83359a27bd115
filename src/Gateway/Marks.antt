-- ===== src/Gateway/Marks.antt =====
-- The marks and preferences that internal/linuxgw/egress_plan.go counts from a base: int values, which
-- wrap above 2^63 - 1.
use anix_ops_sd_wan.Base.{
  ℕ, zero, suc, ◌+◌, ◌-◌, ◌≤◌, length, ℤ, pos, negsuc, pos_part, wrap_int, lebℤ, eqbℤ, ltb,
  Bool-cases, inl, inr, true, false, List, [], ◌∷◌, ◌≡◌, refl, ap, ◌∙◌, arith, if◌then◌else◌, ok,
  >>-succeeded,
}
use anix_ops_sd_wan.Base.Sorting.{sort, insert}
use anix_ops_sd_wan.Base.Table.{Table}
use anix_ops_sd_wan.Net.{Net}
use anix_ops_sd_wan.Policy.{Rule}
use anix_ops_sd_wan.Gateway.{validate_rule, validate_rules, rule_before}
use anix_ops_sd_wan.Gateway.Egress.{
  EgressRouteTarget, PolicyRoutePlanOptions, plus, normalize_options, planned_rule, planned_from,
}

-- options.MarkBase or options.PreferenceBase as a plan takes it: 0 stands for the default.
abbrev pub base_of : ℤ → ℤ → ℤ
base_of default base = if eqbℤ base (pos 0) then default else base

-- So many numbers from the base on are int64 values, the last of them at most 2^63 - 1.
abbrev pub Fits : ℤ → ℕ → Type 0
Fits base n = pos_part base + n ≤ 0x8000000000000000

abbrev pub IsBased : PolicyRoutePlanOptions → PolicyRoutePlanOptions → Type 0
IsBased options o =
    (o.mark_base ≡ base_of (pos 1000) options.mark_base)
    × (o.preference_base ≡ base_of (pos 10000) options.preference_base)

pub normalize_options-IsBased :
    (net : Net) (options o : PolicyRoutePlanOptions)
    → normalize_options net options ≡ ok o
    → IsBased options o
unfolding normalize_options
normalize_options-IsBased net options o h = ground (arith, h)

pub Fits-suc : (n : ℤ) (k left : ℕ) → Fits n (k + suc left) → Fits n (suc k + left)
Fits-suc n k left fits = ground arith

pub Fits-zero : (n : ℤ) (k : ℕ) → Fits n k → Fits n (0 + k)
Fits-zero n k fits = omega arith

-- A sum that fits does not wrap.
plus-Fits :
    (n : ℤ) (k left : ℕ)
    → lebℤ n (pos 0) ≡ false
    → Fits n (k + suc left)
    → plus n k ≡ pos (pos_part n + k)
unfolding plus wrap_int
plus-Fits (pos n) k left h fits = ground arith
plus-Fits (negsuc n) k left h fits = absurd (ground arith)

pub plus-positive :
    (n : ℤ) (k left : ℕ)
    → lebℤ n (pos 0) ≡ false
    → Fits n (k + suc left)
    → lebℤ (plus n k) (pos 0) ≡ false
plus-positive n k left h fits = rw (plus-Fits n k left h fits) (ground arith)

-- The first sum that does not fit is not positive.
plus-wraps :
    (n : ℤ) (k : ℕ)
    → lebℤ n (pos 0) ≡ false
    → pos_part n + k ≡ 0x8000000000000000
    → lebℤ (plus n k) (pos 0) ≡ true
unfolding plus wrap_int
plus-wraps (pos n) k h e = ground arith
plus-wraps (negsuc n) k h e = absurd (ground arith)

-- The rules of a plan in their order: the preference rises, so the gateway's order is the plan's.
insert-planned :
    (o : PolicyRoutePlanOptions) (by_node : Table EgressRouteTarget) (index : ℕ) (rule : Rule)
    (rules : List Rule)
    → lebℤ o.preference_base (pos 0) ≡ false
    → Fits o.preference_base (index + suc (length rules))
    → insert rule_before
        (planned_rule o by_node index rule)
        (planned_from o by_node (suc index) rules)
      ≡ planned_rule o by_node index rule ∷ planned_from o by_node (suc index) rules
unfolding planned_from planned_rule insert rule_before
insert-planned o by_node index rule [] h fits = refl
insert-planned o by_node index rule (next ∷ rules) h fits =
    let first = plus-Fits o.preference_base index (suc (length rules)) h fits in
    let second =
      plus-Fits o.preference_base (suc index) (length rules) h
        (Fits-suc o.preference_base index (suc (length rules)) fits) in
    rw (first, second) (ground arith)

pub sort-planned :
    (o : PolicyRoutePlanOptions) (by_node : Table EgressRouteTarget) (index : ℕ) (rules : List Rule)
    → lebℤ o.preference_base (pos 0) ≡ false
    → Fits o.preference_base (index + length rules)
    → sort rule_before (planned_from o by_node index rules) ≡ planned_from o by_node index rules
unfolding planned_from sort
sort-planned o by_node index [] h fits = refl
sort-planned o by_node index (rule ∷ rules) h fits =
    let rest = Fits-suc o.preference_base index (length rules) fits in
    ap (insert rule_before (planned_rule o by_node index rule))
      (sort-planned o by_node (suc index) rules h rest)
    ∙ insert-planned o by_node index rule rules h fits

module _ (net : Net) where
  -- In planned rules that pass the validation, the k-th mark is positive.
  marks-positive :
      (o : PolicyRoutePlanOptions) (by_node : Table EgressRouteTarget) (index k : ℕ)
      (rules : List Rule)
      → validate_rules net (planned_from o by_node index rules) ≡ ok tt
      → suc k ≤ length rules
      → lebℤ (plus o.mark_base (index + k)) (pos 0) ≡ false
  unfolding validate_rules validate_rule planned_from planned_rule
  marks-positive o by_node index k [] valid within = absurd (ground arith)
  marks-positive o by_node index zero (rule ∷ rules) valid within = ground (arith, valid)
  marks-positive o by_node index (suc k) (rule ∷ rules) valid within =
      let (first, rest) =
        >>-succeeded (validate_rule net (planned_rule o by_node index rule))
          (validate_rules net (planned_from o by_node (suc index) rules)) valid in
      let shift : suc index + k ≡ index + suc k = omega arith in
      rw (← shift) (marks-positive o by_node (suc index) k rules rest (ground arith))

  -- Planned rules that pass the validation have marks that fit: the first mark that wraps would be
  -- refused.
  pub planned-Fits :
      (o : PolicyRoutePlanOptions) (by_node : Table EgressRouteTarget) (rules : List Rule)
      → lebℤ o.mark_base (pos 0) ≡ false
      → Fits o.mark_base 1
      → validate_rules net (planned_from o by_node 0 rules) ≡ ok tt
      → Fits o.mark_base (length rules)
  planned-Fits o by_node rules usable base valid =
      let k = 0x8000000000000000 - pos_part o.mark_base in
      elim (Bool-cases (ltb 0x8000000000000000 (pos_part o.mark_base + length rules))) [
        | inl many ↦
            let wraps = plus-wraps o.mark_base k usable (ground arith) in
            let positive = marks-positive o by_node 0 k rules valid (ground arith) in
            absurd (ground (arith, wraps, positive))
        | inr few ↦ ground (arith, few)
      ]
