-- ===== src/Policy/Classes.antt =====
-- DefaultClassRules of internal/policy/bundle.go, run through the engine.
use anix_ops_sd_wan.Base.{
  ℤ, Text, str, ◌==◌, eq_refl, trim_space, true, ◌≡◌, refl, inl, inr, List, [], ◌∷◌, ◌++◌, arith,
  In, Outcome-cases, ok,
}
use anix_ops_sd_wan.Base.Sorting.{sort}
use anix_ops_sd_wan.Base.Table.{Table}
use anix_ops_sd_wan.Net.{Net}
use anix_ops_sd_wan.Policy.{
  TrafficClass, Rule, Request, Decision, Engine, ranked, rule_before, new_engine, rule_matches,
  decide, evaluate_rules, evaluate,
}
use anix_ops_sd_wan.Policy.Bundle.{
  class_priority, class_rule, text_at, required_classes, class_rules, default_class_rules,
}
use anix_ops_sd_wan.Policy.Routing.{new_engine-rules}

abbrev egress_of : Table Text → TrafficClass → Text
egress_of m class = trim_space (text_at class m)

abbrev built_in : Text → Table Text → List TrafficClass → List Rule
built_in tenant m [] = []
built_in tenant m (c ∷ cs) = class_rule tenant c (egress_of m c) ∷ built_in tenant m cs

class_rules-built_in :
    (net : Net) (tenant : Text) (m : Table Text) (classes : List TrafficClass) (rules : List Rule)
    → class_rules net tenant m classes ≡ ok rules
    → rules ≡ built_in tenant m classes
unfolding class_rules
class_rules-built_in net tenant m [] rules h = ground arith
class_rules-built_in net tenant m (c ∷ cs) rules h =
    elim (Outcome-cases (class_rules net tenant m cs)) [
      | inl (rest, e) ↦ ground (arith, e, class_rules-built_in net tenant m cs rest e)
      | inr (error, e) ↦ ground (arith, e)
    ]

sort-built_in :
    (tenant : Text) (m : Table Text)
    → sort rule_before (built_in tenant m required_classes) ≡ built_in tenant m required_classes
unfolding sort ranked class_rule class_priority ◌==◌
sort-built_in tenant m = refl

-- What the rule of a class decides for a request of that class.
abbrev pub routed : Table Text → TrafficClass → Decision
routed m class = record {
  matched = true;
  rule_id = str "builtin-" ++ class;
  egress_node_id = egress_of m class;
  class = class;
}

module _ (net : Net) (m : Table Text) (tenant domain ip : Text) (asn : ℤ) where
  abbrev pub asking : TrafficClass → Request
  asking class = record { tenant_id = tenant; domain = domain; ip = ip; asn = asn; class = class }

  evaluate-built_in :
      (class : TrafficClass)
      → In class required_classes
      → evaluate_rules net (built_in tenant m required_classes) (asking class) ≡ routed m class
  unfolding evaluate_rules rule_matches decide class_rule class_priority ◌==◌
  evaluate-built_in class (inl e) = rw e (simp eq_refl)
  evaluate-built_in class (inr (inl e)) = rw e (simp eq_refl)
  evaluate-built_in class (inr (inr (inl e))) = rw e (simp eq_refl)
  evaluate-built_in class (inr (inr (inr (inl e)))) = rw e (simp eq_refl)
  evaluate-built_in class (inr (inr (inr (inr (inl e))))) = rw e (simp eq_refl)
  evaluate-built_in class (inr (inr (inr (inr (inr e))))) = elim e [ ]

  -- An engine built from the default rules of a tenant sends a request of the tenant for any of the
  -- five classes to the egress node configured for that class (without its spaces), by the built-in
  -- rule of the class and whatever the request's domain, address and ASN.
  pub default_class_routing :
      (rules : List Rule) (e : Engine)
      → default_class_rules net tenant m ≡ ok rules
      → new_engine net rules ≡ ok e
      → (class : TrafficClass) → In class required_classes
      → evaluate net e (asking class) ≡ routed m class
  unfolding default_class_rules evaluate
  default_class_routing rules e made built class i =
      let listed = class_rules-built_in net tenant m required_classes rules (ground arith) in
      rw (new_engine-rules net rules e built, listed, sort-built_in tenant m)
        (evaluate-built_in class i)
