-- ===== src/Policy/Bundle.antt =====
-- internal/policy/bundle.go: the built-in rule of each traffic class, and updates over a base.
use anix_ops_sd_wan.Base.{
  ℤ, pos, Text, str, ◌==◌, is_blank, trim_space, none, some, List, [], ◌∷◌, ◌++◌, if◌then◌else◌,
  Outcome, ok, err, ◌>>=◌, ◌>>◌, reject,
}
use anix_ops_sd_wan.Base.Sorting.{sort}
use anix_ops_sd_wan.Base.Table.{Table, lookup, put, values}
use anix_ops_sd_wan.Net.{Net}
use anix_ops_sd_wan.Policy.{
  TrafficClass, class_ai, class_enterprise, class_video, class_domestic, class_default, Rule,
  PolicyError, tenant_required, class_egress_required, rule_before, validate,
}

-- defaultClassPriorities[class]
unfoldable pub class_priority : TrafficClass → ℤ
class_priority class =
    if class == class_ai
    then pos 900
    else if class == class_enterprise
    then pos 800
    else if class == class_video
    then pos 700
    else if class == class_domestic
    then pos 600
    else if class == class_default
    then pos 100
    else pos 0

abbrev pub required_classes : List TrafficClass
required_classes = class_ai ∷ class_enterprise ∷ class_video ∷ class_domestic ∷ class_default ∷ []

-- m[k] of a map of strings, "" where the key is missing
unfoldable pub text_at : Text → Table Text → Text
text_at k m = elim (lookup k m) [ none ↦ [] | some v ↦ v ]

unfoldable pub class_rule : Text → TrafficClass → Text → Rule
class_rule tenant_id class egress = record {
  id = str "builtin-" ++ class;
  tenant_id = tenant_id;
  priority = class_priority class;
  domain_suffix = [];
  ip_cidr = [];
  asn = pos 0;
  class = class;
  egress_node_id = egress;
}

module _ (net : Net) where
  unfoldable pub class_rules :
      Text → Table Text → List TrafficClass → Outcome PolicyError (List Rule)
  class_rules tenant_id egress_by_class [] = ok []
  class_rules tenant_id egress_by_class (class ∷ classes) =
      let rest = class_rules tenant_id egress_by_class classes in
      let egress = trim_space (text_at class egress_by_class) in
      let rule = class_rule tenant_id class egress in
      if egress == []
      then err (class_egress_required class)
      else do validate net rule; rules ← rest; ok (rule ∷ rules)

  unfoldable pub default_class_rules : Text → Table Text → Outcome PolicyError (List Rule)
  default_class_rules tenant_id egress_by_class = do
    reject (is_blank tenant_id) tenant_required
    class_rules tenant_id egress_by_class required_classes

  -- for _, rule := range rules { validate; merged[rule.ID] = rule }
  unfoldable pub merge_into : Table Rule → List Rule → Outcome PolicyError (Table Rule)
  merge_into merged [] = ok merged
  merge_into merged (rule ∷ rules) =
      let rest = merge_into (put rule.id rule merged) rules in do validate net rule; rest

  unfoldable pub merge_rules : List Rule → List Rule → Outcome PolicyError (List Rule)
  merge_rules base updates = do
    first ← merge_into [] base
    merged ← merge_into first updates
    ok (sort rule_before (values merged))
