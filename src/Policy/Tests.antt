-- ===== src/Policy/Tests.antt =====
-- Runs of internal/policy on concrete rules, and the theorems at concrete inputs.
use anix_ops_sd_wan.Base.{
  ℤ, pos, Text, str, ◌==◌, trim_space, trim_suffix, has_suffix, false, ◌≡◌, refl, inl, inr, List,
  [], ◌∷◌, ◌++◌, In, ok,
}
use anix_ops_sd_wan.Base.Sorting.{sort}
use anix_ops_sd_wan.Base.Table.{Table, lookup, put}
use anix_ops_sd_wan.Net.Samples.{plain_net}
use anix_ops_sd_wan.Net.{to_lower}
use anix_ops_sd_wan.Policy.{
  class_video, class_default, Rule, Request, Engine, ranked, check_cidr, validate, validate_all,
  new_engine, normal_domain, domain_matches, rule_matches, decide, evaluate,
}
use anix_ops_sd_wan.Policy.Classifier.{
  ClassificationRule, Classifier, validate_classification, validate_classifications, new_classifier,
}
use anix_ops_sd_wan.Policy.Bundle.{
  default_class_rules, class_rules, class_rule, class_priority, text_at, merge_into, merge_rules,
}
use anix_ops_sd_wan.Policy.Routing.{IsBestDecision, evaluate_best}
use anix_ops_sd_wan.Policy.Classes.{default_class_routing, asking, routed}
use anix_ops_sd_wan.Policy.Merging.{IsUnion, merge_rules-IsUnion}

-- Addresses as texts, networks as their prefixes, and the ASCII lower case.
abbrev rule_named : Text → ℤ → Text → Text → Rule
rule_named id priority suffix egress = record {
  id = id;
  tenant_id = str "t1";
  priority = priority;
  domain_suffix = suffix;
  ip_cidr = [];
  asn = pos 0;
  class = [];
  egress_node_id = egress;
}

abbrev rules_wide : Rule
rules_wide = rule_named (str "wide") (pos 10) (str "com") (str "hk")

abbrev rules_narrow : Rule
rules_narrow = rule_named (str "narrow") (pos 20) (str "Example.com.") (str "us")

abbrev request_to : Text → Request
request_to domain = record {
  tenant_id = str "t1";
  domain = domain;
  ip = [];
  asn = pos 0;
  class = [];
}

abbrev two_rules : List Rule
two_rules = rules_wide ∷ rules_narrow ∷ []

abbrev engine_of_two : Engine
engine_of_two = record { rules = rules_narrow ∷ rules_wide ∷ [] }

two_rules-new_engine : new_engine plain_net two_rules ≡ ok engine_of_two
unfolding new_engine validate_all validate check_cidr sort ranked ◌==◌ trim_space
two_rules-new_engine = refl

evaluate_narrow :
    evaluate plain_net engine_of_two (request_to (str " api.EXAMPLE.com"))
    ≡ decide rules_narrow (request_to (str " api.EXAMPLE.com"))
unfolding evaluate rule_matches domain_matches normal_domain to_lower decide ◌==◌ trim_space
    trim_suffix has_suffix
evaluate_narrow = refl

domain_inside_label : domain_matches plain_net (str "badexample.com") (str "example.com") ≡ false
unfolding domain_matches normal_domain to_lower ◌==◌ trim_space trim_suffix has_suffix
domain_inside_label = refl

evaluate_best_example :
    IsBestDecision plain_net two_rules
      (request_to (str "api.example.com"))
      (evaluate plain_net engine_of_two (request_to (str "api.example.com")))
evaluate_best_example =
    evaluate_best plain_net two_rules engine_of_two (request_to (str "api.example.com"))
      two_rules-new_engine

abbrev two_rules_back : List Rule
two_rules_back = rules_narrow ∷ rules_wide ∷ []

two_rules-distinct : (a b : Rule) → In a two_rules → In b two_rules → a.id ≡ b.id → a ≡ b
two_rules-distinct a b (inl e) (inl f) h = cc
two_rules-distinct a b (inl e) (inr (inl f)) h = cc
two_rules-distinct a b (inr (inl e)) (inl f) h = cc
two_rules-distinct a b (inr (inl e)) (inr (inl f)) h = cc
two_rules-distinct a b (inr (inr e)) m h = elim e [ ]
two_rules-distinct a b (inl e) (inr (inr f)) h = elim f [ ]
two_rules-distinct a b (inr (inl e)) (inr (inr f)) h = elim f [ ]

abbrev video_rule : ClassificationRule
video_rule = record {
  id = str "video";
  priority = pos 1;
  domain_suffix = str "tube.com";
  ip_cidr = [];
  asn = pos 0;
  class = class_video;
}

abbrev video_classifier : Classifier
video_classifier = record { rules = video_rule ∷ [] }

video-new_classifier : new_classifier plain_net (video_rule ∷ []) ≡ ok video_classifier
unfolding new_classifier validate_classifications validate_classification check_cidr sort ◌==◌
    trim_space
video-new_classifier = refl

abbrev class_egress : Table Text
class_egress =
    (str "ai", str "us1")
    ∷ (str "enterprise", str "hk1")
    ∷ (str "video", str "jp1")
    ∷ (str "domestic", str "cn1")
    ∷ (str "default", str " hk2 ")
    ∷ []

abbrev built_in_rule : Text → ℤ → Text → Rule
built_in_rule class priority egress = record {
  id = str "builtin-" ++ class;
  tenant_id = str "t1";
  priority = priority;
  domain_suffix = [];
  ip_cidr = [];
  asn = pos 0;
  class = class;
  egress_node_id = egress;
}

abbrev built_in_rules : List Rule
built_in_rules =
    built_in_rule (str "ai") (pos 900) (str "us1")
    ∷ built_in_rule (str "enterprise") (pos 800) (str "hk1")
    ∷ built_in_rule (str "video") (pos 700) (str "jp1")
    ∷ built_in_rule (str "domestic") (pos 600) (str "cn1")
    ∷ built_in_rule (str "default") (pos 100) (str "hk2")
    ∷ []

default_rules_made : default_class_rules plain_net (str "t1") class_egress ≡ ok built_in_rules
unfolding default_class_rules class_rules class_rule class_priority text_at lookup validate
    check_cidr ◌==◌ trim_space
default_rules_made = refl

default_rules_built : new_engine plain_net built_in_rules ≡ ok (record { rules = built_in_rules })
unfolding new_engine validate_all validate check_cidr sort ranked ◌==◌ trim_space
default_rules_built = refl

default_class_routing_example :
    evaluate plain_net
      (record { rules = built_in_rules })
      (asking plain_net class_egress (str "t1") (str "x.org") [] (pos 7) class_default)
    ≡ routed class_egress class_default
default_class_routing_example =
    default_class_routing plain_net class_egress (str "t1") (str "x.org") [] (pos 7) built_in_rules
      (record { rules = built_in_rules }) default_rules_made default_rules_built class_default
      (inr (inr (inr (inr (inl refl)))))

abbrev moved_rule : Rule
moved_rule = rule_named (str "wide") (pos 30) (str "com") (str "sg")

merge_rules_run :
    merge_rules plain_net two_rules (moved_rule ∷ []) ≡ ok (moved_rule ∷ rules_narrow ∷ [])
unfolding merge_rules merge_into put validate check_cidr sort ranked ◌==◌ trim_space
merge_rules_run = refl

merge_rules-IsUnion_example : IsUnion two_rules (moved_rule ∷ []) (moved_rule ∷ rules_narrow ∷ [])
merge_rules-IsUnion_example =
    merge_rules-IsUnion plain_net two_rules (moved_rule ∷ []) (moved_rule ∷ rules_narrow ∷ [])
      merge_rules_run
