-- ===== src/Policy/Matching.antt =====
-- ruleMatches of internal/policy/policy.go against its conditions, one by one.
use anix_ops_sd_wan.Base.{pos, eqbℤ, ◌==◌, true, false, ◌≡◌, ◌↔◌, ◌⊎◌, [], arith}
use anix_ops_sd_wan.Net.{Net}
use anix_ops_sd_wan.Policy.{Rule, Request, domain_matches, ip_matches, rule_matches}

module _ (net : Net) (rule : Rule) (request : Request) where
  -- Every condition that the rule sets holds of the request.
  pub record Meets : Type 0 where
    pub by_domain :
        ((rule.domain_suffix == []) ≡ true)
        ⊎ (domain_matches net request.domain rule.domain_suffix ≡ true)
    pub by_ip : ((rule.ip_cidr == []) ≡ true) ⊎ (ip_matches net request.ip rule.ip_cidr ≡ true)
    pub by_asn : (eqbℤ rule.asn (pos 0) ≡ true) ⊎ (eqbℤ request.asn rule.asn ≡ true)
    pub by_class : ((rule.class == []) ≡ true) ⊎ ((request.class == rule.class) ≡ true)

  -- The rule sets a condition.
  abbrev pub HasCondition : Type 0
  HasCondition =
      ((rule.domain_suffix == []) ≡ false)
      ⊎ ((rule.ip_cidr == []) ≡ false)
      ⊎ (eqbℤ rule.asn (pos 0) ≡ false)
      ⊎ ((rule.class == []) ≡ false)

  -- A rule matches a request exactly when it sets a condition and the request meets every one set.
  pub rule_matches_iff : (rule_matches net rule request ≡ true) ↔ (HasCondition × Meets)
  unfolding rule_matches
  rule_matches_iff = ground arith
