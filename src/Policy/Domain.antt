-- ===== src/Policy/Domain.antt =====
-- domainMatches of internal/policy/policy.go: a suffix stands for its domain and all below it.
use anix_ops_sd_wan.Base.{
  Text, str, eq_iff, has_suffix, has_suffix_iff, true, ◌≡◌, ◌≢◌, ◌↔◌, ◌⊎◌, inl, inr, ◌++◌, [],
  arith,
}
use anix_ops_sd_wan.Net.{Net}
use anix_ops_sd_wan.Policy.{normal_domain, domain_matches}

module _ (net : Net) (domain suffix : Text) where
  abbrev pub name : Text
  name = normal_domain net domain

  abbrev pub zone : Text
  zone = normal_domain net suffix

  domain_matches_tests :
      (domain_matches net domain suffix ≡ true)
      ↔ ((name ≢ []) × (zone ≢ []) × ((name ≡ zone) ⊎ (has_suffix name (str "." ++ zone) ≡ true)))
  unfolding domain_matches
  domain_matches_tests = ground (arith, eq_iff name [], eq_iff zone [], eq_iff name zone)

  -- Once spaces, upper case and the last dot are gone, a domain matches a suffix exactly when
  -- neither is empty and the domain is the suffix or ends in a dot and the suffix: a suffix never
  -- matches inside a label.
  pub domain_matches_iff : (domain_matches net domain suffix ≡ true) ↔ (
      (name ≢ [])
      × (zone ≢ [])
      × ((name ≡ zone) ⊎ ((sub : Text) × (name ≡ sub ++ (str "." ++ zone)))))
  domain_matches_iff =
      let (split, join) = has_suffix_iff name (str "." ++ zone) in
      let (to, from) = domain_matches_tests in
      (
        (λ h. let (n, z, t) = to h in (n, z, cases split t)),
        (λ (n, z, t). from (n, z, cases join t)),
      )
    where
      cases : {P Q R : Type 0} → (Q → R) → P ⊎ Q → P ⊎ R
      cases f (inl a) = inl a
      cases f (inr b) = inr (f b)
