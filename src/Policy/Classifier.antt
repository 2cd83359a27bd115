-- ===== src/Policy/Classifier.antt =====
-- internal/policy/classifier.go: the traffic class of a request, and which rule gives it.
use anix_ops_sd_wan.Base.{
  ℤ, pos, eqbℤ, Text, ◌==◌, is_blank, Bool, true, false, not, ◌&&◌, ◌||◌, ◌≡◌, refl, ap, ◌∙◌, ◌⊎◌,
  inl, inr, Option, none, some, List, [], ◌∷◌, arith, if◌then◌else◌, Bool-cases, Option-cases, In,
  find_first, Outcome, ok, ◌>>◌, reject,
}
use anix_ops_sd_wan.Base.Sorting.{sort, IsOrder, find_first-sort, find_first-sort-none}
use anix_ops_sd_wan.Net.{Net}
use anix_ops_sd_wan.Policy.{
  TrafficClass, class_default, Request, PolicyError, id_required, class_required, no_condition,
  check_cidr, domain_matches, ip_matches, ranked,
}
use anix_ops_sd_wan.Policy.Routing.{ranked_asym, ranked_cotrans}

pub record ClassificationRule : Type 0 where
  pub id : Text
  pub priority : ℤ
  pub domain_suffix : Text
  pub ip_cidr : Text
  pub asn : ℤ
  pub class : TrafficClass

pub record Classifier : Type 0 where
  pub rules : List ClassificationRule

abbrev pub classification_before : ClassificationRule → ClassificationRule → Bool
classification_before a b = ranked a.priority a.id b.priority b.id

classification_before-IsOrder : IsOrder classification_before
classification_before-IsOrder = record {
  asym = λ a b. ranked_asym a.priority a.id b.priority b.id;
  cotrans = λ a b c. ranked_cotrans a.priority a.id b.priority b.id c.priority c.id;
}

module _ (net : Net) where
  unfoldable pub validate_classification : ClassificationRule → Outcome PolicyError (Unit {0})
  validate_classification r = do
    reject (is_blank r.id) id_required
    reject (r.class == []) class_required
    reject (r.domain_suffix == [] && r.ip_cidr == [] && eqbℤ r.asn (pos 0)) (no_condition r.id)
    check_cidr net r.ip_cidr r.id

  unfoldable pub validate_classifications : List ClassificationRule → Outcome PolicyError (Unit {0})
  validate_classifications [] = ok tt
  validate_classifications (r ∷ rs) =
      let rest = validate_classifications rs in do validate_classification r; rest

  unfoldable pub new_classifier : List ClassificationRule → Outcome PolicyError Classifier
  new_classifier rules = do
    validate_classifications rules
    ok (record { rules = sort classification_before rules })

  unfoldable pub classification_rule_matches : ClassificationRule → Request → Bool
  classification_rule_matches rule request =
      let by_domain = not (rule.domain_suffix == []) in
      let by_ip = not (rule.ip_cidr == []) in
      let by_asn = not (eqbℤ rule.asn (pos 0)) in
      if by_domain && not (domain_matches net request.domain rule.domain_suffix)
      then false
      else if by_ip && not (ip_matches net request.ip rule.ip_cidr)
      then false
      else if by_asn && not (eqbℤ request.asn rule.asn)
      then false
      else by_domain || by_ip || by_asn

  classify_rules : List ClassificationRule → Request → TrafficClass
  classify_rules [] request = class_default
  classify_rules (rule ∷ rules) request =
      let rest = classify_rules rules request in
      if classification_rule_matches rule request then rule.class else rest

  unfoldable pub classify : Classifier → Request → TrafficClass
  unfolding classify_rules
  classify c request =
      if not (request.class == []) then request.class else classify_rules c.rules request

  abbrev pub matching : Request → ClassificationRule → Bool
  matching request rule = classification_rule_matches rule request

  abbrev class_of : Option ClassificationRule → TrafficClass
  class_of none = class_default
  class_of (some rule) = rule.class

  classify_rules-find_first :
      (rules : List ClassificationRule) (request : Request)
      → classify_rules rules request ≡ class_of (find_first (matching request) rules)
  unfolding classify_rules find_first
  classify_rules-find_first [] request = refl
  classify_rules-find_first (rule ∷ rules) request =
      ground (arith, classify_rules-find_first rules request)

  new_classifier-rules :
      (rules : List ClassificationRule) (c : Classifier)
      → new_classifier rules ≡ ok c
      → c ≡ record { rules = sort classification_before rules }
  unfolding new_classifier
  new_classifier-rules rules c h = ground arith

  -- A matching rule of the list that no other matching rule precedes gives the class, or no rule
  -- of the list matches and the class is the default.
  abbrev pub IsBestClass : List ClassificationRule → Request → TrafficClass → Type 0
  IsBestClass rules request class =
      ((rule : ClassificationRule) × In rule rules
        × (matching request rule ≡ true)
        × ((other : ClassificationRule)
            → In other rules
            → matching request other ≡ true
            → classification_before other rule ≡ false)
        × (class ≡ rule.class))
      ⊎ (((rule : ClassificationRule) → In rule rules → matching request rule ≡ false)
          × (class ≡ class_default))

  -- Where a request names no class, it has the class of a rule of the list that matches it and that
  -- no other matching rule precedes by priority and ID, or the default class if none matches. Where
  -- it names one, it keeps it.
  pub classify_best :
      (rules : List ClassificationRule) (c : Classifier) (request : Request)
      → new_classifier rules ≡ ok c
      → (((request.class == []) ≡ false) × (classify c request ≡ request.class))
        ⊎ (((request.class == []) ≡ true) × IsBestClass rules request (classify c request))
  unfolding classify
  classify_best rules c request h =
      let found = find_first (matching request) (sort classification_before rules) in
      let value : classify_rules c.rules request ≡ class_of found =
        rw (new_classifier-rules rules c h)
          (classify_rules-find_first (sort classification_before rules) request) in
      elim (Bool-cases (request.class == [])) [
        | inr named ↦ inl (named, rw named)
        | inl plain ↦ elim (Option-cases found) [
          | inl miss ↦ inr (
            plain,
            inr (
              λ rule m.
                  find_first-sort-none classification_before (matching request) rules rule miss m,
              rw plain (value ∙ ap class_of miss),
            ),
          )
          | inr (rule, hit) ↦
              let (m, t, best) =
                find_first-sort classification_before classification_before-IsOrder
                  (matching request) rules hit in
              inr (plain, inl (rule, m, t, best, rw plain (value ∙ ap class_of hit)))
        ]
      ]
