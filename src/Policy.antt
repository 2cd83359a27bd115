-- ===== src/Policy.antt =====
-- internal/policy: the rules, requests and decisions, and when a rule matches (policy.go).
pub mod Classifier
pub mod Bundle
pub mod Domain
pub mod Matching
pub mod Routing
pub mod Classes
pub mod Merging
mod Tests
use anix_ops_sd_wan.Base.{
  ℤ, pos, ltbℤ, eqbℤ, Text, str, ◌==◌, less_text, is_blank, trim_space, trim_suffix, has_suffix,
  Bool, true, false, not, ◌&&◌, ◌||◌, Option, none, some, List, [], ◌∷◌, ◌++◌, if◌then◌else◌,
  Outcome, ok, err, ◌>>=◌, ◌>>◌, reject,
}
use anix_ops_sd_wan.Base.Sorting.{sort}
use anix_ops_sd_wan.Net.{Net, to_lower}

-- TrafficClass is a string in the source, and a request may name any.
abbrev pub TrafficClass : Type 0
TrafficClass = Text

abbrev pub class_ai : TrafficClass
class_ai = str "ai"

abbrev pub class_video : TrafficClass
class_video = str "video"

abbrev pub class_enterprise : TrafficClass
class_enterprise = str "enterprise"

abbrev pub class_domestic : TrafficClass
class_domestic = str "domestic"

abbrev pub class_default : TrafficClass
class_default = str "default"

pub record Rule : Type 0 where
  pub id : Text
  pub tenant_id : Text
  pub priority : ℤ
  pub domain_suffix : Text
  pub ip_cidr : Text
  pub asn : ℤ
  pub class : TrafficClass
  pub egress_node_id : Text

pub data PolicyError : Type 0 where
  id_required tenant_required egress_required class_required : PolicyError
  no_condition invalid_cidr : Text → PolicyError
  class_egress_required : TrafficClass → PolicyError

pub record Request : Type 0 where
  pub tenant_id : Text
  pub domain : Text
  pub ip : Text
  pub asn : ℤ
  pub class : TrafficClass

pub record Decision : Type 0 where
  pub matched : Bool
  pub rule_id : Text
  pub egress_node_id : Text
  pub class : TrafficClass

abbrev pub no_decision : Decision
no_decision = record { matched = false; rule_id = []; egress_node_id = []; class = [] }

pub record Engine : Type 0 where
  pub rules : List Rule

-- The comparison of all the sorts by priority: the higher priority first, then the smaller ID.
unfoldable pub ranked : ℤ → Text → ℤ → Text → Bool
ranked p i q j = if eqbℤ p q then less_text i j else ltbℤ q p

abbrev pub rule_before : Rule → Rule → Bool
rule_before a b = ranked a.priority a.id b.priority b.id

-- The decision for a rule that matched.
unfoldable pub decide : Rule → Request → Decision
decide rule request = record {
  matched = true;
  rule_id = rule.id;
  egress_node_id = rule.egress_node_id;
  class = if request.class == [] then rule.class else request.class;
}

module _ (net : Net) where
  open net use {parse_ip, parse_cidr, contains}

  unfoldable pub cidr_error : Option net.Network → Text → Outcome PolicyError (Unit {0})
  cidr_error none id = err (invalid_cidr id)
  cidr_error (some n) id = ok tt

  -- if cidr != "" { if _, _, err := net.ParseCIDR(cidr); err != nil { return err } }
  unfoldable pub check_cidr : Text → Text → Outcome PolicyError (Unit {0})
  unfolding cidr_error
  check_cidr cidr id = if cidr == [] then ok tt else cidr_error (parse_cidr cidr) id

  unfoldable pub validate : Rule → Outcome PolicyError (Unit {0})
  unfolding check_cidr
  validate r = do
    reject (is_blank r.id) id_required
    reject (is_blank r.tenant_id) tenant_required
    reject (is_blank r.egress_node_id) egress_required
    reject (r.domain_suffix == [] && r.ip_cidr == [] && eqbℤ r.asn (pos 0) && r.class == [])
        (no_condition r.id)
    check_cidr r.ip_cidr r.id

  -- for _, rule := range rules { if err := rule.Validate(); err != nil { return err } }
  unfoldable pub validate_all : List Rule → Outcome PolicyError (Unit {0})
  validate_all [] = ok tt
  validate_all (r ∷ rs) = let rest = validate_all rs in do validate r; rest

  unfoldable pub new_engine : List Rule → Outcome PolicyError Engine
  new_engine rules = do validate_all rules; ok (record { rules = sort rule_before rules })

  -- A domain or suffix without its spaces, its upper case and its last dot.
  unfoldable pub normal_domain : Text → Text
  normal_domain s = trim_suffix (to_lower net (trim_space s)) (str ".")

  unfoldable pub domain_matches : Text → Text → Bool
  domain_matches domain suffix =
      let d = normal_domain domain in
      let s = normal_domain suffix in
      if d == [] || s == [] then false else d == s || has_suffix d (str "." ++ s)

  contains_parsed : Option net.Ip → Option net.Network → Bool
  contains_parsed none network = false
  contains_parsed (some ip) none = false
  contains_parsed (some ip) (some network) = contains network ip

  unfoldable pub ip_matches : Text → Text → Bool
  unfolding contains_parsed
  ip_matches ip cidr = contains_parsed (parse_ip ip) (parse_cidr cidr)

  unfoldable pub rule_matches : Rule → Request → Bool
  rule_matches rule request =
      let by_domain = not (rule.domain_suffix == []) in
      let by_ip = not (rule.ip_cidr == []) in
      let by_asn = not (eqbℤ rule.asn (pos 0)) in
      let by_class = not (rule.class == []) in
      if by_domain && not (domain_matches request.domain rule.domain_suffix)
      then false
      else if by_ip && not (ip_matches request.ip rule.ip_cidr)
      then false
      else if by_asn && not (eqbℤ request.asn rule.asn)
      then false
      else if by_class && not (request.class == rule.class)
      then false
      else by_domain || by_ip || by_asn || by_class

  evaluate_rules : List Rule → Request → Decision
  evaluate_rules [] request = no_decision
  evaluate_rules (rule ∷ rules) request =
      let rest = evaluate_rules rules request in
      if not (rule.tenant_id == request.tenant_id)
      then rest
      else if rule_matches rule request
      then decide rule request
      else rest

  unfoldable pub evaluate : Engine → Request → Decision
  unfolding evaluate_rules
  evaluate e request = evaluate_rules e.rules request
