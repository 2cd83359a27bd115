-- ===== src/Contract/Checks.antt =====
-- Validate of the selectors, routes and profiles of internal/controlcontract/profile.go.
use anix_ops_sd_wan.Base.{
  ℕ, pos, eqbℤ, ltb, leb, eqb, Text, str, ◌==◌, is_blank, trim_space, trim_suffix, has_prefix,
  has_suffix, contains_any, split, Bool, true, false, not, ◌&&◌, ◌||◌, Option, none, some, List, [],
  ◌∷◌, if◌then◌else◌, Outcome, ok, err, ◌>>=◌, ◌>>◌, reject,
}
use anix_ops_sd_wan.Net.{Net, to_lower}
use anix_ops_sd_wan.Contract.{
  MitmProfile, ClientProfile, PortRange, RouteSelector, RoutePolicy, PopProfile, Profile,
  ProfileError, required, unsupported, invalid, forbidden, missing, must, schema_version_v1,
  kind_client, kind_pop, transport_ikev2, protocol_tcp, protocol_udp, Hosts, validate_identifier,
  check_distinct, validate_pop_reference, validate_chain, is_empty,
}

is_label_rune : ℕ → Bool
is_label_rune c = (leb 97 c && leb c 122) || (leb 48 c && leb c 57) || eqb c 45

are_label_runes : Text → Bool
are_label_runes [] = true
are_label_runes (c ∷ s) = is_label_rune c && are_label_runes s

unfoldable pub is_label : Text → Bool
unfolding are_label_runes is_label_rune
is_label label =
    not (label == [] || has_prefix label (str "-") || has_suffix label (str "-"))
    && are_label_runes label

unfoldable pub are_labels : List Text → Bool
are_labels [] = true
are_labels (label ∷ labels) = is_label label && are_labels labels

unfoldable pub validate_ports : RouteSelector → Option PortRange → Outcome ProfileError (Unit {0})
validate_ports s none = ok tt
validate_ports s (some p) = do
  reject (not (s.protocol == protocol_tcp) && not (s.protocol == protocol_udp))
      (must (str "ports require TCP or UDP"))
  reject (eqb p.start 0 || eqb p.end 0 || ltb p.end p.start) (invalid (str "port range"))

abbrev pub is_absent : Option PortRange → Bool
is_absent none = true
is_absent (some p) = false

module _ (net : Net) where
  open net use {parse_cidr}

  normal_suffix : Text → Text
  normal_suffix value = trim_suffix (to_lower net (trim_space value)) (str ".")

  unfoldable pub normalize_domain_suffix : Text → Outcome ProfileError Text
  unfolding normal_suffix
  normalize_domain_suffix value =
      let normalized = normal_suffix value in
      do
        reject (normalized == []) (required (str "domain"))
        reject (has_prefix normalized (str ".") || contains_any normalized (str "/:@*"))
            (invalid normalized)
        reject (not (are_labels (split 46 normalized))) (invalid normalized)
        ok normalized

  bad_cidr : Text → Option net.Network → Outcome ProfileError (Unit {0})
  bad_cidr cidr none = err (invalid cidr)
  bad_cidr cidr (some n) = ok tt

  unfoldable check_cidr : Text → Outcome ProfileError (Unit {0})
  unfolding bad_cidr
  check_cidr cidr = if is_blank cidr then ok tt else bad_cidr cidr (parse_cidr cidr)

  check_suffix : Text → Outcome ProfileError (Unit {0})
  check_suffix suffix =
      if is_blank suffix then ok tt else (normalize_domain_suffix suffix >>= λ normalized. ok tt)

  unfoldable pub validate_selector : RouteSelector → Outcome ProfileError (Unit {0})
  unfolding check_cidr check_suffix
  validate_selector s = do
    check_cidr s.source_cidr
    check_cidr s.destination_cidr
    check_suffix s.domain_suffix
    if is_blank s.traffic_class
        then ok tt
        else validate_identifier (str "traffic class") s.traffic_class
    reject
        (not (s.protocol == [])
          && not (s.protocol == protocol_tcp)
          && not (s.protocol == protocol_udp))
        (unsupported s.protocol)
    validate_ports s s.ports
    reject
        (is_blank s.source_cidr
          && is_blank s.destination_cidr
          && is_blank s.domain_suffix
          && is_blank s.traffic_class
          && s.protocol == []
          && is_absent s.ports)
        (missing (str "match"))

  unfoldable pub validate_route : RoutePolicy → Outcome ProfileError Text
  validate_route r = do
    validate_identifier (str "route id") r.id
    reject r.direct_fallback (forbidden (str "direct fallback"))
    validate_selector r.selector
    validate_chain r.chain
    ok (trim_space r.id)

  unfoldable pub validate_pop : PopProfile → Outcome ProfileError (Unit {0})
  validate_pop p = do
    validate_identifier (str "POP profile id") p.id
    validate_identifier (str "POP principal id") p.principal_id
    reject (is_empty p.routes) (missing (str "route"))
    check_distinct validate_route (str "POP route id") [] p.routes

  unfoldable pub validate_mitm : MitmProfile → Outcome ProfileError (Unit {0})
  validate_mitm p = do
    reject (is_empty p.allowed_domain_suffixes) (missing (str "allowlisted domain"))
    check_distinct normalize_domain_suffix (str "MITM allowlisted domain") []
        p.allowed_domain_suffixes
    reject (not p.require_consent) (must (str "require consent"))
    reject (not p.block_quic) (must (str "block QUIC"))
    reject (not p.block_pinned_tls) (must (str "block pinned TLS"))
    reject (not (eqbℤ p.metadata_retention_days (pos 7))) (must (str "retain 7 days"))

  check_mitm : Option MitmProfile → Outcome ProfileError (Unit {0})
  check_mitm none = ok tt
  check_mitm (some p) = validate_mitm p

  module _ (hosts : Hosts) where
    unfoldable pub validate_client : ClientProfile → Outcome ProfileError (Unit {0})
    unfolding check_mitm
    validate_client p = do
      validate_identifier (str "client profile id") p.id
      validate_identifier (str "client principal id") p.principal_id
      reject (not (p.transport == transport_ikev2)) (unsupported p.transport)
      reject (is_empty p.pops) (missing (str "POP"))
      check_distinct (validate_pop_reference hosts) (str "client POP id") [] p.pops
      check_mitm p.mitm

    only_client : Option ClientProfile → Option PopProfile → Outcome ProfileError (Unit {0})
    only_client (some c) none = validate_client c
    only_client (some c) (some p) = err (must (str "contain only client payload"))
    only_client none pop = err (must (str "contain only client payload"))

    only_pop : Option ClientProfile → Option PopProfile → Outcome ProfileError (Unit {0})
    only_pop none (some p) = validate_pop p
    only_pop none none = err (must (str "contain only pop payload"))
    only_pop (some c) pop = err (must (str "contain only pop payload"))

    unfoldable pub validate_profile : Profile → Outcome ProfileError (Unit {0})
    unfolding only_client only_pop
    validate_profile p = do
      reject (not (p.schema_version == schema_version_v1)) (unsupported p.schema_version)
      if p.kind == kind_client
          then only_client p.client p.pop
          else if p.kind == kind_pop
          then only_pop p.client p.pop
          else err (unsupported p.kind)
