-- ===== src/Contract/Tests.antt =====
-- Runs of internal/controlcontract, and the theorems at concrete inputs.
use anix_ops_sd_wan.Base.{
  ℕ, zero, suc, Text, str, ◌==◌, trim_space, trim_suffix, has_prefix, has_suffix, contains_any,
  split, eqb, drop, length, Bytes, utf8, rune_bytes, hex, digits, format_uint, format_uint_inj,
  true, false, ◌≡◌, refl, none, some, List, [], ◌∷◌, arith, ok, err,
}
use anix_ops_sd_wan.Net.{to_lower}
use anix_ops_sd_wan.Net.Samples.{plain_net}
use anix_ops_sd_wan.Contract.{
  RoutePolicy, PopProfile, Profile, Hosts, duplicate, schema_version_v1, kind_pop, protocol_tcp,
  is_seen, validate_identifier, check_distinct, check_hop, validate_hop_list, validate_chain,
  parse_port,
}
use anix_ops_sd_wan.Contract.Checks.{
  is_label, are_labels, normalize_domain_suffix, validate_ports, validate_selector, validate_route,
  validate_pop, validate_profile,
}
use anix_ops_sd_wan.Contract.Envelope.{
  Codecs, UnsignedEnvelope, SignedEnvelope, Signer, signing_input_v1, new_signer, sign, verify,
  validate_metadata, signing_fields, write_fields, profile_principal_id, parse_profile,
  validate_profile_binding, validate_envelope, validate_integrity,
}
use anix_ops_sd_wan.Contract.Signing.{
  AreAlike, signing_input_v1_inj, IsAuthentic, verify-IsAuthentic, verify-sign,
}

abbrev route_named : Text → List Text → RoutePolicy
route_named id hops = record {
  id = id;
  selector = record {
    source_cidr = [];
    destination_cidr = [];
    domain_suffix = str "Example.com.";
    traffic_class = [];
    protocol = protocol_tcp;
    ports = some (record { start = 443; end = 443 });
  };
  chain = record { id = str "chain"; hops = hops; return_hops = [] };
  direct_fallback = false;
}

abbrev hk_pop : PopProfile
hk_pop = record {
  id = str "profile";
  principal_id = str "hk";
  routes = route_named (str "web") (str "fw" ∷ str "ids" ∷ []) ∷ [];
}

hk_pop-valid : validate_pop plain_net hk_pop ≡ ok tt
unfolding validate_pop check_distinct validate_route validate_identifier validate_selector
    validate_ports normalize_domain_suffix are_labels is_label split contains_any has_prefix
    has_suffix trim_suffix to_lower trim_space validate_chain validate_hop_list check_hop is_seen
    ◌==◌
hk_pop-valid = refl

hops_repeat :
    validate_hop_list (str "hop") (str "fw" ∷ str " fw" ∷ [])
    ≡ err (duplicate (str "hop") (str "fw"))
unfolding validate_hop_list check_distinct check_hop validate_identifier is_seen trim_space ◌==◌
hops_repeat = refl

ports_read :
    (parse_port (str "443") ≡ some 443)
    × (parse_port (str "65536") ≡ none)
    × (parse_port (str "4x") ≡ none)
unfolding parse_port ◌==◌
ports_read = (refl, refl, refl)

abbrev hk_profile : Profile
hk_profile = record {
  schema_version = schema_version_v1;
  kind = kind_pop;
  client = none;
  pop = some hk_pop;
}

abbrev zeros : ℕ → Bytes
zeros zero = []
zeros (suc n) = 0 ∷ zeros n

abbrev no_hosts : Hosts
no_hosts = record { split_host_port = λ s. none }

-- Every payload stands for one profile, and every signature of 64 bytes passes.
abbrev plain_codecs : Codecs
plain_codecs = record {
  is_blank_json = λ b. b == [];
  is_valid_json = λ b. true;
  decode_profile = λ b. some hk_profile;
  format_time = format_uint;
  sha256 = λ b. b;
  encode_base64 = λ b. b;
  decode_base64 = λ b. some b;
  public_key = λ k. drop 32 k;
  ed25519_sign = λ k m. zeros 64;
  ed25519_verify = λ k m s. eqb (length s) 64;
}

abbrev hk_envelope : UnsignedEnvelope
hk_envelope = record {
  schema_version = schema_version_v1;
  bundle_kind = kind_pop;
  bundle_id = str "b1";
  tenant_id = str "t1";
  target_id = str "hk";
  sequence = 7;
  issued_at = 20;
  expires_at = 40;
  key_id = str "k1";
  payload = 123 ∷ 125 ∷ [];
}

abbrev hk_signer : Signer plain_codecs plain_net no_hosts
hk_signer = record { own_public_key = zeros 32; private_key = zeros 64 }

hk_input : Bytes
unfolding write_fields signing_fields
hk_input = elim (write_fields plain_codecs (signing_fields plain_codecs hk_envelope)) [
  | ok b ↦ b
  | err e ↦ []
]

hk_envelope-input : signing_input_v1 plain_codecs hk_envelope ≡ ok hk_input
unfolding hk_input signing_input_v1 validate_metadata validate_identifier signing_fields
    write_fields trim_space ◌==◌ utf8 rune_bytes format_uint digits
hk_envelope-input = refl

abbrev hk_signed : SignedEnvelope
hk_signed = record {
  envelope = hk_envelope;
  algorithm = str "ed25519";
  payload_sha256 = str "7b7d";
  signature = zeros 64;
}

hk_signer-made : new_signer plain_codecs plain_net no_hosts (zeros 64) ≡ ok hk_signer
unfolding new_signer
hk_signer-made = refl

hk_envelope-signed : sign plain_codecs plain_net no_hosts hk_signer hk_envelope ≡ ok hk_signed
unfolding sign validate_envelope validate_profile_binding parse_profile validate_profile
    profile_principal_id signing_input_v1 validate_metadata signing_fields write_fields hex
    validate_pop check_distinct validate_route validate_identifier validate_selector validate_ports
    normalize_domain_suffix are_labels is_label split contains_any has_prefix has_suffix trim_suffix
    to_lower trim_space validate_chain validate_hop_list check_hop is_seen ◌==◌ utf8 rune_bytes
    format_uint digits
hk_envelope-signed = refl

signing_input_v1_inj_example : AreAlike plain_codecs hk_envelope hk_envelope
signing_input_v1_inj_example =
    signing_input_v1_inj plain_codecs hk_envelope hk_envelope hk_input format_uint_inj
      hk_envelope-input hk_envelope-input

verify-sign_example : verify plain_codecs plain_net no_hosts hk_signer hk_signed 30 0 ≡ ok tt
verify-sign_example =
    verify-sign plain_codecs plain_net no_hosts (zeros 64) hk_signer hk_envelope hk_signed 30 0
      (λ b. refl) (λ m. refl) (λ m. refl) hk_signer-made hk_envelope-signed (omega arith)

hk_signed-verified : verify plain_codecs plain_net no_hosts hk_signer hk_signed 30 0 ≡ ok tt
unfolding verify validate_integrity validate_profile_binding parse_profile validate_profile
    profile_principal_id signing_input_v1 validate_metadata signing_fields write_fields hex
    validate_pop check_distinct validate_route validate_identifier validate_selector validate_ports
    normalize_domain_suffix are_labels is_label split contains_any has_prefix has_suffix trim_suffix
    to_lower trim_space validate_chain validate_hop_list check_hop is_seen ◌==◌ utf8 rune_bytes
    format_uint digits
hk_signed-verified = refl

verify-IsAuthentic_example : IsAuthentic plain_codecs plain_net no_hosts hk_signer hk_signed 30
verify-IsAuthentic_example =
    verify-IsAuthentic plain_codecs plain_net no_hosts hk_signer hk_signed 30 0 hk_signed-verified
