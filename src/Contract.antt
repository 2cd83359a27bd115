-- ===== src/Contract.antt =====
-- internal/controlcontract/profile.go: the profiles that a control plane delivers to clients and
-- points of presence, and what Validate refuses. The signed envelope is in Contract/Envelope.
pub mod Checks
pub mod Profiles
pub mod Envelope
pub mod Signing
mod Tests
use anix_ops_sd_wan.Base.{
  ℕ, ◌+◌, ◌*◌, ◌-◌, ℤ, pos, eqbℤ, ltb, leb, eqb, Text, str, ◌==◌, is_blank, trim_space, trim_suffix,
  has_prefix, has_suffix, contains_any, split, Bool, true, false, not, ◌&&◌, ◌||◌, Option, none,
  some, List, [], ◌∷◌, if◌then◌else◌, Outcome, ok, err, ◌>>=◌, ◌>>◌, reject,
}
use anix_ops_sd_wan.Net.{Net, to_lower}

abbrev pub schema_version_v1 : Text
schema_version_v1 = str "anixops.sdwan.delivery/v1"

abbrev pub kind_client : Text
kind_client = str "client"

abbrev pub kind_pop : Text
kind_pop = str "pop"

abbrev pub transport_ikev2 : Text
transport_ikev2 = str "ikev2"

abbrev pub protocol_tcp : Text
protocol_tcp = str "tcp"

abbrev pub protocol_udp : Text
protocol_udp = str "udp"

pub record PopReference : Type 0 where
  pub id : Text
  pub endpoint : Text

pub record MitmProfile : Type 0 where
  pub allowed_domain_suffixes : List Text
  pub require_consent : Bool
  pub block_quic : Bool
  pub block_pinned_tls : Bool
  pub metadata_retention_days : ℤ

pub record ClientProfile : Type 0 where
  pub id : Text
  pub principal_id : Text
  pub transport : Text
  pub pops : List PopReference
  pub mitm : Option MitmProfile

-- The ports are uint16.
pub record PortRange : Type 0 where
  pub start : ℕ
  pub end : ℕ

pub record RouteSelector : Type 0 where
  pub source_cidr : Text
  pub destination_cidr : Text
  pub domain_suffix : Text
  pub traffic_class : Text
  pub protocol : Text
  pub ports : Option PortRange

pub record ServiceChain : Type 0 where
  pub id : Text
  pub hops : List Text
  pub return_hops : List Text

pub record RoutePolicy : Type 0 where
  pub id : Text
  pub selector : RouteSelector
  pub chain : ServiceChain
  pub direct_fallback : Bool

pub record PopProfile : Type 0 where
  pub id : Text
  pub principal_id : Text
  pub routes : List RoutePolicy

pub record Profile : Type 0 where
  pub schema_version : Text
  pub kind : Text
  pub client : Option ClientProfile
  pub pop : Option PopProfile

-- The text of a field's name, or of the value that is refused.
pub data ProfileError : Type 0 where
  required unsupported invalid forbidden missing must : Text → ProfileError
  duplicate : Text → Text → ProfileError

unfoldable pub validate_identifier : Text → Text → Outcome ProfileError (Unit {0})
validate_identifier field value = reject (is_blank value) (required field)

-- _, exists := seen[x]
unfoldable pub is_seen : Text → List Text → Bool
is_seen x [] = false
is_seen x (y ∷ seen) = y == x || is_seen x seen

-- for _, item := range items { check; key := name(item); if seen[key] { error }; seen[key] = ... }
module _ {A : Type 0} (check : A → Outcome ProfileError Text) (what : Text) where
  unfoldable pub check_distinct : List Text → List A → Outcome ProfileError (Unit {0})
  check_distinct seen [] = ok tt
  check_distinct seen (x ∷ xs) = do
    key ← check x
    reject (is_seen key seen) (duplicate what key)
    check_distinct (key ∷ seen) xs

-- strconv.ParseUint(s, 10, 16) of the digits left, with the number read so far; the value of a
-- longer text only grows.
parse_digits : ℕ → Text → Option ℕ
parse_digits seen [] = if leb seen 65535 then some seen else none
parse_digits seen (c ∷ s) =
    let rest = parse_digits (seen * 10 + (c - 48)) s in if leb 48 c && leb c 57 then rest else none

unfoldable pub parse_port : Text → Option ℕ
unfolding parse_digits
parse_port s = if s == [] then none else parse_digits 0 s

-- net.SplitHostPort is not under src: the host and the port, or none for its error.
pub record Hosts : Type 0 where
  pub split_host_port : Text → Option (Text × Text)

bad_port : Option ℕ → Bool
bad_port none = true
bad_port (some p) = eqb p 0

bad_host_port : Option (Text × Text) → Bool
bad_host_port none = true
bad_host_port (some (host, port)) = is_blank host || bad_port (parse_port port)

unfoldable pub validate_pop_reference : Hosts → PopReference → Outcome ProfileError Text
unfolding bad_host_port bad_port
validate_pop_reference hosts p = do
  validate_identifier (str "POP id") p.id
  reject (bad_host_port (hosts.split_host_port (trim_space p.endpoint))) (invalid p.endpoint)
  ok (trim_space p.id)

-- len(xs) == 0
abbrev pub is_empty : {A : Type 0} → List A → Bool
is_empty [] = true
is_empty (x ∷ xs) = false

unfoldable pub check_hop : Text → Text → Outcome ProfileError Text
check_hop field hop = do validate_identifier field hop; ok (trim_space hop)

unfoldable pub validate_hop_list : Text → List Text → Outcome ProfileError (Unit {0})
validate_hop_list field hops = check_distinct (check_hop field) field [] hops

unfoldable pub validate_chain : ServiceChain → Outcome ProfileError (Unit {0})
validate_chain c = do
  validate_identifier (str "service chain id") c.id
  reject (is_empty c.hops) (missing (str "hop"))
  validate_hop_list (str "service chain hop") c.hops
  if is_empty c.return_hops
      then ok tt
      else validate_hop_list (str "service chain return hop") c.return_hops
