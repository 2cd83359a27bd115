-- ===== src/Gateway.antt =====
-- internal/linuxgw/config.go: the configuration of a Linux gateway, its validation, and the commands
-- that set its routes up and take them down.
pub mod Egress
pub mod Marks
pub mod Planning
pub mod Undo
pub mod Files
pub mod Apply
pub mod Runs
mod Tests
use anix_ops_sd_wan.Base.{
  ℕ, suc, ℤ, pos, negsuc, pos_part, lebℤ, ltbℤ, eqbℤ, Text, str, ◌==◌, less_text, format_uint, Bool,
  true, false, not, ◌&&◌, ◌||◌, Option, none, some, List, [], ◌∷◌, ◌++◌, if◌then◌else◌, Outcome, ok,
  err, ◌>>=◌, ◌>>◌, reject,
}
use anix_ops_sd_wan.Base.Sorting.{sort}
use anix_ops_sd_wan.Net.{Net}

pub record RouteRule : Type 0 where
  pub name : Text
  pub mark : ℤ
  pub match_cidr : Text
  pub table : ℤ
  pub dest_cidr : Text
  pub gateway : Text
  pub interface : Text
  pub preference : ℤ

pub record Config : Type 0 where
  pub lan_interface : Text
  pub lan_cidr : Text
  pub dhcp_range_start : Text
  pub dhcp_range_end : Text
  pub dns_listen_address : Text
  pub dns_upstreams : List Text
  pub transparent_proxy_port : ℤ
  pub route_rules : List RouteRule

pub data ConfigError : Type 0 where
  lan_interface_required invalid_lan_cidr invalid_range_start invalid_range_end : ConfigError
  invalid_dns_address proxy_port_out_of_range : ConfigError
  invalid_upstream : Text → ConfigError
  name_required : ConfigError
  mark_not_positive table_not_positive invalid_match invalid_destination : Text → ConfigError
  invalid_gateway interface_required : Text → ConfigError

abbrev pub is_none : {A : Type 0} → Option A → Bool
is_none none = true
is_none (some a) = false

module _ (net : Net) where
  open net use {parse_ip, parse_cidr}

  unfoldable pub validate_rule : RouteRule → Outcome ConfigError (Unit {0})
  validate_rule r = do
    reject (r.name == []) name_required
    reject (lebℤ r.mark (pos 0)) (mark_not_positive r.name)
    reject (lebℤ r.table (pos 0)) (table_not_positive r.name)
    reject (not (r.match_cidr == []) && is_none (parse_cidr r.match_cidr)) (invalid_match r.name)
    reject (is_none (parse_cidr r.dest_cidr)) (invalid_destination r.name)
    reject (not (r.gateway == []) && is_none (parse_ip r.gateway)) (invalid_gateway r.name)
    reject (r.interface == []) (interface_required r.name)

  -- for _, rule := range c.RouteRules { if err := rule.Validate(); err != nil { return err } }
  unfoldable pub validate_rules : List RouteRule → Outcome ConfigError (Unit {0})
  validate_rules [] = ok tt
  validate_rules (r ∷ rules) = let rest = validate_rules rules in do validate_rule r; rest

  unfoldable pub validate_upstreams : List Text → Outcome ConfigError (Unit {0})
  validate_upstreams [] = ok tt
  validate_upstreams (upstream ∷ upstreams) =
      let rest = validate_upstreams upstreams in
      do reject (is_none (parse_ip upstream)) (invalid_upstream upstream); rest

  unfoldable pub validate : Config → Outcome ConfigError (Unit {0})
  validate c = do
    reject (c.lan_interface == []) lan_interface_required
    reject (is_none (parse_cidr c.lan_cidr)) invalid_lan_cidr
    reject (is_none (parse_ip c.dhcp_range_start)) invalid_range_start
    reject (is_none (parse_ip c.dhcp_range_end)) invalid_range_end
    reject (is_none (parse_ip c.dns_listen_address)) invalid_dns_address
    reject (lebℤ c.transparent_proxy_port (pos 0) || ltbℤ (pos 65535) c.transparent_proxy_port)
        proxy_port_out_of_range
    validate_upstreams c.dns_upstreams
    validate_rules c.route_rules

-- fmt's %d
unfoldable pub format_int : ℤ → Text
format_int (pos n) = format_uint n
format_int (negsuc n) = str "-" ++ format_uint (suc n)

-- The `less` of sortedRouteRules; `reverse` turns both comparisons around.
unfoldable pub rule_before : RouteRule → RouteRule → Bool
rule_before a b =
    if eqbℤ a.preference b.preference
    then less_text a.name b.name
    else ltbℤ a.preference b.preference

unfoldable pub rule_after : RouteRule → RouteRule → Bool
rule_after a b =
    if eqbℤ a.preference b.preference
    then less_text b.name a.name
    else ltbℤ b.preference a.preference

unfoldable pub sorted_route_rules : List RouteRule → Bool → List RouteRule
sorted_route_rules rules false = sort rule_before rules
sorted_route_rules rules true = sort rule_after rules

-- What stands in `ip rule add` and `ip rule del` behind the verb.
unfoldable pub rule_arguments : RouteRule → Text
rule_arguments r =
    str " fwmark "
    ++ (format_int r.mark
        ++ (str " table " ++ (format_int r.table ++ (str " priority " ++ format_int r.preference))))

-- What stands in `ip route replace` and `ip route del` behind the verb.
unfoldable pub route_arguments : RouteRule → Text
route_arguments r =
    str " "
    ++ (r.dest_cidr
        ++ ((if r.gateway == [] then [] else str " via " ++ r.gateway)
            ++ (str " dev " ++ (r.interface ++ (str " table " ++ format_int r.table)))))

unfoldable pub add_commands : List RouteRule → List Text
add_commands [] = []
add_commands (r ∷ rules) =
    (str "ip rule add" ++ rule_arguments r)
    ∷ (str "ip route replace" ++ route_arguments r)
    ∷ add_commands rules

unfoldable pub delete_commands : List RouteRule → List Text
delete_commands [] = []
delete_commands (r ∷ rules) =
    (str "ip route del" ++ route_arguments r)
    ∷ (str "ip rule del" ++ rule_arguments r)
    ∷ delete_commands rules

unfoldable pub render_ip_route_commands : Net → Config → Outcome ConfigError (List Text)
render_ip_route_commands net c = do
  validate net c
  ok (add_commands (sorted_route_rules c.route_rules false))

unfoldable pub render_ip_route_rollback_commands : Net → Config → Outcome ConfigError (List Text)
render_ip_route_rollback_commands net c = do
  validate net c
  ok (delete_commands (sorted_route_rules c.route_rules true))

unfoldable pub render_rollback_commands : Net → Config → Outcome ConfigError (List Text)
render_rollback_commands net c = do
  validate net c
  routes ← render_ip_route_rollback_commands net c
  ok (str "nft delete table inet anixops" ∷ (routes ++ (str "systemctl reload dnsmasq" ∷ [])))
