-- ===== src/Gateway/Tests.antt =====
-- Runs of internal/linuxgw, and the theorems at concrete inputs.
use mathlib.Core.List.{reverse}
use anix_ops_sd_wan.Base.{
  ℕ, length, pos, negsuc, wrap_int, less_text, Text, str, ◌==◌, eq_iff, trim_space, is_space,
  format_uint, digits, Bool, true, false, Option, none, some, List, [], ◌∷◌, ◌++◌, map, In, ◌≡◌,
  ◌↔◌, refl, arith, inl, if◌then◌else◌, eqb, ok, err,
}
use anix_ops_sd_wan.Base.Sorting.{sort, insert}
use anix_ops_sd_wan.Base.Sorting.Reversal.{IsTieless}
use anix_ops_sd_wan.Base.Table.{lookup, put}
use anix_ops_sd_wan.Net.{Net}
use anix_ops_sd_wan.Net.Samples.{plain_net}
use anix_ops_sd_wan.Policy.{
  Rule, validate as validate_policy, check_cidr, cidr_error, rule_before as policy_before, ranked,
}
use anix_ops_sd_wan.Gateway.{
  RouteRule, Config, mark_not_positive, is_none, validate, validate_rule, validate_rules,
  validate_upstreams, rule_before, sorted_route_rules, format_int, rule_arguments, route_arguments,
  add_commands, delete_commands, render_ip_route_commands, render_ip_route_rollback_commands,
  render_rollback_commands,
}
use anix_ops_sd_wan.Gateway.Egress.{
  EgressRouteTarget, PolicyRoutePlanOptions, plus, validate_target, trimmed,
  egress_route_targets_by_node, normalize_options, planned_rule, planned_from,
  plan_policy_route_rules,
}
use anix_ops_sd_wan.Gateway.Marks.{Fits}
use anix_ops_sd_wan.Gateway.Planning.{plan-IsOrdered, plan-routes}
use anix_ops_sd_wan.Gateway.Undo.{undo_command, rollback-undoes}
use anix_ops_sd_wan.Gateway.Files.{render_nftables, render_dns_masq, has_policy_mark_rules}
use anix_ops_sd_wan.Gateway.Apply.{
  ApplyPaths, route_command_failed, Rendered, rendered, fields, run_all, apply,
}
use anix_ops_sd_wan.Gateway.Runs.{load, runs, IsRollback, apply_complete, apply-rolls_back}

-- A net in which a network is a text without spaces around it.
abbrev tight_net : Net
tight_net = record plain_net { parse_cidr = λ s. if trim_space s == s then some s else none }

tight : (s : Text) → is_none (tight_net.parse_cidr s) ≡ false → trim_space s ≡ s
tight s h = ground (arith, h, eq_iff (trim_space s) s)

abbrev web_rule : Rule
web_rule = record {
  id = str "web";
  tenant_id = str "t1";
  priority = pos 10;
  domain_suffix = [];
  ip_cidr = str "10.1.0.0/16";
  asn = pos 0;
  class = [];
  egress_node_id = str " hk ";
}

abbrev hk_target : EgressRouteTarget
hk_target = record { node_id = str "hk"; gateway = []; interface = str "wg0"; table = pos 100 }

abbrev defaults : PolicyRoutePlanOptions
defaults = record { mark_base = pos 0; preference_base = pos 0; dest_cidr = [] }

abbrev web_route : RouteRule
web_route = record {
  name = str "policy-web";
  mark = pos 1000;
  match_cidr = str "10.1.0.0/16";
  table = pos 100;
  dest_cidr = str "0.0.0.0/0";
  gateway = [];
  interface = str "wg0";
  preference = pos 10000;
}

planned :
    plan_policy_route_rules tight_net (web_rule ∷ []) (hk_target ∷ []) defaults
    ≡ ok (web_route ∷ [])
unfolding plan_policy_route_rules normalize_options egress_route_targets_by_node validate_target
    trimmed validate_policy check_cidr cidr_error planned_from planned_rule plus wrap_int lookup put
    sort insert trim_space ◌==◌
planned = refl

plan-IsOrdered_example :
    ((validate_rules tight_net (web_route ∷ []) ≡ ok tt) ↔ Fits (pos 1000) 1)
    × (sorted_route_rules (web_route ∷ []) false ≡ web_route ∷ [])
    × (str "policy-web" ∷ []
        ≡ map (λ r. str "policy-" ++ r.id) (sort policy_before (web_rule ∷ [])))
plan-IsOrdered_example =
    plan-IsOrdered tight_net (web_rule ∷ []) (hk_target ∷ []) defaults (web_route ∷ []) tight
      (omega arith) (omega arith) planned

abbrev mail_rule : Rule
mail_rule = record web_rule { id = str "mail" }

-- With the greatest int as the base of the marks, that of the second rule wraps.
abbrev wrapped : List RouteRule
wrapped =
    record web_route { name = str "policy-mail"; mark = pos 0x7FFFFFFFFFFFFFFF }
    ∷ record web_route { mark = negsuc 0x7FFFFFFFFFFFFFFF; preference = pos 10001 }
    ∷ []

planned_wrapped :
    plan_policy_route_rules tight_net
      (web_rule ∷ mail_rule ∷ [])
      (hk_target ∷ [])
      (record defaults { mark_base = pos 0x7FFFFFFFFFFFFFFF })
    ≡ ok wrapped
unfolding plan_policy_route_rules normalize_options egress_route_targets_by_node validate_target
    trimmed validate_policy check_cidr cidr_error planned_from planned_rule plus wrap_int lookup put
    sort insert ranked less_text trim_space ◌==◌
planned_wrapped = refl

wrapped_refused : validate_rules tight_net wrapped ≡ err (mark_not_positive (str "policy-web"))
unfolding validate_rules validate_rule trim_space ◌==◌
wrapped_refused = refl

plan-routes_example :
    (source : EgressRouteTarget) × (p : RouteRule) × In source (hk_target ∷ [])
    × In p (web_route ∷ [])
    × (p.name ≡ str "policy-web")
    × (p.table ≡ source.table)
    × (p.gateway ≡ source.gateway)
    × (trim_space source.node_id ≡ trim_space (str " hk "))
plan-routes_example =
    plan-routes tight_net (web_rule ∷ []) (hk_target ∷ []) defaults (web_route ∷ []) web_rule
      planned (inl refl)

abbrev second_route : RouteRule
second_route = record web_route { name = str "policy-b"; mark = pos 1001; preference = pos 10001 }

abbrev config : Config
config = record {
  lan_interface = str "eth1";
  lan_cidr = str "10.0.0.0/24";
  dhcp_range_start = str "10.0.0.10";
  dhcp_range_end = str "10.0.0.99";
  dns_listen_address = str "10.0.0.1";
  dns_upstreams = [];
  transparent_proxy_port = pos 7890;
  route_rules = second_route ∷ web_route ∷ [];
}

config-valid : validate tight_net config ≡ ok tt
unfolding validate validate_upstreams validate_rules validate_rule trim_space ◌==◌
config-valid = refl

config-IsTieless : IsTieless rule_before config.route_rules
unfolding rule_before
config-IsTieless = (((λ e. cc), tt), (tt, tt))

rollback-undoes_example :
    (setup : List Text) × (undone : List Text) × (render_ip_route_commands tight_net config
      ≡ ok setup)
    × (render_ip_route_rollback_commands tight_net config ≡ ok undone)
    × (length setup ≡ 4)
    × (map some undone ≡ reverse (map undo_command setup))
rollback-undoes_example = rollback-undoes tight_net config config-valid config-IsTieless

abbrev paths : ApplyPaths
paths = record { nftables_path = str "/n"; dns_masq_path = str "/d" }

abbrev quoted : Text → Text
quoted s = str "'" ++ (s ++ str "'")

abbrev no_ip6 : Text → Bool
no_ip6 s = false

abbrev writes : Text → Option Text
writes path = none

abbrev bare : Config
bare = record config { route_rules = web_route ∷ [] }

abbrev bare_commands : List Text
bare_commands =
    str "ip rule add fwmark 1000 table 100 priority 10000"
    ∷ str "ip route replace 0.0.0.0/0 dev wg0 table 100"
    ∷ []

bare_rendered : render_ip_route_commands tight_net bare ≡ ok bare_commands
unfolding render_ip_route_commands validate validate_upstreams validate_rules validate_rule
    sorted_route_rules sort insert add_commands rule_arguments route_arguments format_int
    format_uint digits trim_space ◌==◌
bare_rendered = refl

abbrev nft_text : Text
nft_text = elim (render_nftables quoted no_ip6 tight_net bare) [ ok t ↦ t | err e ↦ [] ]

abbrev dns_text : Text
dns_text = elim (render_dns_masq tight_net bare) [ ok t ↦ t | err e ↦ [] ]

abbrev bare_files : Rendered
bare_files = record { nftables = nft_text; dns_masq = dns_text; routes = bare_commands }

files_rendered : rendered quoted no_ip6 tight_net paths bare ≡ ok bare_files
unfolding rendered render_nftables render_dns_masq has_policy_mark_rules render_ip_route_commands
    validate validate_upstreams validate_rules validate_rule sorted_route_rules sort insert
    add_commands rule_arguments route_arguments format_int format_uint digits trim_space ◌==◌
files_rendered = refl

abbrev accepts : ℕ → List Text → Option Text
accepts n command = none

applied_well : (apply accepts writes quoted no_ip6 tight_net bare paths true).result ≡ ok tt
unfolding apply run_all fields rendered render_nftables render_dns_masq render_ip_route_commands
    validate validate_upstreams validate_rules validate_rule sorted_route_rules sort insert
    add_commands rule_arguments route_arguments format_int format_uint digits trim_space ◌==◌
applied_well = refl

apply_complete_example :
    (files : Rendered) × (rendered quoted no_ip6 tight_net paths bare ≡ ok files)
    × ((apply accepts writes quoted no_ip6 tight_net bare paths true).written
        ≡ (str "/n", files.nftables) ∷ (str "/d", files.dns_masq) ∷ [])
    × ((apply accepts writes quoted no_ip6 tight_net bare paths true).ran
        ≡ (str "nft" ∷ str "-f" ∷ str "/n" ∷ [])
          ∷ (runs files.routes ++ ((str "systemctl" ∷ str "reload" ∷ str "dnsmasq" ∷ []) ∷ [])))
apply_complete_example =
    apply_complete accepts writes quoted no_ip6 tight_net bare paths true applied_well

-- The second route command fails.
abbrev fails_second : ℕ → List Text → Option Text
fails_second n command = if eqb n 2 then some (str "exit status 2") else none

abbrev failure : Text × Text
failure = (str "ip route replace 0.0.0.0/0 dev wg0 table 100", str "exit status 2")

second_failed : (run_all fails_second bare_commands 1).failed ≡ some failure
unfolding run_all fields is_space ◌==◌
second_failed = refl

abbrev bare_undo : List Text
bare_undo =
    str "nft delete table inet anixops"
    ∷ str "ip route del 0.0.0.0/0 dev wg0 table 100"
    ∷ str "ip rule del fwmark 1000 table 100 priority 10000"
    ∷ str "systemctl reload dnsmasq"
    ∷ []

undo_rendered : render_rollback_commands tight_net bare ≡ ok bare_undo
unfolding render_rollback_commands render_ip_route_rollback_commands validate validate_upstreams
    validate_rules validate_rule sorted_route_rules sort insert delete_commands rule_arguments
    route_arguments format_int format_uint digits trim_space ◌==◌
undo_rendered = refl

apply-rolls_back_example :
    IsRollback fails_second
      (load fails_second writes quoted no_ip6 tight_net bare paths false
        ∷ (run_all fails_second bare_commands 1).done)
      (runs bare_undo)
      (route_command_failed failure.0 failure.1)
      (apply fails_second writes quoted no_ip6 tight_net bare paths true)
apply-rolls_back_example =
    apply-rolls_back fails_second writes quoted no_ip6 tight_net bare paths false bare_files
      bare_undo failure files_rendered refl refl refl second_failed undo_rendered
