-- ===== src/Gateway/Files.antt =====
-- RenderNftables and RenderDNSMasq of internal/linuxgw/config.go. `quote` is what fmt writes with %q, and
-- `is_ip6` tells whether net.ParseCIDR reads an address that To4 has no form for.
use anix_ops_sd_wan.Base.{
  Text, str, ◌==◌, is_blank, less_text, Bool, false, not, ◌||◌, List, [], ◌∷◌, ◌++◌, if◌then◌else◌,
  Outcome, ok, ◌>>◌,
}
use anix_ops_sd_wan.Base.Sorting.{sort}
use anix_ops_sd_wan.Net.{Net}
use anix_ops_sd_wan.Gateway.{
  RouteRule, Config, ConfigError, validate, format_int, sorted_route_rules,
}

unfoldable pub has_policy_mark_rules : List RouteRule → Bool
has_policy_mark_rules [] = false
has_policy_mark_rules (r ∷ rules) = not (is_blank r.match_cidr) || has_policy_mark_rules rules

abbrev line_end : Text
line_end = 10 ∷ []

module _ (quote : Text → Text) (is_ip6 : Text → Bool) where
  nft_cidr_selector : Text → Text
  nft_cidr_selector cidr = if is_ip6 cidr then str "ip6 daddr" else str "ip daddr"

  -- The loop over the sorted rules.
  mark_lines : Text → List RouteRule → Text
  mark_lines lan [] = []
  mark_lines lan (r ∷ rules) =
      let rest = mark_lines lan rules in
      if r.match_cidr == []
      then rest
      else str "    iifname "
        ++ (quote lan
            ++ (str " "
                ++ (nft_cidr_selector r.match_cidr
                    ++ (str " "
                        ++ (r.match_cidr
                            ++ (str " meta mark set "
                                ++ (format_int r.mark ++ (line_end ++ rest))))))))

  policy_chain : Config → Text
  policy_chain c =
      if has_policy_mark_rules c.route_rules
      then str "  chain policy_mark {"
        ++ (line_end
            ++ (str "    type filter hook prerouting priority mangle; policy accept;"
                ++ (line_end
                    ++ (mark_lines c.lan_interface (sorted_route_rules c.route_rules false)
                        ++ (str "  }" ++ line_end)))))
      else []

  redirect_line : Text → Config → Text
  redirect_line protocol c =
      str "    iifname "
      ++ (quote c.lan_interface
          ++ (str " "
              ++ (protocol
                  ++ (str " dport 1-65535 redirect to "
                      ++ (format_int c.transparent_proxy_port ++ line_end)))))

  unfoldable pub render_nftables : Net → Config → Outcome ConfigError Text
  unfolding nft_cidr_selector mark_lines policy_chain redirect_line
  render_nftables net c = do
    validate net c
    ok (
        str "table inet anixops {"
        ++ (line_end
            ++ (policy_chain c
                ++ (str "  chain prerouting {"
                    ++ (line_end
                        ++ (str "    type nat hook prerouting priority dstnat; policy accept;"
                            ++ (line_end
                                ++ (redirect_line (str "tcp") c
                                    ++ (redirect_line (str "udp") c
                                        ++ (str "  }"
                                            ++ (line_end ++ (str "}" ++ line_end))))))))))))

server_lines : List Text → Text
server_lines [] = []
server_lines (upstream ∷ upstreams) =
    str "server=" ++ (upstream ++ (line_end ++ server_lines upstreams))

unfoldable pub render_dns_masq : Net → Config → Outcome ConfigError Text
unfolding server_lines
render_dns_masq net c = do
  validate net c
  ok (
      str "interface="
      ++ (c.lan_interface
          ++ (line_end
              ++ (str "bind-interfaces"
                  ++ (line_end
                      ++ (str "listen-address="
                          ++ (c.dns_listen_address
                              ++ (line_end
                                  ++ (str "dhcp-range="
                                      ++ (c.dhcp_range_start
                                          ++ (str ","
                                              ++ (c.dhcp_range_end
                                                  ++ (str ",12h"
                                                      ++ (line_end
                                                          ++ server_lines (
                                                            sort less_text
                                                            c.dns_upstreams)))))))))))))))
