-- ===== src/Utils/Rules.antt =====
-- The policy rules of pkg/utils/utils.go: `ruleAdd`, `toRuleAdd`, `AddToRuleTable`,
-- `AddFromRuleTable`, `RuleDel` and `HijackCustomSubnet`.
pub mod Safety
pub mod Exact
use cni_plugins.Base.{
  ℕ, Bool, true, false, ◌&&◌, ◌||◌, not, Option, none, some, List, [], ◌∷◌, ◌++◌, if◌then◌else◌,
}
use cni_plugins.Base.Text.{Text, codes}
use cni_plugins.Base.Int.{ℤ, pos, negsuc, ◌==ℤ◌}
use cni_plugins.Net.{
  Ip, IpNet, Addr, Rule, new_rule, is_v4, is_multicast, is_link_local_unicast, mask_32, mask_128,
  family_v4, family_v6,
}
use cni_plugins.Constant.{err_route_file_exist}
use cni_plugins.World.{
  M, Env, errorf, ◌>>=◌, ◌>>◌, pure, pass, choose, wrap, ignoring, message_folds_to,
  os_is_not_exist, call, do_netns, parse_cidr, for_each, netlink_rule_add, netlink_rule_del,
}
use cni_plugins.Utils.Names.{overlay_route_table}

-- `family` where one of the two tests sets `match`, and `none` where neither does.
unfoldable pub matched_family : Ip → Bool → Bool → Option ℤ
matched_family ip enable_ipv4 enable_ipv6 =
    if not (is_v4 ip) && enable_ipv6
    then some family_v6
    else if is_v4 ip && enable_ipv4
    then some family_v4
    else none

-- The mask of a rule for one address: empty where the address's family is not enabled.
unfoldable pub host_mask : Ip → Bool → Bool → List ℕ
host_mask ip enable_ipv4 enable_ipv6 =
    if not (is_v4 ip) && enable_ipv6
    then mask_128
    else if is_v4 ip && enable_ipv4
    then mask_32
    else []

unfoldable pub dst_rule : IpNet → ℤ → ℤ → Rule
dst_rule dst family table = record new_rule { dst = some dst; family = family; table = table }

unfoldable pub from_rule : Addr → ℤ → Bool → Bool → Rule
unfolding host_mask
from_rule addr table enable_ipv4 enable_ipv6 = record new_rule {
  table = table;
  src = some (record { ip = addr.ip; mask = host_mask addr.ip enable_ipv4 enable_ipv6 });
}

module _ (env : Env) where
  -- The part of a round of `ruleAdd` and `toRuleAdd` behind the family's tests.
  unfoldable pub add_dst_rule : IpNet → ℤ → Option ℤ → M Unit
  add_dst_rule dst table none = pass
  add_dst_rule dst table (some family) =
      wrap (errorf "failed to set ip rule(%+v rule.Dst %v): %+v") (
        ignoring (message_folds_to err_route_file_exist)
          (call env (netlink_rule_add (dst_rule dst family table))))

  unfoldable pub rule_add : List Text → ℤ → Bool → Bool → M Unit
  rule_add routes route_table enable_ipv4 enable_ipv6 = for_each routes λ route. do
    parsed ← parse_cidr env route
    add_dst_rule parsed.1 route_table (matched_family parsed.1.ip enable_ipv4 enable_ipv6)

  unfoldable pub to_rule_add : List Addr → ℤ → Bool → Bool → M Unit
  to_rule_add routes route_table enable_ipv4 enable_ipv6 =
      for_each routes
        λ route. add_dst_rule route route_table (matched_family route.ip enable_ipv4 enable_ipv6)

  unfoldable pub add_to_rule_table : List Text → ℤ → M Unit
  add_to_rule_table chained_ips rule_table = for_each chained_ips λ chained_ip. do
    parsed ← wrap (errorf "failed to parse cidr %s: %v") (parse_cidr env chained_ip)
    choose (is_multicast parsed.0 || is_link_local_unicast parsed.0) pass
        (call env (netlink_rule_add (record new_rule { table = rule_table; dst = some parsed.1 })))

  unfoldable pub add_from_rule_table : List Addr → ℤ → Bool → Bool → M Unit
  add_from_rule_table chained_ips rule_table enable_ipv4 enable_ipv6 =
      for_each chained_ips λ chained_ip.
        call env (netlink_rule_add (from_rule chained_ip rule_table enable_ipv4 enable_ipv6))

  unfoldable pub rule_del : ℤ → List Addr → M Unit
  rule_del rule_table ips = for_each ips λ chained_ip.
      let mask = if is_v4 chained_ip.ip then mask_32 else mask_128 in
      let dst : IpNet = record { ip = chained_ip.ip; mask = mask } in
      wrap (errorf "failed to del rule table %d: %v ") (
        ignoring os_is_not_exist
          (call env (netlink_rule_del (record new_rule { table = rule_table; dst = some dst }))))

  unfoldable pub hijack_custom_subnet :
      List Text → List Text → List Text → List Addr → ℤ → Bool → Bool → M Unit
  hijack_custom_subnet service_subnet overlay_subnet additional_subnet default_interface_ips
        route_table enable_ipv4 enable_ipv6 =
      do_netns env do
        choose (route_table ==ℤ overlay_route_table)
            (rule_add (overlay_subnet ++ service_subnet) route_table enable_ipv4 enable_ipv6)
            (to_rule_add default_interface_ips route_table enable_ipv4 enable_ipv6)
        rule_add additional_subnet route_table enable_ipv4 enable_ipv6
