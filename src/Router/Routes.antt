-- ===== src/Router/Routes.antt =====
-- `addHostIPRoute` and `addChainedIPRoute` of plugins/router/router.go.
pub mod Exact
use cni_plugins.Base.{Bool, some, List, [], if◌then◌else◌, exists}
use cni_plugins.Base.Text.{Text}
use cni_plugins.Base.Int.{ℤ, pos, ◌==ℤ◌, is_negative}
use cni_plugins.Net.{
  Ip, IpNet, Addr, Route, Rule, empty_route, new_rule, is_v4, contains, mask_32, mask_128,
  family_v4, family_v6, rt_table_main, scope_link,
}
use cni_plugins.World.{
  M, Env, new, errorf, ◌>>=◌, ◌>>◌, fail, pass, choose, wrap, ignoring, os_is_exist, call, do_netns,
  for_each, netlink_link_by_name, netlink_link_by_index, netlink_rule_add, netlink_route_add,
  spider_add_route,
}

-- `dst`: the prefix of an address with the longest mask.
unfoldable pub max_mask_net : Ip → IpNet
max_mask_net ip = record { ip = ip; mask = if is_v4 ip then mask_32 else mask_128 }

-- The rule that sends all packets of a family to the host's table.
unfoldable pub host_rule : ℤ → Ip → Rule
host_rule table ip = record new_rule {
  table = table;
  family = if is_v4 ip then family_v4 else family_v6;
  priority = pos 1000;
}

unfoldable pub host_route : ℤ → ℤ → Ip → Route
unfolding max_mask_net
host_route table parent_index ip = record empty_route {
  link_index = parent_index;
  dst = some (max_mask_net ip);
  scope = scope_link;
  table = table;
}

module _ (env : Env) where
  unfoldable pub add_host_ip_route : ℤ → ℤ → Text → List Ip → Bool → M Unit
  add_host_ip_route rule_table ipfamily default_interface host_ips i_sriov =
      let table = if rule_table ==ℤ pos 100 then rt_table_main else rule_table in
      choose i_sriov pass (
        do_netns env (
          for_each host_ips λ host_ip. call env (
            spider_add_route table ipfamily scope_link default_interface
              (env.convert_max_mask_ip_net host_ip) [] [])))

  -- The body of the inner loop, which is left at the first host address inside the prefix.
  unfoldable pub add_chained_ip : ℤ → ℤ → Ip → M Unit
  add_chained_ip host_rule_table parent_index ip = do
    wrap (errorf "failed to add rule table for underlay interface: %v")
        (ignoring os_is_exist (call env (netlink_rule_add (host_rule host_rule_table ip))))
    wrap (errorf "failed to add route for underlay interface: %v") (
        ignoring os_is_exist
          (call env (netlink_route_add (host_route host_rule_table parent_index ip))))

  unfoldable pub add_chained_ips : ℤ → ℤ → List Ip → List Addr → M Unit
  add_chained_ips host_rule_table parent_index host_ips chained_ips =
      for_each chained_ips λ chained_ip.
        choose (exists (contains chained_ip) host_ips)
          (add_chained_ip host_rule_table parent_index chained_ip.ip) pass

  unfoldable pub add_chained_ip_route : Bool → ℤ → Text → List Ip → List Addr → M Unit
  add_chained_ip_route i_sriov host_rule_table default_overlay_interface host_ips chained_ips =
      choose i_sriov pass do
        link ←
            wrap (errorf "failed to get parentIndex of %s in pod: %v")
              (do_netns env (call env (netlink_link_by_name default_overlay_interface)))
        choose (is_negative link.parent_index) (fail (new "parentIndex on found")) do
          wrap (errorf "failed to found default overlay veth interface: %v")
              (call env (netlink_link_by_index link.parent_index))
          add_chained_ips host_rule_table link.parent_index host_ips chained_ips
