-- ===== src/Router/Effect/Leaves.antt =====
-- The parts of the `router` plugin that leave the pod's routes as they are, whatever is answered.
use cni_plugins.Base.{Bool, Option, none, some, List, inl, inr, Option-cases}
use cni_plugins.Base.Text.{Text}
use cni_plugins.Base.Int.{ℤ}
use cni_plugins.Net.{Ip, IpNet, Addr, Link}
use cni_plugins.Net.Mac.{parse_mac_addr}
use cni_plugins.World.{Netns, host, pod, Env}
use cni_plugins.World.Keeps.{Keeps, crash-Keeps, pure-Keeps}
use cni_plugins.Utils.Neighbors.{
  parse_mac, neighbor_add, add_static_neighbors, add_static_neigh_table,
}
use cni_plugins.Utils.Rules.{rule_add, to_rule_add, add_dst_rule, hijack_custom_subnet}
use cni_plugins.Utils.Routes.Quiet.{LeavesRoutes}
use cni_plugins.Router.Routes.{
  add_host_ip_route, add_chained_ip, add_chained_ips, add_chained_ip_route,
}
use cni_plugins.Plugin.Effect.Leaves.{leaving}

module _ (env : Env) where
  parse_mac-Keeps : (n : Netns) (s : Text) → Keeps LeavesRoutes n (parse_mac s)
  unfolding parse_mac
  parse_mac-Keeps n s = elim (Option-cases (parse_mac_addr s)) [
    | inl e ↦ rw (e, parse_mac) (crash-Keeps LeavesRoutes n _)
    | inr (hw, e) ↦ rw (e, parse_mac) (pure-Keeps LeavesRoutes n hw)
  ]

  neighbor_add-Keeps :
      (n : Netns) (iface mac : Text) (ip : Ip)
      → Keeps LeavesRoutes n (neighbor_add env iface mac ip)
  unfolding neighbor_add
  neighbor_add-Keeps n iface mac ip = search (leaving, parse_mac-Keeps) depth 8

  add_static_neighbors-Keeps :
      (iface : Text) (link : Link) (ips : List Ip) (addrs : List Addr)
      → Keeps LeavesRoutes host (add_static_neighbors env iface link ips addrs)
  unfolding add_static_neighbors
  add_static_neighbors-Keeps iface link ips addrs = search (leaving, neighbor_add-Keeps) depth 8

  pub add_static_neigh_table-Keeps :
      (sriov : Bool) (iface : Text) (ips : List Ip) (addrs : List Addr)
      → Keeps LeavesRoutes host (add_static_neigh_table env sriov iface ips addrs)
  unfolding add_static_neigh_table
  add_static_neigh_table-Keeps sriov iface ips addrs =
      search (leaving, add_static_neighbors-Keeps) depth 8

  add_chained_ip-Keeps :
      (table index : ℤ) (ip : Ip) → Keeps LeavesRoutes host (add_chained_ip env table index ip)
  unfolding add_chained_ip
  add_chained_ip-Keeps table index ip = search leaving depth 8

  pub add_chained_ip_route-Keeps :
      (sriov : Bool) (table : ℤ) (iface : Text) (hosts : List Ip) (ips : List Addr)
      → Keeps LeavesRoutes host (add_chained_ip_route env sriov table iface hosts ips)
  unfolding add_chained_ip_route add_chained_ips
  add_chained_ip_route-Keeps sriov table iface hosts ips =
      search (leaving, add_chained_ip-Keeps) depth 10

  pub add_host_ip_route-Keeps :
      (table family : ℤ) (iface : Text) (ips : List Ip) (sriov : Bool)
      → Keeps LeavesRoutes host (add_host_ip_route env table family iface ips sriov)
  unfolding add_host_ip_route
  add_host_ip_route-Keeps table family iface ips sriov = search leaving depth 8

  add_dst_rule-Keeps :
      (dst : IpNet) (table : ℤ) (o : Option ℤ)
      → Keeps LeavesRoutes pod (add_dst_rule env dst table o)
  unfolding add_dst_rule
  add_dst_rule-Keeps dst table none = search leaving
  add_dst_rule-Keeps dst table (some family) = search leaving

  rule_add_loop-Keeps :
      (routes : List Text) (table : ℤ) (a b : Bool)
      → Keeps LeavesRoutes pod (rule_add env routes table a b)
  unfolding rule_add
  rule_add_loop-Keeps routes table a b = search (leaving, add_dst_rule-Keeps) depth 8

  to_rule_add-Keeps :
      (ips : List Addr) (table : ℤ) (a b : Bool)
      → Keeps LeavesRoutes pod (to_rule_add env ips table a b)
  unfolding to_rule_add
  to_rule_add-Keeps ips table a b = search (leaving, add_dst_rule-Keeps) depth 8

  pub hijack_custom_subnet-Keeps :
      (service overlay more : List Text) (ips : List Addr) (table : ℤ) (a b : Bool)
      → Keeps LeavesRoutes host (hijack_custom_subnet env service overlay more ips table a b)
  unfolding hijack_custom_subnet
  hijack_custom_subnet-Keeps service overlay more ips table a b =
      search (leaving, rule_add_loop-Keeps, to_rule_add-Keeps) depth 8
