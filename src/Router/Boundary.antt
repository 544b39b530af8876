-- ===== src/Router/Boundary.antt =====
-- What the `router` plugin can change, whatever the kernel and the network answer.
pub mod Add
pub mod Command
pub mod Conflict
use cni_plugins.Base.{
  ℕ, zero, suc, ◌≡◌, refl, ◌⊎◌, inl, inr, Bool, true, false, ◌&&◌, not, Option, none, some, List,
  [], ◌∷◌, ◌++◌, if◌then◌else◌, length, exists,
}
use cni_plugins.Base.Text.{Text}
use cni_plugins.Base.Int.{ℤ, pos, is_negative}
use cni_plugins.Net.{Ip, IpNet, Addr, Bytes, Route, Rule, Link, rt_table_main, contains}
use cni_plugins.Net.Mac.{parse_mac_addr}
use cni_plugins.Types.{IpConflict, RpFilter, MigrateRoute}
use cni_plugins.World.{
  Event, Netns, host, pod, Call, M, Env, Error, Attempt, done, failed, pure, fail, crash, call,
  choose, pass, deref, netlink_link_set_up, netlink_link_del, netlink_link_set_hardware_addr,
  netlink_rule_add, netlink_rule_del, netlink_route_add, netlink_route_del, netlink_neigh_add,
  netlink_neigh_del, sysctl_set, spider_add_route, spider_add_static_neighbor_table,
  setup_veth_with_name, netlink_link_by_name, netlink_link_by_index, get_ns,
  spider_ip_address_by_name, sysctl_get, read_dir,
}
use cni_plugins.World.Keeps.{
  Keeps, keeps, Keeps-mono, >>=-Keeps, pure-Keeps, fail-Keeps, crash-Keeps, choose-Keeps,
  call-Keeps, try-Keeps, wrap-Keeps, ignoring-Keeps, do_netns-Keeps, for_each-Keeps, or_fail-Keeps,
  deref-Keeps,
}
use cni_plugins.Plugin.{CmdArgs, IpFamilies, PrevResult, first_interface, check_conflict}
use cni_plugins.Plugin.Boundary.{Permits, parse_mac-Keeps}
use cni_plugins.Plugin.Quiet.{
  check_conflict-Keeps, get_chained_interface_ips-Keeps, get_all_pod_ip-Keeps,
}
use cni_plugins.Plugin.ReadsOnly.{ReadsOnly, get_all_host_ip_route_for_pod-Keeps}
use cni_plugins.Utils.Rules.Safety.{AddsRules, IsHijack, hijack_custom_subnet-Keeps}
use cni_plugins.Utils.Routes.Safety.{MigratesTo, migrate_route-Keeps}
use cni_plugins.Utils.Sysctl.{sysctl_rp_filter, set_rp_filter, write_rp_filter, enable_ipv6_sysctl}
use cni_plugins.Utils.Neighbors.{
  parse_mac, neighbor_add, add_static_neighbors, add_static_neigh_table,
}
use cni_plugins.Utils.MacAddress.{overwrite_mac_address, inet_aton}
use cni_plugins.Router.{
  PluginConf, Json, print_prev_result, set_up_networks, configure, add_interface,
}
use cni_plugins.Router.Routes.{
  host_rule, host_route, add_host_ip_route, add_chained_ip, add_chained_ips, add_chained_ip_route,
}

-- On the host: a rule of priority 1000 and routes are added, both for the one table. In the pod:
-- rules and routes are added, routes of the main table are deleted, and a hardware address is set.
-- On either side: permanent neighbours are added, and kernel parameters are set. Links, rules and
-- neighbours are never deleted, and no link is made.
abbrev pub RouterMay : ℤ → Event → Type 0
RouterMay table e = elim e.call [
  | netlink_rule_add r ↦ (e.ns ≡ pod) ⊎ ((r.table ≡ table) × (r.priority ≡ pos 1000))
  | netlink_route_add r ↦ (e.ns ≡ pod) ⊎ (r.table ≡ table)
  | netlink_route_del r ↦ (e.ns ≡ pod) × (r.table ≡ rt_table_main)
  | netlink_link_set_hardware_addr _ _ ↦ e.ns ≡ pod
  | spider_add_route _ _ _ _ _ _ _ ↦ e.ns ≡ pod
  | netlink_link_set_up _ ↦ ⊥
  | netlink_link_del _ ↦ ⊥
  | netlink_rule_del _ ↦ ⊥
  | netlink_neigh_del _ ↦ ⊥
  | spider_add_static_neighbor_table _ _ _ ↦ ⊥
  | setup_veth_with_name _ _ _ _ ↦ ⊥
  | _ ↦ Unit
]

module _ (table : ℤ) where
  reads_may :
      (n : Netns) (c : Call)
      → ReadsOnly (record { ns = n; call = c })
      → RouterMay table (record { ns = n; call = c })
  reads_may n (netlink_rule_add r) h = absurd h
  reads_may n (netlink_route_add r) h = absurd h
  reads_may n (netlink_route_del r) h = absurd h
  reads_may n (netlink_link_set_hardware_addr l b) h = absurd h
  reads_may n (spider_add_route a b c d e f g) h = absurd h
  reads_may n (netlink_link_set_up l) h = absurd h
  reads_may n (netlink_link_del l) h = absurd h
  reads_may n (netlink_rule_del r) h = absurd h
  reads_may n (netlink_neigh_del r) h = absurd h
  reads_may n (spider_add_static_neighbor_table a b c) h = absurd h
  reads_may n (setup_veth_with_name a b c d) h = absurd h
  reads_may n _ h = tt

  -- The bound permits what both plugins do.
  pub router_permits : Permits (RouterMay table)
  router_permits = record {
    reads = reads_may;
    sysctl = λ n name value. tt;
    pod_rule = λ r. inl refl;
    pod_route = λ r. inl refl;
    pod_route_del = λ r e. (refl, e);
    pod_mac = λ l hw. refl;
  }

module _ (table : ℤ) (env : Env) where
  neighbor_add-Keeps :
      (n : Netns) (iface mac : Text) (ip : Ip)
      → Keeps (RouterMay table) n (neighbor_add env iface mac ip)
  unfolding neighbor_add
  neighbor_add-Keeps n iface mac ip =
      >>=-Keeps (RouterMay table) n _ _
        (wrap-Keeps (RouterMay table) n _ _
          (call-Keeps (RouterMay table) n env (netlink_link_by_name iface) tt))
        λ link.
          >>=-Keeps (RouterMay table) n _ _
            (parse_mac-Keeps (RouterMay table) (router_permits table) n mac)
            λ hw. wrap-Keeps (RouterMay table) n _ _ (
              ignoring-Keeps (RouterMay table) n _ _
                (call-Keeps (RouterMay table) n env (netlink_neigh_add _) tt))

  add_static_neigh_table-Keeps :
      (sriov : Bool) (iface : Text) (ips : List Ip) (addrs : List Addr)
      → Keeps (RouterMay table) host (add_static_neigh_table env sriov iface ips addrs)
  unfolding add_static_neigh_table add_static_neighbors
  add_static_neigh_table-Keeps sriov iface ips addrs =
      choose-Keeps (RouterMay table) host _ _ _ (pure-Keeps (RouterMay table) host tt) (
        >>=-Keeps (RouterMay table) host _ _
          (do_netns-Keeps (RouterMay table) host env _ tt
            (call-Keeps (RouterMay table) pod env (netlink_link_by_name iface) tt))
          λ link. choose-Keeps (RouterMay table) host _ _ _ (pure-Keeps (RouterMay table) host tt) (
            choose-Keeps (RouterMay table) host _ _ _ (pure-Keeps (RouterMay table) host tt) (
              >>=-Keeps (RouterMay table) host _ _
                (call-Keeps (RouterMay table) host env (netlink_link_by_index _) tt)
                λ host_link.
                  >>=-Keeps (RouterMay table) host _ _ (search (keeps, neighbor_add-Keeps))
                    λ _. search (keeps, neighbor_add-Keeps))))
