-- ===== src/Utils/Neighbors.antt =====
-- The neighbour tables of pkg/utils/utils.go: `AddStaticNeighTable`, `NeighborAdd`, `parseMac`.
pub mod Exact
pub mod RoundTrip
use cni_plugins.Base.{Bool, none, some, List, is_empty}
use cni_plugins.Base.Text.{Text}
use cni_plugins.Base.Int.{ℤ, is_negative}
use cni_plugins.Net.{Bytes, Ip, Addr, Link, Neigh, nud_permanent, nda_lladdr}
use cni_plugins.Net.Mac.{mac_string, parse_mac_addr}
use cni_plugins.World.{
  M, Env, errorf, ◌>>=◌, ◌>>◌, pure, crash, pass, choose, wrap, ignoring, os_is_exist, call,
  do_netns, for_each, netlink_link_by_name, netlink_link_by_index, netlink_neigh_add,
}

-- `panic(err)` where the text is no hardware address.
unfoldable pub parse_mac : Text → M Bytes
parse_mac s = elim (parse_mac_addr s) [ none ↦ crash "invalid MAC address" | some hw ↦ pure hw ]

unfoldable pub static_neigh : ℤ → Ip → Bytes → Neigh
static_neigh index ip hw = record {
  link_index = index;
  state = nud_permanent;
  kind = nda_lladdr;
  ip = ip;
  hardware_addr = hw;
}

module _ (env : Env) where
  unfoldable pub neighbor_add : Text → Text → Ip → M Unit
  neighbor_add iface mac net_ip = do
    link ← wrap (errorf "failed to get link: %v") (call env (netlink_link_by_name iface))
    hw ← parse_mac mac
    wrap (errorf "failed to add neigh table(%+v): %v ")
        (ignoring os_is_exist (call env (netlink_neigh_add (static_neigh link.index net_ip hw))))

  -- The part of `AddStaticNeighTable` behind the two tests of the overlay link.
  unfoldable pub add_static_neighbors : Text → Link → List Ip → List Addr → M Unit
  add_static_neighbors default_overlay_interface link host_ips chained_interface_ips = do
    host_link ← call env (netlink_link_by_index link.parent_index)
    do_netns env (
        for_each host_ips
          (neighbor_add default_overlay_interface (mac_string host_link.hardware_addr)))
    for_each chained_interface_ips
        λ addr. neighbor_add host_link.name (mac_string link.hardware_addr) addr.ip

  unfoldable pub add_static_neigh_table : Bool → Text → List Ip → List Addr → M Unit
  add_static_neigh_table i_sriov default_overlay_interface host_ips chained_interface_ips =
      choose i_sriov pass do
        link ← do_netns env (call env (netlink_link_by_name default_overlay_interface))
        choose (is_negative link.parent_index) pass (
            choose (is_empty (mac_string link.hardware_addr)) pass
              (add_static_neighbors default_overlay_interface link host_ips chained_interface_ips))
