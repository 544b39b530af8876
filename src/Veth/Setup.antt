-- ===== src/Veth/Setup.antt =====
-- `setupNeighborhood` and `setupRoutes` of plugins/veth/veth.go.
pub mod Exact
pub mod LostError
pub mod Neighborhood
use cni_plugins.Base.{
  ℕ, Bool, true, false, ◌&&◌, ◌||◌, not, Option, none, some, List, [], ◌∷◌, ◌++◌, if◌then◌else◌,
  is_empty, exists,
}
use cni_plugins.Base.Text.{Text, codes}
use cni_plugins.Base.Int.{ℤ}
use cni_plugins.Net.{
  Bytes, Ip, IpNet, Addr, Link, Neigh, is_v4, ip_equal, family_all, rt_table_main, scope_link,
  scope_universe,
}
use cni_plugins.Net.Mac.{mac_string, parse_mac_addr}
use cni_plugins.World.{
  M, Env, Error, new, errorf, Attempt, done, failed, try, ◌>>=◌, ◌>>◌, pure, fail, pass, choose,
  or_fail, wrap, call, do_netns, parse_cidr, for_each, netlink_link_by_name, netlink_neigh_list,
  netlink_neigh_del, spider_add_static_neighbor_table, spider_add_route, spider_get_gateway_ip,
}
use cni_plugins.Veth.Pair.{VethPair, default_con_veth}

module _ (env : Env) where
  -- Old entries for the pod's addresses are deleted; errors are only logged.
  unfoldable pub clean_neighbors : List Neigh → List Addr → M Unit
  clean_neighbors neighbors con_ips = for_each neighbors λ neigh.
      choose (exists (λ (addr : Addr). ip_equal neigh.ip addr.ip) con_ips)
        (try (call env (netlink_neigh_del neigh)) >> pass) pass

  unfoldable pub listed : Attempt (List Neigh) → List Neigh
  listed (done l) = l
  listed (failed e) = []

  -- The entries of the host's table for the pod's addresses.
  unfoldable pub add_host_neighbors : Link → Text → List Addr → M Unit
  add_host_neighbors host_link container_mac con_ips = for_each con_ips λ con_ip. do
    hw ← or_fail (parse_mac_addr container_mac) (new "veth's mac is invalid: %v")
    call env (spider_add_static_neighbor_table host_link.index con_ip.ip hw)

  -- The entries of the pod's table for the host's addresses.
  unfoldable pub add_pod_neighbors : Link → List Ip → M Unit
  add_pod_neighbors host_link host_ips = do_netns env do
    pod_link ←
        wrap (errorf "setupNeighborhood: %v") (call env (netlink_link_by_name default_con_veth))
    for_each host_ips λ host_ip.
        call env (spider_add_static_neighbor_table pod_link.index host_ip host_link.hardware_addr)

  -- The pair that is returned has the hardware address of the host's link, which the code stores in
  -- `hostInterface`.
  unfoldable pub setup_neighborhood : Bool → VethPair → List Ip → List Addr → M VethPair
  setup_neighborhood is_first pair host_ips con_ips = do
    host_link ←
        wrap (errorf "setupNeighborhood: %v")
          (call env (netlink_link_by_name pair.host_interface.name))
    neighbors ← try (call env (netlink_neigh_list family_all))
    clean_neighbors (listed neighbors) con_ips
    add_host_neighbors host_link pair.container_interface.mac con_ips
    choose (not is_first) pass (add_pod_neighbors host_link host_ips)
    pure (record pair {
      host_interface = record pair.host_interface { mac = mac_string host_link.hardware_addr };
    })

  -- A round over the hijacked subnets: without a gateway of its family it is passed over.
  unfoldable pub add_hijack_route : ℤ → ℤ → Ip → Ip → Text → M Unit
  add_hijack_route rule_table ipfamily v4_gw v6_gw hijack = do
    p ← parse_cidr env hijack
    choose (if is_v4 p.0 then is_empty v4_gw else is_empty v6_gw) pass (
        wrap (errorf "failed to AddRoute for hijackCIDR: %v") (
          call env
            (spider_add_route rule_table ipfamily scope_universe default_con_veth p.1 v4_gw v6_gw)))

  unfoldable pub add_pod_routes : ℤ → ℤ → List Ip → Ip → Ip → List Text → M Unit
  add_pod_routes rule_table ipfamily host_ips v4_gw v6_gw all_subnets = do_netns env do
    for_each host_ips λ host_address.
        wrap (errorf "failed to AddRouteTable for ipAddressOnNode: %v") (
          call env (
            spider_add_route rule_table ipfamily scope_link default_con_veth
              (env.convert_max_mask_ip_net host_address) [] []))
    for_each all_subnets (add_hijack_route rule_table ipfamily v4_gw v6_gw)

  unfoldable pub add_host_route : ℤ → Text → Addr → M Unit
  add_host_route ipfamily host_name con_ip =
      wrap (errorf "failed to AddRouteTable for preInterface %s's IPAddress: %v") (
        call env (
          spider_add_route rt_table_main ipfamily scope_link host_name
            (env.convert_max_mask_ip_net con_ip.ip) [] []))

  -- The value of `err` at the end: that of the pod's part, unless a round of the host's part has
  -- assigned it anew.
  unfoldable pub final_error : Attempt (Unit {0}) → List Addr → M Unit
  final_error (failed e) [] = fail e
  final_error _ _ = pass

  unfoldable pub setup_routes : ℤ → ℤ → Text → List Ip → List Addr → List Text → M Unit
  setup_routes rule_table ipfamily host_name host_ips con_ips all_subnets = do
    gateways ← call env (spider_get_gateway_ip con_ips)
    in_pod ← try (add_pod_routes rule_table ipfamily host_ips gateways.0 gateways.1 all_subnets)
    for_each con_ips (add_host_route ipfamily host_name)
    final_error in_pod con_ips
