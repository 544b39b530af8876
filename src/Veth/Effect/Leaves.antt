-- ===== src/Veth/Effect/Leaves.antt =====
-- The parts of the `veth` plugin that leave the pod's routes as they are, whatever is answered.
use cni_plugins.Base.{Bool, List, [], ◌∷◌}
use cni_plugins.Base.Text.{Text}
use cni_plugins.Base.Int.{ℤ}
use cni_plugins.Net.{Bytes, Ip, Addr, Link, Neigh}
use cni_plugins.World.{
  Netns, host, pod, Env, Attempt, done, failed, call, netlink_neigh_list, netlink_neigh_del,
  spider_add_static_neighbor_table, spider_get_gateway_ip,
}
use cni_plugins.World.Keeps.{Keeps, call-Keeps}
use cni_plugins.Utils.Routes.Quiet.{LeavesRoutes}
use cni_plugins.Plugin.Effect.Leaves.{leaving}
use cni_plugins.Veth.{rule_table_of}
use cni_plugins.Veth.Pair.{VethPair}
use cni_plugins.Veth.Setup.{
  clean_neighbors, add_host_neighbors, add_pod_neighbors, setup_neighborhood, add_hijack_route,
  add_pod_routes, add_host_route, final_error, setup_routes,
}

module _ (env : Env) (n : Netns) where
  neigh_list-Keeps : (family : ℤ) → Keeps LeavesRoutes n (call env (netlink_neigh_list family))
  neigh_list-Keeps family = call-Keeps LeavesRoutes n env (netlink_neigh_list family) tt

  neigh_del-Keeps : (neigh : Neigh) → Keeps LeavesRoutes n (call env (netlink_neigh_del neigh))
  neigh_del-Keeps neigh = call-Keeps LeavesRoutes n env (netlink_neigh_del neigh) tt

  add_neighbor-Keeps :
      (index : ℤ) (ip : Ip) (hw : Bytes)
      → Keeps LeavesRoutes n (call env (spider_add_static_neighbor_table index ip hw))
  add_neighbor-Keeps index ip hw =
      call-Keeps LeavesRoutes n env (spider_add_static_neighbor_table index ip hw) tt

  gateways-Keeps : (ips : List Addr) → Keeps LeavesRoutes n (call env (spider_get_gateway_ip ips))
  gateways-Keeps ips = call-Keeps LeavesRoutes n env (spider_get_gateway_ip ips) tt

ruleset setting = (leaving, neigh_list-Keeps, neigh_del-Keeps, add_neighbor-Keeps, gateways-Keeps)

module _ (env : Env) where
  clean_neighbors-Keeps :
      (neighbors : List Neigh) (ips : List Addr)
      → Keeps LeavesRoutes host (clean_neighbors env neighbors ips)
  unfolding clean_neighbors
  clean_neighbors-Keeps neighbors ips = search setting depth 8

  add_host_neighbors-Keeps :
      (link : Link) (mac : Text) (ips : List Addr)
      → Keeps LeavesRoutes host (add_host_neighbors env link mac ips)
  unfolding add_host_neighbors
  add_host_neighbors-Keeps link mac ips = search setting depth 8

  add_pod_neighbors-Keeps :
      (link : Link) (ips : List Ip) → Keeps LeavesRoutes host (add_pod_neighbors env link ips)
  unfolding add_pod_neighbors
  add_pod_neighbors-Keeps link ips = search setting depth 8

  pub setup_neighborhood-Keeps :
      (is_first : Bool) (pair : VethPair) (hosts : List Ip) (ips : List Addr)
      → Keeps LeavesRoutes host (setup_neighborhood env is_first pair hosts ips)
  unfolding setup_neighborhood
  setup_neighborhood-Keeps is_first pair hosts ips =
      search (setting, clean_neighbors-Keeps, add_host_neighbors-Keeps, add_pod_neighbors-Keeps)
        depth 12

  pub rule_table_of-Keeps :
      (is_first : Bool) (name : Text) → Keeps LeavesRoutes host (rule_table_of is_first name)
  unfolding rule_table_of
  rule_table_of-Keeps is_first name = search setting

  add_hijack_route-Keeps :
      (table family : ℤ) (v4 v6 : Ip) (s : Text)
      → Keeps LeavesRoutes pod (add_hijack_route env table family v4 v6 s)
  unfolding add_hijack_route
  add_hijack_route-Keeps table family v4 v6 s = search setting depth 8

  add_pod_routes-Keeps :
      (table family : ℤ) (hosts : List Ip) (v4 v6 : Ip) (subnets : List Text)
      → Keeps LeavesRoutes host (add_pod_routes env table family hosts v4 v6 subnets)
  unfolding add_pod_routes
  add_pod_routes-Keeps table family hosts v4 v6 subnets =
      search (setting, add_hijack_route-Keeps) depth 8

  add_host_route-Keeps :
      (family : ℤ) (name : Text) (ip : Addr)
      → Keeps LeavesRoutes host (add_host_route env family name ip)
  unfolding add_host_route
  add_host_route-Keeps family name ip = search setting

  final_error-Keeps :
      (r : Attempt (Unit {0})) (ips : List Addr) → Keeps LeavesRoutes host (final_error env r ips)
  unfolding final_error
  final_error-Keeps (done u) ips = search setting
  final_error-Keeps (failed e) [] = search setting
  final_error-Keeps (failed e) (a ∷ ips) = search setting

  pub setup_routes-Keeps :
      (table family : ℤ) (name : Text) (hosts : List Ip) (ips : List Addr) (subnets : List Text)
      → Keeps LeavesRoutes host (setup_routes env table family name hosts ips subnets)
  unfolding setup_routes
  setup_routes-Keeps table family name hosts ips subnets =
      search (setting, add_pod_routes-Keeps, add_host_route-Keeps, final_error-Keeps) depth 10
