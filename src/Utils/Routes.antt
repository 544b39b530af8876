-- ===== src/Utils/Routes.antt =====
-- The routes of pkg/utils/utils.go: `RouteAdd`, `AddrListByName`, `GetNextHopIPs`,
-- `moveRouteTable` and `MigrateRoute`.
pub mod Calls
pub mod Defaults
pub mod Safety
pub mod Exact
pub mod Migrate
pub mod Tables
pub mod Moved
pub mod Order
pub mod Quiet
pub mod Refine
pub mod Ipv6
pub mod Refused
use cni_plugins.Base.{
  ℕ, Bool, true, false, ◌&&◌, ◌||◌, not, Option, none, some, List, [], ◌∷◌, ◌++◌, if◌then◌else◌,
  is_empty,
}
use cni_plugins.Base.Text.{Text, codes}
use cni_plugins.Base.Int.{ℤ, pos, negsuc, ◌==ℤ◌}
use cni_plugins.Net.{
  Ip, IpNet, Addr, Link, Nexthop, Route, empty_route, is_v4, ip_equal, ipv4_zero, is_link_local_net,
  mask_32, mask_128, family_v4, family_v6, rt_table_main, scope_link,
}
use cni_plugins.Constant.{err_file_exists, err_route_file_exist}
use cni_plugins.World.{
  M, Env, Error, new, errorf, ◌>>=◌, ◌>>◌, pure, fail, pass, choose, wrap, try, ignoring,
  message_is, call, do_netns, parse_cidr, for_each, netlink_link_by_name, netlink_route_add,
  netlink_route_del, netlink_route_list, netlink_route_get, netlink_addr_list,
}
use cni_plugins.Types.{MigrateRoute, migrate_auto, migrate_never}
use cni_plugins.Utils.Names.{compare_interface_name, default_interface_name}
use cni_plugins.Utils.Rules.{add_from_rule_table}

-- The mask that `RouteAdd` gives an address, and `none` where it leaves it nil.
unfoldable pub route_mask : Ip → Bool → Bool → Option (List ℕ)
route_mask ip enable_ipv4 enable_ipv6 =
    if not (is_v4 ip) && enable_ipv6
    then some mask_128
    else if is_v4 ip && enable_ipv4
    then some mask_32
    else none

unfoldable pub link_route : Link → ℤ → IpNet → Route
link_route link table dst = record empty_route {
  link_index = link.index;
  scope = scope_link;
  dst = some dst;
  table = table;
}

-- `route.Dst == nil || route.Dst.IP.Equal(net.IPv4zero)`
unfoldable pub is_default : Option IpNet → Bool
is_default none = true
is_default (some n) = ip_equal n.ip ipv4_zero

-- The first next hop over the link.
unfoldable pub find_nexthop : ℤ → List Nexthop → Option Nexthop
find_nexthop index [] = none
find_nexthop index (v ∷ vs) =
    let rest = find_nexthop index vs in if v.link_index ==ℤ index then some v else rest

unfoldable pub generated_route : Nexthop → ℤ → Route → Route
generated_route v table route = record empty_route {
  link_index = v.link_index;
  gw = v.gw;
  table = table;
  mtu = route.mtu;
}

unfoldable pub deleted_route : Nexthop → Route
deleted_route v = record empty_route { link_index = v.link_index; gw = v.gw; table = rt_table_main }

module _ (env : Env) where
  route_add_masked : Link → ℤ → IpNet → M Unit
  route_add_masked link table dst =
      ignoring (message_is err_file_exists)
        (call env (netlink_route_add (link_route link table dst)))

  -- The loop of `RouteAdd` with `dst4` and `dst6`.
  unfoldable pub route_add_loop :
      Link
      → ℤ
      → Bool
      → Bool
      → List Text
      → Option IpNet
      → Option IpNet
      → M (Option IpNet × Option IpNet)
  unfolding route_add_masked
  route_add_loop link table enable_ipv4 enable_ipv6 [] dst4 dst6 = pure (dst4, dst6)
  route_add_loop link table enable_ipv4 enable_ipv6 (ip ∷ ips) dst4 dst6 = do
    parsed ← parse_cidr env ip
    elim (route_mask parsed.0 enable_ipv4 enable_ipv6) [
      | none ↦ route_add_loop link table enable_ipv4 enable_ipv6 ips dst4 dst6
      | some mask ↦
          let dst : IpNet = record { ip = parsed.0; mask = mask } in
          route_add_masked link table dst
          >> route_add_loop link table enable_ipv4 enable_ipv6 ips
              (if is_v4 parsed.0 then some dst else dst4)
              (if is_v4 parsed.0 then dst6 else some dst)
    ]

  unfoldable pub route_add : ℤ → Text → List Text → Bool → Bool → M (Option IpNet × Option IpNet)
  unfolding route_add_loop
  route_add rule_table iface ips enable_ipv4 enable_ipv6 = do
    link ← call env (netlink_link_by_name iface)
    route_add_loop link rule_table enable_ipv4 enable_ipv6 ips none none

  unfoldable pub addr_list_by_name : Text → ℤ → M (List Addr)
  addr_list_by_name iface family = do
    link ← call env (netlink_link_by_name iface)
    call env (netlink_addr_list link family)

  -- The loop of `GetNextHopIPs`: the source of the first route to each address.
  unfoldable pub next_hop_loop : List Text → List Ip → M (List Ip)
  next_hop_loop [] via_ips = pure via_ips
  next_hop_loop (nip ∷ ips) via_ips = do
    parsed ← wrap (errorf "failed to parse cidr %s: %v") (parse_cidr env nip)
    routes ← wrap (errorf "failed to ip route get %s: %v") (call env (netlink_route_get parsed.0))
    next_hop_loop ips (elim routes [ [] ↦ via_ips | route ∷ _ ↦ via_ips ++ route.src ∷ [] ])

  unfoldable pub get_next_hop_ips : List Text → M (List Ip)
  unfolding next_hop_loop
  get_next_hop_ips ips = do
    via_ips ← next_hop_loop ips []
    choose (is_empty via_ips) (fail (new "nexthoop ips no found on host")) (pure via_ips)

  -- A route of the main table over the interface itself: one without a destination or with 0.0.0.0
  -- goes, and every route is added to the new table.
  unfoldable pub move_own_route : ℤ → Route → M Unit
  move_own_route rule_table route = do
    choose (is_default route.dst)
        (wrap (errorf "failed to delete default route (%+v) in main table: %+v")
          (call env (netlink_route_del route)))
        pass
    wrap (errorf "failed to add route (%+v) to new table: %+v") (
        ignoring (message_is err_route_file_exist)
          (call env (netlink_route_add (record route { table = rule_table }))))

  -- A route with several next hops: the one over the interface is added to the new table and then
  -- deleted from the main one.
  unfoldable pub move_nexthop : ℤ → Route → Option Nexthop → M Unit
  move_nexthop rule_table route none = pass
  move_nexthop rule_table route (some v) = do
    wrap (errorf "failed to move overlay route (%+v) to new table: %+v") (
        ignoring (message_is err_route_file_exist)
          (call env (netlink_route_add (generated_route v rule_table route))))
    wrap (errorf "failed to delete default route (%+v) in main table: %+v")
        (call env (netlink_route_del (deleted_route v)))

  -- A round of the loop of `moveRouteTable`.
  unfoldable pub move_route : ℤ → ℤ → Route → M Unit
  move_route index rule_table route =
      choose (not (route.table ==ℤ rt_table_main) || is_link_local_net route.dst) pass (
        choose (route.link_index ==ℤ index) (move_own_route rule_table route)
          (move_nexthop rule_table route (find_nexthop index route.multi_path)))

  unfoldable pub move_route_table : Text → ℤ → ℤ → M Unit
  move_route_table iface rule_table ipfamily = do
    link ← call env (netlink_link_by_name iface)
    routes ← call env (netlink_route_list ipfamily)
    for_each routes (move_route link.index rule_table)

  -- The error of `AddFromRuleTable` is assigned and never looked at.
  unfoldable pub migrate_route : Text → Text → List Addr → MigrateRoute → ℤ → Bool → Bool → M Unit
  migrate_route default_interface chained_interface default_interface_ips value rule_table
        enable_ipv4 enable_ipv6 =
      choose
        (value ==ℤ migrate_never
          || (value ==ℤ migrate_auto
              && not (compare_interface_name chained_interface default_interface_name)))
        pass
        do
          try (
              do_netns env
                (add_from_rule_table env default_interface_ips rule_table enable_ipv4 enable_ipv6))
          choose enable_ipv4
              (do_netns env (move_route_table default_interface rule_table family_v4)) pass
          choose enable_ipv6
              (do_netns env (move_route_table default_interface rule_table family_v6)) pass
