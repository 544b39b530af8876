-- ===== src/Utils/Routes/Safety.antt =====
-- What moving routes can do to the kernel, whatever it answers.
use cni_plugins.Base.{◌≡◌, refl, Bool, false, ◌||◌, not, Option, none, some, List, arith}
use cni_plugins.Base.Text.{Text}
use cni_plugins.Base.Int.{ℤ, ◌==ℤ◌, ==ℤ_iff}
use cni_plugins.Net.{Addr, Nexthop, Route, rt_table_main, is_link_local_net}
use cni_plugins.World.{
  Event, host, pod, netlink_rule_add, netlink_route_add, netlink_route_del, netlink_link_by_name,
  netlink_route_list, enter_netns, Env, call,
}
use cni_plugins.World.Keeps.{
  Keeps, keeps, >>=-Keeps, for_each-Keeps, call-Keeps, choose-Keeps, choose-Keeps_of_test,
  pure-Keeps,
}
use cni_plugins.Utils.Rules.{add_from_rule_table, from_rule}
use cni_plugins.Utils.Routes.{
  move_own_route, move_nexthop, move_route, move_route_table, migrate_route, generated_route,
  deleted_route,
}
use cni_plugins.Types.{MigrateRoute}

-- In the pod: rules for sources and routes are added to the given table, and routes of the main
-- table are deleted. Besides, the pod is entered, and links and routes are read.
abbrev pub MigratesTo : ℤ → Event → Type 0
MigratesTo table e = elim e.call [
  | netlink_rule_add r ↦ (e.ns ≡ pod) × (r.table ≡ table) × (r.dst ≡ none)
  | netlink_route_add r ↦ (e.ns ≡ pod) × (r.table ≡ table)
  | netlink_route_del r ↦ (e.ns ≡ pod) × (r.table ≡ rt_table_main)
  | netlink_link_by_name _ ↦ e.ns ≡ pod
  | netlink_route_list _ ↦ e.ns ≡ pod
  | enter_netns ↦ Unit
  | _ ↦ ⊥
]

module _ (env : Env) (table : ℤ) where
  route_add-Keeps :
      (r : Route) → r.table ≡ table → Keeps (MigratesTo table) pod (call env (netlink_route_add r))
  route_add-Keeps r h = call-Keeps (MigratesTo table) pod env (netlink_route_add r) (refl, h)

  route_del-Keeps :
      (r : Route)
      → r.table ≡ rt_table_main
      → Keeps (MigratesTo table) pod (call env (netlink_route_del r))
  route_del-Keeps r h = call-Keeps (MigratesTo table) pod env (netlink_route_del r) (refl, h)

  rule_add-Keeps :
      (ip : Addr) (enable_ipv4 enable_ipv6 : Bool)
      → Keeps
          (MigratesTo table)
          pod
          (call env (netlink_rule_add (from_rule ip table enable_ipv4 enable_ipv6)))
  unfolding from_rule
  rule_add-Keeps ip enable_ipv4 enable_ipv6 =
      call-Keeps (MigratesTo table) pod env
        (netlink_rule_add (from_rule ip table enable_ipv4 enable_ipv6)) (refl, refl, refl)

  add_from_rule_table-Keeps_migrate :
      (ips : List Addr) (enable_ipv4 enable_ipv6 : Bool)
      → Keeps (MigratesTo table) pod (add_from_rule_table env ips table enable_ipv4 enable_ipv6)
  unfolding add_from_rule_table
  add_from_rule_table-Keeps_migrate ips enable_ipv4 enable_ipv6 = search (keeps, rule_add-Keeps)

  move_own_route-Keeps :
      (r : Route)
      → r.table ≡ rt_table_main
      → Keeps (MigratesTo table) pod (move_own_route env table r)
  unfolding move_own_route
  move_own_route-Keeps r h =
      >>=-Keeps (MigratesTo table) pod _ _ (search (keeps, route_del-Keeps))
        λ _. search (keeps, route_add-Keeps)

  move_nexthop-Keeps :
      (r : Route) (o : Option Nexthop) → Keeps (MigratesTo table) pod (move_nexthop env table r o)
  unfolding move_nexthop generated_route deleted_route
  move_nexthop-Keeps r none = search keeps
  move_nexthop-Keeps r (some v) =
      >>=-Keeps (MigratesTo table) pod _ _ (search (keeps, route_add-Keeps))
        λ _. search (keeps, route_del-Keeps)

  main_of_tests :
      (r : Route)
      → (not (r.table ==ℤ rt_table_main) || is_link_local_net r.dst) ≡ false
      → r.table ≡ rt_table_main
  main_of_tests r h = ground (arith, ==ℤ_iff r.table rt_table_main)

  move_route-Keeps :
      (index : ℤ) (r : Route) → Keeps (MigratesTo table) pod (move_route env index table r)
  unfolding move_route
  move_route-Keeps index r =
      choose-Keeps_of_test (MigratesTo table) pod _ _ _ (λ _. pure-Keeps _ pod tt)
        λ h.
          choose-Keeps (MigratesTo table) pod _ _ _ (move_own_route-Keeps r (main_of_tests r h))
            (move_nexthop-Keeps r _)

  move_route_table-Keeps :
      (iface : Text) (family : ℤ)
      → Keeps (MigratesTo table) pod (move_route_table env iface table family)
  unfolding move_route_table
  move_route_table-Keeps iface family =
      >>=-Keeps (MigratesTo table) pod _ _ (call-Keeps _ pod env (netlink_link_by_name iface) refl)
        λ link.
          >>=-Keeps (MigratesTo table) pod _ _
            (call-Keeps _ pod env (netlink_route_list family) refl)
            λ routes. for_each-Keeps _ pod routes _ (move_route-Keeps link.index)

  -- Whatever the outside answers, migrating the default route only touches the pod: it adds rules
  -- for sources and routes to the given table and deletes routes of the main table, and leaves the
  -- host's namespace current.
  pub migrate_route-Keeps :
      (default_interface chained_interface : Text) (ips : List Addr) (value : MigrateRoute)
      (enable_ipv4 enable_ipv6 : Bool)
      → Keeps (MigratesTo table) host (
          migrate_route env default_interface chained_interface ips value table enable_ipv4
            enable_ipv6)
  unfolding migrate_route
  migrate_route-Keeps default_interface chained_interface ips value enable_ipv4 enable_ipv6 =
      search (keeps, add_from_rule_table-Keeps_migrate, move_route_table-Keeps) depth 7
