-- ===== src/Tests/Kernel.antt =====
-- The theorems on rules, routes and traces, on a small host.
use cni_plugins.Base.{◌≡◌, ◌≢◌, ◌↔◌, refl, ◌⊎◌, inl, inr, true, false, List, [], ◌∷◌}
use cni_plugins.Base.Text.{Text, codes}
use cni_plugins.Base.Int.{pos}
use cni_plugins.Net.{Route, Addr, rt_table_main, is_link_local_net, family_v4, family_v6}
use cni_plugins.World.{
  World, host, pod, enter_netns, netlink_rule_add, netlink_route_add, netlink_route_del, ok, err,
  foreign, errorf, choose, do_netns, pass, ◌>>◌,
}
use cni_plugins.World.Runs.{after}
use cni_plugins.Types.{migrate_auto, migrate_enable}
use cni_plugins.Utils.Rules.{from_rule}
use cni_plugins.Utils.Routes.{move_route_table, migrate_route}
use cni_plugins.Utils.Routes.Defaults.{IsIpv4Default}
use cni_plugins.Utils.Routes.Exact.{
  InPod, hop_route, move_route_table_own, move_route_table_nexthop,
}
use cni_plugins.Utils.Routes.Refused.{Stands, move_route_table_refused}
use cni_plugins.Utils.Routes.Migrate.{migrate_route_auto, migrate_route_lost_error}
use cni_plugins.Tests.Fixtures.{
  kind_env, no_rule_env, no_route_env, refusal, pod_addr, eth0, routes, default_route, shared_route,
  nexthop, other_hop,
}

abbrev service : List Text
service = codes "10.233.0.0/18" ∷ []

abbrev overlay : List Text
overlay = codes "10.233.64.0/18" ∷ []

abbrev additional : List Text
additional = codes "10.233.128.0/18" ∷ codes "nonsense" ∷ []

abbrev ips : List Addr
ips = pod_addr ∷ []

abbrev in_host : World
in_host = record { ns = host; trace = [] }

abbrev in_pod : World
in_pod = record { ns = pod; trace = [] }

move_route_table_own_example :
    let (result, w) = move_route_table kind_env (codes "eth0") (pos 100) family_v4 in_pod in
    (result ≡ ok tt)
    × InPod (netlink_route_add (record default_route { table = pos 100 })) w.trace
    × (InPod (netlink_route_del default_route) w.trace ⊎ ¬ IsIpv4Default default_route.dst)
unfolding is_link_local_net
move_route_table_own_example =
    move_route_table_own kind_env (λ t n r. refl, λ t n r. refl) (codes "eth0") eth0 (pos 100)
      family_v4 routes [] (λ t n. refl) (λ t n. refl) default_route (inl refl) refl refl refl

move_route_table_nexthop_example :
    let (result, w) = move_route_table kind_env (codes "eth0") (pos 100) family_v4 in_pod in
    (result ≡ ok tt)
    × InPod (netlink_route_add (hop_route (pos 2) (10 ∷ 6 ∷ 0 ∷ 2 ∷ []) (pos 100) 1450)) w.trace
    × InPod (netlink_route_del (hop_route (pos 2) (10 ∷ 6 ∷ 0 ∷ 2 ∷ []) rt_table_main 0)) w.trace
unfolding is_link_local_net
move_route_table_nexthop_example =
    move_route_table_nexthop kind_env (λ t n r. refl, λ t n r. refl) (codes "eth0") eth0 (pos 100)
      family_v4 routes [] (λ t n. refl) (λ t n. refl) shared_route (inr (inl refl)) refl refl
      (other_hop ∷ []) [] nexthop (λ h. cc) refl ((λ h. cc), tt) refl

migrate_route_auto_example :
    migrate_route kind_env (codes "eth0") (codes "net1") ips migrate_auto (pos 100) true false
    ≡ migrate_route kind_env (codes "eth0") (codes "net1") ips migrate_enable (pos 100) true false
migrate_route_auto_example =
    migrate_route_auto kind_env (codes "eth0") (codes "net1") ips (pos 100) migrate_auto true false
      (λ h. cc)

migrate_route_lost_error_example :
    migrate_route no_rule_env
      (codes "eth0")
      (codes "net1")
      ips
      migrate_enable
      (pos 100)
      true
      false
      in_host
    ≡ (choose true
            (do_netns no_rule_env (move_route_table no_rule_env (codes "eth0") (pos 100) family_v4))
            pass
          >> choose false
              (do_netns no_rule_env
                (move_route_table no_rule_env (codes "eth0") (pos 100) family_v6))
              pass)
        (record {
          ns = host;
          trace =
              after pod
                (netlink_rule_add (from_rule pod_addr (pos 100) true false) ∷ [])
                (after host (enter_netns ∷ []) []);
        })
migrate_route_lost_error_example =
    migrate_route_lost_error no_rule_env (codes "eth0") (codes "net1") pod_addr [] migrate_enable
      (pos 100) true false refusal [] (λ t n. refl) (λ t n. refl) (λ h. cc)

move_route_table_refused_example :
    let (result, w) = move_route_table no_route_env (codes "eth0") (pos 100) family_v4 in_pod in
    (result ≡ err (errorf "failed to add route (%+v) to new table: %+v" (foreign refusal)))
    × ((q : Route)
        → Stands no_route_env (λ r. r ≡ default_route) w.trace q
          ↔ ((q ≡ default_route) × (q ≢ default_route)))
move_route_table_refused_example =
    move_route_table_refused no_route_env (codes "eth0") eth0 (pos 100) family_v4 []
      (shared_route ∷ []) default_route refusal (λ r. r ≡ default_route) [] (λ t. refl) (λ t. refl)
      tt refl refl tt (λ t. refl) (λ t. refl) refl
