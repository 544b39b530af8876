-- ===== src/Plugin/Success.antt =====
-- The code that both plugins run, where the outside answers every call.
use cni_plugins.Base.{
  ◌≡◌, refl, Bool, true, Option, none, some, List, [], ◌∷◌, ◌++◌, All-append, is_some,
}
use cni_plugins.Base.Text.{Text}
use cni_plugins.Base.Int.{ℤ}
use cni_plugins.Net.{Ip, IpNet, Addr, Nexthop, Route}
use cni_plugins.Types.{RpFilter, MigrateRoute}
use cni_plugins.World.{
  Trace, read_dir, sysctl_get, sysctl_set, spider_get_all_ip_address, spider_get_gateway_ip,
  netlink_rule_add, netlink_route_add, netlink_route_del, netlink_route_list, netlink_link_by_name,
  Netns, host, pod, Env, choose, pass, Attempt, done, failed, do_netns,
}
use cni_plugins.World.Succeeds.{
  Succeeds, Any, IsDone, AnswersAll, pure-Succeeds, >>=-Succeeds, wrap-Succeeds, ignoring-Succeeds,
  try-Succeeds, choose-Succeeds, deref-Succeeds, for_each-Succeeds, done-Succeeds, All-Any,
  do_netns-Succeeds, parse_cidr-Succeeds,
}
use cni_plugins.Config.Laws.{AreSubnets}
use cni_plugins.Utils.Rules.{
  add_dst_rule, rule_add, to_rule_add, add_from_rule_table, hijack_custom_subnet,
}
use cni_plugins.Utils.Routes.{
  move_own_route, move_nexthop, move_route, move_route_table, migrate_route,
}
use cni_plugins.Utils.Sysctl.{sysctl_rp_filter, set_rp_filter, write_rp_filter, enable_ipv6_sysctl}
use cni_plugins.Networking.{gateway_ips, get_all_host_ip_route_for_pod}
use cni_plugins.Plugin.{get_all_pod_ip}

pub some_of_is_some : {A : Type 0} (o : Option A) → is_some o ≡ true → (a : A) × (o ≡ some a)
some_of_is_some none h = absurd (cc)
some_of_is_some (some a) h = (a, refl)

module _ {I : Trace → Type 0} (env : Env) (answers : AnswersAll I env) where
  add_dst_rule-Succeeds :
      (n : Netns) (dst : IpNet) (table : ℤ) (o : Option ℤ)
      → Succeeds I n Any (add_dst_rule env dst table o)
  unfolding add_dst_rule
  add_dst_rule-Succeeds n dst table none = pure-Succeeds n Any tt tt
  add_dst_rule-Succeeds n dst table (some family) =
      wrap-Succeeds n Any _ _
        (ignoring-Succeeds n Any _ _ (done-Succeeds env answers n (netlink_rule_add _)))

  rule_add-Succeeds :
      (n : Netns) (routes : List Text) (table : ℤ) (a b : Bool)
      → AreSubnets env.parse_cidr routes
      → Succeeds I n Any (rule_add env routes table a b)
  unfolding rule_add
  rule_add-Succeeds n routes table a b h =
      for_each-Succeeds n (λ s. is_some (env.parse_cidr s) ≡ true) routes _ h
        λ s e.
          let (p, q) = some_of_is_some (env.parse_cidr s) e in
          >>=-Succeeds n Any Any _ _ (parse_cidr-Succeeds env n s p q)
            λ p _. add_dst_rule-Succeeds n _ table _

  pub hijack_custom_subnet-Succeeds :
      (service overlay additional : List Text) (ips : List Addr) (table : ℤ) (a b : Bool)
      → AreSubnets env.parse_cidr overlay
      → AreSubnets env.parse_cidr service
      → AreSubnets env.parse_cidr additional
      → Succeeds I host Any (hijack_custom_subnet env service overlay additional ips table a b)
  unfolding hijack_custom_subnet to_rule_add
  hijack_custom_subnet-Succeeds service overlay additional ips table a b o s d =
      do_netns-Succeeds env Any _ answers (
        >>=-Succeeds pod Any Any _ _
          (choose-Succeeds pod Any _ _ _
            (λ _.
              rule_add-Succeeds pod (overlay ++ service) table a b
                (All-append (λ s. is_some (env.parse_cidr s) ≡ true) overlay service o s))
            (λ _.
              for_each-Succeeds pod Any ips _ (All-Any ips)
                λ ip _. add_dst_rule-Succeeds pod _ table _))
          λ _ _. rule_add-Succeeds pod additional table a b d)

  move_nexthop-Succeeds :
      (table : ℤ) (r : Route) (o : Option Nexthop) → Succeeds I pod Any (move_nexthop env table r o)
  unfolding move_nexthop
  move_nexthop-Succeeds table r none = pure-Succeeds pod Any tt tt
  move_nexthop-Succeeds table r (some v) =
      >>=-Succeeds pod Any Any _ _
        (wrap-Succeeds pod Any _ _
          (ignoring-Succeeds pod Any _ _ (done-Succeeds env answers pod (netlink_route_add _))))
        λ _ _. wrap-Succeeds pod Any _ _ (done-Succeeds env answers pod (netlink_route_del _))

  move_route-Succeeds :
      (index table : ℤ) (r : Route) → Succeeds I pod Any (move_route env index table r)
  unfolding move_route move_own_route
  move_route-Succeeds index table r =
      choose-Succeeds pod Any _ _ _ (λ _. pure-Succeeds pod Any tt tt)
        λ _.
          choose-Succeeds pod Any _ _ _
            (λ _.
              >>=-Succeeds pod Any Any _ _
                (choose-Succeeds pod Any _ _ _
                  (λ _.
                    wrap-Succeeds pod Any _ _ (done-Succeeds env answers pod (netlink_route_del _)))
                  (λ _. pure-Succeeds pod Any tt tt))
                λ _ _. wrap-Succeeds pod Any _ _ (
                  ignoring-Succeeds pod Any _ _
                    (done-Succeeds env answers pod (netlink_route_add _))))
            (λ _. move_nexthop-Succeeds table r _)

  move_route_table-Succeeds :
      (iface : Text) (table family : ℤ)
      → Succeeds I pod Any (move_route_table env iface table family)
  unfolding move_route_table
  move_route_table-Succeeds iface table family =
      >>=-Succeeds pod Any Any _ _ (done-Succeeds env answers pod (netlink_link_by_name iface))
        λ link _.
          >>=-Succeeds pod Any Any _ _ (done-Succeeds env answers pod (netlink_route_list family))
            λ routes _.
              for_each-Succeeds pod Any routes _ (All-Any routes)
                λ r _. move_route-Succeeds link.index table r

  pub migrate_route-Succeeds :
      (iface chained : Text) (ips : List Addr) (v : MigrateRoute) (table : ℤ) (a b : Bool)
      → Succeeds I host Any (migrate_route env iface chained ips v table a b)
  unfolding migrate_route add_from_rule_table
  migrate_route-Succeeds iface chained ips v table a b =
      choose-Succeeds host Any _ _ _ (λ _. pure-Succeeds host Any tt tt)
        λ _.
          >>=-Succeeds host (IsDone Any) Any _ _
            (try-Succeeds host Any _ (
              do_netns-Succeeds env Any _ answers (
                for_each-Succeeds pod Any ips _ (All-Any ips)
                  λ ip _. done-Succeeds env answers pod (netlink_rule_add _))))
            λ _ _.
              >>=-Succeeds host Any Any _ _ (family-Succeeds a _ _ _) λ _ _. family-Succeeds b _ _ _
    where
      family-Succeeds :
          (on : Bool) (iface : Text) (table family : ℤ)
          → Succeeds I host Any
              (choose on (do_netns env (move_route_table env iface table family)) pass)
      family-Succeeds on iface table family =
          choose-Succeeds host Any _ _ _
            (λ _.
              do_netns-Succeeds env Any _ answers (move_route_table-Succeeds iface table family))
            (λ _. pure-Succeeds host Any tt tt)

  write_rp_filter-Succeeds :
      (n : Netns) (name : Text) (v : ℤ) (value : Attempt Text)
      → Succeeds I n Any (write_rp_filter env name v value)
  unfolding write_rp_filter
  write_rp_filter-Succeeds n name v (failed e) = pure-Succeeds n Any tt tt
  write_rp_filter-Succeeds n name v (done value) =
      choose-Succeeds n Any _ _ _ (λ _. pure-Succeeds n Any tt tt)
        λ _. done-Succeeds env answers n (sysctl_set _ _)

  set_rp_filter-Succeeds : (n : Netns) (v : Option ℤ) → Succeeds I n Any (set_rp_filter env v)
  unfolding set_rp_filter
  set_rp_filter-Succeeds n v =
      >>=-Succeeds n Any Any _ _ (done-Succeeds env answers n (read_dir _)) λ dirs _.
        for_each-Succeeds n Any dirs _ (All-Any dirs) λ dir _.
          >>=-Succeeds n (IsDone Any) Any _ _
            (try-Succeeds n Any _ (done-Succeeds env answers n (sysctl_get _)))
            λ value h. write_rp_filter-Succeeds n _ _ value

  pub sysctl_rp_filter-Succeeds :
      (o : Option RpFilter) (c : RpFilter)
      → o ≡ some c
      → Succeeds I host Any (sysctl_rp_filter env o)
  unfolding sysctl_rp_filter
  sysctl_rp_filter-Succeeds o c e =
      >>=-Succeeds host Any Any _ _ (deref-Succeeds host Any o c e tt) λ rp _.
        >>=-Succeeds host Any Any _ _
          (choose-Succeeds host Any _ _ _
            (λ _. wrap-Succeeds host Any _ _ (set_rp_filter-Succeeds host _))
            (λ _. pure-Succeeds host Any tt tt))
          λ _ _.
            do_netns-Succeeds env Any _ answers
              (wrap-Succeeds pod Any _ _ (set_rp_filter-Succeeds pod _))

  pub enable_ipv6_sysctl-Succeeds : Succeeds I host Any (enable_ipv6_sysctl env)
  unfolding enable_ipv6_sysctl
  enable_ipv6_sysctl-Succeeds = do_netns-Succeeds env Any _ answers (
      >>=-Succeeds pod Any Any _ _ (done-Succeeds env answers pod (read_dir _)) λ dirs _.
        for_each-Succeeds pod Any dirs _ (All-Any dirs) λ dir _.
          >>=-Succeeds pod Any Any _ _
            (wrap-Succeeds pod Any _ _ (done-Succeeds env answers pod (sysctl_get _)))
            λ value _.
              choose-Succeeds pod Any _ _ _ (λ _. pure-Succeeds pod Any tt tt)
                λ _. wrap-Succeeds pod Any _ _ (done-Succeeds env answers pod (sysctl_set _ _)))

  pub get_all_pod_ip-Succeeds : (family : ℤ) → Succeeds I host Any (get_all_pod_ip env family)
  unfolding get_all_pod_ip
  get_all_pod_ip-Succeeds family =
      do_netns-Succeeds env Any _ answers
        (wrap-Succeeds pod Any _ _ (done-Succeeds env answers pod (spider_get_all_ip_address _ _)))

  gateway_ips-Succeeds :
      (n : Netns) (family : ℤ) (addrs : List Addr) (ips : List Ip)
      → Succeeds I n Any (gateway_ips env family addrs ips)
  unfolding gateway_ips
  gateway_ips-Succeeds n family [] ips = pure-Succeeds n Any ips tt
  gateway_ips-Succeeds n family (addr ∷ addrs) ips =
      >>=-Succeeds n Any Any _ _
        (wrap-Succeeds n Any _ _ (done-Succeeds env answers n (spider_get_gateway_ip _)))
        λ gateways _. gateway_ips-Succeeds n family addrs _

  pub get_all_host_ip_route_for_pod-Succeeds :
      (n : Netns) (family : ℤ) (addrs : List Addr)
      → Succeeds I n Any (get_all_host_ip_route_for_pod env family addrs)
  unfolding get_all_host_ip_route_for_pod
  get_all_host_ip_route_for_pod-Succeeds n family addrs =
      >>=-Succeeds n Any Any _ _ (gateway_ips-Succeeds n family addrs []) λ ips _.
        >>=-Succeeds n Any Any _ _
          (wrap-Succeeds n Any _ _ (done-Succeeds env answers n (spider_get_all_ip_address _ _)))
          λ more _. pure-Succeeds n Any _ tt
