-- ===== src/Router/Boundary/Add.antt =====
-- `cmdAdd` of the `router` plugin (plugins/router/router.go) behind its configuration.
use cni_plugins.Base.{◌≡◌, refl, inr, Bool, Option, some, List}
use cni_plugins.Base.Text.{Text}
use cni_plugins.Base.Int.{ℤ}
use cni_plugins.Net.{Ip, Addr}
use cni_plugins.World.{
  Event, Netns, host, pod, M, Env, deref, ◌>>=◌, netlink_link_by_name, netlink_link_by_index,
  netlink_rule_add, netlink_route_add, spider_add_route, spider_ip_address_by_name, get_ns,
  print_result,
}
use cni_plugins.World.Keeps.{
  Keeps, >>=-Keeps, pure-Keeps, fail-Keeps, choose-Keeps, call-Keeps, wrap-Keeps, ignoring-Keeps,
  do_netns-Keeps, for_each-Keeps, or_fail-Keeps, deref-Keeps,
}
use cni_plugins.Plugin.{CmdArgs, IpFamilies}
use cni_plugins.Plugin.Quiet.{first_interface-Keeps, check_conflict-Keeps, get_all_pod_ip-Keeps}
use cni_plugins.Plugin.ReadsOnly.{get_all_host_ip_route_for_pod-Keeps}
use cni_plugins.Router.{
  PluginConf, Json, print_prev_result, set_up_networks, configure, add_interface,
}
use cni_plugins.Router.Routes.{
  host_rule, host_route, add_host_ip_route, add_chained_ip, add_chained_ips, add_chained_ip_route,
}
use cni_plugins.Router.Boundary.{RouterMay, router_permits, add_static_neigh_table-Keeps}
use cni_plugins.Plugin.Boundary.{
  quiet-Keeps, sysctl_rp_filter-Keeps, enable_ipv6_sysctl-Keeps, overwrite_mac_address-Keeps,
  hijack-Keeps, migrate-Keeps,
}

module _ (table : ℤ) (env : Env) where
  add_host_ip_route-Keeps :
      (t family : ℤ) (iface : Text) (ips : List Ip) (sriov : Bool)
      → Keeps (RouterMay table) host (add_host_ip_route env t family iface ips sriov)
  unfolding add_host_ip_route
  add_host_ip_route-Keeps t family iface ips sriov =
      choose-Keeps (RouterMay table) host _ _ _ (pure-Keeps (RouterMay table) host tt) (
        do_netns-Keeps (RouterMay table) host env _ tt (
          for_each-Keeps (RouterMay table) pod ips _
            λ ip. call-Keeps (RouterMay table) pod env (spider_add_route _ _ _ _ _ _ _) refl))

  add_chained_ip-Keeps :
      (index : ℤ) (ip : Ip) → Keeps (RouterMay table) host (add_chained_ip env table index ip)
  unfolding add_chained_ip host_rule host_route
  add_chained_ip-Keeps index ip =
      >>=-Keeps (RouterMay table) host _ _
        (wrap-Keeps (RouterMay table) host _ _ (
          ignoring-Keeps (RouterMay table) host _ _
            (call-Keeps (RouterMay table) host env (netlink_rule_add _) (inr (refl, refl)))))
        λ _. wrap-Keeps (RouterMay table) host _ _ (
          ignoring-Keeps (RouterMay table) host _ _
            (call-Keeps (RouterMay table) host env (netlink_route_add _) (inr refl)))

  add_chained_ip_route-Keeps :
      (sriov : Bool) (iface : Text) (hosts : List Ip) (ips : List Addr)
      → Keeps (RouterMay table) host (add_chained_ip_route env sriov table iface hosts ips)
  unfolding add_chained_ip_route add_chained_ips
  add_chained_ip_route-Keeps sriov iface hosts ips =
      choose-Keeps (RouterMay table) host _ _ _ (pure-Keeps (RouterMay table) host tt) (
        >>=-Keeps (RouterMay table) host _ _
          (wrap-Keeps (RouterMay table) host _ _ (
            do_netns-Keeps (RouterMay table) host env _ tt
              (call-Keeps (RouterMay table) pod env (netlink_link_by_name iface) tt)))
          λ link. choose-Keeps (RouterMay table) host _ _ _ (fail-Keeps (RouterMay table) host _) (
            >>=-Keeps (RouterMay table) host _ _
              (wrap-Keeps (RouterMay table) host _ _
                (call-Keeps (RouterMay table) host env (netlink_link_by_index _) tt))
              λ _. for_each-Keeps (RouterMay table) host ips _ λ ip.
                choose-Keeps (RouterMay table) host _ _ _ (add_chained_ip-Keeps _ _)
                  (pure-Keeps (RouterMay table) host tt)))

-- A pointer that is known not to be nil is the value that it points to.
deref-Keeps-some :
    (P : Event → Type 0) (n : Netns) {A B : Type 0} (o : Option A) (a : A) (f : A → M B)
    → o ≡ some a
    → Keeps P n (f a)
    → Keeps P n (deref o >>= f)
unfolding deref ◌>>=◌
deref-Keeps-some P n o a f e k = rw e k

module _ (table : ℤ) (env : Env) (json : Json) (conf : PluginConf) (args : CmdArgs)
    (given : conf.host_rule_table ≡ some table) where
  pub print_prev_result-Keeps : Keeps (RouterMay table) host (print_prev_result env json conf)
  unfolding print_prev_result
  print_prev_result-Keeps = call-Keeps (RouterMay table) host env (print_result _ _) tt

  set_up_networks-Keeps :
      (name : Text) (t : ℤ) (f : IpFamilies) (hosts : List Ip) (ips : List Addr)
      → Keeps (RouterMay table) host (set_up_networks env json conf args name t f hosts ips)
  unfolding set_up_networks
  set_up_networks-Keeps name t f hosts ips =
      >>=-Keeps (RouterMay table) host _ _
        (add_static_neigh_table-Keeps table env conf.sriov _ hosts ips)
        λ _. deref-Keeps-some (RouterMay table) host conf.host_rule_table table _ given (
          >>=-Keeps (RouterMay table) host _ _
            (add_chained_ip_route-Keeps table env conf.sriov _ hosts ips)
            λ _.
              >>=-Keeps (RouterMay table) host _ _
                (wrap-Keeps (RouterMay table) host _ _
                  (add_host_ip_route-Keeps table env t _ _ hosts conf.sriov))
                λ _.
                  >>=-Keeps (RouterMay table) host _ _
                    (wrap-Keeps (RouterMay table) host _ _
                      (call-Keeps (RouterMay table) host env (spider_ip_address_by_name _ _) tt))
                    λ addrs.
                      >>=-Keeps (RouterMay table) host _ _
                        (hijack-Keeps (RouterMay table) (router_permits table) env _ _ _ addrs t
                          f.enable_ipv4 f.enable_ipv6)
                        λ _.
                          >>=-Keeps (RouterMay table) host _ _
                            (deref-Keeps (RouterMay table) host _)
                            λ v.
                              >>=-Keeps (RouterMay table) host _ _
                                (migrate-Keeps (RouterMay table) (router_permits table) env _ _
                                  addrs v t f.enable_ipv4 f.enable_ipv6)
                                λ _.
                                  sysctl_rp_filter-Keeps (RouterMay table) (router_permits table)
                                    env _)

  configure-Keeps :
      (name : Text) (ips : List Ip)
      → Keeps (RouterMay table) host (configure env json conf args name ips)
  unfolding configure
  configure-Keeps name ips =
      >>=-Keeps (RouterMay table) host _ _
        (quiet-Keeps (RouterMay table) (router_permits table) host _
          (get_all_pod_ip-Keeps env host _))
        λ all_pod_ip.
          >>=-Keeps (RouterMay table) host _ _
            (wrap-Keeps (RouterMay table) host _ _ (
              quiet-Keeps (RouterMay table) (router_permits table) host _
                (get_all_host_ip_route_for_pod-Keeps env host _ _)))
            λ hosts.
              >>=-Keeps (RouterMay table) host _ _
                (wrap-Keeps (RouterMay table) host _ _
                  (call-Keeps (RouterMay table) host env (spider_ip_address_by_name _ _) tt))
                λ chained.
                  >>=-Keeps (RouterMay table) host _ _
                    (choose-Keeps (RouterMay table) host _ _ _
                      (enable_ipv6_sysctl-Keeps (RouterMay table) (router_permits table) env)
                      (pure-Keeps (RouterMay table) host tt))
                    λ _.
                      choose-Keeps (RouterMay table) host _ _ _
                        (fail-Keeps (RouterMay table) host _)
                        (>>=-Keeps (RouterMay table) host _ _
                          (set_up_networks-Keeps name _ _ hosts chained)
                          λ _. print_prev_result-Keeps)

  -- For a configuration with a host table, every previous result and all answers of the outside,
  -- adding an interface with the router plugin only adds rules of priority 1000 for that table and
  -- routes to it on the host; in the pod it adds rules and routes, deletes routes of the main table
  -- and sets a hardware address; on either side it adds neighbours and sets kernel parameters. No
  -- link, rule or neighbour is deleted, no link is made, and the host's namespace is current at the
  -- end, also on errors.
  pub add_interface-Keeps : Keeps (RouterMay table) host (add_interface env json conf args)
  unfolding add_interface
  add_interface-Keeps =
      >>=-Keeps (RouterMay table) host _ _ (or_fail-Keeps (RouterMay table) host _ _) λ raw.
        >>=-Keeps (RouterMay table) host _ _ (or_fail-Keeps (RouterMay table) host _ _) λ prev.
          >>=-Keeps (RouterMay table) host _ _
            (quiet-Keeps (RouterMay table) (router_permits table) host _
              (first_interface-Keeps host _))
            λ name.
              >>=-Keeps (RouterMay table) host _ _
                (wrap-Keeps (RouterMay table) host _ _
                  (call-Keeps (RouterMay table) host env (get_ns _) tt))
                λ _.
                  >>=-Keeps (RouterMay table) host _ _
                    (quiet-Keeps (RouterMay table) (router_permits table) host _
                      (check_conflict-Keeps env host _ _ _))
                    λ _. choose-Keeps (RouterMay table) host _ _ _ (configure-Keeps name _) (
                      >>=-Keeps (RouterMay table) host _ _
                        (wrap-Keeps (RouterMay table) host _ _ (
                          overwrite_mac_address-Keeps (RouterMay table) (router_permits table) env _
                            _))
                        λ _.
                          choose-Keeps (RouterMay table) host _ _ _ print_prev_result-Keeps
                            (configure-Keeps name _))
