-- ===== src/Veth/Boundary/Add.antt =====
-- The whole `cmdAdd` and `cmdDel` of the `veth` plugin (plugins/veth/veth.go).
use cni_plugins.Base.{Bool, List, [], ◌∷◌}
use cni_plugins.Base.Text.{Text}
use cni_plugins.Net.{Ip, Addr, CniInterface}
use cni_plugins.World.{
  host, Env, get_ns, print_result, print_result_with, spider_ip_address_by_name,
}
use cni_plugins.World.Keeps.{
  Keeps, >>=-Keeps, pure-Keeps, fail-Keeps, choose-Keeps, wrap-Keeps, or_fail-Keeps, deref-Keeps,
}
use cni_plugins.Plugin.{CmdArgs, PrevResult, IpFamilies}
use cni_plugins.Veth.Load.{load-Keeps}
use cni_plugins.Plugin.Quiet.{
  first_interface-Keeps, check_conflict-Keeps, check_interface_miss-Keeps, get_all_pod_ip-Keeps,
}
use cni_plugins.Plugin.ReadsOnly.{get_all_host_ip_route_for_pod-Keeps}
use cni_plugins.Plugin.Boundary.{
  read-Keeps, quiet-Keeps, sysctl_rp_filter-Keeps, enable_ipv6_sysctl-Keeps,
  overwrite_mac_address-Keeps, migrate-Keeps,
}
use cni_plugins.Veth.Pair.{VethPair}
use cni_plugins.Veth.{
  PluginConf, Json, print_prev_result, print_appended, rule_table_of, set_up_networks, configure,
  add_interface, cmd_add,
}
use cni_plugins.Veth.Boundary.{
  VethMay, veth_permits, setup_veth-Keeps, setup_neighborhood-Keeps, setup_routes-Keeps,
}

module _ (env : Env) (id : Text) where
  rule_table_of-Keeps :
      (is_first : Bool) (name : Text) → Keeps (VethMay id) host (rule_table_of is_first name)
  unfolding rule_table_of
  rule_table_of-Keeps is_first name =
      choose-Keeps (VethMay id) host _ _ _ (pure-Keeps (VethMay id) host _) (
        choose-Keeps (VethMay id) host _ _ _ (fail-Keeps (VethMay id) host _)
          (pure-Keeps (VethMay id) host _))

  module _ (json : Json) where
    print_prev_result-Keeps :
        (conf : PluginConf) → Keeps (VethMay id) host (print_prev_result env json conf)
    unfolding print_prev_result
    print_prev_result-Keeps conf =
        read-Keeps (VethMay id) (veth_permits id) env host (print_result _ _) tt

    print_appended-Keeps :
        (interfaces : List CniInterface) (conf : PluginConf)
        → Keeps (VethMay id) host (print_appended env json interfaces conf)
    unfolding print_appended
    print_appended-Keeps [] conf = print_prev_result-Keeps conf
    print_appended-Keeps (i ∷ is) conf =
        choose-Keeps (VethMay id) host _ _ _
          (read-Keeps (VethMay id) (veth_permits id) env host (print_result_with _ _ _) tt)
          (print_prev_result-Keeps conf)

    set_up_networks-Keeps :
        (conf : PluginConf) (args : CmdArgs) (name : Text) (is_first : Bool) (pair : VethPair)
        (f : IpFamilies) (hosts : List Ip) (ips : List Addr)
        → Keeps
            (VethMay id)
            host
            (set_up_networks env json conf args name is_first pair f hosts ips)
    unfolding set_up_networks
    set_up_networks-Keeps conf args name is_first pair f hosts ips =
        >>=-Keeps (VethMay id) host _ _ (setup_neighborhood-Keeps id env is_first pair hosts ips)
          λ linked. >>=-Keeps (VethMay id) host _ _ (rule_table_of-Keeps is_first name) λ table.
            >>=-Keeps (VethMay id) host _ _ (setup_routes-Keeps id env table _ _ hosts ips _) λ _.
              >>=-Keeps (VethMay id) host _ _
                (choose-Keeps (VethMay id) host _ _ _ (pure-Keeps (VethMay id) host tt) (
                  >>=-Keeps (VethMay id) host _ _ (deref-Keeps (VethMay id) host _)
                    λ v. migrate-Keeps (VethMay id) (veth_permits id) env _ _ ips v table _ _))
                λ _.
                  >>=-Keeps (VethMay id) host _ _
                    (sysctl_rp_filter-Keeps (VethMay id) (veth_permits id) env _)
                    (λ _. print_appended-Keeps _ conf)

module _ (env : Env) (json : Json) (args : CmdArgs) where
  configure-Keeps :
      (conf : PluginConf) (prev : PrevResult)
      → Keeps (VethMay args.container_id) host (configure env json conf args prev)
  unfolding configure
  configure-Keeps conf prev =
      let id = args.container_id in
      >>=-Keeps (VethMay id) host _ _
        (quiet-Keeps (VethMay id) (veth_permits id) host _ (first_interface-Keeps host _))
        λ name.
          >>=-Keeps (VethMay id) host _ _
            (wrap-Keeps (VethMay id) host _ _ (
              quiet-Keeps (VethMay id) (veth_permits id) host _
                (check_interface_miss-Keeps env host _)))
            λ is_first. >>=-Keeps (VethMay id) host _ _ (setup_veth-Keeps id env is_first _) λ pair.
              >>=-Keeps (VethMay id) host _ _
                (quiet-Keeps (VethMay id) (veth_permits id) host _
                  (get_all_pod_ip-Keeps env host _))
                λ all_pod_ip.
                  >>=-Keeps (VethMay id) host _ _
                    (wrap-Keeps (VethMay id) host _ _ (
                      quiet-Keeps (VethMay id) (veth_permits id) host _
                        (get_all_host_ip_route_for_pod-Keeps env host _ _)))
                    λ hosts.
                      >>=-Keeps (VethMay id) host _ _
                        (choose-Keeps (VethMay id) host _ _ _
                          (enable_ipv6_sysctl-Keeps (VethMay id) (veth_permits id) env)
                          (pure-Keeps (VethMay id) host tt))
                        λ _.
                          >>=-Keeps (VethMay id) host _ _
                            (wrap-Keeps (VethMay id) host _ _ (
                              read-Keeps (VethMay id) (veth_permits id) env host
                                (spider_ip_address_by_name _ _) tt))
                            λ ips.
                              set_up_networks-Keeps env id json conf args name is_first pair _ hosts
                                ips

  add_interface-Keeps :
      (conf : PluginConf)
      → Keeps (VethMay args.container_id) host (add_interface env json conf args)
  unfolding add_interface
  add_interface-Keeps conf =
      let id = args.container_id in
      >>=-Keeps (VethMay id) host _ _ (or_fail-Keeps (VethMay id) host _ _) λ raw.
        >>=-Keeps (VethMay id) host _ _ (or_fail-Keeps (VethMay id) host _ _) λ prev.
          >>=-Keeps (VethMay id) host _ _
            (wrap-Keeps (VethMay id) host _ _
              (read-Keeps (VethMay id) (veth_permits id) env host (get_ns _) tt))
            λ _.
              >>=-Keeps (VethMay id) host _ _
                (quiet-Keeps (VethMay id) (veth_permits id) host _
                  (check_conflict-Keeps env host _ _ _))
                λ _. choose-Keeps (VethMay id) host _ _ _ (configure-Keeps conf prev) (
                  >>=-Keeps (VethMay id) host _ _
                    (wrap-Keeps (VethMay id) host _ _
                      (overwrite_mac_address-Keeps (VethMay id) (veth_permits id) env _ _))
                    λ _.
                      choose-Keeps (VethMay id) host _ _ _
                        (print_prev_result-Keeps env id json conf) (configure-Keeps conf prev))

  -- Whatever is configured and the outside answers, the veth plugin's whole cmdAdd changes only
  -- this. On the host, it adds routes to the main table by the helper for routes and deletes
  -- neighbours. In the pod, it makes pairs of veth0 and the host's name for the container, sets
  -- links up, adds rules and routes, by the helper only over veth0, and deletes routes of the main
  -- table. On either side, it sets hardware addresses and kernel parameters and adds neighbours by
  -- the helper for them. No link or rule is deleted, and the host's namespace is current at the
  -- end, also where it fails.
  pub veth_cmd_add-Keeps : Keeps (VethMay args.container_id) host (cmd_add env json args)
  unfolding cmd_add
  veth_cmd_add-Keeps =
      let id = args.container_id in
      >>=-Keeps (VethMay id) host _ _
        (quiet-Keeps (VethMay id) (veth_permits id) host _ (load-Keeps env json args))
        λ conf.
          choose-Keeps (VethMay id) host _ _ _ (print_prev_result-Keeps env id json conf)
            (add_interface-Keeps conf)
