-- ===== src/Router/Success.antt =====
-- The part of the router plugin's `cmdAdd` that changes the networks, in runs where the outside
-- answers every call and the links are Ethernet links with a peer.
pub mod Config
pub mod Command
use cni_plugins.Base.{◌≡◌, refl, Bool, false, true, Option, some, List, is_empty}
use cni_plugins.Base.Text.{Text}
use cni_plugins.Base.Int.{ℤ, is_negative}
use cni_plugins.Net.{Ip, Addr, Link}
use cni_plugins.Net.Mac.{mac_string}
use cni_plugins.Types.{MigrateRoute, RpFilter}
use cni_plugins.World.{
  Trace, Netns, host, pod, Env, good, call, netlink_link_by_name, netlink_link_by_index,
  netlink_rule_add, netlink_route_add, spider_add_route, spider_ip_address_by_name,
}
use cni_plugins.World.Succeeds.{
  Succeeds, Any, AnswersAll, pure-Succeeds, >>=-Succeeds, wrap-Succeeds, ignoring-Succeeds,
  choose-Succeeds, deref-Succeeds, for_each-Succeeds, call-Succeeds, do_netns-Succeeds,
  done-Succeeds, All-Any,
}
use cni_plugins.Plugin.Links.{IsVeth, OnVeths, link_by_name-Succeeds, link_by_index-Succeeds}
use cni_plugins.Config.Laws.{AreSubnets}
use cni_plugins.Utils.Neighbors.{add_static_neigh_table, add_static_neighbors}
use cni_plugins.Utils.Neighbors.RoundTrip.{IsEthernet, neighbor_add-Succeeds}
use cni_plugins.Plugin.{CmdArgs, IpFamilies}
use cni_plugins.Plugin.Success.{
  hijack_custom_subnet-Succeeds, migrate_route-Succeeds, sysctl_rp_filter-Succeeds,
}
use cni_plugins.Router.{PluginConf, Json, set_up_networks}
use cni_plugins.Router.Routes.{
  add_host_ip_route, add_chained_ip, add_chained_ips, add_chained_ip_route,
}

module _ {I : Trace → Type 0} (env : Env) (answers : AnswersAll I env) (veths : OnVeths env) where
  add_static_neighbors-Succeeds :
      (name : Text) (link : Link) (host_ips : List Ip) (chained : List Addr)
      → IsVeth link
      → Succeeds I host Any (add_static_neighbors env name link host_ips chained)
  unfolding add_static_neighbors
  add_static_neighbors-Succeeds name link host_ips chained v =
      >>=-Succeeds host IsVeth Any _ _
        (link_by_index-Succeeds env answers veths host link.parent_index)
        λ host_link w.
          >>=-Succeeds host Any Any _ _
            (do_netns-Succeeds env Any _ answers (
              for_each-Succeeds pod Any host_ips _ (All-Any host_ips)
                λ ip _. neighbor_add-Succeeds env name host_link.hardware_addr ip pod answers w.1))
            λ _ _. for_each-Succeeds host Any chained _ (All-Any chained) λ addr _.
              neighbor_add-Succeeds env host_link.name link.hardware_addr addr.ip host answers v.1

  pub add_static_neigh_table-Succeeds :
      (sriov : Bool) (name : Text) (host_ips : List Ip) (chained : List Addr)
      → Succeeds I host Any (add_static_neigh_table env sriov name host_ips chained)
  unfolding add_static_neigh_table
  add_static_neigh_table-Succeeds sriov name host_ips chained =
      choose-Succeeds host Any _ _ _ (λ _. pure-Succeeds host Any tt tt)
        λ _.
          >>=-Succeeds host IsVeth Any _ _
            (do_netns-Succeeds env IsVeth _ answers
              (link_by_name-Succeeds env answers veths pod name))
            λ link v.
              choose-Succeeds host Any _ _ _ (λ _. pure-Succeeds host Any tt tt)
                λ _.
                  choose-Succeeds host Any _ _ _ (λ _. pure-Succeeds host Any tt tt)
                    λ _. add_static_neighbors-Succeeds name link host_ips chained v

  pub add_host_ip_route-Succeeds :
      (table family : ℤ) (name : Text) (host_ips : List Ip) (sriov : Bool)
      → Succeeds I host Any (add_host_ip_route env table family name host_ips sriov)
  unfolding add_host_ip_route
  add_host_ip_route-Succeeds table family name host_ips sriov =
      choose-Succeeds host Any _ _ _ (λ _. pure-Succeeds host Any tt tt)
        λ _. do_netns-Succeeds env Any _ answers (
          for_each-Succeeds pod Any host_ips _ (All-Any host_ips)
            λ ip _. done-Succeeds env answers pod (spider_add_route _ _ _ _ _ _ _))

  add_chained_ip-Succeeds :
      (table index : ℤ) (ip : Ip) → Succeeds I host Any (add_chained_ip env table index ip)
  unfolding add_chained_ip
  add_chained_ip-Succeeds table index ip =
      >>=-Succeeds host Any Any _ _
        (wrap-Succeeds host Any _ _
          (ignoring-Succeeds host Any _ _ (done-Succeeds env answers host (netlink_rule_add _))))
        λ _ _.
          wrap-Succeeds host Any _ _
            (ignoring-Succeeds host Any _ _ (done-Succeeds env answers host (netlink_route_add _)))

  pub add_chained_ip_route-Succeeds :
      (sriov : Bool) (table : ℤ) (name : Text) (host_ips : List Ip) (chained : List Addr)
      → Succeeds I host Any (add_chained_ip_route env sriov table name host_ips chained)
  unfolding add_chained_ip_route add_chained_ips
  add_chained_ip_route-Succeeds sriov table name host_ips chained =
      choose-Succeeds host Any _ _ _ (λ _. pure-Succeeds host Any tt tt)
        λ _.
          >>=-Succeeds host IsVeth Any _ _
            (wrap-Succeeds host IsVeth _ _ (
              do_netns-Succeeds env IsVeth _ answers
                (link_by_name-Succeeds env answers veths pod name)))
            λ link v.
              choose-Succeeds host Any _ _ _ (λ e. absurd (let f = v.0 in cc))
                λ _.
                  >>=-Succeeds host IsVeth Any _ _
                    (wrap-Succeeds host IsVeth _ _
                      (link_by_index-Succeeds env answers veths host link.parent_index))
                    λ _ _. for_each-Succeeds host Any chained _ (All-Any chained) λ addr _.
                      choose-Succeeds host Any _ _ _
                        (λ _. add_chained_ip-Succeeds table link.parent_index addr.ip)
                        λ _. pure-Succeeds host Any tt tt

  pub set_up_networks-Succeeds :
      (json : Json) (conf : PluginConf) (args : CmdArgs) (name : Text) (rule_table : ℤ)
      (f : IpFamilies) (host_ips : List Ip) (chained : List Addr) (table : ℤ)
      (migrate : MigrateRoute) (rp : RpFilter)
      → conf.host_rule_table ≡ some table
      → conf.migrate_route ≡ some migrate
      → conf.rp_filter ≡ some rp
      → AreSubnets env.parse_cidr conf.service_hijack_subnet
      → AreSubnets env.parse_cidr conf.overlay_hijack_subnet
      → AreSubnets env.parse_cidr conf.additional_hijack_subnet
      → Succeeds I host Any (set_up_networks env json conf args name rule_table f host_ips chained)
  unfolding set_up_networks
  set_up_networks-Succeeds json conf args name rule_table f host_ips chained table migrate rp t m r
        svc ovl more =
      >>=-Succeeds host Any Any _ _ (add_static_neigh_table-Succeeds _ _ host_ips chained) λ _ _.
        >>=-Succeeds host Any Any _ _ (deref-Succeeds host Any _ table t tt) λ table _.
          >>=-Succeeds host Any Any _ _ (add_chained_ip_route-Succeeds _ table _ host_ips chained)
            λ _ _.
              >>=-Succeeds host Any Any _ _
                (wrap-Succeeds host Any _ _ (add_host_ip_route-Succeeds _ _ _ host_ips _))
                λ _ _.
                  >>=-Succeeds host Any Any _ _
                    (wrap-Succeeds host Any _ _
                      (done-Succeeds env answers host (spider_ip_address_by_name _ _)))
                    λ ips _.
                      >>=-Succeeds host Any Any _ _
                        (hijack_custom_subnet-Succeeds env answers _ _ _ ips rule_table _ _ ovl svc
                          more)
                        λ _ _.
                          >>=-Succeeds host Any Any _ _ (deref-Succeeds host Any _ migrate m tt)
                            λ migrate _.
                              >>=-Succeeds host Any Any _ _
                                (migrate_route-Succeeds env answers _ _ ips migrate rule_table _ _)
                                λ _ _. sysctl_rp_filter-Succeeds env answers _ rp r
