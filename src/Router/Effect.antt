-- ===== src/Router/Effect.antt =====
-- What the `router` plugin makes of the pod's routes.
pub mod Leaves
use cni_plugins.Base.{◌≡◌, ◌≢◌, refl, ◌↔◌, some, List, [], ◌++◌, All}
use mathlib.Core.List.{append-nil}
use cni_plugins.Base.Text.{Text}
use cni_plugins.Base.Int.{ℤ}
use cni_plugins.Net.{Ip, Addr, Link, Route, rt_table_main}
use cni_plugins.Types.{MigrateRoute, RpFilter, migrate_never}
use cni_plugins.World.{Trace, host, Env, M, ok, ◌>>=◌, ◌>>◌, spider_ip_address_by_name}
use cni_plugins.World.Keeps.{Keeps, deref-Keeps, wrap-Keeps, call-Keeps}
use cni_plugins.Plugin.{CmdArgs, IpFamilies}
use cni_plugins.Plugin.Links.{OnVeths}
use cni_plugins.Config.Laws.{AreSubnets}
use cni_plugins.Utils.Names.{get_default_route_interface}
use cni_plugins.Utils.Routes.Moved.{OneHop}
use cni_plugins.Plugin.Success.{hijack_custom_subnet-Succeeds, sysctl_rp_filter-Succeeds}
use cni_plugins.Router.Success.{
  add_static_neigh_table-Succeeds, add_chained_ip_route-Succeeds, add_host_ip_route-Succeeds,
}
use cni_plugins.Router.Effect.Leaves.{
  add_static_neigh_table-Keeps, add_chained_ip_route-Keeps, add_host_ip_route-Keeps,
  hijack_custom_subnet-Keeps,
}
use cni_plugins.Plugin.Effect.Leaves.{sysctl_rp_filter-Keeps}
use cni_plugins.Router.{PluginConf, Json, set_up_networks}
use cni_plugins.World.Succeeds.{
  Succeeds, AnswersAll, Always, Any, deref-Succeeds, wrap-Succeeds, done-Succeeds,
}
use cni_plugins.Utils.Routes.Tables.{Holds, Shifted, Shifted-append}
use cni_plugins.Utils.Routes.Quiet.{LeavesRoutes, Holds-LeavesRoutes}
use cni_plugins.Utils.Routes.Refine.{
  Shifts, nothing_Shifted, >>-Shifts, IsWilling, enabled, migrate_route-Shifts,
}
use cni_plugins.Plugin.Effect.{quiet_then-Shifts, then_quiet-Shifts}

-- Where every call is answered, each link that is found has a peer and a hardware address of six
-- bytes, the configuration's table, migration and rp_filter are filled in and its texts are
-- subnets, the default interface is found in the pod, the routes of each family are listed, no
-- route over another link has a next hop over it, the table is not the main one and migration is
-- not never, the router plugin's changes of the networks all succeed, and of the routes that
-- netlink's calls add and delete in the pod, spiderpool's helper aside, they leave exactly this: of
-- the listed main-table routes over the default interface, but for the link-local one, of the
-- enabled families, there is now a copy in the plugin's table, the ones with no destination or
-- 0.0.0.0 are gone, and every other route, the IPv6 default ones among them, is there as before.
pub set_up_networks-Shifted :
    (env : Env) (json : Json) (conf : PluginConf) (args : CmdArgs) (name : Text) (link : Link)
    (routes : ℤ → List Route) (rule_table : ℤ) (f : IpFamilies) (hosts : List Ip)
    (chained : List Addr) (table : ℤ) (migrate : MigrateRoute) (rp : RpFilter) (s : Route → Type 0)
    (t : Trace)
    → AnswersAll Always env
    → OnVeths env
    → conf.host_rule_table ≡ some table
    → conf.migrate_route ≡ some migrate
    → conf.rp_filter ≡ some rp
    → AreSubnets env.parse_cidr conf.service_hijack_subnet
    → AreSubnets env.parse_cidr conf.overlay_hijack_subnet
    → AreSubnets env.parse_cidr conf.additional_hijack_subnet
    → IsWilling env (get_default_route_interface name) link routes
    → rule_table ≢ rt_table_main
    → migrate ≢ migrate_never
    → ((family : ℤ) → All (OneHop link.index) (routes family))
    → (t' : Trace) × (set_up_networks env json conf args name rule_table f hosts chained
          (record { ns = host; trace = t })
        ≡ (ok tt, record { ns = host; trace = t' }))
      × ((q : Route)
          → Holds s t' q
            ↔ Shifted link.index rule_table
                (enabled routes f.enable_ipv4 f.enable_ipv6)
                (Holds s t q)
                q)
unfolding set_up_networks
set_up_networks-Shifted env json conf args name link routes rule_table f hosts chained table migrate
      rp s t answers veths has_table has_migrate has_rp svc ovl more w other named hops =
    let rs = enabled routes f.enable_ipv4 f.enable_ipv6 in
    let go =
      quiet_then-Shifts s link.index rule_table other Any rs _ _
        (add_static_neigh_table-Succeeds env answers veths _ _ hosts chained)
        (add_static_neigh_table-Keeps env _ _ hosts chained)
        λ _ _.
          quiet_then-Shifts s link.index rule_table other Any rs _ _
            (deref-Succeeds host Any _ table has_table tt) (deref-Keeps LeavesRoutes host _)
            λ table _.
              quiet_then-Shifts s link.index rule_table other Any rs _ _
                (add_chained_ip_route-Succeeds env answers veths _ table _ hosts chained)
                (add_chained_ip_route-Keeps env _ table _ hosts chained)
                λ _ _.
                  quiet_then-Shifts s link.index rule_table other Any rs _ _
                    (wrap-Succeeds host Any _ _
                      (add_host_ip_route-Succeeds env answers veths _ _ _ hosts _))
                    (wrap-Keeps LeavesRoutes host _ _ (add_host_ip_route-Keeps env _ _ _ hosts _))
                    λ _ _.
                      quiet_then-Shifts s link.index rule_table other Any rs _ _
                        (wrap-Succeeds host Any _ _
                          (done-Succeeds env answers host (spider_ip_address_by_name _ _)))
                        (wrap-Keeps LeavesRoutes host _ _
                          (call-Keeps LeavesRoutes host env (spider_ip_address_by_name _ _) tt))
                        λ ips _.
                          quiet_then-Shifts s link.index rule_table other Any rs _ _
                            (hijack_custom_subnet-Succeeds env answers _ _ _ ips rule_table _ _ ovl
                              svc more)
                            (hijack_custom_subnet-Keeps env _ _ _ ips rule_table _ _)
                            λ _ _.
                              quiet_then-Shifts s link.index rule_table other (λ v. v ≡ migrate) rs
                                _ _
                                (deref-Succeeds host (λ v. v ≡ migrate) _ migrate has_migrate refl)
                                (deref-Keeps LeavesRoutes host _)
                                λ v same.
                                  then_quiet-Shifts s link.index rule_table other rs _ _
                                    (migrate_route-Shifts env _ _ link routes ips v rule_table _ _ s
                                      w other (rw same named) hops)
                                    (sysctl_rp_filter-Succeeds env answers _ rp has_rp)
                                    (sysctl_rp_filter-Keeps env _) in
    go.run t
