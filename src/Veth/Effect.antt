-- ===== src/Veth/Effect.antt =====
-- What the `veth` plugin makes of the pod's routes for a further interface.
pub mod Leaves
use cni_plugins.Base.{◌≡◌, ◌≢◌, refl, ◌↔◌, false, some, List, ◌++◌, All}
use cni_plugins.Base.Text.{Text}
use cni_plugins.Base.Int.{ℤ, is_negative}
use cni_plugins.Net.{Ip, Addr, Link, Route, rt_table_main}
use cni_plugins.Types.{MigrateRoute, RpFilter, migrate_never}
use cni_plugins.World.{Trace, host, Env, ok, choose, print_result}
use cni_plugins.World.Keeps.{deref-Keeps, >>=-Keeps, call-Keeps}
use cni_plugins.World.Succeeds.{
  Succeeds, >>=-Succeeds, done-Succeeds, AnswersAll, Always, Any, deref-Succeeds, pure-Succeeds,
}
use cni_plugins.Config.Laws.{AreSubnets}
use cni_plugins.Utils.Names.{get_rule_number}
use cni_plugins.Utils.Routes.Tables.{Holds, Shifted}
use cni_plugins.Utils.Routes.Quiet.{LeavesRoutes}
use cni_plugins.Utils.Routes.Moved.{OneHop}
use cni_plugins.Utils.Routes.Refine.{IsWilling, enabled, migrate_route-Shifts}
use cni_plugins.Plugin.{CmdArgs, IpFamilies}
use cni_plugins.Plugin.Links.{OnVeths}
use cni_plugins.Plugin.Success.{sysctl_rp_filter-Succeeds}
use cni_plugins.Plugin.Effect.{quiet_then-Shifts, then_quiet-Shifts}
use cni_plugins.Plugin.Effect.Leaves.{sysctl_rp_filter-Keeps}
use cni_plugins.Veth.{
  PluginConf, Json, rule_table_of, set_up_networks, print_appended, print_prev_result,
}
use cni_plugins.Veth.Pair.{VethPair, appended_interfaces}
use cni_plugins.Veth.Success.{HasMac, IsLinked, setup_neighborhood-Succeeds, setup_routes-Succeeds}
use cni_plugins.Veth.Effect.Leaves.{
  setup_neighborhood-Keeps, rule_table_of-Keeps, setup_routes-Keeps,
}

rule_table_of-number :
    (name : Text)
    → is_negative (get_rule_number name) ≡ false
    → Succeeds Always host (λ t. t ≡ get_rule_number name) (rule_table_of false name)
unfolding rule_table_of choose
rule_table_of-number name e = rw e (pure-Succeeds host (λ t. t ≡ get_rule_number name) _ refl)

-- For a pair that was there, where every call is answered, each link that is found has a peer and a
-- hardware address of six bytes, the pair's hardware address can be read, the interface's name
-- gives a table other than the main one, the configuration's migration and rp_filter are filled in
-- and its texts are subnets, the interface is found in the pod, the routes of each family are
-- listed, no route over another link has a next hop over it and migration is not never, the veth
-- plugin's changes of the networks and the printing of the result all succeed, and of the routes
-- that netlink's calls add and delete in the pod, spiderpool's helper aside, they leave exactly
-- this: of the listed main-table routes over the interface, but for the link-local one, of the
-- enabled families, there is now a copy in that table, the ones with no destination or 0.0.0.0 are
-- gone, and every other route, the IPv6 default ones among them, is there as before.
pub veth_set_up_networks-Shifted :
    (env : Env) (json : Json) (conf : PluginConf) (args : CmdArgs) (name : Text) (pair : VethPair)
    (link : Link) (routes : ℤ → List Route) (f : IpFamilies) (hosts : List Ip) (ips : List Addr)
    (migrate : MigrateRoute) (rp : RpFilter) (s : Route → Type 0) (t : Trace)
    → AnswersAll Always env
    → OnVeths env
    → HasMac pair
    → is_negative (get_rule_number name) ≡ false
    → conf.migrate_route ≡ some migrate
    → conf.rp_filter ≡ some rp
    → AreSubnets env.parse_cidr (
        (conf.service_hijack_subnet ++ conf.overlay_hijack_subnet) ++ conf.additional_hijack_subnet)
    → IsWilling env name link routes
    → get_rule_number name ≢ rt_table_main
    → migrate ≢ migrate_never
    → ((family : ℤ) → All (OneHop link.index) (routes family))
    → (t' : Trace) × (set_up_networks env json conf args name false pair f hosts ips
          (record { ns = host; trace = t })
        ≡ (ok tt, record { ns = host; trace = t' }))
      × ((q : Route)
          → Holds s t' q
            ↔ Shifted link.index
                (get_rule_number name)
                (enabled routes f.enable_ipv4 f.enable_ipv6)
                (Holds s t q)
                q)
unfolding set_up_networks appended_interfaces print_appended print_prev_result choose
veth_set_up_networks-Shifted env json conf args name pair link routes f hosts ips migrate rp s t
      answers veths mac number has_migrate has_rp subnets w other named hops =
    let rs = enabled routes f.enable_ipv4 f.enable_ipv6 in
    let table = get_rule_number name in
    let go =
      quiet_then-Shifts s link.index table other (IsLinked env pair) rs _ _
        (setup_neighborhood-Succeeds env answers veths false pair hosts ips mac)
        (setup_neighborhood-Keeps env false pair hosts ips)
        λ _ _.
          quiet_then-Shifts s link.index table other (λ t. t ≡ table) rs _ _
            (rule_table_of-number name number) (rule_table_of-Keeps env false name)
            λ number same.
              quiet_then-Shifts s link.index table other Any rs _ _
                (setup_routes-Succeeds env answers veths number _ _ hosts ips _ subnets)
                (setup_routes-Keeps env number _ _ hosts ips _)
                λ _ _.
                  then_quiet-Shifts s link.index table other rs _ _
                    (quiet_then-Shifts s link.index table other (λ v. v ≡ migrate) rs _ _
                      (deref-Succeeds host (λ v. v ≡ migrate) _ migrate has_migrate refl)
                      (deref-Keeps LeavesRoutes host _)
                      λ v given. rw same (
                        migrate_route-Shifts env name name link routes ips v (get_rule_number name)
                          _ _ s w other (rw given named) hops))
                    (>>=-Succeeds host Any Any _ _
                      (sysctl_rp_filter-Succeeds env answers _ rp has_rp)
                      λ _ _. done-Succeeds env answers host (print_result _ _))
                    (>>=-Keeps LeavesRoutes host _ _ (sysctl_rp_filter-Keeps env _)
                      λ _. call-Keeps LeavesRoutes host env (print_result _ _) tt) in
    go.run t
