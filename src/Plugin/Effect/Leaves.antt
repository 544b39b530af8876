-- ===== src/Plugin/Effect/Leaves.antt =====
-- The calls, and the changes of kernel parameters, that leave the pod's routes as they are.
use cni_plugins.Base.{ℕ, refl, Option}
use cni_plugins.Base.Text.{Text}
use cni_plugins.Base.Int.{ℤ}
use cni_plugins.Net.{Ip, IpNet, Neigh, Route, Rule}
use cni_plugins.Types.{RpFilter}
use cni_plugins.World.{
  Netns, host, pod, Env, Attempt, done, failed, call, netlink_link_by_name, netlink_link_by_index,
  netlink_rule_add, netlink_route_add, netlink_neigh_add, sysctl_get, sysctl_set, read_dir,
  spider_add_route, M, do_netns,
}
use cni_plugins.World.Keeps.{Keeps, keeps, call-Keeps, crash-Keeps, pure-Keeps, do_netns-Keeps}
use cni_plugins.Utils.Sysctl.{write_rp_filter, set_rp_filter, sysctl_rp_filter}
use cni_plugins.Utils.Routes.Quiet.{LeavesRoutes}

module _ (env : Env) (n : Netns) where
  pub link_by_name-Keeps : (s : Text) → Keeps LeavesRoutes n (call env (netlink_link_by_name s))
  link_by_name-Keeps s = call-Keeps LeavesRoutes n env (netlink_link_by_name s) tt

  pub link_by_index-Keeps : (i : ℤ) → Keeps LeavesRoutes n (call env (netlink_link_by_index i))
  link_by_index-Keeps i = call-Keeps LeavesRoutes n env (netlink_link_by_index i) tt

  pub rule_add-Keeps : (r : Rule) → Keeps LeavesRoutes n (call env (netlink_rule_add r))
  rule_add-Keeps r = call-Keeps LeavesRoutes n env (netlink_rule_add r) tt

  pub neigh_add-Keeps : (neigh : Neigh) → Keeps LeavesRoutes n (call env (netlink_neigh_add neigh))
  neigh_add-Keeps neigh = call-Keeps LeavesRoutes n env (netlink_neigh_add neigh) tt

  pub sysctl_get-Keeps : (s : Text) → Keeps LeavesRoutes n (call env (sysctl_get s))
  sysctl_get-Keeps s = call-Keeps LeavesRoutes n env (sysctl_get s) tt

  pub sysctl_set-Keeps : (s v : Text) → Keeps LeavesRoutes n (call env (sysctl_set s v))
  sysctl_set-Keeps s v = call-Keeps LeavesRoutes n env (sysctl_set s v) tt

  pub read_dir-Keeps : (s : Text) → Keeps LeavesRoutes n (call env (read_dir s))
  read_dir-Keeps s = call-Keeps LeavesRoutes n env (read_dir s) tt

  pub spider_add_route-Keeps :
      (table family : ℤ) (scope : ℕ) (name : Text) (dst : IpNet) (v4 v6 : Ip)
      → Keeps LeavesRoutes n (call env (spider_add_route table family scope name dst v4 v6))
  spider_add_route-Keeps table family scope name dst v4 v6 =
      call-Keeps LeavesRoutes n env (spider_add_route table family scope name dst v4 v6) tt

  pub inside-Keeps :
      {A : Type 0} (m : M A) → Keeps LeavesRoutes pod m → Keeps LeavesRoutes n (do_netns env m)
  inside-Keeps m k = do_netns-Keeps LeavesRoutes n env m tt k

pub host_route_add-Keeps :
    (env : Env) (r : Route) → Keeps LeavesRoutes host (call env (netlink_route_add r))
host_route_add-Keeps env r = call-Keeps LeavesRoutes host env (netlink_route_add r) refl

pub ruleset leaving = (
  keeps, link_by_name-Keeps, link_by_index-Keeps, rule_add-Keeps, neigh_add-Keeps, sysctl_get-Keeps,
  sysctl_set-Keeps, read_dir-Keeps, spider_add_route-Keeps, inside-Keeps, host_route_add-Keeps,
)

module _ (env : Env) where
  write_rp_filter-Keeps :
      (n : Netns) (name : Text) (v : ℤ) (r : Attempt Text)
      → Keeps LeavesRoutes n (write_rp_filter env name v r)
  unfolding write_rp_filter
  write_rp_filter-Keeps n name v (done value) = search leaving
  write_rp_filter-Keeps n name v (failed e) = search leaving

  set_rp_filter-Keeps : (n : Netns) (v : Option ℤ) → Keeps LeavesRoutes n (set_rp_filter env v)
  unfolding set_rp_filter
  set_rp_filter-Keeps n v = search (leaving, write_rp_filter-Keeps) depth 8

  pub sysctl_rp_filter-Keeps :
      (c : Option RpFilter) → Keeps LeavesRoutes host (sysctl_rp_filter env c)
  unfolding sysctl_rp_filter
  sysctl_rp_filter-Keeps c = search (leaving, set_rp_filter-Keeps) depth 8
