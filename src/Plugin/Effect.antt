-- ===== src/Plugin/Effect.antt =====
-- Steps of a command that leave the pod's routes as they are, around one that changes them.
pub mod Leaves
use cni_plugins.Base.{◌≡◌, ◌≢◌, refl, ◌↔◌, some, List, [], ◌++◌, All}
use mathlib.Core.List.{append-nil}
use cni_plugins.Base.Text.{Text}
use cni_plugins.Base.Int.{ℤ}
use cni_plugins.Net.{Ip, Addr, Link, Route, rt_table_main}
use cni_plugins.Types.{MigrateRoute, RpFilter, migrate_never}
use cni_plugins.World.{Trace, host, Env, M, ok, ◌>>=◌, ◌>>◌, spider_ip_address_by_name}
use cni_plugins.World.Keeps.{Keeps, deref-Keeps, wrap-Keeps, call-Keeps}
use cni_plugins.Plugin.{CmdArgs, IpFamilies}
use cni_plugins.Plugin.Links.{OnVeths}
use cni_plugins.Config.Laws.{AreSubnets}
use cni_plugins.Utils.Names.{get_default_route_interface}
use cni_plugins.Utils.Routes.Moved.{OneHop}
use cni_plugins.Plugin.Success.{hijack_custom_subnet-Succeeds, sysctl_rp_filter-Succeeds}
use cni_plugins.World.Succeeds.{
  Succeeds, AnswersAll, Always, Any, deref-Succeeds, wrap-Succeeds, done-Succeeds,
}
use cni_plugins.Utils.Routes.Tables.{Holds, Shifted, Shifted-append}
use cni_plugins.Utils.Routes.Quiet.{LeavesRoutes, Holds-LeavesRoutes}
use cni_plugins.Utils.Routes.Refine.{
  Shifts, nothing_Shifted, >>-Shifts, IsWilling, enabled, migrate_route-Shifts,
}

module _ (s : Route → Type 0) (index table : ℤ) (other : table ≢ rt_table_main) where
  unchanged :
      {A : Type 0} (m : M A) (a : A) (t t1 : Trace) (q : Route)
      → m (record { ns = host; trace = t }) ≡ (ok a, record { ns = host; trace = t1 })
      → Keeps LeavesRoutes host m
      → Holds s t1 q ↔ Shifted index table [] (Holds s t q) q
  unchanged m a t t1 q e keeps =
      let (l, p, all, n) = keeps.run (record { ns = host; trace = t }) refl in
      let same : t1 ≡ l ++ t = rw e at p in
      let h = Holds-LeavesRoutes s l t q all in
      let k = nothing_Shifted s index table other q (Holds s t q) in
      rw same (λ x. k.0 (h.0 x), λ y. h.1 (k.1 y))

  -- Something that succeeds and leaves the routes, and then something that changes them.
  pub quiet_then-Shifts :
      {A : Type 0} (Q : A → Type 0) (rs : List Route) (m : M A) (f : A → M Unit)
      → Succeeds Always host Q m
      → Keeps LeavesRoutes host m
      → ((a : A) → Q a → Shifts s index table other host rs (f a))
      → Shifts s index table other host rs (m >>= f)
  unfolding ◌>>=◌
  quiet_then-Shifts Q rs m f succeeds keeps h = record {
    run = λ t.
        let (a, t1, e, i, x) = succeeds.run t tt in
        let (t2, e', g) = (h a x).run t1 in
        (
          t2,
          rw e e',
          λ q. Shifted-append index table other [] rs _ _ _ q (unchanged m a t t1 q e keeps) (g q),
        );
  }

  pub then_quiet-Shifts :
      (rs : List Route) (m k : M Unit)
      → Shifts s index table other host rs m
      → Succeeds Always host Any k
      → Keeps LeavesRoutes host k
      → Shifts s index table other host rs (m >> k)
  then_quiet-Shifts rs m k h succeeds keeps = rw append-nil at (
      >>-Shifts s index table other host rs [] m k h (record {
        run = λ t.
            let (a, t1, e, i, x) = succeeds.run t tt in (t1, e, λ q. unchanged k a t t1 q e keeps);
      }))
