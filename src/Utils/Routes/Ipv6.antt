-- ===== src/Utils/Routes/Ipv6.antt =====
-- What `MigrateRoute` does to the IPv6 default route, which the kernel lists with the destination ::/0.
use cni_plugins.Base.{
  ◌≡◌, ◌≢◌, refl, inl, inr, Bool, true, false, List, [], ◌∷◌, arith, if◌then◌else◌, All,
}
use cni_plugins.Base.Text.{Text}
use cni_plugins.Base.Int.{ℤ, ==ℤ_iff}
use cni_plugins.Net.{Addr, Link, Route, rt_table_main, family_v4, family_v6, is_link_local_net}
use cni_plugins.Types.{MigrateRoute, migrate_never}
use cni_plugins.World.{Trace, host, Env, ok}
use cni_plugins.Utils.Routes.{migrate_route}
use cni_plugins.Utils.Routes.Defaults.{ipv6_default, ipv6_default-stays}
use cni_plugins.Utils.Routes.Calls.{Occurs, Occurs-append_right}
use cni_plugins.Utils.Routes.Tables.{Holds, Copied, Gone, is_own}
use cni_plugins.Utils.Routes.Moved.{OneHop}
use cni_plugins.Utils.Routes.Refine.{IsWilling, enabled, migrate_route-Shifted}

module _ (index table : ℤ) (r : Route) (target : r.dst ≡ ipv6_default) where
  ipv6_default-own : r.table ≡ rt_table_main → r.link_index ≡ index → is_own index r ≡ true
  unfolding is_link_local_net
  ipv6_default-own m o =
      let local : is_link_local_net r.dst ≡ false = rw target refl in
      ground (arith, local, ==ℤ_iff r.table rt_table_main, ==ℤ_iff r.link_index index)

  not_Gone : (rs : List Route) → ¬ Gone index rs r
  not_Gone [] h = h
  not_Gone (x ∷ rs) (inl (o, d, e)) = ipv6_default-stays (rw target at (rw (← e) at d))
  not_Gone (x ∷ rs) (inr h) = not_Gone rs h

  Copied-Occurs :
      (rs : List Route)
      → is_own index r ≡ true
      → Occurs r rs
      → Copied index table rs (record r { table = table })
  Copied-Occurs [] o h = absurd h
  Copied-Occurs (x ∷ rs) o (inl e) = inl (rw (← e) o, rw e refl)
  Copied-Occurs (x ∷ rs) o (inr h) = inr (Copied-Occurs rs o h)

-- Where the pod can be entered, the interface is found, the routes of each family are listed and
-- the changes are taken, no route over another link has a next hop over the interface, the table is
-- not the main one, the value is not never and IPv6 is enabled, MigrateRoute succeeds, and a listed
-- main-table route over the interface with the destination ::/0 that was there has a copy in the
-- table, and is still in the main one.
pub migrate_route-ipv6_default :
    (env : Env) (iface chained : Text) (link : Link) (routes : ℤ → List Route) (ips : List Addr)
    (value : MigrateRoute) (table : ℤ) (enable_ipv4 : Bool) (s : Route → Type 0) (t : Trace)
    (r : Route)
    → IsWilling env iface link routes
    → table ≢ rt_table_main
    → value ≢ migrate_never
    → ((family : ℤ) → All (OneHop link.index) (routes family))
    → Occurs r (routes family_v6)
    → r.dst ≡ ipv6_default
    → r.table ≡ rt_table_main
    → r.link_index ≡ link.index
    → Holds s t r
    → let (result, w) =
        migrate_route env iface chained ips value table enable_ipv4 true
          (record { ns = host; trace = t }) in
      (result ≡ ok tt) × Holds s w.trace (record r { table = table }) × Holds s w.trace r
migrate_route-ipv6_default env iface chained link routes ips value table enable_ipv4 s t r w other
      named hops listed target in_main own present =
    let shifted = λ (q : Route).
      migrate_route-Shifted env iface chained link routes ips value table enable_ipv4 true s t q w
        other named hops in
    let found = Occurs-append_right r (if enable_ipv4 then routes family_v4 else []) _ listed in
    let copied =
      Copied-Occurs link.index table r target (enabled routes enable_ipv4 true)
        (ipv6_default-own link.index table r target in_main own) found in
    (
      (shifted r).0,
      (shifted (record r { table = table })).1.1 (inl copied),
      (shifted r).1.1 (inr (present, not_Gone link.index table r target _)),
    )
