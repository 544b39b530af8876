-- ===== src/Utils/Routes/Refine.antt =====
-- `moveRouteTable` and `MigrateRoute` against the abstract operation on the pod's routes.
use cni_plugins.Base.{
  ◌≡◌, ◌≢◌, ◌↔◌, refl, inl, inr, Bool, true, false, List, [], ◌∷◌, ◌++◌, arith, if◌then◌else◌,
  Bool-cases, All,
}
use cni_plugins.Base.Text.{Text}
use cni_plugins.Base.Int.{ℤ, ◌==ℤ◌, ==ℤ_iff}
use cni_plugins.Net.{Addr, Link, Route, Rule, rt_table_main, family_v4, family_v6}
use cni_plugins.Types.{MigrateRoute, migrate_auto, migrate_never}
use cni_plugins.World.{
  Trace, Netns, host, pod, enter_netns, netlink_link_by_name, netlink_route_list, netlink_rule_add,
  M, Env, good, ok, for_each, call, pass, pure, choose, try, do_netns, ◌>>=◌, ◌>>◌,
}
use cni_plugins.World.Runs.{after}
use cni_plugins.Utils.Rules.{add_from_rule_table, from_rule}
use cni_plugins.Utils.Routes.{move_route, move_route_table, migrate_route}
use cni_plugins.Utils.Routes.Migrate.{compare_interface_name-default}
use cni_plugins.Utils.Routes.Calls.{AcceptsRoutes, move_calls, move_route-Runs}
use cni_plugins.Utils.Routes.Tables.{Holds, Shifted, Shifted-append}
use cni_plugins.Utils.Routes.Moved.{OneHop, move_calls-Shifted}

module _ (s : Route → Type 0) (index table : ℤ) (other : table ≢ rt_table_main) where
  -- In a namespace, the action succeeds and does the abstract operation for these routes.
  pub record Shifts (n : Netns) (rs : List Route) (m : M Unit) : Type 0 where
    pub run :
        (t : Trace)
        → (t' : Trace) × (m (record { ns = n; trace = t }) ≡ (ok tt, record { ns = n; trace = t' }))
          × ((q : Route) → Holds s t' q ↔ Shifted index table rs (Holds s t q) q)

  pub >>-Shifts :
      (n : Netns) (xs ys : List Route) (m k : M Unit)
      → Shifts n xs m
      → Shifts n ys k
      → Shifts n (xs ++ ys) (m >> k)
  unfolding ◌>>=◌
  >>-Shifts n xs ys m k a b = record {
    run = λ t.
        let (t1, e, f) = a.run t in
        let (t2, e', g) = b.run t1 in
        (t2, rw e e', λ q. Shifted-append index table other xs ys _ _ _ q (f q) (g q));
  }

  pub nothing_Shifted : (q : Route) (P : Type 0) → P ↔ Shifted index table [] P q
  nothing_Shifted q P = (λ p. inr (p, λ g. g), λ h. elim h [ inl c ↦ absurd c | inr (p, n) ↦ p ])

  pass-Shifts : (n : Netns) → Shifts n [] pass
  unfolding pure
  pass-Shifts n = record { run = λ t. (t, refl, λ q. nothing_Shifted q (Holds s t q)) }

  module _ (env : Env) (accepts : AcceptsRoutes env) where
    move_loop-Shifts :
        (rs : List Route)
        → All (OneHop index) rs
        → Shifts pod rs (for_each rs (move_route env index table))
    unfolding for_each
    move_loop-Shifts [] h = pass-Shifts pod
    move_loop-Shifts (r ∷ rs) (h, hs) =
        >>-Shifts pod (r ∷ []) rs (move_route env index table r) _
          (record {
            run = λ t. (
              after pod (move_calls index table r) t,
              (move_route-Runs env accepts pod table index r).run t,
              λ q. move_calls-Shifted s index table other r q t h,
            );
          })
          (move_loop-Shifts rs hs)

    move_route_table-Shifts :
        (iface : Text) (link : Link) (family : ℤ) (rs : List Route)
        → link.index ≡ index
        → ((t : Trace) → env.answer t pod (netlink_link_by_name iface) ≡ good link)
        → ((t : Trace) → env.answer t pod (netlink_route_list family) ≡ good rs)
        → All (OneHop index) rs
        → Shifts pod rs (move_route_table env iface table family)
    unfolding move_route_table call ◌>>=◌
    move_route_table-Shifts iface link family rs same links lists h = record {
      run = λ t.
          let looked : Trace = (record { ns = pod; call = netlink_link_by_name iface }) ∷ t in
          let listed : Trace = (record { ns = pod; call = netlink_route_list family }) ∷ looked in
          let (t', e, f) = (move_loop-Shifts rs h).run listed in
          (t', rw (links t) (rw (lists looked) (rw same e)), f);
    }

    rule-Shifts :
        (r : Rule)
        → ((t : Trace) → env.answer t pod (netlink_rule_add r) ≡ good tt)
        → Shifts pod [] (call env (netlink_rule_add r))
    unfolding call
    rule-Shifts r h = record {
      run = λ t. (
        (record { ns = pod; call = netlink_rule_add r }) ∷ t,
        rw (h t) refl,
        λ q. nothing_Shifted q (Holds s t q),
      );
    }

    rules-Shifts :
        (ips : List Addr) (a b : Bool)
        → ((t : Trace) (r : Rule) → env.answer t pod (netlink_rule_add r) ≡ good tt)
        → Shifts pod [] (add_from_rule_table env ips table a b)
    unfolding add_from_rule_table for_each
    rules-Shifts [] a b h = pass-Shifts pod
    rules-Shifts (ip ∷ ips) a b h =
        >>-Shifts pod [] [] _ _ (rule-Shifts (from_rule ip table a b) (λ t. h t _))
          (rules-Shifts ips a b h)

module _ (s : Route → Type 0) (index table : ℤ) (other : table ≢ rt_table_main) (env : Env) where
  inside-Shifts :
      (rs : List Route) (m : M Unit)
      → ((t : Trace) → env.answer t host enter_netns ≡ good tt)
      → Shifts s index table other pod rs m
      → Shifts s index table other host rs (do_netns env m)
  unfolding do_netns call
  inside-Shifts rs m opens h = record {
    run = λ t.
        let entered : Trace = (record { ns = host; call = enter_netns }) ∷ t in
        let (t', e, f) = h.run entered in (t', rw (opens t) (rw e refl), f);
  }

  try-Shifts :
      (n : Netns) (rs : List Route) (m k : M Unit)
      → Shifts s index table other n [] m
      → Shifts s index table other n rs k
      → Shifts s index table other n rs (try m >>= λ _. k)
  unfolding try ◌>>=◌
  try-Shifts n rs m k h g = record {
    run = λ t.
        let (t1, e, f) = h.run t in
        let (t2, e', f') = g.run t1 in
        (t2, rw e e', λ q. Shifted-append index table other [] rs _ _ _ q (f q) (f' q));
  }

  choose-Shifts :
      (n : Netns) (on : Bool) (rs : List Route) (m : M Unit)
      → Shifts s index table other n rs m
      → Shifts s index table other n (if on then rs else []) (choose on m pass)
  unfolding choose
  choose-Shifts n true rs m h = h
  choose-Shifts n false rs m h = pass-Shifts s index table other n

-- The pod can be entered, has the interface, lists its routes and takes every change.
pub record IsWilling (env : Env) (iface : Text) (link : Link) (routes : ℤ → List Route)
    : Type 0 where
  pub opens : (t : Trace) → env.answer t host enter_netns ≡ good tt
  pub links : (t : Trace) → env.answer t pod (netlink_link_by_name iface) ≡ good link
  pub lists :
      (t : Trace) (family : ℤ) → env.answer t pod (netlink_route_list family) ≡ good (routes family)
  pub rules : (t : Trace) (r : Rule) → env.answer t pod (netlink_rule_add r) ≡ good tt
  pub accepts : AcceptsRoutes env

migrate_route-acts :
    (env : Env) (iface chained : Text) (ips : List Addr) (value : MigrateRoute) (table : ℤ)
    (a b : Bool)
    → value ≢ migrate_never
    → migrate_route env iface chained ips value table a b ≡ (
        try (do_netns env (add_from_rule_table env ips table a b)) >>= λ _.
        choose a (do_netns env (move_route_table env iface table family_v4)) pass
        >> choose b (do_netns env (move_route_table env iface table family_v6)) pass)
unfolding migrate_route choose
migrate_route-acts env iface chained ips value table a b h =
    let acts : (value ==ℤ migrate_never) ≡ false = ground (arith, ==ℤ_iff value migrate_never) in
    rw (acts, compare_interface_name-default)
      (elim (Bool-cases (value ==ℤ migrate_auto)) [ inl e ↦ rw e refl | inr e ↦ rw e refl ])

-- The routes of the families that are enabled.
abbrev pub enabled : (ℤ → List Route) → Bool → Bool → List Route
enabled routes a b = (if a then routes family_v4 else []) ++ (if b then routes family_v6 else [])

pub migrate_route-Shifts :
    (env : Env) (iface chained : Text) (link : Link) (routes : ℤ → List Route) (ips : List Addr)
    (value : MigrateRoute) (table : ℤ) (a b : Bool) (s : Route → Type 0)
    → IsWilling env iface link routes
    → (other : table ≢ rt_table_main) → value ≢ migrate_never
    → ((family : ℤ) → All (OneHop link.index) (routes family))
    → Shifts s link.index table other host
        (enabled routes a b)
        (migrate_route env iface chained ips value table a b)
migrate_route-Shifts env iface chained link routes ips value table a b s w other named hops =
    let moves = λ (on : Bool) (family : ℤ).
      choose-Shifts s link.index table other env host on (routes family) _ (
        inside-Shifts s link.index table other env (routes family) _ w.opens (
          move_route_table-Shifts s link.index table other env w.accepts iface link family
            (routes family) refl w.links (λ t. w.lists t family) (hops family))) in
    rw (migrate_route-acts env iface chained ips value table a b named) (
      try-Shifts s link.index table other env host _ _ _
        (inside-Shifts s link.index table other env [] _ w.opens
          (rules-Shifts s link.index table other env w.accepts ips a b w.rules))
        (>>-Shifts s link.index table other host _ _ _ _ (moves a family_v4) (moves b family_v6)))

-- Where the pod can be entered, the interface is found, the routes of each family are listed and
-- the changes are taken, no route over another link has a next hop over the interface, the table is
-- not the main one and the value is not never, MigrateRoute succeeds and changes the set of the
-- pod's routes exactly so: of the listed main-table routes over the interface, but for the link-
-- local one, of the enabled families, there is now a copy in the table, the ones with no
-- destination or 0.0.0.0 are gone, and of every other route, the IPv6 default ones among them,
-- nothing changes.
pub migrate_route-Shifted :
    (env : Env) (iface chained : Text) (link : Link) (routes : ℤ → List Route) (ips : List Addr)
    (value : MigrateRoute) (table : ℤ) (a b : Bool) (s : Route → Type 0) (t : Trace) (q : Route)
    → IsWilling env iface link routes
    → table ≢ rt_table_main
    → value ≢ migrate_never
    → ((family : ℤ) → All (OneHop link.index) (routes family))
    → let (result, w) =
        migrate_route env iface chained ips value table a b (record { ns = host; trace = t }) in
      (result ≡ ok tt)
      × (Holds s w.trace q ↔ Shifted link.index table (enabled routes a b) (Holds s t q) q)
migrate_route-Shifted env iface chained link routes ips value table a b s t q w other named hops =
    let (t', e, f) =
      (migrate_route-Shifts env iface chained link routes ips value table a b s w other named
          hops).run
        t in
    rw e (refl, f q)
