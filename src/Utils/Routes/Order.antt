-- ===== src/Utils/Routes/Order.antt =====
-- The order of what `MigrateRoute` does, whatever the outside answers.
use cni_plugins.Base.{◌≡◌, refl, Bool, true, false, Option, none, some, List, [], ◌++◌, All}
use cni_plugins.Base.Text.{Text}
use cni_plugins.Base.Int.{ℤ}
use cni_plugins.Net.{Addr, Nexthop, Route, Rule}
use cni_plugins.Types.{MigrateRoute}
use cni_plugins.World.{
  Trace, Event, World, Netns, host, pod, netlink_rule_add, netlink_route_add, netlink_route_del,
  netlink_link_by_name, netlink_route_list, enter_netns, Env, M, ◌>>=◌, choose, pass, pure, call,
}
use cni_plugins.World.Keeps.{Keeps, keeps, continue_with-Keeps, call-Keeps}
use cni_plugins.Utils.Rules.{add_from_rule_table}
use cni_plugins.Utils.Routes.{
  move_own_route, move_nexthop, move_route, move_route_table, migrate_route,
}

-- Rules are added, and no route is touched.
abbrev pub AddsRules : Event → Type 0
AddsRules e = elim e.call [ netlink_rule_add _ ↦ Unit | enter_netns ↦ Unit | _ ↦ ⊥ ]

-- Routes are moved, and no rule is touched.
abbrev pub MovesRoutes : Event → Type 0
MovesRoutes e = elim e.call [
  | netlink_route_add _ ↦ Unit
  | netlink_route_del _ ↦ Unit
  | netlink_link_by_name _ ↦ Unit
  | netlink_route_list _ ↦ Unit
  | enter_netns ↦ Unit
  | _ ↦ ⊥
]

-- From the first trace to the second, what is done at first satisfies `P`, and what follows `Q`.
abbrev pub Ordered : (P Q : Event → Type 0) → Trace → Trace → Type 0
Ordered P Q t t' = (later first : Trace) × (t' ≡ later ++ (first ++ t)) × All Q later × All P first

>>=-Ordered :
    {A B : Type 0} (P Q : Event → Type 0) (n : Netns) (m : M A) (f : A → M B)
    → Keeps P n m
    → ((a : A) → Keeps Q n (f a))
    → (t : Trace) → Ordered P Q t ((m >>= f) (record { ns = n; trace = t })).1.trace
unfolding ◌>>=◌
>>=-Ordered P Q n m f km kf t =
    let (l, p, h, e) = km.run (record { ns = n; trace = t }) refl in
    let (l', p', h', _) =
      (continue_with-Keeps Q n (m (record { ns = n; trace = t })).0 f kf).run
        (m (record { ns = n; trace = t })).1 e in
    (l', l, rw (p', p) refl, h', h)

choose-Ordered :
    (P Q : Event → Type 0) (on : Bool) (m : M Unit) (w : World)
    → Ordered P Q w.trace (m w).1.trace
    → Ordered P Q w.trace (choose on pass m w).1.trace
unfolding choose pure
choose-Ordered P Q true m w h = ([], [], refl, tt, tt)
choose-Ordered P Q false m w h = h

module _ (env : Env) (table : ℤ) where
  rule_add-Keeps : (r : Rule) → Keeps AddsRules pod (call env (netlink_rule_add r))
  rule_add-Keeps r = call-Keeps AddsRules pod env (netlink_rule_add r) tt

  route_add-Keeps : (r : Route) → Keeps MovesRoutes pod (call env (netlink_route_add r))
  route_add-Keeps r = call-Keeps MovesRoutes pod env (netlink_route_add r) tt

  route_del-Keeps : (r : Route) → Keeps MovesRoutes pod (call env (netlink_route_del r))
  route_del-Keeps r = call-Keeps MovesRoutes pod env (netlink_route_del r) tt

  link_by_name-Keeps : (s : Text) → Keeps MovesRoutes pod (call env (netlink_link_by_name s))
  link_by_name-Keeps s = call-Keeps MovesRoutes pod env (netlink_link_by_name s) tt

  route_list-Keeps : (family : ℤ) → Keeps MovesRoutes pod (call env (netlink_route_list family))
  route_list-Keeps family = call-Keeps MovesRoutes pod env (netlink_route_list family) tt

  ruleset ordering = (
    keeps, rule_add-Keeps, route_add-Keeps, route_del-Keeps, link_by_name-Keeps, route_list-Keeps,
  )

  add_from_rule_table-Keeps_rules :
      (ips : List Addr) (a b : Bool) → Keeps AddsRules pod (add_from_rule_table env ips table a b)
  unfolding add_from_rule_table
  add_from_rule_table-Keeps_rules ips a b = search ordering

  move_nexthop-Keeps_moves :
      (r : Route) (o : Option Nexthop) → Keeps MovesRoutes pod (move_nexthop env table r o)
  unfolding move_nexthop
  move_nexthop-Keeps_moves r none = search keeps
  move_nexthop-Keeps_moves r (some v) = search ordering

  move_own_route-Keeps_moves : (r : Route) → Keeps MovesRoutes pod (move_own_route env table r)
  unfolding move_own_route
  move_own_route-Keeps_moves r = search ordering depth 8

  move_route-Keeps_moves :
      (index : ℤ) (r : Route) → Keeps MovesRoutes pod (move_route env index table r)
  unfolding move_route
  move_route-Keeps_moves index r =
      search (ordering, move_own_route-Keeps_moves, move_nexthop-Keeps_moves)

  move_route_table-Keeps_moves :
      (iface : Text) (family : ℤ) → Keeps MovesRoutes pod (move_route_table env iface table family)
  unfolding move_route_table
  move_route_table-Keeps_moves iface family = search (ordering, move_route-Keeps_moves) depth 8

  -- Whatever the outside answers, MigrateRoute adds every rule before it adds or deletes the first
  -- route: its calls are first those of entering the pod and adding rules, and then those of
  -- entering it, finding the link and its routes, and adding and deleting routes.
  pub migrate_route-Ordered :
      (iface chained : Text) (ips : List Addr) (value : MigrateRoute) (a b : Bool) (t : Trace)
      → Ordered AddsRules MovesRoutes t
          (migrate_route env iface chained ips value table a b
            (record { ns = host; trace = t })).1.trace
  unfolding migrate_route
  migrate_route-Ordered iface chained ips value a b t = choose-Ordered AddsRules MovesRoutes _ _ _ (
      >>=-Ordered AddsRules MovesRoutes host _ _
        (search (ordering, add_from_rule_table-Keeps_rules))
        (λ _. search (ordering, move_route_table-Keeps_moves)) t)
