-- ===== src/Utils/Routes/Exact.antt =====
-- Which routes `moveRouteTable` moves, where the kernel accepts the additions and deletions.
use cni_plugins.Base.{
  ℕ, ◌≡◌, ◌≢◌, refl, ◌⊎◌, inl, inr, false, none, some, ◌++◌, All, List, [], ◌∷◌, arith,
  if◌then◌else◌, Bool-cases,
}
use cni_plugins.Base.Text.{Text}
use cni_plugins.Base.Int.{ℤ, ◌==ℤ◌, ==ℤ_iff}
use cni_plugins.Net.{Ip, Link, Nexthop, Route, rt_table_main, is_link_local_net}
use cni_plugins.World.{
  Event, Trace, Netns, pod, Call, netlink_route_add, netlink_route_del, netlink_link_by_name,
  netlink_route_list, Env, good, ok, call,
}
use cni_plugins.World.Runs.{after, gather, >>=-Runs, for_each-Runs}
use cni_plugins.Utils.Routes.{
  move_route_table, generated_route, deleted_route, find_nexthop, is_default,
}
use cni_plugins.Utils.Routes.Defaults.{IsIpv4Default, not_default}
use cni_plugins.Utils.Routes.Calls.{
  AcceptsRoutes, Occurs, Occurs-append_right, Occurs-gather, own_calls, nexthop_calls, move_calls,
  move_route-Runs, Moved,
}

module _ (index table : ℤ) where
  own_of_index :
      (r : Route)
      → r.table ≡ rt_table_main
      → is_link_local_net r.dst ≡ false
      → r.link_index ≡ index
      → move_calls index table r ≡ own_calls table r
  own_of_index r m l o = ground (arith, ==ℤ_iff r.table rt_table_main, ==ℤ_iff r.link_index index)

  hop_of_index :
      (r : Route)
      → r.table ≡ rt_table_main
      → is_link_local_net r.dst ≡ false
      → r.link_index ≢ index
      → move_calls index table r ≡ nexthop_calls table r (find_nexthop index r.multi_path)
  hop_of_index r m l o = ground (arith, ==ℤ_iff r.table rt_table_main, ==ℤ_iff r.link_index index)

  Moved-gather :
      (routes : List Route) (r : Route)
      → Occurs r routes
      → Moved index table (gather (move_calls index table) routes) r
  Moved-gather routes r h m l = (
    λ o.
        let found = λ (c : Call) (k : Occurs c (own_calls table r)).
          Occurs-gather (move_calls index table) r c routes h (rw (own_of_index r m l o) k) in
        (
          found _ (
              Occurs-append_right _ (if is_default r.dst then netlink_route_del r ∷ [] else []) _
                (inl refl)),
          λ d. found _ (rw d (inl refl)),
        ),
    λ v o e.
        let found = λ (c : Call) (k : Occurs c (nexthop_calls table r (some v))).
          Occurs-gather (move_calls index table) r c routes h (rw (hop_of_index r m l o, e) k) in
        (found _ (inl refl), found _ (inr (inl refl))),
  )

-- Where the kernel lists `routes` and accepts the changes, moving succeeds, and each listed route
-- is moved as it should be.
pub move_route_table_moves :
    (env : Env)
    → AcceptsRoutes env
    → (iface : Text) (link : Link) (table family : ℤ) (routes : List Route) (t : Trace)
    → ((t : Trace) (n : Netns) → env.answer t n (netlink_link_by_name iface) ≡ good link)
    → ((t : Trace) (n : Netns) → env.answer t n (netlink_route_list family) ≡ good routes)
    → (cs : List Call) × (move_route_table env iface table family (record { ns = pod; trace = t })
        ≡ (
          ok tt,
          record {
            ns = pod;
            trace = after pod (netlink_link_by_name iface ∷ netlink_route_list family ∷ cs) t;
          },
        ))
      × ((r : Route) → Occurs r routes → Moved link.index table cs r)
unfolding move_route_table call
move_route_table_moves env accepts iface link table family routes t links lists = (
  gather (move_calls link.index table) routes,
  (>>=-Runs pod (call env (netlink_link_by_name iface)) _ (netlink_link_by_name iface ∷ []) _ link _
        (record { run = λ t'. rw (links t' pod) refl })
        (>>=-Runs pod (call env (netlink_route_list family)) _ (netlink_route_list family ∷ []) _
          routes _ (record { run = λ t'. rw (lists t' pod) refl })
          (for_each-Runs pod routes _ _ (move_route-Runs env accepts pod table link.index)))).run
      t,
  Moved-gather link.index table routes,
)

Occurs-after_old :
    (n : Netns) (cs : List Call) (e : Event) (t : Trace) → Occurs e t → Occurs e (after n cs t)
Occurs-after_old n [] e t h = h
Occurs-after_old n (c ∷ cs) e t h = Occurs-after_old n cs e _ (inr h)

pub Occurs-after :
    (n : Netns) (cs : List Call) (c : Call) (t : Trace)
    → Occurs c cs
    → Occurs (record { ns = n; call = c }) (after n cs t)
Occurs-after n [] c t h = absurd h
Occurs-after n (d ∷ cs) c t (inl e) = Occurs-after_old n cs _ _ (inl (rw e refl))
Occurs-after n (d ∷ cs) c t (inr h) = Occurs-after n cs c _ h

-- The call was made in the pod.
abbrev pub InPod : Call → Trace → Type 0
InPod c t = Occurs (record { ns = pod; call = c }) t

-- The first next hop over the link is found behind others that are not.
find_nexthop_first :
    (index : ℤ) (front back : List Nexthop) (v : Nexthop)
    → All (λ (u : Nexthop). u.link_index ≢ index) front
    → v.link_index ≡ index
    → find_nexthop index (front ++ v ∷ back) ≡ some v
unfolding find_nexthop
find_nexthop_first index [] back v h over = ground (arith, ==ℤ_iff v.link_index index)
find_nexthop_first index (u ∷ front) back v (n, h) over =
    let e : (u.link_index ==ℤ index) ≡ false = ground (arith, ==ℤ_iff u.link_index index) in
    rw e (find_nexthop_first index front back v h over)

-- A route over a link and a gateway in a table, with nothing else but the MTU: it has no destination.
abbrev pub hop_route : ℤ → Ip → ℤ → ℕ → Route
hop_route index gw table mtu = record {
  link_index = index;
  scope = 0;
  dst = none;
  src = [];
  gw = gw;
  table = table;
  mtu = mtu;
  multi_path = [];
  others = 0;
}

module _ (env : Env) (accepts : AcceptsRoutes env) (iface : Text) (link : Link) (table family : ℤ)
    (routes : List Route) (t : Trace)
    (links : (t : Trace) (n : Netns) → env.answer t n (netlink_link_by_name iface) ≡ good link)
    (lists : (t : Trace) (n : Netns) → env.answer t n (netlink_route_list family) ≡ good routes)
    (r : Route) (listed : Occurs r routes) (in_main : r.table ≡ rt_table_main)
    (not_local : is_link_local_net r.dst ≡ false) where
  -- Where the kernel takes the changes, moving the routes of an interface succeeds, and a listed
  -- route of the main table over it that is not the link-local one has been added to the new table,
  -- and it has been deleted or has a destination other than 0.0.0.0.
  pub move_route_table_own :
      r.link_index ≡ link.index
      → let (result, w) =
          move_route_table env iface table family (record { ns = pod; trace = t }) in
        (result ≡ ok tt)
        × InPod (netlink_route_add (record r { table = table })) w.trace
        × (InPod (netlink_route_del r) w.trace ⊎ ¬ IsIpv4Default r.dst)
  move_route_table_own own =
      let m = move_route_table_moves env accepts iface link table family routes t links lists in
      let k = (m.2 r listed in_main not_local).0 own in
      rw m.1 (
        refl,
        Occurs-after pod m.0 _ _ k.0,
        elim (Bool-cases (is_default r.dst)) [
          | inl e ↦ inl (Occurs-after pod m.0 _ _ (k.1 e))
          | inr e ↦ inr (not_default r.dst e)
        ],
      )

  -- Where the kernel takes the changes, moving the routes of an interface succeeds. Of a listed
  -- route of the main table over another link, not the link-local one, it takes the first next hop
  -- over the interface, those before it being over other links, and has added to the new table a
  -- route over its link and gateway with the listed route's MTU and nothing else, and deleted from
  -- the main one a route over them with nothing else: whatever the destination of the listed route,
  -- both have none.
  pub move_route_table_nexthop :
      (front back : List Nexthop) (v : Nexthop)
      → r.link_index ≢ link.index
      → r.multi_path ≡ front ++ v ∷ back
      → All (λ (u : Nexthop). u.link_index ≢ link.index) front
      → v.link_index ≡ link.index
      → let (result, w) =
          move_route_table env iface table family (record { ns = pod; trace = t }) in
        (result ≡ ok tt)
        × InPod (netlink_route_add (hop_route v.link_index v.gw table r.mtu)) w.trace
        × InPod (netlink_route_del (hop_route v.link_index v.gw rt_table_main 0)) w.trace
  unfolding generated_route deleted_route
  move_route_table_nexthop front back v other split before over =
      let m = move_route_table_moves env accepts iface link table family routes t links lists in
      let first : find_nexthop link.index r.multi_path ≡ some v =
        rw split (find_nexthop_first link.index front back v before over) in
      let k = (m.2 r listed in_main not_local).1 v other first in
      rw m.1 (refl, Occurs-after pod m.0 _ _ k.0, Occurs-after pod m.0 _ _ k.1)
