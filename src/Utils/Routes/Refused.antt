-- ===== src/Utils/Routes/Refused.antt =====
-- What is left of the pod's routes where the copy of its IPv4 default route is refused.
use cni_plugins.Base.{
  ◌≡◌, ◌≢◌, ◌↔◌, refl, ◌⊎◌, inl, inr, Bool, true, false, Option, none, some, List, [], ◌∷◌, ◌++◌,
  ◌||◌, not, if◌then◌else◌, arith, All,
}
use cni_plugins.Base.Text.{Text}
use cni_plugins.Base.Int.{ℤ, ◌==ℤ◌, ==ℤ_iff}
use cni_plugins.Net.{IpNet, Link, Route, rt_table_main, is_link_local_net}
use cni_plugins.Constant.{err_route_file_exist}
use cni_plugins.World.{
  Trace, pod, netlink_route_add, netlink_route_del, netlink_link_by_name, netlink_route_list, Env,
  Answer, good, bad, Foreign, foreign, err, errorf, message_is, call, for_each, choose, pure, ◌>>=◌,
}
use cni_plugins.World.Runs.{after}
use cni_plugins.Utils.Routes.{move_route, move_route_table}
use cni_plugins.Utils.Routes.Calls.{is_movable}
use cni_plugins.Utils.Routes.Defaults.{IsIpv4Default, is_default_iff}
use cni_plugins.Utils.Routes.Tables.{Changed}
use cni_plugins.Utils.Routes.Migrate.{move_own_route_refused}

abbrev is_good : {A : Type 0} → Answer A → Bool
is_good (good a) = true
is_good (bad f) = false

-- The pod's routes after a trace, where a refused call changes nothing.
abbrev pub Stands : Env → (Route → Type 0) → Trace → Route → Type 0
Stands env s [] q = s q
Stands env s (e ∷ t) q =
    if is_good (env.answer t e.ns e.call)
    then Changed e.ns e.call q (Stands env s t q)
    else Stands env s t q

not_local : (dst : Option IpNet) → IsIpv4Default dst → is_link_local_net dst ≡ false
unfolding is_link_local_net
not_local none h = refl
not_local (some n) (inl e) = rw e refl
not_local (some n) (inr e) = rw e refl

module _ (env : Env) (index table : ℤ) (r : Route) (f : Foreign) (in_main : r.table ≡ rt_table_main)
    (own : r.link_index ≡ index) (target : IsIpv4Default r.dst)
    (deletes : (t : Trace) → env.answer t pod (netlink_route_del r) ≡ good tt)
    (refuses : (t : Trace)
      → env.answer t pod (netlink_route_add (record r { table = table })) ≡ bad f)
    (other : message_is err_route_file_exist (foreign f) ≡ false) where
  refused_loop :
      (front back : List Route) (t : Trace)
      → All (λ u. is_movable u ≡ false) front
      → for_each (front ++ r ∷ back) (move_route env index table) (record { ns = pod; trace = t })
        ≡ (
          err (errorf "failed to add route (%+v) to new table: %+v" (foreign f)),
          record {
            ns = pod;
            trace =
                after pod
                  (netlink_route_del r ∷ netlink_route_add (record r { table = table }) ∷ [])
                  t;
          },
        )
  unfolding for_each move_route choose pure ◌>>=◌
  refused_loop [] back t h =
      let moved : (not (r.table ==ℤ rt_table_main) || is_link_local_net r.dst) ≡ false =
        ground (arith, ==ℤ_iff r.table rt_table_main, not_local r.dst target) in
      let over : (r.link_index ==ℤ index) ≡ true = ground (arith, ==ℤ_iff r.link_index index) in
      rw (moved, over)
        (rw
          (move_own_route_refused env table r f pod t ((is_default_iff r.dst).1 target) deletes
            refuses other)
          refl)
  refused_loop (u ∷ front) back t (m, h) =
      let passed : (not (u.table ==ℤ rt_table_main) || is_link_local_net u.dst) ≡ true =
        ground (arith, m) in
      rw passed (refused_loop front back t h)

  refused_Stands :
      (s : Route → Type 0) (t : Trace) (q : Route) (P : Type 0)
      → Stands env s t q ≡ P
      → Stands env s
          (after pod (netlink_route_del r ∷ netlink_route_add (record r { table = table }) ∷ []) t)
          q
        ↔ (P × (q ≢ r))
  refused_Stands s t q P e = rw (refuses _) (rw (deletes t) (rw e ((λ h. h), (λ h. h))))

-- The route is not moved: it is not of the main table, or the link-local one.
abbrev pub IsPassed : Route → Type 0
IsPassed u = (u.table ≢ rt_table_main) ⊎ (is_link_local_net u.dst ≡ true)

IsPassed-not_movable : (us : List Route) → All IsPassed us → All (λ u. is_movable u ≡ false) us
IsPassed-not_movable [] h = tt
IsPassed-not_movable (u ∷ us) (inl n, h) =
    (ground (arith, n, ==ℤ_iff u.table rt_table_main), IsPassed-not_movable us h)
IsPassed-not_movable (u ∷ us) (inr e, h) = (ground (arith, e), IsPassed-not_movable us h)

-- Looking up the link and the routes changes nothing.
looks_Stands :
    (env : Env) (iface : Text) (family : ℤ) (link : Link) (routes : List Route) (s : Route → Type 0)
    (t : Trace) (q : Route)
    → ((t : Trace) → env.answer t pod (netlink_link_by_name iface) ≡ good link)
    → ((t : Trace) → env.answer t pod (netlink_route_list family) ≡ good routes)
    → Stands env s (after pod (netlink_link_by_name iface ∷ netlink_route_list family ∷ []) t) q
      ≡ Stands env s t q
looks_Stands env iface family link routes s t q links lists = rw (lists _) (rw (links t) refl)

-- Where the link is found, the listed routes begin with ones outside the main table or link-local
-- ones, followed by a main-table route over the link with no destination or 0.0.0.0, and the kernel
-- deletes that route and refuses its copy other than by "file exists", moveRouteTable fails with
-- the error of the refused addition, and where refused calls change nothing, the pod's routes are
-- then those that were there but for that one: it is lost, and neither put back nor copied, and no
-- later route is moved.
pub move_route_table_refused :
    (env : Env) (iface : Text) (link : Link) (table family : ℤ) (front back : List Route)
    (r : Route) (f : Foreign) (s : Route → Type 0) (t : Trace)
    → ((t : Trace) → env.answer t pod (netlink_link_by_name iface) ≡ good link)
    → ((t : Trace) → env.answer t pod (netlink_route_list family) ≡ good (front ++ r ∷ back))
    → All IsPassed front
    → r.table ≡ rt_table_main
    → r.link_index ≡ link.index
    → IsIpv4Default r.dst
    → ((t : Trace) → env.answer t pod (netlink_route_del r) ≡ good tt)
    → ((t : Trace) → env.answer t pod (netlink_route_add (record r { table = table })) ≡ bad f)
    → message_is err_route_file_exist (foreign f) ≡ false
    → let (result, w) = move_route_table env iface table family (record { ns = pod; trace = t }) in
      (result ≡ err (errorf "failed to add route (%+v) to new table: %+v" (foreign f)))
      × ((q : Route) → Stands env s w.trace q ↔ (Stands env s t q × (q ≢ r)))
unfolding move_route_table call ◌>>=◌
move_route_table_refused env iface link table family front back r f s t links lists passed in_main
      own target deletes refuses other =
    let looked : Trace = (record { ns = pod; call = netlink_link_by_name iface }) ∷ t in
    let listed : Trace = (record { ns = pod; call = netlink_route_list family }) ∷ looked in
    let loop =
      refused_loop env link.index table r f in_main own target deletes refuses other front back
        listed (IsPassed-not_movable front passed) in
    let same =
      λ (q : Route). looks_Stands env iface family link (front ++ r ∷ back) s t q links lists in
    let stands = λ (q : Route).
      refused_Stands env link.index table r f in_main own target deletes refuses other s listed q
        (Stands env s t q) (same q) in
    rw (links t) (rw (lists looked) (rw loop (refl, stands)))
