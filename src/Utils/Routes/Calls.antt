-- ===== src/Utils/Routes/Calls.antt =====
-- The kernel calls of `moveRouteTable` for one route, where the kernel accepts them.
use cni_plugins.Base.{
  ◌≡◌, ◌≢◌, refl, ◌⊎◌, inl, inr, Bool, true, false, ◌&&◌, ◌||◌, not, Option, none, some, List, [],
  ◌∷◌, ◌++◌, if◌then◌else◌, Bool-cases,
}
use cni_plugins.Base.Int.{ℤ, ◌==ℤ◌}
use cni_plugins.Net.{Nexthop, Route, rt_table_main, is_link_local_net}
use cni_plugins.Constant.{err_route_file_exist}
use cni_plugins.World.{
  Trace, Netns, Call, netlink_route_add, netlink_route_del, M, Env, good, ok, pass, call, choose,
  ignoring, forgive, returned, message_is,
}
use cni_plugins.World.Runs.{Runs, gather, pure-Runs, >>=-Runs, wrap-Runs, ignoring-Runs}
use cni_plugins.Utils.Routes.{
  move_own_route, move_nexthop, move_route, generated_route, deleted_route, find_nexthop,
  is_default,
}

-- Routes can be added, or are there already, and can be deleted.
abbrev pub AcceptsRoutes : Env → Type 0
AcceptsRoutes env =
    ((t : Trace) (n : Netns) (r : Route)
      → forgive (message_is err_route_file_exist) (returned (env.answer t n (netlink_route_add r)))
        ≡ ok tt)
    × ((t : Trace) (n : Netns) (r : Route) → env.answer t n (netlink_route_del r) ≡ good tt)

abbrev pub Occurs : {A : Type 0} → A → List A → Type 0
Occurs a [] = ⊥
Occurs a (b ∷ bs) = (a ≡ b) ⊎ Occurs a bs

Occurs-append_left : {A : Type 0} (a : A) (xs ys : List A) → Occurs a xs → Occurs a (xs ++ ys)
Occurs-append_left a [] ys h = absurd h
Occurs-append_left a (x ∷ xs) ys (inl e) = inl e
Occurs-append_left a (x ∷ xs) ys (inr h) = inr (Occurs-append_left a xs ys h)

pub Occurs-append_right : {A : Type 0} (a : A) (xs ys : List A) → Occurs a ys → Occurs a (xs ++ ys)
Occurs-append_right a [] ys h = h
Occurs-append_right a (x ∷ xs) ys h = inr (Occurs-append_right a xs ys h)

pub Occurs-gather :
    {A : Type 0} (f : A → List Call) (a : A) (c : Call) (xs : List A)
    → Occurs a xs
    → Occurs c (f a)
    → Occurs c (gather f xs)
Occurs-gather f a c [] h k = absurd h
Occurs-gather f a c (x ∷ xs) (inl e) k = Occurs-append_left c (f x) (gather f xs) (rw (← e) k)
Occurs-gather f a c (x ∷ xs) (inr h) k =
    Occurs-append_right c (f x) (gather f xs) (Occurs-gather f a c xs h k)

-- The calls for one route of the main table over the link, and over one of several next hops.
abbrev pub own_calls : ℤ → Route → List Call
own_calls table r =
    (if is_default r.dst then netlink_route_del r ∷ [] else [])
    ++ netlink_route_add (record r { table = table }) ∷ []

abbrev pub nexthop_calls : ℤ → Route → Option Nexthop → List Call
nexthop_calls table r none = []
nexthop_calls table r (some v) =
    netlink_route_add (generated_route v table r) ∷ netlink_route_del (deleted_route v) ∷ []

abbrev pub is_movable : Route → Bool
is_movable r = r.table ==ℤ rt_table_main && not (is_link_local_net r.dst)

abbrev pub move_calls : ℤ → ℤ → Route → List Call
move_calls index table r =
    if is_movable r
    then (if r.link_index ==ℤ index
        then own_calls table r
        else nexthop_calls table r (find_nexthop index r.multi_path))
    else []

module _ (env : Env) (accepts : AcceptsRoutes env) (n : Netns) (table : ℤ) where
  add_Runs :
      (r : Route)
      → Runs n
          (ignoring (message_is err_route_file_exist) (call env (netlink_route_add r)))
          (netlink_route_add r ∷ [])
          (ok tt)
  unfolding call
  add_Runs r =
      ignoring-Runs n _ _ (netlink_route_add r) (λ t. env.answer t n (netlink_route_add r))
        (λ t. refl) (λ t. accepts.0 t n r)

  del_Runs :
      (r : Route) → Runs n (call env (netlink_route_del r)) (netlink_route_del r ∷ []) (ok tt)
  unfolding call
  del_Runs r = record { run = λ t. rw (accepts.1 t n r) refl }

  move_own_route-Runs :
      (r : Route) → Runs n (move_own_route env table r) (own_calls table r) (ok tt)
  unfolding move_own_route choose
  move_own_route-Runs r =
      let add = wrap-Runs n _ _ _ _ (add_Runs (record r { table = table })) in
      elim (Bool-cases (is_default r.dst)) [
        | inl e ↦ rw e (>>=-Runs n _ _ _ _ tt _ (wrap-Runs n _ _ _ _ (del_Runs r)) add)
        | inr e ↦ rw e (>>=-Runs n _ _ _ _ tt _ (pure-Runs n tt) add)
      ]

  move_nexthop-Runs :
      (r : Route) (o : Option Nexthop)
      → Runs n (move_nexthop env table r o) (nexthop_calls table r o) (ok tt)
  unfolding move_nexthop
  move_nexthop-Runs r none = pure-Runs n tt
  move_nexthop-Runs r (some v) =
      >>=-Runs n _ _ _ _ tt _ (wrap-Runs n _ _ _ _ (add_Runs (generated_route v table r)))
        (wrap-Runs n _ _ _ _ (del_Runs (deleted_route v)))

  tests-Runs :
      (in_main link_local own : Bool) (m k : M Unit) (cs ds : List Call)
      → Runs n m cs (ok tt)
      → Runs n k ds (ok tt)
      → Runs n
          (choose (not in_main || link_local) pass (choose own m k))
          (if in_main && not link_local then (if own then cs else ds) else [])
          (ok tt)
  unfolding choose
  tests-Runs false link_local own m k cs ds p q = pure-Runs n tt
  tests-Runs true true own m k cs ds p q = pure-Runs n tt
  tests-Runs true false true m k cs ds p q = p
  tests-Runs true false false m k cs ds p q = q

  pub move_route-Runs :
      (index : ℤ) (r : Route)
      → Runs n (move_route env index table r) (move_calls index table r) (ok tt)
  unfolding move_route
  move_route-Runs index r =
      tests-Runs (r.table ==ℤ rt_table_main) (is_link_local_net r.dst) (r.link_index ==ℤ index) _ _
        _ _ (move_own_route-Runs r) (move_nexthop-Runs r (find_nexthop index r.multi_path))

-- Every route of the main table over the interface, but for the link-local one, is added to the
-- new table, and deleted from the main one if the code's test takes it for a default route. Of every other route of the
-- main table whose first next hop over the interface is `v`, that hop is added to the new table
-- and deleted from the main one.
abbrev pub Moved : ℤ → ℤ → List Call → Route → Type 0
Moved index table cs r =
    r.table ≡ rt_table_main
    → is_link_local_net r.dst ≡ false
    → (r.link_index ≡ index
        → Occurs (netlink_route_add (record r { table = table })) cs
          × (is_default r.dst ≡ true → Occurs (netlink_route_del r) cs))
      × ((v : Nexthop)
          → r.link_index ≢ index
          → find_nexthop index r.multi_path ≡ some v
          → Occurs (netlink_route_add (generated_route v table r)) cs
            × Occurs (netlink_route_del (deleted_route v)) cs)
