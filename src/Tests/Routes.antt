-- ===== src/Tests/Routes.antt =====
-- The refinement of the migration of routes, on a pod with one default route.
use cni_plugins.Base.{◌≡◌, ◌≢◌, ◌↔◌, arith, refl, inl, true, false, [], ◌∷◌}
use cni_plugins.Base.Text.{Text, codes}
use cni_plugins.Base.Int.{pos, ==ℤ_iff}
use cni_plugins.Net.{Route, rt_table_main}
use cni_plugins.World.{host, ok, Env, Call, Response, good, netlink_route_list}
use cni_plugins.Types.{migrate_auto}
use cni_plugins.Utils.Routes.{migrate_route}
use cni_plugins.Utils.Routes.Tables.{Holds, Shifted}
use cni_plugins.Utils.Routes.Order.{Ordered, AddsRules, MovesRoutes, migrate_route-Ordered}
use cni_plugins.Utils.Routes.Refine.{IsWilling, migrate_route-Shifted}
use cni_plugins.Tests.Fixtures.{with_answers, default_answer, pod_addr, eth0, default_route}

abbrev pub plain : (c : Call) → Response c
plain (netlink_route_list _) = default_route ∷ []
plain c = default_answer c

abbrev pub plain_env : Env
plain_env = with_answers (λ t n c. good (plain c))

pub plain_env-IsWilling :
    (iface : Text) → IsWilling plain_env iface eth0 (λ family. default_route ∷ [])
plain_env-IsWilling iface = record {
  opens = λ t. refl;
  links = λ t. refl;
  lists = λ t family. refl;
  rules = λ t r. refl;
  accepts = (λ t n r. refl, λ t n r. refl);
}

pub not_main : pos 100 ≢ rt_table_main
not_main h = ground (arith, h, ==ℤ_iff (pos 100) rt_table_main)

abbrev AtFirst : Route → Type 0
AtFirst r = r ≡ default_route

migrate_route-Shifted_example :
    let (result, w) =
      migrate_route plain_env
        (codes "eth0")
        (codes "net1")
        (pod_addr ∷ [])
        migrate_auto
        (pos 100)
        true
        false
        (record { ns = host; trace = [] }) in
    (result ≡ ok tt)
    × (Holds AtFirst w.trace default_route
        ↔ Shifted (pos 2) (pos 100) (default_route ∷ []) (AtFirst default_route) default_route)
migrate_route-Shifted_example =
    migrate_route-Shifted plain_env (codes "eth0") (codes "net1") eth0
      (λ family. default_route ∷ []) (pod_addr ∷ []) migrate_auto (pos 100) true false AtFirst []
      default_route (plain_env-IsWilling (codes "eth0")) not_main (λ h. cc)
      (λ family. (inl refl, tt))

migrate_route-Ordered_example :
    Ordered AddsRules MovesRoutes []
      (migrate_route plain_env
        (codes "eth0")
        (codes "net1")
        (pod_addr ∷ [])
        migrate_auto
        (pos 100)
        true
        false
        (record { ns = host; trace = [] })).1.trace
migrate_route-Ordered_example =
    migrate_route-Ordered plain_env (pos 100) (codes "eth0") (codes "net1") (pod_addr ∷ [])
      migrate_auto true false []
