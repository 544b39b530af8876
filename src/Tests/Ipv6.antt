-- ===== src/Tests/Ipv6.antt =====
-- The migration of routes on a pod with an IPv6 default route.
use cni_plugins.Base.{◌≡◌, refl, inl, true, [], ◌∷◌}
use cni_plugins.Base.Text.{codes}
use cni_plugins.Base.Int.{pos}
use cni_plugins.Net.{Route, empty_route, rt_table_main}
use cni_plugins.World.{host, ok, Env, Call, Response, good, netlink_route_list}
use cni_plugins.Types.{migrate_enable}
use cni_plugins.Utils.Routes.{migrate_route}
use cni_plugins.Utils.Routes.Defaults.{ipv6_default}
use cni_plugins.Utils.Routes.Tables.{Holds}
use cni_plugins.Utils.Routes.Refine.{IsWilling}
use cni_plugins.Utils.Routes.Ipv6.{migrate_route-ipv6_default}
use cni_plugins.Tests.Fixtures.{with_answers, default_answer, pod_addr, eth0}
use cni_plugins.Tests.Routes.{not_main}

abbrev v6_route : Route
v6_route = record empty_route {
  link_index = pos 2;
  dst = ipv6_default;
  gw = 0xfd ∷ 0 ∷ 0 ∷ 0 ∷ 0 ∷ 0 ∷ 0 ∷ 0 ∷ 0 ∷ 0 ∷ 0 ∷ 0 ∷ 0 ∷ 0 ∷ 0 ∷ 1 ∷ [];
  table = rt_table_main;
}

abbrev lists_v6 : (c : Call) → Response c
lists_v6 (netlink_route_list _) = v6_route ∷ []
lists_v6 c = default_answer c

abbrev v6_env : Env
v6_env = with_answers (λ t n c. good (lists_v6 c))

abbrev Present : Route → Type 0
Present r = r ≡ v6_route

v6_env-IsWilling : IsWilling v6_env (codes "eth0") eth0 (λ family. v6_route ∷ [])
v6_env-IsWilling = record {
  opens = λ t. refl;
  links = λ t. refl;
  lists = λ t family. refl;
  rules = λ t r. refl;
  accepts = (λ t n r. refl, λ t n r. refl);
}

migrate_route-ipv6_default_example :
    let (result, w) =
      migrate_route v6_env
        (codes "eth0")
        (codes "net1")
        (pod_addr ∷ [])
        migrate_enable
        (pos 100)
        true
        true
        (record { ns = host; trace = [] }) in
    (result ≡ ok tt)
    × Holds Present w.trace (record v6_route { table = pos 100 })
    × Holds Present w.trace v6_route
migrate_route-ipv6_default_example =
    migrate_route-ipv6_default v6_env (codes "eth0") (codes "net1") eth0 (λ family. v6_route ∷ [])
      (pod_addr ∷ []) migrate_enable (pos 100) true Present [] v6_route v6_env-IsWilling not_main
      (λ h. cc) (λ family. (inl refl, tt)) (inl refl) refl refl refl refl
