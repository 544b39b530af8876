-- ===== src/Tests/Effect.antt =====
-- The router plugin's effect on a pod with one default route.
use cni_plugins.Base.{◌≡◌, ◌↔◌, refl, inl, true, false, some, [], ◌∷◌}
use cni_plugins.Base.Text.{codes}
use cni_plugins.Base.Int.{pos}
use cni_plugins.Net.{Route}
use cni_plugins.Types.{migrate_auto}
use cni_plugins.World.{Trace, host, ok}
use cni_plugins.World.Succeeds.{AnswersAll, Always}
use cni_plugins.Plugin.{IpFamilies}
use cni_plugins.Plugin.Links.{OnVeths}
use cni_plugins.Utils.Routes.Tables.{Holds, Shifted}
use cni_plugins.Router.{PluginConf, set_up_networks}
use cni_plugins.Router.Effect.{set_up_networks-Shifted}
use cni_plugins.Tests.Fixtures.{default_route, pod_addr, eth0}
use cni_plugins.Tests.Routes.{plain, plain_env, plain_env-IsWilling, not_main}
use cni_plugins.Tests.Success.{conf, json, args, eth0-IsVeth, good-eth0}

pub plain_env-AnswersAll : AnswersAll Always plain_env
plain_env-AnswersAll = record { grows = λ t e i. tt; answers = λ t n c i. (plain c, refl) }

pub plain_env-OnVeths : OnVeths plain_env
plain_env-OnVeths = record {
  by_name = λ t n name link e. eth0-IsVeth link (good-eth0 link e);
  by_index = λ t n index link e. eth0-IsVeth link (good-eth0 link e);
}

abbrev filled : PluginConf
filled = record conf {
  overlay_hijack_subnet = codes "10.233.64.0/18" ∷ [];
  migrate_route = some migrate_auto;
  host_rule_table = some (pos 500);
  rp_filter = some (record { enable = some true; value = some (pos 2) });
}

abbrev pub families : IpFamilies
families = record { enable_ipv4 = true; enable_ipv6 = false; ipfamily = pos 2 }

abbrev pub AtFirst : Route → Type 0
AtFirst r = r ≡ default_route

set_up_networks-Shifted_example :
    (t' : Trace) × (set_up_networks plain_env json filled args
        (codes "net2")
        (pos 100)
        families
        ((10 ∷ 6 ∷ 0 ∷ 9 ∷ []) ∷ [])
        (pod_addr ∷ [])
        (record { ns = host; trace = [] })
      ≡ (ok tt, record { ns = host; trace = t' }))
    × ((q : Route)
        → Holds AtFirst t' q ↔ Shifted (pos 2) (pos 100) (default_route ∷ []) (AtFirst q) q)
set_up_networks-Shifted_example =
    set_up_networks-Shifted plain_env json filled args (codes "net2") eth0
      (λ family. default_route ∷ []) (pos 100) families ((10 ∷ 6 ∷ 0 ∷ 9 ∷ []) ∷ []) (pod_addr ∷ [])
      (pos 500) migrate_auto (record { enable = some true; value = some (pos 2) }) AtFirst []
      plain_env-AnswersAll plain_env-OnVeths refl refl refl (refl, tt) (refl, tt) (refl, tt)
      (plain_env-IsWilling _) not_main (λ h. cc) (λ family. (inl refl, tt))
