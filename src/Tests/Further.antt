-- ===== src/Tests/Further.antt =====
-- The veth plugin's effect on a pod that has veth0 already.
use cni_plugins.Base.{◌≡◌, ◌↔◌, refl, inl, true, false, some, [], ◌∷◌, arith}
use cni_plugins.Base.Text.{codes}
use cni_plugins.Base.Int.{pos, negsuc}
use cni_plugins.Net.{Route}
use cni_plugins.Net.Mac.{parse_mac_addr-mac_string}
use cni_plugins.World.{Trace, host, ok}
use cni_plugins.Utils.Names.{get_rule_number}
use cni_plugins.Utils.Names.Decimal.{atoi}
use cni_plugins.Utils.Routes.Tables.{Holds, Shifted}
use cni_plugins.Veth.{PluginConf, set_up_networks}
use cni_plugins.Veth.Success.{HasMac}
use cni_plugins.Veth.Effect.{veth_set_up_networks-Shifted}
use cni_plugins.Tests.Fixtures.{default_route, pod_addr, eth0}
use cni_plugins.Tests.Setup.{pair}
use cni_plugins.Tests.Routes.{plain_env, plain_env-IsWilling, not_main}
use cni_plugins.Tests.Effect.{plain_env-AnswersAll, plain_env-OnVeths, AtFirst, families}
use cni_plugins.Tests.Veth.{conf, json, args}

pair-HasMac : HasMac pair
pair-HasMac = rw (parse_mac_addr-mac_string 10 27 (10 ∷ 6 ∷ 212 ∷ 101 ∷ []) (omega arith) refl) refl

abbrev filled : PluginConf
filled = record conf { rp_filter = some (record { enable = some true; value = some (pos 2) }) }

veth_set_up_networks-Shifted_example :
    (t' : Trace) × (set_up_networks plain_env json filled args
        (codes "net1")
        false
        pair
        families
        ((10 ∷ 6 ∷ 0 ∷ 9 ∷ []) ∷ [])
        (pod_addr ∷ [])
        (record { ns = host; trace = [] })
      ≡ (ok tt, record { ns = host; trace = t' }))
    × ((q : Route)
        → Holds AtFirst t' q ↔ Shifted (pos 2) (pos 100) (default_route ∷ []) (AtFirst q) q)
unfolding get_rule_number atoi
veth_set_up_networks-Shifted_example =
    veth_set_up_networks-Shifted plain_env json filled args (codes "net1") pair eth0
      (λ family. default_route ∷ []) families ((10 ∷ 6 ∷ 0 ∷ 9 ∷ []) ∷ []) (pod_addr ∷ [])
      (negsuc 0) (record { enable = some true; value = some (pos 2) }) AtFirst []
      plain_env-AnswersAll plain_env-OnVeths pair-HasMac refl refl refl (refl, (refl, tt))
      (plain_env-IsWilling _) not_main (λ h. cc) (λ family. (inl refl, tt))
