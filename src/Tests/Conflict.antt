-- ===== src/Tests/Conflict.antt =====
-- Both plugins on an address that another host has.
use cni_plugins.Base.{refl, true, some, [], ◌∷◌, Option}
use cni_plugins.Base.Text.{codes}
use cni_plugins.Base.Int.{pos}
use cni_plugins.Net.Mac.{mac_string}
use cni_plugins.Types.{IpConflict}
use cni_plugins.World.{
  Env, Call, Response, Answer, good, arp_events, packet, choose, ◌>>=◌, or_fail, do_netns, wrap,
  for_each, fail,
}
use cni_plugins.IpChecking.Arp.{ip_checking_by_arp, arp_verdict, arp_run}
use cni_plugins.Networking.{do_ip_conflict_checking}
use cni_plugins.World.Keeps.{Fails}
use cni_plugins.Plugin.{check_conflict}
use cni_plugins.Plugin.Refuses.{Refuses}
use cni_plugins.Router.{PluginConf, add_interface}
use cni_plugins.Router.Boundary.Conflict.{add_interface-Refuses}
use cni_plugins.Tests.Fixtures.{with_answers, default_answer, pod_addr}
use cni_plugins.Tests.Success.{conf, json, args}

abbrev answered : (c : Call) → Answer (Response c)
answered (arp_events _ _) = good (packet true pod_addr.ip (2 ∷ 0 ∷ 0 ∷ 0 ∷ 0 ∷ 7 ∷ []) ∷ [])
answered c = good (default_answer c)

-- Another host answers for the pod's address.
abbrev answered_env : Env
answered_env = with_answers (λ t n c. answered c)

abbrev checked : Option IpConflict
checked = some (record { enabled = true; interval = codes "1s"; retry = pos 3 })

check_conflict-Fails : Fails (check_conflict answered_env checked (codes "net2") (pod_addr.ip ∷ []))
unfolding check_conflict choose do_ip_conflict_checking ◌>>=◌ or_fail do_netns wrap for_each
    ip_checking_by_arp arp_verdict arp_run mac_string fail
check_conflict-Fails w = tt

abbrev checking : PluginConf
checking = record conf { ip_conflict = checked }

add_interface-Refuses_example : Refuses (add_interface answered_env json checking args)
add_interface-Refuses_example =
    add_interface-Refuses answered_env json checking args (codes "{}")
      (record { interfaces = codes "net2" ∷ []; ips = pod_addr.ip ∷ [] }) refl refl
      check_conflict-Fails
