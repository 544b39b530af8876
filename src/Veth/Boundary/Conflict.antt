-- ===== src/Veth/Boundary/Conflict.antt =====
-- The `veth` plugin on an address that is in use elsewhere.
use cni_plugins.Base.{◌≡◌, some}
use cni_plugins.Base.Text.{Text}
use cni_plugins.World.{Env, host, get_ns}
use cni_plugins.World.Keeps.{wrap-Keeps, call-Keeps, Fails}
use cni_plugins.Plugin.{CmdArgs, PrevResult, check_conflict}
use cni_plugins.Plugin.Quiet.{check_conflict-Keeps}
use cni_plugins.Plugin.ReadsOnly.{ReadsOnly}
use cni_plugins.Plugin.Refuses.{Refuses, >>=-Refuses, >>=-Refuses_failed, or_fail-Refuses}
use cni_plugins.Veth.{PluginConf, Json, add_interface}

pub veth_add_interface-Refuses :
    (env : Env) (json : Json) (conf : PluginConf) (args : CmdArgs) (raw : Text) (prev : PrevResult)
    → conf.prev_result ≡ some raw
    → json.get_result raw ≡ some prev
    → Fails (check_conflict env conf.ip_conflict args.if_name prev.ips)
    → Refuses (add_interface env json conf args)
unfolding add_interface
veth_add_interface-Refuses env json conf args raw prev e f fails = or_fail-Refuses _ raw _ _ e (
    or_fail-Refuses _ prev _ _ f (
      >>=-Refuses _ _
        (wrap-Keeps ReadsOnly host _ _ (call-Keeps ReadsOnly host env (get_ns args.netns) tt))
        λ _.
          >>=-Refuses_failed _ _
            (check_conflict-Keeps env host conf.ip_conflict args.if_name prev.ips) fails))
