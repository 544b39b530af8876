-- ===== src/Veth/Load.antt =====
-- The configuration of the `veth` plugin: `parseConfig` and the beginning of its commands.
use cni_plugins.Base.{Option, none, some}
use cni_plugins.Types.{IpConflict}
use cni_plugins.World.{host, Env}
use cni_plugins.World.Keeps.{
  Keeps, >>=-Keeps, pure-Keeps, choose-Keeps, wrap-Keeps, or_fail-Keeps, deref-Keeps,
}
use cni_plugins.Plugin.{CmdArgs}
use cni_plugins.Plugin.Quiet.{lift-Keeps, set_log_options-Keeps, load_k8s_args-Keeps}
use cni_plugins.Plugin.ReadsOnly.{ReadsOnly}
use cni_plugins.Veth.{
  PluginConf, Json, check_interval, complete_config, validate_config, parse_config, load,
}

module _ (env : Env) where
  check_interval-Keeps : (c : Option IpConflict) → Keeps ReadsOnly host (check_interval env c)
  unfolding check_interval
  check_interval-Keeps none = pure-Keeps ReadsOnly host tt
  check_interval-Keeps (some c) =
      >>=-Keeps ReadsOnly host _ _ (or_fail-Keeps ReadsOnly host _ _)
        λ _. pure-Keeps ReadsOnly host tt

  validate_config-Keeps : (conf : PluginConf) → Keeps ReadsOnly host (validate_config env conf)
  unfolding validate_config complete_config
  validate_config-Keeps conf = >>=-Keeps ReadsOnly host _ _ (lift-Keeps host _) λ _.
      >>=-Keeps ReadsOnly host _ _ (check_interval-Keeps _) λ _.
        choose-Keeps ReadsOnly host _ _ _ (pure-Keeps ReadsOnly host _)
          (>>=-Keeps ReadsOnly host _ _ (lift-Keeps host _) λ _. pure-Keeps ReadsOnly host _)

  pub load-Keeps : (json : Json) (args : CmdArgs) → Keeps ReadsOnly host (load env json args)
  unfolding load parse_config
  load-Keeps json args =
      >>=-Keeps ReadsOnly host _ _
        (>>=-Keeps ReadsOnly host _ _ (or_fail-Keeps ReadsOnly host _ _) λ raw.
          >>=-Keeps ReadsOnly host _ _ (or_fail-Keeps ReadsOnly host _ _)
            λ conf. validate_config-Keeps conf)
        λ conf. >>=-Keeps ReadsOnly host _ _ (deref-Keeps ReadsOnly host _) λ options.
          >>=-Keeps ReadsOnly host _ _
            (wrap-Keeps ReadsOnly host _ _ (set_log_options-Keeps env host options))
            λ _.
              >>=-Keeps ReadsOnly host _ _ (load_k8s_args-Keeps env host args)
                λ _. pure-Keeps ReadsOnly host conf
