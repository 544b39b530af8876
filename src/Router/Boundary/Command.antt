-- ===== src/Router/Boundary/Command.antt =====
-- The whole `cmdAdd` of the `router` plugin (plugins/router/router.go), from its configuration on.
use cni_plugins.Base.{◌≡◌, refl, false, Option, none, some, from_option}
use cni_plugins.Base.Text.{Text}
use cni_plugins.Base.Int.{ℤ, pos}
use cni_plugins.Types.{IpConflict}
use cni_plugins.World.{host, World, Env, ◌>>=◌, pure, choose, or_fail}
use cni_plugins.World.Keeps.{
  Keeps, >>=-Keeps, pure-Keeps, choose-Keeps, wrap-Keeps, or_fail-Keeps, deref-Keeps,
}
use cni_plugins.World.Keeps.{WhenOk, >>=-WhenOk, >>=-Keeps_known}
use cni_plugins.Plugin.{CmdArgs}
use cni_plugins.Router.{
  PluginConf, Json, check_interval, complete_config, validate_config, parse_config, cmd_add,
}
use cni_plugins.Router.Boundary.{RouterMay, router_permits}
use cni_plugins.Plugin.Boundary.{quiet-Keeps}
use cni_plugins.Plugin.Quiet.{lift-Keeps, set_log_options-Keeps, load_k8s_args-Keeps}
use cni_plugins.Router.Boundary.Add.{add_interface-Keeps, print_prev_result-Keeps}

module _ (table : ℤ) where
  module _ (env : Env) where
    check_interval-Keeps :
        (c : Option IpConflict) → Keeps (RouterMay table) host (check_interval env c)
    unfolding check_interval
    check_interval-Keeps none = pure-Keeps (RouterMay table) host tt
    check_interval-Keeps (some c) =
        >>=-Keeps (RouterMay table) host _ _ (or_fail-Keeps (RouterMay table) host _ _)
          λ _. pure-Keeps (RouterMay table) host tt

    validate_config-Keeps :
        (conf : PluginConf) → Keeps (RouterMay table) host (validate_config env conf)
    unfolding validate_config complete_config
    validate_config-Keeps conf =
        >>=-Keeps (RouterMay table) host _ _
          (quiet-Keeps (RouterMay table) (router_permits table) host _ (lift-Keeps host _))
          λ _. choose-Keeps (RouterMay table) host _ _ _ (pure-Keeps (RouterMay table) host _) (
            >>=-Keeps (RouterMay table) host _ _
              (quiet-Keeps (RouterMay table) (router_permits table) host _ (lift-Keeps host _))
              λ _.
                >>=-Keeps (RouterMay table) host _ _ (check_interval-Keeps _)
                  λ _. pure-Keeps (RouterMay table) host _)

    parse_config-Keeps :
        (json : Json) (stdin : Text) → Keeps (RouterMay table) host (parse_config env json stdin)
    unfolding parse_config
    parse_config-Keeps json stdin =
        >>=-Keeps (RouterMay table) host _ _ (or_fail-Keeps (RouterMay table) host _ _) λ raw.
          >>=-Keeps (RouterMay table) host _ _ (or_fail-Keeps (RouterMay table) host _ _)
            λ conf. validate_config-Keeps conf

-- A configuration for more than the hardware address has a host table: the given one, or 500.
abbrev HasTable : ℤ → PluginConf → Type 0
HasTable table c = c.host_rule_table ≡ some table

complete_config-HasTable :
    (env : Env) (conf : PluginConf) (w : World)
    → WhenOk (HasTable (from_option conf.host_rule_table (pos 500))) (complete_config env conf w).0
unfolding complete_config pure
complete_config-HasTable env conf w =
    >>=-WhenOk (HasTable (from_option conf.host_rule_table (pos 500))) _ _ w λ subnets v.
      >>=-WhenOk (HasTable (from_option conf.host_rule_table (pos 500))) _ _ v λ _ u. refl

validate_config-HasTable :
    (env : Env) (conf : PluginConf) (w : World)
    → conf.only_op_mac ≡ false
    → WhenOk (HasTable (from_option conf.host_rule_table (pos 500))) (validate_config env conf w).0
unfolding validate_config choose
validate_config-HasTable env conf w e =
    >>=-WhenOk (HasTable (from_option conf.host_rule_table (pos 500))) _ _ w
      λ _ v. rw e (complete_config-HasTable env _ v)

module _ (env : Env) (json : Json) (args : CmdArgs) (raw conf : PluginConf) where
  parse_config-HasTable :
      json.unmarshal args.stdin_data ≡ some raw
      → json.parse_prev_result raw ≡ some conf
      → conf.only_op_mac ≡ false
      → (w : World)
      → WhenOk
          (HasTable (from_option conf.host_rule_table (pos 500)))
          (parse_config env json args.stdin_data w).0
  unfolding parse_config or_fail ◌>>=◌
  parse_config-HasTable p q e w = rw (p, q) (validate_config-HasTable env conf w e)

  -- Where the configuration is read and is not one for the hardware address alone, then, whatever
  -- it says and the outside answers, the router plugin's whole cmdAdd only adds, on the host, rules
  -- of priority 1000 for the given host table, or 500, and routes to it; in the pod, it adds rules
  -- and routes, deletes routes of the main table and sets a hardware address; on either side, it
  -- adds neighbours and sets kernel parameters. No link, rule or neighbour is deleted, no link is
  -- made, and the host's namespace is current at the end, also where it fails.
  pub cmd_add-Keeps :
      json.unmarshal args.stdin_data ≡ some raw
      → json.parse_prev_result raw ≡ some conf
      → conf.only_op_mac ≡ false
      → Keeps (RouterMay (from_option conf.host_rule_table (pos 500))) host (cmd_add env json args)
  unfolding cmd_add
  cmd_add-Keeps p q e =
      let t = from_option conf.host_rule_table (pos 500) in
      >>=-Keeps_known (RouterMay t) host (HasTable t) _ _
        (parse_config-Keeps t env json args.stdin_data) (parse_config-HasTable p q e)
        λ c given. >>=-Keeps (RouterMay t) host _ _ (deref-Keeps (RouterMay t) host _) λ options.
          >>=-Keeps (RouterMay t) host _ _
            (wrap-Keeps (RouterMay t) host _ _ (
              quiet-Keeps (RouterMay t) (router_permits t) host _
                (set_log_options-Keeps env host options)))
            λ _.
              >>=-Keeps (RouterMay t) host _ _
                (quiet-Keeps (RouterMay t) (router_permits t) host _
                  (load_k8s_args-Keeps env host args))
                λ _.
                  choose-Keeps (RouterMay t) host _ _ _
                    (print_prev_result-Keeps t env json c args given)
                    (add_interface-Keeps t env json c args given)
