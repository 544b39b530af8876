-- ===== src/Veth.antt =====
-- plugins/veth: the `veth` plugin. JSON and the conversion of the previous result are the parameter
-- `Json`.
pub mod Effect
pub mod Pair
pub mod Setup
pub mod Boundary
pub mod Delete
pub mod Load
pub mod Success
use cni_plugins.Base.{
  ℕ, Bool, true, false, ◌&&◌, not, String, Option, none, some, List, [], ◌∷◌, ◌++◌, if◌then◌else◌,
  is_empty, is_some, from_option,
}
use cni_plugins.Base.Text.{Text, codes, same_text}
use cni_plugins.Base.Int.{ℤ, pos, negsuc, is_negative}
use cni_plugins.Net.{Ip, IpNet, Addr, CniInterface, rt_table_main}
use cni_plugins.Types.{MigrateRoute, RpFilter, LogOptions, IpConflict}
use cni_plugins.Constant.{veth_log_default_file_path}
use cni_plugins.World.{
  M, Env, Error, print_result_with, new, errorf, foreign, Attempt, done, failed, try, ◌>>=◌, ◌>>◌,
  pure, fail, pass, choose, or_fail, deref, wrap, call, get_ns, print_result,
  spider_ip_address_by_name, netlink_link_by_name, netlink_link_del,
}
use cni_plugins.Config.{
  validate_overwrite_mac_address, validate_routes, validate_ip_conflict,
  validate_migrate_route_config, validate_rp_filter_config,
}
use cni_plugins.Logging.{init_log_options, set_log_options}
use cni_plugins.Networking.{get_all_host_ip_route_for_pod}
use cni_plugins.Plugin.{
  CmdArgs, PrevResult, IpFamilies, ip_families, lift, first_interface, load_k8s_args,
  check_conflict, get_all_pod_ip,
}
use cni_plugins.Utils.Names.{get_rule_number}
use cni_plugins.Utils.Routes.{migrate_route}
use cni_plugins.Utils.Sysctl.{sysctl_rp_filter, enable_ipv6_sysctl, check_interface_miss}
use cni_plugins.Utils.MacAddress.{overwrite_mac_address}
use mathlib.Core.Option
use Pair.{default_con_veth, get_host_veth_name, VethPair, appended_interfaces, setup_veth}
use Setup.{setup_neighborhood, setup_routes}

pub record PluginConf : Type 0 where
  pub cni_version : Text
  pub prev_result : Option Text
  pub overlay_hijack_subnet : List Text
  pub service_hijack_subnet : List Text
  pub additional_hijack_subnet : List Text
  pub rp_filter : Option RpFilter
  pub skipped : Bool
  pub migrate_route : Option MigrateRoute
  pub log_options : Option LogOptions
  pub ip_conflict : Option IpConflict
  pub mac_prefix : Text
  pub only_op_mac : Bool

-- `json.Unmarshal`, `version.ParsePrevResult` and `current.GetResult`; an error is `none`.
pub record Json : Type 0 where
  pub unmarshal : Text → Option PluginConf
  pub parse_prev_result : PluginConf → Option PluginConf
  pub get_result : Text → Option PrevResult

unfoldable pub default_log_path : LogOptions → LogOptions
default_log_path o =
    if is_empty o.log_file_path then record o { log_file_path = veth_log_default_file_path } else o

module _ (env : Env) where
  -- `time.ParseDuration` of the validated interval.
  unfoldable pub check_interval : Option IpConflict → M Unit
  check_interval none = pass
  check_interval (some c) =
      or_fail (env.parse_duration c.interval) (new "invalid interval %s: %v, input like: 1s or 1m")
      >> pass

  -- The part of `parseConfig` behind the test of `OnlyOpMac`.
  unfoldable pub complete_config : PluginConf → M PluginConf
  complete_config conf = do
    subnets ←
        lift (validate_routes env.parse_cidr conf.service_hijack_subnet conf.overlay_hijack_subnet)
    pure (record conf {
      service_hijack_subnet = subnets.0;
      overlay_hijack_subnet = subnets.1;
      rp_filter = some (validate_rp_filter_config conf.rp_filter);
      migrate_route = some (validate_migrate_route_config conf.migrate_route);
    })

  -- `parseConfig` behind the two parsers.
  unfoldable pub validate_config : PluginConf → M PluginConf
  validate_config conf = do
    lift (validate_overwrite_mac_address conf.mac_prefix)
    check_interval (validate_ip_conflict conf.ip_conflict)
    let logged = record conf {
      ip_conflict = validate_ip_conflict conf.ip_conflict;
      log_options = some (default_log_path (init_log_options conf.log_options));
    }
    choose conf.only_op_mac (pure logged) (complete_config logged)

-- The table of the plugin's routes: the main one for the first interface.
unfoldable pub rule_table_of : Bool → Text → M ℤ
rule_table_of is_first chained_interface = choose is_first (pure rt_table_main) (
    choose (is_negative (get_rule_number chained_interface))
      (fail (new "failed to get the number of rule table for interface %s"))
      (pure (get_rule_number chained_interface)))

unfoldable pub is_link_not_found : Error → Bool
is_link_not_found (foreign f) = f.link_not_found
is_link_not_found _ = false

module _ (env : Env) (json : Json) where
  unfoldable pub parse_config : Text → M PluginConf
  parse_config stdin = do
    raw ← or_fail (json.unmarshal stdin) (new "[veth] failed to parse network configuration: %v")
    conf ← or_fail (json.parse_prev_result raw) (new "[veth] could not parse prevResult: %v")
    validate_config env conf

  unfoldable pub print_prev_result : PluginConf → M Unit
  print_prev_result conf = call env (print_result conf.prev_result conf.cni_version)

  -- What `cmdAdd` prints at its end. The interfaces are appended to the result that
  -- `current.GetResult` gives: that is `conf.PrevResult` itself for the version 1.0.0, and for any
  -- other version a converted copy, while `conf.PrevResult` is printed.
  unfoldable pub print_appended : List CniInterface → PluginConf → M Unit
  print_appended [] conf = print_prev_result conf
  print_appended (i ∷ is) conf =
      choose (same_text conf.cni_version (codes "1.0.0"))
        (call env (print_result_with conf.prev_result (i ∷ is) conf.cni_version))
        (print_prev_result conf)

  -- The part of `cmdAdd` from the neighbours on, with the hardware address that setting these up
  -- finds for the host's end.
  unfoldable pub set_up_networks :
      PluginConf → CmdArgs → Text → Bool → VethPair → IpFamilies → List Ip → List Addr → M Unit
  set_up_networks conf args chained_interface is_first pair f host_ips current_ips = do
    linked ← setup_neighborhood env is_first pair host_ips current_ips
    rule_table ← rule_table_of is_first chained_interface
    setup_routes env rule_table f.ipfamily linked.host_interface.name host_ips current_ips (
        (conf.service_hijack_subnet ++ conf.overlay_hijack_subnet) ++ conf.additional_hijack_subnet)
    choose is_first pass do
      migrate ← deref conf.migrate_route
      migrate_route env chained_interface chained_interface current_ips migrate rule_table
          f.enable_ipv4 f.enable_ipv6
    sysctl_rp_filter env conf.rp_filter
    print_appended (appended_interfaces is_first linked) conf

  -- The part of `cmdAdd` behind the hardware address.
  unfoldable pub configure : PluginConf → CmdArgs → PrevResult → M Unit
  configure conf args prev = do
    let f = ip_families prev.ips
    chained_interface ← first_interface prev.interfaces
    is_first ←
        wrap (errorf "failed to check first veth interface: %v")
          (check_interface_miss env default_con_veth)
    pair ← setup_veth env is_first args.container_id args.netns
    all_pod_ip ← get_all_pod_ip env f.ipfamily
    host_ips ←
        wrap (errorf "failed to get IPAddressOnNode: %v")
          (get_all_host_ip_route_for_pod env f.ipfamily all_pod_ip)
    choose f.enable_ipv6 (enable_ipv6_sysctl env) pass
    current_ips ←
        wrap (errorf "failed to IPAddressByName for pod %s : %v")
          (call env (spider_ip_address_by_name args.if_name f.ipfamily))
    set_up_networks conf args chained_interface is_first pair f host_ips current_ips

  -- The part of `cmdAdd` behind the test of `Skipped`.
  -- The deferred `netns.Close()` is left out: its error is not looked at.
  unfoldable pub add_interface : PluginConf → CmdArgs → M Unit
  add_interface conf args = do
    raw ←
        or_fail conf.prev_result (new "failed to find PrevResult, must be called as chained plugin")
    prev ← or_fail (json.get_result raw) (new "failed to convert prevResult: %v")
    wrap (errorf "failed to open netns %q: %v") (call env (get_ns args.netns))
    check_conflict env conf.ip_conflict args.if_name prev.ips
    choose (is_empty conf.mac_prefix) (configure conf args prev) do
      wrap (λ _. new "failed to update mac address, maybe mac_prefix is invalid: %v")
          (overwrite_mac_address env conf.mac_prefix args.if_name)
      choose conf.only_op_mac (print_prev_result conf) (configure conf args prev)

  -- The beginning of `cmdAdd` and of `cmdDel`.
  unfoldable pub load : CmdArgs → M PluginConf
  load args = do
    conf ← parse_config args.stdin_data
    options ← deref conf.log_options
    wrap (errorf "faild to init logger: %v ") (set_log_options env options)
    load_k8s_args env args
    pure conf

  unfoldable pub cmd_add : CmdArgs → M Unit
  cmd_add args = do
    conf ← load args
    choose conf.skipped (print_prev_result conf) (add_interface conf args)

  -- The part of `cmdDel` behind the configuration.
  unfoldable pub delete_host_veth : CmdArgs → M Unit
  delete_host_veth args = do
    found ← try (call env (netlink_link_by_name (get_host_veth_name args.container_id)))
    elim found [
      | done link ↦ wrap (errorf "failed to del hostVeth %s: %w") (call env (netlink_link_del link))
      | failed e ↦
          choose (is_link_not_found e) pass
            (fail (errorf "failed to get host veth device %s: %w" e))
    ]

  unfoldable pub cmd_del : CmdArgs → M Unit
  cmd_del args = do load args; delete_host_veth args

unfoldable pub cmd_check : CmdArgs → M Unit
cmd_check args = fail (new "not implement it")
