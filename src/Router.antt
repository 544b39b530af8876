-- ===== src/Router.antt =====
-- plugins/router/router.go: the `router` plugin. JSON and the conversion of the previous result are
-- the parameter `Json`.
pub mod Effect
pub mod Routes
pub mod Boundary
pub mod OnlyMac
pub mod Success
use cni_plugins.Base.{
  ℕ, Bool, true, false, ◌&&◌, not, String, Option, none, some, List, [], ◌∷◌, ◌++◌, if◌then◌else◌,
  is_empty, is_some, from_option,
}
use cni_plugins.Base.Text.{Text, codes}
use cni_plugins.Base.Int.{ℤ, pos, negsuc, is_negative}
use cni_plugins.Net.{Ip, IpNet, Addr}
use cni_plugins.Types.{MigrateRoute, RpFilter, LogOptions, IpConflict}
use cni_plugins.Constant.{router_log_default_file_path}
use cni_plugins.World.{
  M, Env, Error, new, errorf, ◌>>=◌, ◌>>◌, pure, fail, pass, choose, or_fail, deref, wrap, call,
  do_netns, get_ns, print_result, spider_ip_address_by_name,
}
use cni_plugins.Config.{
  validate_overwrite_mac_address, validate_routes, validate_ip_conflict,
  validate_migrate_route_config, validate_rp_filter_config,
}
use cni_plugins.Logging.{init_log_options, set_log_options}
use cni_plugins.Networking.{get_all_host_ip_route_for_pod}
use cni_plugins.Plugin.{
  CmdArgs, PrevResult, IpFamilies, ip_families, lift, first_interface, load_k8s_args,
  check_conflict, get_all_pod_ip,
}
use cni_plugins.Utils.Names.{get_rule_number, get_default_route_interface}
use cni_plugins.Utils.Rules.{hijack_custom_subnet}
use cni_plugins.Utils.Routes.{migrate_route}
use cni_plugins.Utils.Sysctl.{sysctl_rp_filter, enable_ipv6_sysctl}
use cni_plugins.Utils.Neighbors.{add_static_neigh_table}
use cni_plugins.Utils.MacAddress.{overwrite_mac_address}
use Routes.{add_host_ip_route, add_chained_ip_route}

pub record PluginConf : Type 0 where
  pub cni_version : Text
  pub prev_result : Option Text
  pub overlay_hijack_subnet : List Text
  pub service_hijack_subnet : List Text
  pub additional_hijack_subnet : List Text
  pub migrate_route : Option MigrateRoute
  pub default_overlay_interface : Text
  pub host_rule_table : Option ℤ
  pub rp_filter : Option RpFilter
  pub skipped : Bool
  pub sriov : Bool
  pub only_op_mac : Bool
  pub log_options : Option LogOptions
  pub ip_conflict : Option IpConflict
  pub mac_prefix : Text

-- `json.Unmarshal`, `version.ParsePrevResult` and `current.GetResult`; an error is `none`.
pub record Json : Type 0 where
  pub unmarshal : Text → Option PluginConf
  pub parse_prev_result : PluginConf → Option PluginConf
  pub get_result : Text → Option PrevResult

unfoldable pub default_log_path : LogOptions → LogOptions
default_log_path o =
    if is_empty o.log_file_path
    then record o { log_file_path = router_log_default_file_path }
    else o

module _ (env : Env) where
  -- `time.ParseDuration` of the validated interval.
  unfoldable pub check_interval : Option IpConflict → M Unit
  check_interval none = pass
  check_interval (some c) =
      or_fail (env.parse_duration c.interval) (new "invalid interval %s: %v, input like: 1s,1m")
      >> pass

  -- The part of `parseConfig` behind the test of `OnlyOpMac`.
  unfoldable pub complete_config : PluginConf → M PluginConf
  complete_config conf = do
    subnets ←
        lift (validate_routes env.parse_cidr conf.service_hijack_subnet conf.overlay_hijack_subnet)
    check_interval (validate_ip_conflict conf.ip_conflict)
    pure (record conf {
      service_hijack_subnet = subnets.0;
      overlay_hijack_subnet = subnets.1;
      ip_conflict = validate_ip_conflict conf.ip_conflict;
      migrate_route = some (validate_migrate_route_config conf.migrate_route);
      default_overlay_interface =
          if is_empty conf.default_overlay_interface
          then codes "eth0"
          else conf.default_overlay_interface;
      host_rule_table = some (from_option conf.host_rule_table (pos 500));
      rp_filter = some (validate_rp_filter_config conf.rp_filter);
    })

  -- `parseConfig` behind the two parsers.
  unfoldable pub validate_config : PluginConf → M PluginConf
  validate_config conf = do
    lift (validate_overwrite_mac_address conf.mac_prefix)
    let logged = record conf {
      log_options = some (default_log_path (init_log_options conf.log_options));
    }
    choose conf.only_op_mac (pure logged) (complete_config logged)

module _ (env : Env) (json : Json) where
  unfoldable pub parse_config : Text → M PluginConf
  parse_config stdin = do
    raw ← or_fail (json.unmarshal stdin) (new "[router] failed to parse network configuration: %v")
    conf ← or_fail (json.parse_prev_result raw) (new "[router] could not parse prevResult: %v")
    validate_config env conf

  unfoldable pub print_prev_result : PluginConf → M Unit
  print_prev_result conf = call env (print_result conf.prev_result conf.cni_version)

  -- The part of `cmdAdd` that changes the networks: from the neighbours to the kernel parameters.
  unfoldable pub set_up_networks :
      PluginConf → CmdArgs → Text → ℤ → IpFamilies → List Ip → List Addr → M Unit
  set_up_networks conf args pre_interface_name rule_table f host_ips chained_interface_ips = do
    add_static_neigh_table env conf.sriov conf.default_overlay_interface host_ips
        chained_interface_ips
    host_rule_table ← deref conf.host_rule_table
    add_chained_ip_route env conf.sriov host_rule_table conf.default_overlay_interface host_ips
        chained_interface_ips
    wrap (errorf "failed to add route: %v") (
        add_host_ip_route env rule_table f.ipfamily conf.default_overlay_interface host_ips
          conf.sriov)
    default_interface_ips ← wrap (errorf "failed to IPAddressByName for pod %s : %v") (
        call env
          (spider_ip_address_by_name (get_default_route_interface pre_interface_name) f.ipfamily))
    hijack_custom_subnet env conf.service_hijack_subnet conf.overlay_hijack_subnet
        conf.additional_hijack_subnet default_interface_ips rule_table f.enable_ipv4 f.enable_ipv6
    migrate ← deref conf.migrate_route
    migrate_route env (get_default_route_interface pre_interface_name) pre_interface_name
        default_interface_ips migrate rule_table f.enable_ipv4 f.enable_ipv6
    sysctl_rp_filter env conf.rp_filter

  -- The part of `cmdAdd` behind the hardware address.
  unfoldable pub configure : PluginConf → CmdArgs → Text → List Ip → M Unit
  configure conf args pre_interface_name ips = do
    let f = ip_families ips
    all_pod_ip ← get_all_pod_ip env f.ipfamily
    host_ips ←
        wrap (errorf "failed to get IPAddressOnNode: %v")
          (get_all_host_ip_route_for_pod env f.ipfamily all_pod_ip)
    chained_interface_ips ←
        wrap (errorf "failed to IPAddressByName for pod %s : %v")
          (call env (spider_ip_address_by_name args.if_name f.ipfamily))
    choose f.enable_ipv6 (enable_ipv6_sysctl env) pass
    let rule_table = get_rule_number pre_interface_name
    choose (is_negative rule_table)
        (fail (new "failed to get the number of rule table for interface %s"))
        do
          set_up_networks conf args pre_interface_name rule_table f host_ips chained_interface_ips
          print_prev_result conf

  -- The part of `cmdAdd` behind the test of `Skipped`.
  -- The deferred `netns.Close()` is left out: its error is not looked at.
  unfoldable pub add_interface : PluginConf → CmdArgs → M Unit
  add_interface conf args = do
    raw ←
        or_fail conf.prev_result (new "failed to find PrevResult, must be called as chained plugin")
    prev ← or_fail (json.get_result raw) (new "failed to convert prevResult: %v")
    pre_interface_name ← first_interface prev.interfaces
    wrap (errorf "failed to open netns %q: %v") (call env (get_ns args.netns))
    check_conflict env conf.ip_conflict args.if_name prev.ips
    choose (is_empty conf.mac_prefix) (configure conf args pre_interface_name prev.ips) do
      wrap (λ _. new "failed to update mac address, maybe mac_prefix is invalid: %v")
          (overwrite_mac_address env conf.mac_prefix args.if_name)
      choose conf.only_op_mac (print_prev_result conf)
          (configure conf args pre_interface_name prev.ips)

  unfoldable pub cmd_add : CmdArgs → M Unit
  cmd_add args = do
    conf ← parse_config args.stdin_data
    options ← deref conf.log_options
    wrap (errorf "faild to init logger: %v ") (set_log_options env options)
    load_k8s_args env args
    choose conf.skipped (print_prev_result conf) (add_interface conf args)

-- `cmdDel` and `cmdCheck`
unfoldable pub cmd_del : CmdArgs → M Unit
cmd_del args = pass

unfoldable pub cmd_check : CmdArgs → M Unit
cmd_check args = fail (new "not implement it")
