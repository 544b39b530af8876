-- ===== src/Router/Success/Config.antt =====
-- `parseConfig` of the router plugin on configurations with nothing to reject.
use cni_plugins.Base.{◌≡◌, refl, inl, inr, false, Bool-cases, Option, none, some, [], is_empty, map}
use cni_plugins.Base.Text.{Text, trim_space}
use cni_plugins.Base.Int.{ℤ}
use cni_plugins.Types.{MigrateRoute, RpFilter, LogOptions, IpConflict}
use cni_plugins.World.{Trace, host, Env}
use cni_plugins.World.Succeeds.{Succeeds, Any, pure-Succeeds, >>=-Succeeds, choose-Succeeds}
use cni_plugins.Config.Laws.{AreSubnets, validate_routes_iff}
use cni_plugins.Logging.{init_log_options}
use cni_plugins.Plugin.{PrevResult}
use cni_plugins.Plugin.Accepts.{HasRule, lift-Succeeds, no_prefix-valid, no_conflict}
use cni_plugins.Router.{
  PluginConf, Json, default_log_path, check_interval, complete_config, validate_config,
}

-- A configuration that `cmdAdd` carries out in full: the subnets are subnets once trimmed, and
-- neither the hardware address nor conflicts are asked for.
pub record IsConfigured (env : Env) (conf : PluginConf) : Type 0 where
  pub only_op_mac : conf.only_op_mac ≡ false
  pub mac_prefix : conf.mac_prefix ≡ []
  pub ip_conflict : conf.ip_conflict ≡ none
  pub some_service : is_empty conf.service_hijack_subnet ≡ false
  pub some_overlay : is_empty conf.overlay_hijack_subnet ≡ false
  pub service : AreSubnets env.parse_cidr (map trim_space conf.service_hijack_subnet)
  pub overlay : AreSubnets env.parse_cidr (map trim_space conf.overlay_hijack_subnet)
  pub additional : AreSubnets env.parse_cidr conf.additional_hijack_subnet

-- What the commands rely on in the configuration that `parseConfig` returns.
pub record IsParsed (env : Env) (given conf : PluginConf) : Type 0 where
  pub cni_version : conf.cni_version ≡ given.cni_version
  pub prev_result : conf.prev_result ≡ given.prev_result
  pub mac_prefix : conf.mac_prefix ≡ []
  pub ip_conflict : conf.ip_conflict ≡ none
  pub service : AreSubnets env.parse_cidr conf.service_hijack_subnet
  pub overlay : AreSubnets env.parse_cidr conf.overlay_hijack_subnet
  pub additional : AreSubnets env.parse_cidr conf.additional_hijack_subnet
  pub table : (v : ℤ) × (conf.host_rule_table ≡ some v)
  pub migrate : (v : MigrateRoute) × (conf.migrate_route ≡ some v)
  pub rp : (v : RpFilter) × (conf.rp_filter ≡ some v)
  pub logging : conf.log_options ≡ some (default_log_path (init_log_options given.log_options))

pub log_options_lem :
    (o : Option LogOptions)
    → let d = default_log_path (init_log_options o) in
      (size : ℤ) × (age : ℤ) × (count : ℤ) × (d.log_file_max_size ≡ some size)
      × (d.log_file_max_age ≡ some age)
      × (d.log_file_max_count ≡ some count)
unfolding default_log_path init_log_options
log_options_lem none = (_, _, _, refl, refl, refl)
log_options_lem (some o) = elim (Bool-cases (is_empty o.log_file_path)) [
  | inl e ↦ rw e (_, _, _, refl, refl, refl)
  | inr e ↦ rw e (_, _, _, refl, refl, refl)
]

check_interval-Succeeds :
    {I : Trace → Type 0}
    → (env : Env) (o : Option IpConflict) → o ≡ none
    → Succeeds I host Any (check_interval env o)
unfolding check_interval
check_interval-Succeeds env o e = rw e (pure-Succeeds host Any tt tt)

pub validate_config-Succeeds :
    {I : Trace → Type 0}
    → (env : Env) (conf : PluginConf) → IsConfigured env conf
    → Succeeds I host (IsParsed env conf) (validate_config env conf)
unfolding validate_config complete_config
validate_config-Succeeds env conf h =
    let svc = map trim_space conf.service_hijack_subnet in
    let ovl = map trim_space conf.overlay_hijack_subnet in
    let e =
      (validate_routes_iff env.parse_cidr conf.service_hijack_subnet conf.overlay_hijack_subnet svc
          ovl).1
        (h.some_service, h.some_overlay, h.service, h.overlay, refl, refl) in
    >>=-Succeeds host Any (IsParsed env conf) _ _
      (lift-Succeeds Any _ tt (no_prefix-valid conf.mac_prefix h.mac_prefix) tt)
      λ _ _.
        choose-Succeeds host (IsParsed env conf) _ _ _ (λ f. absurd (let g = h.only_op_mac in cc))
          λ _.
            >>=-Succeeds host (λ p. p ≡ (svc, ovl)) (IsParsed env conf) _ _
              (lift-Succeeds (λ p. p ≡ (svc, ovl)) _ (svc, ovl) e refl)
              λ subnets f.
                >>=-Succeeds host Any (IsParsed env conf) _ _
                  (check_interval-Succeeds env _ (no_conflict conf.ip_conflict h.ip_conflict))
                  λ _ _. pure-Succeeds host (IsParsed env conf) _ (record {
                    cni_version = refl;
                    prev_result = refl;
                    mac_prefix = h.mac_prefix;
                    ip_conflict = no_conflict conf.ip_conflict h.ip_conflict;
                    service = rw f h.service;
                    overlay = rw f h.overlay;
                    additional = h.additional;
                    table = (_, refl);
                    migrate = (_, refl);
                    rp = (_, refl);
                    logging = refl;
                  })

-- What the JSON of a command must hold.
pub record IsChained (env : Env) (json : Json) (stdin : Text) (conf : PluginConf) (raw : Text)
    : Type 0 where
  pub given : PluginConf
  pub prev : PrevResult
  pub unmarshal : json.unmarshal stdin ≡ some given
  pub parse_prev_result : json.parse_prev_result given ≡ some conf
  pub prev_result : conf.prev_result ≡ some raw
  pub get_result : json.get_result raw ≡ some prev
  pub has_rule : HasRule prev.interfaces
  pub configured : IsConfigured env conf
