-- ===== src/Veth/Success/Config.antt =====
-- `parseConfig` of the veth plugin on configurations with nothing to reject.
use cni_plugins.Base.{
  ◌≡◌, refl, ◌∙◌, ap, inl, inr, true, false, Bool-cases, Option, none, some, List, [], ◌++◌,
  All-append, is_empty, is_some, map,
}
use cni_plugins.Base.Text.{Text, trim_space}
use cni_plugins.Base.Int.{ℤ}
use cni_plugins.Types.{MigrateRoute, RpFilter, LogOptions, IpConflict}
use cni_plugins.World.{Trace, host, Env}
use cni_plugins.World.Succeeds.{
  Succeeds, Any, pure-Succeeds, >>=-Succeeds, wrap-Succeeds, choose-Succeeds, or_fail-Succeeds,
  deref-Succeeds,
}
use cni_plugins.Config.Laws.{AreSubnets, validate_routes_iff}
use cni_plugins.Logging.{init_log_options, set_log_options}
use cni_plugins.Plugin.{CmdArgs, PrevResult}
use cni_plugins.Plugin.Accepts.{lift-Succeeds, no_prefix-valid, no_conflict}
use cni_plugins.Plugin.Starts.{load_k8s_args-Succeeds, Starts, set_log_options-Succeeds}
use cni_plugins.Veth.{
  PluginConf, Json, default_log_path, check_interval, complete_config, validate_config,
  parse_config, load,
}

-- A configuration that `cmdAdd` carries out in full: the subnets are subnets once trimmed, and
-- neither the hardware address nor conflicts are asked for.
pub record IsConfigured (env : Env) (conf : PluginConf) : Type 0 where
  pub only_op_mac : conf.only_op_mac ≡ false
  pub mac_prefix : conf.mac_prefix ≡ []
  pub ip_conflict : conf.ip_conflict ≡ none
  pub some_service : is_empty conf.service_hijack_subnet ≡ false
  pub some_overlay : is_empty conf.overlay_hijack_subnet ≡ false
  pub service : AreSubnets env.parse_cidr (map trim_space conf.service_hijack_subnet)
  pub overlay : AreSubnets env.parse_cidr (map trim_space conf.overlay_hijack_subnet)
  pub additional : AreSubnets env.parse_cidr conf.additional_hijack_subnet

-- What the commands rely on in the configuration that `parseConfig` returns.
pub record IsParsed (env : Env) (given conf : PluginConf) : Type 0 where
  pub cni_version : conf.cni_version ≡ given.cni_version
  pub prev_result : conf.prev_result ≡ given.prev_result
  pub skipped : conf.skipped ≡ given.skipped
  pub mac_prefix : conf.mac_prefix ≡ []
  pub ip_conflict : conf.ip_conflict ≡ none
  pub subnets :
      AreSubnets env.parse_cidr (
        (conf.service_hijack_subnet ++ conf.overlay_hijack_subnet) ++ conf.additional_hijack_subnet)
  pub migrate : (v : MigrateRoute) × (conf.migrate_route ≡ some v)
  pub rp : (v : RpFilter) × (conf.rp_filter ≡ some v)
  pub logging : conf.log_options ≡ some (default_log_path (init_log_options given.log_options))

log_options_lem :
    (o : Option LogOptions)
    → let d = default_log_path (init_log_options o) in
      (size : ℤ) × (age : ℤ) × (count : ℤ) × (d.log_file_max_size ≡ some size)
      × (d.log_file_max_age ≡ some age)
      × (d.log_file_max_count ≡ some count)
unfolding default_log_path init_log_options
log_options_lem none = (_, _, _, refl, refl, refl)
log_options_lem (some o) = elim (Bool-cases (is_empty o.log_file_path)) [
  | inl e ↦ rw e (_, _, _, refl, refl, refl)
  | inr e ↦ rw e (_, _, _, refl, refl, refl)
]

check_interval-Succeeds :
    {I : Trace → Type 0}
    → (env : Env) (o : Option IpConflict) → o ≡ none
    → Succeeds I host Any (check_interval env o)
unfolding check_interval
check_interval-Succeeds env o e = rw e (pure-Succeeds host Any tt tt)

all-subnets :
    (env : Env) (svc ovl more : List Text)
    → AreSubnets env.parse_cidr svc
    → AreSubnets env.parse_cidr ovl
    → AreSubnets env.parse_cidr more
    → AreSubnets env.parse_cidr ((svc ++ ovl) ++ more)
all-subnets env svc ovl more a b c =
    let P = λ (s : Text). is_some (env.parse_cidr s) ≡ true in
    All-append P (svc ++ ovl) more (All-append P svc ovl a b) c

validate_config-Succeeds :
    {I : Trace → Type 0}
    → (env : Env) (conf : PluginConf) → IsConfigured env conf
    → Succeeds I host (IsParsed env conf) (validate_config env conf)
unfolding validate_config complete_config
validate_config-Succeeds env conf h =
    let svc = map trim_space conf.service_hijack_subnet in
    let ovl = map trim_space conf.overlay_hijack_subnet in
    let e =
      (validate_routes_iff env.parse_cidr conf.service_hijack_subnet conf.overlay_hijack_subnet svc
          ovl).1
        (h.some_service, h.some_overlay, h.service, h.overlay, refl, refl) in
    let c = no_conflict conf.ip_conflict h.ip_conflict in
    >>=-Succeeds host Any (IsParsed env conf) _ _
      (lift-Succeeds Any _ tt (no_prefix-valid conf.mac_prefix h.mac_prefix) tt)
      λ _ _. >>=-Succeeds host Any (IsParsed env conf) _ _ (check_interval-Succeeds env _ c) λ _ _.
        choose-Succeeds host (IsParsed env conf) _ _ _ (λ f. absurd (let g = h.only_op_mac in cc))
          λ _.
            >>=-Succeeds host (λ p. p ≡ (svc, ovl)) (IsParsed env conf) _ _
              (lift-Succeeds (λ p. p ≡ (svc, ovl)) _ (svc, ovl) e refl)
              λ subnets f. pure-Succeeds host (IsParsed env conf) _ (record {
                cni_version = refl;
                prev_result = refl;
                skipped = refl;
                mac_prefix = h.mac_prefix;
                ip_conflict = c;
                subnets = rw f (
                    all-subnets env svc ovl conf.additional_hijack_subnet h.service h.overlay
                      h.additional);
                migrate = (_, refl);
                rp = (_, refl);
                logging = refl;
              })

-- What the JSON of a command must hold.
pub record IsChained (env : Env) (json : Json) (stdin : Text) (conf : PluginConf) (raw : Text)
    : Type 0 where
  pub given : PluginConf
  pub prev : PrevResult
  pub unmarshal : json.unmarshal stdin ≡ some given
  pub parse_prev_result : json.parse_prev_result given ≡ some conf
  pub prev_result : conf.prev_result ≡ some raw
  pub get_result : json.get_result raw ≡ some prev
  pub configured : IsConfigured env conf

module _ {I : Trace → Type 0} (env : Env) (json : Json) where
  parse_config-Succeeds :
      (stdin raw : Text) (conf : PluginConf)
      → IsChained env json stdin conf raw
      → Succeeds I host (IsParsed env conf) (parse_config env json stdin)
  unfolding parse_config
  parse_config-Succeeds stdin raw conf h =
      >>=-Succeeds host (λ g. g ≡ h.given) _ _ _
        (or_fail-Succeeds host (λ g. g ≡ h.given) _ h.given _ h.unmarshal refl)
        λ g e.
          >>=-Succeeds host (λ c. c ≡ conf) (IsParsed env conf) _ _
            (or_fail-Succeeds host (λ c. c ≡ conf) _ conf _
              (ap json.parse_prev_result e ∙ h.parse_prev_result) refl)
            λ c f. rw f (validate_config-Succeeds env conf h.configured)

  pub load-Succeeds :
      Starts I env
      → (args : CmdArgs) (raw : Text) (conf : PluginConf)
      → IsChained env json args.stdin_data conf raw
      → Succeeds I host (IsParsed env conf) (load env json args)
  unfolding load
  load-Succeeds starts args raw given h =
      let (size, age, count, e, f, g) = log_options_lem given.log_options in
      let logged = default_log_path (init_log_options given.log_options) in
      let Q = IsParsed env given in
      >>=-Succeeds host Q Q _ _ (parse_config-Succeeds args.stdin_data raw given h) λ conf p.
        >>=-Succeeds host (λ o. o ≡ logged) Q _ _
          (deref-Succeeds host (λ o. o ≡ logged) _ _ p.logging refl)
          λ o k.
            >>=-Succeeds host Any Q _ _
              (wrap-Succeeds host Any _ _ (
                log-Succeeds o logged k
                  (set_log_options-Succeeds env starts logged size age count e f g)))
              λ _ _.
                >>=-Succeeds host Any Q _ _ (load_k8s_args-Succeeds env starts args)
                  λ _ _. pure-Succeeds host Q conf p
    where
      log-Succeeds :
          (o logged : LogOptions)
          → o ≡ logged
          → Succeeds I host Any (set_log_options env logged)
          → Succeeds I host Any (set_log_options env o)
      log-Succeeds o logged k h = rw k h
