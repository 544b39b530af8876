-- ===== src/Router/Success/Command.antt =====
-- `cmdAdd` of the router plugin, from its configuration to the printed result.
use cni_plugins.Base.{◌≡◌, refl, ◌∙◌, ap, false, some, List, ◌∷◌, is_empty}
use cni_plugins.Base.Text.{Text}
use cni_plugins.Base.Int.{is_negative}
use cni_plugins.Net.{Ip}
use cni_plugins.World.{Call, Trace, host, ok, Env, get_ns, print_result, spider_ip_address_by_name}
use cni_plugins.World.Succeeds.{
  Succeeds, Any, AnswersAll, Always, Ends, pure-Succeeds, >>=-Succeeds, wrap-Succeeds,
  choose-Succeeds, or_fail-Succeeds, deref-Succeeds, done-Succeeds, >>=-Ends, choose-Ends,
  call-Ends,
}
use cni_plugins.Logging.{init_log_options}
use cni_plugins.Utils.Names.{get_rule_number}
use cni_plugins.Plugin.{CmdArgs, PrevResult}
use cni_plugins.Plugin.Success.{
  get_all_pod_ip-Succeeds, get_all_host_ip_route_for_pod-Succeeds, enable_ipv6_sysctl-Succeeds,
}
use cni_plugins.Plugin.Starts.{load_k8s_args-Succeeds, AnswersAll-Starts, set_log_options-Succeeds}
use cni_plugins.Plugin.Links.{OnVeths}
use cni_plugins.Plugin.Accepts.{HasRule, check_conflict-Succeeds, first_interface-Succeeds}
use cni_plugins.Router.{
  PluginConf, Json, default_log_path, parse_config, print_prev_result, configure, add_interface,
  cmd_add,
}
use cni_plugins.Router.Success.Config.{
  IsParsed, IsChained, validate_config-Succeeds, log_options_lem,
}
use cni_plugins.Router.Success.{set_up_networks-Succeeds}

module _ {I : Trace → Type 0} (env : Env) (json : Json) (answers : AnswersAll I env)
    (veths : OnVeths env) where
  print_prev_result-Ends :
      (given conf : PluginConf)
      → IsParsed env given conf
      → Ends I host
          (λ c. c ≡ print_result given.prev_result given.cni_version)
          (print_prev_result env json conf)
  unfolding print_prev_result
  print_prev_result-Ends given conf p =
      rw (p.prev_result, p.cni_version)
        (call-Ends host (λ c. c ≡ print_result given.prev_result given.cni_version) env
          (print_result given.prev_result given.cni_version) answers refl)

  configure-Ends :
      (given conf : PluginConf) (args : CmdArgs) (name : Text) (ips : List Ip)
      → IsParsed env given conf
      → is_negative (get_rule_number name) ≡ false
      → Ends I host
          (λ c. c ≡ print_result given.prev_result given.cni_version)
          (configure env json conf args name ips)
  unfolding configure
  configure-Ends given conf args name ips p n =
      let c = λ (c : Call). c ≡ print_result given.prev_result given.cni_version in
      >>=-Ends host c Any _ _ (get_all_pod_ip-Succeeds env answers _) λ all _.
        >>=-Ends host c Any _ _
          (wrap-Succeeds host Any _ _
            (get_all_host_ip_route_for_pod-Succeeds env answers host _ all))
          λ host_ips _.
            >>=-Ends host c Any _ _
              (wrap-Succeeds host Any _ _
                (done-Succeeds env answers host (spider_ip_address_by_name _ _)))
              λ chained _.
                >>=-Ends host c Any _ _
                  (choose-Succeeds host Any _ _ _ (λ _. enable_ipv6_sysctl-Succeeds env answers)
                    λ _. pure-Succeeds host Any tt tt)
                  λ _ _.
                    choose-Ends host c _ _ _ (λ e. absurd (cc))
                      λ _.
                        >>=-Ends host c Any _ _
                          (set_up_networks-Succeeds env answers veths json conf args name _ _
                            host_ips chained p.table.0 p.migrate.0 p.rp.0 p.table.1 p.migrate.1
                            p.rp.1 p.service p.overlay p.additional)
                          λ _ _. print_prev_result-Ends given conf p

  add_interface-Ends :
      (given conf : PluginConf) (args : CmdArgs) (raw : Text) (prev : PrevResult)
      → IsParsed env given conf
      → given.prev_result ≡ some raw
      → json.get_result raw ≡ some prev
      → HasRule prev.interfaces
      → Ends I host
          (λ c. c ≡ print_result given.prev_result given.cni_version)
          (add_interface env json conf args)
  unfolding add_interface
  add_interface-Ends given conf args raw prev p r g n =
      let c = λ (c : Call). c ≡ print_result given.prev_result given.cni_version in
      >>=-Ends host c (λ a. a ≡ raw) _ _
        (or_fail-Succeeds host (λ a. a ≡ raw) _ raw _ (p.prev_result ∙ r) refl)
        λ a e.
          >>=-Ends host c (λ b. b ≡ prev) _ _
            (or_fail-Succeeds host (λ b. b ≡ prev) _ prev _ (ap json.get_result e ∙ g) refl)
            λ b f.
              >>=-Ends host c (λ name. is_negative (get_rule_number name) ≡ false) _ _
                (first_interface-Succeeds b.interfaces (rw f n))
                λ name h.
                  >>=-Ends host c Any _ _
                    (wrap-Succeeds host Any _ _ (done-Succeeds env answers host (get_ns _)))
                    λ _ _.
                      >>=-Ends host c Any _ _ (rw p.ip_conflict (check_conflict-Succeeds env _ _))
                        λ _ _.
                          choose-Ends host c _ _ _
                            (λ _. configure-Ends given conf args name b.ips p h)
                            λ k. absurd (let m = ap is_empty p.mac_prefix in cc)

  parse_config-Succeeds :
      (stdin raw : Text) (conf : PluginConf)
      → IsChained env json stdin conf raw
      → Succeeds I host (IsParsed env conf) (parse_config env json stdin)
  unfolding parse_config
  parse_config-Succeeds stdin raw conf h =
      >>=-Succeeds host (λ g. g ≡ h.given) _ _ _
        (or_fail-Succeeds host (λ g. g ≡ h.given) _ h.given _ h.unmarshal refl)
        λ g e.
          >>=-Succeeds host (λ c. c ≡ conf) _ _ _
            (or_fail-Succeeds host (λ c. c ≡ conf) _ conf _
              (ap json.parse_prev_result e ∙ h.parse_prev_result) refl)
            λ c f. rw f (validate_config-Succeeds env conf h.configured)

  cmd_add-Ends :
      (args : CmdArgs) (raw : Text) (conf : PluginConf)
      → IsChained env json args.stdin_data conf raw
      → Ends I host
          (λ c. c ≡ print_result conf.prev_result conf.cni_version)
          (cmd_add env json args)
  unfolding cmd_add
  cmd_add-Ends args raw given h =
      let c = λ (c : Call). c ≡ print_result given.prev_result given.cni_version in
      let (size, age, count, e, f, g) = log_options_lem given.log_options in
      >>=-Ends host c (IsParsed env given) _ _ (parse_config-Succeeds args.stdin_data raw given h)
        λ conf p.
          >>=-Ends host c (λ o. o ≡ default_log_path (init_log_options given.log_options)) _ _
            (deref-Succeeds host (λ o. o ≡ default_log_path (init_log_options given.log_options)) _
              _ p.logging refl)
            λ o k.
              >>=-Ends host c Any _ _
                (wrap-Succeeds host Any _ _ (
                  rw k (
                    set_log_options-Succeeds env (AnswersAll-Starts env answers) _ size age count e
                      f g)))
                λ _ _.
                  >>=-Ends host c Any _ _
                    (load_k8s_args-Succeeds env (AnswersAll-Starts env answers) args)
                    λ _ _.
                      choose-Ends host c _ _ _ (λ _. print_prev_result-Ends given conf p)
                        λ _.
                          add_interface-Ends given conf args raw h.prev p h.prev_result h.get_result
                            h.has_rule

-- Where the outside answers every call, each link that is found has a peer and a hardware address
-- of six bytes, and the configuration is read, has a previous result whose first interface is
-- net<n> with a table, hijacks subnets that are subnets once trimmed, additional ones that are
-- subnets as they stand, and asks for no hardware address and no check of conflicts, the router
-- plugin's cmdAdd, begun in the host's namespace, succeeds, prints the previous result as its last
-- call, and ends in the host's namespace.
pub cmd_add-print_result :
    (env : Env) (json : Json) (args : CmdArgs) (conf : PluginConf) (raw : Text) (t : Trace)
    → AnswersAll Always env
    → OnVeths env
    → IsChained env json args.stdin_data conf raw
    → (t' : Trace) × (cmd_add env json args (record { ns = host; trace = t }) ≡ (
      ok tt,
      record {
        ns = host;
        trace = (record { ns = host; call = print_result (some raw) conf.cni_version }) ∷ t';
      },
    ))
cmd_add-print_result env json args conf raw t answers veths h =
    let (a, t', c, e, q) = (cmd_add-Ends env json answers veths args raw conf h).run t tt in
    let last = q ∙ ap (λ o. print_result o conf.cni_version) h.prev_result in
    (
      t',
      e
          ∙ ap (λ c. (ok a, record { ns = host; trace = (record { ns = host; call = c }) ∷ t' }))
              last,
    )
