-- ===== src/Veth/Success/Command.antt =====
-- `cmdAdd` of the veth plugin where veth0 is there already.
use cni_plugins.Base.{◌≡◌, refl, ◌∙◌, ap, Bool, false, some, List, ◌∷◌, is_empty}
use cni_plugins.Base.Text.{Text}
use cni_plugins.Base.Int.{is_negative}
use cni_plugins.Net.{Ip, Addr}
use cni_plugins.World.{Call, Trace, host, ok, Env, get_ns, print_result, spider_ip_address_by_name}
use cni_plugins.World.Succeeds.{
  Any, AnswersAll, Always, Ends, pure-Succeeds, >>=-Succeeds, wrap-Succeeds, choose-Succeeds,
  or_fail-Succeeds, deref-Succeeds, done-Succeeds, >>=-Ends, choose-Ends, call-Ends,
}
use cni_plugins.Utils.Names.{get_rule_number}
use cni_plugins.Plugin.{CmdArgs, PrevResult, IpFamilies}
use cni_plugins.Plugin.Links.{OnVeths}
use cni_plugins.Plugin.Accepts.{HasRule, check_conflict-Succeeds, first_interface-Succeeds}
use cni_plugins.Plugin.Success.{
  get_all_pod_ip-Succeeds, get_all_host_ip_route_for_pod-Succeeds, enable_ipv6_sysctl-Succeeds,
  migrate_route-Succeeds, sysctl_rp_filter-Succeeds,
}
use cni_plugins.Plugin.Starts.{AnswersAll-Starts}
use cni_plugins.Veth.{
  PluginConf, Json, print_prev_result, print_appended, set_up_networks, configure, add_interface,
  cmd_add,
}
use cni_plugins.Veth.Pair.{VethPair, appended_interfaces, default_con_veth}
use cni_plugins.Veth.Success.Config.{IsParsed, IsChained, load-Succeeds}
use cni_plugins.Veth.Success.{
  HasMac, IsLinked, check_interface_miss-Succeeds, setup_veth-Succeeds, setup_neighborhood-Succeeds,
  rule_table_of-Succeeds, setup_routes-Succeeds,
}

module _ {I : Trace → Type 0} (env : Env) (json : Json) (answers : AnswersAll I env)
    (veths : OnVeths env) where
  print_prev_result-Ends :
      (given conf : PluginConf)
      → IsParsed env given conf
      → Ends I host
          (λ c. c ≡ print_result given.prev_result given.cni_version)
          (print_prev_result env json conf)
  unfolding print_prev_result
  print_prev_result-Ends given conf p =
      rw (p.prev_result, p.cni_version)
        (call-Ends host (λ c. c ≡ print_result given.prev_result given.cni_version) env
          (print_result given.prev_result given.cni_version) answers refl)

  -- Of a pair that was there, nothing is appended to the previous result.
  print_appended-Ends :
      (given conf : PluginConf) (is_first : Bool) (pair : VethPair)
      → is_first ≡ false
      → IsParsed env given conf
      → Ends I host
          (λ c. c ≡ print_result given.prev_result given.cni_version)
          (print_appended env json (appended_interfaces is_first pair) conf)
  unfolding appended_interfaces print_appended
  print_appended-Ends given conf is_first pair e p = rw e (print_prev_result-Ends given conf p)

  -- The last call is the one that prints the result, for the pair with the host's hardware address.
  pub set_up_networks-Ends :
      (C : Call → Type 0) (given conf : PluginConf) (args : CmdArgs) (name : Text) (is_first : Bool)
      (pair : VethPair) (f : IpFamilies) (host_ips : List Ip) (current : List Addr)
      → IsParsed env given conf
      → (is_first ≡ false → is_negative (get_rule_number name) ≡ false)
      → HasMac pair
      → ((linked : VethPair)
          → IsLinked env pair linked
          → Ends I host C (print_appended env json (appended_interfaces is_first linked) conf))
      → Ends I host C (set_up_networks env json conf args name is_first pair f host_ips current)
  unfolding set_up_networks
  set_up_networks-Ends C given conf args name is_first pair f host_ips current p n h printed =
      >>=-Ends host C (IsLinked env pair) _ _
        (setup_neighborhood-Succeeds env answers veths is_first pair host_ips current h)
        λ linked l.
          >>=-Ends host C Any _ _ (rule_table_of-Succeeds env answers veths is_first name n)
            λ table _.
              >>=-Ends host C Any _ _
                (setup_routes-Succeeds env answers veths table _ _ host_ips current _ p.subnets)
                λ _ _.
                  >>=-Ends host C Any _ _
                    (choose-Succeeds host Any _ _ _ (λ _. pure-Succeeds host Any tt tt)
                      λ _.
                        >>=-Succeeds host Any Any _ _
                          (deref-Succeeds host Any _ p.migrate.0 p.migrate.1 tt)
                          λ migrate _.
                            migrate_route-Succeeds env answers _ _ current migrate table _ _)
                    λ _ _.
                      >>=-Ends host C Any _ _
                        (sysctl_rp_filter-Succeeds env answers _ p.rp.0 p.rp.1)
                        λ _ _. printed linked l

  configure-Ends :
      (given conf : PluginConf) (args : CmdArgs) (prev : PrevResult)
      → IsParsed env given conf
      → HasRule prev.interfaces
      → Ends I host
          (λ c. c ≡ print_result given.prev_result given.cni_version)
          (configure env json conf args prev)
  unfolding configure
  configure-Ends given conf args prev p n =
      let c = λ (c : Call). c ≡ print_result given.prev_result given.cni_version in
      >>=-Ends host c (λ name. is_negative (get_rule_number name) ≡ false) _ _
        (first_interface-Succeeds prev.interfaces n)
        λ name m.
          >>=-Ends host c (λ b. b ≡ false) _ _
            (wrap-Succeeds host (λ b. b ≡ false) _ _
              (check_interface_miss-Succeeds env answers veths default_con_veth))
            λ is_first e.
              >>=-Ends host c HasMac _ _ (setup_veth-Succeeds env answers veths is_first _ _ e)
                λ pair h. >>=-Ends host c Any _ _ (get_all_pod_ip-Succeeds env answers _) λ all _.
                  >>=-Ends host c Any _ _
                    (wrap-Succeeds host Any _ _
                      (get_all_host_ip_route_for_pod-Succeeds env answers host _ all))
                    λ host_ips _.
                      >>=-Ends host c Any _ _
                        (choose-Succeeds host Any _ _ _
                          (λ _. enable_ipv6_sysctl-Succeeds env answers)
                          λ _. pure-Succeeds host Any tt tt)
                        λ _ _.
                          >>=-Ends host c Any _ _
                            (wrap-Succeeds host Any _ _
                              (done-Succeeds env answers host (spider_ip_address_by_name _ _)))
                            λ current _.
                              set_up_networks-Ends c given conf args name is_first pair _ host_ips
                                current p (λ _. m) h
                                λ linked _. print_appended-Ends given conf is_first linked e p

  add_interface-Ends :
      (given conf : PluginConf) (args : CmdArgs) (raw : Text) (prev : PrevResult)
      → IsParsed env given conf
      → given.prev_result ≡ some raw
      → json.get_result raw ≡ some prev
      → HasRule prev.interfaces
      → Ends I host
          (λ c. c ≡ print_result given.prev_result given.cni_version)
          (add_interface env json conf args)
  unfolding add_interface
  add_interface-Ends given conf args raw prev p r g n =
      let c = λ (c : Call). c ≡ print_result given.prev_result given.cni_version in
      >>=-Ends host c (λ a. a ≡ raw) _ _
        (or_fail-Succeeds host (λ a. a ≡ raw) _ raw _ (p.prev_result ∙ r) refl)
        λ a e.
          >>=-Ends host c (λ b. b ≡ prev) _ _
            (or_fail-Succeeds host (λ b. b ≡ prev) _ prev _ (ap json.get_result e ∙ g) refl)
            λ b f.
              >>=-Ends host c Any _ _
                (wrap-Succeeds host Any _ _ (done-Succeeds env answers host (get_ns _)))
                λ _ _.
                  >>=-Ends host c Any _ _ (rw p.ip_conflict (check_conflict-Succeeds env _ _))
                    λ _ _.
                      choose-Ends host c _ _ _ (λ _. configure-Ends given conf args b p (rw f n))
                        λ k. absurd (let m = ap is_empty p.mac_prefix in cc)

  cmd_add-Ends :
      (args : CmdArgs) (raw : Text) (conf : PluginConf)
      → (h : IsChained env json args.stdin_data conf raw) → HasRule h.prev.interfaces
      → Ends I host
          (λ c. c ≡ print_result conf.prev_result conf.cni_version)
          (cmd_add env json args)
  unfolding cmd_add
  cmd_add-Ends args raw given h n =
      let c = λ (c : Call). c ≡ print_result given.prev_result given.cni_version in
      >>=-Ends host c (IsParsed env given) _ _
        (load-Succeeds env json (AnswersAll-Starts env answers) args raw given h)
        λ conf p.
          choose-Ends host c _ _ _ (λ _. print_prev_result-Ends given conf p)
            λ _. add_interface-Ends given conf args raw h.prev p h.prev_result h.get_result n

-- Where the outside answers every call, so that veth0 is there already, each link that is found has
-- a peer and a hardware address of six bytes, and the configuration is read, has a previous result
-- whose first interface is net<n> with a table, hijacks subnets that are subnets once trimmed,
-- additional ones that are subnets as they stand, and asks for no hardware address and no check of
-- conflicts, the veth plugin's cmdAdd, begun in the host's namespace, succeeds, prints the previous
-- result unchanged as its last call, and ends in the host's namespace.
pub veth_cmd_add-print_result :
    (env : Env) (json : Json) (args : CmdArgs) (conf : PluginConf) (raw : Text) (t : Trace)
    → AnswersAll Always env
    → OnVeths env
    → (h : IsChained env json args.stdin_data conf raw) → HasRule h.prev.interfaces
    → (t' : Trace) × (cmd_add env json args (record { ns = host; trace = t }) ≡ (
      ok tt,
      record {
        ns = host;
        trace = (record { ns = host; call = print_result (some raw) conf.cni_version }) ∷ t';
      },
    ))
veth_cmd_add-print_result env json args conf raw t answers veths h n =
    let (a, t', c, e, q) = (cmd_add-Ends env json answers veths args raw conf h n).run t tt in
    let last = q ∙ ap (λ o. print_result o conf.cni_version) h.prev_result in
    (
      t',
      e
          ∙ ap (λ c. (ok a, record { ns = host; trace = (record { ns = host; call = c }) ∷ t' }))
              last,
    )
