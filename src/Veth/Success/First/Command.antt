-- ===== src/Veth/Success/First/Command.antt =====
-- The whole of `cmdAdd` where the pair is made on the way.
use cni_plugins.Base.{
  ◌≡◌, refl, ◌∙◌, ap, sym, Bool, true, false, Option, some, ◌++◌, take, if◌then◌else◌, inl, inr,
  Bool-cases, List, [], ◌∷◌, is_empty,
}
use cni_plugins.Base.Text.{Text, codes, same_text}
use cni_plugins.Net.{Link, CniInterface}
use cni_plugins.Net.Mac.{mac_string}
use cni_plugins.World.{
  choose, Trace, host, Call, print_result, print_result_with, spider_ip_address_by_name, Env, ok,
}
use cni_plugins.World.Succeeds.{
  Succeeds, Any, Ends, pure-Succeeds, wrap-Succeeds, choose-Succeeds, or_fail-Succeeds,
  done-Succeeds, >>=-Ends, choose-Ends, call-Ends, Ends-mono,
}
use cni_plugins.Plugin.{CmdArgs, PrevResult, first_interface}
use cni_plugins.Plugin.Links.{OnVeths}
use cni_plugins.Plugin.Accepts.{check_conflict-Succeeds}
use cni_plugins.Plugin.Success.{
  get_all_pod_ip-Succeeds, get_all_host_ip_route_for_pod-Succeeds, enable_ipv6_sysctl-Succeeds,
}
use cni_plugins.Veth.{
  PluginConf, Json, print_prev_result, print_appended, configure, add_interface, cmd_add,
}
use cni_plugins.Veth.Pair.{
  VethPair, appended_interfaces, get_host_veth_name, get_host_veth_name_lem,
}
use cni_plugins.Veth.Success.{IsFound, IsLinked}
use cni_plugins.Veth.Success.Config.{IsParsed, IsChained, load-Succeeds}
use cni_plugins.Veth.Success.Command.{set_up_networks-Ends}
use cni_plugins.Veth.Success.First.{
  WasMade, IsMade, pod_side, Made, Unmade, MakesVeth, Made-AnswersAll, Unmade-Starts,
  check_interface_miss-Succeeds_first, setup_veth-Passes,
}

-- The first interface has a name.
abbrev pub HasName : List Text → Type 0
HasName [] = ⊥
HasName (name ∷ names) = is_empty name ≡ false

first_interface-Succeeds_named :
    {I : Trace → Type 0} (names : List Text)
    → HasName names
    → Succeeds I host Any (first_interface names)
unfolding first_interface
first_interface-Succeeds_named [] h = absurd h
first_interface-Succeeds_named (name ∷ names) h =
    choose-Succeeds host Any _ _ _ (λ e. absurd (cc)) λ _. pure-Succeeds host Any name tt

-- The host's side of the printed pair: its link's name, with the hardware address of the link.
abbrev pub host_side : Text → Link → CniInterface
host_side name link = record { name = name; mac = mac_string link.hardware_addr; sandbox = [] }

-- The previous result with the two ends appended for the version 1.0.0, and unchanged for others.
abbrev pub print_call : Option Text → Text → List CniInterface → Call
print_call prev_result version interfaces =
    if same_text version (codes "1.0.0")
    then print_result_with prev_result interfaces version
    else print_result prev_result version

-- The two ends are those of a pair that was made, and the host's link was found by its name.
abbrev PrintsPair : Env → CmdArgs → PluginConf → Call → Type 0
PrintsPair env args given c =
    (made : Link × Link) × WasMade env (get_host_veth_name args.container_id) made
    × (link : Link) × IsFound env made.0.name link
    × (c
        ≡ print_call given.prev_result given.cni_version
            (host_side made.0.name link ∷ pod_side args.netns made ∷ []))

module _ (env : Env) (json : Json) (makes_veth : MakesVeth env) (veths : OnVeths env) where
  print_pair-Ends :
      (given conf : PluginConf) (interfaces : List CniInterface) (is_first : Bool)
      (linked : VethPair)
      → is_first ≡ true
      → (linked.host_interface ∷ linked.container_interface ∷ []) ≡ interfaces
      → IsParsed env given conf
      → Ends Made host
          (λ c. c ≡ print_call given.prev_result given.cni_version interfaces)
          (print_appended env json (appended_interfaces is_first linked) conf)
  unfolding appended_interfaces print_appended print_prev_result choose
  print_pair-Ends given conf interfaces is_first linked e same p =
      let answers = Made-AnswersAll env makes_veth in
      rw e (
        rw (p.prev_result, p.cni_version, ← same)
          (elim (Bool-cases (same_text given.cni_version (codes "1.0.0"))) [
            | inl v ↦ rw v (
                call-Ends host (λ c. c ≡ print_result_with given.prev_result _ given.cni_version)
                  env _ answers refl)
            | inr v ↦ rw v (
                call-Ends host (λ c. c ≡ print_result given.prev_result given.cni_version) env _
                  answers refl)
          ]))

  print_appended-Ends_first :
      (given conf : PluginConf) (args : CmdArgs) (is_first : Bool) (pair linked : VethPair)
      → is_first ≡ true
      → IsMade env (get_host_veth_name args.container_id) args.netns pair
      → IsLinked env pair linked
      → IsParsed env given conf
      → Ends Made host
          (PrintsPair env args given)
          (print_appended env json (appended_interfaces is_first linked) conf)
  print_appended-Ends_first given conf args is_first pair linked e m (link, found, l) p =
      let sides : (linked.host_interface ∷ linked.container_interface ∷ [])
          ≡ host_side m.made.0.name link ∷ pod_side args.netns m.made ∷ [] =
        rw l (rw (m.name, m.sandbox, m.container) refl) in
      Ends-mono host _ _ _ (λ c same. (m.made, m.was_made, link, rw m.name at found, same))
        (print_pair-Ends given conf _ is_first linked e sides p)

  configure-Ends_first :
      (given conf : PluginConf) (args : CmdArgs) (prev : PrevResult)
      → IsParsed env given conf
      → HasName prev.interfaces
      → Ends Unmade host (PrintsPair env args given) (configure env json conf args prev)
  unfolding configure
  configure-Ends_first given conf args prev p n =
      let C = PrintsPair env args given in
      let Q = IsMade env (get_host_veth_name args.container_id) args.netns in
      let answers = Made-AnswersAll env makes_veth in
      >>=-Ends host C Any _ _ (first_interface-Succeeds_named prev.interfaces n) λ name _.
        >>=-Ends host C (λ b. b ≡ true) _ _
          (wrap-Succeeds host (λ b. b ≡ true) _ _
            (check_interface_miss-Succeeds_first env makes_veth))
          λ is_first e.
            >>=-Ends host C Q _ _ (setup_veth-Passes env makes_veth veths is_first _ _ e) λ pair h.
              >>=-Ends host C Any _ _ (get_all_pod_ip-Succeeds env answers _) λ all _.
                >>=-Ends host C Any _ _
                  (wrap-Succeeds host Any _ _
                    (get_all_host_ip_route_for_pod-Succeeds env answers host _ all))
                  λ host_ips _.
                    >>=-Ends host C Any _ _
                      (choose-Succeeds host Any _ _ _ (λ _. enable_ipv6_sysctl-Succeeds env answers)
                        λ _. pure-Succeeds host Any tt tt)
                      λ _ _.
                        >>=-Ends host C Any _ _
                          (wrap-Succeeds host Any _ _
                            (done-Succeeds env answers host (spider_ip_address_by_name _ _)))
                          λ current _.
                            set_up_networks-Ends env json answers veths C given conf args name
                              is_first pair _ host_ips current p
                              (λ f. absurd (let g = sym e ∙ f in cc)) h.has_mac
                              λ linked l.
                                print_appended-Ends_first given conf args is_first pair linked e h l
                                  p

  add_interface-Ends_first :
      (given conf : PluginConf) (args : CmdArgs) (raw : Text) (prev : PrevResult)
      → IsParsed env given conf
      → given.prev_result ≡ some raw
      → json.get_result raw ≡ some prev
      → HasName prev.interfaces
      → Ends Unmade host (PrintsPair env args given) (add_interface env json conf args)
  unfolding add_interface
  add_interface-Ends_first given conf args raw prev p r g n =
      let C = PrintsPair env args given in
      >>=-Ends host C (λ a. a ≡ raw) _ _
        (or_fail-Succeeds host (λ a. a ≡ raw) _ raw _ (p.prev_result ∙ r) refl)
        λ a e.
          >>=-Ends host C (λ b. b ≡ prev) _ _
            (or_fail-Succeeds host (λ b. b ≡ prev) _ prev _ (ap json.get_result e ∙ g) refl)
            λ b f.
              >>=-Ends host C Any _ _
                (wrap-Succeeds host Any _ _ ((Unmade-Starts env makes_veth).opens _))
                λ _ _.
                  >>=-Ends host C Any _ _ (rw p.ip_conflict (check_conflict-Succeeds env _ _))
                    λ _ _.
                      choose-Ends host C _ _ _
                        (λ _. configure-Ends_first given conf args b p (rw f n))
                        λ k. absurd (let m = ap is_empty p.mac_prefix in cc)

  cmd_add-Ends_first :
      (args : CmdArgs) (raw : Text) (conf : PluginConf)
      → (h : IsChained env json args.stdin_data conf raw) → HasName h.prev.interfaces
      → conf.skipped ≡ false
      → Ends Unmade host (PrintsPair env args conf) (cmd_add env json args)
  unfolding cmd_add
  cmd_add-Ends_first args raw given h n s =
      let C = PrintsPair env args given in
      >>=-Ends host C (IsParsed env given) _ _
        (load-Succeeds env json (Unmade-Starts env makes_veth) args raw given h)
        λ conf p.
          choose-Ends host C _ _ _ (λ e. absurd (let f = p.skipped ∙ s in cc))
            λ _. add_interface-Ends_first given conf args raw h.prev p h.prev_result h.get_result n

-- Where no pair has been made yet, the pod's veth0 is not found until a pair is made and every
-- other call is answered, and then every call, each link that is found and the pair's end in the
-- pod have hardware addresses of six bytes and the found ones a peer, and the configuration is
-- read, is not skipped, has a previous result whose first interface has a name, hijacks subnets
-- that are subnets once trimmed, additional ones that are subnets as they stand, and asks for no
-- hardware address and no check of conflicts, the veth plugin's cmdAdd, begun in the host's
-- namespace, succeeds, ends there, and its last call prints, for the version 1.0.0, the previous
-- result with two interfaces appended, and for any other version the previous result unchanged. The
-- two are those of a pair that was made in the pod, of veth0 and of veth and the first 11 bytes of
-- the container's id: the host's end, without a sandbox, with the hardware address of a link found
-- on the host by its name, and then the pod's, with its own hardware address and the pod's path as
-- the sandbox.
pub cmd_add-print_result_first :
    (env : Env) (json : Json) (args : CmdArgs) (conf : PluginConf) (raw : Text) (t : Trace)
    → MakesVeth env
    → OnVeths env
    → (h : IsChained env json args.stdin_data conf raw) → HasName h.prev.interfaces
    → conf.skipped ≡ false
    → Unmade t
    → (made : Link × Link) × WasMade env (codes "veth" ++ take 11 args.container_id) made
      × (link : Link) × IsFound env made.0.name link
      × (t' : Trace) × (cmd_add env json args (record { ns = host; trace = t }) ≡ (
        ok tt,
        record {
          ns = host;
          trace =
              (record {
                ns = host;
                call =
                    print_call
                      (some raw)
                      conf.cni_version
                      (host_side made.0.name link ∷ pod_side args.netns made ∷ []);
              })
              ∷ t';
        },
      ))
cmd_add-print_result_first env json args conf raw t makes_veth veths h n s i =
    let (a, t', c, e, r) =
      (cmd_add-Ends_first env json makes_veth veths args raw conf h n s).run t i in
    let (made, was, link, found, q) = r in
    let sides = host_side made.0.name link ∷ pod_side args.netns made ∷ [] in
    let last = q ∙ ap (λ o. print_call o conf.cni_version sides) h.prev_result in
    (
      made,
      rw (get_host_veth_name_lem args.container_id).0 at was,
      link,
      found,
      t',
      e
          ∙ ap (λ c. (ok a, record { ns = host; trace = (record { ns = host; call = c }) ∷ t' }))
              last,
    )
