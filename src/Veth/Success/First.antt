-- ===== src/Veth/Success/First.antt =====
-- `cmdAdd` of the veth plugin where veth0 is not there yet: the pair is made on the way, and until
-- then veth0 is not found.
pub mod Command
use cni_plugins.Base.{
  arith, ◌≡◌, refl, ◌∙◌, ap, sym, Bool, true, false, not, ◌||◌, Option, none, some, List, [], ◌∷◌,
  exists, is_empty, is_some,
}
use cni_plugins.Base.Text.{Text, codes, same_text, equal_fold}
use cni_plugins.Base.Int.{ℤ, is_negative}
use cni_plugins.Net.{Ip, Addr, Link, Bytes, CniInterface}
use cni_plugins.Net.Mac.{mac_string, parse_mac_addr}
use cni_plugins.World.{
  Trace, Event, Netns, host, pod, Call, enter_netns, netlink_link_by_name, netlink_link_set_up,
  netlink_link_set_hardware_addr, generate_rand_mac, setup_veth_with_name, print_result, get_ns,
  load_args, init_file_logger, spider_ip_address_by_name, Response, Answer, good, bad, Foreign, M,
  World, Env, ok, pure, choose, wrap, try, call, do_netns, ◌>>=◌, message_folds_to, foreign,
}
use cni_plugins.World.Succeeds.{
  Passes, Succeeds, Any, AnswersAll, Ends, pure-Succeeds, >>=-Succeeds, wrap-Succeeds,
  choose-Succeeds, or_fail-Succeeds, done-Succeeds, >>=-Ends, choose-Ends, call-Ends,
}
use cni_plugins.Utils.Neighbors.RoundTrip.{IsEthernet, parse_mac_addr-IsEthernet}
use cni_plugins.Utils.Sysctl.{check_interface_miss}
use cni_plugins.Plugin.Links.{IsVeth, OnVeths, link_by_name-Succeeds}
use cni_plugins.Plugin.Starts.{Starts}
use cni_plugins.Veth.Pair.{
  VethPair, get_host_veth_name, default_con_veth, default_mtu, set_linkup, new_pair, set_host_mac,
  setup_veth,
}
use cni_plugins.Veth.Success.{HasMac}

abbrev pub makes : Call → Bool
makes (setup_veth_with_name _ _ _ _) = true
makes _ = false

abbrev pub looks_up : Call → Bool
looks_up (netlink_link_by_name name) = same_text name default_con_veth
looks_up _ = false

-- A pair has been made, or none yet.
abbrev pub Made : Trace → Type 0
Made t = exists (λ (e : Event). makes e.call) t ≡ true

abbrev pub Unmade : Trace → Type 0
Unmade t = exists (λ (e : Event). makes e.call) t ≡ false

-- Until a pair is made, the pod has no veth0; all other calls are answered, and then all calls. The
-- pod's side of the pair has a hardware address of six bytes.
pub record MakesVeth (env : Env) : Type 0 where
  pub before :
      (t : Trace) (n : Netns) (c : Call)
      → Unmade t
      → looks_up c ≡ false
      → (a : Response c) × (env.answer t n c ≡ good a)
  pub missing :
      (t : Trace)
      → Unmade t
      → (f : Foreign) × (env.answer t pod (netlink_link_by_name default_con_veth) ≡ bad f)
        × (equal_fold f.message (codes "link not found") ≡ true)
  pub after :
      (t : Trace) (n : Netns) (c : Call) → Made t → (a : Response c) × (env.answer t n c ≡ good a)
  pub pair :
      (t : Trace) (n : Netns) (name peer : Text) (hw : Bytes) (p : Link × Link)
      → env.answer t n (setup_veth_with_name name peer default_mtu hw) ≡ good p
      → IsEthernet p.1.hardware_addr

-- The links are those of a pair made in the pod, of veth0 and the host's name.
abbrev pub WasMade : Env → Text → Link × Link → Type 0
WasMade env host_name made =
    (t : Trace) × (hw : Bytes) × (env.answer t pod
        (setup_veth_with_name default_con_veth host_name default_mtu hw)
      ≡ good made)

-- The pod's side of what is returned for a pair: its link, and where it is.
abbrev pub pod_side : Text → Link × Link → CniInterface
pod_side netns_path made = record {
  name = made.1.name;
  mac = mac_string made.1.hardware_addr;
  sandbox = netns_path;
}

-- What is returned is about the links of a pair that was made.
pub record IsMade (env : Env) (host_name netns_path : Text) (pair : VethPair) : Type 0 where
  pub made : Link × Link
  pub was_made : WasMade env host_name made
  pub name : pair.host_interface.name ≡ made.0.name
  pub sandbox : pair.host_interface.sandbox ≡ []
  pub container : pair.container_interface ≡ pod_side netns_path made
  pub has_mac : HasMac pair

Made-grows : (t : Trace) (e : Event) → Made t → Made (e ∷ t)
Made-grows t e h = ground (arith, h)

module _ (env : Env) (makes_veth : MakesVeth env) where
  pub Made-AnswersAll : AnswersAll Made env
  Made-AnswersAll = record { grows = Made-grows; answers = makes_veth.after }

  -- A call that neither makes a pair nor looks for veth0.
  pub before-Succeeds :
      (n : Netns) (c : Call)
      → makes c ≡ false
      → looks_up c ≡ false
      → Succeeds Unmade n Any (call env c)
  unfolding call
  before-Succeeds n c e f = record {
    run = λ t i.
        let (a, g) = makes_veth.before t n c i f in
        (a, (record { ns = n; call = c }) ∷ t, rw g refl, rw e i, tt);
  }

  pub Unmade-Starts : Starts Unmade env
  Unmade-Starts = record {
    logs = λ level path size age count.
        before-Succeeds host (init_file_logger level path size age count) refl refl;
    loads = λ args. before-Succeeds host (load_args args) refl refl;
    opens = λ path. before-Succeeds host (get_ns path) refl refl;
  }

  pub check_interface_miss-Succeeds_first :
      Succeeds Unmade host (λ b. b ≡ true) (check_interface_miss env default_con_veth)
  unfolding check_interface_miss try do_netns call ◌>>=◌ choose pure
  check_interface_miss-Succeeds_first = record {
    run = λ t i.
        let (u, e) = makes_veth.before t host enter_netns i refl in
        let (f, g, h) = makes_veth.missing ((record { ns = host; call = enter_netns }) ∷ t) i in
        let entered : Event = record { ns = host; call = enter_netns } in
        let looked : Event = record { ns = pod; call = netlink_link_by_name default_con_veth } in
        (true, looked ∷ (entered ∷ t), rw e (rw g (rw h refl)), i, refl);
  }

  set_linkup-Succeeds : OnVeths env → (name : Text) → Succeeds Made pod Any (set_linkup env name)
  unfolding set_linkup
  set_linkup-Succeeds veths name =
      >>=-Succeeds pod IsVeth Any _ _ (link_by_name-Succeeds env Made-AnswersAll veths pod name)
        λ link _.
          wrap-Succeeds pod Any _ _
            (done-Succeeds env Made-AnswersAll pod (netlink_link_set_up link))

  make-Passes :
      (host_name : Text) (hw : Bytes)
      → Passes Unmade Made pod
          (λ p. WasMade env host_name p × IsEthernet p.1.hardware_addr)
          (call env (setup_veth_with_name default_con_veth host_name default_mtu hw))
  unfolding call
  make-Passes host_name hw = record {
    run = λ t i.
        let (p, e) =
          makes_veth.before t pod (setup_veth_with_name default_con_veth host_name default_mtu hw) i
            refl in
        let made : Event = record {
          ns = pod;
          call = setup_veth_with_name default_con_veth host_name default_mtu hw;
        } in
        (
          p,
          made ∷ t,
          rw e refl,
          refl,
          ((t, hw, e), makes_veth.pair t pod default_con_veth host_name hw p e),
        );
  }

  -- The pod is entered before the pair is made, and left behind it.
  do_netns-Passes :
      {A : Type 0} (Q : A → Type 0) (m : M A)
      → Passes Unmade Made pod Q m
      → Passes Unmade Made host Q (do_netns env m)
  unfolding do_netns call
  do_netns-Passes Q m h = record {
    run = λ t i.
        let (a, t', e, j, q) = h.run ((record { ns = host; call = enter_netns }) ∷ t) i in
        let (u, f) = makes_veth.before t host enter_netns i refl in (a, t', rw f (rw e refl), j, q);
  }

  new_pair-Passes :
      OnVeths env
      → (host_name netns_path : Text)
      → Passes Unmade Made host
          (IsMade env host_name netns_path)
          (new_pair env host_name netns_path)
  unfolding new_pair
  new_pair-Passes veths host_name netns_path =
      let Q = IsMade env host_name netns_path in
      let P = λ (p : Link × Link). WasMade env host_name p × IsEthernet p.1.hardware_addr in
      do_netns-Passes Q _ (
        >>=-Succeeds pod Any Q _ _
          (wrap-Succeeds pod Any _ _ (before-Succeeds pod generate_rand_mac refl refl))
          λ hw _.
            >>=-Succeeds pod P Q _ _ (wrap-Succeeds pod P _ _ (make-Passes host_name hw))
              λ p (was, six).
                >>=-Succeeds pod Any Q _ _
                  (wrap-Succeeds pod Any _ _ (set_linkup-Succeeds veths p.1.name))
                  λ _ _. pure-Succeeds pod Q _ (record {
                    made = p;
                    was_made = was;
                    name = refl;
                    sandbox = refl;
                    container = refl;
                    has_mac = ap is_some (parse_mac_addr-IsEthernet p.1.hardware_addr six);
                  }))

  pub setup_veth-Passes :
      OnVeths env
      → (is_first : Bool) (container_id netns_path : Text) → is_first ≡ true
      → Passes Unmade Made host
          (IsMade env (get_host_veth_name container_id) netns_path)
          (setup_veth env is_first container_id netns_path)
  unfolding setup_veth set_host_mac
  setup_veth-Passes veths is_first container_id netns_path e =
      let Q = IsMade env (get_host_veth_name container_id) netns_path in
      choose-Succeeds host Q _ _ _ (λ f. absurd (let g = ap not e in cc))
        λ _. >>=-Succeeds host Q Q _ _ (new_pair-Passes veths _ netns_path) λ pair h.
          >>=-Succeeds host Any Q _ _
            (wrap-Succeeds host Any _ _ (done-Succeeds env Made-AnswersAll host generate_rand_mac))
            λ hw _.
              >>=-Succeeds host IsVeth Q _ _
                (link_by_name-Succeeds env Made-AnswersAll veths host _)
                λ link _.
                  >>=-Succeeds host Any Q _ _
                    (wrap-Succeeds host Any _ _ (
                      done-Succeeds env Made-AnswersAll host
                        (netlink_link_set_hardware_addr link hw)))
                    λ _ _. pure-Succeeds host Q _ (record {
                      made = h.made;
                      was_made = h.was_made;
                      name = h.name;
                      sandbox = h.sandbox;
                      container = h.container;
                      has_mac = h.has_mac;
                    })
