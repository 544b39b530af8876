-- ===== src/Veth/Success.antt =====
-- The pair, neighbours and routes of the veth plugin, in runs where the outside answers every call
-- and the links are Ethernet links.
pub mod Config
pub mod Command
pub mod First
use cni_plugins.Base.{
  ◌≡◌, refl, sym, ap, Bool, false, true, not, ◌&&◌, Option, some, List, [], ◌∷◌, All, is_some,
  is_empty,
}
use cni_plugins.Base.Text.{Text}
use cni_plugins.Base.Int.{ℤ, is_negative}
use cni_plugins.Net.{Ip, Addr, Link, Neigh}
use cni_plugins.Net.Mac.{mac_string, parse_mac_addr}
use cni_plugins.World.{
  Trace, Netns, host, pod, Env, Attempt, done, failed, try, call, pure, fail, message_folds_to,
  wrap, choose, do_netns, good, netlink_link_by_name, netlink_neigh_list, netlink_neigh_del,
  spider_add_static_neighbor_table, spider_add_route, spider_get_gateway_ip,
}
use cni_plugins.World.Succeeds.{
  Succeeds, Any, IsDone, AnswersAll, All-Any, attempt-Succeeds, pure-Succeeds, >>=-Succeeds,
  wrap-Succeeds, try-Succeeds, choose-Succeeds, or_fail-Succeeds, for_each-Succeeds,
  do_netns-Succeeds, call-Succeeds, done-Succeeds, parse_cidr-Succeeds,
}
use cni_plugins.Config.Laws.{AreSubnets}
use cni_plugins.Utils.Names.{get_rule_number}
use cni_plugins.Utils.Neighbors.RoundTrip.{IsEthernet, parse_mac_addr-IsEthernet}
use cni_plugins.Utils.Sysctl.{check_interface_miss}
use cni_plugins.Plugin.Links.{IsVeth, OnVeths, link_by_name-Succeeds}
use cni_plugins.Plugin.Success.{some_of_is_some}
use cni_plugins.Veth.{rule_table_of}
use cni_plugins.Veth.Pair.{VethPair, existing_pair, setup_veth, default_con_veth}
use cni_plugins.Veth.Setup.{
  clean_neighbors, listed, add_host_neighbors, add_pod_neighbors, setup_neighborhood,
  add_hijack_route, add_pod_routes, add_host_route, final_error, setup_routes,
}

-- The pod's side has a hardware address that is read back.
abbrev pub HasMac : VethPair → Type 0
HasMac pair = is_some (parse_mac_addr pair.container_interface.mac) ≡ true

-- The host's link of the name was found so at some point.
abbrev pub IsFound : Env → Text → Link → Type 0
IsFound env name link = (t : Trace) × (env.answer t host (netlink_link_by_name name) ≡ good link)

-- The second pair is the first one with the hardware address of the host's link of its name.
abbrev pub IsLinked : Env → VethPair → VethPair → Type 0
IsLinked env pair linked =
    (link : Link) × IsFound env pair.host_interface.name link
    × (linked ≡ record pair {
      host_interface = record pair.host_interface { mac = mac_string link.hardware_addr };
    })

module _ {I : Trace → Type 0} (env : Env) (answers : AnswersAll I env) (veths : OnVeths env) where
  pub check_interface_miss-Succeeds :
      (name : Text) → Succeeds I host (λ b. b ≡ false) (check_interface_miss env name)
  unfolding check_interface_miss
  check_interface_miss-Succeeds name =
      >>=-Succeeds host (IsDone IsVeth) (λ b. b ≡ false) _ _
        (try-Succeeds host IsVeth _ (
          do_netns-Succeeds env IsVeth _ answers
            (link_by_name-Succeeds env answers veths pod name)))
        λ link h.
          attempt-Succeeds host IsVeth (λ b. b ≡ false) (λ _. pure false)
            (λ e. choose (message_folds_to "link not found" e) (pure true) (fail e)) link h
            λ l v. pure-Succeeds host (λ b. b ≡ false) false refl

  pub setup_veth-Succeeds :
      (is_first : Bool) (container_id netns_path : Text)
      → is_first ≡ false
      → Succeeds I host HasMac (setup_veth env is_first container_id netns_path)
  unfolding setup_veth existing_pair
  setup_veth-Succeeds is_first container_id netns_path e =
      choose-Succeeds host HasMac _ _ _
        (λ _. do_netns-Succeeds env HasMac _ answers (
          >>=-Succeeds pod IsVeth HasMac _ _
            (link_by_name-Succeeds env answers veths pod default_con_veth)
            λ link v.
              pure-Succeeds pod HasMac _
                (ap is_some (parse_mac_addr-IsEthernet link.hardware_addr v.1))))
        λ f. absurd (let g = ap not e in cc)

  clean_neighbors-Succeeds :
      (neighbors : List Neigh) (con_ips : List Addr)
      → Succeeds I host Any (clean_neighbors env neighbors con_ips)
  unfolding clean_neighbors
  clean_neighbors-Succeeds neighbors con_ips =
      for_each-Succeeds host Any neighbors _ (All-Any neighbors) λ neigh _.
        choose-Succeeds host Any _ _ _
          (λ _.
            >>=-Succeeds host (IsDone Any) Any _ _
              (try-Succeeds host Any _ (done-Succeeds env answers host (netlink_neigh_del neigh)))
              λ _ _. pure-Succeeds host Any tt tt)
          λ _. pure-Succeeds host Any tt tt

  add_host_neighbors-Succeeds :
      (link : Link) (mac : Text) (con_ips : List Addr)
      → is_some (parse_mac_addr mac) ≡ true
      → Succeeds I host Any (add_host_neighbors env link mac con_ips)
  unfolding add_host_neighbors
  add_host_neighbors-Succeeds link mac con_ips h =
      let (hw, e) = some_of_is_some (parse_mac_addr mac) h in
      for_each-Succeeds host Any con_ips _ (All-Any con_ips) λ con_ip _.
        >>=-Succeeds host Any Any _ _ (or_fail-Succeeds host Any _ hw _ e tt)
          λ hw _. done-Succeeds env answers host (spider_add_static_neighbor_table _ _ _)

  add_pod_neighbors-Succeeds :
      (link : Link) (host_ips : List Ip) → Succeeds I host Any (add_pod_neighbors env link host_ips)
  unfolding add_pod_neighbors
  add_pod_neighbors-Succeeds link host_ips = do_netns-Succeeds env Any _ answers (
      >>=-Succeeds pod IsVeth Any _ _
        (wrap-Succeeds pod IsVeth _ _
          (link_by_name-Succeeds env answers veths pod default_con_veth))
        λ pod_link _.
          for_each-Succeeds pod Any host_ips _ (All-Any host_ips)
            λ ip _. done-Succeeds env answers pod (spider_add_static_neighbor_table _ _ _))

  pub setup_neighborhood-Succeeds :
      (is_first : Bool) (pair : VethPair) (host_ips : List Ip) (con_ips : List Addr)
      → HasMac pair
      → Succeeds I host (IsLinked env pair) (setup_neighborhood env is_first pair host_ips con_ips)
  unfolding setup_neighborhood
  setup_neighborhood-Succeeds is_first pair host_ips con_ips h =
      let Q = IsLinked env pair in
      >>=-Succeeds host (IsFound env pair.host_interface.name) Q _ _
        (wrap-Succeeds host (IsFound env pair.host_interface.name) _ _ (
          call-Succeeds env host (netlink_link_by_name pair.host_interface.name)
            (IsFound env pair.host_interface.name) answers λ t link e. (t, e)))
        λ link found.
          >>=-Succeeds host (IsDone Any) Q _ _
            (try-Succeeds host Any _ (done-Succeeds env answers host (netlink_neigh_list _)))
            λ neighbors _. >>=-Succeeds host Any Q _ _ (clean_neighbors-Succeeds _ con_ips) λ _ _.
              >>=-Succeeds host Any Q _ _
                (add_host_neighbors-Succeeds link pair.container_interface.mac con_ips h)
                λ _ _.
                  >>=-Succeeds host Any Q _ _
                    (choose-Succeeds host Any _ _ _ (λ _. pure-Succeeds host Any tt tt)
                      λ _. add_pod_neighbors-Succeeds link host_ips)
                    λ _ _. pure-Succeeds host Q _ (link, found, refl)

  pub rule_table_of-Succeeds :
      (is_first : Bool) (name : Text)
      → (is_first ≡ false → is_negative (get_rule_number name) ≡ false)
      → Succeeds I host Any (rule_table_of is_first name)
  unfolding rule_table_of
  rule_table_of-Succeeds is_first name h =
      choose-Succeeds host Any _ _ _ (λ _. pure-Succeeds host Any _ tt)
        λ e.
          choose-Succeeds host Any _ _ _ (λ f. absurd (let g = h e in cc))
            λ _. pure-Succeeds host Any _ tt

  add_hijack_route-Succeeds :
      (table family : ℤ) (v4_gw v6_gw : Ip) (hijack : Text)
      → is_some (env.parse_cidr hijack) ≡ true
      → Succeeds I pod Any (add_hijack_route env table family v4_gw v6_gw hijack)
  unfolding add_hijack_route
  add_hijack_route-Succeeds table family v4_gw v6_gw hijack h =
      let (p, e) = some_of_is_some (env.parse_cidr hijack) h in
      >>=-Succeeds pod Any Any _ _ (parse_cidr-Succeeds env pod hijack p e) λ p _.
        choose-Succeeds pod Any _ _ _ (λ _. pure-Succeeds pod Any tt tt)
          λ _.
            wrap-Succeeds pod Any _ _
              (done-Succeeds env answers pod (spider_add_route _ _ _ _ _ _ _))

  add_pod_routes-Succeeds :
      (table family : ℤ) (host_ips : List Ip) (v4_gw v6_gw : Ip) (subnets : List Text)
      → AreSubnets env.parse_cidr subnets
      → Succeeds I host Any (add_pod_routes env table family host_ips v4_gw v6_gw subnets)
  unfolding add_pod_routes
  add_pod_routes-Succeeds table family host_ips v4_gw v6_gw subnets h =
      do_netns-Succeeds env Any _ answers (
        >>=-Succeeds pod Any Any _ _
          (for_each-Succeeds pod Any host_ips _ (All-Any host_ips) λ ip _.
            wrap-Succeeds pod Any _ _
              (done-Succeeds env answers pod (spider_add_route _ _ _ _ _ _ _)))
          λ _ _.
            for_each-Succeeds pod (λ s. is_some (env.parse_cidr s) ≡ true) subnets _ h
              λ s e. add_hijack_route-Succeeds table family v4_gw v6_gw s e)

  final_error-Succeeds :
      (in_pod : Attempt (Unit {0})) (con_ips : List Addr)
      → IsDone Any in_pod
      → Succeeds I host Any (final_error env in_pod con_ips)
  unfolding final_error
  final_error-Succeeds (done u) con_ips h = pure-Succeeds host Any tt tt
  final_error-Succeeds (failed e) con_ips h = absurd h

  pub setup_routes-Succeeds :
      (table family : ℤ) (name : Text) (host_ips : List Ip) (con_ips : List Addr)
      (subnets : List Text)
      → AreSubnets env.parse_cidr subnets
      → Succeeds I host Any (setup_routes env table family name host_ips con_ips subnets)
  unfolding setup_routes add_host_route
  setup_routes-Succeeds table family name host_ips con_ips subnets h =
      >>=-Succeeds host Any Any _ _ (done-Succeeds env answers host (spider_get_gateway_ip con_ips))
        λ gateways _.
          >>=-Succeeds host (IsDone Any) Any _ _
            (try-Succeeds host Any _ (add_pod_routes-Succeeds table family host_ips _ _ subnets h))
            λ in_pod d.
              >>=-Succeeds host Any Any _ _
                (for_each-Succeeds host Any con_ips _ (All-Any con_ips) λ con_ip _.
                  wrap-Succeeds host Any _ _
                    (done-Succeeds env answers host (spider_add_route _ _ _ _ _ _ _)))
                λ _ _. final_error-Succeeds in_pod con_ips d
