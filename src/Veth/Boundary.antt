-- ===== src/Veth/Boundary.antt =====
-- A bound for what the `veth` plugin changes, and its parts: the pair, the neighbours, the routes.
pub mod Add
pub mod Conflict
use cni_plugins.Base.{ℕ, ◌≡◌, refl, ◌⊎◌, inl, inr, Bool, Option, none, some, List, [], ◌∷◌}
use cni_plugins.Base.Text.{Text}
use cni_plugins.Base.Int.{ℤ}
use cni_plugins.Net.{Ip, Addr, Link, Neigh, rt_table_main}
use cni_plugins.World.{
  Event, Netns, host, pod, Call, M, Env, Error, call, Attempt, done, failed, netlink_link_set_up,
  netlink_link_del, netlink_link_set_hardware_addr, netlink_rule_add, netlink_rule_del,
  netlink_route_add, netlink_route_del, netlink_neigh_add, netlink_neigh_del, netlink_neigh_list,
  netlink_link_by_name, spider_add_route, spider_add_static_neighbor_table, spider_get_gateway_ip,
  setup_veth_with_name, generate_rand_mac,
}
use cni_plugins.World.Keeps.{
  Keeps, >>=-Keeps, pure-Keeps, fail-Keeps, choose-Keeps, call-Keeps, try-Keeps, wrap-Keeps,
  for_each-Keeps, or_fail-Keeps, parse_cidr-Keeps,
}
use cni_plugins.Plugin.ReadsOnly.{ReadsOnly}
use cni_plugins.Plugin.Boundary.{Permits, read-Keeps, inside-Keeps}
use cni_plugins.Veth.Pair.{
  VethPair, default_con_veth, get_host_veth_name, existing_pair, new_pair, set_linkup, set_host_mac,
  setup_veth,
}
use cni_plugins.Veth.Setup.{
  clean_neighbors, listed, add_host_neighbors, add_pod_neighbors, setup_neighborhood,
  add_hijack_route, add_pod_routes, add_host_route, final_error, setup_routes,
}

-- On the host: routes are added to the main table, and neighbours are deleted. In the pod: one kind
-- of pair is made, "veth0" and the host's name for the container; a link is set up; rules and routes
-- are added, by the helper for routes only over "veth0"; and routes of the main table are deleted. On
-- either side: hardware addresses, neighbours and parameters are set. No link or rule is deleted.
abbrev pub VethMay : Text → Event → Type 0
VethMay container_id e = elim e.call [
  | netlink_link_set_up _ ↦ e.ns ≡ pod
  | netlink_link_del _ ↦ ⊥
  | netlink_rule_add r ↦ e.ns ≡ pod
  | netlink_rule_del _ ↦ ⊥
  | netlink_route_add r ↦ e.ns ≡ pod
  | netlink_route_del r ↦ (e.ns ≡ pod) × (r.table ≡ rt_table_main)
  | netlink_neigh_add _ ↦ ⊥
  | netlink_neigh_del _ ↦ e.ns ≡ host
  | spider_add_route table _ _ name _ _ _ ↦
      ((e.ns ≡ pod) × (name ≡ default_con_veth)) ⊎ ((e.ns ≡ host) × (table ≡ rt_table_main))
  | setup_veth_with_name con_name host_name _ _ ↦
      (e.ns ≡ pod) × (con_name ≡ default_con_veth) × (host_name ≡ get_host_veth_name container_id)
  | _ ↦ Unit
]

module _ (id : Text) where
  reads_may :
      (n : Netns) (c : Call)
      → ReadsOnly (record { ns = n; call = c })
      → VethMay id (record { ns = n; call = c })
  reads_may n (netlink_link_set_up l) h = absurd h
  reads_may n (netlink_link_del l) h = absurd h
  reads_may n (netlink_rule_add r) h = absurd h
  reads_may n (netlink_rule_del r) h = absurd h
  reads_may n (netlink_route_add r) h = absurd h
  reads_may n (netlink_route_del r) h = absurd h
  reads_may n (netlink_neigh_add r) h = absurd h
  reads_may n (netlink_neigh_del r) h = absurd h
  reads_may n (spider_add_route a b c d e f g) h = absurd h
  reads_may n (setup_veth_with_name a b c d) h = absurd h
  reads_may n _ h = tt

  -- The bound permits what both plugins do.
  pub veth_permits : Permits (VethMay id)
  veth_permits = record {
    reads = reads_may;
    sysctl = λ n name value. tt;
    pod_rule = λ r. refl;
    pod_route = λ r. refl;
    pod_route_del = λ r e. (refl, e);
    pod_mac = λ l hw. tt;
  }

  module _ (env : Env) where
    existing_pair-Keeps : (name : Text) → Keeps (VethMay id) host (existing_pair env name)
    unfolding existing_pair
    existing_pair-Keeps name = inside-Keeps (VethMay id) veth_permits env _ (
        >>=-Keeps (VethMay id) pod _ _ (call-Keeps (VethMay id) pod env (netlink_link_by_name _) tt)
          λ link. pure-Keeps (VethMay id) pod _)

    new_pair-Keeps :
        (path : Text) → Keeps (VethMay id) host (new_pair env (get_host_veth_name id) path)
    unfolding new_pair set_linkup
    new_pair-Keeps path = inside-Keeps (VethMay id) veth_permits env _ (
        >>=-Keeps (VethMay id) pod _ _
          (wrap-Keeps (VethMay id) pod _ _ (call-Keeps (VethMay id) pod env generate_rand_mac tt))
          λ mac.
            >>=-Keeps (VethMay id) pod _ _
              (wrap-Keeps (VethMay id) pod _ _ (
                call-Keeps (VethMay id) pod env (setup_veth_with_name _ _ _ mac)
                  (refl, refl, refl)))
              λ pair.
                >>=-Keeps (VethMay id) pod _ _
                  (wrap-Keeps (VethMay id) pod _ _ (
                    >>=-Keeps (VethMay id) pod _ _
                      (call-Keeps (VethMay id) pod env (netlink_link_by_name _) tt)
                      λ link.
                        wrap-Keeps (VethMay id) pod _ _
                          (call-Keeps (VethMay id) pod env (netlink_link_set_up link) refl)))
                  λ _. pure-Keeps (VethMay id) pod _)

    set_host_mac-Keeps : (pair : VethPair) → Keeps (VethMay id) host (set_host_mac env pair)
    unfolding set_host_mac
    set_host_mac-Keeps pair =
        >>=-Keeps (VethMay id) host _ _
          (wrap-Keeps (VethMay id) host _ _ (call-Keeps (VethMay id) host env generate_rand_mac tt))
          λ mac.
            >>=-Keeps (VethMay id) host _ _
              (call-Keeps (VethMay id) host env (netlink_link_by_name _) tt)
              λ link.
                >>=-Keeps (VethMay id) host _ _
                  (wrap-Keeps (VethMay id) host _ _
                    (call-Keeps (VethMay id) host env (netlink_link_set_hardware_addr link mac) tt))
                  λ _. pure-Keeps (VethMay id) host _

    pub setup_veth-Keeps :
        (is_first : Bool) (path : Text) → Keeps (VethMay id) host (setup_veth env is_first id path)
    unfolding setup_veth
    setup_veth-Keeps is_first path =
        choose-Keeps (VethMay id) host _ _ _ (existing_pair-Keeps _)
          (>>=-Keeps (VethMay id) host _ _ (new_pair-Keeps path) set_host_mac-Keeps)

    add_neighbor-Keeps :
        (n : Netns) (index : ℤ) (ip : Ip) (hw : List ℕ)
        → Keeps (VethMay id) n (call env (spider_add_static_neighbor_table index ip hw))
    add_neighbor-Keeps n index ip hw =
        call-Keeps (VethMay id) n env (spider_add_static_neighbor_table index ip hw) tt

    pub setup_neighborhood-Keeps :
        (is_first : Bool) (pair : VethPair) (hosts : List Ip) (ips : List Addr)
        → Keeps (VethMay id) host (setup_neighborhood env is_first pair hosts ips)
    unfolding setup_neighborhood clean_neighbors add_host_neighbors add_pod_neighbors
    setup_neighborhood-Keeps is_first pair hosts ips =
        >>=-Keeps (VethMay id) host _ _
          (wrap-Keeps (VethMay id) host _ _
            (call-Keeps (VethMay id) host env (netlink_link_by_name _) tt))
          λ link.
            >>=-Keeps (VethMay id) host _ _
              (try-Keeps (VethMay id) host _
                (call-Keeps (VethMay id) host env (netlink_neigh_list _) tt))
              λ found.
                >>=-Keeps (VethMay id) host _ _
                  (for_each-Keeps (VethMay id) host _ _ λ neigh.
                    choose-Keeps (VethMay id) host _ _ _
                      (>>=-Keeps (VethMay id) host _ _
                        (try-Keeps (VethMay id) host _
                          (call-Keeps (VethMay id) host env (netlink_neigh_del neigh) refl))
                        λ _. pure-Keeps (VethMay id) host tt)
                      (pure-Keeps (VethMay id) host tt))
                  λ _.
                    >>=-Keeps (VethMay id) host _ _
                      (for_each-Keeps (VethMay id) host ips _ λ ip.
                        >>=-Keeps (VethMay id) host _ _ (or_fail-Keeps (VethMay id) host _ _)
                          λ hw. add_neighbor-Keeps host _ _ hw)
                      λ _.
                        >>=-Keeps (VethMay id) host _ _
                          (choose-Keeps (VethMay id) host _ _ _ (pure-Keeps (VethMay id) host tt) (
                            inside-Keeps (VethMay id) veth_permits env _ (
                              >>=-Keeps (VethMay id) pod _ _
                                (wrap-Keeps (VethMay id) pod _ _
                                  (call-Keeps (VethMay id) pod env (netlink_link_by_name _) tt))
                                λ pod_link.
                                  for_each-Keeps (VethMay id) pod hosts _
                                    λ ip. add_neighbor-Keeps pod _ ip _)))
                          (λ _. pure-Keeps (VethMay id) host _)

    final_error-Keeps :
        (r : Attempt Unit) (ips : List Addr) → Keeps (VethMay id) host (final_error env r ips)
    unfolding final_error
    final_error-Keeps (failed e) [] = fail-Keeps (VethMay id) host e
    final_error-Keeps (failed e) (ip ∷ ips) = pure-Keeps (VethMay id) host tt
    final_error-Keeps (done a) [] = pure-Keeps (VethMay id) host tt
    final_error-Keeps (done a) (ip ∷ ips) = pure-Keeps (VethMay id) host tt

    add_pod_routes-Keeps :
        (table family : ℤ) (hosts : List Ip) (v4 v6 : Ip) (subnets : List Text)
        → Keeps (VethMay id) host (add_pod_routes env table family hosts v4 v6 subnets)
    unfolding add_pod_routes add_hijack_route
    add_pod_routes-Keeps table family hosts v4 v6 subnets =
        inside-Keeps (VethMay id) veth_permits env _ (
          >>=-Keeps (VethMay id) pod _ _
            (for_each-Keeps (VethMay id) pod hosts _ λ ip.
              wrap-Keeps (VethMay id) pod _ _ (
                call-Keeps (VethMay id) pod env (spider_add_route _ _ _ _ _ _ _)
                  (inl (refl, refl))))
            λ _. for_each-Keeps (VethMay id) pod subnets _ λ subnet.
              >>=-Keeps (VethMay id) pod _ _ (parse_cidr-Keeps (VethMay id) pod env subnet) λ p.
                choose-Keeps (VethMay id) pod _ _ _ (pure-Keeps (VethMay id) pod tt) (
                  wrap-Keeps (VethMay id) pod _ _ (
                    call-Keeps (VethMay id) pod env (spider_add_route _ _ _ _ _ _ _)
                      (inl (refl, refl)))))

    pub setup_routes-Keeps :
        (table family : ℤ) (name : Text) (hosts : List Ip) (ips : List Addr) (subnets : List Text)
        → Keeps (VethMay id) host (setup_routes env table family name hosts ips subnets)
    unfolding setup_routes add_host_route
    setup_routes-Keeps table family name hosts ips subnets =
        >>=-Keeps (VethMay id) host _ _
          (call-Keeps (VethMay id) host env (spider_get_gateway_ip ips) tt)
          λ gateways.
            >>=-Keeps (VethMay id) host _ _
              (try-Keeps (VethMay id) host _ (add_pod_routes-Keeps table family hosts _ _ subnets))
              λ r.
                >>=-Keeps (VethMay id) host _ _
                  (for_each-Keeps (VethMay id) host ips _ λ ip. wrap-Keeps (VethMay id) host _ _ (
                    call-Keeps (VethMay id) host env (spider_add_route _ _ _ _ _ _ _)
                      (inr (refl, refl))))
                  λ _. final_error-Keeps r ips
