-- ===== src/Veth/Setup/Neighborhood.antt =====
-- Which neighbours `setupNeighborhood` deletes and adds, where the kernel accepts them.
use cni_plugins.Base.{
  ◌≡◌, refl, Bool, true, false, not, some, List, [], ◌∷◌, ◌++◌, exists, if◌then◌else◌, Bool-cases,
  inl, inr,
}
use cni_plugins.Base.Text.{Text}
use cni_plugins.Base.Int.{ℤ}
use cni_plugins.Net.{Bytes, Ip, Addr, Link, Neigh, ip_equal, family_all}
use cni_plugins.Net.Mac.{mac_string, parse_mac_addr}
use cni_plugins.World.{
  pure, World, continue_with, caught, returned, Trace, Netns, host, pod, Call, Env, good, bad,
  Answer, ok, enter_netns, netlink_link_by_name, netlink_neigh_list, netlink_neigh_del,
  spider_add_static_neighbor_table, call, wrap, choose, try, or_fail, ◌>>=◌, ◌>>◌, pure, pass,
}
use cni_plugins.World.Runs.{
  Runs, after, after-append, gather, pure-Runs, >>=-Runs, wrap-Runs, for_each-Runs, do_netns-Runs,
  call-Runs,
}
use cni_plugins.Veth.Pair.{VethPair, default_con_veth}
use cni_plugins.Veth.Setup.{
  clean_neighbors, listed, add_host_neighbors, add_pod_neighbors, setup_neighborhood,
}

-- The helper for neighbours takes every one.
abbrev pub AddsNeighbors : Env → Type 0
AddsNeighbors env =
    (t : Trace) (n : Netns) (index : ℤ) (ip : Ip) (hw : Bytes)
    → env.answer t n (spider_add_static_neighbor_table index ip hw) ≡ good tt

abbrev pub stale_call : List Addr → Neigh → List Call
stale_call ips neigh =
    if exists (λ (addr : Addr). ip_equal neigh.ip addr.ip) ips
    then netlink_neigh_del neigh ∷ []
    else []

tried-pass :
    (r : Answer (Unit {0})) (w : World)
    → continue_with (λ _. pass) (caught (returned r)) w ≡ (ok tt, w)
unfolding pure
tried-pass (good a) w = refl
tried-pass (bad f) w = refl

module _ (index : ℤ) where
  abbrev pub neighbor_call : Bytes → Ip → List Call
  neighbor_call hw ip = spider_add_static_neighbor_table index ip hw ∷ []

-- The pod's part is for a new pair only.
abbrev pub first_after : Bool → List Call → Trace → Trace
first_after true cs t = after pod cs (after host (enter_netns ∷ []) t)
first_after false cs t = t

module _ (env : Env) where
  -- Whatever the deletion answers.
  try_del-Runs :
      (neigh : Neigh)
      → Runs host
          (try (call env (netlink_neigh_del neigh)) >> pass)
          (netlink_neigh_del neigh ∷ [])
          (ok tt)
  unfolding try call ◌>>=◌
  try_del-Runs neigh = record {
    run = λ t. tried-pass (env.answer t host (netlink_neigh_del neigh)) _;
  }

  clean_neighbors-Runs :
      (neighbors : List Neigh) (ips : List Addr)
      → Runs host (clean_neighbors env neighbors ips) (gather (stale_call ips) neighbors) (ok tt)
  unfolding clean_neighbors choose
  clean_neighbors-Runs neighbors ips = for_each-Runs host neighbors _ (stale_call ips) λ neigh.
      elim (Bool-cases (exists (λ (addr : Addr). ip_equal neigh.ip addr.ip) ips)) [
        | inl e ↦ rw (e, stale_call) (try_del-Runs neigh)
        | inr e ↦ rw (e, stale_call) (pure-Runs host tt)
      ]

  module _ (adds : AddsNeighbors env) where
    add_neighbor-Runs :
        (n : Netns) (index : ℤ) (hw : Bytes) (ip : Ip)
        → Runs n
            (call env (spider_add_static_neighbor_table index ip hw))
            (neighbor_call index hw ip)
            (ok tt)
    add_neighbor-Runs n index hw ip =
        call-Runs env n (spider_add_static_neighbor_table index ip hw) tt
          (λ t. adds t n index ip hw)

    add_host_neighbors-Runs :
        (link : Link) (text : Text) (hw : Bytes) (ips : List Addr)
        → parse_mac_addr text ≡ some hw
        → Runs host
            (add_host_neighbors env link text ips)
            (gather (λ (ip : Addr). neighbor_call link.index hw ip.ip) ips)
            (ok tt)
    unfolding add_host_neighbors or_fail pure
    add_host_neighbors-Runs link text hw ips e =
        for_each-Runs host ips _ (λ ip. neighbor_call link.index hw ip.ip)
          (λ ip. rw e (
            >>=-Runs host _ _ [] _ hw (ok tt) (pure-Runs host hw)
              (add_neighbor-Runs host link.index hw ip.ip)))

    add_pod_neighbors-after :
        (link pod_link : Link) (ips : List Ip) (t : Trace)
        → ((t : Trace) (n : Netns) → env.answer t n enter_netns ≡ good tt)
        → ((t : Trace) → env.answer t pod (netlink_link_by_name default_con_veth) ≡ good pod_link)
        → add_pod_neighbors env link ips (record { ns = host; trace = t }) ≡ (
          ok tt,
          record {
            ns = host;
            trace =
                first_after true
                  (netlink_link_by_name default_con_veth
                    ∷ gather (neighbor_call pod_link.index link.hardware_addr) ips)
                  t;
          },
        )
    unfolding add_pod_neighbors
    add_pod_neighbors-after link pod_link ips t opens links =
        do_netns-Runs env _ _ _ opens
          (>>=-Runs pod _ _ (netlink_link_by_name default_con_veth ∷ []) _ pod_link (ok tt)
            (wrap-Runs pod _ _ _ (ok pod_link)
              (call-Runs env pod (netlink_link_by_name default_con_veth) pod_link links))
            (for_each-Runs pod ips _ _
              (λ ip. add_neighbor-Runs pod pod_link.index link.hardware_addr ip)))
          t

    pod_part-after :
        (is_first : Bool) (link pod_link : Link) (ips : List Ip) (t : Trace)
        → ((t : Trace) (n : Netns) → env.answer t n enter_netns ≡ good tt)
        → ((t : Trace) → env.answer t pod (netlink_link_by_name default_con_veth) ≡ good pod_link)
        → choose
            (not is_first)
            pass
            (add_pod_neighbors env link ips)
            (record { ns = host; trace = t })
          ≡ (
            ok tt,
            record {
              ns = host;
              trace =
                  first_after is_first
                    (netlink_link_by_name default_con_veth
                      ∷ gather (neighbor_call pod_link.index link.hardware_addr) ips)
                    t;
            },
          )
    unfolding choose pure
    pod_part-after true link pod_link ips t opens links =
        add_pod_neighbors-after link pod_link ips t opens links
    pod_part-after false link pod_link ips t opens links = refl

    -- Where the pod can be entered, the links and the neighbours are found, the pod's hardware
    -- address can be read and neighbours are taken, setupNeighborhood succeeds and gives the host's
    -- end of the pair the hardware address of the host's link: whatever their deletion answers, it
    -- deletes on the host the neighbours with an address of the pod, then adds one over the host's
    -- link with that hardware address for each address of the pod, and for a new pair it then adds
    -- in the pod one over veth0 with the hardware address of the host's link for each address of
    -- the host, in this order and nothing else.
    pub setup_neighborhood-after :
        (is_first : Bool) (pair : VethPair) (link pod_link : Link) (neighbors : List Neigh)
        (hw : Bytes) (hosts : List Ip) (ips : List Addr) (t : Trace)
        → ((t : Trace) (n : Netns) → env.answer t n enter_netns ≡ good tt)
        → ((t : Trace)
            → env.answer t host (netlink_link_by_name pair.host_interface.name) ≡ good link)
        → ((t : Trace) → env.answer t host (netlink_neigh_list family_all) ≡ good neighbors)
        → ((t : Trace) → env.answer t pod (netlink_link_by_name default_con_veth) ≡ good pod_link)
        → parse_mac_addr pair.container_interface.mac ≡ some hw
        → setup_neighborhood env is_first pair hosts ips (record { ns = host; trace = t }) ≡ (
          ok (record pair {
            host_interface = record pair.host_interface { mac = mac_string link.hardware_addr };
          }),
          record {
            ns = host;
            trace =
                first_after is_first
                  (netlink_link_by_name default_con_veth
                    ∷ gather (neighbor_call pod_link.index link.hardware_addr) hosts)
                  (after host
                    (netlink_link_by_name pair.host_interface.name
                      ∷ netlink_neigh_list family_all
                      ∷ (gather (stale_call ips) neighbors
                          ++ gather (λ (ip : Addr). neighbor_call link.index hw ip.ip) ips))
                    t);
          },
        )
    unfolding setup_neighborhood wrap try call listed pure ◌>>=◌
    setup_neighborhood-after is_first pair link pod_link neighbors hw hosts ips t opens links lists
          pod_links e =
        rw (links t) (
          rw (lists _) (
            rw ((clean_neighbors-Runs neighbors ips).run _) (
              rw ((add_host_neighbors-Runs link pair.container_interface.mac hw ips e).run _) (
                rw (after-append host (gather (stale_call ips) neighbors))
                  (rw (pod_part-after is_first link pod_link hosts _ opens pod_links) refl)))))
