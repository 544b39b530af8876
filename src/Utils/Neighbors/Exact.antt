-- ===== src/Utils/Neighbors/Exact.antt =====
-- Which neighbours `AddStaticNeighTable` adds, where the kernel accepts them.
use cni_plugins.Base.{◌≡◌, refl, false, some, List, [], ◌∷◌, is_empty}
use cni_plugins.Base.Text.{Text}
use cni_plugins.Base.Int.{ℤ, is_negative}
use cni_plugins.Net.{Bytes, Ip, Addr, Link, Neigh}
use cni_plugins.Net.Mac.{mac_string, parse_mac_addr}
use cni_plugins.World.{
  Trace, Netns, host, pod, Call, Env, good, ok, returned, forgive, os_is_exist,
  netlink_link_by_name, netlink_link_by_index, netlink_neigh_add, enter_netns, choose, ◌>>=◌,
}
use cni_plugins.World.Runs.{Runs, after, gather, for_each-Runs, call-Runs, do_netns-Runs}
use cni_plugins.Utils.Neighbors.{
  static_neigh, neighbor_add, add_static_neighbors, add_static_neigh_table,
}
use cni_plugins.Utils.Neighbors.RoundTrip.{
  IsEthernet, parse_mac_addr-IsEthernet, neighbor_add-mac_string,
}

-- A neighbour is added, or is there already.
abbrev pub AcceptsNeighbors : Env → Type 0
AcceptsNeighbors env =
    (t : Trace) (n : Netns) (neigh : Neigh)
    → forgive os_is_exist (returned (env.answer t n (netlink_neigh_add neigh))) ≡ ok tt

-- The link is looked up for each neighbour, which is permanent (128) and has its address of the kind
-- for neighbours (2).
abbrev pub neigh_calls : Text → ℤ → Bytes → Ip → List Call
neigh_calls name index hw ip =
    netlink_link_by_name name
    ∷ netlink_neigh_add
        (record { link_index = index; state = 128; kind = 2; ip = ip; hardware_addr = hw })
    ∷ []

nonempty_mac : (s : Text) (hw : Bytes) → parse_mac_addr s ≡ some hw → is_empty s ≡ false
unfolding parse_mac_addr
nonempty_mac [] hw h = absurd (cc)
nonempty_mac (c ∷ s) hw h = refl

module _ (env : Env) (accepts : AcceptsNeighbors env) where
  neighbor_add-Runs :
      (name : Text) (link : Link) (hw : Bytes) (n : Netns)
      → ((t : Trace) → env.answer t n (netlink_link_by_name name) ≡ good link)
      → IsEthernet hw
      → (ip : Ip)
      → Runs n
          (neighbor_add env name (mac_string hw) ip)
          (neigh_calls name link.index hw ip)
          (ok tt)
  unfolding static_neigh
  neighbor_add-Runs name link hw n links six ip = record {
    run = λ t. neighbor_add-mac_string env name link hw ip n t links (λ t. accepts t n _) six;
  }

  -- Where the pod can be entered, the overlay's link is found in it, its peer on the host is found
  -- by index and by name, both have hardware addresses of six bytes, and the kernel takes
  -- neighbours or says that they exist, AddStaticNeighTable for an interface that is no sriov one
  -- succeeds: it adds in the pod each address of the host with the peer's hardware address over the
  -- overlay's link, and then on the host each chained address with the hardware address of the
  -- overlay's link over the peer, in this order, and apart from finding links makes no other call.
  pub add_static_neigh_table-after :
      (overlay : Text) (link peer : Link) (hosts : List Ip) (ips : List Addr) (t : Trace)
      → ((t : Trace) (n : Netns) → env.answer t n enter_netns ≡ good tt)
      → ((t : Trace) → env.answer t pod (netlink_link_by_name overlay) ≡ good link)
      → is_negative link.parent_index ≡ false
      → ((t : Trace) → env.answer t host (netlink_link_by_index link.parent_index) ≡ good peer)
      → ((t : Trace) → env.answer t host (netlink_link_by_name peer.name) ≡ good peer)
      → IsEthernet link.hardware_addr
      → IsEthernet peer.hardware_addr
      → add_static_neigh_table env false overlay hosts ips (record { ns = host; trace = t }) ≡ (
        ok tt,
        record {
          ns = host;
          trace =
              after host
                (gather
                  (λ (ip : Addr). neigh_calls peer.name peer.index link.hardware_addr ip.ip)
                  ips)
                (after pod (gather (neigh_calls overlay link.index peer.hardware_addr) hosts) (
                  after host (netlink_link_by_index link.parent_index ∷ enter_netns ∷ []) (
                    after pod
                      (netlink_link_by_name overlay ∷ [])
                      (after host (enter_netns ∷ []) t))));
        },
      )
  unfolding add_static_neigh_table add_static_neighbors choose ◌>>=◌
  add_static_neigh_table-after overlay link peer hosts ips t opens links veth peers named six six' =
      rw
        (do_netns-Runs env _ _ _ opens (call-Runs env pod (netlink_link_by_name overlay) link links)
          t)
        (rw (veth, nonempty_mac _ _ (parse_mac_addr-IsEthernet link.hardware_addr six))
          (rw ((call-Runs env host (netlink_link_by_index link.parent_index) peer peers).run _) (
            rw
              (do_netns-Runs env _ _ _ opens
                (for_each-Runs pod hosts _ (neigh_calls overlay link.index peer.hardware_addr)
                  (neighbor_add-Runs overlay link peer.hardware_addr pod links six'))
                _)
              ((for_each-Runs host ips _ _ (λ ip.
                  neighbor_add-Runs peer.name peer link.hardware_addr host named six ip.ip)).run
                _))))
