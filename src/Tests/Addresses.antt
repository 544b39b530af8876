-- ===== src/Tests/Addresses.antt =====
-- Addresses, hardware addresses and neighbours of one pod.
use cni_plugins.Base.{◌≡◌, arith, refl, true, false, none, some, [], ◌∷◌, ◌++◌, if◌then◌else◌}
use cni_plugins.Base.Text.{Text, codes, same_text}
use cni_plugins.Base.Int.{pos}
use cni_plugins.Net.{is_multicast, is_link_local_unicast, is_v4}
use cni_plugins.Net.Mac.{mac_string}
use cni_plugins.World.{
  host, pod, ok, Env, net_interfaces, interface_addrs, netlink_link_by_name, netlink_link_by_index,
  netlink_link_set_hardware_addr, enter_netns,
}
use cni_plugins.World.Runs.{after}
use cni_plugins.Utils.Addresses.{is_wanted, get_host_ips}
use cni_plugins.Utils.Addresses.Selected.{get_host_ips-filter}
use cni_plugins.Utils.MacAddress.{overwrite_mac_address}
use cni_plugins.Utils.MacAddress.Overwrite.{overwrite_mac_address-after}
use cni_plugins.Utils.Neighbors.{add_static_neigh_table}
use cni_plugins.Utils.Neighbors.Exact.{neigh_calls, add_static_neigh_table-after}
use cni_plugins.Tests.Fixtures.{kind_env, pod_addr, eth0}

abbrev addr_text : Text
addr_text = codes "10.6.212.101/16"

-- The text of the address is understood.
abbrev reading_env : Env
reading_env = record kind_env {
  parse_cidr = λ s. if same_text s addr_text then some (pod_addr.ip, pod_addr) else none;
  parse_prefix = λ s. if same_text s addr_text then some pod_addr.ip else none;
}

get_host_ips-filter_example :
    get_host_ips reading_env true false (record { ns = host; trace = [] }) ≡ (
      ok (addr_text ∷ addr_text ∷ []),
      record {
        ns = host;
        trace =
            after host
              (net_interfaces
                ∷ interface_addrs (codes "net1")
                ∷ interface_addrs (codes "eth0")
                ∷ [])
              [];
      },
    )
unfolding is_multicast is_link_local_unicast is_v4
get_host_ips-filter_example =
    get_host_ips-filter reading_env true false host (λ name. addr_text ∷ []) (λ t name. refl)
      (codes "lo" ∷ codes "eth0" ∷ codes "net1" ∷ []) [] (λ t. refl)

overwrite_mac_address-after_example :
    overwrite_mac_address reading_env
      (codes "0a:1b")
      (codes "eth0")
      (record { ns = host; trace = [] })
    ≡ (
      ok (codes "0a:1b" ++ (codes ":" ++ mac_string pod_addr.ip)),
      record {
        ns = host;
        trace =
            after pod
              (netlink_link_by_name (codes "eth0")
                ∷ netlink_link_set_hardware_addr eth0 (10 ∷ 27 ∷ 10 ∷ 6 ∷ 212 ∷ 101 ∷ [])
                ∷ [])
              (after host (enter_netns ∷ []) (
                after pod
                  (net_interfaces ∷ interface_addrs (codes "eth0") ∷ [])
                  (after host (enter_netns ∷ []) [])));
      },
    )
unfolding is_wanted is_multicast is_link_local_unicast is_v4
overwrite_mac_address-after_example =
    overwrite_mac_address-after reading_env (codes "eth0") (λ t n. refl)
      (codes "lo" ∷ codes "eth0" ∷ codes "net1" ∷ []) (addr_text ∷ [])
      (((pod_addr.ip, pod_addr), refl), tt) (λ t. refl) refl (λ t. refl) b'0' b'a' b'1' b'b' 10 27
      10 6 212 101 addr_text [] eth0 [] refl refl refl refl (omega arith) (λ h. cc) (λ t. refl)
      (λ t. refl)

add_static_neigh_table-after_example :
    add_static_neigh_table kind_env false
      (codes "eth0")
      ((10 ∷ 6 ∷ 0 ∷ 9 ∷ []) ∷ [])
      (pod_addr ∷ [])
      (record { ns = host; trace = [] })
    ≡ (
      ok tt,
      record {
        ns = host;
        trace = after host (neigh_calls (codes "eth0") (pos 2) eth0.hardware_addr pod_addr.ip) (
            after pod
              (neigh_calls (codes "eth0") (pos 2) eth0.hardware_addr (10 ∷ 6 ∷ 0 ∷ 9 ∷ []))
              (after host (netlink_link_by_index (pos 7) ∷ enter_netns ∷ []) (
                after pod
                  (netlink_link_by_name (codes "eth0") ∷ [])
                  (after host (enter_netns ∷ []) []))));
      },
    )
add_static_neigh_table-after_example =
    add_static_neigh_table-after kind_env (λ t n neigh. refl) (codes "eth0") eth0 eth0
      ((10 ∷ 6 ∷ 0 ∷ 9 ∷ []) ∷ []) (pod_addr ∷ []) [] (λ t n. refl) (λ t. refl) refl (λ t. refl)
      (λ t. refl) (refl, omega arith) (refl, omega arith)
