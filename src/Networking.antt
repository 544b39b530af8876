-- ===== src/Networking.antt =====
-- pkg/networking/networking.go: the check for address conflicts, and the host's addresses that the
-- pod has to reach.
pub mod Distinct
pub mod Members
use cni_plugins.Base.{
  ℕ, Bool, true, false, ◌&&◌, ◌||◌, not, Option, none, some, List, [], ◌∷◌, ◌++◌, ◌==◌,
  if◌then◌else◌, length, is_empty, exists, from_option,
}
use cni_plugins.Base.Text.{Text, codes}
use cni_plugins.Base.Int.{ℤ, ◌==ℤ◌}
use cni_plugins.Net.{Ip, Addr, to_4, is_v4, ip_equal, family_all, family_v4, family_v6}
use cni_plugins.Types.{IpConflict}
use cni_plugins.World.{
  M, Env, Interface, new, errorf, ◌>>=◌, ◌>>◌, pure, fail, crash, pass, choose, or_fail, wrap, call,
  do_netns, for_each, interface_by_name, spider_get_gateway_ip, spider_get_all_ip_address,
}
use cni_plugins.IpChecking.Arp.{ip_checking_by_arp}
use cni_plugins.IpChecking.Ndp.{ip_checking_by_ndp}

-- `netip.MustParseAddr(ip.String())`: the text of 4 bytes, or of an IPv4 address in 16 bytes, is
-- that of an IPv4 address; other lengths give no address, and a panic.
abbrev parsed_back : Ip → Option Ip
parsed_back ip = elim (to_4 ip) [
  | some v4 ↦ some v4
  | none ↦ if length ip == 16 then some ip else none
]

-- The gateway of the pod's address that becomes the host's address, nil where there is none.
unfoldable pub gateway_for : ℤ → Ip × Ip → Ip
gateway_for ip_family (v4_gw, v6_gw) =
    if not (is_empty v4_gw) && (ip_family ==ℤ family_v4 || ip_family ==ℤ family_all)
    then v4_gw
    else if not (is_empty v6_gw) && (ip_family ==ℤ family_v6 || ip_family ==ℤ family_all)
    then v6_gw
    else []

-- An address is appended unless an equal one is there.
unfoldable pub append_new : Ip → List Ip → List Ip
append_new t ips = if exists (λ k. ip_equal k t) ips then ips else ips ++ t ∷ []

abbrev pub of_family : ℤ → Ip → Bool
of_family ip_family ip =
    ip_family ==ℤ (if is_v4 ip then family_v4 else family_v6) || ip_family ==ℤ family_all

-- The second loop of `GetAllHostIPRouteForPod`.
unfoldable pub add_node_ips : ℤ → List Addr → List Ip → List Ip
unfolding append_new
add_node_ips ip_family [] ips = ips
add_node_ips ip_family (addr ∷ addrs) ips =
    add_node_ips ip_family addrs (
      if is_empty addr.ip || not (of_family ip_family addr.ip) then ips else append_new addr.ip ips)

abbrev pub default_node_interfaces_to_exclude : List Text
default_node_interfaces_to_exclude =
    codes "docker.*"
    ∷ codes "cbr.*"
    ∷ codes "dummy.*"
    ∷ codes "virbr.*"
    ∷ codes "lxcbr.*"
    ∷ codes "veth.*"
    ∷ codes "^lo$"
    ∷ codes "^cali.*"
    ∷ codes "flannel.*"
    ∷ codes "kube-ipvs.*"
    ∷ codes "cni.*"
    ∷ codes "vx-submariner"
    ∷ codes "cilium*"
    ∷ []

module _ (env : Env) where
  unfoldable pub check_target : Interface → ℤ → ℕ → Option Ip → M Unit
  check_target ifi retry duration none = crash "netip.MustParseAddr"
  check_target ifi retry duration (some target) =
      choose (length target == 4) (ip_checking_by_arp env ifi target retry duration)
        (ip_checking_by_ndp env ifi target retry duration)

  unfoldable pub do_ip_conflict_checking : Text → List Ip → IpConflict → M Unit
  unfolding check_target
  do_ip_conflict_checking iface ips config =
      choose (is_empty ips) (fail (new "interface %s has no any ip configured")) do
        duration ←
            or_fail (env.parse_duration config.interval) (new "failed to parse interval %v: %v")
        do_netns env do
          ifi ←
              wrap (errorf "failed to get interface by name %s: %v")
                (call env (interface_by_name iface))
          for_each ips λ ip. check_target ifi config.retry duration (parsed_back ip)

  -- The first loop of `GetAllHostIPRouteForPod`.
  unfoldable pub gateway_ips : ℤ → List Addr → List Ip → M (List Ip)
  gateway_ips ip_family [] ips = pure ips
  gateway_ips ip_family (item ∷ items) ips = do
    gateways ←
        wrap (errorf "failed to GetGatewayIP for pod ip %+v : %+v ")
          (call env (spider_get_gateway_ip (item ∷ [])))
    gateway_ips ip_family items (append_new (gateway_for ip_family gateways) ips)

  unfoldable pub get_all_host_ip_route_for_pod : ℤ → List Addr → M (List Ip)
  get_all_host_ip_route_for_pod ip_family all_pod_ip = do
    ips ← gateway_ips ip_family all_pod_ip []
    additional ←
        wrap (errorf "failed to get IPAddressOnNode: %v")
          (call env (spider_get_all_ip_address ip_family default_node_interfaces_to_exclude))
    pure (add_node_ips ip_family additional ips)
