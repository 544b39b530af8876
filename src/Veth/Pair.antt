-- ===== src/Veth/Pair.antt =====
-- `setupVeth`, `setLinkup`, `getHostVethName` and `filterIPs` of plugins/veth.
use cni_plugins.Base.{
  ℕ, zero, suc, ◌≤◌, ◌≡◌, refl, ap, sym, ◌∙◌, inl, inr, Bool-cases, arith, Bool, true, ◌&&◌, not,
  List, [], ◌∷◌, ◌++◌, if◌then◌else◌, ltb, length, take,
}
use cni_plugins.Base.Text.{Text, codes}
use cni_plugins.Net.{Ip, CniInterface, is_v4}
use cni_plugins.Net.Mac.{mac_string}
use cni_plugins.World.{
  M, Env, errorf, ◌>>=◌, ◌>>◌, pure, choose, wrap, call, do_netns, netlink_link_by_name,
  netlink_link_set_up, netlink_link_set_hardware_addr, generate_rand_mac, setup_veth_with_name,
}

abbrev pub default_con_veth : Text
default_con_veth = codes "veth0"

abbrev pub default_mtu : ℕ
default_mtu = 1500

unfoldable pub min : ℕ → ℕ
min len = if ltb 11 len then 11 else len

-- "veth" and the first 11 bytes of the container's id.
unfoldable pub get_host_veth_name : Text → Text
unfolding min
get_host_veth_name container_id = codes "veth" ++ take (min (length container_id)) container_id

length-take : (n : ℕ) (s : Text) → length (take n s) ≤ n
length-take zero s = omega arith
length-take (suc n) [] = omega arith
length-take (suc n) (c ∷ s) = omega (arith, length-take n s)

take-all : (n : ℕ) (s : Text) → length s ≤ n → take n s ≡ s
take-all zero [] h = refl
take-all zero (c ∷ s) h = absurd (omega arith)
take-all (suc n) [] h = refl
take-all (suc n) (c ∷ s) h = ap (λ t. c ∷ t) (take-all n s (omega arith))

take-min : (s : Text) → take (min (length s)) s ≡ take 11 s
unfolding min
take-min s = elim (Bool-cases (ltb 11 (length s))) [
  | inl e ↦ rw e refl
  | inr e ↦
      let short : length s ≤ 11 = ground arith in
      rw e (take-all (length s) s (omega arith) ∙ sym (take-all 11 s short))
]

-- The host's interface is named by "veth" and the first 11 bytes of the container's id, and the
-- name has 15 bytes at most.
pub get_host_veth_name_lem :
    (container_id : Text)
    → (get_host_veth_name container_id ≡ codes "veth" ++ take 11 container_id)
      × (length (get_host_veth_name container_id) ≤ 15)
unfolding get_host_veth_name
get_host_veth_name_lem container_id =
    let e = take-min container_id in
    let k = length-take 11 container_id in (rw e refl, rw e (omega (arith, k)))

-- The first address of each family is appended.
unfoldable pub filter_ips : Ip → Text → Bool → Bool → List Text → Bool × Bool × List Text
filter_ips net_ip text ipv4 ipv6 via_ips =
    if is_v4 net_ip && not ipv4
    then (true, ipv6, via_ips ++ text ∷ [])
    else if not (is_v4 net_ip) && not ipv6
    then (ipv4, true, via_ips ++ text ∷ [])
    else (ipv4, ipv6, via_ips)

-- The two interfaces that `setupVeth` returns.
pub record VethPair : Type 0 where
  pub host_interface : CniInterface
  pub container_interface : CniInterface

-- The interfaces that are appended to the previous result: those of a new pair. They are pointers,
-- so that a hardware address that is set later is theirs too: the pair is the one at the end.
unfoldable pub appended_interfaces : Bool → VethPair → List CniInterface
appended_interfaces is_first pair =
    if is_first then pair.host_interface ∷ pair.container_interface ∷ [] else []

module _ (env : Env) where
  unfoldable pub set_linkup : Text → M Unit
  set_linkup iface = do
    link ← call env (netlink_link_by_name iface)
    wrap (errorf "failed to set %q UP: %v") (call env (netlink_link_set_up link))

  -- The pod's side where veth0 is there.
  unfoldable pub existing_pair : Text → M VethPair
  existing_pair host_name = do_netns env do
    link ← call env (netlink_link_by_name default_con_veth)
    pure (record {
      host_interface = record { name = host_name; mac = []; sandbox = [] };
      container_interface = record {
        name = default_con_veth;
        mac = mac_string link.hardware_addr;
        sandbox = [];
      };
    })

  -- The pod's side of a new pair.
  unfoldable pub new_pair : Text → Text → M VethPair
  new_pair host_name netns_path = do_netns env do
    pod_mac ← wrap (errorf "unable to generate podVeth mac addr: %s") (call env generate_rand_mac)
    pair ←
        wrap (errorf "[veth] failed to set veth peer: %v")
          (call env (setup_veth_with_name default_con_veth host_name default_mtu pod_mac))
    wrap (errorf "[veth] failed to set %s up: %v") (set_linkup pair.1.name)
    pure (record {
      host_interface = record { name = pair.0.name; mac = []; sandbox = [] };
      container_interface = record {
        name = pair.1.name;
        mac = mac_string pair.1.hardware_addr;
        sandbox = netns_path;
      };
    })

  -- The host's side of a new pair gets a hardware address of its own.
  unfoldable pub set_host_mac : VethPair → M VethPair
  set_host_mac pair = do
    host_mac ← wrap (errorf "unable to generate hostVeth mac addr: %s") (call env generate_rand_mac)
    link ← call env (netlink_link_by_name pair.host_interface.name)
    wrap (errorf "failed to set host veth mac: %v")
        (call env (netlink_link_set_hardware_addr link host_mac))
    pure (record pair { host_interface = record pair.host_interface { mac = mac_string host_mac } })

  unfoldable pub setup_veth : Bool → Text → Text → M VethPair
  setup_veth is_first container_id netns_path =
      choose (not is_first) (existing_pair (get_host_veth_name container_id))
        do pair ← new_pair (get_host_veth_name container_id) netns_path; set_host_mac pair
