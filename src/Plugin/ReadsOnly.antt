-- ===== src/Plugin/ReadsOnly.antt =====
-- The calls that change nothing, and the checks and lists that make no other.
use cni_plugins.Base.{ℕ, zero, suc, Bool, Option, none, some, List, [], ◌∷◌}
use cni_plugins.Base.Text.{Text}
use cni_plugins.Base.Int.{ℤ, pos_part}
use cni_plugins.Net.{Ip, Addr, Bytes}
use cni_plugins.World.{
  Event, Netns, M, Env, Interface, Attempt, done, failed, netlink_link_set_up, netlink_link_del,
  netlink_link_set_hardware_addr, netlink_rule_add, netlink_rule_del, netlink_route_add,
  netlink_route_del, netlink_neigh_add, netlink_neigh_del, sysctl_set, spider_add_route,
  spider_add_static_neighbor_table, setup_veth_with_name, interface_addrs, arp_events, Foreign,
  foreign, new, errorf, fail, choose, pass,
}
use cni_plugins.World.Keeps.{
  Keeps, keeps, >>=-Keeps, pure-Keeps, choose-Keeps, call-Keeps, wrap-Keeps,
}
use cni_plugins.Utils.Addresses.{chained_addrs, chained_interfaces}
use cni_plugins.IpChecking.Arp.{arp_verdict, ip_checking_by_arp}
use cni_plugins.IpChecking.Ndp.{
  Received, reply, retry, broken, Found, found_reply, retry_error, other_error, written,
  send_receive, send_receive_loop, ndp_verdict, ip_checking_by_ndp,
}
use cni_plugins.Networking.{check_target, gateway_ips, get_all_host_ip_route_for_pod}

-- The event is none that changes links, addresses, rules, routes, neighbours or parameters.
abbrev pub ReadsOnly : Event → Type 0
ReadsOnly e = elim e.call [
  | netlink_link_set_up _ ↦ ⊥
  | netlink_link_del _ ↦ ⊥
  | netlink_link_set_hardware_addr _ _ ↦ ⊥
  | netlink_rule_add _ ↦ ⊥
  | netlink_rule_del _ ↦ ⊥
  | netlink_route_add _ ↦ ⊥
  | netlink_route_del _ ↦ ⊥
  | netlink_neigh_add _ ↦ ⊥
  | netlink_neigh_del _ ↦ ⊥
  | sysctl_set _ _ ↦ ⊥
  | spider_add_route _ _ _ _ _ _ _ ↦ ⊥
  | spider_add_static_neighbor_table _ _ _ ↦ ⊥
  | setup_veth_with_name _ _ _ _ ↦ ⊥
  | _ ↦ Unit
]

module _ (env : Env) (n : Netns) where
  chained_addrs-Keeps :
      (a b : Bool) (addrs ips : List Text) → Keeps ReadsOnly n (chained_addrs env a b addrs ips)
  unfolding chained_addrs
  chained_addrs-Keeps a b [] ips = search keeps
  chained_addrs-Keeps a b (addr ∷ addrs) ips =
      >>=-Keeps ReadsOnly n _ _ (search keeps) λ p. chained_addrs-Keeps a b addrs _

  pub chained_interfaces-Keeps :
      (a b : Bool) (iface : Text) (names : List Text)
      → Keeps ReadsOnly n (chained_interfaces env a b iface names)
  unfolding chained_interfaces
  chained_interfaces-Keeps a b iface [] = search keeps
  chained_interfaces-Keeps a b iface (name ∷ names) =
      choose-Keeps ReadsOnly n _ _ _ (chained_interfaces-Keeps a b iface names) (
        >>=-Keeps ReadsOnly n _ _
          (wrap-Keeps ReadsOnly n _ _ (call-Keeps ReadsOnly n env (interface_addrs name) tt))
          λ addrs. chained_addrs-Keeps a b addrs [])

  gateway_ips-Keeps :
      (family : ℤ) (items : List Addr) (ips : List Ip)
      → Keeps ReadsOnly n (gateway_ips env family items ips)
  unfolding gateway_ips
  gateway_ips-Keeps family [] ips = search keeps
  gateway_ips-Keeps family (item ∷ items) ips =
      >>=-Keeps ReadsOnly n _ _ (search keeps) λ g. gateway_ips-Keeps family items _

  pub get_all_host_ip_route_for_pod-Keeps :
      (family : ℤ) (ips : List Addr)
      → Keeps ReadsOnly n (get_all_host_ip_route_for_pod env family ips)
  unfolding get_all_host_ip_route_for_pod
  get_all_host_ip_route_for_pod-Keeps family ips =
      >>=-Keeps ReadsOnly n _ _ (gateway_ips-Keeps family ips [])
        λ l. >>=-Keeps ReadsOnly n _ _ (search keeps) λ a. pure-Keeps ReadsOnly n _

  written-Keeps :
      (r : Attempt (Unit {0})) (k : M Received)
      → Keeps ReadsOnly n k
      → Keeps ReadsOnly n (written r k)
  unfolding written
  written-Keeps (done _) k h = h
  written-Keeps (failed e) k h = search keeps

  send_receive-Keeps :
      (hw : Bytes) (target : Ip) (interval : ℕ)
      → Keeps ReadsOnly n (send_receive env hw target interval)
  unfolding send_receive
  send_receive-Keeps hw target interval =
      >>=-Keeps ReadsOnly n _ _ (search keeps depth 8) λ r. written-Keeps r _ (search keeps)

  send_receive_loop-Keeps :
      (rounds : ℕ) (hw : Bytes) (target : Ip) (interval : ℕ)
      → Keeps ReadsOnly n (send_receive_loop env rounds hw target interval)
  unfolding send_receive_loop
  send_receive_loop-Keeps zero hw target interval = search keeps
  send_receive_loop-Keeps (suc rounds) hw target interval =
      >>=-Keeps ReadsOnly n _ _ (send_receive-Keeps hw target interval) (elim [
        | reply mac ↦ pure-Keeps ReadsOnly n _
        | retry ↦ send_receive_loop-Keeps rounds hw target interval
        | broken e ↦ pure-Keeps ReadsOnly n _
      ])

  ndp_verdict-Keeps : (ifi : Interface) (f : Found) → Keeps ReadsOnly n (ndp_verdict env ifi f)
  unfolding ndp_verdict
  ndp_verdict-Keeps ifi (found_reply mac) = search keeps
  ndp_verdict-Keeps ifi retry_error = search keeps
  ndp_verdict-Keeps ifi (other_error e) = search keeps

  ip_checking_by_ndp-Keeps :
      (ifi : Interface) (target : Ip) (retries : ℤ) (interval : ℕ)
      → Keeps ReadsOnly n (ip_checking_by_ndp env ifi target retries interval)
  unfolding ip_checking_by_ndp
  ip_checking_by_ndp-Keeps ifi target retries interval =
      >>=-Keeps ReadsOnly n _ _ (search keeps) λ _.
        >>=-Keeps ReadsOnly n _ _ (send_receive_loop-Keeps (pos_part retries) _ target interval)
          (ndp_verdict-Keeps ifi)

  arp_outcome-Keeps :
      (o : Option Foreign) (b : Bool)
      → Keeps ReadsOnly n (elim o [
        | some e ↦
            fail {A = Unit} (errorf "failed to checking ip %s if it's conflicting: %v" (foreign e))
        | none ↦
            choose b
              (fail (new "pod's interface %s with an conflicting ip %s, %s is located at %s"))
              pass
      ])
  arp_outcome-Keeps none b = search keeps
  arp_outcome-Keeps (some e) b = search keeps

  ip_checking_by_arp-Keeps :
      (ifi : Interface) (target : Ip) (retries : ℤ) (interval : ℕ)
      → Keeps ReadsOnly n (ip_checking_by_arp env ifi target retries interval)
  unfolding ip_checking_by_arp arp_verdict
  ip_checking_by_arp-Keeps ifi target retries interval =
      >>=-Keeps ReadsOnly n _ _ (search keeps) λ _. >>=-Keeps ReadsOnly n _ _ (search keeps) λ _.
        >>=-Keeps ReadsOnly n _ _ (call-Keeps ReadsOnly n env (arp_events retries interval) tt)
          λ events. arp_outcome-Keeps _ _

  pub check_target-Keeps :
      (ifi : Interface) (retries : ℤ) (interval : ℕ) (o : Option Ip)
      → Keeps ReadsOnly n (check_target env ifi retries interval o)
  unfolding check_target
  check_target-Keeps ifi retries interval none = search keeps
  check_target-Keeps ifi retries interval (some target) =
      choose-Keeps ReadsOnly n _ _ _ (ip_checking_by_arp-Keeps ifi target retries interval)
        (ip_checking_by_ndp-Keeps ifi target retries interval)
