-- ===== src/World/Calls.antt =====
-- The calls that leave the program, with the types of their results.
use cni_plugins.Base.{ℕ, Bool, String, Option, List}
use cni_plugins.Base.Text.{Text}
use cni_plugins.Base.Int.{ℤ}
use cni_plugins.Net.{Bytes, Ip, IpNet, Addr, Link, Route, Rule, Neigh, CniInterface}

-- An error of an outside call: its message, and what `os.IsExist`, `os.IsNotExist`, a type test
-- for `netlink.LinkNotFoundError` and a `net.Error` timeout find in it.
pub record Foreign : Type 0 where
  pub message : Text
  pub is_exist : Bool
  pub is_not_exist : Bool
  pub link_not_found : Bool
  pub timeout : Bool

-- `new` is an error of the program's own, named by the source's format; `errorf` formats the
-- message of another error into its own, so that only its text is left.
pub data Error : Type 0 where
  foreign : Foreign → Error
  new : String → Error
  errorf : String → Error → Error

-- `net.Interface`
pub record Interface : Type 0 where
  pub name : Text
  pub hardware_addr : Bytes

-- A message that NDP's `ReadFrom` gives: a neighbour advertisement with its target and options, of
-- which `some` is a link-layer address, or any other message.
pub data NdpMessage : Type 0 where
  neighbor_advertisement : Ip → List (Option Bytes) → NdpMessage
  other_message : NdpMessage

-- What befalls the ARP check next: the ticker fires and the packet is sent, with the send's error;
-- the reader's `Read` returns a packet (is it a reply, its sender) or an error; or `Done` is seen.
pub data ArpEvent : Type 0 where
  tick : Option Foreign → ArpEvent
  packet : Bool → Ip → Bytes → ArpEvent
  read_failed : Foreign → ArpEvent
  see_done : ArpEvent

pub data Call : Type 0 where
  enter_netns : Call
  get_ns : Text → Call
  netlink_link_by_name : Text → Call
  netlink_link_by_index : ℤ → Call
  netlink_link_set_up : Link → Call
  netlink_link_del : Link → Call
  netlink_link_set_hardware_addr : Link → Bytes → Call
  netlink_rule_add : Rule → Call
  netlink_rule_del : Rule → Call
  netlink_route_add : Route → Call
  netlink_route_del : Route → Call
  netlink_route_list : ℤ → Call
  netlink_route_get : Ip → Call
  netlink_addr_list : Link → ℤ → Call
  netlink_neigh_add : Neigh → Call
  netlink_neigh_del : Neigh → Call
  netlink_neigh_list : ℤ → Call
  read_dir : Text → Call
  sysctl_get : Text → Call
  sysctl_set : Text → Text → Call
  net_interfaces : Call
  interface_by_name : Text → Call
  interface_addrs : Text → Call
  spider_get_all_ip_address : ℤ → List Text → Call
  spider_ip_address_by_name : Text → ℤ → Call
  spider_get_gateway_ip : List Addr → Call
  spider_add_route : ℤ → ℤ → ℕ → Text → IpNet → Ip → Ip → Call
  spider_add_static_neighbor_table : ℤ → Ip → Bytes → Call
  generate_rand_mac : Call
  setup_veth_with_name : Text → Text → ℕ → Bytes → Call
  arp_dial : Interface → Call
  arp_new_packet : Bytes → Ip → Call
  arp_events : ℤ → ℕ → Call
  ndp_listen : Interface → Call
  ndp_solicited_node_multicast : Ip → Call
  ndp_write : Ip → Ip → Bytes → Call
  ndp_set_read_deadline : ℕ → Call
  ndp_read : Call
  init_file_logger : Text → Text → ℤ → ℤ → ℤ → Call
  load_args : Text → Call
  print_result : Option Text → Text → Call
  -- The result is printed with these interfaces appended to its own.
  print_result_with : Option Text → List CniInterface → Text → Call

abbrev pub Response : Call → Type 0
Response (netlink_link_by_name _) = Link
Response (netlink_link_by_index _) = Link
Response (netlink_route_list _) = List Route
Response (netlink_route_get _) = List Route
Response (netlink_addr_list _ _) = List Addr
Response (netlink_neigh_list _) = List Neigh
Response (read_dir _) = List Text
Response (sysctl_get _) = Text
Response net_interfaces = List Text
Response (interface_by_name _) = Interface
Response (interface_addrs _) = List Text
Response (spider_get_all_ip_address _ _) = List Addr
Response (spider_ip_address_by_name _ _) = List Addr
Response (spider_get_gateway_ip _) = Ip × Ip
Response generate_rand_mac = Bytes
Response (setup_veth_with_name _ _ _ _) = Link × Link
Response (arp_events _ _) = List ArpEvent
Response (ndp_solicited_node_multicast _) = Ip
Response ndp_read = NdpMessage
Response _ = Unit
