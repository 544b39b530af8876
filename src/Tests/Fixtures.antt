-- ===== src/Tests/Fixtures.antt =====
-- A host whose outside answers every call, and variants that refuse one kind of change.
use cni_plugins.Base.{
  ℕ, true, false, ◌&&◌, not, exists, Option, none, some, List, [], ◌∷◌, if◌then◌else◌,
}
use cni_plugins.Base.Text.{Text, codes, same_text}
use cni_plugins.Base.Int.{pos}
use cni_plugins.Net.{Ip, IpNet, Addr, Link, Nexthop, Route, empty_route, rt_table_main}
use cni_plugins.Utils.Sysctl.Store.{Store, store_after}
use cni_plugins.Veth.Success.First.{makes}
use cni_plugins.World.{
  Trace, Event, Netns, Call, Response, Answer, good, bad, Foreign, Env, other_message,
  neighbor_advertisement, netlink_link_by_name, netlink_link_by_index, netlink_route_list,
  netlink_route_get, netlink_addr_list, netlink_neigh_list, read_dir, sysctl_get, net_interfaces,
  interface_by_name, interface_addrs, spider_get_all_ip_address, spider_ip_address_by_name,
  spider_get_gateway_ip, generate_rand_mac, setup_veth_with_name, arp_events,
  ndp_solicited_node_multicast, ndp_read, netlink_rule_add, netlink_route_add, spider_add_route,
  pod,
}

-- 10.233.64.0/18 and its kind.
abbrev pub net_of : ℕ → IpNet
net_of third = record { ip = 10 ∷ 233 ∷ third ∷ 0 ∷ []; mask = 255 ∷ 255 ∷ 192 ∷ 0 ∷ [] }

abbrev pub pod_addr : Addr
pod_addr = record { ip = 10 ∷ 6 ∷ 212 ∷ 101 ∷ []; mask = 255 ∷ 255 ∷ 0 ∷ 0 ∷ [] }

abbrev pub eth0 : Link
eth0 = record {
  name = codes "eth0";
  index = pos 2;
  parent_index = pos 7;
  hardware_addr = 10 ∷ 27 ∷ 10 ∷ 6 ∷ 212 ∷ 101 ∷ [];
}

abbrev pub default_route : Route
default_route = record empty_route {
  link_index = pos 2;
  gw = 10 ∷ 6 ∷ 0 ∷ 1 ∷ [];
  table = rt_table_main;
}

abbrev pub nexthop : Nexthop
nexthop = record { link_index = pos 2; gw = 10 ∷ 6 ∷ 0 ∷ 2 ∷ [] }

-- A next hop over another link.
abbrev pub other_hop : Nexthop
other_hop = record { link_index = pos 3; gw = 10 ∷ 7 ∷ 0 ∷ 1 ∷ [] }

abbrev pub shared_route : Route
shared_route = record empty_route {
  table = rt_table_main;
  mtu = 1450;
  multi_path = other_hop ∷ nexthop ∷ [];
}

abbrev pub routes : List Route
routes = default_route ∷ shared_route ∷ []

abbrev pub default_answer : (c : Call) → Response c
default_answer (netlink_link_by_name _) = eth0
default_answer (netlink_link_by_index _) = eth0
default_answer (netlink_route_list _) = routes
default_answer (netlink_route_get _) = routes
default_answer (netlink_addr_list _ _) = pod_addr ∷ []
default_answer (netlink_neigh_list _) = []
default_answer (read_dir _) = codes "all" ∷ codes "eth0" ∷ []
default_answer (sysctl_get _) = codes "0"
default_answer net_interfaces = codes "lo" ∷ codes "eth0" ∷ codes "net1" ∷ []
default_answer (interface_by_name name) = record { name = name; hardware_addr = eth0.hardware_addr }
default_answer (interface_addrs _) = codes "10.6.212.101/16" ∷ []
default_answer (spider_get_all_ip_address _ _) = pod_addr ∷ []
default_answer (spider_ip_address_by_name _ _) = pod_addr ∷ []
default_answer (spider_get_gateway_ip _) = (10 ∷ 6 ∷ 0 ∷ 1 ∷ [], [])
default_answer generate_rand_mac = 1 ∷ 2 ∷ 3 ∷ 4 ∷ 5 ∷ 6 ∷ []
default_answer (setup_veth_with_name _ _ _ _) = (eth0, eth0)
default_answer (arp_events _ _) = []
default_answer (ndp_solicited_node_multicast ip) = ip
default_answer ndp_read = other_message
default_answer _ = tt

-- Three texts are subnets.
abbrev pub parse_three : Text → Option (Ip × IpNet)
parse_three s =
    if same_text s (codes "10.233.0.0/18")
    then some ((net_of 0).ip, net_of 0)
    else if same_text s (codes "10.233.64.0/18")
    then some ((net_of 64).ip, net_of 64)
    else if same_text s (codes "10.233.128.0/18")
    then some ((net_of 128).ip, net_of 128)
    else none

abbrev pub with_answers : (Trace → Netns → (c : Call) → Answer (Response c)) → Env
with_answers answer = record {
  answer = answer;
  parse_cidr = parse_three;
  parse_prefix = λ s. none;
  parse_duration = λ s. if same_text s (codes "1s") then some 1000 else none;
  convert_max_mask_ip_net = λ ip. record { ip = ip; mask = 255 ∷ 255 ∷ 255 ∷ 255 ∷ [] };
  convert_log_level = λ s. some s;
}

abbrev pub kind_env : Env
kind_env = with_answers (λ t n c. good (default_answer c))

abbrev pub refusal : Foreign
refusal = record {
  message = codes "operation not permitted";
  is_exist = false;
  is_not_exist = false;
  link_not_found = false;
  timeout = false;
}

abbrev no_rule : (c : Call) → Answer (Response c)
no_rule (netlink_rule_add _) = bad refusal
no_rule c = good (default_answer c)

-- The kernel adds no rule.
abbrev pub no_rule_env : Env
no_rule_env = with_answers (λ t n c. no_rule c)

abbrev no_route : (c : Call) → Answer (Response c)
no_route (netlink_route_add _) = bad refusal
no_route c = good (default_answer c)

-- The kernel adds no route.
abbrev pub no_route_env : Env
no_route_env = with_answers (λ t n c. no_route c)

abbrev pub expired : Foreign
expired = record {
  message = codes "i/o timeout";
  is_exist = false;
  is_not_exist = false;
  link_not_found = false;
  timeout = true;
}

abbrev silent : (c : Call) → Answer (Response c)
silent ndp_read = bad expired
silent c = good (default_answer c)

-- Every read of NDP times out.
abbrev pub silent_env : Env
silent_env = with_answers (λ t n c. silent c)

abbrev no_pod_route : Netns → (c : Call) → Answer (Response c)
no_pod_route pod (spider_add_route _ _ _ _ _ _ _) = bad refusal
no_pod_route n c = good (default_answer c)

-- In the pod, no route can be added.
abbrev pub no_pod_route_env : Env
no_pod_route_env = with_answers (λ t n c. no_pod_route n c)

abbrev pub initial : Store
initial n name = codes "1"

abbrev stored : Trace → Netns → (c : Call) → Answer (Response c)
stored t n (sysctl_get name) = good (store_after initial t n name)
stored t n c = good (default_answer c)

-- Reading a parameter gives what was written last, and "1" before.
abbrev pub store_env : Env
store_env = with_answers stored

abbrev taken : (c : Call) → Answer (Response c)
taken ndp_read = good (neighbor_advertisement pod_addr.ip (some (2 ∷ 0 ∷ 0 ∷ 0 ∷ 0 ∷ 7 ∷ []) ∷ []))
taken c = good (default_answer c)

-- Another host has the pod's address.
abbrev pub taken_env : Env
taken_env = with_answers (λ t n c. taken c)

abbrev pub no_link : Foreign
no_link = record {
  message = codes "Link not found";
  is_exist = false;
  is_not_exist = false;
  link_not_found = true;
  timeout = false;
}

-- Until a pair is made, veth0 is not found.
abbrev pub first_answer : Trace → Netns → (c : Call) → Answer (Response c)
first_answer t n (netlink_link_by_name name) =
    if same_text name (codes "veth0") && not (exists (λ (e : Event). makes e.call) t)
    then bad no_link
    else good eth0
first_answer t n c = good (default_answer c)

abbrev pub first_env : Env
first_env = with_answers first_answer
