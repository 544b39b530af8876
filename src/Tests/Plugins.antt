-- ===== src/Tests/Plugins.antt =====
-- The theorems on the checks of addresses and on the two plugins, at work.
use cni_plugins.Base.{ℕ, ◌≡◌, ◌⊎◌, refl, true, false, none, some, List, [], ◌∷◌}
use cni_plugins.Base.Text.{Text, codes, same_text}
use cni_plugins.Base.Int.{pos, negsuc}
use cni_plugins.Net.{Ip, is_v4, ip_equal, scope_link, family_v4}
use cni_plugins.Net.Mac.{mac_string}
use cni_plugins.World.{
  World, host, pod, Interface, ok, err, panic, new, fail, pass, ◌>>=◌, try, choose, wrap, call,
  pure, spider_get_gateway_ip, packet, read_failed, tick, ArpEvent, ndp_listen, spider_add_route,
  enter_netns,
}
use cni_plugins.World.Keeps.{Keeps}
use cni_plugins.World.Runs.{after}
use cni_plugins.Plugin.{CmdArgs, IpFamilies}
use cni_plugins.Networking.{get_all_host_ip_route_for_pod, gateway_ips, add_node_ips, gateway_for}
use cni_plugins.Networking.Distinct.{Distinct, get_all_host_ip_route_for_pod-Distinct}
use cni_plugins.IpChecking.Arp.{arp_start, arp_run, arp_verdict}
use cni_plugins.IpChecking.Arp.Replies.{
  IsReplied, arp_run-IsReplied, arp_verdict_found, arp_verdict_lost_error,
}
use cni_plugins.IpChecking.Ndp.{
  ip_checking_by_ndp, send_receive_loop, send_receive, ndp_verdict, written, read_result,
  wanted_reply,
}
use cni_plugins.IpChecking.Ndp.Heard.{ip_checking_by_ndp-Heard}
use cni_plugins.IpChecking.Ndp.Rounds.{Heard}
use cni_plugins.IpChecking.Ndp.Silence.{round_calls, rounds_calls, ip_checking_by_ndp_silent}
use cni_plugins.Router.{PluginConf, Json, validate_config, set_up_networks, cmd_add}
use cni_plugins.Router.Boundary.{RouterMay}
use cni_plugins.Router.Boundary.Command.{cmd_add-Keeps}
use cni_plugins.Router.OnlyMac.{only_mac, set_up_networks-only_mac}
use cni_plugins.Tests.Fixtures.{kind_env, taken_env, silent_env, refusal, expired, pod_addr}

abbrev two_ips : List Ip
two_ips =
    (10 ∷ 6 ∷ 0 ∷ 9 ∷ [])
    ∷ (253 ∷ 0 ∷ 0 ∷ 0 ∷ 0 ∷ 0 ∷ 0 ∷ 0 ∷ 0 ∷ 0 ∷ 0 ∷ 0 ∷ 0 ∷ 0 ∷ 0 ∷ 9 ∷ [])
    ∷ []

abbrev in_host : World
in_host = record { ns = host; trace = [] }

get_all_host_ip_route_for_pod-Distinct_example : Distinct ((10 ∷ 6 ∷ 0 ∷ 1 ∷ []) ∷ pod_addr.ip ∷ [])
unfolding get_all_host_ip_route_for_pod ◌>>=◌ gateway_ips wrap call pure add_node_ips is_v4 ip_equal
    gateway_for
get_all_host_ip_route_for_pod-Distinct_example =
    get_all_host_ip_route_for_pod-Distinct kind_env family_v4 (pod_addr ∷ pod_addr ∷ []) in_host
      ((10 ∷ 6 ∷ 0 ∷ 1 ∷ []) ∷ pod_addr.ip ∷ []) refl

abbrev target : Ip
target = 10 ∷ 6 ∷ 0 ∷ 9 ∷ []

abbrev owner : List ℕ
owner = 2 ∷ 0 ∷ 0 ∷ 0 ∷ 0 ∷ 9 ∷ []

abbrev heard : List ArpEvent
heard = tick none ∷ packet false target owner ∷ packet true target owner ∷ tick none ∷ []

arp_run-IsReplied_example :
    ((arp_run target (arp_start 3) heard).conflicting_mac ≡ [])
    ⊎ IsReplied target heard (arp_run target (arp_start 3) heard).conflicting_mac
arp_run-IsReplied_example = arp_run-IsReplied target 3 heard

arp_verdict_found_example :
    let r = arp_run target (arp_start 3) (packet true target owner ∷ tick none ∷ []) in
    (r.conflicting_mac ≡ mac_string owner)
    × (arp_verdict kind_env r
        ≡ fail (new "pod's interface %s with an conflicting ip %s, %s is located at %s"))
unfolding mac_string
arp_verdict_found_example =
    arp_verdict_found target kind_env (arp_start 3) target owner (tick none ∷ []) refl refl refl
      (refl, tt)

arp_verdict_lost_error_example :
    arp_verdict kind_env (arp_run target (arp_start 3) (read_failed refusal ∷ tick none ∷ []))
    ≡ pass
arp_verdict_lost_error_example = arp_verdict_lost_error kind_env target 2 refusal [] tt

abbrev net1 : Interface
net1 = record { name = codes "net1"; hardware_addr = owner }

ip_checking_by_ndp_silent_example :
    ip_checking_by_ndp silent_env net1 target (pos 3) 1000 in_host ≡ (
      err (new "ip conflicting check fails with more than maximum number of retries"),
      record {
        ns = host;
        trace =
            after host (ndp_listen net1 ∷ rounds_calls 3 (round_calls target target owner 1000)) [];
      },
    )
ip_checking_by_ndp_silent_example =
    ip_checking_by_ndp_silent silent_env target target expired
      (λ t n i. refl, λ t n. refl, λ t n h. refl, λ t n d. refl, λ t n. refl, refl) net1 3 1000 host
      []

ip_checking_by_ndp-Heard_example :
    (mac : Text) × Heard taken_env pod_addr.ip mac
      (ip_checking_by_ndp taken_env net1 pod_addr.ip (pos 3) 1000 in_host).1
    × (same_text mac (mac_string net1.hardware_addr) ≡ false)
unfolding ip_checking_by_ndp send_receive_loop send_receive ndp_verdict written read_result
    wanted_reply try wrap call ◌>>=◌ pure choose fail mac_string
ip_checking_by_ndp-Heard_example =
    ip_checking_by_ndp-Heard taken_env net1 pod_addr.ip (pos 3) 1000 in_host false refl

abbrev conf : PluginConf
conf = record {
  cni_version = codes "0.3.1";
  prev_result = some (codes "{}");
  overlay_hijack_subnet = codes "10.233.64.0/18" ∷ [];
  service_hijack_subnet = codes "10.233.0.0/18" ∷ [];
  additional_hijack_subnet = [];
  migrate_route = some (negsuc 0);
  default_overlay_interface = codes "eth0";
  host_rule_table = some (pos 500);
  rp_filter = some (record { enable = some true; value = some (pos 2) });
  skipped = false;
  sriov = false;
  only_op_mac = false;
  log_options = none;
  ip_conflict = none;
  mac_prefix = [];
}

abbrev json : Json
json = record {
  unmarshal = λ s. some conf;
  parse_prev_result = λ c. some c;
  get_result = λ s. some (record { interfaces = codes "net1" ∷ []; ips = two_ips });
}

abbrev args : CmdArgs
args = record {
  container_id = codes "0123456789abcdef";
  netns = codes "/var/run/netns/pod";
  if_name = codes "net1";
  args = [];
  stdin_data = codes "{}";
}

cmd_add-Keeps_example : Keeps (RouterMay (pos 500)) host (cmd_add kind_env json args)
cmd_add-Keeps_example = cmd_add-Keeps kind_env json args conf conf refl refl refl

abbrev families : IpFamilies
families = record { enable_ipv4 = true; enable_ipv6 = false; ipfamily = family_v4 }

set_up_networks-only_mac_example :
    (c : PluginConf) × (validate_config kind_env (only_mac conf) in_host ≡ (ok c, in_host))
    × (set_up_networks kind_env json c args (codes "net1") (pos 100) families [] [] in_host
        ≡ (panic "invalid memory address or nil pointer dereference", in_host))
set_up_networks-only_mac_example =
    set_up_networks-only_mac kind_env json conf args (codes "net1") (pos 100) families [] [] in_host

abbrev asked : World
asked = record { ns = host; trace = after host (spider_get_gateway_ip (pod_addr ∷ []) ∷ []) [] }

-- The first route into the pod is refused.
abbrev refused : World
refused = record {
  ns = host;
  trace =
      after pod
        (spider_add_route (pos 100) family_v4 scope_link (codes "veth0")
            (kind_env.convert_max_mask_ip_net target) [] []
          ∷ [])
        (after host (enter_netns ∷ []) asked.trace);
}
