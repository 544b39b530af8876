-- ===== src/Tests/Veth.antt =====
-- The theorems on the `veth` plugin and on the kernel's parameters, at work.
use cni_plugins.Base.{◌≡◌, refl, false, none, some, List, [], ◌∷◌}
use cni_plugins.Base.Text.{Text, codes}
use cni_plugins.Base.Int.{pos, negsuc}
use cni_plugins.Types.{RpFilter}
use cni_plugins.World.{
  Trace, Netns, Call, Answer, Response, good, host, pod, World, ok, print_result, sysctl_get,
  read_dir, enter_netns,
}
use cni_plugins.World.Runs.{after}
use cni_plugins.World.Keeps.{Keeps}
use cni_plugins.Plugin.{CmdArgs}
use cni_plugins.Utils.Names.Decimal.{itoa}
use cni_plugins.Utils.Sysctl.{
  rp_filter_name, disable_ipv6_name, sysctl_rp_filter, enable_ipv6_sysctl, sysctl_conf_path_ipv6,
}
use cni_plugins.Utils.Sysctl.Store.{store_after}
use cni_plugins.Utils.Sysctl.Writes.{sysctl_rp_filter-store_after, enable_ipv6_sysctl-store_after}
use cni_plugins.Utils.Sysctl.Writes.Again.{enable_ipv6_sysctl_again}
use cni_plugins.Veth.{PluginConf, Json, cmd_add, cmd_del}
use cni_plugins.Veth.Boundary.{VethMay}
use cni_plugins.Veth.Boundary.Add.{veth_cmd_add-Keeps}
use cni_plugins.Veth.Delete.{DeletesOnly, cmd_del-Keeps}
use cni_plugins.Utils.Names.{get_rule_number}
use cni_plugins.Utils.Names.Decimal.{atoi}
use cni_plugins.Veth.Success.Config.{IsConfigured, IsChained}
use cni_plugins.Veth.Success.Command.{veth_cmd_add-print_result}
use cni_plugins.Tests.Success.{kind_env-AnswersAll, kind_env-OnVeths}
use cni_plugins.Plugin.Accepts.{HasRule}
use cni_plugins.Tests.Fixtures.{with_answers, default_answer, kind_env, store_env, initial, eth0}

abbrev pub conf : PluginConf
conf = record {
  cni_version = codes "0.3.1";
  prev_result = some (codes "{}");
  overlay_hijack_subnet = codes "10.233.64.0/18" ∷ [];
  service_hijack_subnet = codes "10.233.0.0/18" ∷ [];
  additional_hijack_subnet = [];
  rp_filter = none;
  skipped = false;
  migrate_route = some (negsuc 0);
  log_options = none;
  ip_conflict = none;
  mac_prefix = [];
  only_op_mac = false;
}

abbrev pub json : Json
json = record {
  unmarshal = λ s. some conf;
  parse_prev_result = λ c. some c;
  get_result =
      λ s. some (record { interfaces = codes "net1" ∷ []; ips = (10 ∷ 6 ∷ 0 ∷ 9 ∷ []) ∷ [] });
}

abbrev pub args : CmdArgs
args = record {
  container_id = codes "0123456789abcdef";
  netns = codes "/var/run/netns/pod";
  if_name = codes "net1";
  args = [];
  stdin_data = codes "{}";
}

veth_cmd_add-Keeps_example :
    Keeps (VethMay (codes "0123456789abcdef")) host (cmd_add kind_env json args)
veth_cmd_add-Keeps_example = veth_cmd_add-Keeps kind_env json args

cmd_del-Keeps_example : Keeps (DeletesOnly (λ l. l ≡ eth0)) host (cmd_del kind_env json args)
cmd_del-Keeps_example = cmd_del-Keeps kind_env json args (λ l. l ≡ eth0) (λ t n l e. cc)

abbrev dirs : List Text
dirs = codes "all" ∷ codes "eth0" ∷ []

abbrev in_host : World
in_host = record { ns = host; trace = [] }

abbrev loose : RpFilter
loose = record { enable = some false; value = some (pos 2) }

sysctl_rp_filter-store_after_example :
    let (result, w) = sysctl_rp_filter store_env (some loose) in_host in
    (result ≡ ok tt)
    × (store_after initial w.trace pod (codes "/net/ipv4/conf/eth0/rp_filter") ≡ codes "2")
unfolding rp_filter_name itoa
sysctl_rp_filter-store_after_example =
    sysctl_rp_filter-store_after store_env initial (λ t n k. refl, λ t n k v. refl) (λ t. refl)
      (λ n. dirs) (λ t n. refl) loose [] pod (codes "/net/ipv4/conf/eth0/rp_filter")

enable_ipv6_sysctl-store_after_example :
    let (result, w) = enable_ipv6_sysctl store_env in_host in
    (result ≡ ok tt)
    × (store_after initial w.trace pod (codes "/net/ipv6/conf/all/disable_ipv6") ≡ codes "0")
unfolding disable_ipv6_name
enable_ipv6_sysctl-store_after_example =
    enable_ipv6_sysctl-store_after store_env initial (λ t n k. refl, λ t n k v. refl) (λ t. refl)
      dirs (λ t. refl) [] pod (codes "/net/ipv6/conf/all/disable_ipv6")

enable_ipv6_sysctl_again_example :
    let (result, w) = enable_ipv6_sysctl store_env in_host in
    enable_ipv6_sysctl store_env w ≡ (
      ok tt,
      record {
        ns = host;
        trace =
            after pod
              (read_dir sysctl_conf_path_ipv6
                ∷ sysctl_get (disable_ipv6_name (codes "all"))
                ∷ sysctl_get (disable_ipv6_name (codes "eth0"))
                ∷ [])
              (after host (enter_netns ∷ []) w.trace);
      },
    )
enable_ipv6_sysctl_again_example =
    enable_ipv6_sysctl_again store_env initial (λ t n k. refl, λ t n k v. refl) (λ t. refl) dirs
      (λ t. refl) []

pub conf-IsConfigured :
    (answer : Trace → Netns → (c : Call) → Answer (Response c))
    → IsConfigured (with_answers answer) conf
conf-IsConfigured answer = record {
  only_op_mac = refl;
  mac_prefix = refl;
  ip_conflict = refl;
  some_service = refl;
  some_overlay = refl;
  service = (refl, tt);
  overlay = (refl, tt);
  additional = tt;
}

abbrev pub json-IsChained :
    (answer : Trace → Netns → (c : Call) → Answer (Response c))
    → IsChained (with_answers answer) json args.stdin_data conf (codes "{}")
json-IsChained answer = record {
  given = conf;
  prev = record { interfaces = codes "net1" ∷ []; ips = (10 ∷ 6 ∷ 0 ∷ 9 ∷ []) ∷ [] };
  unmarshal = refl;
  parse_prev_result = refl;
  prev_result = refl;
  get_result = refl;
  configured = conf-IsConfigured answer;
}

net1-HasRule : HasRule (codes "net1" ∷ [])
unfolding get_rule_number atoi
net1-HasRule = refl

veth_cmd_add-print_result_example :
    (t' : Trace) × (cmd_add kind_env json args (record { ns = host; trace = [] }) ≡ (
      ok tt,
      record {
        ns = host;
        trace =
            (record { ns = host; call = print_result (some (codes "{}")) (codes "0.3.1") }) ∷ t';
      },
    ))
veth_cmd_add-print_result_example =
    veth_cmd_add-print_result kind_env json args conf (codes "{}") [] kind_env-AnswersAll
      kind_env-OnVeths (json-IsChained λ t n c. good (default_answer c)) net1-HasRule
