-- ===== src/Tests/Success.antt =====
-- The theorems on runs that succeed, at work.
use cni_plugins.Base.{◌≡◌, refl, sym, arith, false, none, some, [], ◌∷◌}
use cni_plugins.Base.Text.{codes}
use cni_plugins.Base.Int.{pos}
use cni_plugins.Net.{Link}
use cni_plugins.World.{
  Trace, host, pod, good, ok, netlink_link_by_name, netlink_link_by_index, enter_netns,
  print_result,
}
use cni_plugins.World.Runs.{after, gather}
use cni_plugins.World.Succeeds.{AnswersAll, Always}
use cni_plugins.Plugin.{CmdArgs}
use cni_plugins.Router.Routes.{add_chained_ip_route}
use cni_plugins.Router.Routes.Exact.{chained_calls, add_chained_ip_route-after}
use cni_plugins.Router.{PluginConf, Json, cmd_add}
use cni_plugins.Plugin.Links.{IsVeth, OnVeths}
use cni_plugins.Router.Success.Config.{IsConfigured, IsChained}
use cni_plugins.Router.Success.Command.{cmd_add-print_result}
use cni_plugins.Utils.Names.{get_rule_number}
use cni_plugins.Utils.Names.Decimal.{atoi}
use cni_plugins.Tests.Fixtures.{kind_env, default_answer, eth0, pod_addr}

-- The routes, the table and the kernel's parameters are left to the defaults; a subnet has spaces
-- around it.
abbrev pub conf : PluginConf
conf = record {
  cni_version = codes "0.3.1";
  prev_result = some (codes "{}");
  overlay_hijack_subnet = codes " 10.233.64.0/18 " ∷ [];
  service_hijack_subnet = codes "10.233.0.0/18" ∷ [];
  additional_hijack_subnet = codes "10.233.128.0/18" ∷ [];
  migrate_route = none;
  default_overlay_interface = [];
  host_rule_table = none;
  rp_filter = none;
  skipped = false;
  sriov = false;
  only_op_mac = false;
  log_options = none;
  ip_conflict = none;
  mac_prefix = [];
}

abbrev pub json : Json
json = record {
  unmarshal = λ s. some conf;
  parse_prev_result = λ c. some c;
  get_result = λ s. some (record { interfaces = codes "net2" ∷ []; ips = pod_addr.ip ∷ [] });
}

abbrev pub args : CmdArgs
args = record {
  container_id = codes "0123456789abcdef";
  netns = codes "/var/run/netns/pod";
  if_name = codes "net2";
  args = [];
  stdin_data = codes "{}";
}

pub kind_env-AnswersAll : AnswersAll Always kind_env
kind_env-AnswersAll = record { grows = λ t e i. tt; answers = λ t n c i. (default_answer c, refl) }

pub eth0-IsVeth : (link : Link) → eth0 ≡ link → IsVeth link
eth0-IsVeth link e = rw (sym e) (refl, (refl, omega arith))

pub good-eth0 : (link : Link) → good eth0 ≡ good link → eth0 ≡ link
good-eth0 link e = cc

pub kind_env-OnVeths : OnVeths kind_env
kind_env-OnVeths = record {
  by_name = λ t n name link e. eth0-IsVeth link (good-eth0 link e);
  by_index = λ t n index link e. eth0-IsVeth link (good-eth0 link e);
}

conf-IsConfigured : IsConfigured kind_env conf
conf-IsConfigured = record {
  only_op_mac = refl;
  mac_prefix = refl;
  ip_conflict = refl;
  some_service = refl;
  some_overlay = refl;
  service = (refl, tt);
  overlay = (refl, tt);
  additional = (refl, tt);
}

json-IsChained : IsChained kind_env json args.stdin_data conf (codes "{}")
unfolding get_rule_number atoi
json-IsChained = record {
  given = conf;
  prev = record { interfaces = codes "net2" ∷ []; ips = pod_addr.ip ∷ [] };
  unmarshal = refl;
  parse_prev_result = refl;
  prev_result = refl;
  get_result = refl;
  has_rule = refl;
  configured = conf-IsConfigured;
}

cmd_add-print_result_example :
    (t' : Trace) × (cmd_add kind_env json args (record { ns = host; trace = [] }) ≡ (
      ok tt,
      record {
        ns = host;
        trace =
            (record { ns = host; call = print_result (some (codes "{}")) (codes "0.3.1") }) ∷ t';
      },
    ))
cmd_add-print_result_example =
    cmd_add-print_result kind_env json args conf (codes "{}") [] kind_env-AnswersAll
      kind_env-OnVeths json-IsChained

add_chained_ip_route-after_example :
    add_chained_ip_route kind_env false
      (pos 500)
      (codes "eth0")
      (pod_addr.ip ∷ [])
      (pod_addr ∷ [])
      (record { ns = host; trace = [] })
    ≡ (
      ok tt,
      record {
        ns = host;
        trace =
            after host
              (netlink_link_by_index (pos 7)
                ∷ gather (chained_calls (pos 500) (pos 7) (pod_addr.ip ∷ [])) (pod_addr ∷ []))
              (after pod
                (netlink_link_by_name (codes "eth0") ∷ [])
                (after host (enter_netns ∷ []) []));
      },
    )
add_chained_ip_route-after_example =
    add_chained_ip_route-after kind_env (pos 500) (codes "eth0") eth0 eth0 (pod_addr.ip ∷ [])
      (pod_addr ∷ []) [] (λ t. refl) (λ t. refl) (λ t. refl) refl (λ t r. refl, λ t r. refl)
