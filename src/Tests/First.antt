-- ===== src/Tests/First.antt =====
-- The veth plugin's first run in a pod, at work.
use cni_plugins.Base.{
  ◌≡◌, refl, arith, Bool-cases, inl, inr, false, ◌&&◌, not, exists, some, [], ◌∷◌,
}
use cni_plugins.Base.Text.{codes, same_text}
use cni_plugins.World.{
  Trace, Event, Netns, host, Call, Response, good, bad, ok, netlink_link_by_name, print_result_with,
}
use cni_plugins.Plugin.Links.{OnVeths}
use cni_plugins.Net.{Link}
use cni_plugins.Veth.{PluginConf, Json, cmd_add}
use cni_plugins.Veth.Success.{IsFound}
use cni_plugins.Veth.Success.Config.{IsConfigured}
use cni_plugins.Veth.Success.First.{makes, looks_up, WasMade, pod_side, Made, MakesVeth}
use cni_plugins.Veth.Success.First.Command.{host_side, cmd_add-print_result_first}
use cni_plugins.Tests.Fixtures.{first_env, default_answer, eth0, no_link}
use cni_plugins.Tests.Success.{eth0-IsVeth, good-eth0}
use cni_plugins.Tests.Veth.{conf, json, args}

first_before :
    (t : Trace) (n : Netns) (c : Call)
    → looks_up c ≡ false
    → (a : Response c) × (first_env.answer t n c ≡ good a)
first_before t n (netlink_link_by_name name) h = (eth0, rw h refl)
first_before t n c h = (default_answer c, refl)

first_after :
    (t : Trace) (n : Netns) (c : Call)
    → Made t
    → (a : Response c) × (first_env.answer t n c ≡ good a)
first_after t n (netlink_link_by_name name) h = (eth0, rw h (ground arith))
first_after t n c h = (default_answer c, refl)

first_env-MakesVeth : MakesVeth first_env
first_env-MakesVeth = record {
  before = λ t n c i h. first_before t n c h;
  missing = λ t i. (no_link, rw i refl, refl);
  after = first_after;
  pair = λ t n name peer hw p e. (eth0-IsVeth p.1 (cc)).1;
}

first_env-OnVeths : OnVeths first_env
first_env-OnVeths = record {
  by_name = λ t n name link e.
      elim (Bool-cases
        (same_text name (codes "veth0") && not (exists (λ (e : Event). makes e.call) t))) [
          | inl f ↦ let g : bad no_link ≡ good link = rw f at e in absurd (cc)
          | inr f ↦ eth0-IsVeth link (good-eth0 link (rw f at e))
        ];
  by_index = λ t n index link e. eth0-IsVeth link (good-eth0 link e);
}

-- The configuration of the version for which the result is no copy.
abbrev conf_1 : PluginConf
conf_1 = record conf { cni_version = codes "1.0.0" }

abbrev json_1 : Json
json_1 = record json { unmarshal = λ s. some conf_1 }

conf_1-IsConfigured : IsConfigured first_env conf_1
conf_1-IsConfigured = record {
  only_op_mac = refl;
  mac_prefix = refl;
  ip_conflict = refl;
  some_service = refl;
  some_overlay = refl;
  service = (refl, tt);
  overlay = (refl, tt);
  additional = tt;
}

cmd_add-print_result_first_example :
    (made : Link × Link) × WasMade first_env (codes "veth0123456789a") made
    × (link : Link) × IsFound first_env made.0.name link
    × (t' : Trace) × (cmd_add first_env json_1 args (record { ns = host; trace = [] }) ≡ (
      ok tt,
      record {
        ns = host;
        trace =
            (record {
              ns = host;
              call =
                  print_result_with
                    (some (codes "{}"))
                    (host_side made.0.name link ∷ pod_side (codes "/var/run/netns/pod") made ∷ [])
                    (codes "1.0.0");
            })
            ∷ t';
      },
    ))
cmd_add-print_result_first_example =
    cmd_add-print_result_first first_env json_1 args conf_1 (codes "{}") [] first_env-MakesVeth
      first_env-OnVeths
      (record {
        given = conf_1;
        prev = record { interfaces = codes "net1" ∷ []; ips = (10 ∷ 6 ∷ 0 ∷ 9 ∷ []) ∷ [] };
        unmarshal = refl;
        parse_prev_result = refl;
        prev_result = refl;
        get_result = refl;
        configured = conf_1-IsConfigured;
      })
      refl refl refl
