-- ===== src/Tests/Setup.antt =====
-- What the veth plugin sets up for one pod, exactly.
use cni_plugins.Base.{arith, ◌≡◌, refl, true, List, [], ◌∷◌, ◌++◌}
use cni_plugins.Base.Text.{Text, codes}
use cni_plugins.Base.Int.{pos}
use cni_plugins.Net.{Ip, Neigh, family_v4, family_all, ip_equal}
use cni_plugins.Net.Mac.{mac_string, parse_mac_addr-mac_string}
use cni_plugins.World.{
  host, pod, ok, Env, Call, Response, Answer, good, enter_netns, spider_get_gateway_ip,
  netlink_neigh_list, netlink_neigh_del, netlink_link_by_name, spider_add_static_neighbor_table,
}
use cni_plugins.World.Runs.{after, gather}
use cni_plugins.World.Parsed.{parsed_calls}
use cni_plugins.Veth.Pair.{VethPair, default_con_veth}
use cni_plugins.Veth.Setup.{setup_routes, setup_neighborhood}
use cni_plugins.Veth.Setup.Exact.{pod_call, host_call, hijack_call, setup_routes-after}
use cni_plugins.Veth.Setup.Neighborhood.{setup_neighborhood-after}
use cni_plugins.Tests.Fixtures.{with_answers, default_answer, kind_env, pod_addr, eth0, parse_three}

abbrev node : List Ip
node = (10 ∷ 6 ∷ 0 ∷ 9 ∷ []) ∷ []

abbrev gateway : Ip
gateway = 10 ∷ 6 ∷ 0 ∷ 1 ∷ []

abbrev subnets : List Text
subnets = codes "10.233.0.0/18" ∷ codes "nonsense" ∷ codes "10.233.64.0/18" ∷ []

setup_routes-after_example :
    setup_routes kind_env
      (pos 100)
      family_v4
      (codes "veth0")
      node
      (pod_addr ∷ [])
      subnets
      (record { ns = host; trace = [] })
    ≡ (
      ok tt,
      record {
        ns = host;
        trace =
            after host
              (gather (host_call kind_env (pos 100) family_v4 (codes "veth0")) (pod_addr ∷ []))
              (after pod
                (pod_call kind_env (pos 100) family_v4 (10 ∷ 6 ∷ 0 ∷ 9 ∷ [])
                  ++ parsed_calls parse_three
                      (hijack_call kind_env (pos 100) family_v4 gateway [])
                      subnets)
                (after host (spider_get_gateway_ip (pod_addr ∷ []) ∷ enter_netns ∷ []) []));
      },
    )
setup_routes-after_example =
    setup_routes-after kind_env (pos 100) family_v4 (λ t n table family scope name dst v4 v6. refl)
      (codes "veth0") node (pod_addr ∷ []) subnets gateway [] [] (λ t n. refl) (λ t. refl)

abbrev stale : Neigh
stale = record { link_index = pos 7; state = 128; kind = 1; ip = pod_addr.ip; hardware_addr = [] }

abbrev resident : (c : Call) → Answer (Response c)
resident (netlink_neigh_list _) = good (stale ∷ [])
resident c = good (default_answer c)

-- The host still has a neighbour with the pod's address.
abbrev resident_env : Env
resident_env = with_answers (λ t n c. resident c)

abbrev pub pair : VethPair
pair = record {
  host_interface = record { name = codes "veth0123"; mac = []; sandbox = [] };
  container_interface = record {
    name = default_con_veth;
    mac = mac_string eth0.hardware_addr;
    sandbox = [];
  };
}

setup_neighborhood-after_example :
    setup_neighborhood resident_env true pair node
      (pod_addr ∷ [])
      (record { ns = host; trace = [] })
    ≡ (
      ok (record pair {
        host_interface = record {
          name = codes "veth0123";
          mac = mac_string eth0.hardware_addr;
          sandbox = [];
        };
      }),
      record {
        ns = host;
        trace =
            after pod
              (netlink_link_by_name default_con_veth
                ∷ spider_add_static_neighbor_table (pos 2) (10 ∷ 6 ∷ 0 ∷ 9 ∷ []) eth0.hardware_addr
                ∷ [])
              (after host
                (netlink_link_by_name (codes "veth0123")
                  ∷ netlink_neigh_list family_all
                  ∷ netlink_neigh_del stale
                  ∷ spider_add_static_neighbor_table (pos 2) pod_addr.ip eth0.hardware_addr
                  ∷ enter_netns
                  ∷ [])
                []);
      },
    )
unfolding ip_equal
setup_neighborhood-after_example =
    setup_neighborhood-after resident_env (λ t n index ip hw. refl) true pair eth0 eth0 (stale ∷ [])
      eth0.hardware_addr node (pod_addr ∷ []) [] (λ t n. refl) (λ t. refl) (λ t. refl) (λ t. refl)
      (parse_mac_addr-mac_string 10 27 (10 ∷ 6 ∷ 212 ∷ 101 ∷ []) (omega arith) refl)
