-- ===== src/Router/Routes/Exact.antt =====
-- What `addChainedIPRoute` puts on the host, where the kernel accepts it.
use cni_plugins.Base.{
  ◌≡◌, refl, false, none, some, replicate, List, [], ◌∷◌, exists, if◌then◌else◌, Bool-cases, inl,
  inr,
}
use cni_plugins.Base.Text.{Text}
use cni_plugins.Base.Int.{ℤ, pos, is_negative}
use cni_plugins.Net.{is_v4, scope_link, Ip, Addr, Link, Rule, Route, contains}
use cni_plugins.World.{
  Trace, host, pod, Call, enter_netns, netlink_link_by_name, netlink_link_by_index,
  netlink_rule_add, netlink_route_add, Env, good, returned, forgive, os_is_exist, ok, choose, wrap,
  call, ◌>>=◌, do_netns,
}
use cni_plugins.World.Runs.{
  Runs, after, gather, pure-Runs, >>=-Runs, wrap-Runs, ignoring-Runs, for_each-Runs,
}
use cni_plugins.Router.Routes.{
  max_mask_net, host_rule, host_route, add_chained_ip, add_chained_ips, add_chained_ip_route,
}

-- A rule or a route is added, or is there already.
abbrev pub AcceptsHostChanges : Env → Type 0
AcceptsHostChanges env =
    ((t : Trace) (r : Rule)
      → forgive os_is_exist (returned (env.answer t host (netlink_rule_add r))) ≡ ok tt)
    × ((t : Trace) (r : Route)
        → forgive os_is_exist (returned (env.answer t host (netlink_route_add r))) ≡ ok tt)

-- The rule for the table and the route, written out.
abbrev pub rule_calls : ℤ → ℤ → Ip → List Call
rule_calls table index ip =
    netlink_rule_add (record {
      src = none;
      dst = none;
      family = if is_v4 ip then pos 2 else pos 10;
      table = table;
      priority = pos 1000;
    })
    ∷ netlink_route_add (record {
      link_index = index;
      scope = scope_link;
      dst = some (record { ip = ip; mask = replicate (if is_v4 ip then 4 else 16) 255 });
      src = [];
      gw = [];
      table = table;
      mtu = 0;
      multi_path = [];
      others = 0;
    })
    ∷ []

-- For an address whose prefix has an address of the host in it, a rule for the table and a route.
abbrev pub chained_calls : ℤ → ℤ → List Ip → Addr → List Call
chained_calls table index host_ips addr =
    if exists (contains addr) host_ips then rule_calls table index addr.ip else []

host_calls :
    (table index : ℤ) (ip : Ip)
    → (netlink_rule_add (host_rule table ip) ∷ netlink_route_add (host_route table index ip) ∷ [])
      ≡ rule_calls table index ip
unfolding host_rule host_route max_mask_net
host_calls table index ip = elim (Bool-cases (is_v4 ip)) [ inl e ↦ rw e refl | inr e ↦ rw e refl ]

module _ (env : Env) (accepts : AcceptsHostChanges env) (table index : ℤ) where
  add_chained_ip-Runs :
      (ip : Ip)
      → Runs host
          (add_chained_ip env table index ip)
          (netlink_rule_add (host_rule table ip)
            ∷ netlink_route_add (host_route table index ip)
            ∷ [])
          (ok tt)
  unfolding add_chained_ip call
  add_chained_ip-Runs ip =
      >>=-Runs host _ _ (netlink_rule_add (host_rule table ip) ∷ []) _ tt (ok tt)
        (wrap-Runs host _ _ _ (ok tt) (
          ignoring-Runs host _ _ (netlink_rule_add (host_rule table ip))
            (λ t. env.answer t host (netlink_rule_add (host_rule table ip))) (λ t. refl)
            (λ t. accepts.0 t _)))
        (wrap-Runs host _ _ _ (ok tt) (
          ignoring-Runs host _ _ (netlink_route_add (host_route table index ip))
            (λ t. env.answer t host (netlink_route_add (host_route table index ip))) (λ t. refl)
            (λ t. accepts.1 t _)))

  add_chained_ips-Runs :
      (host_ips : List Ip) (chained : List Addr)
      → Runs host
          (add_chained_ips env table index host_ips chained)
          (gather (chained_calls table index host_ips) chained)
          (ok tt)
  unfolding add_chained_ips choose
  add_chained_ips-Runs host_ips chained =
      for_each-Runs host chained _ (chained_calls table index host_ips) λ addr.
        elim (Bool-cases (exists (contains addr) host_ips)) [
          | inl e ↦ rw (e, chained_calls) (rw host_calls at (add_chained_ip-Runs addr.ip))
          | inr e ↦ rw (e, chained_calls) (pure-Runs host tt)
        ]

-- Where the pod can be entered, the overlay's link in it has a peer that is found, and the kernel
-- takes the rules and routes or says that they exist, addChainedIPRoute for an interface that is no
-- sriov one succeeds, and after finding the links it adds on the host, for each chained address
-- whose prefix contains an address of the host, in their order, the rule for the host's table and
-- then the route over the peer, and nothing else.
pub add_chained_ip_route-after :
    (env : Env) (table : ℤ) (name : Text) (link peer : Link) (host_ips : List Ip)
    (chained : List Addr) (t : Trace)
    → ((t : Trace) → env.answer t host enter_netns ≡ good tt)
    → ((t : Trace) → env.answer t pod (netlink_link_by_name name) ≡ good link)
    → ((t : Trace) → env.answer t host (netlink_link_by_index link.parent_index) ≡ good peer)
    → is_negative link.parent_index ≡ false
    → AcceptsHostChanges env
    → add_chained_ip_route env false table name host_ips chained (record { ns = host; trace = t })
      ≡ (
        ok tt,
        record {
          ns = host;
          trace =
              after host
                (netlink_link_by_index link.parent_index
                  ∷ gather (chained_calls table link.parent_index host_ips) chained)
                (after pod (netlink_link_by_name name ∷ []) (after host (enter_netns ∷ []) t));
        },
      )
unfolding add_chained_ip_route ◌>>=◌ choose wrap do_netns call
add_chained_ip_route-after env table name link peer host_ips chained t opens links peers h accepts =
    rw (opens t) (
      rw (links _) (
        rw h (
          rw (peers _)
            ((add_chained_ips-Runs env accepts table link.parent_index host_ips chained).run _))))
