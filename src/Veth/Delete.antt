-- ===== src/Veth/Delete.antt =====
-- `cmdDel` of the `veth` plugin (plugins/veth/veth.go).
use cni_plugins.Base.{◌≡◌, refl}
use cni_plugins.Net.{Link}
use cni_plugins.World.{
  Event, Trace, Netns, host, Call, Env, World, Answer, good, bad, Attempt, done, failed, try, call,
  returned, caught, netlink_link_by_name, netlink_link_del, netlink_link_set_up,
  netlink_link_set_hardware_addr, netlink_rule_add, netlink_rule_del, netlink_route_add,
  netlink_route_del, netlink_neigh_add, netlink_neigh_del, sysctl_set, spider_add_route,
  spider_add_static_neighbor_table, setup_veth_with_name,
}
use cni_plugins.World.Keeps.{
  Keeps, >>=-Keeps, pure-Keeps, fail-Keeps, choose-Keeps, call-Keeps, try-Keeps, wrap-Keeps, WhenOk,
  >>=-Keeps_known, Keeps-mono,
}
use cni_plugins.Plugin.{CmdArgs}
use cni_plugins.Plugin.ReadsOnly.{ReadsOnly}
use cni_plugins.Veth.Load.{load-Keeps}
use cni_plugins.Veth.Pair.{get_host_veth_name}
use cni_plugins.Veth.{Json, delete_host_veth, cmd_del}

-- Links of one kind may be deleted, and nothing else may be changed.
abbrev pub DeletesOnly : (Link → Type 0) → Event → Type 0
DeletesOnly allowed e = elim e.call [
  | netlink_link_del l ↦ (e.ns ≡ host) × allowed l
  | netlink_link_set_up _ ↦ ⊥
  | netlink_link_set_hardware_addr _ _ ↦ ⊥
  | netlink_rule_add _ ↦ ⊥
  | netlink_rule_del _ ↦ ⊥
  | netlink_route_add _ ↦ ⊥
  | netlink_route_del _ ↦ ⊥
  | netlink_neigh_add _ ↦ ⊥
  | netlink_neigh_del _ ↦ ⊥
  | sysctl_set _ _ ↦ ⊥
  | spider_add_route _ _ _ _ _ _ _ ↦ ⊥
  | spider_add_static_neighbor_table _ _ _ ↦ ⊥
  | setup_veth_with_name _ _ _ _ ↦ ⊥
  | _ ↦ Unit
]

abbrev Found : (Link → Type 0) → Attempt Link → Type 0
Found allowed (done l) = allowed l
Found allowed (failed e) = Unit

caught-Found :
    (allowed : Link → Type 0) (r : Answer Link)
    → ((l : Link) → r ≡ good l → allowed l)
    → WhenOk (Found allowed) (caught (returned r))
caught-Found allowed (good l) h = h l refl
caught-Found allowed (bad f) h = tt

module _ (env : Env) (json : Json) (args : CmdArgs) (allowed : Link → Type 0)
    (named : (t : Trace) (n : Netns) (l : Link)
      → env.answer t n (netlink_link_by_name (get_host_veth_name args.container_id)) ≡ good l
      → allowed l) where
  looked_up :
      (w : World)
      → WhenOk
          (Found allowed)
          (try (call env (netlink_link_by_name (get_host_veth_name args.container_id))) w).0
  unfolding try call
  looked_up w = caught-Found allowed _ (named w.trace w.ns)

  delete_host_veth-Keeps : Keeps (DeletesOnly allowed) host (delete_host_veth env json args)
  unfolding delete_host_veth
  delete_host_veth-Keeps =
      >>=-Keeps_known (DeletesOnly allowed) host (Found allowed) _ _
        (try-Keeps (DeletesOnly allowed) host _
          (call-Keeps (DeletesOnly allowed) host env (netlink_link_by_name _) tt))
        looked_up
        (elim [
          | done l ↦ λ h.
              wrap-Keeps (DeletesOnly allowed) host _ _
                (call-Keeps (DeletesOnly allowed) host env (netlink_link_del l) (refl, h))
          | failed e ↦ λ h.
              choose-Keeps (DeletesOnly allowed) host _ _ _
                (pure-Keeps (DeletesOnly allowed) host tt) (fail-Keeps (DeletesOnly allowed) host _)
        ])

  reads_may :
      (n : Netns) (c : Call)
      → ReadsOnly (record { ns = n; call = c })
      → DeletesOnly allowed (record { ns = n; call = c })
  reads_may n (netlink_link_del l) h = absurd h
  reads_may n (netlink_link_set_up l) h = absurd h
  reads_may n (netlink_link_set_hardware_addr l b) h = absurd h
  reads_may n (netlink_rule_add r) h = absurd h
  reads_may n (netlink_rule_del r) h = absurd h
  reads_may n (netlink_route_add r) h = absurd h
  reads_may n (netlink_route_del r) h = absurd h
  reads_may n (netlink_neigh_add r) h = absurd h
  reads_may n (netlink_neigh_del r) h = absurd h
  reads_may n (sysctl_set a b) h = absurd h
  reads_may n (spider_add_route a b c d e f g) h = absurd h
  reads_may n (spider_add_static_neighbor_table a b c) h = absurd h
  reads_may n (setup_veth_with_name a b c d) h = absurd h
  reads_may n _ h = tt

  -- Whatever is configured and the outside answers, the veth plugin's cmdDel deletes on the host
  -- only links with every property that the links given for the host's name of the container have,
  -- changes nothing else, and ends in the host's namespace.
  pub cmd_del-Keeps : Keeps (DeletesOnly allowed) host (cmd_del env json args)
  unfolding cmd_del
  cmd_del-Keeps =
      >>=-Keeps (DeletesOnly allowed) host _ _
        (Keeps-mono ReadsOnly (DeletesOnly allowed) host _ (λ e h. reads_may e.ns e.call h)
          (load-Keeps env json args))
        λ conf. delete_host_veth-Keeps
