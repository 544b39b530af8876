-- ===== src/Utils/Routes/Migrate.antt =====
-- When `MigrateRoute` acts, and which errors it reports.
use cni_plugins.Base.{◌≡◌, ◌≢◌, refl, inl, inr, Bool, true, false, List, [], ◌∷◌, arith, Bool-cases}
use cni_plugins.Base.Text.{Text}
use cni_plugins.Base.Int.{ℤ, ◌==ℤ◌, ==ℤ_iff}
use cni_plugins.Net.{Addr, Route, family_v4, family_v6}
use cni_plugins.Constant.{err_route_file_exist}
use cni_plugins.World.{
  Trace, Netns, host, pod, netlink_route_add, netlink_route_del, netlink_rule_add, enter_netns, M,
  Env, good, bad, Foreign, err, foreign, errorf, ◌>>=◌, try, choose, wrap, ignoring, forgive,
  message_is, call, do_netns, for_each,
}
use cni_plugins.World.{pass, ◌>>◌}
use cni_plugins.World.Runs.{after}
use cni_plugins.Types.{MigrateRoute, migrate_auto, migrate_never, migrate_enable}
use cni_plugins.Utils.Names.{compare_interface_name, default_interface_name}
use cni_plugins.Utils.Rules.{add_from_rule_table, from_rule}
use cni_plugins.Utils.Routes.{migrate_route, move_own_route, move_route_table, is_default}

-- Every interface name passes the comparison with eth0.
pub compare_interface_name-default :
    (s : Text) → compare_interface_name s default_interface_name ≡ true
unfolding compare_interface_name
compare_interface_name-default s = refl

module _ (env : Env) (default_interface chained_interface : Text) (ips : List Addr)
    (table : ℤ) where
  -- Migration with the automatic setting, or any value but never, does exactly what the setting
  -- enable does, for every interface name.
  pub migrate_route_auto :
      (value : MigrateRoute) (enable_ipv4 enable_ipv6 : Bool)
      → value ≢ migrate_never
      → migrate_route env default_interface chained_interface ips value table enable_ipv4
          enable_ipv6
        ≡ migrate_route env default_interface chained_interface ips migrate_enable table enable_ipv4
            enable_ipv6
  unfolding migrate_route choose
  migrate_route_auto value enable_ipv4 enable_ipv6 h =
      let acts : (value ==ℤ migrate_never) ≡ false = ground (arith, ==ℤ_iff value migrate_never) in
      rw (acts, compare_interface_name-default)
        (elim (Bool-cases (value ==ℤ migrate_auto)) [ inl e ↦ rw e refl | inr e ↦ rw e refl ])

-- A refused rule ends the loop, and what follows goes on from there.
refused_rule :
    (env : Env) (ip : Addr) (ips : List Addr) (table : ℤ) (enable_ipv4 enable_ipv6 : Bool)
    (f : Foreign) (t : Trace) (k : M Unit)
    → env.answer t host enter_netns ≡ good tt
    → ((t : Trace) (n : Netns)
        → env.answer t n (netlink_rule_add (from_rule ip table enable_ipv4 enable_ipv6)) ≡ bad f)
    → (try (do_netns env (add_from_rule_table env (ip ∷ ips) table enable_ipv4 enable_ipv6)) >> k)
        (record { ns = host; trace = t })
      ≡ k (record {
        ns = host;
        trace =
            after pod
              (netlink_rule_add (from_rule ip table enable_ipv4 enable_ipv6) ∷ [])
              (after host (enter_netns ∷ []) t);
      })
unfolding ◌>>=◌ try do_netns call add_from_rule_table for_each
refused_rule env ip ips table enable_ipv4 enable_ipv6 f t k opens refuses =
    rw (opens, refuses _ pod) refl

-- Where the pod can be entered and the kernel refuses the first rule for a source, migration with
-- any value but never goes on with moving the routes as if nothing had failed: the error is lost.
pub migrate_route_lost_error :
    (env : Env) (default_interface chained_interface : Text) (ip : Addr) (ips : List Addr)
    (value : MigrateRoute) (table : ℤ) (enable_ipv4 enable_ipv6 : Bool) (f : Foreign) (t : Trace)
    → ((t : Trace) (n : Netns) → env.answer t n enter_netns ≡ good tt)
    → ((t : Trace) (n : Netns)
        → env.answer t n (netlink_rule_add (from_rule ip table enable_ipv4 enable_ipv6)) ≡ bad f)
    → value ≢ migrate_never
    → migrate_route env default_interface chained_interface
        (ip ∷ ips)
        value
        table
        enable_ipv4
        enable_ipv6
        (record { ns = host; trace = t })
      ≡ (choose enable_ipv4
              (do_netns env (move_route_table env default_interface table family_v4))
              pass
            >> choose enable_ipv6
                (do_netns env (move_route_table env default_interface table family_v6))
                pass)
          (record {
            ns = host;
            trace =
                after pod
                  (netlink_rule_add (from_rule ip table enable_ipv4 enable_ipv6) ∷ [])
                  (after host (enter_netns ∷ []) t);
          })
unfolding migrate_route choose
migrate_route_lost_error env default_interface chained_interface ip ips value table enable_ipv4
      enable_ipv6 f t opens refuses h =
    let acts : (value ==ℤ migrate_never) ≡ false = ground (arith, ==ℤ_iff value migrate_never) in
    rw (acts, compare_interface_name-default)
      (elim (Bool-cases (value ==ℤ migrate_auto)) [
        | inl e ↦
            rw e
              (refused_rule env ip ips table enable_ipv4 enable_ipv6 f t _ (opens t host) refuses)
        | inr e ↦
            rw e
              (refused_rule env ip ips table enable_ipv4 enable_ipv6 f t _ (opens t host) refuses)
      ])

module _ (env : Env) (table : ℤ) (r : Route) (f : Foreign) (n : Netns) (t : Trace) where
  -- Where the test takes a route for a default one, and the kernel deletes it and refuses its copy,
  -- other than by "file exists", these are the two calls, and the error is that of the second.
  pub move_own_route_refused :
      is_default r.dst ≡ true
      → ((t : Trace) → env.answer t n (netlink_route_del r) ≡ good tt)
      → ((t : Trace) → env.answer t n (netlink_route_add (record r { table = table })) ≡ bad f)
      → message_is err_route_file_exist (foreign f) ≡ false
      → move_own_route env table r (record { ns = n; trace = t }) ≡ (
        err (errorf "failed to add route (%+v) to new table: %+v" (foreign f)),
        record {
          ns = n;
          trace =
              after n (netlink_route_del r ∷ netlink_route_add (record r { table = table }) ∷ []) t;
        },
      )
  unfolding move_own_route choose ◌>>=◌ wrap ignoring call
  move_own_route_refused d deleted refused other = rw (d, deleted t, refused _, forgive, other) refl
