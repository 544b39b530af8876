-- ===== src/Plugin/Boundary.antt =====
-- What the code that both plugins run keeps, for every bound that permits what it does.
use cni_plugins.Base.{◌≡◌, Bool, true, Option, none, some, List}
use cni_plugins.Base.Text.{Text}
use cni_plugins.Base.Int.{ℤ}
use cni_plugins.Net.{Addr, Bytes, Link, Route, Rule, rt_table_main}
use cni_plugins.Net.Mac.{parse_mac_addr}
use cni_plugins.Types.{RpFilter, MigrateRoute}
use cni_plugins.World.{
  Event, Netns, host, pod, Call, M, Env, Attempt, done, failed, pure, crash, call, do_netns,
  netlink_link_set_hardware_addr, netlink_rule_add, netlink_route_add, netlink_route_del,
  netlink_link_by_name, netlink_route_list, enter_netns, sysctl_get, sysctl_set, read_dir,
}
use cni_plugins.World.Keeps.{
  Keeps, Keeps-mono, >>=-Keeps, pure-Keeps, crash-Keeps, choose-Keeps, call-Keeps, try-Keeps,
  wrap-Keeps, do_netns-Keeps, for_each-Keeps, or_fail-Keeps, deref-Keeps,
}
use cni_plugins.Plugin.Quiet.{get_chained_interface_ips-Keeps}
use cni_plugins.Plugin.ReadsOnly.{ReadsOnly}
use cni_plugins.Utils.Rules.{hijack_custom_subnet}
use cni_plugins.Utils.Rules.Safety.{AddsRules, IsHijack, hijack_custom_subnet-Keeps}
use cni_plugins.Utils.Routes.{migrate_route}
use cni_plugins.Utils.Routes.Safety.{MigratesTo, migrate_route-Keeps}
use cni_plugins.Utils.Sysctl.{sysctl_rp_filter, set_rp_filter, write_rp_filter, enable_ipv6_sysctl}
use cni_plugins.Utils.Neighbors.{parse_mac}
use cni_plugins.Utils.MacAddress.{overwrite_mac_address}

-- The bound permits reading, setting parameters, and, in the pod, adding rules and routes, deleting
-- routes of the main table and setting hardware addresses.
pub record Permits (P : Event → Type 0) : Type 0 where
  pub reads :
      (n : Netns) (c : Call)
      → ReadsOnly (record { ns = n; call = c })
      → P (record { ns = n; call = c })
  pub sysctl : (n : Netns) (name value : Text) → P (record { ns = n; call = sysctl_set name value })
  pub pod_rule : (r : Rule) → P (record { ns = pod; call = netlink_rule_add r })
  pub pod_route : (r : Route) → P (record { ns = pod; call = netlink_route_add r })
  pub pod_route_del :
      (r : Route) → r.table ≡ rt_table_main → P (record { ns = pod; call = netlink_route_del r })
  pub pod_mac :
      (l : Link) (hw : Bytes) → P (record { ns = pod; call = netlink_link_set_hardware_addr l hw })

module _ (P : Event → Type 0) (permits : Permits P) where
  by_call :
      (Q : Event → Type 0)
      → ((n : Netns) (c : Call) → Q (record { ns = n; call = c }) → P (record { ns = n; call = c }))
      → (e : Event) → Q e
      → P e
  by_call Q f e h = f e.ns e.call h

  in_pod :
      (n : Netns) (c : Call)
      → n ≡ pod
      → P (record { ns = pod; call = c })
      → P (record { ns = n; call = c })
  in_pod n c e h = rw e h

  rules_may :
      (allowed : Rule → Type 0) (n : Netns) (c : Call)
      → AddsRules allowed (record { ns = n; call = c })
      → P (record { ns = n; call = c })
  rules_may allowed n (netlink_rule_add r) h = in_pod n _ h.0 (permits.pod_rule r)
  rules_may allowed n enter_netns h = permits.reads n enter_netns tt
  rules_may allowed n _ h = absurd h

  migrates_may :
      (t : ℤ) (n : Netns) (c : Call)
      → MigratesTo t (record { ns = n; call = c })
      → P (record { ns = n; call = c })
  migrates_may t n (netlink_rule_add r) h = in_pod n _ h.0 (permits.pod_rule r)
  migrates_may t n (netlink_route_add r) h = in_pod n _ h.0 (permits.pod_route r)
  migrates_may t n (netlink_route_del r) h = in_pod n _ h.0 (permits.pod_route_del r h.1)
  migrates_may t n (netlink_link_by_name l) h = permits.reads n _ tt
  migrates_may t n (netlink_route_list l) h = permits.reads n _ tt
  migrates_may t n enter_netns h = permits.reads n _ tt
  migrates_may t n _ h = absurd h

  pub quiet-Keeps : (n : Netns) {A : Type 0} (m : M A) → Keeps ReadsOnly n m → Keeps P n m
  quiet-Keeps n m k = Keeps-mono ReadsOnly P n m (by_call ReadsOnly permits.reads) k

  pub parse_mac-Keeps : (n : Netns) (s : Text) → Keeps P n (parse_mac s)
  unfolding parse_mac
  parse_mac-Keeps n s = parsed (parse_mac_addr s)
    where
      parsed :
          (o : Option Bytes)
          → Keeps P n
              (elim o [ none ↦ crash {A = Bytes} "invalid MAC address" | some hw ↦ pure hw ])
      parsed none = crash-Keeps P n _
      parsed (some hw) = pure-Keeps P n hw

  module _ (env : Env) where
    -- A call that changes nothing.
    pub read-Keeps :
        (n : Netns) (c : Call) → ReadsOnly (record { ns = n; call = c }) → Keeps P n (call env c)
    read-Keeps n c h = call-Keeps P n env c (permits.reads n c h)

    pub inside-Keeps : {A : Type 0} (m : M A) → Keeps P pod m → Keeps P host (do_netns env m)
    inside-Keeps m k = do_netns-Keeps P host env m (permits.reads host enter_netns tt) k

    write_rp_filter-Keeps :
        (n : Netns) (name : Text) (v : ℤ) (r : Attempt Text)
        → Keeps P n (write_rp_filter env name v r)
    unfolding write_rp_filter
    write_rp_filter-Keeps n name v (failed e) = pure-Keeps P n tt
    write_rp_filter-Keeps n name v (done s) =
        choose-Keeps P n _ _ _ (pure-Keeps P n tt) (call-Keeps P n env _ (permits.sysctl n name _))

    set_rp_filter-Keeps : (n : Netns) (v : Option ℤ) → Keeps P n (set_rp_filter env v)
    unfolding set_rp_filter
    set_rp_filter-Keeps n v = >>=-Keeps P n _ _ (read-Keeps n (read_dir _) tt) λ dirs.
        for_each-Keeps P n dirs _ λ dir.
          >>=-Keeps P n _ _ (try-Keeps P n _ (read-Keeps n (sysctl_get _) tt))
            λ r. write_rp_filter-Keeps n _ _ r

    pub sysctl_rp_filter-Keeps : (c : Option RpFilter) → Keeps P host (sysctl_rp_filter env c)
    unfolding sysctl_rp_filter
    sysctl_rp_filter-Keeps c = >>=-Keeps P host _ _ (deref-Keeps P host c) λ rp.
        >>=-Keeps P host _ _
          (choose-Keeps P host _ _ _ (wrap-Keeps P host _ _ (set_rp_filter-Keeps host _))
            (pure-Keeps P host tt))
          λ _. inside-Keeps _ (wrap-Keeps P pod _ _ (set_rp_filter-Keeps pod _))

    pub enable_ipv6_sysctl-Keeps : Keeps P host (enable_ipv6_sysctl env)
    unfolding enable_ipv6_sysctl
    enable_ipv6_sysctl-Keeps = inside-Keeps _ (
        >>=-Keeps P pod _ _ (read-Keeps pod (read_dir _) tt) λ dirs.
          for_each-Keeps P pod dirs _ λ dir.
            >>=-Keeps P pod _ _ (wrap-Keeps P pod _ _ (read-Keeps pod (sysctl_get _) tt)) λ v.
              choose-Keeps P pod _ _ _ (pure-Keeps P pod tt)
                (wrap-Keeps P pod _ _ (call-Keeps P pod env _ (permits.sysctl pod _ _))))

    pub overwrite_mac_address-Keeps :
        (prefix iface : Text) → Keeps P host (overwrite_mac_address env prefix iface)
    unfolding overwrite_mac_address
    overwrite_mac_address-Keeps prefix iface =
        >>=-Keeps P host _ _
          (quiet-Keeps host _ (get_chained_interface_ips-Keeps env host true true iface))
          λ ips. >>=-Keeps P host _ _ (or_fail-Keeps P host _ _) λ addr.
            >>=-Keeps P host _ _ (or_fail-Keeps P host _ _) λ suffix.
              >>=-Keeps P host _ _
                (inside-Keeps _ (
                  >>=-Keeps P pod _ _ (read-Keeps pod (netlink_link_by_name iface) tt) λ link.
                    >>=-Keeps P pod _ _ (parse_mac-Keeps pod _)
                      λ hw. call-Keeps P pod env _ (permits.pod_mac link hw)))
                λ _. pure-Keeps P host _

    pub hijack-Keeps :
        (service overlay additional : List Text) (ips : List Addr) (t : ℤ) (a b : Bool)
        → Keeps P host (hijack_custom_subnet env service overlay additional ips t a b)
    hijack-Keeps service overlay additional ips t a b =
        Keeps-mono (AddsRules (IsHijack t a b)) P host _
          (by_call (AddsRules (IsHijack t a b)) (rules_may (IsHijack t a b)))
          (hijack_custom_subnet-Keeps t a b env service overlay additional ips)

    pub migrate-Keeps :
        (iface chained : Text) (ips : List Addr) (v : MigrateRoute) (t : ℤ) (a b : Bool)
        → Keeps P host (migrate_route env iface chained ips v t a b)
    migrate-Keeps iface chained ips v t a b =
        Keeps-mono (MigratesTo t) P host _ (by_call (MigratesTo t) (migrates_may t))
          (migrate_route-Keeps env t iface chained ips v a b)
