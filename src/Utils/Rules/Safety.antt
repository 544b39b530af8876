-- ===== src/Utils/Rules/Safety.antt =====
-- What the functions on rules can do to the kernel, whatever it answers.
use cni_plugins.Base.{◌≡◌, ◌≢◌, refl, ◌⊎◌, Bool, true, Option, none, some, List, arith}
use cni_plugins.Base.Text.{Text}
use cni_plugins.Base.Int.{ℤ}
use cni_plugins.Net.{Ip, IpNet, Addr, Rule, family_v4, family_v6}
use cni_plugins.World.{Event, host, pod, netlink_rule_add, enter_netns, Env, call}
use cni_plugins.World.Keeps.{Keeps, keeps, for_each-Keeps, call-Keeps}
use cni_plugins.Utils.Rules.{
  matched_family, dst_rule, from_rule, add_dst_rule, rule_add, to_rule_add, add_from_rule_table,
  hijack_custom_subnet,
}

-- A rule for destinations in the given table, for a family that is enabled.
abbrev pub IsHijack : ℤ → Bool → Bool → Rule → Type 0
IsHijack table enable_ipv4 enable_ipv6 r =
    (r.table ≡ table)
    × (r.src ≡ none)
    × (((r.family ≡ family_v4) × (enable_ipv4 ≡ true))
        ⊎ ((r.family ≡ family_v6) × (enable_ipv6 ≡ true)))

-- The only calls are the given rules' additions in the pod's namespace, and entering it.
abbrev pub AddsRules : (Rule → Type 0) → Event → Type 0
AddsRules ok e = elim e.call [
  | netlink_rule_add r ↦ (e.ns ≡ pod) × ok r
  | enter_netns ↦ Unit
  | _ ↦ ⊥
]

pub netlink_rule_add-Keeps :
    (allowed : Rule → Type 0) (env : Env) (r : Rule)
    → allowed r
    → Keeps (AddsRules allowed) pod (call env (netlink_rule_add r))
netlink_rule_add-Keeps allowed env r h =
    call-Keeps (AddsRules allowed) pod env (netlink_rule_add r) (refl, h)

module _ (table : ℤ) (enable_ipv4 enable_ipv6 : Bool) (env : Env) where
  dst_rule-IsHijack :
      (dst : IpNet) (ip : Ip) (family : ℤ)
      → matched_family ip enable_ipv4 enable_ipv6 ≡ some family
      → IsHijack table enable_ipv4 enable_ipv6 (dst_rule dst family table)
  unfolding dst_rule matched_family
  dst_rule-IsHijack dst ip family h = ground arith

  add_dst_rule-Keeps :
      (dst : IpNet) (ip : Ip) (o : Option ℤ)
      → matched_family ip enable_ipv4 enable_ipv6 ≡ o
      → Keeps
          (AddsRules (IsHijack table enable_ipv4 enable_ipv6))
          pod
          (add_dst_rule env dst table o)
  unfolding add_dst_rule
  add_dst_rule-Keeps dst ip none h = search keeps
  add_dst_rule-Keeps dst ip (some family) h =
      search (keeps, netlink_rule_add-Keeps, dst_rule-IsHijack dst ip family h)

  pub rule_add-Keeps :
      (routes : List Text)
      → Keeps
          (AddsRules (IsHijack table enable_ipv4 enable_ipv6))
          pod
          (rule_add env routes table enable_ipv4 enable_ipv6)
  unfolding rule_add
  rule_add-Keeps routes = search (keeps, λ (dst : IpNet). add_dst_rule-Keeps dst dst.ip _ refl)

  pub to_rule_add-Keeps :
      (routes : List Addr)
      → Keeps
          (AddsRules (IsHijack table enable_ipv4 enable_ipv6))
          pod
          (to_rule_add env routes table enable_ipv4 enable_ipv6)
  unfolding to_rule_add
  to_rule_add-Keeps routes = search (keeps, λ (dst : IpNet). add_dst_rule-Keeps dst dst.ip _ refl)

  -- Whatever the outside answers, hijacking subnets only adds rules for destinations in the pod, in
  -- the given table and for an enabled family, and leaves the host's namespace current.
  pub hijack_custom_subnet-Keeps :
      (service overlay additional : List Text) (ips : List Addr)
      → Keeps
          (AddsRules (IsHijack table enable_ipv4 enable_ipv6))
          host
          (hijack_custom_subnet env service overlay additional ips table enable_ipv4 enable_ipv6)
  unfolding hijack_custom_subnet
  hijack_custom_subnet-Keeps service overlay additional ips =
      search (keeps, rule_add-Keeps, to_rule_add-Keeps)

-- A rule for packets from an address, in the given table.
abbrev pub IsFrom : ℤ → Rule → Type 0
IsFrom table r = (r.table ≡ table) × (r.dst ≡ none) × (r.src ≢ none)

pub add_from_rule_table-Keeps :
    (table : ℤ) (enable_ipv4 enable_ipv6 : Bool) (env : Env) (ips : List Addr)
    → Keeps
        (AddsRules (IsFrom table))
        pod
        (add_from_rule_table env ips table enable_ipv4 enable_ipv6)
unfolding add_from_rule_table from_rule
add_from_rule_table-Keeps table enable_ipv4 enable_ipv6 env ips =
    for_each-Keeps (AddsRules (IsFrom table)) pod ips _
      λ ip. netlink_rule_add-Keeps (IsFrom table) env _ (refl, refl, λ h. cc)
