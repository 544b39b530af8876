-- ===== src/Utils/Rules/Exact.antt =====
-- Which rules are added, in which order, where the kernel accepts them.
use cni_plugins.Base.{◌≡◌, refl, Bool, Option, none, some, List, [], ◌∷◌}
use cni_plugins.Base.Text.{Text}
use cni_plugins.Base.Int.{negsuc, ℤ}
use cni_plugins.Net.{Ip, IpNet, Addr, Rule}
use cni_plugins.Constant.{err_route_file_exist}
use cni_plugins.World.{
  Trace, Netns, Call, netlink_rule_add, Env, ok, call, forgive, returned, message_folds_to,
}
use cni_plugins.World.Runs.{Runs, gather, pure-Runs, wrap-Runs, ignoring-Runs, for_each-Runs}
use cni_plugins.World.Parsed.{subnet_result, parsed_calls, for_each_parsed-Runs}
use cni_plugins.Utils.Rules.{matched_family, dst_rule, add_dst_rule, rule_add, to_rule_add}

-- A rule is added, or its addition fails because it is there: the message is "file exists" in any
-- case of letters.
abbrev pub AcceptsRules : Env → Type 0
AcceptsRules env =
    (t : Trace) (n : Netns) (r : Rule)
    → forgive (message_folds_to err_route_file_exist)
        (returned (env.answer t n (netlink_rule_add r)))
      ≡ ok tt

-- What `rule_add` has to do, as data: the rules for the subnets of enabled families up to the first
-- text that is no subnet, and the error for that one.
abbrev pub dst_calls : IpNet → ℤ → Option ℤ → List Call
dst_calls dst table none = []
dst_calls dst table (some family) =
    netlink_rule_add
      (record { src = none; dst = some dst; family = family; table = table; priority = negsuc 0 })
    ∷ []

module _ (table : ℤ) (enable_ipv4 enable_ipv6 : Bool) where
  abbrev pub addr_calls : IpNet → List Call
  addr_calls dst = dst_calls dst table (matched_family dst.ip enable_ipv4 enable_ipv6)

module _ (parse : Text → Option (Ip × IpNet)) (table : ℤ) (enable_ipv4 enable_ipv6 : Bool) where
  abbrev pub subnet_calls : List Text → List Call
  subnet_calls = parsed_calls parse (λ p. addr_calls table enable_ipv4 enable_ipv6 p.1)

module _ (env : Env) (accepts : AcceptsRules env) (table : ℤ) (enable_ipv4 enable_ipv6 : Bool)
    (n : Netns) where
  add_dst_rule-Runs :
      (dst : IpNet) (o : Option ℤ)
      → Runs n (add_dst_rule env dst table o) (dst_calls dst table o) (ok tt)
  unfolding add_dst_rule dst_rule call
  add_dst_rule-Runs dst none = pure-Runs n tt
  add_dst_rule-Runs dst (some family) = wrap-Runs n _ _ _ (ok tt) (
      ignoring-Runs n _ _ (netlink_rule_add (dst_rule dst family table))
        (λ t. env.answer t n (netlink_rule_add (dst_rule dst family table))) (λ t. refl)
        (λ t. accepts t n _))

  pub to_rule_add-Runs :
      (ips : List Addr)
      → Runs n
          (to_rule_add env ips table enable_ipv4 enable_ipv6)
          (gather (addr_calls table enable_ipv4 enable_ipv6) ips)
          (ok tt)
  unfolding to_rule_add
  to_rule_add-Runs ips = for_each-Runs n ips _ _ (λ ip. add_dst_rule-Runs ip _)

  pub rule_add-Runs :
      (routes : List Text)
      → Runs n
          (rule_add env routes table enable_ipv4 enable_ipv6)
          (subnet_calls env.parse_cidr table enable_ipv4 enable_ipv6 routes)
          (subnet_result env.parse_cidr routes)
  unfolding rule_add
  rule_add-Runs routes = for_each_parsed-Runs env n _ _ (λ p. add_dst_rule-Runs p.1 _) routes
