-- ===== src/Veth/Setup/Exact.antt =====
-- Which routes `setupRoutes` adds, in which order, where the kernel accepts them.
use cni_plugins.Base.{
  ◌≡◌, refl, ℕ, List, [], ◌∷◌, ◌++◌, is_empty, if◌then◌else◌, Bool-cases, inl, inr,
}
use cni_plugins.Base.Text.{Text}
use cni_plugins.Base.Int.{ℤ}
use cni_plugins.Net.{Ip, IpNet, Addr, is_v4, rt_table_main, scope_link, scope_universe}
use cni_plugins.World.{
  World, Error, done, failed, fail, pure, Trace, Netns, host, pod, Call, Env, good, Returned, ok,
  err, enter_netns, spider_add_route, spider_get_gateway_ip, for_each, call, choose, try, ◌>>=◌,
}
use cni_plugins.World.Runs.{
  Runs, after, gather, pure-Runs, >>-Runs, wrap-Runs, for_each-Runs, do_netns-Runs, call-Runs,
}
use cni_plugins.World.Parsed.{
  subnet_result, subnet_result-cases, parsed_calls, for_each_parsed-Runs,
}
use cni_plugins.Veth.Pair.{default_con_veth}
use cni_plugins.Veth.Setup.{
  add_hijack_route, add_pod_routes, add_host_route, final_error, setup_routes,
}

-- The helper for routes takes every route.
abbrev pub AddsRoutes : Env → Type 0
AddsRoutes env =
    (t : Trace) (n : Netns) (table family : ℤ) (scope : ℕ) (name : Text) (dst : IpNet) (v4 v6 : Ip)
    → env.answer t n (spider_add_route table family scope name dst v4 v6) ≡ good tt

-- An error of the pod's part is the result only for a pod with no address.
abbrev pub reported : Returned (Unit {0}) → List Addr → Returned (Unit {0})
reported r [] = r
reported r (a ∷ ips) = ok tt

final_error_done :
    (env : Env) (ips : List Addr) (w : World)
    → final_error env (done tt) ips w ≡ (reported (ok tt) ips, w)
unfolding final_error pure
final_error_done env [] w = refl
final_error_done env (a ∷ ips) w = refl

final_error_failed :
    (env : Env) (e : Error) (ips : List Addr) (w : World)
    → final_error env (failed e) ips w ≡ (reported (err e) ips, w)
unfolding final_error pure fail
final_error_failed env e [] w = refl
final_error_failed env e (a ∷ ips) w = refl

module _ (env : Env) (table family : ℤ) where
  abbrev pub pod_call : Ip → List Call
  pod_call ip =
      spider_add_route table family scope_link default_con_veth (env.convert_max_mask_ip_net ip) []
        []
      ∷ []

  abbrev pub host_call : Text → Addr → List Call
  host_call name addr =
      spider_add_route rt_table_main family scope_link name (env.convert_max_mask_ip_net addr.ip) []
        []
      ∷ []

  -- A subnet is routed over the gateway of its family, if there is one.
  abbrev pub hijack_call : Ip → Ip → Ip × IpNet → List Call
  hijack_call v4 v6 p =
      if (if is_v4 p.0 then is_empty v4 else is_empty v6)
      then []
      else spider_add_route table family scope_universe default_con_veth p.1 v4 v6 ∷ []

  module _ (adds : AddsRoutes env) where
    add_route-Runs :
        (n : Netns) (t' : ℤ) (scope : ℕ) (name : Text) (dst : IpNet) (v4 v6 : Ip)
        → Runs n
            (call env (spider_add_route t' family scope name dst v4 v6))
            (spider_add_route t' family scope name dst v4 v6 ∷ [])
            (ok tt)
    add_route-Runs n t' scope name dst v4 v6 =
        call-Runs env n (spider_add_route t' family scope name dst v4 v6) tt
          (λ t. adds t n t' family scope name dst v4 v6)

    add_hijack_routes-Runs :
        (v4 v6 : Ip) (subnets : List Text)
        → Runs pod
            (for_each subnets (add_hijack_route env table family v4 v6))
            (parsed_calls env.parse_cidr (hijack_call v4 v6) subnets)
            (subnet_result env.parse_cidr subnets)
    unfolding add_hijack_route choose
    add_hijack_routes-Runs v4 v6 subnets =
        for_each_parsed-Runs env pod _ (hijack_call v4 v6)
          (λ p. elim (Bool-cases (if is_v4 p.0 then is_empty v4 else is_empty v6)) [
            | inl e ↦ rw (e, hijack_call) (pure-Runs pod tt)
            | inr e ↦
                rw (e, hijack_call)
                  (wrap-Runs pod _ _ _ (ok tt)
                    (add_route-Runs pod table scope_universe default_con_veth p.1 v4 v6))
          ])
          subnets

    add_pod_routes-after :
        (hosts : List Ip) (v4 v6 : Ip) (subnets : List Text) (t : Trace)
        → ((t : Trace) (n : Netns) → env.answer t n enter_netns ≡ good tt)
        → add_pod_routes env table family hosts v4 v6 subnets (record { ns = host; trace = t }) ≡ (
          subnet_result env.parse_cidr subnets,
          record {
            ns = host;
            trace =
                after pod
                  (gather pod_call hosts ++ parsed_calls env.parse_cidr (hijack_call v4 v6) subnets)
                  (after host (enter_netns ∷ []) t);
          },
        )
    unfolding add_pod_routes
    add_pod_routes-after hosts v4 v6 subnets t opens =
        do_netns-Runs env _ _ _ opens
          (>>-Runs pod _ _ _ _ (ok tt) _
            (for_each-Runs pod hosts _ pod_call (λ ip.
              wrap-Runs pod _ _ _ (ok tt)
                (add_route-Runs pod table scope_link default_con_veth _ [] [])))
            (add_hijack_routes-Runs v4 v6 subnets))
          t

    add_host_routes-Runs :
        (name : Text) (ips : List Addr)
        → Runs host
            (for_each ips (add_host_route env family name))
            (gather (host_call name) ips)
            (ok tt)
    unfolding add_host_route
    add_host_routes-Runs name ips = for_each-Runs host ips _ (host_call name) (λ ip.
        wrap-Runs host _ _ _ (ok tt) (add_route-Runs host rt_table_main scope_link name _ [] []))

    -- Where the pod can be entered, the gateways are found and routes are taken, setupRoutes first
    -- adds in the pod a route for each address of the host, and one for each subnet up to the first
    -- text that is none, over the gateway of its family where there is one, and then on the host a
    -- route for each address of the pod, in this order and nothing else; the error of a text that
    -- is no subnet is the result only where the pod has no address, and there is no error else.
    pub setup_routes-after :
        (name : Text) (hosts : List Ip) (ips : List Addr) (subnets : List Text) (v4 v6 : Ip)
        (t : Trace)
        → ((t : Trace) (n : Netns) → env.answer t n enter_netns ≡ good tt)
        → ((t : Trace) → env.answer t host (spider_get_gateway_ip ips) ≡ good (v4, v6))
        → setup_routes env table family name hosts ips subnets (record { ns = host; trace = t }) ≡ (
          reported (subnet_result env.parse_cidr subnets) ips,
          record {
            ns = host;
            trace = after host (gather (host_call name) ips) (
                after pod
                  (gather pod_call hosts ++ parsed_calls env.parse_cidr (hijack_call v4 v6) subnets)
                  (after host (spider_get_gateway_ip ips ∷ enter_netns ∷ []) t));
          },
        )
    unfolding setup_routes call try ◌>>=◌
    setup_routes-after name hosts ips subnets v4 v6 t opens gateways =
        rw (gateways t, add_pod_routes-after hosts v4 v6 subnets _ opens)
          (elim (subnet_result-cases env.parse_cidr subnets) [
            | inl e ↦ rw e (rw ((add_host_routes-Runs name ips).run _) (final_error_done env ips _))
            | inr (x, e) ↦
                rw e (rw ((add_host_routes-Runs name ips).run _) (final_error_failed env x ips _))
          ])
