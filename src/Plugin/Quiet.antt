-- ===== src/Plugin/Quiet.antt =====
-- The parts of the plugins that change nothing of the kernel's networks.
use cni_plugins.Base.{Bool, Option, none, some, List, [], ◌∷◌}
use cni_plugins.Base.Text.{Text, codes}
use cni_plugins.Base.Int.{ℤ}
use cni_plugins.Net.{Ip}
use cni_plugins.Types.{IpConflict}
use cni_plugins.World.{
  Netns, pod, Env, interface_by_name, net_interfaces, spider_get_all_ip_address,
}
use cni_plugins.Utils.Sysctl.{check_interface_miss}
use cni_plugins.World.{netlink_link_by_name, init_file_logger, load_args}
use cni_plugins.Config.{Checked, valid, invalid}
use cni_plugins.Logging.{set_log_options}
use cni_plugins.Types.{LogOptions}
use cni_plugins.Plugin.{CmdArgs, first_interface, lift, load_k8s_args}
use cni_plugins.Base.{true, false}
use cni_plugins.World.Keeps.{
  Attempt-Keeps, try-Keeps, deref-Keeps, Keeps, keeps, >>=-Keeps, pure-Keeps, fail-Keeps,
  choose-Keeps, call-Keeps, wrap-Keeps, do_netns-Keeps, for_each-Keeps, or_fail-Keeps,
}
use cni_plugins.Utils.Addresses.{get_chained_interface_ips}
use cni_plugins.Networking.{do_ip_conflict_checking}
use cni_plugins.Plugin.{check_conflict, get_all_pod_ip}
use cni_plugins.Plugin.ReadsOnly.{ReadsOnly, chained_interfaces-Keeps, check_target-Keeps}

module _ (env : Env) (n : Netns) where
  do_ip_conflict_checking-Keeps :
      (iface : Text) (ips : List Ip) (c : IpConflict)
      → Keeps ReadsOnly n (do_ip_conflict_checking env iface ips c)
  unfolding do_ip_conflict_checking
  do_ip_conflict_checking-Keeps iface ips c =
      choose-Keeps ReadsOnly n _ _ _ (fail-Keeps ReadsOnly n _) (
        >>=-Keeps ReadsOnly n _ _ (or_fail-Keeps ReadsOnly n _ _) λ duration.
          do_netns-Keeps ReadsOnly n env _ tt (
            >>=-Keeps ReadsOnly pod _ _
              (wrap-Keeps ReadsOnly pod _ _
                (call-Keeps ReadsOnly pod env (interface_by_name iface) tt))
              λ ifi.
                for_each-Keeps ReadsOnly pod ips _
                  λ ip. check_target-Keeps env pod ifi c.retry duration _))

  -- Looking for address conflicts changes nothing of links, addresses, rules, routes, neighbours
  -- and parameters, whatever is received, and ends in the namespace where it began.
  pub check_conflict-Keeps :
      (c : Option IpConflict) (iface : Text) (ips : List Ip)
      → Keeps ReadsOnly n (check_conflict env c iface ips)
  unfolding check_conflict
  check_conflict-Keeps none iface ips = search keeps
  check_conflict-Keeps (some c) iface ips =
      choose-Keeps ReadsOnly n _ _ _ (do_ip_conflict_checking-Keeps iface ips c)
        (pure-Keeps ReadsOnly n tt)

  pub get_chained_interface_ips-Keeps :
      (a b : Bool) (iface : Text) → Keeps ReadsOnly n (get_chained_interface_ips env a b iface)
  unfolding get_chained_interface_ips
  get_chained_interface_ips-Keeps a b iface =
      >>=-Keeps ReadsOnly n _ _
        (do_netns-Keeps ReadsOnly n env _ tt (
          >>=-Keeps ReadsOnly pod _ _
            (wrap-Keeps ReadsOnly pod _ _ (call-Keeps ReadsOnly pod env net_interfaces tt))
            λ names. chained_interfaces-Keeps env pod a b iface names))
        λ ips. search keeps

  pub get_all_pod_ip-Keeps : (family : ℤ) → Keeps ReadsOnly n (get_all_pod_ip env family)
  unfolding get_all_pod_ip
  get_all_pod_ip-Keeps family = do_netns-Keeps ReadsOnly n env _ tt (
      wrap-Keeps ReadsOnly pod _ _
        (call-Keeps ReadsOnly pod env (spider_get_all_ip_address family (codes "^lo$" ∷ [])) tt))

  pub check_interface_miss-Keeps :
      (iface : Text) → Keeps ReadsOnly n (check_interface_miss env iface)
  unfolding check_interface_miss
  check_interface_miss-Keeps iface =
      >>=-Keeps ReadsOnly n _ _
        (try-Keeps ReadsOnly n _ (
          do_netns-Keeps ReadsOnly n env _ tt
            (call-Keeps ReadsOnly pod env (netlink_link_by_name iface) tt)))
        λ r.
          Attempt-Keeps ReadsOnly n r _ _ (λ _. pure-Keeps ReadsOnly n false)
            λ e.
              choose-Keeps ReadsOnly n _ _ _ (pure-Keeps ReadsOnly n true)
                (fail-Keeps ReadsOnly n e)

module _ (n : Netns) where
  pub lift-Keeps : {A : Type 0} (c : Checked A) → Keeps ReadsOnly n (lift c)
  unfolding lift
  lift-Keeps (valid a) = pure-Keeps ReadsOnly n a
  lift-Keeps (invalid e) = fail-Keeps ReadsOnly n e

  pub first_interface-Keeps : (names : List Text) → Keeps ReadsOnly n (first_interface names)
  unfolding first_interface
  first_interface-Keeps [] = fail-Keeps ReadsOnly n _
  first_interface-Keeps (name ∷ names) =
      choose-Keeps ReadsOnly n _ _ _ (fail-Keeps ReadsOnly n _) (pure-Keeps ReadsOnly n name)

module _ (env : Env) (n : Netns) where
  pub set_log_options-Keeps : (o : LogOptions) → Keeps ReadsOnly n (set_log_options env o)
  unfolding set_log_options
  set_log_options-Keeps o = >>=-Keeps ReadsOnly n _ _ (deref-Keeps ReadsOnly n _) λ _.
      >>=-Keeps ReadsOnly n _ _ (deref-Keeps ReadsOnly n _) λ _.
        >>=-Keeps ReadsOnly n _ _ (deref-Keeps ReadsOnly n _)
          λ _. call-Keeps ReadsOnly n env (init_file_logger _ _ _ _ _) tt

  pub load_k8s_args-Keeps : (args : CmdArgs) → Keeps ReadsOnly n (load_k8s_args env args)
  unfolding load_k8s_args
  load_k8s_args-Keeps args =
      wrap-Keeps ReadsOnly n _ _ (call-Keeps ReadsOnly n env (load_args _) tt)
