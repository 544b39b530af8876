-- ===== src/Utils/Sysctl.antt =====
-- The kernel parameters of pkg/utils/utils.go: `SysctlRPFilter`, `setRPFilter`,
-- `EnableIpv6Sysctl`, and `CheckInterfaceMiss`.
pub mod Loops
pub mod Store
pub mod Writes
use cni_plugins.Base.{Bool, true, false, Option, ◌++◌, from_option}
use cni_plugins.Base.Text.{Text, codes, same_text}
use cni_plugins.Base.Int.{ℤ, pos}
use cni_plugins.World.{
  M, Env, errorf, ◌>>=◌, ◌>>◌, pure, fail, pass, choose, deref, wrap, Attempt, done, failed, try,
  message_folds_to, call, do_netns, for_each, read_dir, sysctl_get, sysctl_set,
  netlink_link_by_name,
}
use cni_plugins.Types.{RpFilter}
use cni_plugins.Utils.Names.Decimal.{itoa}

abbrev pub sysctl_conf_path_ipv4 : Text
sysctl_conf_path_ipv4 = codes "/proc/sys/net/ipv4/conf"

abbrev pub sysctl_conf_path_ipv6 : Text
sysctl_conf_path_ipv6 = codes "/proc/sys/net/ipv6/conf"

-- `fmt.Sprintf("/net/ipv4/conf/%s/rp_filter", dir)`
unfoldable pub rp_filter_name : Text → Text
rp_filter_name dir = codes "/net/ipv4/conf/" ++ (dir ++ codes "/rp_filter")

unfoldable pub disable_ipv6_name : Text → Text
disable_ipv6_name dir = codes "/net/ipv6/conf/" ++ (dir ++ codes "/disable_ipv6")

module _ (env : Env) where
  -- What a round of `setRPFilter` does with the value that it has read, or with the error.
  unfoldable pub write_rp_filter : Text → ℤ → Attempt Text → M Unit
  write_rp_filter name v (failed e) = pass
  write_rp_filter name v (done value) =
      choose (same_text value (itoa v)) pass (call env (sysctl_set name (itoa v)))

  unfoldable pub set_rp_filter : Option ℤ → M Unit
  set_rp_filter v = do
    dirs ← call env (read_dir sysctl_conf_path_ipv4)
    for_each dirs λ dir. do
      value ← try (call env (sysctl_get (rp_filter_name dir)))
      write_rp_filter (rp_filter_name dir) (from_option v (pos 0)) value

  -- The pointer to the configuration is followed without a test.
  unfoldable pub sysctl_rp_filter : Option RpFilter → M Unit
  sysctl_rp_filter config = do
    rp ← deref config
    choose (from_option rp.enable false)
        (wrap (errorf "failed to set rp_filter for host : %v") (set_rp_filter rp.value)) pass
    do_netns env (wrap (errorf "failed to set rp_filter for pod : %v") (set_rp_filter rp.value))

  unfoldable pub enable_ipv6_sysctl : M Unit
  enable_ipv6_sysctl = do_netns env do
    dirs ← call env (read_dir sysctl_conf_path_ipv6)
    for_each dirs λ dir. do
      value ←
          wrap (errorf "failed to read current sysctl %+v value: %v")
            (call env (sysctl_get (disable_ipv6_name dir)))
      choose (same_text value (codes "0")) pass (
          wrap (errorf "failed to read current sysctl %+v value: %v ")
            (call env (sysctl_set (disable_ipv6_name dir) (codes "0"))))

  -- True if the interface is missing in the pod, false if it is there.
  unfoldable pub check_interface_miss : Text → M Bool
  check_interface_miss iface = do
    link ← try (do_netns env (call env (netlink_link_by_name iface)))
    elim link [
      | done _ ↦ pure false
      | failed e ↦ choose (message_folds_to "link not found" e) (pure true) (fail e)
    ]
