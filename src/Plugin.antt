-- ===== src/Plugin.antt =====
-- What the two plugins share: the arguments of a command, the previous result, and the code that
-- stands in both mains.
pub mod Families
pub mod ReadsOnly
pub mod Quiet
pub mod Links
pub mod Accepts
pub mod Success
pub mod Starts
pub mod Boundary
pub mod Refuses
pub mod Effect
use cni_plugins.Base.{
  ℕ, Bool, true, false, ◌&&◌, not, Option, none, some, List, [], ◌∷◌, if◌then◌else◌, is_empty,
}
use cni_plugins.Base.Text.{Text, codes}
use cni_plugins.Base.Int.{ℤ, negsuc}
use cni_plugins.Net.{Ip, Addr, is_v4, family_all, family_v4, family_v6}
use cni_plugins.Types.{IpConflict}
use cni_plugins.World.{
  M, Env, Error, new, errorf, ◌>>=◌, ◌>>◌, pure, fail, pass, choose, wrap, call, do_netns,
  load_args, spider_get_all_ip_address,
}
use cni_plugins.Config.{Checked, valid, invalid}
use cni_plugins.Networking.{do_ip_conflict_checking}

-- `skel.CmdArgs`
pub record CmdArgs : Type 0 where
  pub container_id : Text
  pub netns : Text
  pub if_name : Text
  pub args : Text
  pub stdin_data : Text

-- `current.Result`, as far as it is read: the names of the interfaces, and the addresses.
pub record PrevResult : Type 0 where
  pub interfaces : List Text
  pub ips : List Ip

-- `enableIpv4`, `enableIpv6` and `ipfamily`
pub record IpFamilies : Type 0 where
  pub enable_ipv4 : Bool
  pub enable_ipv6 : Bool
  pub ipfamily : ℤ

abbrev no_families : IpFamilies
no_families = record { enable_ipv4 = false; enable_ipv6 = false; ipfamily = negsuc 0 }

-- The loop over the addresses of the previous result.
unfoldable pub families_loop : List Ip → IpFamilies → IpFamilies
families_loop [] f = f
families_loop (ip ∷ ips) f = families_loop ips (
    if is_v4 ip
    then record f { enable_ipv4 = true; ipfamily = family_v4 }
    else record f { enable_ipv6 = true; ipfamily = family_v6 })

unfoldable pub ip_families : List Ip → IpFamilies
unfolding families_loop
ip_families ips =
    let f = families_loop ips no_families in
    if f.enable_ipv4 && f.enable_ipv6 then record f { ipfamily = family_all } else f

-- A function of the configuration, run in a plugin.
unfoldable pub lift : {A : Type 0} → Checked A → M A
lift (valid a) = pure a
lift (invalid e) = fail e

-- `prevResult.Interfaces[0].Name`, which must be there and not empty.
unfoldable pub first_interface : List Text → M Text
first_interface [] = fail (new "failed to find interface from prevResult")
first_interface (name ∷ names) =
    choose (is_empty name) (fail (new "failed to find interface name from prevResult")) (pure name)

module _ (env : Env) where
  unfoldable pub load_k8s_args : CmdArgs → M Unit
  load_k8s_args args =
      wrap (errorf "failed to get pod information, error=%+v \n") (call env (load_args args.args))

  unfoldable pub check_conflict : Option IpConflict → Text → List Ip → M Unit
  check_conflict none if_name ips = pass
  check_conflict (some config) if_name ips =
      choose config.enabled (do_ip_conflict_checking env if_name ips config) pass

  unfoldable pub get_all_pod_ip : ℤ → M (List Addr)
  get_all_pod_ip ipfamily = do_netns env (
      wrap (errorf "failed to GetAllIPAddress in pod: %v")
        (call env (spider_get_all_ip_address ipfamily (codes "^lo$" ∷ []))))
