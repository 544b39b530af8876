-- ===== src/Utils/Addresses.antt =====
-- The addresses of interfaces in pkg/utils/utils.go: `GetHostIps` and `GetChainedInterfaceIps`.
pub mod Wanted
pub mod Selected
use mathlib.Core.List.{reverse}
use cni_plugins.Base.{
  Bool, false, ◌||◌, not, none, some, List, [], ◌∷◌, ◌++◌, if◌then◌else◌, is_empty, exists,
}
use cni_plugins.Base.Text.{Text, codes, same_text, has_prefix}
use cni_plugins.Net.{Ip, is_v4, is_multicast, is_link_local_unicast}
use cni_plugins.World.{
  M, Env, new, errorf, fail, ◌>>=◌, pure, choose, wrap, call, do_netns, parse_cidr, net_interfaces,
  interface_addrs,
}

-- An unanchored search for a pattern "word.*" or "word" is a search for the word.
abbrev pub contains_text : Text → Text → Bool
contains_text [] word = is_empty word
contains_text (c ∷ s) word = has_prefix (c ∷ s) word || contains_text s word

-- The words of `DefaultInterfacesToExclude`.
abbrev pub excluded_words : List Text
excluded_words =
    codes "docker"
    ∷ codes "cbr"
    ∷ codes "dummy"
    ∷ codes "virbr"
    ∷ codes "lxcbr"
    ∷ codes "veth"
    ∷ codes "lo"
    ∷ codes "cali"
    ∷ codes "tunl"
    ∷ codes "flannel"
    ∷ codes "kube-ipvs"
    ∷ codes "cni"
    ∷ []

unfoldable pub is_excluded : Text → Bool
is_excluded name = exists (contains_text name) excluded_words

-- An address that is taken: no multicast or link-local one, of an enabled family.
unfoldable pub is_wanted : Ip → Bool → Bool → Bool
is_wanted ip enable_ipv4 enable_ipv6 =
    if is_multicast ip || is_link_local_unicast ip
    then false
    else if is_v4 ip
    then enable_ipv4
    else enable_ipv6

module _ (env : Env) (enable_ipv4 enable_ipv6 : Bool) where
  -- `GetHostIps` passes over what is no address.
  unfoldable pub host_addrs : List Text → List Text → List Text
  host_addrs [] ips = ips
  host_addrs (addr ∷ addrs) ips = host_addrs addrs (elim (env.parse_cidr addr) [
    | none ↦ ips
    | some p ↦ if is_wanted p.0 enable_ipv4 enable_ipv6 then ips ++ addr ∷ [] else ips
  ])

  unfoldable pub host_ips_loop : List Text → List Text → M (List Text)
  host_ips_loop [] ips = pure ips
  host_ips_loop (name ∷ names) ips =
      choose (is_excluded name) (host_ips_loop names ips)
        do addrs ← call env (interface_addrs name); host_ips_loop names (host_addrs addrs ips)

  -- The interfaces are gone through from the last to the first.
  unfoldable pub get_host_ips : M (List Text)
  unfolding host_ips_loop
  get_host_ips = do
    names ← call env net_interfaces
    ips ← host_ips_loop (reverse names) []
    choose (is_empty ips) (fail (new "no one vaild ip on the node")) (pure ips)

  unfoldable pub chained_addrs : List Text → List Text → M (List Text)
  chained_addrs [] ips = pure ips
  chained_addrs (addr ∷ addrs) ips = do
    p ← wrap (errorf "failed to parse cidr %s: %v") (parse_cidr env addr)
    chained_addrs addrs (if is_wanted p.0 enable_ipv4 enable_ipv6 then ips ++ addr ∷ [] else ips)

  -- The first interface of the name, and no other.
  unfoldable pub chained_interfaces : Text → List Text → M (List Text)
  unfolding chained_addrs
  chained_interfaces iface [] = pure []
  chained_interfaces iface (name ∷ names) =
      choose (not (same_text name iface)) (chained_interfaces iface names) do
        addrs ←
            wrap (errorf "failed to list all address for interface %s: %v")
              (call env (interface_addrs name))
        chained_addrs addrs []

  unfoldable pub get_chained_interface_ips : Text → M (List Text)
  unfolding chained_interfaces
  get_chained_interface_ips iface = do
    ips ← do_netns env do
      names ← wrap (errorf "failed to list container interfaces: %v") (call env net_interfaces)
      chained_interfaces iface names
    choose (is_empty ips) (fail (new "no one vaild ip on the pod")) (pure ips)
