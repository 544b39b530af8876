-- ===== src/Plugin/Families.antt =====
-- What the loop over the previous result's addresses finds out.
use cni_plugins.Base.{
  ◌≡◌, refl, ◌⊎◌, inr, Bool, true, false, ◌&&◌, ◌||◌, not, List, [], ◌∷◌, if◌then◌else◌, exists,
  arith,
}
use cni_plugins.Base.Int.{ℤ, negsuc}
use cni_plugins.Net.{Ip, is_v4, family_all, family_v4, family_v6}
use cni_plugins.Plugin.{IpFamilies, families_loop, ip_families}

-- The family that netlink is asked for; -1 where there is no address.
abbrev pub family_of : Bool → Bool → ℤ
family_of a b =
    if a && b then family_all else if a then family_v4 else if b then family_v6 else negsuc 0

abbrev is_v6 : Ip → Bool
is_v6 ip = not (is_v4 ip)

-- The family is right, unless both kinds have been seen.
abbrev IsRight : IpFamilies → Type 0
IsRight f =
    ((f.enable_ipv4 && f.enable_ipv6) ≡ true) ⊎ (f.ipfamily ≡ family_of f.enable_ipv4 f.enable_ipv6)

IsRight-step :
    (f : IpFamilies) (ip : Ip)
    → IsRight f
    → IsRight (
        if is_v4 ip
        then record f { enable_ipv4 = true; ipfamily = family_v4 }
        else record f { enable_ipv6 = true; ipfamily = family_v6 })
IsRight-step f ip h = ground arith

families_loop_lem :
    (ips : List Ip) (f : IpFamilies)
    → IsRight f
    → let g = families_loop ips f in
      (g.enable_ipv4 ≡ (f.enable_ipv4 || exists is_v4 ips))
      × (g.enable_ipv6 ≡ (f.enable_ipv6 || exists is_v6 ips))
      × IsRight g
unfolding families_loop
families_loop_lem [] f h = (ground arith, ground arith, h)
families_loop_lem (ip ∷ ips) f h =
    let next : IpFamilies =
      if is_v4 ip
      then record f { enable_ipv4 = true; ipfamily = family_v4 }
      else record f { enable_ipv6 = true; ipfamily = family_v6 } in
    let a : next.enable_ipv4 ≡ (f.enable_ipv4 || is_v4 ip) = ground arith in
    let b : next.enable_ipv6 ≡ (f.enable_ipv6 || is_v6 ip) = ground arith in
    let c : IsRight next = IsRight-step f ip h in
    let k = families_loop_lem ips next c in (ground (arith, k.0, a), ground (arith, k.1, b), k.2)

-- Each family is enabled exactly if an address of it is there, and the family that is asked for is
-- both, the one that is there, or -1 for no address at all.
pub ip_families_lem :
    (ips : List Ip)
    → let f = ip_families ips in
      (f.enable_ipv4 ≡ exists is_v4 ips)
      × (f.enable_ipv6 ≡ exists (λ ip. not (is_v4 ip)) ips)
      × (f.ipfamily ≡ family_of (exists is_v4 ips) (exists (λ ip. not (is_v4 ip)) ips))
unfolding ip_families
ip_families_lem ips =
    let k =
      families_loop_lem ips
        (record { enable_ipv4 = false; enable_ipv6 = false; ipfamily = negsuc 0 }) (inr refl) in
    ground (arith, k.0, k.1, k.2)
