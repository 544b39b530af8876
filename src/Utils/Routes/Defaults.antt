-- ===== src/Utils/Routes/Defaults.antt =====
-- What the test for a default route in `moveRouteTable` comes to: of the routes that netlink lists,
-- the IPv4 default ones have no destination or 0.0.0.0, and the IPv6 ones have the destination ::/0.
use cni_plugins.Base.{
  ◌≡◌, ◌↔◌, refl, ◌⊎◌, inl, inr, true, false, Option, none, some, [], ◌∷◌, ◌==◌, Bool-cases,
  replicate, length,
}
use cni_plugins.Base.Text.{eq_of_same_text}
use cni_plugins.Net.{Ip, IpNet, ip_equal, ipv4_zero}
use cni_plugins.Utils.Routes.{is_default}

-- No destination, or one at 0.0.0.0, in four bytes or in sixteen.
abbrev pub IsIpv4Default : Option IpNet → Type 0
IsIpv4Default none = Unit
IsIpv4Default (some n) =
    (n.ip ≡ 0 ∷ 0 ∷ 0 ∷ 0 ∷ [])
    ⊎ (n.ip ≡ 0 ∷ 0 ∷ 0 ∷ 0 ∷ 0 ∷ 0 ∷ 0 ∷ 0 ∷ 0 ∷ 0 ∷ 255 ∷ 255 ∷ 0 ∷ 0 ∷ 0 ∷ 0 ∷ [])

-- ::/0
abbrev pub ipv6_default : Option IpNet
ipv6_default = some (record { ip = replicate 16 0; mask = replicate 16 0 })

zero_iff :
    (a : Ip)
    → ip_equal a ipv4_zero ≡ true ↔ (
        (a ≡ 0 ∷ 0 ∷ 0 ∷ 0 ∷ [])
        ⊎ (a ≡ 0 ∷ 0 ∷ 0 ∷ 0 ∷ 0 ∷ 0 ∷ 0 ∷ 0 ∷ 0 ∷ 0 ∷ 255 ∷ 255 ∷ 0 ∷ 0 ∷ 0 ∷ 0 ∷ []))
unfolding ip_equal
zero_iff a = (
  λ h. elim (Bool-cases (length a == 16)) [
    | inl e ↦ inr (eq_of_same_text a ipv4_zero (rw e at h))
    | inr e ↦ elim (Bool-cases (length a == 4)) [
      | inl f ↦ inl (eq_of_same_text a (0 ∷ 0 ∷ 0 ∷ 0 ∷ []) (rw f at (rw e at h)))
      | inr f ↦ let k : false ≡ true = rw f at (rw e at h) in absurd (cc)
    ]
  ],
  λ h. elim h [ inl e ↦ rw e refl | inr e ↦ rw e refl ],
)

pub is_default_iff : (dst : Option IpNet) → is_default dst ≡ true ↔ IsIpv4Default dst
unfolding is_default
is_default_iff none = (λ h. tt, λ h. refl)
is_default_iff (some n) = zero_iff n.ip

pub not_default : (dst : Option IpNet) → is_default dst ≡ false → ¬ IsIpv4Default dst
not_default dst e h = let k = (is_default_iff dst).1 h in absurd (cc)

pub ipv6_default-stays : ¬ IsIpv4Default ipv6_default
unfolding is_default ip_equal
ipv6_default-stays h = not_default ipv6_default refl h
