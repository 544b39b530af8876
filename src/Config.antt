-- ===== src/Config.antt =====
-- pkg/config/config.go: the validation of the plugins' configuration. A pointer that the code
-- changes in place and returns is a value that is returned; no other reference to it is used.
pub mod Filled
pub mod Laws
use cni_plugins.Base.{
  ℕ, Bool, true, false, ◌&&◌, ◌||◌, not, Option, none, some, List, [], ◌∷◌, ◌++◌, if◌then◌else◌,
  is_empty, is_some, exists, map, from_option, ◌==◌,
}
use cni_plugins.Base.Text.{Text, codes, trim_space}
use cni_plugins.Base.Int.{ℤ, pos, negsuc, ◌==ℤ◌, is_negative}
use cni_plugins.Net.{Ip, IpNet}
use cni_plugins.Net.Mac.{hex_value}
use cni_plugins.Types.{
  RpFilter, MigrateRoute, migrate_auto, migrate_never, migrate_enable, IpConflict,
}
use cni_plugins.World.{Error, new}

-- `(T, error)` of a function that calls nothing outside.
pub data Checked (A : Type 0) : Type 0 where
  valid : A → Checked A
  invalid : Error → Checked A

infixl 5 ◌>>=◌ ◌>>◌
abbrev pub ◌>>=◌ : {A B : Type 0} → Checked A → (A → Checked B) → Checked B
valid a >>= f = f a
invalid e >>= f = invalid e

abbrev pub ◌>>◌ : {B : Type 0} → Checked (Unit {0}) → Checked B → Checked B
m >> k = m >>= λ _. k

abbrev pub reject_if : Bool → Error → Checked (Unit {0})
reject_if false e = valid tt
reject_if true e = invalid e

abbrev is_rp_value : ℤ → Bool
is_rp_value v = v ==ℤ pos 0 || v ==ℤ pos 1 || v ==ℤ pos 2

abbrev rp_value : Option ℤ → Option ℤ
rp_value none = some (pos 2)
rp_value (some v) = if is_rp_value v then some v else some (pos 2)

unfoldable pub validate_rp_filter_config : Option RpFilter → RpFilter
validate_rp_filter_config none = record { enable = some true; value = some (pos 2) }
validate_rp_filter_config (some config) =
    if from_option config.enable false
    then record config { value = rp_value config.value }
    else config

unfoldable pub validate_migrate_route_config : Option MigrateRoute → MigrateRoute
validate_migrate_route_config none = negsuc 0
validate_migrate_route_config (some given) =
    if given ==ℤ migrate_auto || given ==ℤ migrate_never || given ==ℤ migrate_enable
    then given
    else negsuc 0

module _ (parse_cidr : Text → Option (Ip × IpNet)) where
  -- `validateRoutes` and its exported caller have one name in Go, but for the capital.
  unfoldable pub check_subnets : List Text → Checked (Unit {0})
  check_subnets [] = valid tt
  check_subnets (route ∷ routes) = elim (parse_cidr route) [
    | none ↦ invalid (new "invalid CIDR address")
    | some _ ↦ check_subnets routes
  ]

  unfoldable pub validate_subnets : List Text → Checked (List Text)
  validate_subnets routes = do check_subnets (map trim_space routes); valid (map trim_space routes)

  unfoldable pub validate_routes : List Text → List Text → Checked (List Text × List Text)
  unfolding validate_subnets
  validate_routes overlay_subnet service_subnet = do
    reject_if (is_empty overlay_subnet)
        (new "the subnet of overlay cni(such as calico or cilium) must be given")
    reject_if (is_empty service_subnet) (new "the subnet of service clusterip must be given")
    ovl_subnet ← validate_subnets overlay_subnet
    svc_subnet ← validate_subnets service_subnet
    valid (ovl_subnet, svc_subnet)

abbrev is_hex : ℕ → Bool
is_hex c = is_some (hex_value c)

-- The match of "^([a-fA-F0-9]{2}[:-][a-fA-F0-9]{2})$"
unfoldable pub matches_mac_prefix : Text → Bool
matches_mac_prefix (h ∷ l ∷ sep ∷ k ∷ m ∷ []) =
    is_hex h && is_hex l && (sep == b':' || sep == b'-') && is_hex k && is_hex m
matches_mac_prefix _ = false

unfoldable pub validate_overwrite_mac_address : Text → Checked (Unit {0})
unfolding matches_mac_prefix
validate_overwrite_mac_address prefix =
    if is_empty prefix
    then valid tt
    else if not (matches_mac_prefix prefix)
    then invalid (
        new
          "mac_prefix format should be match regex: [a-fA-F0-9]{2}[:][a-fA-F0-9]{2}, like '0a:1b'")
    else valid tt

abbrev or_interval : Text → Text
or_interval interval = if is_empty interval then codes "1s" else interval

abbrev or_retry : ℤ → ℤ
or_retry retry = if is_negative retry || retry ==ℤ pos 0 then pos 3 else retry

unfoldable pub validate_ip_conflict : Option IpConflict → Option IpConflict
validate_ip_conflict none = none
validate_ip_conflict (some config) =
    if config.enabled
    then some
        (record config { interval = or_interval config.interval; retry = or_retry config.retry })
    else some config
