-- ===== src/Utils/MacAddress.antt =====
-- `OverwriteMacAddress`, `inetAton` and `convertHex2Mac` of pkg/utils/utils.go.
pub mod Overwrite
pub mod Suffix
use cni_plugins.Base.{
  ℕ, zero, suc, ◌/◌, ◌%◌, ◌*◌, Bool, true, false, Option, none, some, List, [], ◌∷◌, ◌++◌, ◌==◌,
  if◌then◌else◌, length, drop, replicate,
}
use cni_plugins.Base.Text.{Text, codes}
use cni_plugins.Net.{Ip, Bytes}
use cni_plugins.Net.Mac.{hex_digit}
use cni_plugins.World.{
  M, Env, new, errorf, ◌>>=◌, ◌>>◌, pure, fail, or_fail, call, do_netns, netlink_link_by_name,
  netlink_link_set_hardware_addr,
}
use cni_plugins.Utils.Addresses.{get_chained_interface_ips}
use cni_plugins.Utils.Neighbors.{parse_mac}

-- `big.Int.SetBytes` and `Bytes`: the bytes of a number have no leading zero.
abbrev pub strip_zeros : Bytes → Bytes
strip_zeros [] = []
strip_zeros (b ∷ s) = let rest = strip_zeros s in if b == 0 then rest else b ∷ s

-- `hex.Encode`
abbrev pub hex_encode : Bytes → Bytes
hex_encode [] = []
hex_encode (b ∷ s) = hex_digit (b / 16) ∷ hex_digit (b % 16) ∷ hex_encode s

-- The bytes of a buffer of the given length after `src` has been written to its front.
abbrev pub write_front : ℕ → Bytes → Bytes
write_front zero src = []
write_front (suc n) [] = 0 ∷ write_front n []
write_front (suc n) (b ∷ src) = b ∷ write_front n src

-- The first `n` matches of ".{2}", joined by ":". No byte of the code is a line feed.
unfoldable pub join_pairs : ℕ → Bytes → Text
join_pairs (suc zero) (a ∷ b ∷ s) = a ∷ b ∷ []
join_pairs (suc (suc n)) (a ∷ b ∷ []) = a ∷ b ∷ []
join_pairs (suc (suc n)) (a ∷ b ∷ c ∷ []) = a ∷ b ∷ []
join_pairs (suc (suc n)) (a ∷ b ∷ c ∷ d ∷ s) = a ∷ b ∷ b':' ∷ join_pairs (suc n) (c ∷ d ∷ s)
join_pairs _ _ = []

unfoldable pub convert_hex_2_mac : Bytes → Text
unfolding join_pairs
convert_hex_2_mac hex_code = join_pairs 4 hex_code

-- `hexCode` holds two bytes for each bit of the address: `hex.EncodedLen(ip.BitLen())`.
unfoldable pub inet_aton : Ip → Option Text
unfolding convert_hex_2_mac
inet_aton [] = none
inet_aton (b ∷ s) =
    let bits = 8 * length (b ∷ s) in
    let hex_code = write_front (2 * bits) (hex_encode (strip_zeros (b ∷ s))) in
    if length (b ∷ s) == 16
    then some (convert_hex_2_mac (drop 24 hex_code))
    else some (convert_hex_2_mac hex_code)

-- The first entry; the list is not empty where it is read.
abbrev first_text : List Text → Text
first_text [] = []
first_text (s ∷ l) = s

module _ (env : Env) where
  unfoldable pub overwrite_mac_address : Text → Text → M Text
  overwrite_mac_address mac_prefix iface = do
    ips ← get_chained_interface_ips env true true iface
    addr ← or_fail (env.parse_prefix (first_text ips)) (new "netip.ParsePrefix")
    suffix ← or_fail (inet_aton addr) (new "invalid ip address")
    let new_mac = mac_prefix ++ (codes ":" ++ suffix)
    do_netns env do
      link ← call env (netlink_link_by_name iface)
      hw ← parse_mac new_mac
      call env (netlink_link_set_hardware_addr link hw)
    pure new_mac
