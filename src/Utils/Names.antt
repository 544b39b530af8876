-- ===== src/Utils/Names.antt =====
-- Interface names and rule tables of pkg/utils/utils.go: `GetRuleNumber`,
-- `GetDefaultRouteInterface` and `compareInterfaceName`, with `strconv.Atoi` and `%d`.
pub mod Decimal
pub mod Numbering
use cni_plugins.Base.{
  ℕ, zero, suc, Bool, true, false, ◌&&◌, ◌||◌, not, Option, none, some, List, [], ◌∷◌, ◌++◌,
}
use cni_plugins.Base.{if◌then◌else◌}
use cni_plugins.Base.Text.{Text, codes, same_text, text_ge, has_prefix, trim}
use cni_plugins.Base.Int.{ℤ, pos, negsuc, ◌+ℤ◌, ◌-ℤ◌, wrap_64}
use Decimal.{atoi, itoa}

abbrev pub default_interface_name : Text
default_interface_name = codes "eth0"

abbrev pub overlay_route_table : ℤ
overlay_route_table = pos 100

abbrev pub interface_prefix : Text
interface_prefix = codes "net"

-- `overlayRouteTable + num - 1`, or -1 where the name is not "net" and a number.
abbrev pub rule_number_of : Option ℤ → ℤ
rule_number_of none = negsuc 0
rule_number_of (some num) = wrap_64 (wrap_64 (overlay_route_table +ℤ num) -ℤ pos 1)

unfoldable pub get_rule_number : Text → ℤ
get_rule_number iface =
    if not (has_prefix iface (codes "net"))
    then negsuc 0
    else rule_number_of (atoi (trim iface (codes "net")))

abbrev pub previous_name : Option ℤ → Text
previous_name none = []
previous_name (some num) = codes "net" ++ itoa (wrap_64 (num -ℤ pos 1))

unfoldable pub get_default_route_interface : Text → Text
get_default_route_interface iface =
    if same_text iface (codes "net1")
    then default_interface_name
    else previous_name (atoi (trim iface (codes "net")))

unfoldable pub compare_interface_name : Text → Text → Bool
compare_interface_name current prev =
    if same_text prev default_interface_name
    then true
    else if not (has_prefix current interface_prefix) || not (has_prefix prev interface_prefix)
    then false
    else text_ge current prev
