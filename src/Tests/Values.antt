-- ===== src/Tests/Values.antt =====
-- The theorems on the configuration, names, numbers and hardware addresses, at work.
use cni_plugins.Base.{◌≡◌, ◌↔◌, ◌++◌, refl, false, none, some, List, [], ◌∷◌, is_empty, map, arith}
use cni_plugins.Base.Text.{Text, codes, trim_space}
use cni_plugins.Base.Int.{pos}
use cni_plugins.Net.Mac.{parse_mac_addr}
use cni_plugins.Types.{LogOptions}
use cni_plugins.Config.{valid, validate_routes, validate_overwrite_mac_address}
use cni_plugins.Config.Laws.{AreSubnets, validate_routes_iff, validate_overwrite_mac_address_dash}
use cni_plugins.Utils.MacAddress.{inet_aton}
use cni_plugins.Utils.MacAddress.Suffix.{parse_mac_addr-inet_aton_zero}
use cni_plugins.Utils.Names.{get_rule_number}
use cni_plugins.Utils.Names.Decimal.{itoa}
use cni_plugins.Utils.Names.Numbering.{get_rule_number-net_name}
use cni_plugins.Tests.Fixtures.{parse_three}

abbrev padded : List Text
padded = codes " 10.233.64.0/18 " ∷ []

abbrev clean : List Text
clean = codes "10.233.64.0/18" ∷ []

validate_routes_iff_example : (validate_routes parse_three padded clean ≡ valid (clean, clean)) ↔ (
    (is_empty padded ≡ false)
    × (is_empty clean ≡ false)
    × AreSubnets parse_three clean
    × AreSubnets parse_three clean
    × (clean ≡ map trim_space padded)
    × (clean ≡ map trim_space clean))
validate_routes_iff_example = validate_routes_iff parse_three padded clean clean clean

validate_overwrite_mac_address_dash_example :
    (validate_overwrite_mac_address (codes "0a-1b") ≡ valid tt)
    × (parse_mac_addr (codes "0a-1b" ++ (codes ":" ++ codes "0a:06:d4:65")) ≡ none)
validate_overwrite_mac_address_dash_example =
    validate_overwrite_mac_address_dash b'0' b'a' b'1' b'b' (codes "0a:06:d4:65") refl refl refl
      refl

get_rule_number-net_name_example : get_rule_number (codes "net12") ≡ pos 111
unfolding itoa
get_rule_number-net_name_example = get_rule_number-net_name 12 (omega arith) (omega arith)

-- 64:ff9b::a06:d465
parse_mac_addr-inet_aton_zero_example :
    (suffix : Text) × (inet_aton
        (0 ∷ 100 ∷ 255 ∷ 155 ∷ 0 ∷ 0 ∷ 0 ∷ 0 ∷ 0 ∷ 0 ∷ 0 ∷ 0 ∷ 10 ∷ 6 ∷ 212 ∷ 101 ∷ [])
      ≡ some suffix)
    × (parse_mac_addr (codes "0a:1b" ++ (codes ":" ++ suffix)) ≡ none)
parse_mac_addr-inet_aton_zero_example =
    parse_mac_addr-inet_aton_zero b'0' b'a' b'1' b'b' 100 255 155 0 0 0 0 0 0 0 0 10 6 212 101
      (λ h. cc)

abbrev nameless : LogOptions
nameless = record {
  log_level = codes "debug";
  log_file_path = codes "/var/log/x.log";
  log_file_max_size = none;
  log_file_max_age = some (pos 3);
  log_file_max_count = none;
}
