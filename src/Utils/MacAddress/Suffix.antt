-- ===== src/Utils/MacAddress/Suffix.antt =====
-- The hardware address that `OverwriteMacAddress` makes of a prefix and an address.
use cni_plugins.Base.{
  ℕ, ◌/◌, ◌%◌, ◌≡◌, ◌≢◌, refl, false, none, some, [], ◌∷◌, ◌++◌, ◌==◌, All, arith,
}
use cni_plugins.Base.Text.{Text, codes}
use cni_plugins.Net.{Ip}
use cni_plugins.Net.Mac.{
  hex_pair, mac_string, parse_mac_addr, IsByte, parse_mac_addr_six, parse_mac_addr_nul, hex_digit,
}
use cni_plugins.Utils.MacAddress.{inet_aton}

-- The suffix of an IPv4 address that does not begin with 0 is its four bytes as a MAC has them.
pub inet_aton_v4 :
    (a b c d : ℕ) → a ≢ 0 → inet_aton (a ∷ b ∷ c ∷ d ∷ []) ≡ some (mac_string (a ∷ b ∷ c ∷ d ∷ []))
unfolding inet_aton mac_string
inet_aton_v4 a b c d h = let e : (a == 0) ≡ false = ground arith in rw e refl

module _ (b0 b1 b2 b3 b4 b5 b6 b7 b8 b9 b10 b11 a b c d : ℕ) where
  abbrev v6 : Ip
  v6 = b0 ∷ b1 ∷ b2 ∷ b3 ∷ b4 ∷ b5 ∷ b6 ∷ b7 ∷ b8 ∷ b9 ∷ b10 ∷ b11 ∷ a ∷ b ∷ c ∷ d ∷ []

  -- The suffix of an IPv6 address that does not begin with 0 is its last four bytes.
  inet_aton-v6 : b0 ≢ 0 → inet_aton v6 ≡ some (mac_string (a ∷ b ∷ c ∷ d ∷ []))
  unfolding inet_aton mac_string
  inet_aton-v6 h = let e : (b0 == 0) ≡ false = ground arith in rw e refl

-- Under a prefix of two hexadecimal pairs with a colon, the text that becomes the hardware address
-- is read as the two bytes of the prefix and the four bytes of an IPv4 address that does not begin
-- with 0.
pub parse_mac_addr-inet_aton_v4 :
    (h l k m p q a b c d : ℕ)
    → hex_pair h l ≡ some p
    → hex_pair k m ≡ some q
    → All IsByte (a ∷ b ∷ c ∷ d ∷ [])
    → a ≢ 0
    → (suffix : Text) × (inet_aton (a ∷ b ∷ c ∷ d ∷ []) ≡ some suffix)
      × (parse_mac_addr ((h ∷ l ∷ b':' ∷ k ∷ m ∷ []) ++ (codes ":" ++ suffix))
          ≡ some (p ∷ q ∷ a ∷ b ∷ c ∷ d ∷ []))
parse_mac_addr-inet_aton_v4 h l k m p q a b c d e f bytes nonzero = (
  mac_string (a ∷ b ∷ c ∷ d ∷ []),
  inet_aton_v4 a b c d nonzero,
  parse_mac_addr_six h l k m p q a b c d e f bytes,
)

-- Under a prefix of two hexadecimal pairs with a colon, the text for an IPv6 address that does not
-- begin with 0 is read as the two bytes of the prefix and the address's last four bytes.
pub parse_mac_addr-inet_aton_v6 :
    (h l k m p q b0 b1 b2 b3 b4 b5 b6 b7 b8 b9 b10 b11 a b c d : ℕ)
    → hex_pair h l ≡ some p
    → hex_pair k m ≡ some q
    → All IsByte (a ∷ b ∷ c ∷ d ∷ [])
    → b0 ≢ 0
    → (suffix : Text) × (inet_aton
          (b0 ∷ b1 ∷ b2 ∷ b3 ∷ b4 ∷ b5 ∷ b6 ∷ b7 ∷ b8 ∷ b9 ∷ b10 ∷ b11 ∷ a ∷ b ∷ c ∷ d ∷ [])
        ≡ some suffix)
      × (parse_mac_addr ((h ∷ l ∷ b':' ∷ k ∷ m ∷ []) ++ (codes ":" ++ suffix))
          ≡ some (p ∷ q ∷ a ∷ b ∷ c ∷ d ∷ []))
parse_mac_addr-inet_aton_v6 h l k m p q b0 b1 b2 b3 b4 b5 b6 b7 b8 b9 b10 b11 a b c d e f bytes
      nonzero =
    (
      mac_string (a ∷ b ∷ c ∷ d ∷ []),
      inet_aton-v6 b0 b1 b2 b3 b4 b5 b6 b7 b8 b9 b10 b11 a b c d nonzero,
      parse_mac_addr_six h l k m p q a b c d e f bytes,
    )

-- A byte in two hexadecimal digits.
abbrev pair : ℕ → Text
pair b = hex_digit (b / 16) ∷ hex_digit (b % 16) ∷ []

-- An IPv6 address whose first byte alone is 0 gives a suffix with which no text of two pairs and a
-- colon in front is a hardware address.
pub parse_mac_addr-inet_aton_zero :
    (h l k m b1 b2 b3 b4 b5 b6 b7 b8 b9 b10 b11 a b c d : ℕ)
    → b1 ≢ 0
    → (suffix : Text) × (inet_aton
          (0 ∷ b1 ∷ b2 ∷ b3 ∷ b4 ∷ b5 ∷ b6 ∷ b7 ∷ b8 ∷ b9 ∷ b10 ∷ b11 ∷ a ∷ b ∷ c ∷ d ∷ [])
        ≡ some suffix)
      × (parse_mac_addr ((h ∷ l ∷ b':' ∷ k ∷ m ∷ []) ++ (codes ":" ++ suffix)) ≡ none)
unfolding inet_aton
parse_mac_addr-inet_aton_zero h l k m b1 b2 b3 b4 b5 b6 b7 b8 b9 b10 b11 a b c d nonzero =
    let e : (b1 == 0) ≡ false = ground arith in
    (
      pair b ++ b':' ∷ pair c ++ b':' ∷ pair d ++ b':' ∷ 0 ∷ 0 ∷ [],
      rw e refl,
      parse_mac_addr_nul h l k m (hex_digit (b / 16)) (hex_digit (b % 16)) (hex_digit (c / 16))
          (hex_digit (c % 16)) (hex_digit (d / 16)) (hex_digit (d % 16)),
    )
