-- ===== src/Net.antt =====
-- Go's `net` package as far as the plugins use it: addresses as byte slices, masks, prefixes and
-- hardware addresses, and the netlink structures that the plugins build and read.
pub mod Mac
pub mod Equal
use Prim.Native.Nat.{bit_and}
use cni_plugins.Base.{ℕ, ◌≡◌, Bool, true, false, ◌&&◌, ◌||◌, Option, none, some, List, [], ◌∷◌}
use cni_plugins.Base.{
  ◌++◌, ◌==◌, leb, if◌then◌else◌, length, take, drop, replicate, is_some, from_option,
}
use cni_plugins.Base.Text.{Text, codes, same_text}
use cni_plugins.Base.Int.{ℤ, pos, negsuc}

-- `net.IP`, `net.IPMask`, `net.HardwareAddr`: byte slices; nil and the empty slice are `[]`.
abbrev pub Bytes : Type 0
Bytes = List ℕ

abbrev pub Ip : Type 0
Ip = Bytes

abbrev pub v4_in_v6_prefix : Bytes
v4_in_v6_prefix = 0 ∷ 0 ∷ 0 ∷ 0 ∷ 0 ∷ 0 ∷ 0 ∷ 0 ∷ 0 ∷ 0 ∷ 255 ∷ 255 ∷ []

-- `IP.To4`
abbrev pub to_4 : Ip → Option Ip
to_4 ip =
    if length ip == 4
    then some ip
    else if length ip == 16 && same_text (take 12 ip) v4_in_v6_prefix
    then some (drop 12 ip)
    else none

-- The test `ip.To4() != nil`.
unfoldable pub is_v4 : Ip → Bool
is_v4 ip = is_some (to_4 ip)

-- `IP.Equal`
unfoldable pub ip_equal : Ip → Ip → Bool
ip_equal a b =
    if length a == length b
    then same_text a b
    else if length a == 4 && length b == 16
    then same_text (take 12 b) v4_in_v6_prefix && same_text a (drop 12 b)
    else if length a == 16 && length b == 4
    then same_text (take 12 a) v4_in_v6_prefix && same_text (drop 12 a) b
    else false

-- The first and the second byte; 0 stands for a byte that is not there, where no caller looks.
abbrev byte_0 : Bytes → ℕ
byte_0 [] = 0
byte_0 (a ∷ s) = a

abbrev byte_1 : Bytes → ℕ
byte_1 [] = 0
byte_1 (a ∷ s) = byte_0 s

-- `IP.IsMulticast`
unfoldable pub is_multicast : Ip → Bool
is_multicast ip = elim (to_4 ip) [
  | some v4 ↦ bit_and (byte_0 v4) 0xf0 == 0xe0
  | none ↦ length ip == 16 && byte_0 ip == 0xff
]

-- `IP.IsLinkLocalUnicast`
unfoldable pub is_link_local_unicast : Ip → Bool
is_link_local_unicast ip = elim (to_4 ip) [
  | some v4 ↦ byte_0 v4 == 169 && byte_1 v4 == 254
  | none ↦ length ip == 16 && byte_0 ip == 0xfe && bit_and (byte_1 ip) 0xc0 == 0x80
]

-- `net.CIDRMask(32, 32)` and `net.CIDRMask(128, 128)`
abbrev pub mask_32 : Bytes
mask_32 = replicate 4 255

abbrev pub mask_128 : Bytes
mask_128 = replicate 16 255

-- `net.IPv4zero`
abbrev pub ipv4_zero : Ip
ipv4_zero = v4_in_v6_prefix ++ replicate 4 0

-- `net.IPNet`
pub record IpNet : Type 0 where
  pub ip : Ip
  pub mask : Bytes

-- `netlink.Addr`, of which the plugins read the embedded `IPNet`.
abbrev pub Addr : Type 0
Addr = IpNet

-- `networkNumberAndMask`; a pair of nil slices where it gives up.
abbrev network_number_and_mask : IpNet → Bytes × Bytes
network_number_and_mask n =
    let number = from_option (to_4 n.ip) n.ip in
    if is_some (to_4 n.ip)
    then (if length n.mask == 4
        then (number, n.mask)
        else if length n.mask == 16
        then (number, drop 12 n.mask)
        else ([], []))
    else if length n.ip == 16 && length n.mask == 16
    then (number, n.mask)
    else ([], [])

abbrev masked_equal : Bytes → Bytes → Bytes → Bool
masked_equal (a ∷ s) (b ∷ t) (m ∷ r) = bit_and a m == bit_and b m && masked_equal s t r
masked_equal _ _ _ = true

-- `IPNet.Contains`
unfoldable pub contains : IpNet → Ip → Bool
contains n ip =
    let (number, mask) = network_number_and_mask n in
    let address = from_option (to_4 ip) ip in
    length address == length number && masked_equal number address mask

-- `dst.String() == "fe80::/64"`: the text of a prefix is canonical, and that of nil is "<nil>".
unfoldable pub is_link_local_net : Option IpNet → Bool
is_link_local_net none = false
is_link_local_net (some n) =
    same_text n.ip (0xfe ∷ 0x80 ∷ replicate 14 0)
    && same_text n.mask (replicate 8 255 ++ replicate 8 0)

-- `netlink.FAMILY_ALL`, `FAMILY_V4`, `FAMILY_V6`
abbrev pub family_all : ℤ
family_all = pos 0

abbrev pub family_v4 : ℤ
family_v4 = pos 2

abbrev pub family_v6 : ℤ
family_v6 = pos 10

-- `unix.RT_TABLE_MAIN`
abbrev pub rt_table_main : ℤ
rt_table_main = pos 254

-- `netlink.SCOPE_UNIVERSE`, `netlink.SCOPE_LINK`
abbrev pub scope_universe : ℕ
scope_universe = 0

abbrev pub scope_link : ℕ
scope_link = 253

-- `netlink.NUD_PERMANENT`, `netlink.NDA_LLADDR`
abbrev pub nud_permanent : ℕ
nud_permanent = 0x80

abbrev pub nda_lladdr : ℕ
nda_lladdr = 2

-- The attributes of a link that the plugins read.
pub record Link : Type 0 where
  pub name : Text
  pub index : ℤ
  pub parent_index : ℤ
  pub hardware_addr : Bytes

-- `netlink.NexthopInfo`
pub record Nexthop : Type 0 where
  pub link_index : ℤ
  pub gw : Ip

-- `netlink.Route`. `others` stands for the fields that the plugins never set or read; 0 is the
-- value of a fresh literal.
pub record Route : Type 0 where
  pub link_index : ℤ
  pub scope : ℕ
  pub dst : Option IpNet
  pub src : Ip
  pub gw : Ip
  pub table : ℤ
  pub mtu : ℕ
  pub multi_path : List Nexthop
  pub others : ℕ

-- `&netlink.Route{}`
abbrev pub empty_route : Route
empty_route = record {
  link_index = pos 0;
  scope = 0;
  dst = none;
  src = [];
  gw = [];
  table = pos 0;
  mtu = 0;
  multi_path = [];
  others = 0;
}

-- `netlink.Rule`, the fields that the plugins set.
pub record Rule : Type 0 where
  pub src : Option IpNet
  pub dst : Option IpNet
  pub family : ℤ
  pub table : ℤ
  pub priority : ℤ

-- `netlink.NewRule()`
abbrev pub new_rule : Rule
new_rule = record { src = none; dst = none; family = pos 0; table = pos 0; priority = negsuc 0 }

-- `netlink.Neigh`
pub record Neigh : Type 0 where
  pub link_index : ℤ
  pub state : ℕ
  pub kind : ℕ
  pub ip : Ip
  pub hardware_addr : Bytes

-- `current.Interface`
pub record CniInterface : Type 0 where
  pub name : Text
  pub mac : Text
  pub sandbox : Text
