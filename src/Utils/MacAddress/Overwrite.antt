-- ===== src/Utils/MacAddress/Overwrite.antt =====
-- Which hardware address `OverwriteMacAddress` gives the pod's interface.
use cni_plugins.Base.{◌≡◌, ◌≢◌, refl, ℕ, true, some, List, [], ◌∷◌, ◌++◌, exists, filter, All}
use cni_plugins.Base.Text.{Text, codes, same_text}
use cni_plugins.Net.{Bytes, Link}
use cni_plugins.Net.Mac.{hex_pair, mac_string, parse_mac_addr, parse_mac_addr_six, IsByte}
use cni_plugins.World.{
  Trace, Netns, host, pod, Env, good, ok, net_interfaces, interface_addrs, netlink_link_by_name,
  netlink_link_set_hardware_addr, enter_netns, call, pure, or_fail, do_netns, ◌>>=◌,
}
use cni_plugins.World.Runs.{after, >>=-Runs, pure-Runs, call-Runs, do_netns-Runs}
use cni_plugins.Utils.Neighbors.{parse_mac}
use cni_plugins.Utils.Addresses.Selected.{is_usable, AreAddrs, get_chained_interface_ips-filter}
use cni_plugins.Utils.MacAddress.{overwrite_mac_address}
use cni_plugins.Utils.MacAddress.Suffix.{inet_aton_v4}

module _ (env : Env) (iface : Text)
    (opens : (t : Trace) (n : Netns) → env.answer t n enter_netns ≡ good tt) where
  set_mac-after :
      (text : Text) (hw : Bytes) (link : Link) (t : Trace)
      → parse_mac_addr text ≡ some hw
      → ((t : Trace) → env.answer t pod (netlink_link_by_name iface) ≡ good link)
      → ((t : Trace) → env.answer t pod (netlink_link_set_hardware_addr link hw) ≡ good tt)
      → do_netns env
          (call env (netlink_link_by_name iface) >>= λ link.
            parse_mac text >>= λ hw. call env (netlink_link_set_hardware_addr link hw))
          (record { ns = host; trace = t })
        ≡ (
          ok tt,
          record {
            ns = host;
            trace =
                after pod
                  (netlink_link_by_name iface ∷ netlink_link_set_hardware_addr link hw ∷ [])
                  (after host (enter_netns ∷ []) t);
          },
        )
  unfolding parse_mac
  set_mac-after text hw link t e links takes =
      do_netns-Runs env _ _ _ opens
        (>>=-Runs pod _ _ (netlink_link_by_name iface ∷ [])
          (netlink_link_set_hardware_addr link hw ∷ []) link (ok tt)
          (call-Runs env pod (netlink_link_by_name iface) link links)
          (rw (e, parse_mac)
            (>>=-Runs pod _ _ [] (netlink_link_set_hardware_addr link hw ∷ []) hw (ok tt)
              (pure-Runs pod hw)
              (call-Runs env pod (netlink_link_set_hardware_addr link hw) tt takes))))
        t

  module _ (names addrs : List Text) (usable : AreAddrs env true true addrs)
      (named : (t : Trace) → env.answer t pod net_interfaces ≡ good names)
      (present : exists (λ name. same_text name iface) names ≡ true)
      (lists : (t : Trace) → env.answer t pod (interface_addrs iface) ≡ good addrs) where
    -- Where the pod can be entered, the interface is among those listed, its addresses can be read,
    -- the first usable one is an IPv4 address that does not begin with 0, and the prefix is two
    -- hexadecimal pairs with a colon, OverwriteMacAddress gives the interface's link the hardware
    -- address of the prefix's two bytes and that address's four, changes nothing else and returns
    -- its text.
    pub overwrite_mac_address-after :
        (h l k m p q a b c d : ℕ) (text : Text) (rest : List Text) (link : Link) (t : Trace)
        → hex_pair h l ≡ some p
        → hex_pair k m ≡ some q
        → filter (is_usable env true true) addrs ≡ text ∷ rest
        → env.parse_prefix text ≡ some (a ∷ b ∷ c ∷ d ∷ [])
        → All IsByte (a ∷ b ∷ c ∷ d ∷ [])
        → a ≢ 0
        → ((t : Trace) → env.answer t pod (netlink_link_by_name iface) ≡ good link)
        → ((t : Trace)
            → env.answer t pod (netlink_link_set_hardware_addr link (p ∷ q ∷ a ∷ b ∷ c ∷ d ∷ []))
              ≡ good tt)
        → overwrite_mac_address env
            (h ∷ l ∷ b':' ∷ k ∷ m ∷ [])
            iface
            (record { ns = host; trace = t })
          ≡ (
            ok ((h ∷ l ∷ b':' ∷ k ∷ m ∷ []) ++ (codes ":" ++ mac_string (a ∷ b ∷ c ∷ d ∷ []))),
            record {
              ns = host;
              trace =
                  after pod
                    (netlink_link_by_name iface
                      ∷ netlink_link_set_hardware_addr link (p ∷ q ∷ a ∷ b ∷ c ∷ d ∷ [])
                      ∷ [])
                    (after host (enter_netns ∷ []) (
                      after pod
                        (net_interfaces ∷ interface_addrs iface ∷ [])
                        (after host (enter_netns ∷ []) t)));
            },
          )
    unfolding overwrite_mac_address or_fail ◌>>=◌ pure
    overwrite_mac_address-after h l k m p q a b c d text rest link t e f first parsed bytes nonzero
          links takes =
        let parsed_mac = parse_mac_addr_six h l k m p q a b c d e f bytes in
        rw
          (get_chained_interface_ips-filter env true true iface addrs usable lists names t opens
            named present)
          (rw (first, parsed)
            (rw (inet_aton_v4 a b c d nonzero)
              (rw (set_mac-after _ _ link _ parsed_mac links takes) refl)))
