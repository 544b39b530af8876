-- ===== src/Utils/Neighbors/RoundTrip.antt =====
-- A hardware address goes through text on its way into the neighbour table.
use cni_plugins.Base.{◌≡◌, refl, some, [], ◌∷◌, All, length, arith}
use cni_plugins.Base.Text.{Text}
use cni_plugins.Net.{Bytes, Ip, Link}
use cni_plugins.Net.Mac.{IsByte, mac_string, parse_mac_addr, parse_mac_addr-mac_string}
use cni_plugins.World.{
  Trace, Netns, Env, good, ok, ◌>>=◌, pure, wrap, ignoring, call, netlink_link_by_name,
  netlink_neigh_add, returned, forgive, os_is_exist,
}
use cni_plugins.World.Runs.{after}
use cni_plugins.World.Succeeds.{
  Succeeds, Any, AnswersAll, pure-Succeeds, >>=-Succeeds, wrap-Succeeds, ignoring-Succeeds,
  done-Succeeds,
}
use cni_plugins.Utils.Neighbors.{parse_mac, static_neigh, neighbor_add}

-- Six bytes.
abbrev pub IsEthernet : Bytes → Type 0
IsEthernet hw = (length hw ≡ 6) × All IsByte hw

pub parse_mac_addr-IsEthernet :
    (hw : Bytes) → IsEthernet hw → parse_mac_addr (mac_string hw) ≡ some hw
parse_mac_addr-IsEthernet (a ∷ b ∷ c ∷ d ∷ e ∷ f ∷ []) (h, bytes) =
    parse_mac_addr-mac_string a b (c ∷ d ∷ e ∷ f ∷ []) bytes refl
parse_mac_addr-IsEthernet [] (h, bytes) = absurd (omega (arith, h))
parse_mac_addr-IsEthernet (a ∷ []) (h, bytes) = absurd (omega (arith, h))
parse_mac_addr-IsEthernet (a ∷ b ∷ []) (h, bytes) = absurd (omega (arith, h))
parse_mac_addr-IsEthernet (a ∷ b ∷ c ∷ []) (h, bytes) = absurd (omega (arith, h))
parse_mac_addr-IsEthernet (a ∷ b ∷ c ∷ d ∷ []) (h, bytes) = absurd (omega (arith, h))
parse_mac_addr-IsEthernet (a ∷ b ∷ c ∷ d ∷ e ∷ []) (h, bytes) = absurd (omega (arith, h))
parse_mac_addr-IsEthernet (a ∷ b ∷ c ∷ d ∷ e ∷ f ∷ g ∷ hw) (h, bytes) = absurd (omega (arith, h))

parse_mac-mac_string : (hw : Bytes) → IsEthernet hw → parse_mac (mac_string hw) ≡ pure hw
unfolding parse_mac
parse_mac-mac_string hw six = rw (parse_mac_addr-IsEthernet hw six, parse_mac) refl

-- Where the link is found and the kernel takes the neighbour or says that it exists, NeighborAdd
-- with the text of a hardware address of six bytes succeeds: the text is read back as the same
-- bytes, and its calls are finding the link and adding the neighbour with these bytes, permanent,
-- on the link.
pub neighbor_add-mac_string :
    (env : Env) (iface : Text) (link : Link) (hw : Bytes) (ip : Ip) (n : Netns) (t : Trace)
    → ((t : Trace) → env.answer t n (netlink_link_by_name iface) ≡ good link)
    → ((t : Trace)
        → forgive os_is_exist
            (returned (env.answer t n (netlink_neigh_add (static_neigh link.index ip hw))))
          ≡ ok tt)
    → IsEthernet hw
    → neighbor_add env iface (mac_string hw) ip (record { ns = n; trace = t }) ≡ (
      ok tt,
      record {
        ns = n;
        trace =
            after n
              (netlink_link_by_name iface ∷ netlink_neigh_add (static_neigh link.index ip hw) ∷ [])
              t;
      },
    )
unfolding neighbor_add wrap ignoring call pure ◌>>=◌
neighbor_add-mac_string env iface link hw ip n t links adds six =
    rw (parse_mac-mac_string hw six) (rw (links t) (rw (adds _) refl))

-- An interface on an Ethernet link is a neighbour without an error, and without a panic.
pub neighbor_add-Succeeds :
    {I : Trace → Type 0}
    → (env : Env) (iface : Text) (hw : Bytes) (ip : Ip) (n : Netns) → AnswersAll I env
    → IsEthernet hw
    → Succeeds I n Any (neighbor_add env iface (mac_string hw) ip)
unfolding neighbor_add
neighbor_add-Succeeds env iface hw ip n answers six = rw (parse_mac-mac_string hw six) (
    >>=-Succeeds n Any Any _ _
      (wrap-Succeeds n Any _ _ (done-Succeeds env answers n (netlink_link_by_name iface)))
      λ link _. >>=-Succeeds n Any Any _ _ (pure-Succeeds n Any hw tt) λ hw _.
        wrap-Succeeds n Any _ _
          (ignoring-Succeeds n Any _ _ (done-Succeeds env answers n (netlink_neigh_add _))))
