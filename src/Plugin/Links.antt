-- ===== src/Plugin/Links.antt =====
-- The links that the plugins rely on: Ethernet links with a peer.
use cni_plugins.Base.{◌≡◌, false}
use cni_plugins.Base.Text.{Text}
use cni_plugins.Base.Int.{ℤ, is_negative}
use cni_plugins.Net.{Link}
use cni_plugins.World.{Trace, Netns, Env, good, call, netlink_link_by_name, netlink_link_by_index}
use cni_plugins.World.Succeeds.{Succeeds, AnswersAll, call-Succeeds}
use cni_plugins.Utils.Neighbors.RoundTrip.{IsEthernet}

-- A link with a peer in another namespace and a hardware address of six bytes.
abbrev pub IsVeth : Link → Type 0
IsVeth link = (is_negative link.parent_index ≡ false) × IsEthernet link.hardware_addr

-- Every link that is found is one.
pub record OnVeths (env : Env) : Type 0 where
  pub by_name :
      (t : Trace) (n : Netns) (name : Text) (link : Link)
      → env.answer t n (netlink_link_by_name name) ≡ good link
      → IsVeth link
  pub by_index :
      (t : Trace) (n : Netns) (index : ℤ) (link : Link)
      → env.answer t n (netlink_link_by_index index) ≡ good link
      → IsVeth link

module _ {I : Trace → Type 0} (env : Env) (answers : AnswersAll I env) (veths : OnVeths env) where
  pub link_by_name-Succeeds :
      (n : Netns) (name : Text) → Succeeds I n IsVeth (call env (netlink_link_by_name name))
  link_by_name-Succeeds n name =
      call-Succeeds env n (netlink_link_by_name name) IsVeth answers
        λ t link e. veths.by_name t n name link e

  pub link_by_index-Succeeds :
      (n : Netns) (index : ℤ) → Succeeds I n IsVeth (call env (netlink_link_by_index index))
  link_by_index-Succeeds n index =
      call-Succeeds env n (netlink_link_by_index index) IsVeth answers
        λ t link e. veths.by_index t n index link e
