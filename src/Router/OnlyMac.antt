-- ===== src/Router/OnlyMac.antt =====
-- A configuration of the `router` plugin with `only_op_mac` and without a `mac_prefix`.
use cni_plugins.Base.{◌≡◌, refl, true, none, List, []}
use cni_plugins.Base.Text.{Text}
use cni_plugins.Base.Int.{ℤ}
use cni_plugins.Net.{Ip, Addr}
use cni_plugins.World.{World, Env, ok, panic, pure, choose, deref, ◌>>=◌}
use cni_plugins.Config.{validate_overwrite_mac_address}
use cni_plugins.Plugin.{CmdArgs, IpFamilies, lift}
use cni_plugins.Utils.Neighbors.{add_static_neigh_table}
use cni_plugins.Router.{PluginConf, Json, validate_config, set_up_networks}

-- Only the hardware address is to be set, with no prefix for it and no table given.
abbrev pub only_mac : PluginConf → PluginConf
only_mac conf = record conf {
  only_op_mac = true;
  mac_prefix = [];
  sriov = true;
  host_rule_table = none;
}

-- For a sriov interface, a configuration with only_op_mac, no prefix and no table passes the
-- validation with no table filled in, and setting up the networks with the validated configuration
-- panics before any call.
pub set_up_networks-only_mac :
    (env : Env) (json : Json) (conf : PluginConf) (args : CmdArgs) (name : Text) (table : ℤ)
    (f : IpFamilies) (hosts : List Ip) (ips : List Addr) (w : World)
    → (c : PluginConf) × (validate_config env (only_mac conf) w ≡ (ok c, w))
      × (set_up_networks env json c args name table f hosts ips w
          ≡ (panic "invalid memory address or nil pointer dereference", w))
unfolding validate_config set_up_networks validate_overwrite_mac_address lift pure choose deref
    ◌>>=◌ add_static_neigh_table
set_up_networks-only_mac env json conf args name table f hosts ips w = (_, refl, refl)
