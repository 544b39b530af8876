-- ===== src/Networking/Members.antt =====
-- Which addresses `GetAllHostIPRouteForPod` returns (pkg/networking/networking.go).
use cni_plugins.Base.{◌≡◌, Bool, ◌&&◌, not, List, [], ◌∷◌, exists, is_empty}
use cni_plugins.Base.Int.{ℤ}
use cni_plugins.Net.{Ip, Addr, ip_equal}
use cni_plugins.World.{Trace, Netns, Env, good, spider_get_gateway_ip}
use cni_plugins.World.Runs.{Runs}
use cni_plugins.Networking.{append_new, gateway_for, of_family}

-- An address equal to the given one is in the list.
abbrev pub has : Ip → List Ip → Bool
has x ips = exists (λ k. ip_equal k x) ips

-- An address of the host that is asked for.
abbrev pub wanted : ℤ → Addr → Bool
wanted family addr = not (is_empty addr.ip) && of_family family addr.ip

module _ (env : Env) (family : ℤ) (n : Netns) (gateways : Addr → Ip × Ip)
    (found : (t : Trace) (addr : Addr)
      → env.answer t n (spider_get_gateway_ip (addr ∷ [])) ≡ good (gateways addr)) where
  collected : List Addr → List Ip → List Ip
  collected [] ips = ips
  collected (addr ∷ addrs) ips =
      collected addrs (append_new (gateway_for family (gateways addr)) ips)
