-- ===== src/Veth/Setup/LostError.antt =====
-- The error of the pod's part of `setupRoutes`.
use cni_plugins.Base.{◌≡◌, refl, List, ◌∷◌}
use cni_plugins.Base.Text.{Text}
use cni_plugins.Base.Int.{ℤ}
use cni_plugins.Net.{Ip, Addr}
use cni_plugins.World.{
  World, Env, Error, ok, err, ◌>>=◌, ◌>>◌, pass, try, for_each, call, spider_get_gateway_ip,
}
use cni_plugins.Veth.Setup.{add_pod_routes, add_host_route, setup_routes, final_error}

-- Where the gateways are found, the pod has addresses and the pod's part of setupRoutes fails, that
-- error is not reported: the result is that of the host's part alone, run after what the pod's part
-- has done.
pub setup_routes_lost_error :
    (env : Env) (table family : ℤ) (name : Text) (hosts : List Ip) (ip : Addr) (ips : List Addr)
    (subnets : List Text) (v4 v6 : Ip) (e : Error) (w w' w'' : World)
    → call env (spider_get_gateway_ip (ip ∷ ips)) w ≡ (ok (v4, v6), w')
    → add_pod_routes env table family hosts v4 v6 subnets w' ≡ (err e, w'')
    → setup_routes env table family name hosts (ip ∷ ips) subnets w
      ≡ (for_each (ip ∷ ips) (add_host_route env family name) >> pass) w''
unfolding setup_routes final_error try ◌>>=◌
setup_routes_lost_error env table family name hosts ip ips subnets v4 v6 e w w' w'' p q =
    rw (p, q) refl
