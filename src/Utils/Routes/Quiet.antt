-- ===== src/Utils/Routes/Quiet.antt =====
-- What leaves the pod's routes as they are.
use cni_plugins.Base.{◌≡◌, ◌↔◌, ◌++◌, [], ◌∷◌, All}
use cni_plugins.Net.{Route}
use cni_plugins.World.{Trace, Event, Netns, host, pod, Call, netlink_route_add, netlink_route_del}
use cni_plugins.Utils.Routes.Tables.{Changed, Holds}

-- Routes are added and deleted on the host alone.
abbrev pub LeavesRoutes : Event → Type 0
LeavesRoutes e = elim e.call [
  | netlink_route_add _ ↦ e.ns ≡ host
  | netlink_route_del _ ↦ e.ns ≡ host
  | _ ↦ Unit
]

Changed-LeavesRoutes :
    (n : Netns) (c : Call) (q : Route) (P : Type 0)
    → LeavesRoutes (record { ns = n; call = c })
    → Changed n c q P ↔ P
Changed-LeavesRoutes host c q P h = (λ p. p, λ p. p)
Changed-LeavesRoutes pod (netlink_route_add r) q P h = absurd (cc)
Changed-LeavesRoutes pod (netlink_route_del r) q P h = absurd (cc)
Changed-LeavesRoutes pod _ q P h = (λ p. p, λ p. p)

-- A trace that leaves the routes behind it as they were.
pub Holds-LeavesRoutes :
    (s : Route → Type 0) (l t : Trace) (q : Route)
    → All LeavesRoutes l
    → Holds s (l ++ t) q ↔ Holds s t q
Holds-LeavesRoutes s [] t q h = (λ p. p, λ p. p)
Holds-LeavesRoutes s (e ∷ l) t q (h, hs) =
    let a = Changed-LeavesRoutes e.ns e.call q (Holds s (l ++ t) q) h in
    let b = Holds-LeavesRoutes s l t q hs in (λ p. b.0 (a.0 p), λ p. a.1 (b.1 p))
