-- ===== src/Networking/Distinct.antt =====
-- Equal addresses among those of the host for the pod (pkg/networking/networking.go).
use cni_plugins.Base.{
  ◌≡◌, Bool, true, false, List, [], ◌∷◌, ◌++◌, if◌then◌else◌, exists, arith, Bool-cases, inl, inr,
  All, All-append,
}
use cni_plugins.Base.Int.{ℤ}
use cni_plugins.Net.{Ip, Addr, ip_equal}
use cni_plugins.World.{
  M, World, Env, Returned, ok, err, panic, continue_with, ◌>>=◌, pure, wrap, call, errorf,
  spider_get_all_ip_address,
}
use cni_plugins.Networking.{
  append_new, add_node_ips, gateway_ips, gateway_for, get_all_host_ip_route_for_pod,
  default_node_interfaces_to_exclude,
}

-- No address is equal to a later one.
abbrev pub Distinct : List Ip → Type 0
Distinct [] = Unit
Distinct (k ∷ ips) = All (λ t. ip_equal k t ≡ false) ips × Distinct ips

append-Distinct :
    (t : Ip) (ips : List Ip)
    → exists (λ k. ip_equal k t) ips ≡ false
    → Distinct ips
    → Distinct (ips ++ t ∷ [])
append-Distinct t [] h d = (tt, tt)
append-Distinct t (k ∷ ips) h (a, d) =
    let first : ip_equal k t ≡ false = ground arith in
    let rest : exists (λ k. ip_equal k t) ips ≡ false = ground arith in
    (
      All-append (λ t. ip_equal k t ≡ false) ips (t ∷ []) a (first, tt),
      append-Distinct t ips rest d,
    )

append_new-Distinct : (t : Ip) (ips : List Ip) → Distinct ips → Distinct (append_new t ips)
unfolding append_new
append_new-Distinct t ips d = elim (Bool-cases (exists (λ k. ip_equal k t) ips)) [
  | inl e ↦ rw e d
  | inr e ↦ rw e (append-Distinct t ips e d)
]

add_node_ips-Distinct :
    (family : ℤ) (addrs : List Addr) (ips : List Ip)
    → Distinct ips
    → Distinct (add_node_ips family addrs ips)
unfolding add_node_ips
add_node_ips-Distinct family [] ips d = d
add_node_ips-Distinct family (addr ∷ addrs) ips d =
    add_node_ips-Distinct family addrs _ (chosen _ (append_new-Distinct addr.ip ips d))
  where
    chosen :
        (b : Bool)
        → Distinct (append_new addr.ip ips)
        → Distinct (if b then ips else append_new addr.ip ips)
    chosen true h = d
    chosen false h = h

-- A list that is returned is distinct.
abbrev WhenReturned : Returned (List Ip) → Type 0
WhenReturned (ok ips) = Distinct ips
WhenReturned _ = Unit

bind-WhenReturned :
    {A : Type 0} (r : Returned A × World) (f : A → M (List Ip))
    → ((a : A) (w : World) → WhenReturned (f a w).0)
    → WhenReturned (let (q, w) = r in continue_with f q w).0
bind-WhenReturned (ok a, w) f k = k a w
bind-WhenReturned (err e, w) f k = tt
bind-WhenReturned (panic s, w) f k = tt

bind-WhenReturned-Distinct :
    (r : Returned (List Ip) × World) (f : List Ip → M (List Ip))
    → ((ips : List Ip) (w : World) → Distinct ips → WhenReturned (f ips w).0)
    → WhenReturned r.0
    → WhenReturned (let (q, w) = r in continue_with f q w).0
bind-WhenReturned-Distinct (ok ips, w) f k d = k ips w d
bind-WhenReturned-Distinct (err e, w) f k d = tt
bind-WhenReturned-Distinct (panic s, w) f k d = tt

module _ (env : Env) (family : ℤ) where
  gateway_ips-Distinct :
      (items : List Addr) (ips : List Ip) (w : World)
      → Distinct ips
      → WhenReturned (gateway_ips env family items ips w).0
  unfolding gateway_ips pure ◌>>=◌
  gateway_ips-Distinct [] ips w d = d
  gateway_ips-Distinct (item ∷ items) ips w d = bind-WhenReturned _ _ λ g v.
      gateway_ips-Distinct items (append_new (gateway_for family g) ips) v
        (append_new-Distinct (gateway_for family g) ips d)

  get_all-WhenReturned :
      (pod_ips : List Addr) (w : World)
      → WhenReturned (get_all_host_ip_route_for_pod env family pod_ips w).0
  unfolding get_all_host_ip_route_for_pod pure ◌>>=◌
  get_all-WhenReturned pod_ips w =
      bind-WhenReturned-Distinct (gateway_ips env family pod_ips [] w) _
        (λ ips v d.
          bind-WhenReturned
            (wrap (errorf "failed to get IPAddressOnNode: %v")
              (call env (spider_get_all_ip_address family default_node_interfaces_to_exclude)) v)
            (λ nodes. pure (add_node_ips family nodes ips))
            λ nodes u. add_node_ips-Distinct family nodes ips d)
        (gateway_ips-Distinct pod_ips [] w tt)

  -- Whatever the outside answers, the host's addresses that are returned for the pod are pairwise
  -- different.
  pub get_all_host_ip_route_for_pod-Distinct :
      (pod_ips : List Addr) (w : World) (hosts : List Ip)
      → (get_all_host_ip_route_for_pod env family pod_ips w).0 ≡ ok hosts
      → Distinct hosts
  get_all_host_ip_route_for_pod-Distinct pod_ips w hosts e =
      rw e at (get_all-WhenReturned pod_ips w)
