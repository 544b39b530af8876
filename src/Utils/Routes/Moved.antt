-- ===== src/Utils/Routes/Moved.antt =====
-- The kernel calls for one route against the abstract operation on that route.
use cni_plugins.Base.{
  ◌≡◌, ◌≢◌, ◌↔◌, refl, ◌⊎◌, inl, inr, true, false, none, List, [], ◌∷◌, arith, Bool-cases,
}
use cni_plugins.Base.Int.{ℤ, ◌==ℤ◌}
use cni_plugins.Net.{Route, rt_table_main}
use cni_plugins.World.{Trace, pod, Call, netlink_route_add, netlink_route_del}
use cni_plugins.World.Runs.{after}
use cni_plugins.Utils.Routes.{find_nexthop, is_default}
use cni_plugins.Utils.Routes.Calls.{is_movable, move_calls}
use cni_plugins.Utils.Routes.Defaults.{IsIpv4Default, is_default_iff, not_default}
use cni_plugins.Utils.Routes.Tables.{Holds, is_own, Shifted}

-- No other route has a next hop over the link.
abbrev pub OneHop : ℤ → Route → Type 0
OneHop index r = (r.link_index ==ℤ index) ≡ true ⊎ (find_nexthop index r.multi_path ≡ none)

module _ (s : Route → Type 0) (index table : ℤ) (other : table ≢ rt_table_main) where
  -- Nothing is done for a route that is not the link's own.
  skip_Shifted :
      (r q : Route) (P : Type 0) → is_own index r ≡ false → P ↔ Shifted index table (r ∷ []) P q
  skip_Shifted r q P e = (
    λ p. inr (p, λ g. elim g [ inl (o, d, f) ↦ absurd (cc) | inr h ↦ h ]),
    λ h. elim h [ inl c ↦ elim c [ inl (o, f) ↦ absurd (cc) | inr k ↦ absurd k ] | inr (p, n) ↦ p ],
  )

  default_Shifted :
      (r q : Route) (P : Type 0)
      → is_own index r ≡ true
      → IsIpv4Default r.dst
      → ((q ≡ record r { table = table }) ⊎ (P × (q ≢ r))) ↔ Shifted index table (r ∷ []) P q
  default_Shifted r q P o d = (
    λ h. elim h [
      | inl e ↦ inl (inl (o, e))
      | inr (p, n) ↦ inr (p, λ g. elim g [ inl (o, d, f) ↦ n f | inr h ↦ h ])
    ],
    λ h. elim h [
      | inl c ↦ elim c [ inl (o, f) ↦ inl f | inr k ↦ absurd k ]
      | inr (p, n) ↦ inr (p, λ e. n (inl (o, d, e)))
    ],
  )

  kept_Shifted :
      (r q : Route) (P : Type 0)
      → is_own index r ≡ true
      → ¬ IsIpv4Default r.dst
      → ((q ≡ record r { table = table }) ⊎ P) ↔ Shifted index table (r ∷ []) P q
  kept_Shifted r q P o d = (
    λ h. elim h [
      | inl e ↦ inl (inl (o, e))
      | inr p ↦ inr (p, λ g. elim g [ inl (o, k, f) ↦ absurd (d k) | inr h ↦ h ])
    ],
    λ h. elim h [ inl c ↦ elim c [ inl (o, f) ↦ inl f | inr k ↦ absurd k ] | inr (p, n) ↦ inr p ],
  )

  by_calls :
      (cs ds : List Call) (t : Trace) (q : Route) (S : Type 0)
      → cs ≡ ds
      → (Holds s (after pod ds t) q ↔ S)
      → Holds s (after pod cs t) q ↔ S
  by_calls cs ds t q S e h = rw e h

  pub move_calls-Shifted :
      (r q : Route) (t : Trace)
      → OneHop index r
      → Holds s (after pod (move_calls index table r) t) q
        ↔ Shifted index table (r ∷ []) (Holds s t q) q
  move_calls-Shifted r q t hop = elim (Bool-cases (is_movable r)) [
    | inl e ↦ elim (Bool-cases (r.link_index ==ℤ index)) [
      | inl f ↦
          let o : is_own index r ≡ true = ground (arith, e, f) in
          elim (Bool-cases (is_default r.dst)) [
            | inl d ↦
                by_calls (move_calls index table r)
                  (netlink_route_del r ∷ netlink_route_add (record r { table = table }) ∷ []) t q _
                  (rw (e, f, d) refl)
                  (default_Shifted r q (Holds s t q) o ((is_default_iff r.dst).0 d))
            | inr d ↦
                by_calls (move_calls index table r)
                  (netlink_route_add (record r { table = table }) ∷ []) t q _ (rw (e, f, d) refl)
                  (kept_Shifted r q (Holds s t q) o (not_default r.dst d))
          ]
      | inr f ↦
          let o : is_own index r ≡ false = ground (arith, e, f) in
          let h : find_nexthop index r.multi_path ≡ none = elim hop [
            | inl g ↦ absurd (cc)
            | inr g ↦ g
          ] in
          by_calls (move_calls index table r) [] t q _ (rw (e, f, h) refl)
            (skip_Shifted r q (Holds s t q) o)
    ]
    | inr e ↦
        let o : is_own index r ≡ false = ground (arith, e) in
        by_calls (move_calls index table r) [] t q _ (rw e refl) (skip_Shifted r q (Holds s t q) o)
  ]
