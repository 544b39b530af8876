-- ===== src/Utils/Routes/Tables.antt =====
-- The pod's routes as a set, and what moving an interface's routes does to it.
use cni_plugins.Base.{
  ◌≡◌, ◌≢◌, ◌↔◌, sym, ap, ◌∙◌, ◌⊎◌, inl, inr, Bool, true, ◌&&◌, not, List, [], ◌∷◌, ◌++◌, arith,
}
use cni_plugins.Base.Int.{ℤ, ◌==ℤ◌, ==ℤ_iff}
use cni_plugins.Net.{Route, rt_table_main, is_link_local_net}
use cni_plugins.World.{Trace, Netns, pod, Call, netlink_route_add, netlink_route_del}
use cni_plugins.Utils.Routes.Defaults.{IsIpv4Default}

-- What one accepted call leaves of the fact that a route is there: a route that is added is there,
-- and one that is deleted is not.
abbrev pub Changed : Netns → Call → Route → Type 0 → Type 0
Changed pod (netlink_route_add r) q P = (q ≡ r) ⊎ P
Changed pod (netlink_route_del r) q P = P × (q ≢ r)
Changed _ _ q P = P

-- The pod's routes after a trace, from those at its beginning.
abbrev pub Holds : (Route → Type 0) → Trace → Route → Type 0
Holds s [] q = s q
Holds s (e ∷ t) q = Changed e.ns e.call q (Holds s t q)

module _ (index : ℤ) where
  -- A route of the main table over the link, but for the link-local one.
  abbrev pub is_own : Route → Bool
  is_own r = r.table ==ℤ rt_table_main && not (is_link_local_net r.dst) && r.link_index ==ℤ index

  -- The routes that leave the main table: those with no destination or 0.0.0.0.
  abbrev pub Gone : List Route → Route → Type 0
  Gone [] q = ⊥
  Gone (r ∷ rs) q = ((is_own r ≡ true) × IsIpv4Default r.dst × (q ≡ r)) ⊎ Gone rs q

  own-main : (r : Route) → is_own r ≡ true → r.table ≡ rt_table_main
  own-main r h = ground (arith, h, ==ℤ_iff r.table rt_table_main)

  Gone-main : (rs : List Route) (q : Route) → Gone rs q → q.table ≡ rt_table_main
  Gone-main [] q h = absurd h
  Gone-main (r ∷ rs) q (inl (o, d, e)) = ap (λ (r : Route). r.table) e ∙ own-main r o
  Gone-main (r ∷ rs) q (inr h) = Gone-main rs q h

  Gone-append : (xs ys : List Route) (q : Route) → Gone (xs ++ ys) q ↔ (Gone xs q ⊎ Gone ys q)
  Gone-append [] ys q = (inr, λ h. elim h [ inl a ↦ absurd a | inr b ↦ b ])
  Gone-append (x ∷ xs) ys q =
      let k = Gone-append xs ys q in
      (
        λ h. elim h [
          | inl a ↦ inl (inl a)
          | inr b ↦ elim (k.0 b) [ inl c ↦ inl (inr c) | inr d ↦ inr d ]
        ],
        λ h. elim h [
          | inl a ↦ elim a [ inl c ↦ inl c | inr d ↦ inr (k.1 (inl d)) ]
          | inr b ↦ inr (k.1 (inr b))
        ],
      )

module _ (index table : ℤ) where
  -- The copies in the new table.
  abbrev pub Copied : List Route → Route → Type 0
  Copied [] q = ⊥
  Copied (r ∷ rs) q = ((is_own index r ≡ true) × (q ≡ record r { table = table })) ⊎ Copied rs q

  -- The abstract operation on the set.
  abbrev pub Shifted : List Route → Type 0 → Route → Type 0
  Shifted rs P q = Copied rs q ⊎ (P × ¬ Gone index rs q)

  module _ (other : table ≢ rt_table_main) where
    -- A copy is in another table than what is deleted.
    Copied-table : (rs : List Route) (q : Route) → Copied rs q → q.table ≡ table
    Copied-table [] q h = absurd h
    Copied-table (r ∷ rs) q (inl (o, e)) = ap (λ (r : Route). r.table) e
    Copied-table (r ∷ rs) q (inr h) = Copied-table rs q h

    Copied-Gone : (xs ys : List Route) (q : Route) → Copied xs q → ¬ Gone index ys q
    Copied-Gone xs ys q c g = other (sym (Copied-table xs q c) ∙ Gone-main index ys q g)

    Copied-append :
        (xs ys : List Route) (q : Route) → Copied (xs ++ ys) q ↔ (Copied xs q ⊎ Copied ys q)
    Copied-append [] ys q = (inr, λ h. elim h [ inl a ↦ absurd a | inr b ↦ b ])
    Copied-append (x ∷ xs) ys q =
        let k = Copied-append xs ys q in
        (
          λ h. elim h [
            | inl a ↦ inl (inl a)
            | inr b ↦ elim (k.0 b) [ inl c ↦ inl (inr c) | inr d ↦ inr d ]
          ],
          λ h. elim h [
            | inl a ↦ elim a [ inl c ↦ inl c | inr d ↦ inr (k.1 (inl d)) ]
            | inr b ↦ inr (k.1 (inr b))
          ],
        )

    -- One list after the other is the list of both.
    pub Shifted-append :
        (xs ys : List Route) (P Q R : Type 0) (q : Route)
        → Q ↔ Shifted xs P q
        → R ↔ Shifted ys Q q
        → R ↔ Shifted (xs ++ ys) P q
    Shifted-append xs ys P Q R q f g =
        let c = Copied-append xs ys q in
        let d = Gone-append index xs ys q in
        (
          λ r. elim (g.0 r) [
            | inl y ↦ inl (c.1 (inr y))
            | inr (b, n) ↦ elim (f.0 b) [
              | inl x ↦ inl (c.1 (inl x))
              | inr (p, m) ↦ inr (p, λ h. elim (d.0 h) [ inl u ↦ m u | inr v ↦ n v ])
            ]
          ],
          λ h. elim h [
            | inl k ↦ elim (c.0 k) [
              | inl x ↦ g.1 (inr (f.1 (inl x), Copied-Gone xs ys q x))
              | inr y ↦ g.1 (inl y)
            ]
            | inr (p, m) ↦ g.1 (inr (f.1 (inr (p, λ u. m (d.1 (inl u)))), λ v. m (d.1 (inr v))))
          ],
        )
