-- ===== src/Utils/Sysctl/Loops.antt =====
-- One operation on the store, done by a loop over directories.
use cni_plugins.Base.{
  ◌≡◌, ◌∙◌, refl, inl, inr, Bool, List, [], ◌∷◌, Bool-cases, exists, if◌then◌else◌, ◌&&◌, ◌||◌,
  arith,
}
use cni_plugins.Base.Text.{Text, codes, same_text}
use cni_plugins.World.{
  Trace, Netns, M, Env, Error, errorf, ok, for_each, pass, call, sysctl_get, sysctl_set, ◌>>=◌,
  pure, choose, wrap,
}
use cni_plugins.Utils.Sysctl.{disable_ipv6_name}
use cni_plugins.Utils.Sysctl.Store.{
  Store, store_after, IsStore, same_ns, write_kind, set_lem, write_kind-same,
}

-- The parameter is that of one of the directories.
abbrev pub among : (Text → Text) → List Text → Text → Bool
among name dirs k = exists (λ dir. same_text (name dir) k) dirs

-- In the namespace, the action succeeds and does the abstract operation on the store.
pub record Writes (s : Store) (n : Netns) (kind : Text → Bool) (value : Text) (m : M Unit)
    : Type 0 where
  pub run :
      (t : Trace)
      → (t' : Trace) × (m (record { ns = n; trace = t }) ≡ (ok tt, record { ns = n; trace = t' }))
        × ((o : Netns) (k : Text)
            → store_after s t' o k ≡ write_kind n kind value (store_after s t) o k)

-- The second of two writes of one value.
write_both :
    (b x y : Bool) (value old new last : Text)
    → new ≡ (if b && x then value else old)
    → last ≡ (if b && y then value else new)
    → last ≡ (if b && (x || y) then value else old)
write_both b x y value old new last p q = ground (arith, p, q)

module _ (s : Store) (n : Netns) (name : Text → Text) (value : Text) where
  pub for_each-Writes :
      (dirs : List Text) (body : Text → M Unit)
      → ((dir : Text) → Writes s n (same_text (name dir)) value (body dir))
      → Writes s n (among name dirs) value (for_each dirs body)
  unfolding for_each pure ◌>>=◌
  for_each-Writes [] body h = record { run = λ t. (t, refl, λ o k. ground arith) }
  for_each-Writes (dir ∷ dirs) body h = record {
    run = λ t.
        let (t1, e, c) = (h dir).run t in
        let (t2, e', c') = (for_each-Writes dirs body h).run t1 in
        (
          t2,
          rw e e',
          λ o k.
              write_both (same_ns n o) (same_text (name dir) k) (among name dirs k) value
                (store_after s t o k) (store_after s t1 o k) (store_after s t2 o k) (c o k)
                (c' o k),
        );
  }

-- A round of `EnableIpv6Sysctl`.
abbrev pub ipv6_round : Env → Text → M Unit
ipv6_round env dir = do
  value ←
      wrap (errorf "failed to read current sysctl %+v value: %v")
        (call env (sysctl_get (disable_ipv6_name dir)))
  choose (same_text value (codes "0")) pass (
      wrap (errorf "failed to read current sysctl %+v value: %v ")
        (call env (sysctl_set (disable_ipv6_name dir) (codes "0"))))

pub wrap-Writes :
    (s : Store) (n : Netns) (kind : Text → Bool) (value : Text) (f : Error → Error) (m : M Unit)
    → Writes s n kind value m
    → Writes s n kind value (wrap f m)
unfolding wrap
wrap-Writes s n kind value f m h = record {
  run = λ t. let (t', e, c) = h.run t in (t', rw e refl, c);
}

module _ (env : Env) (s : Store) (is_store : IsStore env s) (n : Netns) where
  -- Writing a parameter, unless it has the value already.
  pub unless_same-Writes :
      (k value : Text) (m : M Unit)
      → ((t : Trace)
          → m (record { ns = n; trace = t })
            ≡ choose
                (same_text (store_after s t n k) value)
                pass
                (call env (sysctl_set k value))
                (record { ns = n; trace = (record { ns = n; call = sysctl_get k }) ∷ t }))
      → Writes s n (same_text k) value m
  unfolding choose pure call
  unless_same-Writes k value m h = record {
    run = λ t. elim (Bool-cases (same_text (store_after s t n k) value)) [
      | inl e ↦ (
        (record { ns = n; call = sysctl_get k }) ∷ t,
        h t ∙ rw e refl,
        λ o j. write_kind-same s n k value t o j e,
      )
      | inr e ↦
          let t1 : Trace = (record { ns = n; call = sysctl_get k }) ∷ t in
          (
            (record { ns = n; call = sysctl_set k value }) ∷ t1,
            h t ∙ rw (e, is_store.1 t1 n k value) refl,
            λ o j. set_lem s n k value t1 o j,
          )
    ];
  }
