-- ===== src/Utils/Sysctl/Store.antt =====
-- The kernel's parameters as a store for each namespace, and how the code writes it.
use cni_plugins.Base.{
  ◌≡◌, refl, inl, inr, Bool, true, false, ◌&&◌, [], ◌∷◌, if◌then◌else◌, Bool-cases,
}
use cni_plugins.Base.Text.{Text, same_text, eq_of_same_text}
use cni_plugins.World.{Trace, Netns, host, pod, Env, good, sysctl_get, sysctl_set}

abbrev pub Store : Type 0
Store = Netns → Text → Text

abbrev pub same_ns : Netns → Netns → Bool
same_ns host host = true
same_ns pod pod = true
same_ns _ _ = false

-- The store after the writes of a trace: a parameter holds what was last written to it.
abbrev pub store_after : Store → Trace → Store
store_after s [] n name = s n name
store_after s (e ∷ t) n name =
    let rest = store_after s t n name in
    elim e.call [
      | sysctl_set k v ↦ if same_ns e.ns n && same_text k name then v else rest
      | _ ↦ rest
    ]

-- Parameters can be written, and reading gives what was written last.
abbrev pub IsStore : Env → Store → Type 0
IsStore env s =
    ((t : Trace) (n : Netns) (name : Text)
      → env.answer t n (sysctl_get name) ≡ good (store_after s t n name))
    × ((t : Trace) (n : Netns) (name value : Text)
        → env.answer t n (sysctl_set name value) ≡ good tt)

same_ns_eq : (m n : Netns) → same_ns m n ≡ true → m ≡ n
same_ns_eq host host h = refl
same_ns_eq pod pod h = refl
same_ns_eq host pod h = absurd (cc)
same_ns_eq pod host h = absurd (cc)

-- The abstract operation: the parameters of one kind in one namespace get one value.
abbrev pub write_kind : Netns → (Text → Bool) → Text → Store → Store
write_kind n kind value s m k = if same_ns n m && kind k then value else s m k

module _ (s : Store) (n : Netns) where
  pub set_lem :
      (name value : Text) (t : Trace) (m : Netns) (k : Text)
      → store_after s ((record { ns = n; call = sysctl_set name value }) ∷ t) m k
        ≡ write_kind n (same_text name) value (store_after s t) m k
  set_lem name value t m k = refl

  -- Writing a parameter the value that it has changes nothing.
  pub write_kind-same :
      (name value : Text) (t : Trace) (m : Netns) (k : Text)
      → same_text (store_after s t n name) value ≡ true
      → store_after s t m k ≡ write_kind n (same_text name) value (store_after s t) m k
  write_kind-same name value t m k e = elim (Bool-cases (same_ns n m)) [
    | inr f ↦ rw f refl
    | inl f ↦ elim (Bool-cases (same_text name k)) [
      | inr g ↦ rw (f, g) refl
      | inl g ↦
          let at : store_after s t n name ≡ value = eq_of_same_text _ _ e in
          rw (f, g) (rw (same_ns_eq n m f, eq_of_same_text name k g) at at)
    ]
  ]
