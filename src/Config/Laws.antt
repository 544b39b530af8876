-- ===== src/Config/Laws.antt =====
-- What the validated configuration is guaranteed to hold.
use cni_plugins.Base.{
  ℕ, ◌+◌, ◌*◌, ◌≡◌, ◌≢◌, refl, ◌↔◌, ◌⊎◌, inl, inr, Bool, true, false, ◌&&◌, ◌||◌, not, Option, none,
  some, List, [], ◌∷◌, ◌++◌, if◌then◌else◌, is_empty, is_some, map, from_option, ◌==◌, All, arith,
  Option-cases, Bool-cases,
}
use cni_plugins.Base.Text.{Text, codes, trim_space}
use cni_plugins.Base.Int.{ℤ, pos, ==ℤ_iff}
use cni_plugins.Net.{Ip, IpNet}
use cni_plugins.Net.Mac.{hex_value, hex_pair, parse_mac_addr, parse_mac_addr_dash}
use cni_plugins.Types.{RpFilter, MigrateRoute, migrate_auto, migrate_never, migrate_enable}
use cni_plugins.World.{Error}
use cni_plugins.Config.{
  reject_if, ◌>>=◌, ◌>>◌, rp_value, is_rp_value, Checked, valid, invalid, validate_rp_filter_config,
  validate_migrate_route_config, check_subnets, validate_routes, validate_overwrite_mac_address,
}

abbrev pub IsRpValue : ℤ → Type 0
IsRpValue v = (v ≡ pos 0) ⊎ (v ≡ pos 1) ⊎ (v ≡ pos 2)

rp_value-IsRpValue : (o : Option ℤ) → (v : ℤ) × (rp_value o ≡ some v) × IsRpValue v
rp_value-IsRpValue none = (pos 2, refl, inr (inr refl))
rp_value-IsRpValue (some v) = elim (Bool-cases (is_rp_value v)) [
  | inl e ↦ (v, rw e, ground (arith, ==ℤ_iff v (pos 0), ==ℤ_iff v (pos 1), ==ℤ_iff v (pos 2)))
  | inr e ↦ (pos 2, rw e, inr (inr refl))
]

-- Where the validated configuration sets the host's rp_filter, its value is there and is 0, 1 or 2.
pub validate_rp_filter_config-IsRpValue :
    (c : Option RpFilter)
    → (validate_rp_filter_config c).enable ≡ some true
    → (v : ℤ) × ((validate_rp_filter_config c).value ≡ some v) × IsRpValue v
unfolding validate_rp_filter_config
validate_rp_filter_config-IsRpValue none h = (pos 2, refl, inr (inr refl))
validate_rp_filter_config-IsRpValue (some c) h =
    let on : from_option c.enable false ≡ true = ground arith in rw on (rp_value-IsRpValue c.value)

-- Where it is not, the configuration is passed on as it is: a value outside 0, 1 and 2 survives.
pub validate_rp_filter_config_off :
    (c : RpFilter) → c.enable ≢ some true → validate_rp_filter_config (some c) ≡ c
unfolding validate_rp_filter_config
validate_rp_filter_config_off c h = ground arith

-- The validated migration setting is one of the three named ones, and it is the given one or the
-- automatic one.
pub validate_migrate_route_config_named :
    (c : Option MigrateRoute)
    → let v = validate_migrate_route_config c in
      ((v ≡ migrate_auto) ⊎ (v ≡ migrate_never) ⊎ (v ≡ migrate_enable))
      × ((c ≡ some v) ⊎ (v ≡ migrate_auto))
unfolding validate_migrate_route_config
validate_migrate_route_config_named none = (inl refl, inr refl)
validate_migrate_route_config_named (some v) =
    ground (arith, ==ℤ_iff v migrate_auto, ==ℤ_iff v migrate_never, ==ℤ_iff v migrate_enable)

abbrev chain :
    Bool
    → Bool
    → Error
    → Error
    → Checked (Unit {0})
    → Checked (Unit {0})
    → List Text
    → List Text
    → Checked (List Text × List Text)
chain b c p q l m x y = do
  reject_if b p
  reject_if c q
  u ← l >> valid x
  v ← m >> valid y
  valid (u, v)

-- A chain of two tests and two checks succeeds exactly if each of them does.
chain_iff :
    (b c : Bool) (p q : Error) (l m : Checked (Unit {0})) (x y o s : List Text)
    → (chain b c p q l m x y ≡ valid (o, s))
      ↔ ((b ≡ false) × (c ≡ false) × (l ≡ valid tt) × (m ≡ valid tt) × (o ≡ x) × (s ≡ y))
chain_iff true c p q l m x y o s = (λ h. absurd (cc), λ h. absurd (cc))
chain_iff false true p q l m x y o s = (λ h. absurd (cc), λ h. absurd (cc))
chain_iff false false p q (invalid e) m x y o s = (λ h. absurd (cc), λ h. absurd (cc))
chain_iff false false p q (valid a) (invalid e) x y o s = (λ h. absurd (cc), λ h. absurd (cc))
chain_iff false false p q (valid a) (valid b) x y o s =
    (λ h. (refl, refl, refl, refl, ground arith, ground arith), λ h. ground arith)

module _ (parse : Text → Option (Ip × IpNet)) where
  -- Every text is a subnet.
  abbrev pub AreSubnets : List Text → Type 0
  AreSubnets = All (λ s. is_some (parse s) ≡ true)

  check_subnets-AreSubnets :
      (routes : List Text) → (check_subnets parse routes ≡ valid tt) ↔ AreSubnets routes
  unfolding check_subnets
  check_subnets-AreSubnets [] = (λ h. tt, λ h. refl)
  check_subnets-AreSubnets (r ∷ rs) = elim (Option-cases (parse r)) [
    | inl e ↦ rw (e, check_subnets) (λ h. absurd (cc), λ h. absurd (cc))
    | inr (p, e) ↦
        rw (e, check_subnets)
          (λ h. (refl, (check_subnets-AreSubnets rs).0 h), λ h. (check_subnets-AreSubnets rs).1 h.1)
  ]

  -- The two lists of subnets are accepted exactly if neither is empty and each entry, once trimmed,
  -- is a subnet; what is returned is the trimmed entries of each, in their order.
  pub validate_routes_iff :
      (overlay service ovl svc : List Text)
      → (validate_routes parse overlay service ≡ valid (ovl, svc)) ↔ (
          (is_empty overlay ≡ false)
          × (is_empty service ≡ false)
          × AreSubnets ovl
          × AreSubnets svc
          × (ovl ≡ map trim_space overlay)
          × (svc ≡ map trim_space service))
  unfolding validate_routes
  validate_routes_iff overlay service ovl svc =
      let chain =
        chain_iff (is_empty overlay) (is_empty service) _ _
          (check_subnets parse (map trim_space overlay))
          (check_subnets parse (map trim_space service)) (map trim_space overlay)
          (map trim_space service) ovl svc in
      (
        λ h.
            let (a, b, c, d, e, f) = chain.0 h in
            (
              a,
              b,
              rw e ((check_subnets-AreSubnets _).0 c),
              rw f ((check_subnets-AreSubnets _).0 d),
              e,
              f,
            ),
        λ (a, b, c, d, e, f). chain.1 (
          a,
          b,
          (check_subnets-AreSubnets _).1 (rw e at c),
          (check_subnets-AreSubnets _).1 (rw f at d),
          e,
          f,
        ),
      )

-- The bytes of the two pairs of a text in the form of a prefix.
pair_of_is_hex :
    (h l : ℕ)
    → is_some (hex_value h) ≡ true
    → is_some (hex_value l) ≡ true
    → (p : ℕ) × (hex_pair h l ≡ some p)
pair_of_is_hex h l a b = elim (Option-cases (hex_value h)) [
  | inl e ↦ absurd (none_is_some (hex_value h) e a)
  | inr (x, e) ↦ elim (Option-cases (hex_value l)) [
    | inl f ↦ absurd (none_is_some (hex_value l) f b)
    | inr (y, f) ↦ (x * 16 + y, hex_pair_of e f)
  ]
]
  where
    none_is_some : (o : Option ℕ) → o ≡ none → is_some o ≡ true → ⊥
    none_is_some none e t = cc
    none_is_some (some v) e t = cc

    hex_pair_of :
        {x y : ℕ} → hex_value h ≡ some x → hex_value l ≡ some y → hex_pair h l ≡ some (x * 16 + y)
    hex_pair_of e f = rw (e, f, hex_pair) refl

module _ (h l k m : ℕ) where
  -- A prefix of hexadecimal pairs with a dash between them is accepted, though the hardware address
  -- that is made of it cannot be read, whatever the suffix.
  pub validate_overwrite_mac_address_dash :
      (suffix : Text)
      → is_some (hex_value h) ≡ true
      → is_some (hex_value l) ≡ true
      → is_some (hex_value k) ≡ true
      → is_some (hex_value m) ≡ true
      → (validate_overwrite_mac_address (h ∷ l ∷ b'-' ∷ k ∷ m ∷ []) ≡ valid tt)
        × (parse_mac_addr ((h ∷ l ∷ b'-' ∷ k ∷ m ∷ []) ++ (codes ":" ++ suffix)) ≡ none)
  unfolding validate_overwrite_mac_address
  validate_overwrite_mac_address_dash suffix a b c d =
      (rw (a, b, c, d) refl, parse_mac_addr_dash h l k m suffix)

five_tests :
    (a b c d f : Bool) (x : Error)
    → (if not (a && b && c && d && f) then invalid x else valid tt) ≡ valid tt
    → (a ≡ true) × (b ≡ true) × (c ≡ true) × (d ≡ true) × (f ≡ true)
five_tests a b c d f x h = ground arith

separators : (sep : ℕ) → (sep == b':' || sep == b'-') ≡ true → (sep ≡ b':') ⊎ (sep ≡ b'-')
separators sep h = ground arith

-- An accepted prefix is empty, or two hexadecimal pairs with a colon or a dash between them.
pub validate_overwrite_mac_address_form :
    (prefix : Text)
    → validate_overwrite_mac_address prefix ≡ valid tt
    → (prefix ≡ [])
      ⊎ ((h : ℕ) × (l : ℕ) × (sep : ℕ) × (k : ℕ) × (m : ℕ) × (p : ℕ) × (q : ℕ) × (prefix
            ≡ h ∷ l ∷ sep ∷ k ∷ m ∷ [])
          × ((sep ≡ b':') ⊎ (sep ≡ b'-'))
          × (hex_pair h l ≡ some p)
          × (hex_pair k m ≡ some q))
unfolding validate_overwrite_mac_address
validate_overwrite_mac_address_form [] e = inl refl
validate_overwrite_mac_address_form (h ∷ l ∷ sep ∷ k ∷ m ∷ []) e =
    let (a, b, c, d, f) =
      five_tests (is_some (hex_value h)) (is_some (hex_value l)) (sep == b':' || sep == b'-')
        (is_some (hex_value k)) (is_some (hex_value m)) _ e in
    let first = pair_of_is_hex h l a b in
    let second = pair_of_is_hex k m d f in
    inr (h, l, sep, k, m, first.0, second.0, refl, separators sep c, first.1, second.1)
validate_overwrite_mac_address_form (h ∷ l ∷ sep ∷ k ∷ m ∷ n ∷ s) e = absurd (cc)
validate_overwrite_mac_address_form (h ∷ l ∷ sep ∷ k ∷ []) e = absurd (cc)
validate_overwrite_mac_address_form (h ∷ l ∷ sep ∷ []) e = absurd (cc)
validate_overwrite_mac_address_form (h ∷ l ∷ []) e = absurd (cc)
validate_overwrite_mac_address_form (h ∷ []) e = absurd (cc)
