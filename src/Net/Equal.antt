-- ===== src/Net/Equal.antt =====
-- `IP.Equal` compares the addresses that two byte slices stand for.
use cni_plugins.Base.{
  ℕ, zero, suc, ◌-◌, ◌≡◌, ◌⊎◌, refl, sym, ap, ◌∙◌, arith, Bool, true, false, ◌&&◌, Bool-cases, inl,
  inr, [], ◌∷◌, ◌++◌, ◌==◌, length, take, drop, from_option,
}
use cni_plugins.Base.Text.{same_text, same_text_self, eq_of_same_text}
use cni_plugins.Net.{Ip, to_4, ip_equal, v4_in_v6_prefix}

-- Four bytes for an IPv4 address, also for one in 16 bytes, and the slice itself otherwise.
abbrev key : Ip → Ip
key ip = from_option (to_4 ip) ip

take-drop : (n : ℕ) (s : Ip) → take n s ++ drop n s ≡ s
take-drop zero s = refl
take-drop (suc n) [] = refl
take-drop (suc n) (c ∷ s) = ap (λ t. c ∷ t) (take-drop n s)

length-drop : (n : ℕ) (s : Ip) → length (drop n s) ≡ length s - n
length-drop zero s = omega arith
length-drop (suc n) [] = omega arith
length-drop (suc n) (c ∷ s) = omega (arith, length-drop n s)

-- The bytes behind the prefix, where it is there.
abbrev mapped : Ip → Bool
mapped ip = same_text (take 12 ip) v4_in_v6_prefix

-- The three kinds of slices.
key_v4 : (a : Ip) → (length a == 4) ≡ true → key a ≡ a
key_v4 a e = rw e refl

key-mapped :
    (b : Ip)
    → (length b == 4) ≡ false
    → (length b == 16) ≡ true
    → mapped b ≡ true
    → key b ≡ drop 12 b
key-mapped b e f g = rw e (rw f (rw g refl))

key_other : (a : Ip) → (length a == 4) ≡ false → (length a == 16 && mapped a) ≡ false → key a ≡ a
key_other a e f = rw e (rw f refl)

and_true : (a b : Bool) → (a && b) ≡ true → (a ≡ true) × (b ≡ true)
and_true true b h = (refl, h)
and_true false b h = absurd (cc)

not-4 : (b : Ip) → (length b == 16) ≡ true → (length b == 4) ≡ false
not-4 b f = ground arith

cross_keys :
    (a b : Ip)
    → (length a == 4 && length b == 16) ≡ true
    → (mapped b && same_text a (drop 12 b)) ≡ true
    → key a ≡ key b
cross_keys a b e h =
    let (f, g) = and_true (length a == 4) (length b == 16) e in
    let (k, l) = and_true (mapped b) (same_text a (drop 12 b)) h in
    key_v4 a f ∙ (eq_of_same_text a (drop 12 b) l ∙ sym (key-mapped b (not-4 b g) g k))

same_text_sym : (s t : Ip) → same_text s t ≡ true → same_text t s ≡ true
same_text_sym s t h = let e = eq_of_same_text s t h in rw e (same_text_self t)

key_of_ip_equal : (a b : Ip) → ip_equal a b ≡ true → key a ≡ key b
unfolding ip_equal
key_of_ip_equal a b h = elim (Bool-cases (length a == length b)) [
  | inl e ↦ ap key (eq_of_same_text a b (rw e at h))
  | inr e ↦ elim (Bool-cases (length a == 4 && length b == 16)) [
    | inl f ↦ cross_keys a b f (rw f at (rw e at h))
    | inr f ↦ elim (Bool-cases (length a == 16 && length b == 4)) [
      | inl g ↦
          let (k, l) = and_true (length a == 16) (length b == 4) g in
          let (m, n) =
            and_true (mapped a) (same_text (drop 12 a) b) (rw g at (rw f at (rw e at h))) in
          let flipped : (length b == 4 && length a == 16) ≡ true = rw k (rw l refl) in
          let same : (mapped a && same_text b (drop 12 a)) ≡ true =
            rw m (same_text_sym (drop 12 a) b n) in
          sym (cross_keys b a flipped same)
      | inr g ↦ let k : false ≡ true = rw g at (rw f at (rw e at h)) in absurd (cc)
    ]
  ]
]

ip_equal_self : (a b : Ip) → a ≡ b → ip_equal a b ≡ true
unfolding ip_equal
ip_equal_self a b e =
    rw e (let h : (length b == length b) ≡ true = ground arith in rw h (same_text_self b))

-- A slice of 16 bytes with the prefix, or not.
abbrev IsMapped : Ip → Type 0
IsMapped a = (length a == 16 && mapped a) ≡ true

mapped_parts : (a : Ip) → IsMapped a → a ≡ v4_in_v6_prefix ++ drop 12 a
mapped_parts a h =
    let (k, l) = and_true (length a == 16) (mapped a) h in
    let e = eq_of_same_text (take 12 a) v4_in_v6_prefix l in
    sym (take-drop 12 a) ∙ ap (λ p. p ++ drop 12 a) e

mapped_length : (a : Ip) → IsMapped a → length (drop 12 a) ≡ 4
mapped_length a h =
    let (k, l) = and_true (length a == 16) (mapped a) h in
    let e : length a ≡ 16 = ground arith in length-drop 12 a ∙ rw e refl

mapped_key : (a : Ip) → IsMapped a → key a ≡ drop 12 a
mapped_key a h = let (k, l) = and_true (length a == 16) (mapped a) h in key-mapped a (not-4 a k) k l

-- A slice is an IPv4 address in 16 bytes, or is its own key.
key-cases : (a : Ip) → IsMapped a ⊎ (((length a == 16 && mapped a) ≡ false) × (key a ≡ a))
key-cases a = elim (Bool-cases (length a == 16 && mapped a)) [
  | inl e ↦ inl e
  | inr e ↦ elim (Bool-cases (length a == 4)) [
    | inl f ↦ inr (e, key_v4 a f)
    | inr f ↦ inr (e, key_other a f e)
  ]
]

ip_equal_crossed : (a b : Ip) → IsMapped b → a ≡ drop 12 b → ip_equal a b ≡ true
unfolding ip_equal
ip_equal_crossed a b h e =
    let (k, l) = and_true (length b == 16) (mapped b) h in
    let n : length a ≡ 4 = ap length e ∙ mapped_length b h in
    let m : length b ≡ 16 = ground arith in rw n (rw m (rw l (rw e (same_text_self (drop 12 b)))))

ip_equal_crossed_left : (a b : Ip) → IsMapped a → drop 12 a ≡ b → ip_equal a b ≡ true
unfolding ip_equal
ip_equal_crossed_left a b h e =
    let (k, l) = and_true (length a == 16) (mapped a) h in
    let n : length b ≡ 4 = ap length (sym e) ∙ mapped_length a h in
    let m : length a ≡ 16 = ground arith in
    rw n (rw m (rw l (rw (sym e) (same_text_self (drop 12 a)))))

ip_equal_of_key : (a b : Ip) → key a ≡ key b → ip_equal a b ≡ true
ip_equal_of_key a b h = elim (key-cases a) [
  | inl m ↦ elim (key-cases b) [
    | inl n ↦
        let e = sym (mapped_key a m) ∙ (h ∙ mapped_key b n) in
        ip_equal_self a b
          (mapped_parts a m ∙ (ap (λ s. v4_in_v6_prefix ++ s) e ∙ sym (mapped_parts b n)))
    | inr (n, k) ↦ ip_equal_crossed_left a b m (sym (mapped_key a m) ∙ (h ∙ k))
  ]
  | inr (m, k) ↦ elim (key-cases b) [
    | inl n ↦ ip_equal_crossed a b n (sym k ∙ (h ∙ mapped_key b n))
    | inr (n, l) ↦ ip_equal_self a b (sym k ∙ (h ∙ l))
  ]
]

pub ip_equal_sym : (a b : Ip) → ip_equal a b ≡ true → ip_equal b a ≡ true
ip_equal_sym a b h = ip_equal_of_key b a (sym (key_of_ip_equal a b h))

pub ip_equal_trans : (a b c : Ip) → ip_equal a b ≡ true → ip_equal b c ≡ true → ip_equal a c ≡ true
ip_equal_trans a b c h k = ip_equal_of_key a c (key_of_ip_equal a b h ∙ key_of_ip_equal b c k)
