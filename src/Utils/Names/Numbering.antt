-- ===== src/Utils/Names/Numbering.antt =====
-- The numbering of interfaces: "net1" comes after eth0 and belongs to table 100, "net2" after
-- "net1" with table 101, and so on.
use mathlib.Core.List.{reverse, reverse-append, reverse-reverse}
use cni_plugins.Base.{
  ℕ, ◌+◌, ◌-◌, ◌≤◌, ◌<◌, ◌^◌, ◌≡◌, refl, ◌∙◌, ap, sym, false, [], ◌∷◌, ◌++◌, arith, All, some,
}
use cni_plugins.Base.{Bool-cases, inl, inr, All-append}
use cni_plugins.Base.Text.{Text, codes, same_text, trim_left, trim, eq_of_same_text}
use cni_plugins.Base.Int.{pos, ◌-ℤ◌, wrap_64}
use cni_plugins.Utils.Names.{get_rule_number, get_default_route_interface, default_interface_name}
use cni_plugins.Utils.Names.Decimal.{itoa, atoi, IsDigit, atoi-itoa, itoa-IsDigit}

-- The name of the n-th additional interface.
abbrev pub net_name : ℕ → Text
net_name n = codes "net" ++ itoa (pos n)

trim_left-IsDigit : (c : ℕ) (s : Text) → IsDigit c → trim_left (c ∷ s) (codes "net") ≡ c ∷ s
trim_left-IsDigit c s h = ground arith

All-reverse : (s : Text) → All IsDigit s → All IsDigit (reverse s)
All-reverse [] h = tt
All-reverse (c ∷ s) h =
    rw (reverse-append (c ∷ []) s)
      (All-append IsDigit (reverse s) (c ∷ []) (All-reverse s h.1) (h.0, tt))

trim_left-digits : (s : Text) → All IsDigit s → trim_left s (codes "net") ≡ s
trim_left-digits [] h = refl
trim_left-digits (c ∷ s) h = trim_left-IsDigit c s h.0

trim_digits : (s : Text) → All IsDigit s → trim (codes "net" ++ s) (codes "net") ≡ s
trim_digits s h =
    rw (trim_left-digits s h, trim_left-digits (reverse s) (All-reverse s h), reverse-reverse)

trim-net_name : (n : ℕ) → trim (net_name n) (codes "net") ≡ itoa (pos n)
trim-net_name n = trim_digits (itoa (pos n)) (itoa-IsDigit n).0

atoi-net_name : (n : ℕ) → n < 2 ^ 63 → atoi (trim (net_name n) (codes "net")) ≡ some (pos n)
atoi-net_name n h = rw trim-net_name (atoi-itoa n h)

-- For 1 ≤ n < 2^63 - 100, the table of net<n> is 99 + n, where the sum is a 64-bit integer.
pub get_rule_number-net_name :
    (n : ℕ) → 1 ≤ n → n < 2 ^ 63 - 100 → get_rule_number (net_name n) ≡ pos (99 + n)
unfolding get_rule_number
get_rule_number-net_name n h k = rw (atoi-net_name n (omega arith)) (ground arith)

some-pos-injective : (m n : ℕ) → some (pos m) ≡ some (pos n) → m ≡ n
some-pos-injective m n h = ground arith

net_name-ne-net1 : (n : ℕ) → 2 ≤ n → n < 2 ^ 63 → same_text (net_name n) (codes "net1") ≡ false
unfolding itoa atoi
net_name-ne-net1 n h k = elim (Bool-cases (same_text (net_name n) (codes "net1"))) [
  | inl e ↦
      let same : net_name n ≡ codes "net1" = eq_of_same_text (net_name n) (codes "net1") e in
      let read : some (pos n) ≡ some (pos 1) =
        sym (atoi-net_name n k) ∙ ap (λ s. atoi (trim s (codes "net"))) same in
      absurd (omega (arith, some-pos-injective n 1 read))
  | inr e ↦ e
]

net_name_step : (n : ℕ) → 1 ≤ n → n < 2 ^ 63 - 1 → wrap_64 (pos (n + 1) -ℤ pos 1) ≡ pos n
net_name_step n h k = ground arith

-- The interface before net1 is eth0, and for 1 ≤ n < 2^63 - 1 the one before net<n + 1> is net<n>.
pub get_default_route_interface-net_name :
    (n : ℕ)
    → 1 ≤ n
    → n < 2 ^ 63 - 1
    → (get_default_route_interface (net_name 1) ≡ default_interface_name)
      × (get_default_route_interface (net_name (n + 1)) ≡ net_name n)
unfolding get_default_route_interface itoa
get_default_route_interface-net_name n h k = (
  refl,
  rw (
    net_name-ne-net1 (n + 1) (omega arith) (omega arith),
    atoi-net_name (n + 1) (omega arith),
    net_name_step n h k,
  ),
)

-- For 1 ≤ n < 2^63 - 101, the table of the interface before net<n + 1> is 99 + n, one below that of
-- net<n + 1>.
pub get_rule_number-get_default_route_interface :
    (n : ℕ)
    → 1 ≤ n
    → n < 2 ^ 63 - 101
    → (get_rule_number (get_default_route_interface (net_name (n + 1))) ≡ pos (99 + n))
      × (get_rule_number (net_name (n + 1)) ≡ pos (100 + n))
get_rule_number-get_default_route_interface n h k = (
  rw ((get_default_route_interface-net_name n h (omega arith)).1)
      (get_rule_number-net_name n h (omega arith)),
  get_rule_number-net_name (n + 1) (omega arith) (omega arith) ∙ ap pos (omega arith),
)
