-- ===== src/Utils/Names/Decimal.antt =====
-- Go's `strconv.Atoi` and the verb `%d` for a 64-bit `int`, and that the first reads the second.
use cni_plugins.Base.{
  ℕ, zero, suc, ◌+◌, ◌-◌, ◌*◌, ◌/◌, ◌%◌, ◌^◌, ◌≤◌, ◌<◌, ◌≡◌, refl, ◌∙◌, true, ◌&&◌, Option, none,
  some, [], ◌∷◌, arith,
}
use cni_plugins.Base.{◌==◌, leb, ltb, if◌then◌else◌, All, Bool-cases, inl, inr, ap}
use cni_plugins.Base.Text.{Text}
use cni_plugins.Base.Int.{ℤ, pos, negsuc}

-- The decimal digits of a text, read after the number `n`.
pub read_digits : Text → ℕ → Option ℕ
read_digits [] n = some n
read_digits (c ∷ s) n =
    let rest = read_digits s (n * 10 + (c - b'0')) in
    if leb b'0' c && leb c b'9' then rest else none

-- One digit at least.
abbrev read_number : Text → Option ℕ
read_number [] = none
read_number (c ∷ s) = read_digits (c ∷ s) 0

abbrev positive : Option ℕ → Option ℤ
positive none = none
positive (some n) = if ltb n (2 ^ 63) then some (pos n) else none

abbrev negative : Option ℕ → Option ℤ
negative none = none
negative (some zero) = some (pos 0)
negative (some (suc n)) = if ltb n (2 ^ 63) then some (negsuc n) else none

-- `strconv.Atoi`; an error, out of range too, is `none`.
unfoldable pub atoi : Text → Option ℤ
unfolding read_digits
atoi [] = none
atoi (c ∷ s) =
    if c == b'-'
    then negative (read_number s)
    else if c == b'+'
    then positive (read_number s)
    else positive (read_number (c ∷ s))

-- The digits of `n` in front of `acc`; 20 rounds do for every 64-bit number.
pub decimal : ℕ → ℕ → Text → Text
decimal zero n acc = acc
decimal (suc f) n acc =
    let rest = decimal f (n / 10) ((b'0' + n % 10) ∷ acc) in
    if ltb n 10 then (b'0' + n % 10) ∷ acc else rest

-- `fmt.Sprintf("%d", z)`
unfoldable pub itoa : ℤ → Text
unfolding decimal
itoa (pos n) = decimal 20 n []
itoa (negsuc n) = b'-' ∷ decimal 20 (n + 1) []

abbrev pub IsDigit : ℕ → Type 0
IsDigit c = (b'0' ≤ c) × (c ≤ b'9')

pub decimal-IsDigit : (f n : ℕ) (acc : Text) → All IsDigit acc → All IsDigit (decimal f n acc)
unfolding decimal
decimal-IsDigit zero n acc h = h
decimal-IsDigit (suc f) n acc h = elim (Bool-cases (ltb n 10)) [
  | inl e ↦ rw e (omega arith, h)
  | inr e ↦ rw e (decimal-IsDigit f (n / 10) ((b'0' + n % 10) ∷ acc) (omega arith, h))
]

read_digits-digit :
    (m n : ℕ) (acc : Text)
    → read_digits ((b'0' + n % 10) ∷ acc) m ≡ read_digits acc (m * 10 + n % 10)
unfolding read_digits
read_digits-digit m n acc = ground arith

-- The first number with more than `f` digits.
abbrev pub power_of_ten : ℕ → ℕ
power_of_ten zero = 1
power_of_ten (suc f) = 10 * power_of_ten f

read_digits-decimal :
    (f n : ℕ) (acc : Text)
    → n < power_of_ten (suc f)
    → read_digits (decimal (suc f) n acc) 0 ≡ read_digits acc n
unfolding decimal
read_digits-decimal zero n acc h =
    let small : ltb n 10 ≡ true = ground arith in
    rw small (rw read_digits-digit (ap (read_digits acc) (omega arith)))
read_digits-decimal (suc f) n acc h = elim (Bool-cases (ltb n 10)) [
  | inl e ↦
      let small : n < 10 = ground arith in
      rw e (rw read_digits-digit (ap (read_digits acc) (omega arith)))
  | inr e ↦ rw e (
      read_digits-decimal f (n / 10) ((b'0' + n % 10) ∷ acc) (omega arith)
      ∙ rw read_digits-digit (ap (read_digits acc) (omega arith)))
]

decimal-ne-nil : (f n c : ℕ) (acc : Text) → (d : ℕ) × (s : Text) × (decimal f n (c ∷ acc) ≡ d ∷ s)
unfolding decimal
decimal-ne-nil zero n c acc = (c, acc, refl)
decimal-ne-nil (suc f) n c acc = elim (Bool-cases (ltb n 10)) [
  | inl e ↦ (b'0' + n % 10, c ∷ acc, rw e)
  | inr e ↦ rw e (decimal-ne-nil f (n / 10) (b'0' + n % 10) (c ∷ acc))
]

decimal-head : (f n : ℕ) → (d : ℕ) × (s : Text) × (decimal (suc f) n [] ≡ d ∷ s)
unfolding decimal
decimal-head f n = elim (Bool-cases (ltb n 10)) [
  | inl e ↦ (b'0' + n % 10, [], rw e)
  | inr e ↦ rw e (decimal-ne-nil f (n / 10) (b'0' + n % 10) [])
]

atoi_digits :
    (c : ℕ) (s : Text) (n : ℕ)
    → IsDigit c
    → n < 2 ^ 63
    → read_digits (c ∷ s) 0 ≡ some n
    → atoi (c ∷ s) ≡ some (pos n)
unfolding atoi
atoi_digits c s n h small e = ground arith

-- A number of 63 bits is read back from its digits.
pub atoi-itoa : (n : ℕ) → n < 2 ^ 63 → atoi (itoa (pos n)) ≡ some (pos n)
unfolding itoa read_digits
atoi-itoa n h =
    let (d, s, e) = decimal-head 19 n in
    let digits : All IsDigit (decimal 20 n []) = decimal-IsDigit 20 n [] tt in
    let number : read_digits (decimal 20 n []) 0 ≡ some n =
      read_digits-decimal 19 n [] (omega arith) in
    rw e (atoi_digits d s n (rw e at digits).0 h (rw e at number))

-- `%d` of a natural number is a non-empty run of digits.
pub itoa-IsDigit :
    (n : ℕ) → All IsDigit (itoa (pos n)) × ((d : ℕ) × (s : Text) × (itoa (pos n) ≡ d ∷ s))
unfolding itoa
itoa-IsDigit n = (decimal-IsDigit 20 n [] tt, decimal-head 19 n)
