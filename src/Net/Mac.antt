-- ===== src/Net/Mac.antt =====
-- Go's `HardwareAddr.String` and `net.ParseMAC`: hexadecimal pairs, and their round trip.
use cni_plugins.Base.{ℕ, ◌+◌, ◌-◌, ◌*◌, ◌/◌, ◌%◌, ◌<◌, ◌≡◌, refl, ap, ◌&&◌, ◌||◌}
use cni_plugins.Base.{
  Option, none, some, List, [], ◌∷◌, arith, ◌==◌, leb, ltb, if◌then◌else◌, length, All,
}
use cni_plugins.Base.Text.{Text}

-- One digit of the lower-case table "0123456789abcdef".
abbrev pub hex_digit : ℕ → ℕ
hex_digit n = if ltb n 10 then b'0' + n else b'a' + (n - 10)

-- A hexadecimal digit of either case.
abbrev pub hex_value : ℕ → Option ℕ
hex_value c =
    if leb b'0' c && leb c b'9'
    then some (c - b'0')
    else if leb b'a' c && leb c b'f'
    then some (c - b'a' + 10)
    else if leb b'A' c && leb c b'F'
    then some (c - b'A' + 10)
    else none

abbrev pub hex_pair : ℕ → ℕ → Option ℕ
hex_pair hi lo = elim (hex_value hi) [
  | none ↦ none
  | some h ↦ elim (hex_value lo) [ none ↦ none | some l ↦ some (h * 16 + l) ]
]

-- `HardwareAddr.String`
unfoldable pub mac_string : List ℕ → Text
mac_string [] = []
mac_string (b ∷ []) = hex_digit (b / 16) ∷ hex_digit (b % 16) ∷ []
mac_string (b ∷ c ∷ rest) = hex_digit (b / 16) ∷ hex_digit (b % 16) ∷ b':' ∷ mac_string (c ∷ rest)

abbrev cons_byte : Option ℕ → Option (List ℕ) → Option (List ℕ)
cons_byte (some b) (some rest) = some (b ∷ rest)
cons_byte _ _ = none

-- The form with a separator after each pair.
parse_pairs : ℕ → Text → Option (List ℕ)
parse_pairs sep (hi ∷ lo ∷ []) = cons_byte (hex_pair hi lo) (some [])
parse_pairs sep (hi ∷ lo ∷ c ∷ rest) =
    let more = parse_pairs sep rest in if c == sep then cons_byte (hex_pair hi lo) more else none
parse_pairs sep _ = none

-- The form with a dot after each two pairs.
parse_quads : Text → Option (List ℕ)
parse_quads (a ∷ b ∷ c ∷ d ∷ []) = cons_byte (hex_pair a b) (cons_byte (hex_pair c d) (some []))
parse_quads (a ∷ b ∷ c ∷ d ∷ e ∷ rest) =
    let more = parse_quads rest in
    if e == b'.' then cons_byte (hex_pair a b) (cons_byte (hex_pair c d) more) else none
parse_quads _ = none

abbrev known_length : Option (List ℕ) → Option (List ℕ)
known_length none = none
known_length (some hw) =
    if length hw == 6 || length hw == 8 || length hw == 20 then some hw else none

-- `net.ParseMAC`
unfoldable pub parse_mac_addr : Text → Option (List ℕ)
unfolding parse_pairs parse_quads
parse_mac_addr (a ∷ b ∷ c ∷ rest) =
    if c == b':' || c == b'-'
    then known_length (parse_pairs c (a ∷ b ∷ c ∷ rest))
    else known_length (parse_quads (a ∷ b ∷ c ∷ rest))
parse_mac_addr _ = none

abbrev pub IsByte : ℕ → Type 0
IsByte b = b < 256

pub hex_pair-hex_digit :
    (b : ℕ) → IsByte b → hex_pair (hex_digit (b / 16)) (hex_digit (b % 16)) ≡ some b
hex_pair-hex_digit b h = ground arith

parse_pairs-mac_string :
    (b : ℕ) (hw : List ℕ)
    → IsByte b
    → All IsByte hw
    → parse_pairs b':' (mac_string (b ∷ hw)) ≡ some (b ∷ hw)
unfolding parse_pairs mac_string
parse_pairs-mac_string b [] h hs = rw (hex_pair-hex_digit b h) refl
parse_pairs-mac_string b (c ∷ hw) h hs =
    rw (hex_pair-hex_digit b h, parse_pairs-mac_string c hw hs.0 hs.1) refl

-- An address of 6, 8 or 20 bytes is read back from its text.
pub parse_mac_addr-mac_string :
    (b c : ℕ) (hw : List ℕ)
    → All IsByte (b ∷ c ∷ hw)
    → known_length (some (b ∷ c ∷ hw)) ≡ some (b ∷ c ∷ hw)
    → parse_mac_addr (mac_string (b ∷ c ∷ hw)) ≡ some (b ∷ c ∷ hw)
unfolding parse_mac_addr mac_string
parse_mac_addr-mac_string b c hw h k = rw (parse_pairs-mac_string b (c ∷ hw) h.0 h.1) k

-- The text of no address at all is refused.
pub parse_mac_addr-nil : parse_mac_addr (mac_string []) ≡ none
unfolding parse_mac_addr mac_string
parse_mac_addr-nil = refl

-- Six pairs of hexadecimal digits, the first two of either case, between colons.
pub parse_mac_addr_six :
    (h l k m p q a b c d : ℕ)
    → hex_pair h l ≡ some p
    → hex_pair k m ≡ some q
    → All IsByte (a ∷ b ∷ c ∷ d ∷ [])
    → parse_mac_addr (h ∷ l ∷ b':' ∷ k ∷ m ∷ b':' ∷ mac_string (a ∷ b ∷ c ∷ d ∷ []))
      ≡ some (p ∷ q ∷ a ∷ b ∷ c ∷ d ∷ [])
unfolding parse_mac_addr
parse_mac_addr_six h l k m p q a b c d e f bytes =
    rw (parse_pairs-mac_string a (b ∷ c ∷ d ∷ []) bytes.0 bytes.1, e, f) refl

known_length-none : (o : Option ℕ) → known_length (cons_byte o none) ≡ none
known_length-none none = refl
known_length-none (some b) = refl

-- A first separator that is a dash does not agree with a later colon.
pub parse_mac_addr_dash :
    (h l k m : ℕ) (s : Text) → parse_mac_addr (h ∷ l ∷ b'-' ∷ k ∷ m ∷ b':' ∷ s) ≡ none
unfolding parse_mac_addr
parse_mac_addr_dash h l k m [] = known_length-none (hex_pair h l)
parse_mac_addr_dash h l k m (c ∷ s) = known_length-none (hex_pair h l)

cons_byte-none : (o : Option ℕ) → cons_byte o none ≡ none
cons_byte-none none = refl
cons_byte-none (some b) = refl

parse_pairs-none :
    (h l : ℕ) (s : Text) → parse_pairs b':' s ≡ none → parse_pairs b':' (h ∷ l ∷ b':' ∷ s) ≡ none
unfolding parse_pairs
parse_pairs-none h l s e = rw e (cons_byte-none (hex_pair h l))

-- Five pairs and two NUL characters are no address.
pub parse_mac_addr_nul :
    (h l k m a b c d e f : ℕ)
    → parse_mac_addr
        (h ∷ l ∷ b':' ∷ k ∷ m ∷ b':' ∷ a ∷ b ∷ b':' ∷ c ∷ d ∷ b':' ∷ e ∷ f ∷ b':' ∷ 0 ∷ 0 ∷ [])
      ≡ none
unfolding parse_mac_addr
parse_mac_addr_nul h l k m a b c d e f =
    let s1 : Text = e ∷ f ∷ b':' ∷ 0 ∷ 0 ∷ [] in
    let s2 : Text = c ∷ d ∷ b':' ∷ s1 in
    let s3 : Text = a ∷ b ∷ b':' ∷ s2 in
    let s4 : Text = k ∷ m ∷ b':' ∷ s3 in
    let ends = parse_pairs-none e f (0 ∷ 0 ∷ []) refl in
    ap known_length (
      parse_pairs-none h l s4
        (parse_pairs-none k m s3 (parse_pairs-none a b s2 (parse_pairs-none c d s1 ends))))
