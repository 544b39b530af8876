-- ===== src/Utils/Addresses/Wanted.antt =====
-- Which interfaces and addresses are selected, said without the code's own tests.
use cni_plugins.Base.{◌≡◌, refl, arith, Bool, ◌&&◌, ◌||◌, not, List, [], ◌∷◌, length, take, exists}
use cni_plugins.Base.Text.{Text, codes, same_text, has_prefix}
use cni_plugins.Net.{Ip, is_v4, is_multicast, is_link_local_unicast}
use cni_plugins.Utils.Addresses.{is_excluded, is_wanted, contains_text, excluded_words}

-- What is left of a text behind each of its bytes, and the text itself.
abbrev pub tails : Text → List Text
tails [] = [] ∷ []
tails (c ∷ s) = (c ∷ s) ∷ tails s

-- The word stands somewhere in the text.
abbrev pub has_word : Text → Text → Bool
has_word s word = exists (λ t. same_text (take (length word) t) word) (tails s)

-- The interface's name has one of the words.
abbrev pub is_passed_over : Text → Bool
is_passed_over name =
    exists (λ word. has_word name (codes word))
      ("docker" ∷ "cbr" ∷ "dummy" ∷ "virbr" ∷ "lxcbr" ∷ "veth" ∷ "lo" ∷ "cali" ∷ "tunl" ∷ "flannel"
        ∷ "kube-ipvs" ∷ "cni" ∷ [])

-- The address is neither multicast nor link-local, and its family is enabled.
abbrev pub is_unicast_of : Bool → Bool → Ip → Bool
is_unicast_of enable_ipv4 enable_ipv6 ip =
    not (is_multicast ip)
    && not (is_link_local_unicast ip)
    && (is_v4 ip && enable_ipv4 || not (is_v4 ip) && enable_ipv6)

has_prefix-take : (s word : Text) → has_prefix s word ≡ same_text (take (length word) s) word
has_prefix-take s [] = refl
has_prefix-take [] (c ∷ word) = refl
has_prefix-take (a ∷ s) (c ∷ word) = rw (has_prefix-take s word) refl

contains_text-has_word : (s word : Text) → contains_text s word ≡ has_word s word
contains_text-has_word [] [] = refl
contains_text-has_word [] (c ∷ word) = refl
contains_text-has_word (a ∷ s) word =
    rw (has_prefix-take (a ∷ s) word, contains_text-has_word s word) refl

exists-has_word :
    (s : Text) (words : List Text) → exists (contains_text s) words ≡ exists (has_word s) words
exists-has_word s [] = refl
exists-has_word s (w ∷ words) = rw (contains_text-has_word s w, exists-has_word s words) refl

pub is_excluded-words : (name : Text) → is_excluded name ≡ is_passed_over name
unfolding is_excluded
is_excluded-words name = exists-has_word name excluded_words

pub is_wanted-unicast :
    (ip : Ip) (enable_ipv4 enable_ipv6 : Bool)
    → is_wanted ip enable_ipv4 enable_ipv6 ≡ is_unicast_of enable_ipv4 enable_ipv6 ip
unfolding is_wanted
is_wanted-unicast ip enable_ipv4 enable_ipv6 = ground arith
