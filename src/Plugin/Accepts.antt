-- ===== src/Plugin/Accepts.antt =====
-- Configurations and previous results that both plugins accept.
use cni_plugins.Base.{◌≡◌, refl, false, none, Option, List, [], ◌∷◌}
use cni_plugins.Base.Text.{Text}
use cni_plugins.Base.Int.{is_negative}
use cni_plugins.Net.{Ip}
use cni_plugins.Types.{IpConflict}
use cni_plugins.World.{Trace, host, Env, pure, choose}
use cni_plugins.World.Succeeds.{Succeeds, Any, pure-Succeeds}
use cni_plugins.Config.{Checked, valid, validate_overwrite_mac_address, validate_ip_conflict}
use cni_plugins.Utils.Names.{get_rule_number}
use cni_plugins.Plugin.{lift, first_interface, check_conflict}

-- The first interface has a rule table.
abbrev pub HasRule : List Text → Type 0
HasRule [] = ⊥
HasRule (name ∷ names) = is_negative (get_rule_number name) ≡ false

pub check_conflict-Succeeds :
    {I : Trace → Type 0}
    → (env : Env) (name : Text) (ips : List Ip)
    → Succeeds I host Any (check_conflict env none name ips)
unfolding check_conflict
check_conflict-Succeeds env name ips = pure-Succeeds host Any tt tt

pub first_interface-Succeeds :
    {I : Trace → Type 0}
    → (names : List Text) → HasRule names
    → Succeeds I host (λ name. is_negative (get_rule_number name) ≡ false) (first_interface names)
unfolding first_interface get_rule_number choose pure
first_interface-Succeeds [] h = absurd h
first_interface-Succeeds ([] ∷ names) h = absurd (cc)
first_interface-Succeeds ((c ∷ name) ∷ names) h =
    pure-Succeeds host (λ name. is_negative (get_rule_number name) ≡ false) (c ∷ name) h

pub lift-Succeeds :
    {I : Trace → Type 0}
    → {A : Type 0} (Q : A → Type 0) (c : Checked A) (a : A) → c ≡ valid a
    → Q a
    → Succeeds I host Q (lift c)
unfolding lift
lift-Succeeds Q c a e q = rw e (pure-Succeeds host Q a q)

pub no_prefix-valid : (s : Text) → s ≡ [] → validate_overwrite_mac_address s ≡ valid tt
unfolding validate_overwrite_mac_address
no_prefix-valid s e = rw e refl

pub no_conflict : (o : Option IpConflict) → o ≡ none → validate_ip_conflict o ≡ none
unfolding validate_ip_conflict
no_conflict o e = rw e refl
