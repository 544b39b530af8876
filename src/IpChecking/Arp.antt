-- ===== src/IpChecking/Arp.antt =====
-- pkg/ipchecking/arp.go. The sending loop and the receiving goroutine share `err`,
-- `conflictingMac` and the context. Their steps are taken in the order of a list of events, which
-- the scheduler and the network choose; where the list ends, the ticks that are left send without
-- an error and nothing more is received.
pub mod Replies
use cni_plugins.Base.{
  ℕ, zero, suc, ◌≡◌, refl, ◌⊎◌, inl, inr, Bool, true, false, ◌&&◌, ◌||◌, not, Option, none, some,
  List, [], ◌∷◌, if◌then◌else◌, is_some, is_none, is_empty, exists, arith, All,
}
use cni_plugins.Base.Text.{Text, same_text}
use cni_plugins.Base.Int.{ℤ, pos_part}
use cni_plugins.Net.{Ip, Bytes}
use cni_plugins.Net.Mac.{mac_string}
use cni_plugins.World.{
  M, Env, Error, foreign, new, errorf, Foreign, Interface, ArpEvent, tick, packet, read_failed,
  see_done, ◌>>=◌, ◌>>◌, pure, fail, pass, choose, call, arp_dial, arp_new_packet, arp_events,
}

-- `rounds` is `retry - i`; `reading` says that the goroutine has not returned.
pub record ArpState : Type 0 where
  pub rounds : ℕ
  pub stop : Bool
  pub cancelled : Bool
  pub reading : Bool
  pub conflicting_mac : Text
  pub error : Option Foreign

abbrev pub arp_start : ℕ → ArpState
arp_start retry = record {
  rounds = retry;
  stop = false;
  cancelled = false;
  reading = true;
  conflicting_mac = [];
  error = none;
}

abbrev has_rounds : ℕ → Bool
has_rounds zero = false
has_rounds (suc n) = true

-- `i < retry && !stop`
abbrev pub is_sending : ArpState → Bool
is_sending s = has_rounds s.rounds && not s.stop

abbrev pub pred : ℕ → ℕ
pred zero = zero
pred (suc n) = n

-- An event that its goroutine is not ready for does not happen. Both goroutines assign `err`.
unfoldable pub arp_step : Ip → ArpState → ArpEvent → ArpState
arp_step target s (tick e) =
    if is_sending s then record s { rounds = pred s.rounds; stop = is_some e; error = e } else s
arp_step target s see_done =
    if is_sending s && s.cancelled then record s { rounds = pred s.rounds; stop = true } else s
arp_step target s (packet is_reply sender hw) =
    if not s.reading
    then s
    else if is_reply && same_text sender target
    then record s {
      reading = false;
      cancelled = true;
      conflicting_mac = mac_string hw;
      error = none;
    }
    else record s { error = none }
arp_step target s (read_failed e) =
    if s.reading then record s { reading = false; cancelled = true; error = some e } else s

unfoldable pub arp_run : Ip → ArpState → List ArpEvent → ArpState
unfolding arp_step
arp_run target s [] = if is_sending s then record s { error = none } else s
arp_run target s (e ∷ es) = arp_run target (arp_step target s e) es

module _ (env : Env) where
  unfoldable pub arp_verdict : ArpState → M Unit
  arp_verdict s = elim s.error [
    | some e ↦ fail (errorf "failed to checking ip %s if it's conflicting: %v" (foreign e))
    | none ↦
        choose (not (is_empty s.conflicting_mac))
          (fail (new "pod's interface %s with an conflicting ip %s, %s is located at %s")) pass
  ]

  unfoldable pub ip_checking_by_arp : Interface → Ip → ℤ → ℕ → M Unit
  ip_checking_by_arp ifi target retry interval = do
    call env (arp_dial ifi)
    call env (arp_new_packet ifi.hardware_addr target)
    events ← call env (arp_events retry interval)
    arp_verdict (arp_run target (arp_start (pos_part retry)) events)
