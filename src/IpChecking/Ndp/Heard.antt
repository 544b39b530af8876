-- ===== src/IpChecking/Ndp/Heard.antt =====
-- What the NDP check has heard when it passes, and when it reports a conflict.
use cni_plugins.Base.{ℕ, ◌≡◌, refl, Bool, true, false, not, ◌∷◌, Bool-cases, inl, inr}
use cni_plugins.Base.Text.{Text, same_text}
use cni_plugins.Base.Int.{ℤ, pos_part}
use cni_plugins.Net.{Ip}
use cni_plugins.Net.Mac.{mac_string}
use cni_plugins.World.{
  World, M, Env, Interface, Answer, good, bad, new, Returned, returned, ok, err, panic,
  continue_with, ◌>>=◌, pure, fail, choose, call, ndp_listen,
}
use cni_plugins.IpChecking.Ndp.{
  Found, found_reply, retry_error, other_error, send_receive_loop, ndp_verdict, ip_checking_by_ndp,
}
use cni_plugins.IpChecking.Ndp.Rounds.{
  When, Heard, IsFoundHeard, send_receive_loop-When, outcome, not-outcome_foreign,
  not-outcome_retry, not-outcome_errorf,
}

same_of_outcome :
    (b mine : Bool) (w : World)
    → (choose
        (not b)
        (fail (new "pod's interface %s with an conflicting ip %s, %s is located at %s"))
        (pure tt)
        w).0
      ≡ outcome mine
    → b ≡ mine
unfolding choose fail pure
same_of_outcome true true w e = refl
same_of_outcome true false w e = absurd (cc)
same_of_outcome false true w e = absurd (cc)
same_of_outcome false false w e = refl

verdict_keeps :
    (env : Env) (ifi : Interface) (mac : Text) (w : World)
    → (ndp_verdict env ifi (found_reply mac) w).1 ≡ w
unfolding ndp_verdict choose fail pure
verdict_keeps env ifi mac w = elim (Bool-cases (same_text mac (mac_string ifi.hardware_addr))) [
  | inl e ↦ rw e refl
  | inr e ↦ rw e refl
]

module _ (env : Env) (ifi : Interface) (target : Ip) (mine : Bool) where
  -- What a verdict rests on.
  abbrev Reported : World → Type 0
  Reported w =
      (mac : Text) × Heard env target mac w × (same_text mac (mac_string ifi.hardware_addr) ≡ mine)

  reply-Reported :
      (mac : Text) (w : World)
      → Heard env target mac w
      → (ndp_verdict env ifi (found_reply mac) w).0 ≡ outcome mine
      → Reported w
  unfolding ndp_verdict
  reply-Reported mac w h e =
      (mac, h, same_of_outcome (same_text mac (mac_string ifi.hardware_addr)) mine w e)

  found-Reported :
      (r : Returned Found × World)
      → When (IsFoundHeard env target) r
      → (let (q, v) = r in continue_with (ndp_verdict env ifi) q v).0 ≡ outcome mine
      → Reported (let (q, v) = r in continue_with (ndp_verdict env ifi) q v).1
  unfolding ndp_verdict fail
  found-Reported (ok (found_reply mac), w) h e =
      rw (verdict_keeps env ifi mac w) (reply-Reported mac w h e)
  found-Reported (ok retry_error, w) h e = absurd (not-outcome_retry mine e)
  found-Reported (ok (other_error x), w) h e = absurd (not-outcome_errorf mine _ x e)
  found-Reported (err x, w) h e = absurd h
  found-Reported (panic s, w) h e = absurd h

-- Whatever the outside answers, where the NDP check passes, its last call was a read that gave an
-- advertisement of the target with the interface's own hardware address as its only option, and
-- where it reports a conflict, one with another hardware address: it neither passes in silence nor
-- raises a false alarm.
pub ip_checking_by_ndp-Heard :
    (env : Env) (ifi : Interface) (target : Ip) (retries : ℤ) (interval : ℕ) (w : World)
    (mine : Bool)
    → (ip_checking_by_ndp env ifi target retries interval w).0 ≡ outcome mine
    → (mac : Text) × Heard env target mac (ip_checking_by_ndp env ifi target retries interval w).1
      × (same_text mac (mac_string ifi.hardware_addr) ≡ mine)
unfolding ip_checking_by_ndp call ◌>>=◌
ip_checking_by_ndp-Heard env ifi target retries interval w mine e =
    go (env.answer w.trace w.ns (ndp_listen ifi)) e
  where
    open_world : World
    open_world = record w { trace = (record { ns = w.ns; call = ndp_listen ifi }) ∷ w.trace }

    checked : M (Unit {0})
    checked =
        send_receive_loop env (pos_part retries) ifi.hardware_addr target interval
        >>= ndp_verdict env ifi

    go :
        (answer : Answer (Unit {0}))
        → (continue_with (λ _. checked) (returned answer) open_world).0 ≡ outcome mine
        → Reported env ifi target mine (continue_with (λ _. checked) (returned answer) open_world).1
    go (good u) e =
        found-Reported env ifi target mine
          (send_receive_loop env (pos_part retries) ifi.hardware_addr target interval open_world)
          (send_receive_loop-When env target (pos_part retries) ifi.hardware_addr interval
            open_world)
          e
    go (bad f) e = absurd (not-outcome_foreign mine f e)
