-- ===== src/IpChecking/Ndp/Rounds.antt =====
-- What each round of the NDP check reports, whatever the outside answers.
use cni_plugins.Base.{
  ℕ, zero, suc, ◌≡◌, refl, ap, Bool, true, false, String, none, some, [], ◌∷◌, Bool-cases, inl, inr,
}
use cni_plugins.Base.Text.{Text, codes, same_text}
use cni_plugins.Net.{Ip, Bytes}
use cni_plugins.Net.Mac.{mac_string}
use cni_plugins.Constant.{ndp_retry_error}
use cni_plugins.World.{
  Trace, Netns, World, M, Env, Error, NdpMessage, neighbor_advertisement, other_message, Answer,
  good, bad, new, errorf, foreign, Foreign, Returned, returned, caught, ok, err, panic,
  continue_with, ◌>>=◌, pure, call, try, wrap, map_error, Call, Response,
  ndp_solicited_node_multicast, ndp_write, ndp_set_read_deadline, Attempt, done, failed, ndp_read,
}
use cni_plugins.IpChecking.Ndp.{
  Received, reply, retry, broken, Found, found_reply, other_error, wanted_reply, read_result,
  written, is_timeout, retry, send_receive, send_receive_loop,
}

-- A value is returned, and it has the property, with the world behind it.
abbrev pub When : {A : Type 0} → (A → World → Type 0) → Returned A × World → Type 0
When Q (ok a, w) = Q a w
When Q _ = ⊥

bind-When :
    {A B : Type 0} (P : A → World → Type 0) (Q : B → World → Type 0) (m : M A) (f : A → M B)
    (w : World)
    → When P (m w)
    → ((a : A) (v : World) → P a v → When Q (f a v))
    → When Q ((m >>= f) w)
unfolding ◌>>=◌
bind-When P Q m f w h k = go (m w) h
  where
    go : (r : Returned _ × World) → When P r → When Q (let (q, v) = r in continue_with f q v)
    go (ok a, v) h = k a v h
    go (err e, v) h = absurd h
    go (panic s, v) h = absurd h

-- The code does not panic.
abbrev NoPanic : {A : Type 0} → Returned A → Type 0
NoPanic (panic s) = ⊥
NoPanic _ = Unit

call-NoPanic :
    (env : Env) (c : Call) (f : Error → Error) (w : World) → NoPanic (wrap f (call env c) w).0
unfolding wrap call
call-NoPanic env c f w = go (env.answer w.trace w.ns c)
  where
    go : (answer : Answer (Response c)) → NoPanic (map_error f (returned answer))
    go (good a) = tt
    go (bad g) = tt

bind-NoPanic :
    {A B : Type 0} (m : M A) (f : A → M B) (w : World)
    → NoPanic (m w).0
    → ((a : A) (v : World) → NoPanic (f a v).0)
    → NoPanic ((m >>= f) w).0
unfolding ◌>>=◌
bind-NoPanic m f w h k = go (m w) h
  where
    go : (r : Returned _ × World) → NoPanic r.0 → NoPanic (let (q, v) = r in continue_with f q v).0
    go (ok a, v) h = k a v
    go (err e, v) h = tt
    go (panic s, v) h = absurd h

try-When : {A : Type 0} (m : M A) (w : World) → NoPanic (m w).0 → When (λ a v. Unit) (try m w)
unfolding try
try-When {A} m w h = go (m w) h
  where
    go : (r : Returned A × World) → NoPanic r.0 → When (λ a v. Unit) (caught r.0, r.1)
    go (ok a, v) h = tt
    go (err e, v) h = tt
    go (panic s, v) h = absurd h

module _ (env : Env) (target : Ip) where
  -- The last call was a read, and what it gave is an advertisement of the target with this hardware
  -- address alone.
  abbrev pub Heard : Text → World → Type 0
  Heard mac w =
      (t : Trace) × (n : Netns) × (address : Ip) × (hw : Bytes) × (w.trace
        ≡ (record { ns = n; call = ndp_read }) ∷ t)
      × (env.answer t n ndp_read ≡ good (neighbor_advertisement address (some hw ∷ [])))
      × (same_text address target ≡ true)
      × (mac ≡ mac_string hw)

  abbrev IsHeard : Received → World → Type 0
  IsHeard (reply mac) w = Heard mac w
  IsHeard _ w = Unit

  abbrev pub IsFoundHeard : Found → World → Type 0
  IsFoundHeard (found_reply mac) w = Heard mac w
  IsFoundHeard _ w = Unit

  message-IsHeard :
      (t : Trace) (n : Netns) (m : NdpMessage) (v : World)
      → v.trace ≡ (record { ns = n; call = ndp_read }) ∷ t
      → env.answer t n ndp_read ≡ good m
      → IsHeard (wanted_reply target m) v
  unfolding wanted_reply
  message-IsHeard t n (neighbor_advertisement address (some hw ∷ [])) v l e =
      elim (Bool-cases (same_text address target)) [
        | inl f ↦ rw f (t, n, address, hw, l, e, f, refl)
        | inr f ↦ rw f tt
      ]
  message-IsHeard t n (neighbor_advertisement address []) v l e = tt
  message-IsHeard t n (neighbor_advertisement address (none ∷ os)) v l e = tt
  message-IsHeard t n (neighbor_advertisement address (some hw ∷ (o ∷ os))) v l e = tt
  message-IsHeard t n other_message v l e = tt

  failed-IsHeard : (e : Error) (v : World) → IsHeard (read_result target (failed e)) v
  unfolding read_result
  failed-IsHeard e v = elim (Bool-cases (is_timeout e)) [ inl f ↦ rw f tt | inr f ↦ rw f tt ]

  read-When :
      (w : World)
      → When (λ message v. IsHeard (read_result target message) v) (try (call env ndp_read) w)
  unfolding try call read_result
  read-When w = go (env.answer w.trace w.ns ndp_read) refl
    where
      read : World
      read = record w { trace = (record { ns = w.ns; call = ndp_read }) ∷ w.trace }

      go :
          (answer : Answer NdpMessage)
          → env.answer w.trace w.ns ndp_read ≡ answer
          → When
              (λ message v. IsHeard (read_result target message) v)
              (caught (returned answer), read)
      go (good m) e = message-IsHeard w.trace w.ns m read refl e
      go (bad f) e = failed-IsHeard (foreign f) read

  written-When :
      (ready : Attempt (Unit {0})) (k : M Received) (w : World)
      → When IsHeard (k w)
      → When IsHeard (written ready k w)
  unfolding written pure
  written-When (done u) k w h = h
  written-When (failed e) k w h = tt

  send_receive-When :
      (hw : Bytes) (interval : ℕ) (w : World) → When IsHeard (send_receive env hw target interval w)
  unfolding send_receive pure
  send_receive-When hw interval w =
      bind-When (λ _ _. Unit) IsHeard _ _ w
        (try-When _ w (
          bind-NoPanic _ _ w (call-NoPanic env (ndp_solicited_node_multicast target) _ w) λ snm v.
            bind-NoPanic _ _ v (call-NoPanic env (ndp_write snm target hw) _ v)
              λ _ u. call-NoPanic env (ndp_set_read_deadline interval) _ u))
        λ ready v _. written-When ready _ v (
          bind-When (λ message v. IsHeard (read_result target message) v) IsHeard _ _ v
            (read-When v) (λ message u h. pure-When (read_result target message) u h))
    where
      pure-When : (r : Received) (u : World) → IsHeard r u → When IsHeard (pure r u)
      pure-When r u h = h

  pub send_receive_loop-When :
      (rounds : ℕ) (hw : Bytes) (interval : ℕ) (w : World)
      → When IsFoundHeard (send_receive_loop env rounds hw target interval w)
  unfolding send_receive_loop pure
  send_receive_loop-When zero hw interval w = tt
  send_receive_loop-When (suc rounds) hw interval w =
      bind-When IsHeard IsFoundHeard _ _ w (send_receive-When hw interval w)
        λ received v h. next received v h (λ v. send_receive_loop-When rounds hw interval v)
    where
      next :
          (received : Received) (v : World)
          → IsHeard received v
          → ((v : World) → When IsFoundHeard (send_receive_loop env rounds hw target interval v))
          → When IsFoundHeard (
              (elim received as (λ _. M Found) [
                | reply mac ↦ pure (found_reply mac)
                | retry ↦ send_receive_loop env rounds hw target interval
                | broken e ↦ pure (other_error e)
              ])
                v)
      next (reply mac) v h k = h
      next retry v h k = k v
      next (broken e) v h k = tt

-- What the check returns where the address is the interface's own, and where it is another's.
abbrev pub outcome : Bool → Returned (Unit {0})
outcome true = ok tt
outcome false = err (new "pod's interface %s with an conflicting ip %s, %s is located at %s")

pub not-outcome_foreign : (mine : Bool) (f : Foreign) → ¬ (err (foreign f) ≡ outcome mine)
not-outcome_foreign true f e = absurd (cc)
not-outcome_foreign false f e = absurd (cc)

says : Returned (Unit {0}) → Bool
says (err (new s)) =
    same_text (codes s) (codes "pod's interface %s with an conflicting ip %s, %s is located at %s")
says _ = false

pub not-outcome_retry : (mine : Bool) → ¬ (err ndp_retry_error ≡ outcome mine)
unfolding says
not-outcome_retry true e = absurd (cc)
not-outcome_retry false e = let k : false ≡ true = ap says e in absurd (cc)

pub not-outcome_errorf :
    (mine : Bool) (s : String) (x : Error) → ¬ (err (errorf s x) ≡ outcome mine)
not-outcome_errorf true s x e = absurd (cc)
not-outcome_errorf false s x e = absurd (cc)
