-- ===== src/IpChecking/Arp/Replies.antt =====
-- What the ARP check concludes from what it receives, in whichever order its goroutines run.
use cni_plugins.Base.{
  ℕ, suc, ◌≡◌, ◌∙◌, refl, ◌⊎◌, inl, inr, true, false, none, List, [], ◌∷◌, is_empty, arith,
  Bool-cases, All,
}
use cni_plugins.Base.Text.{Text, same_text}
use cni_plugins.Net.{Ip, Bytes}
use cni_plugins.Net.Mac.{mac_string}
use cni_plugins.World.{
  fail, new, choose, Env, Foreign, ArpEvent, tick, packet, read_failed, see_done, pass,
}
use cni_plugins.IpChecking.Arp.{ArpState, arp_start, arp_step, arp_run, arp_verdict}

abbrev pub OneOf : {A : Type 0} → A → List A → Type 0
OneOf a [] = ⊥
OneOf a (b ∷ bs) = (a ≡ b) ⊎ OneOf a bs

-- The address was that of a received reply of the target.
abbrev pub IsReplied : Ip → List ArpEvent → Text → Type 0
IsReplied target es mac =
    (sender : Ip) × (hw : Bytes) × OneOf (packet true sender hw) es
    × (same_text sender target ≡ true)
    × (mac ≡ mac_string hw)

-- The rest of a run finds what the first step has found, or what comes later.
combine :
    (target : Ip) (e : ArpEvent) (es : List ArpEvent) (old next m : Text)
    → (m ≡ next) ⊎ IsReplied target es m
    → (next ≡ old) ⊎ IsReplied target (e ∷ []) next
    → (m ≡ old) ⊎ IsReplied target (e ∷ es) m
combine target e es old next m (inl p) (inl q) = inl (p ∙ q)
combine target e es old next m (inl p) (inr (sender, hw, inl o, q, r)) =
    inr (sender, hw, inl o, q, p ∙ r)
combine target e es old next m (inl p) (inr (sender, hw, inr o, q, r)) = absurd o
combine target e es old next m (inr (sender, hw, o, q, r)) k = inr (sender, hw, inr o, q, r)

module _ (target : Ip) where
  step_mac :
      (s : ArpState) (e : ArpEvent)
      → ((arp_step target s e).conflicting_mac ≡ s.conflicting_mac)
        ⊎ IsReplied target (e ∷ []) (arp_step target s e).conflicting_mac
  unfolding arp_step
  step_mac s (tick o) = ground arith
  step_mac s see_done = ground arith
  step_mac s (read_failed x) = ground arith
  step_mac s (packet r sender hw) = elim (Bool-cases s.reading) [
    | inr a ↦ rw a (inl refl)
    | inl a ↦ elim (Bool-cases r) [
      | inr b ↦ rw (a, b) (inl refl)
      | inl b ↦ elim (Bool-cases (same_text sender target)) [
        | inr c ↦ rw (a, b, c) (inl refl)
        | inl c ↦ rw (a, b, c) (inr (sender, hw, inl refl, c, refl))
      ]
    ]
  ]

  -- Whatever the order of events, the ARP check ends without a conflicting address, or with that of
  -- a received reply whose sender is the target.
  pub arp_run-IsReplied :
      (retries : ℕ) (es : List ArpEvent)
      → let mac = (arp_run target (arp_start retries) es).conflicting_mac in
        (mac ≡ []) ⊎ IsReplied target es mac
  unfolding arp_run
  arp_run-IsReplied retries es = from (arp_start retries) es
    where
      from :
          (s : ArpState) (es : List ArpEvent)
          → let mac = (arp_run target s es).conflicting_mac in
            (mac ≡ s.conflicting_mac) ⊎ IsReplied target es mac
      from s [] = ground arith
      from s (e ∷ es) =
          combine target e es s.conflicting_mac (arp_step target s e).conflicting_mac _
            (from (arp_step target s e) es) (step_mac s e)

-- No send fails.
abbrev pub NoSendFails : List ArpEvent → Type 0
NoSendFails = All (λ (e : ArpEvent). elim e [ tick o ↦ o ≡ none | _ ↦ Unit ])

module _ (target : Ip) where
  -- The receiver is done, without an error.
  abbrev IsFound : Text → ArpState → Type 0
  IsFound mac s = (s.reading ≡ false) × (s.error ≡ none) × (s.conflicting_mac ≡ mac)

  step-IsFound :
      (mac : Text) (s : ArpState) (e : ArpEvent)
      → IsFound mac s
      → NoSendFails (e ∷ [])
      → IsFound mac (arp_step target s e)
  unfolding arp_step
  step-IsFound mac s (tick o) (a, b, c) h = ground (arith, h.0)
  step-IsFound mac s see_done (a, b, c) h = ground arith
  step-IsFound mac s (packet r sender hw) (a, b, c) h = ground arith
  step-IsFound mac s (read_failed x) (a, b, c) h = ground arith

  -- A reply that was received stays found, as long as no later send fails.
  run-IsFound :
      (mac : Text) (s : ArpState) (es : List ArpEvent)
      → IsFound mac s
      → NoSendFails es
      → IsFound mac (arp_run target s es)
  unfolding arp_run
  run-IsFound mac s [] (a, b, c) h = (ground arith, ground arith, ground arith)
  run-IsFound mac s (e ∷ es) k h =
      run-IsFound mac (arp_step target s e) es (step-IsFound mac s e k (h.0, tt)) h.1

  -- While the receiver still reads, a reply of the target with a hardware address is reported as a
  -- conflict with that address, in every order of later events in which no send fails.
  pub arp_verdict_found :
      (env : Env) (s : ArpState) (sender : Ip) (hw : Bytes) (es : List ArpEvent)
      → s.reading ≡ true
      → same_text sender target ≡ true
      → is_empty (mac_string hw) ≡ false
      → NoSendFails es
      → let r = arp_run target s (packet true sender hw ∷ es) in
        (r.conflicting_mac ≡ mac_string hw)
        × (arp_verdict env r
            ≡ fail (new "pod's interface %s with an conflicting ip %s, %s is located at %s"))
  unfolding arp_run arp_step arp_verdict choose
  arp_verdict_found env s sender hw es a b c h =
      let next = arp_step target s (packet true sender hw) in
      let k : IsFound (mac_string hw) next = (ground arith, ground arith, ground arith) in
      let (_, q, p) = run-IsFound (mac_string hw) next es k h in (p, rw (q, p, c) refl)

-- Where the receiver fails first, a send succeeds next and no later send fails, the check passes
-- although nothing was received: the receiver's error is lost.
pub arp_verdict_lost_error :
    (env : Env) (target : Ip) (retries : ℕ) (e : Foreign) (es : List ArpEvent)
    → NoSendFails es
    → arp_verdict env (arp_run target (arp_start (suc retries)) (read_failed e ∷ tick none ∷ es))
      ≡ pass
unfolding arp_run arp_step arp_verdict choose
arp_verdict_lost_error env target retries e es h =
    let next : ArpState = record (arp_start (suc retries)) {
      rounds = retries;
      reading = false;
      cancelled = true;
      error = none;
    } in
    let (_, q, p) = run-IsFound target [] next es (refl, refl, refl) h in rw (q, p) refl
