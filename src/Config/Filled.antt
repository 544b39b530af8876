-- ===== src/Config/Filled.antt =====
-- What `ValidateIPConflict` fills in.
use cni_plugins.Base.{◌≡◌, ◌≢◌, refl, true, false, some, [], ◌∷◌, is_empty, arith}
use cni_plugins.Base.Text.{Text}
use cni_plugins.Base.Int.{ℤ, pos, negsuc, is_negative}
use cni_plugins.Types.{IpConflict}
use cni_plugins.Config.{or_interval, or_retry, validate_ip_conflict}

or_interval_lem :
    (i : Text) → (is_empty (or_interval i) ≡ false) × (or_interval (or_interval i) ≡ or_interval i)
or_interval_lem [] = (refl, refl)
or_interval_lem (c ∷ i) = (refl, refl)

or_retry_lem :
    (r : ℤ)
    → (is_negative (or_retry r) ≡ false)
      × (or_retry r ≢ pos 0)
      × (or_retry (or_retry r) ≡ or_retry r)
or_retry_lem (pos r) = ground arith
or_retry_lem (negsuc r) = (refl, λ h. cc, refl)

-- With checking enabled, the validated interval is not empty, there is at least one try, and
-- validating the result again changes nothing.
pub validate_ip_conflict_enabled :
    (c : IpConflict)
    → c.enabled ≡ true
    → (v : IpConflict) × (validate_ip_conflict (some c) ≡ some v)
      × (is_empty v.interval ≡ false)
      × (is_negative v.retry ≡ false)
      × (v.retry ≢ pos 0)
      × (validate_ip_conflict (some v) ≡ some v)
unfolding validate_ip_conflict
validate_ip_conflict_enabled c h =
    let i = or_interval_lem c.interval in
    let r = or_retry_lem c.retry in
    (
      record c { interval = or_interval c.interval; retry = or_retry c.retry },
      rw h refl,
      i.0,
      r.0,
      r.1,
      rw h (ground (arith, i.1, r.2)),
    )
