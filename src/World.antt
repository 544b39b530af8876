-- ===== src/World.antt =====
-- The outside of the plugins: every call that leaves the program (netlink, sysctl, the network
-- namespace, spiderpool's helpers, sockets) is a value of `Call` with the type of its result. What
-- it answers is the parameter `Env`, a function of all earlier calls, so that it ranges over every
-- behaviour of the kernel. A Go function is an action: it returns a value, an error, or panics,
-- and leaves the calls that it made in the trace, the latest first.
mod Calls
pub mod Keeps
pub mod Parsed
pub mod Runs
pub mod Succeeds
use cni_plugins.Base.{ℕ, ◌≡◌, Bool, true, false, String, Option, none, some, List, [], ◌∷◌}
use cni_plugins.Base.Text.{Text, codes, same_text, equal_fold}
use cni_plugins.Base.Int.{ℤ}
use cni_plugins.Net.{Bytes, Ip, IpNet, Addr, Link, Route, Rule, Neigh}
pub use Calls.*

-- The host's network namespace, and the pod's.
pub data Netns : Type 0 where
  host pod : Netns

pub record Event : Type 0 where
  pub ns : Netns
  pub call : Call

abbrev pub Trace : Type 0
Trace = List Event

pub data Answer (A : Type 0) : Type 0 where
  good : A → Answer A
  bad : Foreign → Answer A

-- The answers, and Go's and third parties' parsers, which are functions of their text alone.
pub record Env : Type 0 where
  pub answer : Trace → Netns → (c : Call) → Answer (Response c)
  pub parse_cidr : Text → Option (Ip × IpNet)
  pub parse_prefix : Text → Option Ip
  pub parse_duration : Text → Option ℕ
  pub convert_max_mask_ip_net : Ip → IpNet
  pub convert_log_level : Text → Option Text

pub record World : Type 0 where
  pub ns : Netns
  pub trace : Trace

pub data Returned (A : Type 0) : Type 0 where
  ok : A → Returned A
  err : Error → Returned A
  panic : String → Returned A

abbrev pub M : Type 0 → Type 0
M A = World → Returned A × World

abbrev pub continue_with : {A B : Type 0} → (A → M B) → Returned A → M B
continue_with f (ok a) w = f a w
continue_with f (err e) w = (err e, w)
continue_with f (panic s) w = (panic s, w)

infixl 5 ◌>>=◌ ◌>>◌
unfoldable pub ◌>>=◌ : {A B : Type 0} → M A → (A → M B) → M B
◌>>=◌ m f w = let (r, w') = m w in continue_with f r w'

abbrev pub ◌>>◌ : {A B : Type 0} → M A → M B → M B
m >> k = m >>= λ _. k

unfoldable pub pure : {A : Type 0} → A → M A
pure a w = (ok a, w)

unfoldable pub fail : {A : Type 0} → Error → M A
fail e w = (err e, w)

unfoldable pub crash : {A : Type 0} → String → M A
crash s w = (panic s, w)

abbrev pub pass : M (Unit {0})
pass = pure tt

-- A conditional action; each branch waits.
unfoldable pub choose : {A : Type 0} → Bool → M A → M A → M A
choose true m k = m
choose false m k = k

unfoldable pub or_fail : {A : Type 0} → Option A → Error → M A
or_fail none e w = (err e, w)
or_fail (some a) e w = (ok a, w)

-- A pointer that the code follows: nil panics.
unfoldable pub deref : {A : Type 0} → Option A → M A
deref none w = (panic "invalid memory address or nil pointer dereference", w)
deref (some a) w = (ok a, w)

abbrev pub map_error : {A : Type 0} → (Error → Error) → Returned A → Returned A
map_error f (ok a) = ok a
map_error f (err e) = err (f e)
map_error f (panic s) = panic s

-- `if err := m; err != nil { return f(err) }`
unfoldable pub wrap : {A : Type 0} → (Error → Error) → M A → M A
wrap f m w = let (r, w') = m w in (map_error f r, w')

abbrev pub forgive : (Error → Bool) → Returned (Unit {0}) → Returned (Unit {0})
forgive test (ok a) = ok a
forgive test (err e) = elim (test e) [ true ↦ ok tt | false ↦ err e ]
forgive test (panic s) = panic s

-- `if err := m; err != nil && !test(err) { return err }`
unfoldable pub ignoring : (Error → Bool) → M (Unit {0}) → M (Unit {0})
ignoring test m w = let (r, w') = m w in (forgive test r, w')

pub data Attempt (A : Type 0) : Type 0 where
  done : A → Attempt A
  failed : Error → Attempt A

abbrev pub caught : {A : Type 0} → Returned A → Returned (Attempt A)
caught (ok a) = ok (done a)
caught (err e) = ok (failed e)
caught (panic s) = panic s

-- `x, err := m`, where the code goes on with both.
unfoldable pub try : {A : Type 0} → M A → M (Attempt A)
try m w = let (r, w') = m w in (caught r, w')

abbrev pub os_is_exist : Error → Bool
os_is_exist (foreign f) = f.is_exist
os_is_exist _ = false

abbrev pub os_is_not_exist : Error → Bool
os_is_not_exist (foreign f) = f.is_not_exist
os_is_not_exist _ = false

-- The tests of a message are made on errors of outside calls alone.
abbrev pub message_is : String → Error → Bool
message_is s (foreign f) = same_text f.message (codes s)
message_is s _ = false

abbrev pub message_folds_to : String → Error → Bool
message_folds_to s (foreign f) = equal_fold f.message (codes s)
message_folds_to s _ = false

abbrev pub returned : {A : Type 0} → Answer A → Returned A
returned (good a) = ok a
returned (bad f) = err (foreign f)

module _ (env : Env) where
  -- One call of the outside.
  unfoldable pub call : (c : Call) → M (Response c)
  call c w = (
    returned (env.answer w.trace w.ns c),
    record w { trace = (record { ns = w.ns; call = c }) ∷ w.trace },
  )

  -- `netns.Do(body)`: the body runs in the pod's namespace, unless that cannot be entered; either
  -- way the host's namespace is back afterwards.
  unfoldable pub do_netns : {A : Type 0} → M A → M A
  unfolding call
  do_netns body w =
      let (entered, w') = call enter_netns w in
      let (r, v) = continue_with (λ _. body) entered (record w' { ns = pod }) in
      (r, record v { ns = w.ns })

  -- `net.ParseCIDR`
  unfoldable pub parse_cidr : Text → M (Ip × IpNet)
  unfolding or_fail
  parse_cidr s = or_fail (env.parse_cidr s) (new "invalid CIDR address")

-- A loop over a slice that stops at the first error.
unfoldable pub for_each : {A : Type 0} → List A → (A → M (Unit {0})) → M (Unit {0})
for_each [] body = pass
for_each (x ∷ xs) body = body x >> for_each xs body
