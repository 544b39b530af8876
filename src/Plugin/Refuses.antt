-- ===== src/Plugin/Refuses.antt =====
-- Runs that end in an error before anything is changed.
use cni_plugins.Base.{◌≡◌, sym, Option, some}
use mathlib.Core.Path.{subst}
use cni_plugins.World.{Error, host, M, ◌>>=◌, or_fail}
use cni_plugins.World.Keeps.{
  Keeps, >>=-Keeps, >>=-Keeps_known, >>=-WhenOk, Fails, >>=-Fails, or_fail-some,
}
use cni_plugins.Plugin.ReadsOnly.{ReadsOnly}

-- Begun on the host, it ends there and changes nothing, and it fails.
abbrev pub Refuses : M Unit → Type 0
Refuses m = Keeps ReadsOnly host m × Fails m

-- What follows something that fails does not matter.
pub >>=-Refuses_failed :
    {A : Type 0} (m : M A) (f : A → M Unit) → Keeps ReadsOnly host m → Fails m → Refuses (m >>= f)
>>=-Refuses_failed m f k h =
    (>>=-Keeps_known ReadsOnly host (λ _. ⊥) m f k h (λ a x. absurd x), >>=-Fails m f h)

-- What goes before may answer anything.
pub >>=-Refuses :
    {A : Type 0} (m : M A) (f : A → M Unit)
    → Keeps ReadsOnly host m
    → ((a : A) → Refuses (f a))
    → Refuses (m >>= f)
>>=-Refuses m f k h =
    (>>=-Keeps ReadsOnly host m f k (λ a. (h a).0), λ w. >>=-WhenOk (λ _. ⊥) m f w (λ a. (h a).1))

pub or_fail-Refuses :
    {A : Type 0} (o : Option A) (a : A) (x : Error) (f : A → M Unit)
    → o ≡ some a
    → Refuses (f a)
    → Refuses (or_fail o x >>= f)
or_fail-Refuses o a x f e h = subst Refuses (sym (or_fail-some o a x f e)) h
