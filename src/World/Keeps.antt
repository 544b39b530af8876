-- ===== src/World/Keeps.antt =====
-- Invariants of the trace: an action that begins in a namespace makes only calls of one kind, and
-- ends in the namespace where it began. One rule for each way of building an action; `search`
-- proves an action by the set `keeps`.
use cni_plugins.Base.{
  ◌≡◌, refl, ◌∙◌, Bool, true, false, String, Option, none, some, List, [], ◌∷◌, ◌++◌, All,
  All-append, All-mono,
}
use mathlib.Core.List.{append_assoc}
use cni_plugins.World.{
  Trace, Event, Netns, pod, Call, enter_netns, World, M, Env, Error, Returned, ok, err, panic,
  continue_with, ◌>>=◌, pure, fail, crash, choose, or_fail, deref, wrap, ignoring, Attempt, done,
  failed, try, call, returned, do_netns, parse_cidr, for_each,
}
use cni_plugins.Base.Text.{Text}

-- Begun in the namespace `n`, the action ends there, and every event that it adds to the trace
-- satisfies `P`.
pub record Keeps (P : Event → Type 0) (n : Netns) {A : Type 0} (m : M A) : Type 0 where
  pub run :
      (w : World)
      → w.ns ≡ n
      → (l : Trace) × ((m w).1.trace ≡ l ++ w.trace) × All P l × ((m w).1.ns ≡ n)

-- A weaker invariant is kept too.
pub Keeps-mono :
    (P Q : Event → Type 0) (n : Netns) {A : Type 0} (m : M A)
    → ((e : Event) → P e → Q e)
    → Keeps P n m
    → Keeps Q n m
Keeps-mono P Q n m f k = record {
  run = λ w e. let (l, p, h, e') = k.run w e in (l, p, All-mono l f h, e');
}

module _ (P : Event → Type 0) (n : Netns) where
  pub pure-Keeps : {A : Type 0} (a : A) → Keeps P n (pure a)
  unfolding pure
  pure-Keeps a = record { run = λ w e. ([], refl, tt, e) }

  pub fail-Keeps : {A : Type 0} (e : Error) → Keeps P n (fail {A = A} e)
  unfolding fail
  fail-Keeps x = record { run = λ w e. ([], refl, tt, e) }

  pub crash-Keeps : {A : Type 0} (s : String) → Keeps P n (crash {A = A} s)
  unfolding crash
  crash-Keeps s = record { run = λ w e. ([], refl, tt, e) }

  pub continue_with-Keeps :
      {A B : Type 0} (r : Returned A) (f : A → M B)
      → ((a : A) → Keeps P n (f a))
      → Keeps P n (continue_with f r)
  continue_with-Keeps (ok a) f k = k a
  continue_with-Keeps (err x) f k = record { run = λ w e. ([], refl, tt, e) }
  continue_with-Keeps (panic s) f k = record { run = λ w e. ([], refl, tt, e) }

  pub >>=-Keeps :
      {A B : Type 0} (m : M A) (f : A → M B)
      → Keeps P n m
      → ((a : A) → Keeps P n (f a))
      → Keeps P n (m >>= f)
  unfolding ◌>>=◌
  >>=-Keeps m f km kf = record {
    run = λ w e.
        let (l, p, h, e') = km.run w e in
        let (l', p', h', e'') = (continue_with-Keeps (m w).0 f kf).run (m w).1 e' in
        (l' ++ l, p' ∙ rw (p, append_assoc) refl, All-append P l' l h' h, e'');
  }

  pub choose-Keeps :
      {A : Type 0} (b : Bool) (m k : M A) → Keeps P n m → Keeps P n k → Keeps P n (choose b m k)
  unfolding choose
  choose-Keeps true m k hm hk = hm
  choose-Keeps false m k hm hk = hk

  -- Each branch may use the test's outcome.
  pub choose-Keeps_of_test :
      {A : Type 0} (b : Bool) (m k : M A)
      → (b ≡ true → Keeps P n m)
      → (b ≡ false → Keeps P n k)
      → Keeps P n (choose b m k)
  unfolding choose
  choose-Keeps_of_test true m k hm hk = hm refl
  choose-Keeps_of_test false m k hm hk = hk refl

  pub or_fail-Keeps : {A : Type 0} (o : Option A) (x : Error) → Keeps P n (or_fail o x)
  unfolding or_fail
  or_fail-Keeps none x = record { run = λ w e. ([], refl, tt, e) }
  or_fail-Keeps (some a) x = record { run = λ w e. ([], refl, tt, e) }

  pub deref-Keeps : {A : Type 0} (o : Option A) → Keeps P n (deref o)
  unfolding deref
  deref-Keeps none = record { run = λ w e. ([], refl, tt, e) }
  deref-Keeps (some a) = record { run = λ w e. ([], refl, tt, e) }

  pub wrap-Keeps : {A : Type 0} (f : Error → Error) (m : M A) → Keeps P n m → Keeps P n (wrap f m)
  unfolding wrap
  wrap-Keeps f m k = record { run = λ w e. k.run w e }

  pub ignoring-Keeps :
      (test : Error → Bool) (m : M (Unit {0})) → Keeps P n m → Keeps P n (ignoring test m)
  unfolding ignoring
  ignoring-Keeps test m k = record { run = λ w e. k.run w e }

  pub try-Keeps : {A : Type 0} (m : M A) → Keeps P n m → Keeps P n (try m)
  unfolding try
  try-Keeps m k = record { run = λ w e. k.run w e }

  pub Attempt-Keeps :
      {A B : Type 0} (r : Attempt A) (f : A → M B) (g : Error → M B)
      → ((a : A) → Keeps P n (f a))
      → ((x : Error) → Keeps P n (g x))
      → Keeps P n (elim r [ done a ↦ f a | failed x ↦ g x ])
  Attempt-Keeps (done a) f g kf kg = kf a
  Attempt-Keeps (failed x) f g kf kg = kg x

  pub for_each-Keeps :
      {A : Type 0} (xs : List A) (body : A → M (Unit {0}))
      → ((a : A) → Keeps P n (body a))
      → Keeps P n (for_each xs body)
  unfolding for_each
  for_each-Keeps [] body k = pure-Keeps tt
  for_each-Keeps (x ∷ xs) body k =
      >>=-Keeps (body x) (λ _. for_each xs body) (k x) (λ _. for_each-Keeps xs body k)

-- What holds of the value, if one is returned.
abbrev pub WhenOk : {A : Type 0} → (A → Type 0) → Returned A → Type 0
WhenOk Q (ok a) = Q a
WhenOk Q (err e) = Unit
WhenOk Q (panic s) = Unit

continue_with-WhenOk :
    {A B : Type 0} (Q : B → Type 0) (r : Returned A) (f : A → M B) (w : World)
    → ((a : A) → WhenOk Q (f a w).0)
    → WhenOk Q (continue_with f r w).0
continue_with-WhenOk Q (ok a) f w k = k a
continue_with-WhenOk Q (err e) f w k = tt
continue_with-WhenOk Q (panic s) f w k = tt

pub >>=-WhenOk :
    {A B : Type 0} (Q : B → Type 0) (m : M A) (f : A → M B) (w : World)
    → ((a : A) (v : World) → WhenOk Q (f a v).0)
    → WhenOk Q ((m >>= f) w).0
unfolding ◌>>=◌
>>=-WhenOk Q m f w k = continue_with-WhenOk Q (m w).0 f (m w).1 (λ a. k a (m w).1)

-- The action fails, wherever it is run.
abbrev pub Fails : {A : Type 0} → M A → Type 0
Fails m = (w : World) → WhenOk (λ _. ⊥) (m w).0

continue_with-Fails :
    {A B : Type 0} (r : Returned A) (f : A → M B) (w : World)
    → WhenOk (λ _. ⊥) r
    → WhenOk (λ _. ⊥) (continue_with f r w).0
continue_with-Fails (ok a) f w h = absurd h
continue_with-Fails (err e) f w h = tt
continue_with-Fails (panic s) f w h = tt

-- What follows does not matter.
pub >>=-Fails : {A B : Type 0} (m : M A) (f : A → M B) → Fails m → Fails (m >>= f)
unfolding ◌>>=◌
>>=-Fails m f h w = continue_with-Fails (m w).0 f (m w).1 (h w)

-- A value that is there is what follows goes on with.
pub or_fail-some :
    {A B : Type 0} (o : Option A) (a : A) (x : Error) (f : A → M B)
    → o ≡ some a
    → (or_fail o x >>= f) ≡ f a
unfolding or_fail pure ◌>>=◌
or_fail-some o a x f e = rw e refl

module _ (P : Event → Type 0) (n : Netns) where
  continue_with-Keeps_known :
      {A B : Type 0} (Q : A → Type 0) (r : Returned A) (f : A → M B)
      → WhenOk Q r
      → ((a : A) → Q a → Keeps P n (f a))
      → Keeps P n (continue_with f r)
  continue_with-Keeps_known Q (ok a) f q k = k a q
  continue_with-Keeps_known Q (err x) f q k = record { run = λ w e. ([], refl, tt, e) }
  continue_with-Keeps_known Q (panic s) f q k = record { run = λ w e. ([], refl, tt, e) }

  -- What follows may use what holds of every value that is returned.
  pub >>=-Keeps_known :
      {A B : Type 0} (Q : A → Type 0) (m : M A) (f : A → M B)
      → Keeps P n m
      → ((w : World) → WhenOk Q (m w).0)
      → ((a : A) → Q a → Keeps P n (f a))
      → Keeps P n (m >>= f)
  unfolding ◌>>=◌
  >>=-Keeps_known Q m f km q kf = record {
    run = λ w e.
        let (l, p, h, e') = km.run w e in
        let (l', p', h', e'') = (continue_with-Keeps_known Q (m w).0 f (q w) kf).run (m w).1 e' in
        (l' ++ l, p' ∙ rw (p, append_assoc) refl, All-append P l' l h' h, e'');
  }

module _ (P : Event → Type 0) (n : Netns) (env : Env) where
  pub call-Keeps : (c : Call) → P (record { ns = n; call = c }) → Keeps P n (call env c)
  unfolding call
  call-Keeps c p = record {
    run = λ w e. ((record { ns = w.ns; call = c }) ∷ [], refl, (rw e p, tt), e);
  }

  pub parse_cidr-Keeps : (s : Text) → Keeps P n (parse_cidr env s)
  unfolding parse_cidr
  parse_cidr-Keeps s = or_fail-Keeps P n _ _

  pub do_netns-Keeps :
      {A : Type 0} (m : M A)
      → P (record { ns = n; call = enter_netns })
      → Keeps P pod m
      → Keeps P n (do_netns env m)
  unfolding do_netns
  do_netns-Keeps m p k = record {
    run = λ w e.
        let entering : Event = record { ns = w.ns; call = enter_netns } in
        let v : World = record { ns = pod; trace = entering ∷ w.trace } in
        let entered = returned (env.answer w.trace w.ns enter_netns) in
        let (l, q, h, _) = (continue_with-Keeps P pod entered (λ _. m) (λ _. k)).run v refl in
        (
          l ++ entering ∷ [],
          q ∙ rw append_assoc refl,
          All-append P l (entering ∷ []) h (rw e p, tt),
          e,
        );
  }

pub ruleset keeps = (
  pure-Keeps, fail-Keeps, crash-Keeps, >>=-Keeps, choose-Keeps, or_fail-Keeps, deref-Keeps,
  wrap-Keeps, ignoring-Keeps, try-Keeps, for_each-Keeps, call-Keeps, parse_cidr-Keeps,
  do_netns-Keeps,
)
