-- ===== src/World/Succeeds.antt =====
-- Total correctness: an action that begins in a namespace returns a value with a property, and ends
-- in the namespace where it began, from every trace of a kind, with a trace of a kind.
use cni_plugins.Base.{◌≡◌, refl, Bool, true, false, Option, some, List, [], ◌∷◌, All}
use cni_plugins.Base.Text.{Text}
use cni_plugins.Net.{Ip, IpNet}
use cni_plugins.World.{
  Trace, Event, Netns, host, pod, Call, enter_netns, Response, good, M, Env, Error, ok, ◌>>=◌, pure,
  choose, or_fail, deref, wrap, ignoring, Attempt, done, failed, try, call, do_netns, parse_cidr,
  for_each,
}

pub record Passes (I J : Trace → Type 0) (n : Netns) {A : Type 0} (Q : A → Type 0) (m : M A)
    : Type 0 where
  pub run :
      (t : Trace)
      → I t
      → (a : A) × (t' : Trace) × (m (record { ns = n; trace = t })
          ≡ (ok a, record { ns = n; trace = t' }))
        × J t'
        × Q a

-- The kind of the trace stays.
abbrev pub Succeeds : (Trace → Type 0) → Netns → {A : Type 0} → (A → Type 0) → M A → Type 0
Succeeds I n Q m = Passes I I n Q m

-- Every trace.
abbrev pub Always : Trace → Type 0
Always t = Unit

-- The property of a value of which nothing is asked.
abbrev pub Any : {A : Type 0} → A → Type 0
Any a = Unit

-- An attempt that succeeds.
abbrev pub IsDone : {A : Type 0} → (A → Type 0) → Attempt A → Type 0
IsDone Q (done a) = Q a
IsDone Q (failed e) = ⊥

module _ {I : Trace → Type 0} (n : Netns) where
  pub pure-Succeeds : {A : Type 0} (Q : A → Type 0) (a : A) → Q a → Succeeds I n Q (pure a)
  unfolding pure
  pure-Succeeds Q a q = record { run = λ t i. (a, t, refl, i, q) }

  pub >>=-Succeeds :
      {J K : Trace → Type 0} {A B : Type 0} (P : A → Type 0) (Q : B → Type 0) (m : M A)
      (f : A → M B)
      → Passes I J n P m
      → ((a : A) → P a → Passes J K n Q (f a))
      → Passes I K n Q (m >>= f)
  unfolding ◌>>=◌
  >>=-Succeeds P Q m f h k = record {
    run = λ t i.
        let (a, t1, e, i1, p) = h.run t i in
        let (b, t2, e', i2, q) = (k a p).run t1 i1 in (b, t2, rw e e', i2, q);
  }

  pub Succeeds-mono :
      {A : Type 0} (P Q : A → Type 0) (m : M A)
      → ((a : A) → P a → Q a)
      → Succeeds I n P m
      → Succeeds I n Q m
  Succeeds-mono P Q m f h = record {
    run = λ t i. let (a, t', e, i', p) = h.run t i in (a, t', e, i', f a p);
  }

  pub wrap-Succeeds :
      {J : Trace → Type 0} {A : Type 0} (Q : A → Type 0) (f : Error → Error) (m : M A)
      → Passes I J n Q m
      → Passes I J n Q (wrap f m)
  unfolding wrap
  wrap-Succeeds Q f m h = record {
    run = λ t i. let (a, t', e, i', q) = h.run t i in (a, t', rw e refl, i', q);
  }

  pub ignoring-Succeeds :
      (Q : Unit → Type 0) (test : Error → Bool) (m : M Unit)
      → Succeeds I n Q m
      → Succeeds I n Q (ignoring test m)
  unfolding ignoring
  ignoring-Succeeds Q test m h = record {
    run = λ t i. let (a, t', e, i', q) = h.run t i in (a, t', rw e refl, i', q);
  }

  pub try-Succeeds :
      {A : Type 0} (Q : A → Type 0) (m : M A) → Succeeds I n Q m → Succeeds I n (IsDone Q) (try m)
  unfolding try
  try-Succeeds Q m h = record {
    run = λ t i. let (a, t', e, i', q) = h.run t i in (done a, t', rw e refl, i', q);
  }

  pub attempt-Succeeds :
      {A B : Type 0} (P : A → Type 0) (Q : B → Type 0) (f : A → M B) (g : Error → M B)
      (x : Attempt A)
      → IsDone P x
      → ((a : A) → P a → Succeeds I n Q (f a))
      → Succeeds I n Q (elim x [ done a ↦ f a | failed e ↦ g e ])
  attempt-Succeeds P Q f g (done a) h k = k a h
  attempt-Succeeds P Q f g (failed e) h k = absurd h

  pub choose-Succeeds :
      {J : Trace → Type 0} {A : Type 0} (Q : A → Type 0) (b : Bool) (m k : M A)
      → (b ≡ true → Passes I J n Q m)
      → (b ≡ false → Passes I J n Q k)
      → Passes I J n Q (choose b m k)
  unfolding choose
  choose-Succeeds Q true m k f g = f refl
  choose-Succeeds Q false m k f g = g refl

  pub or_fail-Succeeds :
      {A : Type 0} (Q : A → Type 0) (o : Option A) (a : A) (x : Error)
      → o ≡ some a
      → Q a
      → Succeeds I n Q (or_fail o x)
  unfolding or_fail
  or_fail-Succeeds Q o a x e q = record { run = λ t i. (a, t, rw e refl, i, q) }

  pub deref-Succeeds :
      {A : Type 0} (Q : A → Type 0) (o : Option A) (a : A)
      → o ≡ some a
      → Q a
      → Succeeds I n Q (deref o)
  unfolding deref
  deref-Succeeds Q o a e q = record { run = λ t i. (a, t, rw e refl, i, q) }

  -- A loop whose rounds succeed at each entry with the property.
  pub for_each-Succeeds :
      {A : Type 0} (P : A → Type 0) (xs : List A) (body : A → M Unit)
      → All P xs
      → ((a : A) → P a → Succeeds I n Any (body a))
      → Succeeds I n Any (for_each xs body)
  unfolding for_each
  for_each-Succeeds P [] body h k = pure-Succeeds Any tt tt
  for_each-Succeeds P (x ∷ xs) body (h, hs) k =
      >>=-Succeeds Any Any (body x) (λ _. for_each xs body) (k x h)
        (λ _ _. for_each-Succeeds P xs body hs k)

-- Behind every trace of the kind, the outside answers every call, and the kind stays.
pub record AnswersAll (I : Trace → Type 0) (env : Env) : Type 0 where
  pub grows : (t : Trace) (e : Event) → I t → I (e ∷ t)
  pub answers :
      (t : Trace) (n : Netns) (c : Call) → I t → (a : Response c) × (env.answer t n c ≡ good a)

module _ {I : Trace → Type 0} (env : Env) where
  pub call-Succeeds :
      (n : Netns) (c : Call) (Q : Response c → Type 0)
      → AnswersAll I env
      → ((t : Trace) (a : Response c) → env.answer t n c ≡ good a → Q a)
      → Succeeds I n Q (call env c)
  unfolding call
  call-Succeeds n c Q h k = record {
    run = λ t i.
        let (a, e) = h.answers t n c i in
        (
          a,
          (record { ns = n; call = c }) ∷ t,
          rw e refl,
          h.grows t (record { ns = n; call = c }) i,
          k t a e,
        );
  }

  pub do_netns-Succeeds :
      {A : Type 0} (Q : A → Type 0) (m : M A)
      → AnswersAll I env
      → Succeeds I pod Q m
      → Succeeds I host Q (do_netns env m)
  unfolding do_netns call
  do_netns-Succeeds Q m h k = record {
    run = λ t i.
        let entered : Event = record { ns = host; call = enter_netns } in
        let (a, t', e, j, q) = k.run (entered ∷ t) (h.grows t entered i) in
        let (u, f) = h.answers t host enter_netns i in (a, t', rw f (rw e refl), j, q);
  }

  pub parse_cidr-Succeeds :
      (n : Netns) (s : Text) (p : Ip × IpNet)
      → env.parse_cidr s ≡ some p
      → Succeeds I n Any (parse_cidr env s)
  unfolding parse_cidr
  parse_cidr-Succeeds n s p e = or_fail-Succeeds n Any _ p _ e tt

-- Nothing is asked of the entries.
pub All-Any : {A : Type 0} (xs : List A) → All Any xs
All-Any [] = tt
All-Any (x ∷ xs) = (tt, All-Any xs)

module _ {I : Trace → Type 0} (env : Env) (answers : AnswersAll I env) where
  -- A call of which only an answer is asked.
  pub done-Succeeds : (n : Netns) (c : Call) → Succeeds I n Any (call env c)
  done-Succeeds n c = call-Succeeds env n c Any answers λ t a e. tt

-- An action that succeeds, and whose last call is one of `C`, made in the namespace where it began.
pub record Ends (I : Trace → Type 0) (n : Netns) (C : Call → Type 0) {A : Type 0} (m : M A)
    : Type 0 where
  pub run :
      (t : Trace)
      → I t
      → (a : A) × (t' : Trace) × (c : Call) × (m (record { ns = n; trace = t })
          ≡ (ok a, record { ns = n; trace = (record { ns = n; call = c }) ∷ t' }))
        × C c

module _ {I : Trace → Type 0} (n : Netns) (C : Call → Type 0) where
  pub >>=-Ends :
      {J : Trace → Type 0} {A B : Type 0} (P : A → Type 0) (m : M A) (f : A → M B)
      → Passes I J n P m
      → ((a : A) → P a → Ends J n C (f a))
      → Ends I n C (m >>= f)
  unfolding ◌>>=◌
  >>=-Ends P m f h k = record {
    run = λ t i.
        let (a, t1, e, j, p) = h.run t i in
        let (b, t2, c, e', q) = (k a p).run t1 j in (b, t2, c, rw e e', q);
  }

  pub choose-Ends :
      {A : Type 0} (b : Bool) (m k : M A)
      → (b ≡ true → Ends I n C m)
      → (b ≡ false → Ends I n C k)
      → Ends I n C (choose b m k)
  unfolding choose
  choose-Ends true m k f g = f refl
  choose-Ends false m k f g = g refl

  pub call-Ends : (env : Env) (c : Call) → AnswersAll I env → C c → Ends I n C (call env c)
  unfolding call
  call-Ends env c h q = record {
    run = λ t i. let (a, e) = h.answers t n c i in (a, t, c, rw e refl, q);
  }

  pub Ends-mono :
      (D : Call → Type 0) {A : Type 0} (m : M A)
      → ((c : Call) → D c → C c)
      → Ends I n D m
      → Ends I n C m
  Ends-mono D m f h = record {
    run = λ t i. let (a, t', c, e, q) = h.run t i in (a, t', c, e, f c q);
  }
