-- ===== src/World/Runs.antt =====
-- Exact runs: what an action returns and the calls that it makes, in order, from any trace.
use cni_plugins.Base.{◌≡◌, refl, Bool, List, [], ◌∷◌, ◌++◌}
use mathlib.Core.List.{append-nil}
use cni_plugins.World.{
  Trace, Netns, host, pod, Call, enter_netns, Answer, Response, call, good, M, Env, Error, Returned,
  ok, err, panic, ◌>>=◌, ◌>>◌, pure, wrap, forgive, map_error, returned, ignoring, do_netns,
  for_each,
}

-- The trace after some calls in one namespace, the latest first.
abbrev pub after : Netns → List Call → Trace → Trace
after n [] t = t
after n (c ∷ cs) t = after n cs ((record { ns = n; call = c }) ∷ t)

pub after-append :
    (n : Netns) (cs ds : List Call) (t : Trace) → after n (cs ++ ds) t ≡ after n ds (after n cs t)
after-append n [] ds t = refl
after-append n (c ∷ cs) ds t = after-append n cs ds _

-- In the namespace `n`, the action makes the calls `cs` and returns `r`.
pub record Runs (n : Netns) {A : Type 0} (m : M A) (cs : List Call) (r : Returned A) : Type 0 where
  pub run :
      (t : Trace) → m (record { ns = n; trace = t }) ≡ (r, record { ns = n; trace = after n cs t })

-- What each entry gives, one after the other.
abbrev pub gather : {A B : Type 0} → (A → List B) → List A → List B
gather f [] = []
gather f (x ∷ xs) = f x ++ gather f xs

-- The result and the calls of an action behind another one, which may have failed.
abbrev pub and_then : Returned (Unit {0}) → Returned (Unit {0}) → Returned (Unit {0})
and_then (ok a) q = q
and_then (err e) q = err e
and_then (panic s) q = panic s

abbrev pub calls_then : Returned (Unit {0}) → List Call → List Call
calls_then (ok a) cs = cs
calls_then (err e) cs = []
calls_then (panic s) cs = []

module _ (n : Netns) where
  pub pure-Runs : {A : Type 0} (a : A) → Runs n (pure a) [] (ok a)
  unfolding pure
  pure-Runs a = record { run = λ t. refl }

  pub >>=-Runs :
      {A B : Type 0} (m : M A) (f : A → M B) (cs ds : List Call) (a : A) (r : Returned B)
      → Runs n m cs (ok a)
      → Runs n (f a) ds r
      → Runs n (m >>= f) (cs ++ ds) r
  unfolding ◌>>=◌
  >>=-Runs m f cs ds a r p q = record {
    run = λ t. rw (p.run t, after-append n cs ds t) (q.run (after n cs t));
  }

  pub >>=-Runs_err :
      {A B : Type 0} (m : M A) (f : A → M B) (cs : List Call) (e : Error)
      → Runs n m cs (err e)
      → Runs n (m >>= f) cs (err e)
  unfolding ◌>>=◌
  >>=-Runs_err m f cs e p = record { run = λ t. rw (p.run t) refl }

  pub >>-Runs :
      (m k : M (Unit {0})) (cs ds : List Call) (r q : Returned (Unit {0}))
      → Runs n m cs r
      → Runs n k ds q
      → Runs n (m >> k) (cs ++ calls_then r ds) (and_then r q)
  unfolding ◌>>=◌
  >>-Runs m k cs ds (ok a) q p h = >>=-Runs m (λ _. k) cs ds a q p h
  >>-Runs m k cs ds (err e) q p h = record { run = λ t. rw (p.run t, append-nil) refl }
  >>-Runs m k cs ds (panic s) q p h = record { run = λ t. rw (p.run t, append-nil) refl }

  pub wrap-Runs :
      {A : Type 0} (f : Error → Error) (m : M A) (cs : List Call) (r : Returned A)
      → Runs n m cs r
      → Runs n (wrap f m) cs (map_error f r)
  unfolding wrap
  wrap-Runs f m cs r p = record { run = λ t. rw (p.run t) refl }

  -- An action of one call with no result, whose errors are tolerated where they arise.
  pub ignoring-Runs :
      (test : Error → Bool) (m : M (Unit {0})) (c : Call) (answers : Trace → Answer (Unit {0}))
      → ((t : Trace)
          → m (record { ns = n; trace = t })
            ≡ (returned (answers t), record { ns = n; trace = after n (c ∷ []) t }))
      → ((t : Trace) → forgive test (returned (answers t)) ≡ ok tt)
      → Runs n (ignoring test m) (c ∷ []) (ok tt)
  unfolding ignoring
  ignoring-Runs test m c answers p h = record { run = λ t. rw (p t, h t) refl }

  -- A loop whose every round succeeds makes the calls of its rounds, one after the other.
  pub for_each-Runs :
      {A : Type 0} (xs : List A) (body : A → M (Unit {0})) (calls : A → List Call)
      → ((a : A) → Runs n (body a) (calls a) (ok tt))
      → Runs n (for_each xs body) (gather calls xs) (ok tt)
  unfolding for_each
  for_each-Runs [] body calls h = pure-Runs tt
  for_each-Runs (x ∷ xs) body calls h =
      >>=-Runs (body x) (λ _. for_each xs body) (calls x) (gather calls xs) tt (ok tt) (h x)
        (for_each-Runs xs body calls h)

-- One call that is answered.
pub call-Runs :
    (env : Env) (n : Netns) (c : Call) (a : Response c)
    → ((t : Trace) → env.answer t n c ≡ good a)
    → Runs n (call env c) (c ∷ []) (ok a)
unfolding call
call-Runs env n c a h = record { run = λ t. rw (h t) refl }

-- `netns.Do`, where the namespace can be entered.
pub do_netns-Runs :
    {A : Type 0} (env : Env) (m : M A) (cs : List Call) (r : Returned A)
    → ((t : Trace) (n : Netns) → env.answer t n enter_netns ≡ good tt)
    → Runs pod m cs r
    → (t : Trace)
    → do_netns env m (record { ns = host; trace = t })
      ≡ (r, record { ns = host; trace = after pod cs (after host (enter_netns ∷ []) t) })
unfolding do_netns
do_netns-Runs env m cs r opens p t =
    rw (opens t host) (rw (p.run (after host (enter_netns ∷ []) t)) refl)
