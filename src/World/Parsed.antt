-- ===== src/World/Parsed.antt =====
-- Exact runs of the loops over texts that are to be subnets.
use cni_plugins.Base.{
  ◌≡◌, refl, ◌⊎◌, Option, none, some, List, [], ◌∷◌, ◌++◌, Option-cases, inl, inr,
}
use cni_plugins.Base.Text.{Text}
use cni_plugins.Net.{Ip, IpNet}
use cni_plugins.World.{
  Netns, Call, M, Env, Error, Returned, ok, err, new, for_each, parse_cidr, ◌>>=◌,
}
use mathlib.Core.List.{append_assoc}
use cni_plugins.World.Runs.{and_then, calls_then, Runs, pure-Runs, >>=-Runs, >>=-Runs_err}

module _ (parse : Text → Option (Ip × IpNet)) where
  -- The error of the first text that is no subnet, if there is one.
  abbrev pub subnet_result : List Text → Returned (Unit {0})
  subnet_result [] = ok tt
  subnet_result (text ∷ texts) =
      let rest = subnet_result texts in
      elim (parse text) [ none ↦ err (new "invalid CIDR address") | some p ↦ rest ]

  pub subnet_result-cases :
      (texts : List Text)
      → (subnet_result texts ≡ ok tt) ⊎ ((e : Error) × (subnet_result texts ≡ err e))
  subnet_result-cases [] = inl refl
  subnet_result-cases (x ∷ xs) = elim (Option-cases (parse x)) [
    | inl e ↦ inr (new "invalid CIDR address", rw (e, subnet_result) refl)
    | inr (p, e) ↦ rw (e, subnet_result) (subnet_result-cases xs)
  ]

  pub subnet_result-append :
      (xs ys : List Text)
      → subnet_result (xs ++ ys) ≡ and_then (subnet_result xs) (subnet_result ys)
  subnet_result-append [] ys = refl
  subnet_result-append (x ∷ xs) ys = elim (Option-cases (parse x)) [
    | inl e ↦ rw (e, subnet_result) refl
    | inr (p, e) ↦ rw (e, subnet_result) (subnet_result-append xs ys)
  ]

  module _ (calls : Ip × IpNet → List Call) where
    -- The calls for the texts before that one.
    abbrev pub parsed_calls : List Text → List Call
    parsed_calls [] = []
    parsed_calls (text ∷ texts) =
        let rest = parsed_calls texts in elim (parse text) [ none ↦ [] | some p ↦ calls p ++ rest ]

    -- Two lists of subnets, one after the other, are the list of both.
    pub parsed_calls-append :
        (xs ys : List Text)
        → parsed_calls (xs ++ ys)
          ≡ parsed_calls xs ++ calls_then (subnet_result xs) (parsed_calls ys)
    parsed_calls-append [] ys = refl
    parsed_calls-append (x ∷ xs) ys = elim (Option-cases (parse x)) [
      | inl e ↦ rw (e, parsed_calls, subnet_result) refl
      | inr (p, e) ↦
          rw (e, parsed_calls, subnet_result) (rw (parsed_calls-append xs ys, append_assoc) refl)
    ]

module _ (env : Env) (n : Netns) where
  pub parse_cidr-Runs-some :
      (s : Text) (p : Ip × IpNet) → env.parse_cidr s ≡ some p → Runs n (parse_cidr env s) [] (ok p)
  unfolding parse_cidr
  parse_cidr-Runs-some s p e = record { run = λ t. rw e refl }

  parse_cidr-Runs-none :
      (s : Text)
      → env.parse_cidr s ≡ none
      → Runs n (parse_cidr env s) [] (err (new "invalid CIDR address"))
  unfolding parse_cidr
  parse_cidr-Runs-none s e = record { run = λ t. rw e refl }

  -- A loop that parses each text and whose rounds then succeed.
  pub for_each_parsed-Runs :
      (body : Ip × IpNet → M Unit) (calls : Ip × IpNet → List Call)
      → ((p : Ip × IpNet) → Runs n (body p) (calls p) (ok tt))
      → (texts : List Text)
      → Runs n
          (for_each texts (λ s. parse_cidr env s >>= body))
          (parsed_calls env.parse_cidr calls texts)
          (subnet_result env.parse_cidr texts)
  unfolding for_each
  for_each_parsed-Runs body calls h [] = pure-Runs n tt
  for_each_parsed-Runs body calls h (s ∷ ss) = elim (Option-cases (env.parse_cidr s)) [
    | inl e ↦
        rw (e, parsed_calls, subnet_result)
          (>>=-Runs_err n _ _ [] _
            (>>=-Runs_err n (parse_cidr env s) _ [] _ (parse_cidr-Runs-none s e)))
    | inr (p, e) ↦
        rw (e, parsed_calls, subnet_result)
          (>>=-Runs n _ _ (calls p) _ tt _
            (>>=-Runs n (parse_cidr env s) _ [] _ p (ok tt) (parse_cidr-Runs-some s p e) (h p))
            (for_each_parsed-Runs body calls h ss))
  ]
