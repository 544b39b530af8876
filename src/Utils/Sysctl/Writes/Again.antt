-- ===== src/Utils/Sysctl/Writes/Again.antt =====
-- A second run of `EnableIpv6Sysctl`.
use cni_plugins.Base.{◌≡◌, ◌∙◌, refl, true, arith, List, [], ◌∷◌, All, All-mono, map}
use cni_plugins.Base.Text.{Text, codes, same_text_self}
use cni_plugins.World.{
  Trace, host, pod, Env, good, ok, for_each, call, sysctl_get, read_dir, enter_netns, ◌>>=◌, pure,
  choose, wrap, do_netns,
}
use cni_plugins.World.Runs.{after}
use cni_plugins.Utils.Sysctl.{disable_ipv6_name, enable_ipv6_sysctl, sysctl_conf_path_ipv6}
use cni_plugins.Utils.Sysctl.Store.{Store, store_after, IsStore}
use cni_plugins.Utils.Sysctl.Writes.{inside-Writes, ipv6_loop-Writes}
use cni_plugins.Utils.Sysctl.Loops.{among, ipv6_round}

-- Each directory is one of them.
among-All :
    (name : Text → Text) (dirs : List Text) → All (λ dir. among name dirs (name dir) ≡ true) dirs
among-All name [] = tt
among-All name (d ∷ dirs) = (
  ground (arith, same_text_self (name d)),
  All-mono dirs (λ x h. ground (arith, h)) (among-All name dirs),
)

module _ (env : Env) (s : Store) (is_store : IsStore env s) where
  -- Every parameter is 0 already.
  abbrev AreOff : List Text → Trace → Type 0
  AreOff dirs t = All (λ dir. store_after s t pod (disable_ipv6_name dir) ≡ codes "0") dirs

  quiet_loop :
      (dirs : List Text) (t : Trace)
      → AreOff dirs t
      → for_each dirs (ipv6_round env) (record { ns = pod; trace = t }) ≡ (
        ok tt,
        record {
          ns = pod;
          trace = after pod (map (λ dir. sysctl_get (disable_ipv6_name dir)) dirs) t;
        },
      )
  unfolding for_each wrap call choose pure ◌>>=◌
  quiet_loop [] t h = refl
  quiet_loop (d ∷ dirs) t (h, hs) = rw (is_store.0 t pod (disable_ipv6_name d)) (
      rw h
        (quiet_loop dirs ((record { ns = pod; call = sysctl_get (disable_ipv6_name d) }) ∷ t) hs))

  module _ (opens : (t : Trace) → env.answer t host enter_netns ≡ good tt) (dirs : List Text)
      (lists : (t : Trace) → env.answer t pod (read_dir sysctl_conf_path_ipv6) ≡ good dirs) where
    first_run :
        (t : Trace)
        → (t' : Trace) × (enable_ipv6_sysctl env (record { ns = host; trace = t })
            ≡ (ok tt, record { ns = host; trace = t' }))
          × AreOff dirs t'
    unfolding enable_ipv6_sysctl call ◌>>=◌
    first_run t =
        let (t', e, c) =
          inside-Writes env s is_store opens (among disable_ipv6_name dirs) (codes "0") _
            (ipv6_loop-Writes env s is_store pod dirs lists) t in
        (
          t',
          e,
          All-mono dirs (λ dir h. c pod (disable_ipv6_name dir) ∙ rw h refl)
              (among-All disable_ipv6_name dirs),
        )

    abbrev reads : Trace → Trace
    reads t =
        after pod
          (read_dir sysctl_conf_path_ipv6 ∷ map (λ dir. sysctl_get (disable_ipv6_name dir)) dirs)
          (after host (enter_netns ∷ []) t)

    quiet_run :
        (t : Trace)
        → AreOff dirs t
        → enable_ipv6_sysctl env (record { ns = host; trace = t })
          ≡ (ok tt, record { ns = host; trace = reads t })
    unfolding enable_ipv6_sysctl do_netns call ◌>>=◌
    quiet_run t off = rw (opens t) (rw (lists _) (rw (quiet_loop dirs _ off) refl))

    -- Where the pod can be entered, its directories are listed and parameters are read as they were
    -- last written, a second EnableIpv6Sysctl after a first one succeeds and writes nothing: it
    -- enters the pod, lists the directories and reads the parameter of each.
    pub enable_ipv6_sysctl_again :
        (t : Trace)
        → let (result, w) = enable_ipv6_sysctl env (record { ns = host; trace = t }) in
          enable_ipv6_sysctl env w ≡ (
            ok tt,
            record {
              ns = host;
              trace =
                  after pod
                    (read_dir sysctl_conf_path_ipv6
                      ∷ map (λ dir. sysctl_get (disable_ipv6_name dir)) dirs)
                    (after host (enter_netns ∷ []) w.trace);
            },
          )
    enable_ipv6_sysctl_again t = let (t', e, off) = first_run t in rw e (quiet_run t' off)
