-- ===== src/Utils/Sysctl/Writes.antt =====
-- What the loops over the kernel's parameters leave in the store.
pub mod Again
use cni_plugins.Base.{
  ◌≡◌, ◌∙◌, refl, inl, inr, Bool, true, false, Option, some, List, [], ◌∷◌, Bool-cases, from_option,
  exists, if◌then◌else◌, ◌&&◌, ◌||◌, arith,
}
use cni_plugins.Base.Text.{Text, codes, same_text}
use cni_plugins.Base.Int.{ℤ, pos}
use cni_plugins.Types.{RpFilter}
use cni_plugins.World.{
  Trace, Netns, host, pod, M, Env, Error, errorf, good, ok, for_each, pass, call, deref, sysctl_get,
  sysctl_set, read_dir, enter_netns, ◌>>=◌, pure, choose, wrap, try, do_netns,
}
use cni_plugins.Utils.Names.Decimal.{itoa}
use cni_plugins.Utils.Sysctl.{
  rp_filter_name, disable_ipv6_name, write_rp_filter, set_rp_filter, sysctl_rp_filter,
  enable_ipv6_sysctl, sysctl_conf_path_ipv4, sysctl_conf_path_ipv6,
}
use cni_plugins.Utils.Sysctl.Store.{
  Store, store_after, IsStore, same_ns, write_kind, set_lem, write_kind-same,
}
use cni_plugins.Utils.Sysctl.Loops.{
  among, Writes, for_each-Writes, ipv6_round, wrap-Writes, unless_same-Writes,
}

module _ (env : Env) (s : Store) (is_store : IsStore env s) (n : Netns) where
  rp_round-Writes :
      (dir : Text) (v : ℤ)
      → Writes s n (same_text (rp_filter_name dir)) (itoa v) (
          try (call env (sysctl_get (rp_filter_name dir)))
          >>= write_rp_filter env (rp_filter_name dir) v)
  unfolding write_rp_filter try call ◌>>=◌
  rp_round-Writes dir v =
      unless_same-Writes env s is_store n (rp_filter_name dir) (itoa v) _
        λ t. rw (is_store.0 t n (rp_filter_name dir)) refl

  -- Each directory's parameter is written in the namespace.
  set_rp_filter-Writes :
      (dirs : List Text) (v : Option ℤ)
      → ((t : Trace) → env.answer t n (read_dir sysctl_conf_path_ipv4) ≡ good dirs)
      → Writes s n (among rp_filter_name dirs) (itoa (from_option v (pos 0))) (set_rp_filter env v)
  unfolding set_rp_filter call ◌>>=◌
  set_rp_filter-Writes dirs v lists = record {
    run = λ t.
        let asked : Trace = (record { ns = n; call = read_dir sysctl_conf_path_ipv4 }) ∷ t in
        let loop =
          for_each-Writes s n rp_filter_name (itoa (from_option v (pos 0))) dirs _
            (λ dir. rp_round-Writes dir (from_option v (pos 0))) in
        let (t', e, c) = loop.run asked in (t', rw (lists t) e, c);
  }

  ipv6_round-Writes :
      (dir : Text) → Writes s n (same_text (disable_ipv6_name dir)) (codes "0") (ipv6_round env dir)
  unfolding wrap call ◌>>=◌ choose pure
  ipv6_round-Writes dir =
      unless_same-Writes env s is_store n (disable_ipv6_name dir) (codes "0") _ λ t.
        let k = disable_ipv6_name dir in
        let t1 : Trace = (record { ns = n; call = sysctl_get k }) ∷ t in
        elim (Bool-cases (same_text (store_after s t n k) (codes "0"))) [
          | inl e ↦ rw (is_store.0 t n k, e) refl
          | inr e ↦ rw (is_store.0 t n k, e, is_store.1 t1 n k (codes "0")) refl
        ]

  pub ipv6_loop-Writes :
      (dirs : List Text)
      → ((t : Trace) → env.answer t n (read_dir sysctl_conf_path_ipv6) ≡ good dirs)
      → Writes s n
          (among disable_ipv6_name dirs)
          (codes "0")
          (call env (read_dir sysctl_conf_path_ipv6) >>= λ dirs. for_each dirs (ipv6_round env))
  unfolding call ◌>>=◌
  ipv6_loop-Writes dirs lists = record {
    run = λ t.
        let asked : Trace = (record { ns = n; call = read_dir sysctl_conf_path_ipv6 }) ∷ t in
        let loop = for_each-Writes s n disable_ipv6_name (codes "0") dirs _ ipv6_round-Writes in
        let (t', e, c) = loop.run asked in (t', rw (lists t) e, c);
  }

module _ (env : Env) (s : Store) (is_store : IsStore env s)
    (opens : (t : Trace) → env.answer t host enter_netns ≡ good tt) where
  -- An action in the pod, as seen from the host.
  pub inside-Writes :
      (kind : Text → Bool) (value : Text) (m : M Unit)
      → Writes s pod kind value m
      → (t : Trace)
      → (t' : Trace) × (do_netns env m (record { ns = host; trace = t })
          ≡ (ok tt, record { ns = host; trace = t' }))
        × ((o : Netns) (k : Text)
            → store_after s t' o k ≡ write_kind pod kind value (store_after s t) o k)
  unfolding do_netns call
  inside-Writes kind value m w t =
      let entered : Trace = (record { ns = host; call = enter_netns }) ∷ t in
      let (t', e, c) = w.run entered in (t', rw (opens t) (rw e refl), c)

  -- Where the pod can be entered, its directories are listed and parameters are read as they were
  -- last written, EnableIpv6Sysctl succeeds and, for each namespace and parameter, the store
  -- afterwards has 0 if it is the pod's disable_ipv6 of a listed directory, and what it had before
  -- otherwise.
  pub enable_ipv6_sysctl-store_after :
      (dirs : List Text)
      → ((t : Trace) → env.answer t pod (read_dir sysctl_conf_path_ipv6) ≡ good dirs)
      → (t : Trace) (n : Netns) (k : Text)
      → let (result, w) = enable_ipv6_sysctl env (record { ns = host; trace = t }) in
        (result ≡ ok tt)
        × (store_after s w.trace n k
            ≡ write_kind pod (among disable_ipv6_name dirs) (codes "0") (store_after s t) n k)
  unfolding enable_ipv6_sysctl call ◌>>=◌
  enable_ipv6_sysctl-store_after dirs lists t n k =
      let (t', e, c) =
        inside-Writes (among disable_ipv6_name dirs) (codes "0") _
          (ipv6_loop-Writes env s is_store pod dirs lists) t in
      rw e (refl, c n k)

  host_part :
      (dirs : List Text) (v : Option ℤ) (f : Error → Error)
      → ((t : Trace) → env.answer t host (read_dir sysctl_conf_path_ipv4) ≡ good dirs)
      → (on : Bool) (t : Trace)
      → (t' : Trace) × (choose on
            (wrap f (set_rp_filter env v))
            pass
            (record { ns = host; trace = t })
          ≡ (ok tt, record { ns = host; trace = t' }))
        × ((o : Netns) (k : Text)
            → store_after s t' o k ≡ (
                if on && same_ns host o && among rp_filter_name dirs k
                then itoa (from_option v (pos 0))
                else store_after s t o k))
  unfolding choose pure
  host_part dirs v f lists true t =
      (wrap-Writes s host _ _ f _ (set_rp_filter-Writes env s is_store host dirs v lists)).run t
  host_part dirs v f lists false t = (t, refl, λ o k. refl)

  -- The host's part and the pod's part, for one parameter.
  both_parts :
      (dirs : Netns → List Text) (on : Bool) (value old middle : Text) (n : Netns) (k : Text)
      → middle ≡ (if on && same_ns host n && among rp_filter_name (dirs host) k then value else old)
      → write_kind pod (among rp_filter_name (dirs pod)) value (λ _ _. middle) n k
        ≡ (if (same_ns pod n || on) && among rp_filter_name (dirs n) k then value else old)
  both_parts dirs on value old middle host k h = ground (arith, h)
  both_parts dirs on value old middle pod k h = ground (arith, h)

  -- Where the pod can be entered, the directories are listed and parameters are read as they were
  -- last written, SysctlRPFilter succeeds and, for each namespace and parameter, the store
  -- afterwards has the configured value, or 0 for none, if the parameter is the rp_filter of a
  -- listed directory and the namespace is the pod's or the host is to be set too, and what it had
  -- before otherwise.
  pub sysctl_rp_filter-store_after :
      (dirs : Netns → List Text)
      → ((t : Trace) (n : Netns) → env.answer t n (read_dir sysctl_conf_path_ipv4) ≡ good (dirs n))
      → (c : RpFilter) (t : Trace) (n : Netns) (k : Text)
      → let (result, w) = sysctl_rp_filter env (some c) (record { ns = host; trace = t }) in
        (result ≡ ok tt)
        × (store_after s w.trace n k ≡ (
            if (same_ns pod n || from_option c.enable false) && among rp_filter_name (dirs n) k
            then itoa (from_option c.value (pos 0))
            else store_after s t n k))
  unfolding sysctl_rp_filter wrap ◌>>=◌ deref choose pure
  sysctl_rp_filter-store_after dirs lists c t n k =
      let on = from_option c.enable false in
      let value = itoa (from_option c.value (pos 0)) in
      let (t1, e, h) =
        host_part (dirs host) c.value (errorf "failed to set rp_filter for host : %v")
          (λ t. lists t host) on t in
      let (t2, e', h') =
        inside-Writes (among rp_filter_name (dirs pod)) value _
          (wrap-Writes s pod _ _ (errorf "failed to set rp_filter for pod : %v") _
            (set_rp_filter-Writes env s is_store pod (dirs pod) c.value (λ t. lists t pod)))
          t1 in
      rw (e, e')
        (
          refl,
          h' n k
              ∙ both_parts dirs on value (store_after s t n k) (store_after s t1 n k) n k (h n k),
        )
