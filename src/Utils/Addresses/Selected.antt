-- ===== src/Utils/Addresses/Selected.antt =====
-- Which addresses `GetHostIps` and `GetChainedInterfaceIps` return.
use mathlib.Core.List.{reverse, append_assoc, append-nil}
use cni_plugins.Base.{
  ◌≡◌, refl, arith, String, Bool, true, false, not, none, some, List, [], ◌∷◌, ◌++◌, is_empty,
  exists, filter, All, Bool-cases, Option-cases, inl, inr, map,
}
use cni_plugins.Base.Text.{Text, same_text, eq_of_same_text}
use cni_plugins.Net.{Ip, IpNet}
use cni_plugins.World.{
  World, Trace, Netns, host, pod, Env, good, Returned, ok, err, new, errorf, net_interfaces,
  interface_addrs, enter_netns, call, choose, pure, fail, ◌>>=◌,
}
use cni_plugins.World.Runs.{
  Runs, after, gather, pure-Runs, >>=-Runs, wrap-Runs, call-Runs, do_netns-Runs,
}
use cni_plugins.World.Parsed.{parse_cidr-Runs-some}
use cni_plugins.Utils.Addresses.Wanted.{
  is_passed_over, is_unicast_of, is_excluded-words, is_wanted-unicast,
}
use cni_plugins.Utils.Addresses.{
  host_addrs, host_ips_loop, get_host_ips, chained_addrs, chained_interfaces,
  get_chained_interface_ips,
}

-- An error where nothing is found.
abbrev pub found : List Text → String → Returned (List Text)
found [] s = err (new s)
found (ip ∷ ips) s = ok (ip ∷ ips)

choose-found :
    (ips : List Text) (s : String) (w : World)
    → choose (is_empty ips) (fail (new s)) (pure ips) w ≡ (found ips s, w)
unfolding choose fail pure
choose-found [] s w = refl
choose-found (ip ∷ ips) s w = refl

module _ (env : Env) (enable_ipv4 enable_ipv6 : Bool) where
  -- The text is an address with a prefix, of an enabled family, and neither multicast nor link-local.
  abbrev pub is_usable : Text → Bool
  is_usable addr = elim (env.parse_cidr addr) [
    | none ↦ false
    | some p ↦ is_unicast_of enable_ipv4 enable_ipv6 p.0
  ]

  host_addrs-filter :
      (addrs ips : List Text)
      → host_addrs env enable_ipv4 enable_ipv6 addrs ips ≡ ips ++ filter is_usable addrs
  unfolding host_addrs
  host_addrs-filter [] ips = rw append-nil refl
  host_addrs-filter (a ∷ addrs) ips = elim (Option-cases (env.parse_cidr a)) [
    | inl e ↦ rw (e, is_usable) (host_addrs-filter addrs ips)
    | inr (p, e) ↦ elim (Bool-cases (is_unicast_of enable_ipv4 enable_ipv6 p.0)) [
      | inl f ↦
          rw (e, is_usable, is_wanted-unicast, f)
            (rw (host_addrs-filter addrs (ips ++ a ∷ []), append_assoc) refl)
      | inr f ↦ rw (e, is_usable, is_wanted-unicast, f) (host_addrs-filter addrs ips)
    ]
  ]

  module _ (n : Netns) (addrs_of : Text → List Text)
      (lists : (t : Trace) (name : Text)
        → env.answer t n (interface_addrs name) ≡ good (addrs_of name)) where
    host_ips_loop-Runs :
        (names ips : List Text)
        → Runs n
            (host_ips_loop env enable_ipv4 enable_ipv6 names ips)
            (map interface_addrs (filter (λ name. not (is_passed_over name)) names))
            (ok (
              ips
              ++ gather
                  (λ name. filter is_usable (addrs_of name))
                  (filter (λ name. not (is_passed_over name)) names)))
    unfolding host_ips_loop choose
    host_ips_loop-Runs [] ips = rw append-nil (pure-Runs n ips)
    host_ips_loop-Runs (name ∷ names) ips = elim (Bool-cases (is_passed_over name)) [
      | inl e ↦ rw (is_excluded-words name, e) (host_ips_loop-Runs names ips)
      | inr e ↦
          rw (is_excluded-words name, e)
            (>>=-Runs n _ _ (interface_addrs name ∷ []) _ (addrs_of name) _
              (call-Runs env n (interface_addrs name) (addrs_of name) (λ t. lists t name))
              (rw (host_addrs-filter (addrs_of name) ips) (
                rw append_assoc at
                  (host_ips_loop-Runs names (ips ++ filter is_usable (addrs_of name))))))
    ]

    -- Where the interfaces and their addresses are listed, GetHostIps returns the texts that are
    -- addresses of an enabled family, neither multicast nor link-local, of the interfaces that are
    -- not excluded, from the last interface to the first, and an error where there is none; it
    -- lists the addresses of these interfaces alone. An interface is excluded if its name contains
    -- docker, cbr, dummy, virbr, lxcbr, veth, lo, cali, tunl, flannel, kube-ipvs or cni.
    pub get_host_ips-filter :
        (names : List Text) (t : Trace)
        → ((t : Trace) → env.answer t n net_interfaces ≡ good names)
        → let searched = filter (λ name. not (is_passed_over name)) (reverse names) in
          get_host_ips env enable_ipv4 enable_ipv6 (record { ns = n; trace = t }) ≡ (
            found
                (gather (λ name. filter is_usable (addrs_of name)) searched)
                "no one vaild ip on the node",
            record { ns = n; trace = after n (net_interfaces ∷ map interface_addrs searched) t },
          )
    unfolding get_host_ips call ◌>>=◌
    get_host_ips-filter names t h =
        rw (h t) (rw ((host_ips_loop-Runs (reverse names) []).run _) (choose-found _ _ _))

  -- Every text is an address with a prefix.
  abbrev pub AreAddrs : List Text → Type 0
  AreAddrs addrs = All (λ addr. (p : Ip × IpNet) × (env.parse_cidr addr ≡ some p)) addrs

  chained_addrs-Runs :
      (n : Netns) (addrs ips : List Text)
      → AreAddrs addrs
      → Runs n
          (chained_addrs env enable_ipv4 enable_ipv6 addrs ips)
          []
          (ok (ips ++ filter is_usable addrs))
  unfolding chained_addrs
  chained_addrs-Runs n [] ips h = rw append-nil (pure-Runs n ips)
  chained_addrs-Runs n (a ∷ addrs) ips ((p, e), h) =
      >>=-Runs n _ _ [] [] p _ (wrap-Runs n _ _ _ (ok p) (parse_cidr-Runs-some env n a p e))
        (elim (Bool-cases (is_unicast_of enable_ipv4 enable_ipv6 p.0)) [
          | inl f ↦
              rw (e, is_usable, is_wanted-unicast, f)
                (rw append_assoc at (chained_addrs-Runs n addrs (ips ++ a ∷ []) h))
          | inr f ↦ rw (e, is_usable, is_wanted-unicast, f) (chained_addrs-Runs n addrs ips h)
        ])

  module _ (iface : Text) (addrs : List Text) (usable : AreAddrs addrs)
      (lists : (t : Trace) → env.answer t pod (interface_addrs iface) ≡ good addrs) where
    chained_interfaces-Runs :
        (names : List Text)
        → exists (λ name. same_text name iface) names ≡ true
        → Runs pod
            (chained_interfaces env enable_ipv4 enable_ipv6 iface names)
            (interface_addrs iface ∷ [])
            (ok (filter is_usable addrs))
    unfolding chained_interfaces choose
    chained_interfaces-Runs [] h = absurd (cc)
    chained_interfaces-Runs (name ∷ names) h = elim (Bool-cases (same_text name iface)) [
      | inl e ↦ rw e (
          rw (eq_of_same_text name iface e) (
            >>=-Runs pod _ _ (interface_addrs iface ∷ []) [] addrs _
              (wrap-Runs pod _ _ _ (ok addrs)
                (call-Runs env pod (interface_addrs iface) addrs lists))
              (chained_addrs-Runs pod addrs [] usable)))
      | inr e ↦ rw e (chained_interfaces-Runs names (ground (arith, e, h)))
    ]

    -- Where the pod can be entered, the interface is among those listed there and each of its
    -- addresses can be read, GetChainedInterfaceIps returns those of an enabled family that are
    -- neither multicast nor link-local, in their order, and an error where there is none.
    pub get_chained_interface_ips-filter :
        (names : List Text) (t : Trace)
        → ((t : Trace) (n : Netns) → env.answer t n enter_netns ≡ good tt)
        → ((t : Trace) → env.answer t pod net_interfaces ≡ good names)
        → exists (λ name. same_text name iface) names ≡ true
        → get_chained_interface_ips env enable_ipv4 enable_ipv6 iface
            (record { ns = host; trace = t })
          ≡ (
            found (filter is_usable addrs) "no one vaild ip on the pod",
            record {
              ns = host;
              trace =
                  after pod
                    (net_interfaces ∷ interface_addrs iface ∷ [])
                    (after host (enter_netns ∷ []) t);
            },
          )
    unfolding get_chained_interface_ips ◌>>=◌
    get_chained_interface_ips-filter names t opens lists_names h =
        rw
          (do_netns-Runs env _ _ _ opens
            (>>=-Runs pod _ (chained_interfaces env enable_ipv4 enable_ipv6 iface)
              (net_interfaces ∷ []) _ names _
              (wrap-Runs pod (errorf "failed to list container interfaces: %v") _ _ (ok names)
                (call-Runs env pod net_interfaces names lists_names))
              (chained_interfaces-Runs names h))
            t)
          (choose-found _ _ _)
