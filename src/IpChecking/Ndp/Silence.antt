-- ===== src/IpChecking/Ndp/Silence.antt =====
-- The NDP check of an address that nobody answers for.
use cni_plugins.Base.{ℕ, zero, suc, ◌≡◌, refl, true, List, [], ◌∷◌, ◌++◌}
use cni_plugins.Base.Int.{pos}
use cni_plugins.Net.{Ip, Bytes}
use cni_plugins.Constant.{ndp_retry_error}
use cni_plugins.World.{
  Trace, Netns, Call, Env, Interface, Foreign, good, bad, ok, err, ◌>>=◌, pure, wrap, try, fail,
  call, ndp_listen, ndp_solicited_node_multicast, ndp_write, ndp_set_read_deadline, ndp_read,
}
use cni_plugins.World.Runs.{Runs, after, pure-Runs, >>=-Runs}
use cni_plugins.IpChecking.Ndp.{
  retry, retry_error, send_receive, send_receive_loop, written, read_result, is_timeout,
  ndp_verdict, ip_checking_by_ndp,
}

-- The connection works, each solicitation is sent to the address's group, and each read times out.
abbrev pub IsSilent : Env → Ip → Ip → Foreign → Type 0
IsSilent env target group f =
    ((t : Trace) (n : Netns) (ifi : Interface) → env.answer t n (ndp_listen ifi) ≡ good tt)
    × ((t : Trace) (n : Netns) → env.answer t n (ndp_solicited_node_multicast target) ≡ good group)
    × ((t : Trace) (n : Netns) (hw : Bytes) → env.answer t n (ndp_write group target hw) ≡ good tt)
    × ((t : Trace) (n : Netns) (d : ℕ) → env.answer t n (ndp_set_read_deadline d) ≡ good tt)
    × ((t : Trace) (n : Netns) → env.answer t n ndp_read ≡ bad f)
    × (f.timeout ≡ true)

-- One round: the group is computed, the solicitation sent, and the answer awaited.
abbrev pub round_calls : Ip → Ip → Bytes → ℕ → List Call
round_calls target group hw interval =
    ndp_solicited_node_multicast target
    ∷ ndp_write group target hw
    ∷ ndp_set_read_deadline interval
    ∷ ndp_read
    ∷ []

abbrev pub rounds_calls : ℕ → List Call → List Call
rounds_calls zero cs = []
rounds_calls (suc n) cs = cs ++ rounds_calls n cs

module _ (env : Env) (target group : Ip) (f : Foreign) (silent : IsSilent env target group f)
    (hw : Bytes) (interval : ℕ) (n : Netns) where
  send_receive-Runs :
      Runs n (send_receive env hw target interval) (round_calls target group hw interval) (ok retry)
  unfolding send_receive call ◌>>=◌ wrap try written pure read_result is_timeout
  send_receive-Runs =
      let (_, s1, s2, s3, s4, s5) = silent in record { run = λ t. rw (s1, s2, s3, s4, s5) refl }

  send_receive_loop-Runs :
      (rounds : ℕ)
      → Runs n
          (send_receive_loop env rounds hw target interval)
          (rounds_calls rounds (round_calls target group hw interval))
          (ok retry_error)
  unfolding send_receive_loop
  send_receive_loop-Runs zero = pure-Runs n retry_error
  send_receive_loop-Runs (suc rounds) =
      >>=-Runs n _ _ (round_calls target group hw interval) _ retry (ok retry_error)
        send_receive-Runs (send_receive_loop-Runs rounds)

-- Where the connection works, each solicitation is sent and each read times out, the NDP check
-- sends exactly the configured number of solicitations, ends, and returns the error of the maximum
-- number of retries.
pub ip_checking_by_ndp_silent :
    (env : Env) (target group : Ip) (f : Foreign)
    → IsSilent env target group f
    → (ifi : Interface) (retries interval : ℕ) (n : Netns) (t : Trace)
    → ip_checking_by_ndp env ifi target (pos retries) interval (record { ns = n; trace = t }) ≡ (
      err ndp_retry_error,
      record {
        ns = n;
        trace =
            after n
              (ndp_listen ifi
                ∷ rounds_calls retries (round_calls target group ifi.hardware_addr interval))
              t;
      },
    )
unfolding ip_checking_by_ndp call ndp_verdict ◌>>=◌ fail
ip_checking_by_ndp_silent env target group f silent ifi retries interval n t =
    rw
      (
        silent.0 t n ifi,
        (send_receive_loop-Runs env target group f silent ifi.hardware_addr interval n retries).run
            _,
      )
      refl
