-- ===== src/IpChecking/Ndp.antt =====
-- pkg/ipchecking/ndp.go
pub mod Rounds
pub mod Silence
pub mod Heard
use cni_plugins.Base.{
  ℕ, zero, suc, ◌≡◌, refl, Bool, true, false, ◌&&◌, not, String, Option, none, some, List, [], ◌∷◌,
  if◌then◌else◌, arith,
}
use cni_plugins.Base.Text.{Text, same_text}
use cni_plugins.Base.Int.{ℤ, pos_part}
use cni_plugins.Net.{Ip, Bytes}
use cni_plugins.Net.Mac.{mac_string}
use cni_plugins.Constant.{ndp_retry_error}
use cni_plugins.World.{
  M, Env, Error, foreign, new, errorf, Interface, NdpMessage, neighbor_advertisement, other_message,
  ◌>>=◌, ◌>>◌, pure, fail, pass, choose, wrap, Attempt, done, failed, try, call, ndp_listen,
  ndp_solicited_node_multicast, ndp_write, ndp_set_read_deadline, ndp_read,
}

-- What `sendReceive` returns: an address and nil, `errRetry`, or another error.
pub data Received : Type 0 where
  reply : Text → Received
  retry : Received
  broken : Error → Received

-- What `sendReceiveLoop` returns: `NDPFoundReply` with an address, `NDPRetryError`, or another error.
pub data Found : Type 0 where
  found_reply : Text → Found
  retry_error : Found
  other_error : Error → Found

-- An advertisement for the target with a link-layer address as its only option.
unfoldable pub wanted_reply : Ip → NdpMessage → Received
wanted_reply target (neighbor_advertisement address (some hw ∷ [])) =
    if same_text address target then reply (mac_string hw) else retry
wanted_reply target _ = retry

unfoldable pub is_timeout : Error → Bool
is_timeout (foreign f) = f.timeout
is_timeout _ = false

unfoldable pub read_result : Ip → Attempt NdpMessage → Received
read_result target (done message) = wanted_reply target message
read_result target (failed e) =
    if is_timeout e then retry else broken (errorf "failed to read message: %v" e)

unfoldable pub written : Attempt (Unit {0}) → M Received → M Received
written (done _) k = k
written (failed e) k = pure (broken e)

module _ (env : Env) where
  unfoldable pub send_receive : Bytes → Ip → ℕ → M Received
  send_receive hw target interval = do
    ready ← try do
      snm ←
          wrap (errorf "failed to determine solicited-node multicast address: %v")
            (call env (ndp_solicited_node_multicast target))
      wrap (errorf "failed to send message: %v") (call env (ndp_write snm target hw))
      wrap (errorf "failed to set deadline: %v") (call env (ndp_set_read_deadline interval))
    written ready do message ← try (call env ndp_read); pure (read_result target message)

  -- `retry` rounds at most.
  unfoldable pub send_receive_loop : ℕ → Bytes → Ip → ℕ → M Found
  send_receive_loop zero hw target interval = pure retry_error
  send_receive_loop (suc rounds) hw target interval = do
    received ← send_receive hw target interval
    elim received [
      | reply mac ↦ pure (found_reply mac)
      | retry ↦ send_receive_loop rounds hw target interval
      | broken e ↦ pure (other_error e)
    ]

  unfoldable pub ndp_verdict : Interface → Found → M Unit
  ndp_verdict ifi (found_reply mac) =
      choose (not (same_text mac (mac_string ifi.hardware_addr)))
        (fail (new "pod's interface %s with an conflicting ip %s, %s is located at %s")) pass
  ndp_verdict ifi retry_error = fail ndp_retry_error
  ndp_verdict ifi (other_error e) = fail (errorf "failed to checking ip conflicting: %v" e)

  -- The deferred `client.Close()` is left out: its error is not looked at.
  unfoldable pub ip_checking_by_ndp : Interface → Ip → ℤ → ℕ → M Unit
  ip_checking_by_ndp ifi target retries interval = do
    call env (ndp_listen ifi)
    found ← send_receive_loop (pos_part retries) ifi.hardware_addr target interval
    ndp_verdict ifi found
