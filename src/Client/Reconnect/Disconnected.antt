-- ===== src/Client/Reconnect/Disconnected.antt =====
-- The retry loop after a manual disconnect (src/veltix/client/client.py, reconnect_handler.py).
use veltix.Prelude.{
  ℕ, suc, ◌≡◌, refl, sym, ap, ◌∙◌, subst, Bool, true, false, not, ◌||◌, Option, some, arith, leb,
  if◌then◌else◌, if_intro, Result, ok, err, is_ok, eq_nat, eq_string, eq_list,
}
use veltix.Network.Request.{Codec}
use veltix.Network.Sender.{Transport}
use veltix.Client.State.{
  DisconnectReason, server_closed, Client, close_socket, set_connected, stop_retry,
  fire_on_disconnect, disconnected, disconnect,
}
use veltix.Client.Reconnect.{
  Round, stop_if, break, again, after_wait, round, continue_with, reconnect_loop, try_reconnect,
  on_socket_disconnect,
}
use veltix.Exceptions.{Exn}
use veltix.Client.Reconnect.Rounds.{is_attempt, attempts, stop_if-trace, stop_if-is_connected}

module _ (codec : Codec) (net : Transport) where
  flagged-stop_if :
      (b : Bool) (c : Client codec net)
      → c.reconnect.stop_retry_flag ≡ true
      → ((stop_if codec net b c).reconnect.stop_retry_flag ≡ true)
        × ((stop_if codec net b c).notified ≡ c.notified)
        × ((stop_if codec net b c).socket ≡ c.socket)
  unfolding stop_retry
  flagged-stop_if true c h = (refl, refl, refl)
  flagged-stop_if false c h = (h, refl, refl)

  round-flagged :
      (max_retry : ℕ) (reason : DisconnectReason) (r : Round) (c : Client codec net)
      → (stop_if codec net r.stop_before c).reconnect.stop_retry_flag ≡ true
      → round codec net max_retry reason r c ≡ break (stop_if codec net r.stop_before c)
  unfolding round
  round-flagged max_retry reason r c flag =
      let seen = stop_if codec net r.stop_before c in
      if_intro (λ n. n ≡ break seen)
        (seen.reconnect.stop_retry_flag || leb max_retry seen.reconnect.fail_count) _ _
        (λ over. refl) (λ more. absurd (ground arith))

  -- A loop that stands before the reading of the flag ends there.
  loop-flagged :
      (fuel : ℕ) (rounds : ℕ → Round) (max_retry : ℕ) (reason : DisconnectReason)
      (c : Client codec net)
      → c.reconnect.stop_retry_flag ≡ true
      → (out : Client codec net) × (reconnect_loop codec net (suc fuel) rounds max_retry reason c
          ≡ some (false, out))
        × (out.is_connected ≡ c.is_connected)
        × (out.socket ≡ c.socket)
        × (attempts out.trace ≡ attempts c.trace)
  unfolding reconnect_loop continue_with fire_on_disconnect attempts is_attempt
  loop-flagged fuel rounds max_retry reason c flag =
      let stop = (rounds 0).stop_before in
      let loop : Client codec net → Option (Bool × Client codec net) =
        λ k. reconnect_loop codec net fuel (λ n. rounds (suc n)) max_retry reason k in
      let (flag', same_notices, same_socket) = flagged-stop_if stop c flag in
      (
        fire_on_disconnect codec net true reason (stop_if codec net stop c),
        ap (continue_with codec net loop reason)
            (round-flagged max_retry reason (rounds 0) c flag'),
        stop_if-is_connected codec net stop c,
        same_socket,
        ap attempts (stop_if-trace codec net stop c),
      )

  -- disconnect answers True with any answer of `close`, and False if it raises.
  disconnected-answer :
      (outcome : Result Exn Bool) (c : Client codec net)
      → ((disconnected codec net outcome c).0 ≡ is_ok outcome)
        × ((disconnected codec net outcome c).1.running ≡ c.running)
        × ((disconnected codec net outcome c).1.is_connected ≡ c.is_connected)
        × ((disconnected codec net outcome c).1.reconnect.stop_retry_flag
            ≡ c.reconnect.stop_retry_flag)
        × ((disconnected codec net outcome c).1.reconnect.stop_event ≡ c.reconnect.stop_event)
  unfolding disconnected close_socket fire_on_disconnect
  disconnected-answer (ok answer) c = (refl, refl, refl, refl, refl)
  disconnected-answer (err e) c = (refl, refl, refl, refl, refl)

  -- disconnect answers True whatever `close` of the socket answers, and False if that raises. Either
  -- way the client is then neither running nor connected, and the loss of its socket changes nothing.
  -- A retry loop that finds the client in this state ends with False in both places where it looks
  -- for a stop. Where it has not read the stop flag yet, it makes no attempt, keeps the socket, and
  -- leaves the client not connected, even if another thread calls stop_retry before that reading.
  -- Where it waits for its next attempt, it does nothing but fire on_disconnect. A loop that is
  -- inside `connect` is not covered.
  pub disconnect-final :
      (outcome : Result Exn Bool) (c : Client codec net) (fuel : ℕ) (rounds : ℕ → Round)
      (max_retry : ℕ) (reason : DisconnectReason)
      (loop : Client codec net → Option (Bool × Client codec net))
      → let (answer, d) = disconnect codec net outcome c in
        (answer ≡ is_ok outcome)
        × (d.running ≡ false)
        × (d.is_connected ≡ false)
        × (on_socket_disconnect codec net fuel rounds d ≡ some (false, d))
        × (continue_with codec net loop reason (after_wait codec net d)
            ≡ some (false, fire_on_disconnect codec net true reason d))
        × (out : Client codec net) × (reconnect_loop codec net (suc fuel) rounds max_retry reason d
            ≡ some (false, out))
        × (out.is_connected ≡ false)
        × (out.socket ≡ d.socket)
        × (attempts out.trace ≡ attempts d.trace)
  unfolding disconnect on_socket_disconnect stop_retry continue_with
  disconnect-final outcome c fuel rounds max_retry reason loop =
      let (answer, d) = disconnect codec net outcome c in
      let (same, stopped, down, flag, set) = disconnected-answer outcome _ in
      let (out, e, still, socket, tried) = loop-flagged fuel rounds max_retry reason d flag in
      let Loses : Bool → Type 0 = λ b.
        (if not b || d.connecting
          then some (false, d)
          else try_reconnect codec net fuel rounds server_closed (set_connected codec net false d))
        ≡ some (false, d) in
      let Ends : Bool → Type 0 = λ b.
        continue_with codec net loop reason (if b then break d else again d)
        ≡ some (false, fire_on_disconnect codec net true reason d) in
      (
        same,
        stopped,
        down,
        subst Loses (sym stopped) refl,
        subst Ends (sym set) refl,
        out,
        e,
        still ∙ down,
        socket,
        tried,
      )
