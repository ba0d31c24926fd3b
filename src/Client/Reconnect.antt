-- ===== src/Client/Reconnect.antt =====
-- The retry loop (src/veltix/client/reconnect_handler.py).
pub mod Reset
pub mod Rounds
pub mod Loop
pub mod Disconnected
pub mod Calm
pub mod Liveness
use veltix.Prelude.{
  ℕ, zero, suc, ◌+◌, Bool, true, false, not, ◌||◌, Option, none, some, leb, nat_eq, if◌then◌else◌,
  eq_nat, eq_string, eq_list,
}
use veltix.Internal.Events.{ReconnectEvent, reconnect_event}
use veltix.Network.Request.{Codec}
use veltix.Network.Sender.{Transport}
use veltix.Handler.RequestHandler.{request_handler, copy_routes}
use veltix.Client.Connection.{Connection}
use veltix.Client.State.{
  DisconnectReason, server_closed, error, Outcome, succeeded, failed, raised, Client, emits,
  close_socket, init_components, set_running, set_connected, stop_retry, fire_on_disconnect,
  try_connect,
}
use veltix.Handler.Routes.{register_routes, set_if_given}

-- What a round of the loop meets: how the connection goes, what `close` answers of the old socket at
-- the reset and of the new one if the attempt is cancelled, and whether another thread, or a
-- callback, calls stop_retry before the flag is read, while `socket.connect` runs, after
-- `init_connect`, and before the wait for the next attempt is over.
pub record Round : Type 0 where
  pub connection : Connection
  pub closes_old : Bool
  pub closes_new : Bool
  pub stop_before : Bool
  pub stop_connecting : Bool
  pub stop_connected : Bool
  pub stop_waiting : Bool

module _ (codec : Codec) (net : Transport) where
  abbrev pub stop_if : Bool → Client codec net → Client codec net
  stop_if stop c = if stop then stop_retry codec net c else c

  -- ReconnectHandler.reset, with what `close` of the old socket answers
  unfoldable pub reset : Bool → Client codec net → Client codec net
  reset answer c =
      let old_routes = copy_routes codec net c.request_handler in
      let new =
        init_components codec net answer
          (set_running codec net true (set_connected codec net false c)) in
      let on_recv = new.request_handler.on_recv in
      record new {
        request_handler =
            register_routes codec net old_routes
              (set_if_given codec net on_recv new.request_handler);
      }

  -- A round from the reading of the flag on: whether the loop ends, and its answer.
  pub data Next : Type 0 where
    done : Bool → Client codec net → Next
    break : Client codec net → Next
    again : Client codec net → Next

  -- The branch where `_context_connect` answered True, with what `close` of the new socket answers
  unfoldable pub after_connect : Bool → Client codec net → Next
  after_connect answer c =
      if c.reconnect.stop_retry_flag
      then (done false (
          set_connected codec net false (
            close_socket codec net answer
              (emits codec net (reconnect_event ReconnectEvent.cancelled) c))))
      else done true (emits codec net (reconnect_event ReconnectEvent.success) c)

  -- `_stop_event.wait` answers whether the event is set.
  abbrev pub after_wait : Client codec net → Next
  after_wait waited = if waited.reconnect.stop_event then break waited else again waited

  -- The branch where it answered False
  unfoldable pub after_failure : ℕ → ℕ → DisconnectReason → Round → Client codec net → Next
  after_failure attempt max_retry reason r c =
      let told =
        fire_on_disconnect codec net false reason
          (emits codec net (reconnect_event ReconnectEvent.fail) c) in
      if leb max_retry attempt then break told else after_wait (stop_if r.stop_waiting told)

  unfoldable pub branch : ℕ → ℕ → DisconnectReason → Round → Outcome × Client codec net → Next
  branch attempt max_retry reason r (succeeded, c) =
      after_connect r.closes_new (stop_if r.stop_connected c)
  branch attempt max_retry reason r (failed, c) = after_failure attempt max_retry reason r c
  branch attempt max_retry reason r (raised, c) = after_failure attempt max_retry reason r c

  -- `_fail_count += 1`, and the ATTEMPT event
  unfoldable pub counted : Client codec net → Client codec net
  counted c =
      emits codec net (reconnect_event ReconnectEvent.attempt)
        (record c { reconnect = record c.reconnect { fail_count = c.reconnect.fail_count + 1 } })

  -- One round of the loop
  unfoldable pub round : ℕ → DisconnectReason → Round → Client codec net → Next
  round max_retry reason r c =
      let seen = stop_if r.stop_before c in
      if seen.reconnect.stop_retry_flag || leb max_retry seen.reconnect.fail_count
      then break seen
      else branch (seen.reconnect.fail_count + 1) max_retry reason r (
          try_connect codec net r.connection
            (stop_if r.stop_connecting (reset r.closes_old (counted seen))))

  unfoldable pub continue_with :
      (Client codec net → Option (Bool × Client codec net))
      → DisconnectReason
      → Next
      → Option (Bool × Client codec net)
  continue_with loop reason (done b c) = some (b, c)
  continue_with loop reason (break c) = some (false, fire_on_disconnect codec net true reason c)
  continue_with loop reason (again c) = loop c

  -- ReconnectHandler.reconnect_loop, with the rounds that it meets, on fuel
  unfoldable pub reconnect_loop :
      ℕ → (ℕ → Round) → ℕ → DisconnectReason → Client codec net → Option (Bool × Client codec net)
  reconnect_loop zero rounds max_retry reason c = none
  reconnect_loop (suc fuel) rounds max_retry reason c =
      continue_with (λ k. reconnect_loop fuel (λ n. rounds (suc n)) max_retry reason k) reason
        (round max_retry reason (rounds 0) c)

  -- `finally: self._reconnect_lock.release()`
  unfoldable pub released : Option (Bool × Client codec net) → Option (Bool × Client codec net)
  released none = none
  released (some (b, c)) = some (b, record c { reconnect = record c.reconnect { locked = false } })

  -- ReconnectHandler.try_reconnect
  unfoldable pub try_reconnect :
      ℕ → (ℕ → Round) → DisconnectReason → Client codec net → Option (Bool × Client codec net)
  try_reconnect fuel rounds reason c =
      let told = fire_on_disconnect codec net false reason c in
      if nat_eq c.retry 0
      then some (false, fire_on_disconnect codec net true reason c)
      else if c.reconnect.locked
      then some (false, told)
      else released (
          reconnect_loop fuel rounds c.retry reason
            (record told { reconnect = record told.reconnect { locked = true } }))

  -- ReconnectHandler._retry_in_thread: the reason is the default SERVER_CLOSED. The
  -- Boolean is what `close` of the old socket answers at its own reset.
  unfoldable pub retry_in_thread :
      ℕ → (ℕ → Round) → Bool → Option ℕ → Client codec net → Option (Bool × Client codec net)
  retry_in_thread fuel rounds answer max_ c =
      if c.reconnect.locked
      then some (false, c)
      else released (
          reconnect_loop fuel rounds (elim max_ [ some m ↦ m | none ↦ c.retry ]) server_closed
            (reset answer (record c {
              reconnect = record {
                fail_count = 0;
                stop_retry_flag = false;
                stop_event = false;
                locked = true;
              };
            })))

  unfoldable pub reconnect_if_failed :
      ℕ → (ℕ → Round) → Outcome × Client codec net → Option (Bool × Client codec net)
  reconnect_if_failed fuel rounds (succeeded, c) = some (true, c)
  reconnect_if_failed fuel rounds (failed, c) = try_reconnect fuel rounds error c
  reconnect_if_failed fuel rounds (raised, c) = some (false, c)

  -- Client.connect, called by the user
  unfoldable pub connect :
      ℕ → (ℕ → Round) → Connection → Client codec net → Option (Bool × Client codec net)
  connect fuel rounds connection c =
      reconnect_if_failed fuel rounds (try_connect codec net connection c)

  -- Client._on_socket_disconnect
  unfoldable pub on_socket_disconnect :
      ℕ → (ℕ → Round) → Client codec net → Option (Bool × Client codec net)
  on_socket_disconnect fuel rounds c =
      if not c.running || c.connecting
      then some (false, c)
      else try_reconnect fuel rounds server_closed (set_connected codec net false c)
