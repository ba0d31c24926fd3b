-- ===== src/Client/Reconnect/Liveness.antt =====
-- When the retry loop reconnects (src/veltix/client/reconnect_handler.py).
use veltix.Prelude.{
  ℕ, zero, suc, ◌+◌, ◌<◌, ◌≡◌, refl, ap, ◌∙◌, Bool, true, false, Option, some, arith, nat_eq,
  if◌then◌else◌, eq_nat, eq_string, eq_list,
}
use veltix.Handler.Handshake.{Json}
use veltix.Network.Request.{Codec}
use veltix.Network.Sender.{Transport}
use veltix.Client.State.{DisconnectReason, Client, fire_on_disconnect}
use veltix.Client.Reconnect.{Round, round, continue_with, reconnect_loop, released, try_reconnect}
use veltix.Client.Reconnect.Rounds.{is_attempt, attempts}
use veltix.Client.Reconnect.Calm.{
  ConnectsAfter, at_once, behind, Unstopped, round-failed, Connects, round-Connects,
}

module _ (codec : Codec) (net : Transport) where
  loop-Connects :
      (n fuel : ℕ) (rounds : ℕ → Round) (meta : Option Json) (max_retry : ℕ)
      (reason : DisconnectReason) (c : Client codec net)
      → n < fuel
      → ConnectsAfter meta n rounds
      → c.reconnect.fail_count + n < max_retry
      → Unstopped codec net c
      → (k : Client codec net) × (reconnect_loop codec net fuel rounds max_retry reason c
          ≡ some (true, k))
        × Connects codec net (attempts c.trace) n k
  unfolding reconnect_loop continue_with
  loop-Connects n zero rounds meta max_retry reason c enough after left u = absurd (omega arith)
  loop-Connects n (suc fuel) rounds meta max_retry reason c enough (at_once old new connects now)
        left u =
      let loop : Client codec net → Option (Bool × Client codec net) =
        λ k. reconnect_loop codec net fuel (λ i. rounds (suc i)) max_retry reason k in
      let (k, e, up) =
        round-Connects codec net max_retry reason old new meta c connects (omega arith) u in
      (
        k,
        ap (λ r. continue_with codec net loop reason (round codec net max_retry reason r c)) now
            ∙ ap (continue_with codec net loop reason) e,
        up,
      )
  loop-Connects n (suc fuel) rounds meta max_retry reason c enough
        (behind {n = m} old new o fails now later) left u =
      let loop : Client codec net → Option (Bool × Client codec net) =
        λ k. reconnect_loop codec net fuel (λ i. rounds (suc i)) max_retry reason k in
      let (t, e, u', one_more, tried) =
        round-failed codec net max_retry reason old new o c fails (omega arith) u in
      let (k, f, (up, zeroed, going, all_tried)) =
        loop-Connects m fuel (λ i. rounds (suc i)) meta max_retry reason t (omega arith) later
          (omega arith) u' in
      (
        k,
        ap (λ r. continue_with codec net loop reason (round codec net max_retry reason r c)) now
            ∙ ap (continue_with codec net loop reason) e
            ∙ f,
        (up, zeroed, going, omega arith),
      )

  -- Reconnection succeeds as soon as the network lets it. A client that no thread stops, with the
  -- lock free: if the next `n` connection attempts fail, in any way, and the one behind them
  -- connects, while it has more than `n` retries left, try_reconnect answers True after exactly
  -- n + 1 attempts, with the client connected, the count of failures at 0 and the lock free again.
  pub try_reconnect-succeeds :
      (n fuel : ℕ) (rounds : ℕ → Round) (meta : Option Json) (reason : DisconnectReason)
      (c : Client codec net)
      → n < fuel
      → ConnectsAfter meta n rounds
      → c.reconnect.fail_count + n < c.retry
      → Unstopped codec net c
      → c.reconnect.locked ≡ false
      → (k : Client codec net) × (try_reconnect codec net fuel rounds reason c ≡ some (true, k))
        × (k.is_connected ≡ true)
        × (k.reconnect.fail_count ≡ 0)
        × (k.reconnect.locked ≡ false)
        × (attempts k.trace ≡ attempts c.trace + n + 1)
  unfolding try_reconnect released fire_on_disconnect attempts is_attempt
  try_reconnect-succeeds n fuel rounds meta reason c enough after left u free =
      let told = fire_on_disconnect codec net false reason c in
      let locked : Client codec net = record told {
        reconnect = record told.reconnect { locked = true };
      } in
      let (k, e, (up, zeroed, going, tried)) =
        loop-Connects n fuel rounds meta c.retry reason locked enough after left u in
      let some_retry : nat_eq c.retry 0 ≡ false = ground arith in
      let loop = released codec net (reconnect_loop codec net fuel rounds c.retry reason locked) in
      (
        record k { reconnect = record k.reconnect { locked = false } },
        ap
              (λ (b : Bool).
                if b
                then some (false, fire_on_disconnect codec net true reason c)
                else if c.reconnect.locked
                then some (false, told)
                else loop)
              some_retry
            ∙ ap (λ (b : Bool). if b then some (false, told) else loop) free
            ∙ ap (released codec net) e,
        up,
        zeroed,
        refl,
        tried,
      )
