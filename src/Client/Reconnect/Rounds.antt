-- ===== src/Client/Reconnect/Rounds.antt =====
-- What a round of the retry loop does (src/veltix/client/reconnect_handler.py).
use veltix.Prelude.{
  ℕ, suc, ◌+◌, ◌-◌, ◌≤◌, ◌<◌, ◌≡◌, refl, sym, ap, ◌∙◌, subst, ◌⊎◌, inl, inr, Bool, true, false, not,
  ◌||◌, List, [], ◌∷◌, arith, leb, if◌then◌else◌, if_intro, Result, ok, is_ok, Result-cases, eq_nat,
  eq_string, eq_list,
}
use veltix.Internal.Events.{
  ClientEvent, ReconnectEvent, Event, client_event, reconnect_event, Trace,
}
use veltix.Network.Request.{Codec}
use veltix.Network.Sender.{Transport}
use veltix.Client.Connection.{
  Connection, established, not_established, unreachable, crashed, id_window, is_malformed,
}
use veltix.Client.State.{
  DisconnectReason, DisconnectState, Client, emits, close_socket, init_components, set_running,
  set_connected, init_connect, stop_retry, fire_on_disconnect, set_window, with_window, try_connect,
}
use veltix.Client.Reconnect.{
  Round, stop_if, reset, Next, done, break, again, after_connect, after_failure, branch, counted,
  round,
}
use veltix.Exceptions.{Exn}

unfoldable pub is_attempt : Event → Bool
is_attempt (reconnect_event ReconnectEvent.attempt) = true
is_attempt _ = false

-- The number of attempts that a trace reports
unfoldable pub attempts : Trace → ℕ
attempts [] = 0
attempts (e ∷ t) = if is_attempt e then suc (attempts t) else attempts t

module _ (codec : Codec) (net : Transport) where
  -- The last thing that on_disconnect heard is that the client has given up.
  abbrev pub GivenUp : Client codec net → Type 0
  GivenUp c =
      (d : DisconnectState) × (ds : List DisconnectState) × (c.notified ≡ d ∷ ds)
      × (d.permanent ≡ true)

  -- The last event says that the reconnection was cancelled.
  abbrev pub Cancelled : Client codec net → Type 0
  Cancelled c = (t : Trace) × (c.trace ≡ reconnect_event ReconnectEvent.cancelled ∷ t)

  -- Not connected, unless `B` explains why the client still counts as connected
  abbrev pub Down : Type 0 → Client codec net → Type 0
  Down B c = (c.is_connected ≡ false) ⊎ B

  -- The state in which the loop ends, after at most `bound` attempts in all
  abbrev pub Ended : Type 0 → ℕ → Bool × Client codec net → Type 0
  Ended B bound (true, c) =
      (attempts c.trace ≤ bound)
      × (c.is_connected ≡ true)
      × (c.reconnect.fail_count ≡ 0)
      × (c.reconnect.stop_retry_flag ≡ false)
  Ended B bound (false, c) = (attempts c.trace ≤ bound) × Down B c × (GivenUp c ⊎ Cancelled c)

  -- The state after a round, of a loop that may make `left` more attempts
  abbrev pub RoundEnded : Type 0 → ℕ → ℕ → ℕ → Next codec net → Type 0
  RoundEnded B bound left max_retry (done b c) = Ended B bound (b, c)
  RoundEnded B bound left max_retry (break c) = (attempts c.trace ≤ bound) × Down B c
  RoundEnded B bound left max_retry (again c) =
      (attempts c.trace + (max_retry - c.reconnect.fail_count) ≤ bound)
      × (max_retry - c.reconnect.fail_count < left)
      × Down B c

  -- What stop_retry leaves alone
  pub stop_if-trace : (b : Bool) (c : Client codec net) → (stop_if codec net b c).trace ≡ c.trace
  unfolding stop_retry
  stop_if-trace true c = refl
  stop_if-trace false c = refl

  pub stop_if-is_connected :
      (b : Bool) (c : Client codec net) → (stop_if codec net b c).is_connected ≡ c.is_connected
  unfolding stop_retry
  stop_if-is_connected true c = refl
  stop_if-is_connected false c = refl

  pub stop_if-fail_count :
      (b : Bool) (c : Client codec net)
      → (stop_if codec net b c).reconnect.fail_count ≡ c.reconnect.fail_count
  unfolding stop_retry
  stop_if-fail_count true c = refl
  stop_if-fail_count false c = refl

  stop_if-Down :
      (B : Type 0) (b : Bool) (c : Client codec net) → Down B c → Down B (stop_if codec net b c)
  stop_if-Down B b c (inl down) = inl (stop_if-is_connected b c ∙ down)
  stop_if-Down B b c (inr broken) = inr broken

  after_connect-RoundEnded :
      (B : Type 0) (answer : Bool) (bound left max_retry : ℕ) (c : Client codec net)
      → attempts c.trace ≤ bound
      → c.is_connected ≡ true
      → c.reconnect.fail_count ≡ 0
      → RoundEnded B bound left max_retry (after_connect codec net answer c)
  unfolding after_connect close_socket set_connected attempts is_attempt
  after_connect-RoundEnded B answer bound left max_retry c n up zeroed =
      if_intro (RoundEnded B bound left max_retry) c.reconnect.stop_retry_flag _ _
        (λ stopped. (n, inl refl, inr (c.trace, refl))) (λ going. (n, up, zeroed, going))

  after_failure-RoundEnded :
      (B : Type 0) (bound left max_retry attempt : ℕ) (reason : DisconnectReason) (r : Round)
      (c : Client codec net)
      → attempts c.trace + (max_retry - attempt) ≤ bound
      → max_retry - attempt < left
      → Down B c
      → c.reconnect.fail_count ≡ attempt
      → RoundEnded B bound left max_retry (after_failure codec net attempt max_retry reason r c)
  unfolding after_failure fire_on_disconnect attempts is_attempt
  after_failure-RoundEnded B bound left max_retry attempt reason r c n m down at =
      let told =
        fire_on_disconnect codec net false reason
          (emits codec net (reconnect_event ReconnectEvent.fail) c) in
      let waited = stop_if codec net r.stop_waiting told in
      let same_trace : attempts waited.trace ≡ attempts c.trace =
        ap attempts (stop_if-trace r.stop_waiting told) in
      let same_count : waited.reconnect.fail_count ≡ attempt =
        stop_if-fail_count r.stop_waiting told ∙ at in
      let down' : Down B waited = stop_if-Down B r.stop_waiting told down in
      if_intro (RoundEnded B bound left max_retry) (leb max_retry attempt) _ _
        (λ last. (omega arith, down))
        (λ more.
          if_intro (RoundEnded B bound left max_retry) waited.reconnect.stop_event _ _
            (λ stopped. (omega arith, down')) (λ going. (omega arith, omega arith, down')))

  -- A round's connection attempt, after which the loop may make fewer than `left` more
  branch-RoundEnded :
      (B : Type 0) (bound left max_retry attempt : ℕ) (reason : DisconnectReason) (r : Round)
      (o : Connection) (c : Client codec net)
      → (is_malformed o ≡ true → B)
      → attempts c.trace + (max_retry - attempt) ≤ bound
      → max_retry - attempt < left
      → Down B c
      → c.reconnect.fail_count ≡ attempt
      → RoundEnded B bound left max_retry
          (branch codec net attempt max_retry reason r (try_connect codec net o c))
  unfolding branch try_connect with_window is_malformed init_connect set_window attempts is_attempt
  branch-RoundEnded B bound left max_retry attempt reason r (established meta) c broken n m down
        at =
      let marked : Client codec net =
        record (emits codec net (client_event ClientEvent.connecting) c) {
          is_connected = true;
          connecting = false;
          shutdown_event = false;
        } in
      let Ends : Result Exn ℕ → Type 0 = λ w.
        RoundEnded B bound left max_retry
          (branch codec net attempt max_retry reason r (with_window codec net w marked)) in
      elim (Result-cases (id_window meta)) [
        | inl (w, e) ↦
            let up : Client codec net = (with_window codec net (ok w) marked).1 in
            subst Ends (sym e) (
              after_connect-RoundEnded B r.closes_new bound left max_retry
                (stop_if codec net r.stop_connected up)
                (let same : attempts (stop_if codec net r.stop_connected up).trace
                      ≡ attempts c.trace =
                    ap attempts (stop_if-trace r.stop_connected up) in
                  omega arith)
                (stop_if-is_connected r.stop_connected up) (stop_if-fail_count r.stop_connected up))
        | inr (x, e) ↦ subst Ends (sym e) (
            after_failure-RoundEnded B bound left max_retry attempt reason r _ n m
              (inr (broken (ap (λ w. not (is_ok w)) e))) at)
      ]
  branch-RoundEnded B bound left max_retry attempt reason r not_established c broken n m down at =
      after_failure-RoundEnded B bound left max_retry attempt reason r _ n m down at
  branch-RoundEnded B bound left max_retry attempt reason r unreachable c broken n m down at =
      after_failure-RoundEnded B bound left max_retry attempt reason r _ n m down at
  branch-RoundEnded B bound left max_retry attempt reason r crashed c broken n m down at =
      after_failure-RoundEnded B bound left max_retry attempt reason r _ n m down at

  -- What a reset leaves alone
  reset-trace : (answer : Bool) (c : Client codec net) → (reset codec net answer c).trace ≡ c.trace
  unfolding reset init_components close_socket set_running set_connected
  reset-trace answer c = refl

  reset-is_connected :
      (answer : Bool) (c : Client codec net) → (reset codec net answer c).is_connected ≡ false
  unfolding reset init_components close_socket set_running set_connected
  reset-is_connected answer c = refl

  reset-fail_count :
      (answer : Bool) (c : Client codec net)
      → (reset codec net answer c).reconnect.fail_count ≡ c.reconnect.fail_count
  unfolding reset init_components close_socket set_running set_connected
  reset-fail_count answer c = refl

  pub round-RoundEnded :
      (B : Type 0) (max_retry : ℕ) (reason : DisconnectReason) (r : Round) (c : Client codec net)
      → (0 < max_retry - c.reconnect.fail_count → is_malformed r.connection ≡ true → B)
      → Down B c
      → RoundEnded B
          (attempts c.trace + (max_retry - c.reconnect.fail_count))
          (max_retry - c.reconnect.fail_count)
          max_retry
          (round codec net max_retry reason r c)
  unfolding round counted attempts is_attempt
  round-RoundEnded B max_retry reason r c broken down =
      let left = max_retry - c.reconnect.fail_count in
      let bound = attempts c.trace + left in
      let seen = stop_if codec net r.stop_before c in
      let start = reset codec net r.closes_old (counted codec net seen) in
      let tried = stop_if codec net r.stop_connecting start in
      let same_count : seen.reconnect.fail_count ≡ c.reconnect.fail_count =
        stop_if-fail_count r.stop_before c in
      let same_trace : attempts seen.trace ≡ attempts c.trace =
        ap attempts (stop_if-trace r.stop_before c) in
      let down' : Down B seen = stop_if-Down B r.stop_before c down in
      let counted_trace : attempts tried.trace ≡ suc (attempts seen.trace) =
        ap attempts
          (stop_if-trace r.stop_connecting _ ∙ reset-trace r.closes_old (counted codec net seen)) in
      let counted_count : tried.reconnect.fail_count ≡ seen.reconnect.fail_count + 1 =
        stop_if-fail_count r.stop_connecting _
        ∙ reset-fail_count r.closes_old (counted codec net seen) in
      if_intro (RoundEnded B bound left max_retry)
        (seen.reconnect.stop_retry_flag || leb max_retry seen.reconnect.fail_count) _ _
        (λ over. (omega arith, down'))
        (λ more.
          let below : seen.reconnect.fail_count < max_retry = ground arith in
          branch-RoundEnded B bound left max_retry (seen.reconnect.fail_count + 1) reason r
            r.connection tried (broken (omega arith)) (omega arith) (omega arith)
            (inl (
              stop_if-is_connected r.stop_connecting start
              ∙ reset-is_connected r.closes_old (counted codec net seen)))
            counted_count)
