-- ===== src/Client/Reconnect/Calm.antt =====
-- Rounds of the retry loop in which no other thread stops it
-- (src/veltix/client/reconnect_handler.py).
use veltix.Prelude.{
  ℕ, suc, ◌+◌, ◌<◌, ◌≡◌, refl, sym, ap, ◌∙◌, subst, inl, inr, Bool, true, false, not, ◌||◌, Option,
  arith, leb, if◌then◌else◌, if_intro, Result, is_ok, Result-cases, eq_nat, eq_string, eq_list,
}
use veltix.Exceptions.{Exn}
use veltix.Handler.Handshake.{Json}
use veltix.Internal.Events.{ClientEvent, ReconnectEvent, client_event, reconnect_event}
use veltix.Network.Request.{Codec}
use veltix.Network.Sender.{Transport}
use veltix.Client.Connection.{
  Connection, established, not_established, unreachable, crashed, id_window,
}
use veltix.Client.State.{
  DisconnectReason, Client, emits, close_socket, init_components, set_running, set_connected,
  init_connect, fire_on_disconnect, set_window, with_window, try_connect,
}
use veltix.Client.Reconnect.{
  Round, reset, Next, done, break, again, after_connect, after_failure, branch, counted, round,
}
use veltix.Client.Reconnect.Rounds.{is_attempt, attempts}

-- A round in which no other thread stops the loop, whatever `close` answers of the sockets
abbrev pub calm : Bool → Bool → Connection → Round
calm old new o = record {
  connection = o;
  closes_old = old;
  closes_new = new;
  stop_before = false;
  stop_connecting = false;
  stop_connected = false;
  stop_waiting = false;
}

unfoldable pub is_failure : Connection → Bool
is_failure (established meta) = not (is_ok (id_window meta))
is_failure _ = true

-- Rounds of which the first ones fail, whatever the reason, and the next one connects: `n` is the
-- number of those that fail, and `meta` the metadata that the handshake brings.
pub data ConnectsAfter (meta : Option Json) : ℕ → (ℕ → Round) → Type 0 where
  at_once :
      {rounds : ℕ → Round} (old new : Bool)
      → is_failure (established meta) ≡ false
      → rounds 0 ≡ calm old new (established meta)
      → ConnectsAfter meta 0 rounds
  behind :
      {n : ℕ} {rounds : ℕ → Round} (old new : Bool) (o : Connection)
      → is_failure o ≡ true
      → rounds 0 ≡ calm old new o
      → ConnectsAfter meta n (λ k. rounds (suc k))
      → ConnectsAfter meta (suc n) rounds

module _ (codec : Codec) (net : Transport) where
  -- A client whose loop nothing has stopped
  abbrev pub Unstopped : Client codec net → Type 0
  Unstopped c = (c.reconnect.stop_retry_flag ≡ false) × (c.reconnect.stop_event ≡ false)

  -- What a failed round comes to, as far as the next one goes
  abbrev pub GoesOn : Client codec net → Next codec net → Type 0
  GoesOn c n =
      (k : Client codec net) × (n ≡ again k)
      × Unstopped k
      × (k.reconnect.fail_count ≡ c.reconnect.fail_count + 1)
      × (attempts k.trace ≡ attempts c.trace + 1)

  after_failure-GoesOn :
      (max_retry : ℕ) (reason : DisconnectReason) (old new : Bool) (o : Connection)
      (c t : Client codec net)
      → c.reconnect.fail_count + 1 < max_retry
      → Unstopped t
      → t.reconnect.fail_count ≡ c.reconnect.fail_count + 1
      → attempts t.trace ≡ attempts c.trace + 1
      → GoesOn c
          (after_failure codec net (c.reconnect.fail_count + 1) max_retry reason (calm old new o) t)
  unfolding after_failure fire_on_disconnect attempts is_attempt
  after_failure-GoesOn max_retry reason old new o c t left (going, unset) counted_ tried =
      let told =
        fire_on_disconnect codec net false reason
          (emits codec net (reconnect_event ReconnectEvent.fail) t) in
      if_intro (GoesOn c) (leb max_retry (c.reconnect.fail_count + 1)) _ _
        (λ over. absurd (ground arith))
        (λ more.
          if_intro (GoesOn c) told.reconnect.stop_event _ _ (λ set. absurd (cc (set, unset)))
            (λ _. (told, refl, (going, unset), counted_, tried)))

  -- The client at the connection attempt of a calm round
  abbrev trying : Bool → Client codec net → Client codec net
  trying old c = reset codec net old (counted codec net c)

  round-calm :
      (max_retry : ℕ) (reason : DisconnectReason) (old new : Bool) (o : Connection)
      (c : Client codec net)
      → c.reconnect.fail_count < max_retry
      → c.reconnect.stop_retry_flag ≡ false
      → round codec net max_retry reason (calm old new o) c
        ≡ branch codec net
            (c.reconnect.fail_count + 1)
            max_retry
            reason
            (calm old new o)
            (try_connect codec net o (trying old c))
  unfolding round
  round-calm max_retry reason old new o c left going =
      let more : (c.reconnect.stop_retry_flag || leb max_retry c.reconnect.fail_count) ≡ false =
        ground arith in
      ap
        (λ (b : Bool).
          if b
          then break c
          else branch codec net (c.reconnect.fail_count + 1) max_retry reason (calm old new o)
              (try_connect codec net o (trying old c)))
        more

  branch-failed :
      (max_retry : ℕ) (reason : DisconnectReason) (old new : Bool) (o : Connection)
      (c : Client codec net)
      → is_failure o ≡ true
      → c.reconnect.fail_count + 1 < max_retry
      → Unstopped c
      → GoesOn c (
          branch codec net
            (c.reconnect.fail_count + 1)
            max_retry
            reason
            (calm old new o)
            (try_connect codec net o (trying old c)))
  unfolding branch try_connect with_window reset counted init_components close_socket set_running
      set_connected attempts is_attempt is_failure
  branch-failed max_retry reason old new (established meta) c fails left u =
      let start : Client codec net =
        record (emits codec net (client_event ClientEvent.connecting) (trying old c)) {
          is_connected = true;
          connecting = false;
          shutdown_event = false;
        } in
      let Goes : Result Exn ℕ → Type 0 = λ w. GoesOn c (
        branch codec net (c.reconnect.fail_count + 1) max_retry reason
          (calm old new (established meta)) (with_window codec net w start)) in
      elim (Result-cases (id_window meta)) [
        | inl (w, e) ↦ absurd (cc (sym fails ∙ ap (λ r. not (is_ok r)) e))
        | inr (x, e) ↦ subst Goes (sym e) (
            after_failure-GoesOn max_retry reason old new (established meta) c _ left u refl
              (omega arith))
      ]
  branch-failed max_retry reason old new not_established c fails left u =
      after_failure-GoesOn max_retry reason old new not_established c _ left u refl (omega arith)
  branch-failed max_retry reason old new unreachable c fails left u =
      after_failure-GoesOn max_retry reason old new unreachable c _ left u refl (omega arith)
  branch-failed max_retry reason old new crashed c fails left u =
      after_failure-GoesOn max_retry reason old new crashed c _ left u refl (omega arith)

  pub round-failed :
      (max_retry : ℕ) (reason : DisconnectReason) (old new : Bool) (o : Connection)
      (c : Client codec net)
      → is_failure o ≡ true
      → c.reconnect.fail_count + 1 < max_retry
      → Unstopped c
      → GoesOn c (round codec net max_retry reason (calm old new o) c)
  round-failed max_retry reason old new o c fails left u =
      subst (GoesOn c) (sym (round-calm max_retry reason old new o c (omega arith) u.0))
        (branch-failed max_retry reason old new o c fails left u)

  -- What the round that connects comes to, and with it the loop
  abbrev pub Connects : ℕ → ℕ → Client codec net → Type 0
  Connects before n k =
      (k.is_connected ≡ true)
      × (k.reconnect.fail_count ≡ 0)
      × (k.reconnect.stop_retry_flag ≡ false)
      × (attempts k.trace ≡ before + n + 1)

  pub round-Connects :
      (max_retry : ℕ) (reason : DisconnectReason) (old new : Bool) (meta : Option Json)
      (c : Client codec net)
      → is_failure (established meta) ≡ false
      → c.reconnect.fail_count < max_retry
      → Unstopped c
      → (k : Client codec net) × (round codec net max_retry reason
            (calm old new (established meta))
            c
          ≡ done true k)
        × Connects (attempts c.trace) 0 k
  unfolding branch try_connect with_window after_connect init_connect set_window reset counted
      init_components close_socket set_running set_connected attempts is_attempt is_failure
  round-Connects max_retry reason old new meta c connects left u =
      let start : Client codec net =
        record (emits codec net (client_event ClientEvent.connecting) (trying old c)) {
          is_connected = true;
          connecting = false;
          shutdown_event = false;
        } in
      let calmly = round-calm max_retry reason old new (established meta) c left u.0 in
      elim (Result-cases (id_window meta)) [
        | inl (w, e) ↦ (
          _,
          calmly
              ∙ ap
                  (λ r.
                    branch codec net (c.reconnect.fail_count + 1) max_retry reason
                      (calm old new (established meta)) (with_window codec net r start))
                  e,
          (refl, refl, refl, omega arith),
        )
        | inr (x, e) ↦ absurd (cc (sym connects ∙ ap (λ r. not (is_ok r)) e))
      ]
