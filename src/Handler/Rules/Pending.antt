-- ===== src/Handler/Rules/Pending.antt =====
-- What one message does to the pending requests.
use native.Mathlib.Decide.{ℕ_discrete}
use veltix.Exceptions.{Exn}
use veltix.Prelude.{
  ℕ, ◌≡◌, refl, sym, ap, ◌∙◌, subst, ◌≢◌, ◌⊎◌, inl, inr, Bool, true, false, not, ◌&&◌, Option, none,
  some, List, [], ◌∷◌, arith, nat_eq, if◌then◌else◌, Bool-cases, Option-cases, Result, ok, err,
  Result-cases, eq_nat, eq_string, eq_list,
}
use veltix.Prelude.Dict.{lookup, lookup-insert_self, lookup-insert_ne}
use veltix.Internal.Events.{ProtocolEvent, protocol_event}
use veltix.Network.SystemTypes.{ping_type, same_type}
use veltix.Network.Request.{Codec}
use veltix.Network.Response.{Response}
use veltix.Network.Sender.{Transport, Sender, send}
use veltix.Handler.RequestHandler.{Callback, PendingQueue, emits, get_route}
use veltix.Handler.Rules.{
  pong_target, pong, send_pong, handle_ping, done, submit_callback, Handled, answers, blocked,
  finish, handle,
}
use veltix.Handler.Rules.Dispatch.{
  Handler, Context, to_callback, to_queue, documented, handle-documented,
}

module _ (codec : Codec) (net : Transport) where
  -- The receive loop: it handles the messages in order, until a call of `handle` blocks.
  abbrev pub go_on : Handled codec net → Handler codec net → Handler codec net → Handler codec net
  go_on (answers _) rest h = rest
  go_on blocked rest h = h

  unfoldable pub handle_all : List (Context codec net) → Handler codec net → Handler codec net
  handle_all [] h = h
  handle_all (c ∷ cs) h = let (r, h') = handle codec net c h in go_on r (handle_all cs h') h'

  -- A message that a pending request with this identifier takes.
  unfoldable pub answers_request : ℕ → Context codec net → Bool
  answers_request id c =
      not (same_type c.response.type ping_type) && nat_eq c.response.request_id id

  unfoldable pub first_answer : ℕ → List (Context codec net) → Option (Response codec)
  first_answer id [] = none
  first_answer id (c ∷ cs) = if answers_request id c then some c.response else first_answer id cs

  send_pong-pending :
      (c : Context codec net) (s : Sender codec net) (h : Handler codec net)
      → (send_pong codec net c s h).1.pending_requests ≡ h.pending_requests
  unfolding send_pong
  send_pong-pending c s h = elim (Result-cases (pong_target codec net h.is_server c.client)) [
    | inr (e, t) ↦ rw (t, send_pong) refl
    | inl (to, t) ↦
        elim (Result-cases (
          send codec net (pong codec net c.response.request_id) to
            (record s { trace = h.trace }))) [
              | inr (e, p) ↦ rw (t, send_pong) (rw p refl)
              | inl (q, p) ↦ rw (t, send_pong) (rw p refl)
            ]
  ]

  handle_ping-pending :
      (c : Context codec net) (h : Handler codec net)
      → (handle_ping codec net c h).1.pending_requests ≡ h.pending_requests
  unfolding handle_ping
  handle_ping-pending c h = elim (Option-cases h.sender) [
    | inl e ↦ rw (e, handle_ping) refl
    | inr (s, e) ↦
        rw (e, handle_ping)
          (send_pong-pending c s (emits codec net (protocol_event ProtocolEvent.ping) h))
  ]

  finish_done-pending :
      (p : Result Exn (Unit {0}) × Handler codec net)
      → (finish codec net (done codec net p)).1.pending_requests ≡ p.1.pending_requests
  unfolding finish
  finish_done-pending (ok u, h) = refl
  finish_done-pending (err e, h) = refl

  to_callback-pending :
      (f g : Option Callback) (c : Context codec net) (h : Handler codec net)
      → (to_callback codec net f g c h).pending_requests ≡ h.pending_requests
  unfolding submit_callback
  to_callback-pending (some f) g c h = refl
  to_callback-pending none (some g) c h = refl
  to_callback-pending none none c h = refl

  to_queue-pending :
      (id : ℕ) (c : Context codec net) (h : Handler codec net)
      → (q : Option (PendingQueue codec net)) → (q ≢ some none) ⊎ (c.response.request_id ≢ id)
      → lookup id (to_queue codec net q c h).1.pending_requests ≡ lookup id h.pending_requests
  to_queue-pending id c h (some none) (inl n) = absurd (n refl)
  to_queue-pending id c h (some none) (inr ne) =
      lookup-insert_ne c.response.request_id id (some c.response) h.pending_requests ne
  to_queue-pending id c h (some (some r)) d = refl
  to_queue-pending id c h none d =
      ap (lookup id) (to_callback-pending (get_route codec net c.response.type h) h.on_recv c h)

  -- A message leaves the queue of `id` alone, unless it is an answer and the queue waits for one.
  pub other-pending :
      (id : ℕ) (c : Context codec net) (h : Handler codec net)
      → (answers_request id c ≡ false) ⊎ (lookup id h.pending_requests ≢ some none)
      → lookup id (handle codec net c h).1.pending_requests ≡ lookup id h.pending_requests
  unfolding documented answers_request
  other-pending id c h d =
      rw (handle-documented codec net c h)
        (elim (Bool-cases (same_type c.response.type ping_type)) [
          | inl p ↦ rw p (
              ap (lookup id)
                (finish_done-pending (handle_ping codec net c h) ∙ handle_ping-pending c h))
          | inr p ↦ rw p (
              to_queue-pending id c h (lookup c.response.request_id h.pending_requests) (elim d [
                | inl no_answer ↦ inr (ground arith)
                | inr full ↦ elim (ℕ_discrete c.response.request_id id) [
                  | yes same ↦ inl (rw same full)
                  | no ne ↦ inr ne
                ]
              ]))
        ])

  -- An answer fills the queue that waits for it.
  pub answer-fills :
      (id : ℕ) (c : Context codec net) (h : Handler codec net)
      → answers_request id c ≡ true
      → lookup id h.pending_requests ≡ some none
      → let (r, h') = handle codec net c h in
        (r ≡ answers true) × (lookup id h'.pending_requests ≡ some (some c.response))
  unfolding documented answers_request
  answer-fills id c h a e =
      let p : same_type c.response.type ping_type ≡ false = ground arith in
      let same : c.response.request_id ≡ id = ground arith in
      subst (λ k. Filled k (handle codec net c h)) same
        (own p (subst (λ k. lookup k h.pending_requests ≡ some none) (sym same) e))
    where
      Filled : ℕ → Handled codec net × Handler codec net → Type 0
      Filled k (r, h') =
          (r ≡ answers true) × (lookup k h'.pending_requests ≡ some (some c.response))

      own :
          same_type c.response.type ping_type ≡ false
          → lookup c.response.request_id h.pending_requests ≡ some none
          → Filled c.response.request_id (handle codec net c h)
      own p e = rw (handle-documented codec net c h) (
          rw p (
            rw e (
              refl,
              lookup-insert_self c.response.request_id (some c.response) h.pending_requests,
            )))

  to_queue-blocked :
      (c : Context codec net) (h : Handler codec net) (q : Option (PendingQueue codec net))
      → (to_queue codec net q c h).0 ≡ blocked
      → (r : Response codec) × (q ≡ some (some r))
  to_queue-blocked c h (some (some r)) b = (r, refl)
  to_queue-blocked c h (some none) b = cc
  to_queue-blocked c h none b = cc

  finish_done-answers :
      (p : Result Exn (Unit {0}) × Handler codec net)
      → (finish codec net (done codec net p)).0 ≢ blocked
  unfolding finish
  finish_done-answers (ok u, h) b = cc
  finish_done-answers (err e, h) b = cc

  -- Only a full queue blocks.
  pub blocked-full :
      (c : Context codec net) (h : Handler codec net)
      → (documented codec net c h).0 ≡ blocked
      → (r : Response codec) × (lookup c.response.request_id h.pending_requests ≡ some (some r))
  unfolding documented
  blocked-full c h b = elim (Bool-cases (same_type c.response.type ping_type)) [
    | inl p ↦ absurd (finish_done-answers (handle_ping codec net c h) (rw p at b))
    | inr p ↦ to_queue-blocked c h (lookup c.response.request_id h.pending_requests) (rw p at b)
  ]
