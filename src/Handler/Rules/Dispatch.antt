-- ===== src/Handler/Rules/Dispatch.antt =====
-- The rule chain against the processing order that RequestHandler documents.
use veltix.Exceptions.{Exn}
use veltix.Prelude.{
  ℕ, ◌≤◌, ◌≡◌, refl, ap, inl, inr, true, false, Option, none, some, [], ◌∷◌, arith, if◌then◌else◌,
  Bool-cases, drop, Result, ok, err, eq_nat, eq_string, eq_list,
}
use veltix.Prelude.Dict.{lookup, insert}
use veltix.Internal.Events.{MessageEvent, ProtocolEvent, message_event, protocol_event}
use veltix.Network.SystemTypes.{ping_type, pong_type, same_type}
use veltix.Network.Request.{Codec}
use veltix.Network.Wire.{IsSendable, frame}
use veltix.Network.Sender.{SocketId, Transport, Sender, emit, resolve_target}
use veltix.Network.Sender.Delivery.{NeverRaises, send-ignores_answer}
use veltix.Handler.RequestHandler.{
  Callback, PendingQueue, RequestHandler, emits, has_route, get_route,
}
use veltix.Handler.Rules.{
  route_rule, on_recv_rule, unhandled_rule, all_rules, Verdict, handled, MessageContext,
  pong_target, pong, send_pong, handle_ping, done, deliver, submit_callback, handle_route,
  try_on_recv, try_handle, unless_handled, process, Handled, answers, blocked, finish, handle,
}

module _ (codec : Codec) (net : Transport) where
  abbrev pub Handler : Type 0
  Handler = RequestHandler codec net

  abbrev pub Context : Type 0
  Context = MessageContext codec net

  -- 3 to 5: the route of the type, or else on_recv, or else a warning.
  abbrev pub to_callback : Option Callback → Option Callback → Context → Handler → Handler
  to_callback (some f) _ c h = submit_callback codec net f c h
  to_callback none (some g) c h = submit_callback codec net g c h
  to_callback none none c h = emits codec net (message_event MessageEvent.unhandled) h

  -- 2: a pending request takes the response, whatever its type and its sender.
  abbrev pub to_queue :
      Option (PendingQueue codec net) → Context → Handler → Handled codec net × Handler
  to_queue (some none) c h = (
    answers true,
    emits codec net (message_event MessageEvent.pending_satisfied) (record h {
      pending_requests = insert c.response.request_id (some c.response) h.pending_requests;
    }),
  )
  to_queue (some (some _)) c h = (blocked, h)
  to_queue none c h =
      (answers true, to_callback (get_route codec net c.response.type h) h.on_recv c h)

  -- The documented order: PING, pending request, route, on_recv, warning.
  unfoldable pub documented : Context → Handler → Handled codec net × Handler
  documented c h =
      if same_type c.response.type ping_type
      then finish codec net (done codec net (handle_ping codec net c h))
      else to_queue (lookup c.response.request_id h.pending_requests) c h

  callbacks-eq :
      (c : Context) (h : Handler) (route on_recv : Option Callback)
      → get_route codec net c.response.type h ≡ route
      → h.on_recv ≡ on_recv
      → process codec net (route_rule ∷ on_recv_rule ∷ unhandled_rule ∷ []) c h
        ≡ (ok handled, to_callback route on_recv c h)
  unfolding process try_handle unless_handled has_route get_route handle_route try_on_recv
  callbacks-eq c h (some f) o e p = simp e
  callbacks-eq c h none (some g) e p = simp (e, p)
  callbacks-eq c h none none e p = simp (e, p)

  -- 2 to 5, for a message that is no PING.
  unanswered-eq :
      (c : Context) (h : Handler) (q : Option (PendingQueue codec net))
      → lookup c.response.request_id h.pending_requests ≡ q
      → same_type c.response.type ping_type ≡ false
      → handle codec net c h ≡ to_queue q c h
  unfolding handle process try_handle unless_handled deliver finish
  unanswered-eq c h (some none) e p = simp (p, e)
  unanswered-eq c h (some (some r)) e p = simp (p, e)
  unanswered-eq c h none e p =
      simp (p, e)
        (ap (finish codec net)
          (callbacks-eq c h (get_route codec net c.response.type h) h.on_recv refl refl))

  finish-done :
      (p : Result Exn (Unit {0}) × Handler) (k : Handler → Result Exn Verdict × Handler)
      → finish codec net (unless_handled codec net (done codec net p) k)
        ≡ finish codec net (done codec net p)
  unfolding unless_handled
  finish-done (ok u, h) k = refl
  finish-done (err e, h) k = refl

  pub handle-documented : (c : Context) (h : Handler) → handle codec net c h ≡ documented c h
  unfolding documented
  handle-documented c h = elim (Bool-cases (same_type c.response.type ping_type)) [
    | inl e ↦
        unfold handle process try_handle in
        rw e (finish-done (handle_ping codec net c h) (process codec net (drop 1 all_rules) c))
    | inr e ↦ rw e (unanswered-eq c h (lookup c.response.request_id h.pending_requests) refl e)
  ]

  -- The sender after the PONG.
  abbrev ponged : Context → Handler → Sender codec net → SocketId → Sender codec net
  ponged c h s conn = emit codec net (message_event MessageEvent.sent) (record s {
    trace = protocol_event ProtocolEvent.ping ∷ h.trace;
    world = (net.send_bytes conn (frame codec (pong codec net c.response.request_id)) s.world).1;
  })

  pong-IsSendable : (id : ℕ) → id ≤ 65535 → IsSendable (pong codec net id)
  unfolding pong_type
  pong-IsSendable id h = record {
    content_fits = omega arith;
    code_fits = omega arith;
    flags_fit = omega arith;
    id_fits = h;
  }

  handle_ping-eq :
      (c : Context) (h : Handler) (s : Sender codec net) (conn : SocketId)
      → h.is_server ≡ true
      → h.sender ≡ some s
      → s.is_client ≡ false
      → c.client ≡ some conn
      → c.response.request_id ≤ 65535
      → NeverRaises codec net conn
      → handle_ping codec net c h ≡ (
        ok tt,
        emits codec net
            (protocol_event ProtocolEvent.pong)
            (record h { sender = some (ponged c h s conn); trace = (ponged c h s conn).trace }),
      )
  unfolding handle_ping send_pong pong_target resolve_target
  handle_ping-eq c h s conn server sends mode known small quiet =
      let s' : Sender codec net = record s {
        trace = protocol_event ProtocolEvent.ping ∷ h.trace;
      } in
      let to : pong_target codec net h.is_server c.client ≡ ok (some conn) =
        rw server (rw known refl) in
      let sent =
        send-ignores_answer codec net (pong codec net c.response.request_id) conn s' (some conn)
          (pong-IsSendable c.response.request_id small) refl (rw mode refl) quiet in
      rw (sends, handle_ping) (rw (to, send_pong) (rw sent refl))

  -- On the server a PING of a known client is answered: the frame of a PONG with the identifier of
  -- the PING goes to the socket of that client, and to no callback and no pending request.
  pub handle-ping :
      (c : Context) (h : Handler) (s : Sender codec net) (conn : SocketId)
      → same_type c.response.type ping_type ≡ true
      → h.is_server ≡ true
      → h.sender ≡ some s
      → s.is_client ≡ false
      → c.client ≡ some conn
      → c.response.request_id ≤ 65535
      → NeverRaises codec net conn
      → let (r, h') = handle codec net c h in
        (r ≡ answers true)
        × (h'.pending_requests ≡ h.pending_requests)
        × (h'.executor ≡ h.executor)
        × ((s' : Sender codec net) × (h'.sender ≡ some s')
            × (s'.world
                ≡ (net.send_bytes conn
                    (frame codec (pong codec net c.response.request_id))
                    s.world).1))
  unfolding documented finish
  handle-ping c h s conn ping server sends mode known small quiet =
      let out = handle_ping-eq c h s conn server sends mode known small quiet in
      rw (handle-documented c h)
        (rw ping (rw out (refl, refl, refl, (ponged c h s conn, refl, refl))))
