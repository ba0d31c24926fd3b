-- ===== src/Handler/Rules.antt =====
-- The rule chain (src/veltix/handler/rules.py, rules_manager.py, RequestHandler.handle).
pub mod Dispatch
pub mod Pending
pub mod Correlation
use veltix.Exceptions.{Exn, no_sender, no_client}
use veltix.Prelude.{
  ℕ, Bool, true, false, Option, none, some, List, [], ◌∷◌, if◌then◌else◌, Result, ok, err, eq_nat,
  eq_string, eq_list,
}
use veltix.Prelude.Dict.{lookup, insert}
use veltix.Internal.Events.{
  MessageEvent, ProtocolEvent, ErrorEvent, message_event, protocol_event, error_event,
}
use veltix.Network.SystemTypes.{ping_type, pong_type, same_type}
use veltix.Network.Request.{Codec, no_flags, Request}
use veltix.Network.Response.{Response, response}
use veltix.Network.Sender.{SocketId, Transport, Sender, sender, send}
use veltix.Handler.RequestHandler.{
  Callback, submit, PendingQueue, RequestHandler, emits, has_route, get_route,
}

-- The subclasses of Rule.
pub data Rule : Type 0 where
  ping_rule pending_request_rule route_rule on_recv_rule unhandled_rule : Rule

-- ALL_RULES
abbrev pub all_rules : List Rule
all_rules = ping_rule ∷ pending_request_rule ∷ route_rule ∷ on_recv_rule ∷ unhandled_rule ∷ []

-- What `try_handle` answers, False or True; or it waits in `put` on a full queue.
pub data Verdict : Type 0 where
  passed handled waits : Verdict

module _ (codec : Codec) (net : Transport) where
  pub record MessageContext : Type 0 where
    pub response : Response codec
    pub client : Option SocketId

  -- PingRule.handle: to whom the PONG goes
  unfoldable pub pong_target : Bool → Option SocketId → Result Exn (Option SocketId)
  pong_target true none = err no_client
  pong_target true (some conn) = ok (some conn)
  pong_target false _ = ok none

  abbrev pub pong : ℕ → Request
  pong id = record { type = pong_type; content = []; request_id = some id; flags = no_flags }

  -- PingRule.handle, once the sender is known: it emits on the same bus.
  unfoldable pub send_pong :
      MessageContext
      → Sender codec net
      → RequestHandler codec net
      → Result Exn (Unit {0}) × RequestHandler codec net
  send_pong c s h = elim (pong_target h.is_server c.client) [
    | err e ↦ (err e, h)
    | ok to ↦ elim (send codec net (pong c.response.request_id) to (record s { trace = h.trace })) [
      | err e ↦ (err e, h)
      | ok (_, _, s') ↦ (
        ok tt,
        emits codec net (protocol_event ProtocolEvent.pong)
            (record h { sender = some s'; trace = s'.trace }),
      )
    ]
  ]

  -- PingRule.handle
  unfoldable pub handle_ping :
      MessageContext → RequestHandler codec net → Result Exn (Unit {0}) × RequestHandler codec net
  handle_ping c h =
      let h' = emits codec net (protocol_event ProtocolEvent.ping) h in
      elim h.sender [ none ↦ (err no_sender, h') | some s ↦ send_pong c s h' ]

  -- Rule.try_handle: True, once `handle` has returned
  abbrev pub done :
      Result Exn (Unit {0}) × RequestHandler codec net
      → Result Exn Verdict × RequestHandler codec net
  done (ok _, h) = (ok handled, h)
  done (err e, h) = (err e, h)

  -- PendingRequestRule.try_handle, with the queue that it found
  unfoldable pub deliver :
      Option (PendingQueue codec net)
      → MessageContext
      → RequestHandler codec net
      → Verdict × RequestHandler codec net
  deliver none c h = (passed, h)
  deliver (some (some _)) c h = (waits, h)
  deliver (some none) c h = (
    handled,
    emits codec net (message_event MessageEvent.pending_satisfied) (record h {
      pending_requests = insert c.response.request_id (some c.response) h.pending_requests;
    }),
  )

  -- The call that RouteRule and OnRecvRule submit.
  unfoldable pub submit_callback :
      Callback → MessageContext → RequestHandler codec net → RequestHandler codec net
  submit_callback f c h =
      let h' = emits codec net (message_event MessageEvent.routed) h in
      record h' {
        executor =
            submit codec net
              (record {
                callback = f;
                client = if h.is_server then c.client else none;
                response = c.response;
              })
              h.executor;
      }

  -- RouteRule.handle, with the route that it found
  unfoldable pub handle_route :
      Option Callback → MessageContext → RequestHandler codec net → RequestHandler codec net
  handle_route none c h = h
  handle_route (some f) c h = submit_callback f c h

  -- OnRecvRule: can_handle and handle
  unfoldable pub try_on_recv :
      Option Callback
      → MessageContext
      → RequestHandler codec net
      → Verdict × RequestHandler codec net
  try_on_recv none c h = (passed, h)
  try_on_recv (some f) c h = (handled, submit_callback f c h)

  abbrev pub returns :
      Verdict × RequestHandler codec net → Result Exn Verdict × RequestHandler codec net
  returns (v, h) = (ok v, h)

  -- Rule.try_handle of each subclass
  unfoldable pub try_handle :
      Rule
      → MessageContext
      → RequestHandler codec net
      → Result Exn Verdict × RequestHandler codec net
  try_handle ping_rule c h =
      if same_type c.response.type ping_type then done (handle_ping c h) else (ok passed, h)
  try_handle pending_request_rule c h =
      returns (deliver (lookup c.response.request_id h.pending_requests) c h)
  try_handle route_rule c h =
      if has_route codec net c.response.type h
      then (ok handled, handle_route (get_route codec net c.response.type h) c h)
      else (ok passed, h)
  try_handle on_recv_rule c h = returns (try_on_recv h.on_recv c h)
  try_handle unhandled_rule c h =
      (ok handled, emits codec net (message_event MessageEvent.unhandled) h)

  -- The loop goes on to the next rules only if this one passes.
  unfoldable pub unless_handled :
      Result Exn Verdict × RequestHandler codec net
      → (RequestHandler codec net → Result Exn Verdict × RequestHandler codec net)
      → Result Exn Verdict × RequestHandler codec net
  unless_handled (ok passed, h) next = next h
  unless_handled (ok handled, h) next = (ok handled, h)
  unless_handled (ok waits, h) next = (ok waits, h)
  unless_handled (err e, h) next = (err e, h)

  -- RulesManager.process: the first rule that does not pass ends the chain.
  unfoldable pub process :
      List Rule
      → MessageContext
      → RequestHandler codec net
      → Result Exn Verdict × RequestHandler codec net
  process [] c h = (ok passed, h)
  process (r ∷ rs) c h = unless_handled (try_handle r c h) (process rs c)

  -- What `handle` comes to: it returns, or its thread waits in `put`.
  pub data Handled : Type 0 where
    answers : Bool → Handled
    blocked : Handled

  -- The `try` of `handle`, from what the chain came to
  unfoldable pub finish :
      Result Exn Verdict × RequestHandler codec net → Handled × RequestHandler codec net
  finish (err e, h) = (answers false, emits codec net (error_event ErrorEvent.handler) h)
  finish (ok passed, h) = (answers true, h)
  finish (ok handled, h) = (answers true, h)
  finish (ok waits, h) = (blocked, h)

  -- RequestHandler.handle
  unfoldable pub handle :
      MessageContext → RequestHandler codec net → Handled × RequestHandler codec net
  handle c h = finish (process all_rules c h)
