-- ===== src/Client/Requests.antt =====
-- Requests, callbacks and waiting of a client (src/veltix/client/client.py). While send_and_wait
-- waits, the receiving thread handles the messages that come, a list of steps.
pub mod Answer
pub mod Ping
use veltix.Network.Types.{MessageType}
use veltix.Exceptions.{Exn, attribute_error}
use veltix.Prelude.{
  ℕ, Bool, true, false, Option, none, some, List, [], if◌then◌else◌, Result, ok, err, ◌>>=◌, eq_nat,
  eq_string, eq_list,
}
use veltix.Network.IdAllocator.{id_allocator, allocate}
use veltix.Network.Request.{Codec, no_flags, Request}
use veltix.Network.Response.{Response}
use veltix.Network.Sender.{Transport, Sender, sender, send}
use veltix.Handler.RequestHandler.{
  Callback, request_handler, register, unregister, wait, set_on_recv, register_route,
}
use veltix.Handler.Rules.Pending.{handle_all}
use veltix.Handler.Rules.Dispatch.{Context}
use veltix.Client.State.{Client, disconnect}
use veltix.Network.SystemTypes.{ping_type}

module _ (codec : Codec) (net : Transport) where
  -- The sender that has sent; the request handler has the same one.
  abbrev pub with_sender : Sender codec net → Client codec net → Client codec net
  with_sender s c = record c {
    sender = s;
    request_handler = record c.request_handler { sender = some s };
  }

  -- `if request.request_id is None`, on the identifier that the request has
  unfoldable pub identified_as :
      Option ℕ → Request → Client codec net → Result Exn (ℕ × Request × Client codec net)
  identified_as (some id) r c = ok (id, r, c)
  identified_as none r c = elim c.sender.id_allocator [
    | none ↦ err attribute_error
    | some a ↦ do
      (id, a') ← allocate a
      ok (
        id,
        record r { request_id = some id },
        with_sender (record c.sender { id_allocator = some a' }) c,
      )
  ]

  unfoldable pub identified :
      Request → Client codec net → Result Exn (ℕ × Request × Client codec net)
  identified r c = identified_as r.request_id r c

  -- From the answer of `send` on: `cs` are the messages that are handled before the time is up.
  unfoldable pub awaited :
      ℕ
      → List (Context codec net)
      → Result Exn (Bool × Request × Sender codec net)
      → Client codec net
      → Result Exn (Option (Response codec)) × Client codec net
  awaited id cs (err e) c = (err e, c)
  awaited id cs (ok (false, r, s)) c = (
    ok none,
    record (with_sender s c) {
      request_handler = unregister codec net id (with_sender s c).request_handler;
    },
  )
  awaited id cs (ok (true, r, s)) c =
      let (x, h) = wait codec net id (handle_all codec net cs (with_sender s c).request_handler) in
      (ok x, record (with_sender s c) { request_handler = h })

  unfoldable pub registered_and_sent :
      List (Context codec net)
      → Result Exn (ℕ × Request × Client codec net)
      → Client codec net
      → Result Exn (Option (Response codec)) × Client codec net
  registered_and_sent cs (err e) c = (err e, c)
  registered_and_sent cs (ok (id, r, c')) c =
      awaited id cs (send codec net r none c'.sender)
        (record c' { request_handler = register codec net id c'.request_handler })

  -- Client.send_and_wait
  unfoldable pub send_and_wait :
      Request
      → List (Context codec net)
      → Client codec net
      → Result Exn (Option (Response codec)) × Client codec net
  send_and_wait r cs c = registered_and_sent cs (identified r c) c

  -- Client.ping_server: the latency is the difference of two readings of the clock.
  unfoldable pub ping_server :
      List (Context codec net)
      → Client codec net
      → Result Exn (Option (Response codec)) × Client codec net
  ping_server cs c =
      send_and_wait (record { type = ping_type; content = []; request_id = none; flags = no_flags })
        cs c

  -- Client.send
  unfoldable pub send_request :
      Request → Client codec net → Result Exn (Bool × Request × Client codec net)
  send_request r c = do
    (sent, r', s) ← send codec net r none c.sender
    ok (sent, r', with_sender s c)

  -- Client.on_recv
  unfoldable pub on_recv : Callback → Client codec net → Client codec net
  on_recv f c = record c { request_handler = set_on_recv codec net f c.request_handler }

  -- Client.route
  unfoldable pub route : MessageType → Callback → Client codec net → Client codec net
  route t f c = record c {
    request_handler = (register_route codec net t.code f c.request_handler).1;
  }

  -- Client.wait_until_closed, when the event is set or Ctrl+C comes, with what the closing of the
  -- socket then comes to
  unfoldable pub wait_until_closed : Bool → Result Exn Bool → Client codec net → Client codec net
  wait_until_closed interrupted outcome c =
      if interrupted then (disconnect codec net outcome c).1 else c
