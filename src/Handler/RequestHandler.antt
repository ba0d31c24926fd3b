-- ===== src/Handler/RequestHandler.antt =====
-- Pending requests and routes (src/veltix/handler/request_handler.py, callback_executor.py).
-- Each method takes its lock once and is one step.
use veltix.Prelude.{
  ℕ, Bool, true, false, not, Option, none, some, List, [], ◌∷◌, ◌++◌, if◌then◌else◌, eq_nat,
  eq_string, eq_list,
}
use veltix.Prelude.Dict.{Dict, lookup, contains, insert, erase}
use veltix.Internal.Events.{MessageEvent, Event, message_event, Trace}
use veltix.Network.Types.{MessageType}
use veltix.Network.Request.{Codec}
use veltix.Network.Response.{Response}
use veltix.Network.Sender.{SocketId, Transport, Sender, sender}

-- A user's callback, by a name.
abbrev pub Callback : Type 0
Callback = ℕ

module _ (codec : Codec) (net : Transport) where
  -- A call that the thread pool has taken: on the server the client comes first.
  pub record Task : Type 0 where
    pub callback : Callback
    pub client : Option SocketId
    pub response : Response codec

  -- CallbackExecutor: whether its pool still takes work, and what it has taken, in order.
  pub record CallbackExecutor : Type 0 where
    pub running : Bool
    pub submitted : List Task

  -- CallbackExecutor.submit: the RuntimeError of a pool that is shut down is suppressed.
  unfoldable pub submit : Task → CallbackExecutor → CallbackExecutor
  submit t e = if e.running then record e { submitted = e.submitted ++ (t ∷ []) } else e

  -- CallbackExecutor.shutdown
  unfoldable pub shutdown_executor : CallbackExecutor → CallbackExecutor
  shutdown_executor e = record e { running = false }

  -- A Queue(maxsize=1): empty, or with its response.
  abbrev pub PendingQueue : Type 0
  PendingQueue = Option (Response codec)

  pub record RequestHandler : Type 0 where
    pub is_server : Bool
    pub sender : Option (Sender codec net)
    pub on_recv : Option Callback
    pub pending_requests : Dict ℕ PendingQueue
    pub routes : Dict ℕ Callback
    pub executor : CallbackExecutor
    pub trace : Trace

  -- RequestHandler.__init__
  unfoldable pub request_handler : Bool → Option (Sender codec net) → Trace → RequestHandler
  request_handler is_server sender trace = record {
    is_server = is_server;
    sender = sender;
    on_recv = none;
    pending_requests = [];
    routes = [];
    executor = record { running = true; submitted = [] };
    trace = trace;
  }

  abbrev pub emits : Event → RequestHandler → RequestHandler
  emits e h = record h { trace = e ∷ h.trace }

  -- RequestHandler.register
  unfoldable pub register : ℕ → RequestHandler → RequestHandler
  register id h =
      emits (message_event MessageEvent.pending_registered)
        (record h { pending_requests = insert id none h.pending_requests })

  -- RequestHandler.unregister
  unfoldable pub unregister : ℕ → RequestHandler → RequestHandler
  unregister id h = record h { pending_requests = erase id h.pending_requests }

  -- What `wait` gets out of the queue that it found.
  unfoldable pub take_from :
      Option PendingQueue → ℕ → RequestHandler → Option (Response codec) × RequestHandler
  take_from none id h = (none, h)
  take_from (some (some r)) id h = (some r, unregister id h)
  take_from (some none) id h =
      (none, unregister id (emits (message_event MessageEvent.pending_timeout) h))

  -- RequestHandler.wait, at the moment when the queue gets its response or the time is up.
  unfoldable pub wait : ℕ → RequestHandler → Option (Response codec) × RequestHandler
  wait id h = take_from (lookup id h.pending_requests) id h

  -- RequestHandler.set_on_recv
  unfoldable pub set_on_recv : Callback → RequestHandler → RequestHandler
  set_on_recv f h = record h { on_recv = some f }

  -- has_route, get_route, copy_routes: message types are equal, and hash, by their codes.
  unfoldable pub has_route : MessageType → RequestHandler → Bool
  has_route t h = contains t.code h.routes

  unfoldable pub get_route : MessageType → RequestHandler → Option Callback
  get_route t h = lookup t.code h.routes

  unfoldable pub copy_routes : RequestHandler → Dict ℕ Callback
  copy_routes h = h.routes

  -- RequestHandler.register_route
  unfoldable pub register_route : ℕ → Callback → RequestHandler → Bool × RequestHandler
  register_route code f h = if contains code h.routes then (false, h) else (
    true,
    emits (message_event MessageEvent.route_registered)
        (record h { routes = insert code f h.routes }),
  )

  -- RequestHandler.unregister_route
  unfoldable pub unregister_route : ℕ → RequestHandler → Bool × RequestHandler
  unregister_route code h = if not (contains code h.routes) then (false, h) else (
    true,
    emits (message_event MessageEvent.route_unregistered)
        (record h { routes = erase code h.routes }),
  )

  -- RequestHandler.shutdown
  unfoldable pub shutdown : RequestHandler → RequestHandler
  shutdown h = record h { executor = shutdown_executor h.executor }
