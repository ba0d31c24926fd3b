-- ===== src/Client/State.antt =====
-- The client's state and its components (src/veltix/client/client.py, disconnect.py, and the
-- fields of reconnect_handler.py). Subscribers of the bus and other threads act on the client
-- only through `stop_retry`, at the points that client/reconnect_handler.py leaves open.
use veltix.Prelude.{
  ℕ, ◌+◌, Bool, true, false, not, ◌&&◌, ◌||◌, none, some, List, [], ◌∷◌, if◌then◌else◌, Result, ok,
  err, eq_nat, eq_string, eq_list,
}
use veltix.Internal.Events.{ClientEvent, ErrorEvent, Event, client_event, error_event, Trace}
use veltix.Network.IdAllocator.{id_allocator}
use veltix.Network.Request.{Codec}
use veltix.Client.Connection.{
  Connection, established, not_established, unreachable, crashed, id_window,
}
use veltix.Network.Sender.{SocketId, Transport, Sender}
use veltix.Handler.RequestHandler.{RequestHandler, request_handler, shutdown}
use veltix.Exceptions.{Exn}

pub data DisconnectReason : Type 0 where
  server_closed error manual : DisconnectReason

pub record DisconnectState : Type 0 where
  pub permanent : Bool
  pub attempt : ℕ
  pub retry_max : ℕ
  pub reason : DisconnectReason

-- The fields of ReconnectHandler: `locked` is `_reconnect_lock`.
pub record ReconnectHandler : Type 0 where
  pub fail_count : ℕ
  pub stop_retry_flag : Bool
  pub stop_event : Bool
  pub locked : Bool

-- ReconnectHandler.__init__
unfoldable pub reconnect_handler : ReconnectHandler
reconnect_handler = record {
  fail_count = 0;
  stop_retry_flag = false;
  stop_event = false;
  locked = false;
}

-- How `connect` goes before it falls back on `_try_reconnect`.
pub data Outcome : Type 0 where
  succeeded failed raised : Outcome

module _ (codec : Codec) (net : Transport) where
  open net use {World}

  -- `socket` names the current socket, `next_socket` the next one that is made, and `closed`
  -- holds those whose `close`, called by the client, has answered True. `notified` is what
  -- on_disconnect received, the latest first.
  pub record Client : Type 0 where
    pub retry : ℕ
    pub is_connected : Bool
    pub connecting : Bool
    pub running : Bool
    pub shutdown_event : Bool
    pub socket : SocketId
    pub next_socket : SocketId
    pub closed : List SocketId
    pub sender : Sender codec net
    pub request_handler : RequestHandler codec net
    pub reconnect : ReconnectHandler
    pub notified : List DisconnectState
    pub trace : Trace

  abbrev pub emits : Event → Client → Client
  emits e c = record c { trace = e ∷ c.trace }

  -- The sender of `init_components`
  abbrev pub new_sender : SocketId → World → Sender codec net
  new_sender s world = record {
    is_client = true;
    conn = some s;
    id_allocator = some (id_allocator 30000);
    trace = [];
    world = world;
  }

  -- A call of `close` on the current socket, with what it answers: the cores catch their exceptions
  -- and answer False.
  unfoldable pub close_socket : Bool → Client → Client
  close_socket answer c = record c { closed = if answer then c.socket ∷ c.closed else c.closed }

  -- Client.init_components, when the client has components and `close` of the old socket answers
  -- `answer`: the socket, the allocator, the sender and the request handler are new.
  unfoldable pub init_components : Bool → Client → Client
  init_components answer old =
      let c = close_socket answer old in
      let s = new_sender c.next_socket c.sender.world in
      record c {
        socket = c.next_socket;
        next_socket = c.next_socket + 1;
        sender = s;
        request_handler = request_handler codec net false (some s) [];
      }

  -- Client._context_set_running: stopping also sets the shutdown event.
  unfoldable pub set_running : Bool → Client → Client
  set_running v c = record c {
    running = v;
    shutdown_event = c.shutdown_event || (c.running && not v);
  }

  -- Client._context_set_connected
  unfoldable pub set_connected : Bool → Client → Client
  set_connected v c = record c { is_connected = v }

  -- ReconnectHandler.init_connect
  unfoldable pub init_connect : Client → Client
  init_connect c = record c {
    reconnect = record c.reconnect { fail_count = 0; stop_retry_flag = false; stop_event = false };
  }

  -- ReconnectHandler.stop_retry
  unfoldable pub stop_retry : Client → Client
  stop_retry c = record c {
    reconnect = record c.reconnect { stop_retry_flag = true; stop_event = true };
  }

  -- ReconnectHandler.fire_on_disconnect: an exception of the callback is logged there.
  unfoldable pub fire_on_disconnect : Bool → DisconnectReason → Client → Client
  fire_on_disconnect permanent reason c = emits (client_event ClientEvent.on_disconnect) (record c {
    notified =
        record {
          permanent = permanent;
          attempt = c.reconnect.fail_count;
          retry_max = c.retry;
          reason = reason;
        }
        ∷ c.notified;
  })

  -- `self._id_allocator._max = id_window`
  unfoldable pub set_window : ℕ → Client → Client
  set_window w c = record c {
    sender = record c.sender {
      id_allocator = elim c.sender.id_allocator [
        | none ↦ none
        | some a ↦ some (record a { max_ids = w })
      ];
    };
  }

  -- The end of `connect`, of a client that is already marked as connected, with the id_window
  unfoldable pub with_window : Result Exn ℕ → Client → Outcome × Client
  with_window (err e) c = (raised, emits (error_event ErrorEvent.network) c)
  with_window (ok window) c =
      (succeeded, emits (client_event ClientEvent.on_connect) (init_connect (set_window window c)))

  -- Client.connect up to its own reconnection
  unfoldable pub try_connect : Connection → Client → Outcome × Client
  try_connect (established meta) c =
      with_window (id_window meta) (record (emits (client_event ClientEvent.connecting) c) {
        is_connected = true;
        connecting = false;
        shutdown_event = false;
      })
  try_connect not_established c =
      (failed, record (emits (client_event ClientEvent.connecting) c) { connecting = false })
  try_connect unreachable c = (
    failed,
    emits (error_event ErrorEvent.network)
        (record (emits (client_event ClientEvent.connecting) c) { connecting = true }),
  )
  try_connect crashed c = (
    raised,
    emits (error_event ErrorEvent.network)
        (record (emits (client_event ClientEvent.connecting) c) { connecting = true }),
  )

  -- From `socket.close` on: what it answers, or raises
  unfoldable pub disconnected : Result Exn Bool → Client → Bool × Client
  disconnected (err e) c = (false, c)
  disconnected (ok answer) c = (
    true,
    record (fire_on_disconnect true manual (close_socket answer c)) { shutdown_event = true },
  )

  -- Client.disconnect, with what `socket.close` comes to
  unfoldable pub disconnect : Result Exn Bool → Client → Bool × Client
  disconnect outcome c =
      let stopped = stop_retry (record (emits (client_event ClientEvent.disconnecting) c) {
        running = false;
        is_connected = false;
      }) in
      disconnected outcome
        (record stopped { request_handler = shutdown codec net stopped.request_handler })
