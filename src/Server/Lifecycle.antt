-- ===== src/Server/Lifecycle.antt =====
-- The server (src/veltix/server/server.py), over a socket core.
pub mod Service
pub mod Simulation
pub mod Opening
pub mod Starting
pub mod Refinement
use veltix.Prelude.{
  ℕ, Bool, true, false, none, some, [], if◌then◌else◌, Result, ok, err, eq_nat, eq_string, eq_list,
}
use veltix.Exceptions.{Exn}
use veltix.Internal.Events.{ServerEvent, Event, server_event, Trace}
use veltix.Network.Types.{MessageType}
use veltix.Network.Request.{Codec}
use veltix.Network.Sender.{Transport, Sender}
use veltix.Network.IdAllocator.{id_allocator, client_allocator}
use veltix.Server.ClientInfo.{ClientInfo}
use veltix.Handler.RequestHandler.{
  Callback, RequestHandler, request_handler, emits, set_on_recv, copy_routes, register_route,
  shutdown,
}
use veltix.Handler.Routes.{register_routes, set_if_given}
use veltix.SocketCore.ClientsManager.{InfoRef}
use veltix.SocketCore.BaseSocket.{BaseSocket}

-- The fields of ServerConfig that the server hands on
pub record ServerConfig : Type 0 where
  pub max_message_size : ℕ
  pub id_window : ℕ

module _ {codec : Codec} {net : Transport} {Value : Type 0}
    (core : BaseSocket codec net Value) where
  open net use {World}
  open core use {
    State, make, handler_of, with_handler_of, set_client_allocator, manager_of, infos_of,
    next_info_of, is_running, bind_core, close_core, close_client_core, close_entry_core,
  }

  -- The request handler, and with it the sender, is the one of the socket.
  pub record Server : Type 0 where
    pub config : ServerConfig
    pub shutdown_event : Bool
    pub started : Bool
    pub closed : Bool
    pub socket : State

  abbrev pub handler : Server → RequestHandler codec net
  handler s = handler_of s.socket

  abbrev pub with_handler : RequestHandler codec net → Server → Server
  with_handler h s = record s { socket = with_handler_of h s.socket }

  abbrev pub emits_event : Event → Server → Server
  emits_event e s = with_handler (emits codec net e (handler s)) s

  -- The sender of _init_components
  abbrev pub server_sender : ℕ → World → Sender codec net
  server_sender window world = record {
    is_client = false;
    conn = none;
    id_allocator = some (id_allocator window);
    trace = [];
    world = world;
  }

  -- _init_components, on the ClientInfo objects that there are; the bus keeps its trace.
  unfoldable pub init_components :
      ServerConfig → World → Trace → (InfoRef → ClientInfo Value) → ℕ → State
  init_components config world trace infos next_info =
      set_client_allocator (client_allocator config.id_window) (
        make (request_handler codec net true (some (server_sender config.id_window world)) trace)
          config.max_message_size infos next_info)

  -- Server.__init__
  unfoldable pub server : ServerConfig → World → (InfoRef → ClientInfo Value) → ℕ → Server
  server config world infos next_info = record {
    config = config;
    shutdown_event = false;
    started = false;
    closed = false;
    socket = init_components config world [] infos next_info;
  }

  -- Server.on_recv
  unfoldable pub on_recv : Callback → Server → Server
  on_recv f s = with_handler (set_on_recv codec net f (handler s)) s

  -- Server.route
  unfoldable pub route : MessageType → Callback → Server → Server
  route t f s = with_handler (register_route codec net t.code f (handler s)).1 s

  -- `if should_reinit`: the routes and the callback of the old request handler are registered.
  unfoldable pub reinit : World → Server → Server
  reinit world s =
      let old_routes = copy_routes codec net (handler s) in
      let old_on_recv = (handler s).on_recv in
      let socket =
        init_components s.config world (handler s).trace (infos_of s.socket)
          (next_info_of s.socket) in
      record s {
        socket =
            with_handler_of
              (set_if_given codec net old_on_recv
                (register_routes codec net old_routes (handler_of socket)))
              socket;
      }

  -- start, from what the socket's bind comes to: its answer is not looked at.
  unfoldable pub announced : Result Exn Bool × State → Server → Result Exn (Unit {0}) × Server
  announced (err e, k) s = (err e, record s { socket = k })
  announced (ok answer, k) s =
      (ok tt, emits_event (server_event ServerEvent.started) (record s { socket = k }))

  -- The states of start behind the lock, and before the bind
  unfoldable pub opened : World → Server → Server
  opened world s =
      let s' = record s { started = true; closed = false; shutdown_event = false } in
      if s.closed then reinit world s' else s'

  -- Server.start, in a world of the network, from what binding and listening come to
  unfoldable pub start : World → Result Exn (Unit {0}) → Server → Result Exn (Unit {0}) × Server
  start world binding s =
      if s.started
      then (ok tt, s)
      else announced (bind_core binding (opened world s).socket) (opened world s)

  -- Server.close_all; `close` of the cores does not raise.
  unfoldable pub close_all : Server → Server
  close_all s =
      if s.closed
      then s
      else (let shut = with_handler (shutdown codec net (handler s)) s in
          emits_event (server_event ServerEvent.stopped) (record shut {
            closed = true;
            started = false;
            socket = (close_core shut.socket).1;
            shutdown_event = true;
          }))

  -- Server.restart
  unfoldable pub restart : World → Result Exn (Unit {0}) → Server → Result Exn (Unit {0}) × Server
  restart world binding s = start world binding (close_all s)

  -- Server.wait_until_closed, when the event is set or Ctrl+C comes
  unfoldable pub wait_until_closed : Bool → Server → Server
  wait_until_closed interrupted s = if interrupted then close_all s else s
