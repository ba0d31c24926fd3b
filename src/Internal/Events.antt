-- ===== src/Internal/Events.antt =====
-- The events of the bus (src/veltix/internal/events.py). An emission is an entry of a trace: the
-- bus runs the subscribers and hands no exception of theirs to the code that emits.
use veltix.Prelude.{List, eq_nat, eq_string, eq_list}

pub data ServerEvent : Type 0 where
  on_connect on_disconnect started stopped client_rejected : ServerEvent

pub data ClientEvent : Type 0 where
  on_connect on_disconnect socket_disconnected connecting disconnecting : ClientEvent
  tag_added tag_removed tag_cleared : ClientEvent

pub data MessageEvent : Type 0 where
  received sent routed unhandled pending_registered pending_satisfied : MessageEvent
  pending_timeout route_registered route_unregistered : MessageEvent

pub data ProtocolEvent : Type 0 where
  ping pong handshake_start handshake_done handshake_fail : ProtocolEvent

pub data ErrorEvent : Type 0 where
  network handler callback send accept connection_refused : ErrorEvent

pub data ReconnectEvent : Type 0 where
  attempt fail success cancelled : ReconnectEvent

pub data Event : Type 0 where
  server_event : ServerEvent → Event
  client_event : ClientEvent → Event
  message_event : MessageEvent → Event
  protocol_event : ProtocolEvent → Event
  error_event : ErrorEvent → Event
  reconnect_event : ReconnectEvent → Event

-- What has been emitted, the latest event first.
abbrev pub Trace : Type 0
Trace = List Event
