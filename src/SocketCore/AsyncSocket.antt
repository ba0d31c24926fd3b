-- ===== src/SocketCore/AsyncSocket.antt =====
-- The socket core on a selector (src/veltix/socket_core/async_socket.py). The selector is what it
-- watches: the core's own socket, with the role that its key names, and the clients' sockets, with
-- the identifiers. Its `register` raises for a socket that it watches, and `unregister` for one
-- that it does not watch.
pub mod Connecting
pub mod Accepting
pub mod Events
pub mod Failures
pub mod Limit
pub mod Leak
pub mod Closing
pub mod Core
pub mod Stream
use veltix.Prelude.{
  ℕ, zero, suc, Bool, true, false, not, ◌&&◌, ◌||◌, Option, none, some, List, [], ◌∷◌, leb, nat_eq,
  if◌then◌else◌, ◌==◌, is_some, any, Result, ok, err, eq_nat, eq_string, eq_list,
}
use veltix.Prelude.Dict.{Dict, contains, insert, erase, values}
use veltix.Exceptions.{Exn, blocking_io, key_error, value_error}
use veltix.Internal.Events.{ServerEvent, ErrorEvent, Event, server_event, error_event}
use veltix.Internal.Version.{eq_version}
use veltix.Network.Request.{Codec}
use veltix.Network.Sender.{SocketId, Transport}
use veltix.Network.IdAllocator.{ClientAllocator, client_allocator}
use veltix.Network.MessageBuffer.{default_max_buffer_size, MessageBuffer, message_buffer}
use veltix.Server.ClientInfo.{ClientInfo}
use veltix.Handler.Handshake.{Json}
use veltix.Handler.RequestHandler.{RequestHandler, request_handler, emits}
use veltix.SocketCore.ClientsManager.{
  InfoRef, ClientEntry, ClientsManager, clients_manager, remove_client, get_client, count,
}
use veltix.SocketCore.ThreadingSocket.{MaxClient, at_most, negative}

-- The key of the core's own socket
pub data Role : Type 0 where
  listen client_role : Role

-- `max_client != -1 and self.client_manager.count() >= max_client`
unfoldable pub refuses_more : MaxClient → ℕ → Bool
refuses_more (at_most m) count = leb m count
refuses_more (negative zero) count = false
refuses_more (negative (suc n)) count = true

-- except KeyError
unfoldable pub is_key_error : Exn → Bool
is_key_error key_error = true
is_key_error _ = false

module _ (codec : Codec) (net : Transport) (Value : Type 0) where
  -- `sock_open` and `closed` say which sockets have been closed, and `infos` what the references
  -- to ClientInfo objects stand for.
  pub record AsyncSocket : Type 0 where
    pub running : Bool
    pub sock_open : Bool
    pub selector_open : Bool
    pub watched_self : Option Role
    pub watched : Dict SocketId ℕ
    pub id_count : ℕ
    pub client_manager : ClientsManager
    pub max_message_size : ℕ
    pub request_handler : RequestHandler codec net
    pub client_allocator : Option ClientAllocator
    pub handshake_meta : Option Json
    pub client_buffer : MessageBuffer
    pub infos : InfoRef → ClientInfo Value
    pub next_info : ℕ
    pub closed : List SocketId

  -- AsyncSocket.__init__
  unfoldable pub async_socket :
      RequestHandler codec net → ℕ → (InfoRef → ClientInfo Value) → ℕ → AsyncSocket
  async_socket handler max_message_size infos next_info = record {
    running = false;
    sock_open = true;
    selector_open = true;
    watched_self = none;
    watched = [];
    id_count = 0;
    client_manager = clients_manager (some max_message_size);
    max_message_size = max_message_size;
    request_handler = handler;
    client_allocator = none;
    handshake_meta = none;
    client_buffer = message_buffer max_message_size default_max_buffer_size;
    infos = infos;
    next_info = next_info;
    closed = [];
  }

  abbrev pub emits_event : Event → AsyncSocket → AsyncSocket
  emits_event e s = record s { request_handler = emits codec net e s.request_handler }

  abbrev pub set_info : InfoRef → ClientInfo Value → AsyncSocket → AsyncSocket
  set_info i c s = record s { infos = λ j. if nat_eq j i then c else s.infos j }

  -- send, from what `sendall` comes to, and its repetition in blocking mode
  unfoldable pub send_bytes :
      Result Exn (Unit {0}) → Result Exn (Unit {0}) → AsyncSocket → Bool × AsyncSocket
  send_bytes (ok _) again s = (true, s)
  send_bytes (err blocking_io) (ok _) s = (true, s)
  send_bytes (err blocking_io) (err e) s = (false, emits_event (error_event ErrorEvent.send) s)
  send_bytes (err e) again s = (false, emits_event (error_event ErrorEvent.send) s)

  -- selector.register and selector.unregister of the core's own socket
  unfoldable pub register_self : Role → AsyncSocket → Result Exn (Unit {0}) × AsyncSocket
  register_self role s =
      if not (s.sock_open && s.selector_open)
      then (err value_error, s)
      else if is_some s.watched_self
      then (err key_error, s)
      else (ok tt, record s { watched_self = some role })

  unfoldable pub unregister_watched :
      Option Role → AsyncSocket → Result Exn (Unit {0}) × AsyncSocket
  unregister_watched none s = (err (if s.sock_open then key_error else value_error), s)
  unregister_watched (some role) s = (ok tt, record s { watched_self = none })

  unfoldable pub unregister_self : AsyncSocket → Result Exn (Unit {0}) × AsyncSocket
  unregister_self s = unregister_watched s.watched_self s

  -- selector.register and selector.unregister of a client's socket
  unfoldable pub register_client : SocketId → ℕ → AsyncSocket → Result Exn (Unit {0}) × AsyncSocket
  register_client conn id s =
      if any (λ c. c == conn) s.closed || not s.selector_open
      then (err value_error, s)
      else if contains conn s.watched
      then (err key_error, s)
      else (ok tt, record s { watched = insert conn id s.watched })

  unfoldable pub unregister_client : SocketId → AsyncSocket → Result Exn (Unit {0}) × AsyncSocket
  unregister_client conn s =
      if contains conn s.watched
      then (ok tt, record s { watched = erase conn s.watched })
      else if any (λ c. c == conn) s.closed
      then (err value_error, s)
      else (err key_error, s)

  -- bind, from what binding and listening come to
  unfoldable pub bound_as : Result Exn (Unit {0}) × AsyncSocket → Result Exn Bool × AsyncSocket
  bound_as (err e, s) = (err e, s)
  bound_as (ok _, s) = (ok true, record s { running = true })

  unfoldable pub bind : Result Exn (Unit {0}) → AsyncSocket → Result Exn Bool × AsyncSocket
  bind (err e) s = (err e, s)
  bind (ok _) s = bound_as (register_self listen s)

  -- _close_server_client: a KeyError of `unregister` is suppressed.
  unfoldable pub forgotten : ClientEntry → AsyncSocket → AsyncSocket
  forgotten entry s = emits_event (server_event ServerEvent.on_disconnect) (record s {
    closed = (s.infos entry.info).conn ∷ s.closed;
    client_manager = (remove_client entry.id s.client_manager).1;
  })

  unfoldable pub close_unregistered :
      ClientEntry → Result Exn (Unit {0}) × AsyncSocket → Result Exn (Unit {0}) × AsyncSocket
  close_unregistered entry (ok _, s) = (ok tt, forgotten entry s)
  close_unregistered entry (err e, s) =
      if is_key_error e then (ok tt, forgotten entry s) else (err e, s)

  unfoldable pub close_server_client :
      ClientEntry → AsyncSocket → Result Exn (Unit {0}) × AsyncSocket
  close_server_client entry s =
      close_unregistered entry (unregister_client (s.infos entry.info).conn s)

  -- close_client, of an entry or of an identifier
  unfoldable pub closed_client : Result Exn (Unit {0}) × AsyncSocket → Result Exn Bool × AsyncSocket
  closed_client (err e, s) = (err e, s)
  closed_client (ok _, s) = (ok true, s)

  unfoldable pub close_entry : ClientEntry → AsyncSocket → Result Exn Bool × AsyncSocket
  close_entry entry s = closed_client (close_server_client entry s)

  unfoldable pub close_found : Option ClientEntry → AsyncSocket → Result Exn Bool × AsyncSocket
  close_found none s = (ok false, s)
  close_found (some entry) s = close_entry entry s

  unfoldable pub close_client : ℕ → AsyncSocket → Result Exn Bool × AsyncSocket
  close_client id s = close_found (get_client id s.client_manager) s

  -- The loop of iter_on_clients, which an exception leaves
  unfoldable pub if_closed :
      Result Exn (Unit {0}) × AsyncSocket
      → (AsyncSocket → Result Exn (Unit {0}) × AsyncSocket)
      → Result Exn (Unit {0}) × AsyncSocket
  if_closed (err e, s) next = (err e, s)
  if_closed (ok _, s) next = next s

  unfoldable pub close_each : List ClientEntry → AsyncSocket → Result Exn (Unit {0}) × AsyncSocket
  close_each [] s = (ok tt, s)
  close_each (e ∷ es) s = if_closed (close_server_client e s) (close_each es)

  -- close: every exception makes it answer False.
  unfoldable pub closed_selector : Result Exn (Unit {0}) × AsyncSocket → Bool × AsyncSocket
  closed_selector (err e, s) = (false, s)
  closed_selector (ok _, s) =
      (true, record s { selector_open = false; watched_self = none; watched = [] })

  unfoldable pub close_unwatched : Result Exn (Unit {0}) × AsyncSocket → Bool × AsyncSocket
  close_unwatched (err e, s) = (false, s)
  close_unwatched (ok _, s) =
      closed_selector
        (close_each (values s.client_manager.clients) (record s { sock_open = false }))

  unfoldable pub close : AsyncSocket → Bool × AsyncSocket
  close s = close_unwatched (unregister_self (record s { running = false }))

  -- disconnect
  unfoldable pub disconnect_unwatched : Result Exn (Unit {0}) × AsyncSocket → Bool × AsyncSocket
  disconnect_unwatched (err e, s) = (false, s)
  disconnect_unwatched (ok _, s) = (true, record s { sock_open = false })

  unfoldable pub disconnect : AsyncSocket → Bool × AsyncSocket
  disconnect s = disconnect_unwatched (unregister_self (record s { running = false }))
