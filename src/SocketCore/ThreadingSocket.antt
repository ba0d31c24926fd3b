-- ===== src/SocketCore/ThreadingSocket.antt =====
-- The threading socket core (src/veltix/socket_core/threading_socket.py). Its emissions go to the
-- bus that the request handler has too. The thread objects are left out but for their identifiers:
-- starting or joining one changes no other field.
pub mod Serving
pub mod Connecting
pub mod Stream
pub mod Limit
pub mod Closing
pub mod Core
use veltix.Exceptions.{Exn}
use veltix.Prelude.{
  ℕ, ◌+◌, Bool, true, false, ◌&&◌, Option, none, some, List, [], ◌∷◌, ltb, leb, nat_eq,
  if◌then◌else◌, Result, ok, err, eq_nat, eq_string, eq_list,
}
use veltix.Prelude.Dict.{Dict, insert, erase}
use veltix.Prelude.Text.{Text}
use veltix.Internal.Events.{ServerEvent, ErrorEvent, Event, server_event, error_event}
use veltix.Network.Request.{Codec}
use veltix.Network.Sender.{SocketId, Transport}
use veltix.Handler.Handshake.{Json}
use veltix.Server.ClientInfo.{ClientInfo, client_info}
use veltix.Handler.RequestHandler.{RequestHandler, request_handler, emits}
use veltix.SocketCore.ClientsManager.{
  InfoRef, ClientEntry, ClientsManager, clients_manager, add_client, remove_client, get_client,
  count, iter_on_clients,
}
use veltix.Network.IdAllocator.{IdAllocator, client_allocator}
use veltix.Network.IdAllocator

-- The parameter max_client, an int: `negative n` is -(n + 1).
pub data MaxClient : Type 0 where
  at_most negative : ℕ → MaxClient

-- `0 < max_client <= self.client_manager.count()`
unfoldable pub limit_reached : MaxClient → ℕ → Bool
limit_reached (at_most m) count = ltb 0 m && leb m count
limit_reached (negative m) count = false

-- How a call of `self._sock.accept` goes
pub data AcceptOutcome : Type 0 where
  accepts : SocketId → Text × ℕ → AcceptOutcome
  accept_timeout accept_os_error accept_fails : AcceptOutcome

-- client_allocator.register() if there is an allocator, else 0
unfoldable pub register_offset :
    Option IdAllocator.ClientAllocator → ℕ × Option IdAllocator.ClientAllocator
register_offset none = (0, none)
register_offset (some a) = let (index, a') = IdAllocator.register a in (index, some a')

module _ (codec : Codec) (net : Transport) (Value : Type 0) where
  -- `sock_open` says that `_sock` has not been closed, `infos` is what the references to ClientInfo
  -- objects stand for, `next_info` their counter, and `closed` the client sockets that were closed.
  pub record ThreadingSocket : Type 0 where
    pub running : Bool
    pub sock_open : Bool
    pub n_th : ℕ
    pub client_manager : ClientsManager
    pub threads : Dict ℕ (Unit {0})
    pub max_message_size : ℕ
    pub request_handler : RequestHandler codec net
    pub client_allocator : Option IdAllocator.ClientAllocator
    pub handshake_meta : Option Json
    pub infos : InfoRef → ClientInfo Value
    pub next_info : ℕ
    pub closed : List SocketId

  -- ThreadingSocket.__init__; the infos that other sockets made stay.
  unfoldable pub threading_socket :
      RequestHandler codec net → ℕ → (InfoRef → ClientInfo Value) → ℕ → ThreadingSocket
  threading_socket handler max_message_size infos next_info = record {
    running = false;
    sock_open = true;
    n_th = 0;
    client_manager = clients_manager (some max_message_size);
    threads = [];
    max_message_size = max_message_size;
    request_handler = handler;
    client_allocator = none;
    handshake_meta = none;
    infos = infos;
    next_info = next_info;
    closed = [];
  }

  abbrev pub emits_event : Event → ThreadingSocket → ThreadingSocket
  emits_event e s = record s { request_handler = emits codec net e s.request_handler }

  -- An assignment to a ClientInfo
  abbrev pub set_info : InfoRef → ClientInfo Value → ThreadingSocket → ThreadingSocket
  set_info i c s = record s { infos = λ j. if nat_eq j i then c else s.infos j }

  -- ThreadingSocket.bind, from what binding and listening come to
  unfoldable pub bind : Result Exn (Unit {0}) → ThreadingSocket → Result Exn Bool × ThreadingSocket
  bind bound s =
      if s.running
      then (ok false, s)
      else elim bound [ err e ↦ (err e, s) | ok _ ↦ (ok true, record s { running = true }) ]

  -- The rejection of a client, in the accept loop
  unfoldable pub reject : ThreadingSocket → ThreadingSocket
  reject s =
      emits_event (server_event ServerEvent.client_rejected)
        (emits_event (error_event ErrorEvent.connection_refused) s)

  -- An accepted connection: its identifier in the registry, and the socket
  unfoldable pub admit : SocketId → Text × ℕ → ThreadingSocket → ℕ × ThreadingSocket
  admit conn addr s =
      let thread_id = s.n_th + 1 in
      let (id_offset, allocator) = register_offset s.client_allocator in
      let (client, next) = client_info Value conn addr thread_id false true id_offset s.next_info in
      let (client_id, manager) = add_client client.id s.client_manager in
      (
        client_id,
        record (set_info client.id client s) {
          n_th = thread_id;
          client_allocator = allocator;
          next_info = next;
          client_manager = manager;
          threads = insert thread_id tt s.threads;
        },
      )

  -- The `try` of the accept loop, behind the test of the limit
  unfoldable pub accepted : AcceptOutcome → ThreadingSocket → ThreadingSocket
  accepted (accepts conn addr) s = (admit conn addr s).1
  accepted accept_timeout s = s
  accepted accept_os_error s = record (emits_event (error_event ErrorEvent.accept) s) {
    running = false;
  }
  accepted accept_fails s =
      record (if s.running then emits_event (error_event ErrorEvent.accept) s else s) {
        running = false;
      }

  -- One round of _accept_loop
  unfoldable pub accept_round : MaxClient → AcceptOutcome → ThreadingSocket → ThreadingSocket
  accept_round max_client outcome s =
      if limit_reached max_client (count s.client_manager) then reject s else accepted outcome s

  -- _accept_loop, with what the calls of `accept` come to
  unfoldable pub accept_loop : MaxClient → List AcceptOutcome → ThreadingSocket → ThreadingSocket
  accept_loop max_client [] s = s
  accept_loop max_client (o ∷ os) s =
      let rest = accept_loop max_client os (accept_round max_client o s) in
      if s.running then rest else s

  -- _close_server_client
  unfoldable pub close_server_client : ClientEntry → ThreadingSocket → ThreadingSocket
  close_server_client entry s =
      let info = s.infos entry.info in
      emits_event (server_event ServerEvent.on_disconnect) (record s {
        closed = info.conn ∷ s.closed;
        threads = erase info.thread_id s.threads;
        client_manager = (remove_client entry.id s.client_manager).1;
      })

  -- close_client, of an entry or of an identifier
  unfoldable pub close_entry : ClientEntry → ThreadingSocket → Bool × ThreadingSocket
  close_entry entry s = (true, close_server_client entry s)

  unfoldable pub close_found : Option ClientEntry → ThreadingSocket → Bool × ThreadingSocket
  close_found none s = (false, s)
  close_found (some entry) s = close_entry entry s

  unfoldable pub close_client : ℕ → ThreadingSocket → Bool × ThreadingSocket
  close_client id s = close_found (get_client id s.client_manager) s

  -- close_all, which `close` calls
  unfoldable pub close_all : ThreadingSocket → Bool × ThreadingSocket
  close_all s = (
    true,
    iter_on_clients close_server_client s.client_manager
        (record s { running = false; sock_open = false }),
  )
