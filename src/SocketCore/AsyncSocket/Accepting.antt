-- ===== src/SocketCore/AsyncSocket/Accepting.antt =====
-- Accepting a client, with its handshake (src/veltix/socket_core/async_socket.py).
use veltix.Prelude.{
  ℕ, ◌+◌, Bool, true, false, not, Option, none, some, ◌∷◌, if◌then◌else◌, Result, ok, err, eq_nat,
  eq_string, eq_list,
}
use veltix.Prelude.Text.{Text}
use veltix.Exceptions.{Exn}
use veltix.Internal.Events.{ServerEvent, ErrorEvent, server_event, error_event}
use veltix.Internal.Version.{Version, eq_version}
use veltix.Network.Request.{Codec}
use veltix.Network.Sender.{SocketId, Transport}
use veltix.Server.ClientInfo.{ClientInfo, client_info}
use veltix.Handler.Handshake.{Peer, do_server_handshake}
use veltix.SocketCore.ClientsManager.{ClientEntry, add_client, get_client, count}
use veltix.SocketCore.ThreadingSocket.{MaxClient, register_offset}
use veltix.SocketCore.AsyncSocket.{
  refuses_more, AsyncSocket, emits_event, set_info, register_client, close_server_client,
}

-- How a call of `self._sock.accept` goes
pub data Accepting : Type 0 where
  takes : SocketId → Text × ℕ → Accepting
  would_block accept_os_error : Accepting
  accept_raises : Exn → Accepting

module _ (codec : Codec) (net : Transport) (Value : Type 0) where
  abbrev Socket : Type 0
  Socket = AsyncSocket codec net Value

  -- A registered client, before its handshake: its identifier, and its ClientInfo
  unfoldable pub admit : SocketId → Text × ℕ → Socket → ℕ × ClientInfo Value × Socket
  admit conn addr s =
      let (id_offset, allocator) = register_offset s.client_allocator in
      let (client, next) =
        client_info Value conn addr s.id_count false true id_offset s.next_info in
      let (client_id, manager) = add_client client.id s.client_manager in
      (
        client_id,
        client,
        record (set_info codec net Value client.id client s) {
          client_allocator = allocator;
          next_info = next;
          client_manager = manager;
        },
      )

  -- The branch of a handshake that failed
  unfoldable pub drop_client :
      SocketId → Option ClientEntry → Socket → Result Exn (Unit {0}) × Socket
  drop_client conn (some entry) s = close_server_client codec net Value entry s
  drop_client conn none s = (ok tt, record s { closed = conn ∷ s.closed })

  -- The end of _accept_client, from the selector's `register` on
  unfoldable pub connected : Result Exn (Unit {0}) × Socket → Result Exn (Unit {0}) × Socket
  connected (err e, s) = (err e, s)
  connected (ok _, s) = (
    ok tt,
    emits_event codec net Value (server_event ServerEvent.on_connect)
        (record s { id_count = s.id_count + 1 }),
  )

  -- _accept_client, from what the handshake comes to
  unfoldable pub after_handshake :
      Result Exn Bool → ℕ → ClientInfo Value → Socket → Result Exn (Unit {0}) × Socket
  after_handshake (err e) client_id client s = (err e, s)
  after_handshake (ok false) client_id client s =
      drop_client client.conn (get_client client_id s.client_manager) s
  after_handshake (ok true) client_id client s = connected (
      register_client codec net Value client.conn client_id
        (set_info codec net Value client.id (record client { handshake_done = true }) s))

  -- The rejection of a client
  unfoldable pub reject : Socket → Socket
  reject s =
      emits_event codec net Value (server_event ServerEvent.client_rejected)
        (emits_event codec net Value (error_event ErrorEvent.connection_refused) s)

  unfoldable pub accepted :
      (peer : Peer)
      → Version
      → Text
      → peer.World
      → Accepting
      → Socket
      → Result Exn (Unit {0}) × Socket
  accepted peer own version w (takes conn addr) s =
      let (client_id, client, s') = admit conn addr s in
      let (out, _, trace) = do_server_handshake peer own version 30000 w s'.request_handler.trace in
      after_handshake out client_id client
        (record s' { request_handler = record s'.request_handler { trace = trace } })
  accepted peer own version w would_block s = (ok tt, s)
  accepted peer own version w accept_os_error s =
      (ok tt, emits_event codec net Value (error_event ErrorEvent.accept) s)
  accepted peer own version w (accept_raises e) s = (err e, s)

  -- _accept_client
  unfoldable pub accept_client :
      (peer : Peer)
      → Version
      → Text
      → MaxClient
      → peer.World
      → Accepting
      → Socket
      → Result Exn (Unit {0}) × Socket
  accept_client peer own version max_client w outcome s =
      if refuses_more max_client (count s.client_manager)
      then (ok tt, reject s)
      else if not s.running
      then (ok tt, s)
      else accepted peer own version w outcome s
