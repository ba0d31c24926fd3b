-- ===== src/SocketCore/AsyncSocket/Connecting.antt =====
-- Connecting (src/veltix/socket_core/async_socket.py).
use veltix.Prelude.{
  Bool, true, false, Option, none, some, Result, ok, err, eq_nat, eq_string, eq_list,
}
use veltix.Prelude.Text.{Text}
use veltix.Exceptions.{Exn}
use veltix.Internal.Events.{ErrorEvent, error_event}
use veltix.Internal.Version.{Version, eq_version}
use veltix.Network.Request.{Codec}
use veltix.Network.Sender.{Transport}
use veltix.Handler.Handshake.{Json, Peer}
use veltix.Handler.Handshake.Client.{do_client_handshake}
use veltix.SocketCore.AsyncSocket.{client_role, AsyncSocket, emits_event, register_self}

module _ (codec : Codec) (net : Transport) (Value : Type 0) where
  abbrev Socket : Type 0
  Socket = AsyncSocket codec net Value

  -- The handlers of `connect`, which emit the same event for every exception
  unfoldable pub connect_failed : Socket → Bool × Socket
  connect_failed s = (false, emits_event codec net Value (error_event ErrorEvent.network) s)

  unfoldable pub watched_as_client : Result Exn (Unit {0}) × Socket → Bool × Socket
  watched_as_client (err e, s) = connect_failed s
  watched_as_client (ok _, s) = (true, s)

  -- connect, from what the handshake comes to
  unfoldable pub after_client_handshake : Result Exn (Option Json) → Socket → Bool × Socket
  after_client_handshake (err e) s = connect_failed s
  after_client_handshake (ok none) s = (false, record s { sock_open = false })
  after_client_handshake (ok (some meta)) s = watched_as_client (
      register_self codec net Value client_role
        (record s { handshake_meta = some meta; running = true }))

  -- connect, from what the connection of the TCP socket comes to
  unfoldable pub connect :
      (peer : Peer) → Result Exn (Unit {0}) → Version → Text → peer.World → Socket → Bool × Socket
  connect peer (err e) own version w s = connect_failed s
  connect peer (ok _) own version w s =
      let (out, _, trace) = do_client_handshake peer own version w s.request_handler.trace in
      after_client_handshake out
        (record s { request_handler = record s.request_handler { trace = trace } })
