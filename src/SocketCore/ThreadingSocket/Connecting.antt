-- ===== src/SocketCore/ThreadingSocket/Connecting.antt =====
-- The client's side of the threading socket core (src/veltix/socket_core/threading_socket.py).
use veltix.Exceptions.{Exn}
use veltix.Prelude.{
  Bool, true, false, Option, none, some, List, [], ◌∷◌, if◌then◌else◌, Result, ok, err, eq_nat,
  eq_string, eq_list,
}
use veltix.Prelude.Bytes.{Bytes}
use veltix.Prelude.Text.{Text}
use veltix.Internal.Events.{ClientEvent, ErrorEvent, client_event, error_event}
use veltix.Internal.Recv.{RecvResult, timed_out_status, disconnected}
use veltix.Internal.Version.{Version, eq_version}
use veltix.Network.Types.{Registry}
use veltix.Network.Request.{Codec}
use veltix.Network.Sender.{Transport}
use veltix.Network.MessageBuffer.{default_max_buffer_size, MessageBuffer, message_buffer}
use veltix.Network.MessageBuffer.Chunks.{feed}
use veltix.Handler.Handshake.{Json, Peer}
use veltix.Handler.Handshake.Client.{do_client_handshake}
use veltix.SocketCore.ThreadingSocket.{ThreadingSocket, emits_event}
use veltix.SocketCore.ThreadingSocket.Serving.{
  Turn, continues, returns, waiting, Arrival, arrives, stopped, data_or_empty, handle_messages,
}

module _ (codec : Codec) (net : Transport) (Value : Type 0) where
  abbrev Socket : Type 0
  Socket = ThreadingSocket codec net Value

  -- The handlers of `connect`, which emit the same event for every exception
  unfoldable pub connect_failed : Socket → Bool × Socket
  connect_failed s = (false, emits_event codec net Value (error_event ErrorEvent.network) s)

  -- connect, from what the handshake comes to
  unfoldable pub after_client_handshake : Result Exn (Option Json) → Socket → Bool × Socket
  after_client_handshake (err e) s = connect_failed s
  after_client_handshake (ok none) s = (false, record s { sock_open = false })
  after_client_handshake (ok (some meta)) s =
      (true, record s { handshake_meta = some meta; running = true })

  -- connect, from what the connection of the TCP socket comes to
  unfoldable pub connect_socket :
      (peer : Peer) → Result Exn (Unit {0}) → Version → Text → peer.World → Socket → Bool × Socket
  connect_socket peer (err e) own version w s = connect_failed s
  connect_socket peer (ok _) own version w s =
      let (out, _, trace) = do_client_handshake peer own version w s.request_handler.trace in
      after_client_handshake out
        (record s { request_handler = record s.request_handler { trace = trace } })

  -- send, from what `sendall` comes to
  unfoldable pub send_bytes : Result Exn (Unit {0}) → Socket → Bool × Socket
  send_bytes (ok _) s = (true, s)
  send_bytes (err e) s = (false, emits_event codec net Value (error_event ErrorEvent.send) s)

  -- disconnect, where nothing raises
  unfoldable pub disconnect_socket : Socket → Bool × Socket
  disconnect_socket s = (true, record s { running = false; sock_open = false })

module _ (codec : Codec) (net : Transport) (Value : Type 0) (reg : Registry) where
  -- The `try` of _handle_client
  unfoldable pub receive_response_data :
      Bytes
      → MessageBuffer
      → ThreadingSocket codec net Value
      → Turn × MessageBuffer × ThreadingSocket codec net Value
  receive_response_data chunk buffer s =
      let (messages, buffer') = feed codec reg buffer chunk in
      let (t, h) = handle_messages codec net none messages s.request_handler in
      (t, buffer', record s { request_handler = h })

  -- One round of _handle_client: `returns` is its `break`.
  unfoldable pub process_response :
      RecvResult
      → MessageBuffer
      → ThreadingSocket codec net Value
      → Turn × MessageBuffer × ThreadingSocket codec net Value
  process_response result buffer s =
      if timed_out_status result.status
      then (continues, buffer, s)
      else if disconnected result.status
      then (
        returns,
        buffer,
        emits_event codec net Value (client_event ClientEvent.socket_disconnected) s,
      )
      else receive_response_data (data_or_empty result.payload) buffer s

  unfoldable pub if_goes_on :
      Turn × MessageBuffer × ThreadingSocket codec net Value
      → (MessageBuffer
          → ThreadingSocket codec net Value
          → Turn × MessageBuffer × ThreadingSocket codec net Value)
      → Turn × MessageBuffer × ThreadingSocket codec net Value
  if_goes_on (continues, b, s) next = next b s
  if_goes_on (returns, b, s) next = (returns, b, s)
  if_goes_on (waiting, b, s) next = (waiting, b, s)

  -- `while self._running_event.is_set()`
  unfoldable pub receive_while :
      Bool
      → MessageBuffer
      → ThreadingSocket codec net Value
      → Turn × MessageBuffer × ThreadingSocket codec net Value
      → Turn × MessageBuffer × ThreadingSocket codec net Value
  receive_while true buffer s body = body
  receive_while false buffer s body = (returns, buffer, s)

  unfoldable pub receive_loop :
      List Arrival
      → MessageBuffer
      → ThreadingSocket codec net Value
      → Turn × MessageBuffer × ThreadingSocket codec net Value
  receive_loop [] buffer s = (if s.running then continues else returns, buffer, s)
  receive_loop (stopped ∷ arrivals) buffer s =
      receive_loop arrivals buffer (record s { running = false })
  receive_loop (arrives r ∷ arrivals) buffer s =
      receive_while s.running buffer s
        (if_goes_on (process_response r buffer s) (λ b s'. receive_loop arrivals b s'))

  -- _handle_client, with a new buffer
  unfoldable pub handle_client :
      List Arrival
      → ThreadingSocket codec net Value
      → Turn × MessageBuffer × ThreadingSocket codec net Value
  handle_client arrivals s =
      receive_loop arrivals (message_buffer s.max_message_size default_max_buffer_size) s
