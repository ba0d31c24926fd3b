-- ===== src/SocketCore/ThreadingSocket/Serving.antt =====
-- The receive loops of the threading socket core (src/veltix/socket_core/threading_socket.py).
-- A buffer is used by one thread only, so that it goes with the loop.
use veltix.Exceptions.{Exn, value_error}
use veltix.Prelude.{
  ℕ, Bool, true, false, Option, none, some, List, [], ◌∷◌, if◌then◌else◌, Result, ok, err, eq_nat,
  eq_string, eq_list,
}
use veltix.Prelude.Bytes.{Bytes}
use veltix.Prelude.Text.{Text}
use veltix.Internal.Events.{ServerEvent, MessageEvent, server_event, message_event}
use veltix.Internal.Recv.{RecvResult, timed_out_status, disconnected}
use veltix.Internal.Version.{Version, eq_version}
use veltix.Network.Types.{Registry}
use veltix.Network.Request.{Codec}
use veltix.Network.Response.{Response}
use veltix.Network.Sender.{SocketId, Transport}
use veltix.Network.MessageBuffer.Chunks.{feed}
use veltix.Handler.Handshake.{Peer, do_server_handshake}
use veltix.Handler.RequestHandler.{RequestHandler, emits}
use veltix.Handler.Rules.{Handled, answers, blocked, handle}
use veltix.SocketCore.ClientsManager.{ClientEntry, get_client}
use veltix.SocketCore.ThreadingSocket.{ThreadingSocket, emits_event, set_info, close_server_client}

-- How a piece of a receive loop leaves its thread: it goes on, it has returned, or it waits for
-- good in a call of `handle`.
pub data Turn : Type 0 where
  continues returns waiting : Turn

-- What a receive loop meets: a result of `recv`, or another thread that clears `_running_event`
pub data Arrival : Type 0 where
  arrives : RecvResult → Arrival
  stopped : Arrival

-- `result.data or b""`
unfoldable pub data_or_empty : Option Bytes → Bytes
data_or_empty none = []
data_or_empty (some b) = b

module _ (codec : Codec) (net : Transport) where
  abbrev Handler : Type 0
  Handler = RequestHandler codec net

  -- The loop over the messages goes on behind a call of `handle` that returns.
  unfoldable pub unless_blocked :
      Handled codec net × Handler → (Handler → Turn × Handler) → Turn × Handler
  unless_blocked (answers _, h) next = next h
  unless_blocked (blocked, h) next = (waiting, h)

  -- `for response in messages`
  unfoldable pub handle_messages :
      Option SocketId → List (Response codec) → Handler → Turn × Handler
  handle_messages client [] h = (continues, h)
  handle_messages client (r ∷ rs) h =
      unless_blocked
        (handle codec net (record { response = r; client = client })
          (emits codec net (message_event MessageEvent.received) h))
        (handle_messages client rs)

module _ (codec : Codec) (net : Transport) (Value : Type 0) (reg : Registry) where
  abbrev Socket : Type 0
  Socket = ThreadingSocket codec net Value

  abbrev pub with_handler : Socket → Turn × RequestHandler codec net → Turn × Socket
  with_handler s (t, h) = (t, record s { request_handler = h })

  -- The `try` of _process_server_message
  unfoldable pub receive_data : Bytes → ClientEntry → Socket → Turn × ClientEntry × Socket
  receive_data chunk entry s =
      let (messages, buffer) = feed codec reg entry.buffer chunk in
      let conn = (s.infos entry.info).conn in
      let (t, s') =
        with_handler s (handle_messages codec net (some conn) messages s.request_handler) in
      (t, record entry { buffer = buffer }, s')

  -- _process_server_message: True is `continues`, False is `returns`.
  unfoldable pub process_server_message :
      RecvResult → ClientEntry → Socket → Turn × ClientEntry × Socket
  process_server_message result entry s =
      if timed_out_status result.status
      then (continues, entry, s)
      else if disconnected result.status
      then (returns, entry, close_server_client codec net Value entry s)
      else receive_data (data_or_empty result.payload) entry s

  unfoldable pub if_continues :
      Turn × ClientEntry × Socket
      → (ClientEntry → Socket → Turn × ClientEntry × Socket)
      → Turn × ClientEntry × Socket
  if_continues (continues, e, s) next = next e s
  if_continues (returns, e, s) next = (returns, e, s)
  if_continues (waiting, e, s) next = (waiting, e, s)

  -- `while self._running_event.is_set()`
  unfoldable pub while_running :
      Bool → ClientEntry → Socket → Turn × ClientEntry × Socket → Turn × ClientEntry × Socket
  while_running true entry s body = body
  while_running false entry s body = (returns, entry, s)

  -- The loop of _handle_server_client; behind the last arrival it waits in `recv`.
  unfoldable pub serve : List Arrival → ClientEntry → Socket → Turn × ClientEntry × Socket
  serve [] entry s = (if s.running then continues else returns, entry, s)
  serve (stopped ∷ arrivals) entry s = serve arrivals entry (record s { running = false })
  serve (arrives r ∷ arrivals) entry s =
      while_running s.running entry s
        (if_continues (process_server_message r entry s) (λ e s'. serve arrivals e s'))

  -- The rest of _handle_server_client, behind the handshake
  unfoldable pub after_handshake :
      Result Exn Bool
      → List Arrival
      → ClientEntry
      → Socket
      → Result Exn (Turn × ClientEntry) × Socket
  after_handshake (err e) arrivals entry s = (err e, s)
  after_handshake (ok false) arrivals entry s =
      (ok (returns, entry), close_server_client codec net Value entry s)
  after_handshake (ok true) arrivals entry s =
      let info = s.infos entry.info in
      let done = set_info codec net Value entry.info (record info { handshake_done = true }) s in
      let (t, e, s') =
        serve arrivals entry
          (emits_event codec net Value (server_event ServerEvent.on_connect) done) in
      (ok (t, e), s')

  unfoldable pub handle_entry :
      (peer : Peer)
      → Version
      → Text
      → peer.World
      → List Arrival
      → Option ClientEntry
      → Socket
      → Result Exn (Turn × ClientEntry) × Socket
  handle_entry peer own version w arrivals none s = (err value_error, s)
  handle_entry peer own version w arrivals (some entry) s =
      let (out, _, trace) = do_server_handshake peer own version 30000 w s.request_handler.trace in
      after_handshake out arrivals entry
        (record s { request_handler = record s.request_handler { trace = trace } })

  -- _handle_server_client, the body of a client's thread
  unfoldable pub handle_server_client :
      (peer : Peer)
      → Version
      → Text
      → peer.World
      → List Arrival
      → ℕ
      → Socket
      → Result Exn (Turn × ClientEntry) × Socket
  handle_server_client peer own version w arrivals client_id s =
      handle_entry peer own version w arrivals (get_client client_id s.client_manager) s
