-- ===== src/SocketCore/AsyncSocket/Events.antt =====
-- The selector's thread (src/veltix/socket_core/async_socket.py). It accepts clients and reads
-- from all sockets; an exception that it does not catch ends it.
use veltix.Prelude.{
  ℕ, Bool, true, false, Option, none, some, List, [], ◌∷◌, if◌then◌else◌, Result, ok, err, eq_nat,
  eq_string, eq_list,
}
use veltix.Prelude.Dict.{insert}
use veltix.Prelude.Text.{Text}
use veltix.Prelude.Bytes.{Bytes}
use veltix.Exceptions.{Exn}
use veltix.Internal.Events.{ClientEvent, client_event}
use veltix.Internal.Recv.{RecvResult, timed_out_status, disconnected}
use veltix.Internal.Version.{Version, eq_version}
use veltix.Network.Types.{Registry}
use veltix.Network.Request.{Codec}
use veltix.Network.Sender.{Transport}
use veltix.Network.MessageBuffer.Chunks.{feed}
use veltix.Handler.Handshake.{Peer}
use veltix.Handler.RequestHandler.{RequestHandler}
use veltix.SocketCore.ClientsManager.{ClientEntry, get_client}
use veltix.SocketCore.ThreadingSocket.{MaxClient}
use veltix.SocketCore.ThreadingSocket.Serving.{
  Turn, continues, returns, waiting, data_or_empty, handle_messages,
}
use veltix.SocketCore.AsyncSocket.{AsyncSocket, emits_event, close_client, disconnect}
use veltix.SocketCore.AsyncSocket.Accepting.{Accepting, accept_client}

module _ (codec : Codec) (net : Transport) (Value : Type 0) (reg : Registry) where
  -- A piece of the selector's thread: its exception, or whether it goes on
  abbrev pub Piece : Type 0
  Piece = Result Exn Turn × AsyncSocket codec net Value

  abbrev pub with_turn : AsyncSocket codec net Value → Turn × RequestHandler codec net → Piece
  with_turn s (t, h) = (ok t, record s { request_handler = h })

  -- The messages of a chunk; the buffer of the entry is the one in the registry.
  unfoldable pub receive_data : ℕ → Bytes → ClientEntry → AsyncSocket codec net Value → Piece
  receive_data id chunk entry s =
      let (messages, buffer) = feed codec reg entry.buffer chunk in
      let s' : AsyncSocket codec net Value = record s {
        client_manager = record s.client_manager {
          clients = insert id (record entry { buffer = buffer }) s.client_manager.clients;
        };
      } in
      with_turn s'
        (handle_messages codec net (some (s.infos entry.info).conn) messages s.request_handler)

  unfoldable pub gone : Result Exn Bool × AsyncSocket codec net Value → Piece
  gone (err e, s) = (err e, s)
  gone (ok _, s) = (ok continues, s)

  unfoldable pub handle_entry :
      ℕ → RecvResult → Option ClientEntry → AsyncSocket codec net Value → Piece
  handle_entry id result none s = (ok continues, s)
  handle_entry id result (some entry) s =
      if timed_out_status result.status
      then (ok continues, s)
      else if disconnected result.status
      then gone (close_client codec net Value id s)
      else receive_data id (data_or_empty result.payload) entry s

  -- _handle_server_client
  unfoldable pub handle_server_client : ℕ → RecvResult → AsyncSocket codec net Value → Piece
  handle_server_client id result s = handle_entry id result (get_client id s.client_manager) s

  unfoldable pub receive_response : Bytes → AsyncSocket codec net Value → Piece
  receive_response chunk s =
      let (messages, buffer) = feed codec reg s.client_buffer chunk in
      with_turn (record s { client_buffer = buffer })
        (handle_messages codec net none messages s.request_handler)

  -- _handle_self_read
  unfoldable pub handle_self_read : RecvResult → AsyncSocket codec net Value → Piece
  handle_self_read result s =
      if timed_out_status result.status
      then (ok continues, s)
      else if disconnected result.status
      then (
        ok continues,
        (disconnect codec net Value
            (emits_event codec net Value (client_event ClientEvent.socket_disconnected) s)).1,
      )
      else receive_response (data_or_empty result.payload) s

module _ (codec : Codec) (net : Transport) (Value : Type 0) (reg : Registry) (peer : Peer)
    (own : Version) (version : Text) (max_client : MaxClient) where
  -- A key that `select` returns, with what its socket gives
  pub data Ready : Type 0 where
    listens : Accepting → peer.World → Ready
    reads : ℕ → RecvResult → Ready
    self_reads : RecvResult → Ready

  -- What a round of the thread meets: the keys that `select` returns, or another thread that
  -- clears `_running_event`
  pub data Round : Type 0 where
    selected : List Ready → Round
    stopped : Round

  unfoldable pub turned :
      Result Exn (Unit {0}) × AsyncSocket codec net Value → Piece codec net Value reg
  turned (err e, s) = (err e, s)
  turned (ok _, s) = (ok continues, s)

  -- Behind a piece that goes on
  unfoldable pub then_goes :
      Piece codec net Value reg
      → (AsyncSocket codec net Value → Piece codec net Value reg)
      → Piece codec net Value reg
  then_goes (err e, s) next = (err e, s)
  then_goes (ok continues, s) next = next s
  then_goes (ok returns, s) next = (ok returns, s)
  then_goes (ok waiting, s) next = (ok waiting, s)

  -- `for key, _ in events`, with the `break` behind the core's own socket
  unfoldable pub handle_events :
      List Ready → AsyncSocket codec net Value → Piece codec net Value reg
  handle_events [] s = (ok continues, s)
  handle_events (listens outcome w ∷ rs) s =
      then_goes (turned (accept_client codec net Value peer own version max_client w outcome s))
        (handle_events rs)
  handle_events (reads id result ∷ rs) s =
      then_goes (handle_server_client codec net Value reg id result s) (handle_events rs)
  handle_events (self_reads result ∷ rs) s =
      then_goes (handle_self_read codec net Value reg result s)
        (λ s'. let rest = handle_events rs s' in if s'.running then rest else (ok continues, s'))

  unfoldable pub while_running :
      Bool → AsyncSocket codec net Value → Piece codec net Value reg → Piece codec net Value reg
  while_running true s body = body
  while_running false s body = (ok returns, s)

  -- _selector_loop; behind the last round it waits in `select`.
  unfoldable pub selector_loop :
      List Round → AsyncSocket codec net Value → Piece codec net Value reg
  selector_loop [] s = (ok (if s.running then continues else returns), s)
  selector_loop (stopped ∷ rounds) s = selector_loop rounds (record s { running = false })
  selector_loop (selected rs ∷ rounds) s =
      while_running s.running s (then_goes (handle_events rs s) (selector_loop rounds))
