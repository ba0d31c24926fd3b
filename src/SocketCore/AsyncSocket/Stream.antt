-- ===== src/SocketCore/AsyncSocket/Stream.antt =====
-- From the stream of a client's frames to the request handler, in both socket cores
-- (src/veltix/socket_core/async_socket.py, src/veltix/socket_core/threading_socket.py).
use veltix.Prelude.{
  ℕ, ◌≡◌, refl, sym, ap, ◌∙◌, Bool, true, Option, some, List, [], ◌∷◌, map, if◌then◌else◌, Result,
  ok, eq_nat, eq_string, eq_list,
}
use veltix.Prelude.Dict.{insert, lookup-insert_self}
use veltix.Prelude.Text.{Text}
use veltix.Exceptions.{Exn}
use veltix.Internal.Recv.{RecvResult, timed_out_status, disconnected, recv}
use veltix.Internal.Version.{Version, eq_version}
use veltix.Network.Types.{Registry}
use veltix.Network.Request.{Codec}
use veltix.Network.Response.{Response}
use veltix.Network.Sender.{SocketId, Transport}
use veltix.Network.MessageBuffer.{MessageBuffer}
use veltix.Network.MessageBuffer.Chunks.{feed, feed_all}
use veltix.Handler.Handshake.{Peer}
use veltix.Handler.RequestHandler.{RequestHandler}
use veltix.SocketCore.ClientsManager.{ClientEntry, get_client}
use veltix.SocketCore.ThreadingSocket.{MaxClient, ThreadingSocket}
use veltix.SocketCore.ThreadingSocket.Serving.{
  Turn, continues, returns, waiting, data_or_empty, handle_messages, serve,
}
use veltix.SocketCore.ThreadingSocket.Stream.{
  Quiet, chunk, timeout, timed_out_result, arrival_of, chunks_of, then_turn, handle_messages-append,
  serve-quiet,
}
use veltix.SocketCore.AsyncSocket.{AsyncSocket}
use veltix.SocketCore.AsyncSocket.Events.{
  receive_data, handle_entry, handle_server_client, reads, Round, selected, then_goes,
  handle_events, while_running, selector_loop,
}

abbrev pub result_of : Quiet → RecvResult
result_of (chunk b bs) = recv (ok (b ∷ bs))
result_of timeout = timed_out_result

module _ (codec : Codec) (net : Transport) (Value : Type 0) (reg : Registry) (peer : Peer)
    (own : Version) (version : Text) (max_client : MaxClient) where
  abbrev Socket : Type 0
  Socket = AsyncSocket codec net Value

  -- A round in which the client's socket alone is ready
  abbrev pub round_of : ℕ → Quiet → Round codec net Value reg peer own version max_client
  round_of id q = selected (reads id (result_of q) ∷ [])

  -- What a piece comes to: its turn and the request handler
  abbrev pub heard : Result Exn Turn × Socket → Result Exn Turn × RequestHandler codec net
  heard (t, s) = (t, s.request_handler)

  abbrev pub turned_out :
      Turn × RequestHandler codec net → Result Exn Turn × RequestHandler codec net
  turned_out (t, h) = (ok t, h)

  abbrev loop_over : List Quiet → ℕ → Socket → Result Exn Turn × Socket
  loop_over qs id s =
      selector_loop codec net Value reg peer own version max_client (map (round_of id) qs) s

  abbrev goes :
      Result Exn Turn × Socket → (Socket → Result Exn Turn × Socket) → Result Exn Turn × Socket
  goes out next = then_goes codec net Value reg peer own version max_client out next

  -- Behind the messages of a chunk
  read-continues :
      (qs : List Quiet) (id : ℕ) (s : Socket) (client : Option SocketId)
      (rest : List (Response codec)) (out : Turn × RequestHandler codec net)
      → ((h : RequestHandler codec net)
          → heard (loop_over qs id (record s { request_handler = h }))
            ≡ turned_out (handle_messages codec net client rest h))
      → heard (
          goes
            (goes
              (ok out.0, record s { request_handler = out.1 })
              (handle_events codec net Value reg peer own version max_client []))
            (loop_over qs id))
        ≡ turned_out (then_turn codec net out (handle_messages codec net client rest))
  unfolding then_goes handle_events
  read-continues qs id s client rest (continues, h) ih = ih h
  read-continues qs id s client rest (returns, h) ih = refl
  read-continues qs id s client rest (waiting, h) ih = refl

  loop-reads :
      (q : Quiet) (qs : List Quiet) (id : ℕ) (entry : ClientEntry) (s : Socket)
      → s.running ≡ true
      → get_client id s.client_manager ≡ some entry
      → loop_over (q ∷ qs) id s
        ≡ goes
            (goes
              (handle_entry codec net Value reg id (result_of q) (some entry) s)
              (handle_events codec net Value reg peer own version max_client []))
            (loop_over qs id)
  unfolding selector_loop handle_events while_running handle_server_client
  loop-reads q qs id entry s on found =
      let tail = handle_events codec net Value reg peer own version max_client [] in
      ap
        (λ b. while_running codec net Value reg peer own version max_client b s (
          goes (goes (handle_server_client codec net Value reg id (result_of q) s) tail)
            (loop_over qs id)))
        on
      ∙ ap
          (λ o.
            goes (goes (handle_entry codec net Value reg id (result_of q) o s) tail)
              (loop_over qs id))
          found

  loop-quiet :
      (qs : List Quiet) (id : ℕ) (entry : ClientEntry) (s : Socket)
      → s.running ≡ true
      → get_client id s.client_manager ≡ some entry
      → heard (loop_over qs id s)
        ≡ turned_out (
            handle_messages codec net
              (some (s.infos entry.info).conn)
              (feed_all codec reg entry.buffer (chunks_of qs)).0
              s.request_handler)
  unfolding selector_loop handle_messages feed_all handle_entry receive_data recv timed_out_status
      disconnected data_or_empty then_goes handle_events get_client
  loop-quiet [] id entry s on found =
      ap (λ (b : Bool). (ok (if b then continues else returns), s.request_handler)) on
  loop-quiet (timeout ∷ qs) id entry s on found =
      ap heard (loop-reads timeout qs id entry s on found) ∙ loop-quiet qs id entry s on found
  loop-quiet (chunk b bs ∷ qs) id entry s on found =
      let (rs, buffer) = feed codec reg entry.buffer (b ∷ bs) in
      let rest = (feed_all codec reg buffer (chunks_of qs)).0 in
      let client = some (s.infos entry.info).conn in
      let entry' : ClientEntry = record entry { buffer = buffer } in
      let s' : Socket = record s {
        client_manager = record s.client_manager {
          clients = insert id entry' s.client_manager.clients;
        };
      } in
      ap heard (loop-reads (chunk b bs) qs id entry s on found)
      ∙ read-continues qs id s' client rest (handle_messages codec net client rs s.request_handler)
          (λ h.
            loop-quiet qs id entry' (record s' { request_handler = h }) on
              (lookup-insert_self id entry' s.client_manager.clients))
      ∙ ap turned_out (sym (handle_messages-append codec net client rs rest s.request_handler))

  -- The two socket cores do the same with what a client sends. On running servers with the same
  -- request handler, and for a registered client with the same socket and the same bytes in its
  -- buffer, the selector's thread, over rounds in which that client's socket is ready, and the
  -- client's thread, over the same chunks of any bytes and time-outs, come to the same request
  -- handler, and both wait for more, or both for good.
  pub selector_loop-serve :
      (qs : List Quiet) (id : ℕ) (entry held : ClientEntry) (s : Socket)
      (t : ThreadingSocket codec net Value)
      → s.running ≡ true
      → t.running ≡ true
      → get_client id s.client_manager ≡ some entry
      → entry.buffer ≡ held.buffer
      → (s.infos entry.info).conn ≡ (t.infos held.info).conn
      → s.request_handler ≡ t.request_handler
      → let (turn, e, t') = serve codec net Value reg (map arrival_of qs) held t in
        heard
          (selector_loop codec net Value reg peer own version max_client (map (round_of id) qs) s)
        ≡ (ok turn, t'.request_handler)
  selector_loop-serve qs id entry held s t on on' found same_bytes same_conn same_handler =
      let run : MessageBuffer
          → Option SocketId
          → RequestHandler codec net
          → Turn × RequestHandler codec net =
        λ b c h. handle_messages codec net c (feed_all codec reg b (chunks_of qs)).0 h in
      loop-quiet qs id entry s on found
      ∙ ap (λ b. turned_out (run b (some (s.infos entry.info).conn) s.request_handler)) same_bytes
      ∙ ap (λ c. turned_out (run held.buffer (some c) s.request_handler)) same_conn
      ∙ ap (λ h. turned_out (run held.buffer (some (t.infos held.info).conn) h)) same_handler
      ∙ ap (λ (p : Turn × ThreadingSocket codec net Value). (ok p.0, p.1.request_handler))
          (sym (serve-quiet codec net Value reg qs held t on'))
