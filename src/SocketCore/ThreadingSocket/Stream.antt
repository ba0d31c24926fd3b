-- ===== src/SocketCore/ThreadingSocket/Stream.antt =====
-- From the stream of a client's frames to the request handler
-- (src/veltix/socket_core/threading_socket.py).
use veltix.Prelude.{
  ℕ, ◌+◌, ◌≤◌, ◌≡◌, refl, sym, ap, ◌∙◌, fun_ext, Bool, true, Option, none, some, List, [], ◌∷◌,
  ◌++◌, map, if◌then◌else◌, length, concat, All, ok, eq_nat, eq_string, eq_list,
}
use veltix.Prelude.Bytes.{Bytes}
use veltix.Internal.Recv.{RecvStatus, RecvResult, timed_out_status, disconnected, recv}
use veltix.Network.Types.{Registry}
use veltix.Network.Request.{Codec, Request}
use veltix.Network.Response.{Response}
use veltix.Network.Sender.{SocketId, Transport}
use veltix.Network.Wire.{received}
use veltix.Network.MessageBuffer.{default_max_buffer_size, MessageBuffer, message_buffer}
use veltix.Network.MessageBuffer.Framing.{IsDeliverable, stream}
use veltix.Network.MessageBuffer.Chunks.{feed, feed_all, feed_all-stream}
use veltix.Handler.RequestHandler.{RequestHandler}
use veltix.Handler.Rules.{Handled, answers, blocked}
use veltix.SocketCore.ClientsManager.{ClientEntry}
use veltix.SocketCore.ThreadingSocket.{ThreadingSocket}
use veltix.SocketCore.ThreadingSocket.Serving.{
  Turn, continues, returns, waiting, Arrival, arrives, data_or_empty, unless_blocked,
  handle_messages, with_handler, receive_data, process_server_message, if_continues, while_running,
  serve,
}

-- A chunk that has come, or a time-out.
pub data Quiet : Type 0 where
  chunk : ℕ → Bytes → Quiet
  timeout : Quiet

abbrev pub timed_out_result : RecvResult
timed_out_result = record { status = RecvStatus.timeout; payload = none }

abbrev pub arrival_of : Quiet → Arrival
arrival_of (chunk b bs) = arrives (recv (ok (b ∷ bs)))
arrival_of timeout = arrives timed_out_result

abbrev pub chunks_of : List Quiet → List Bytes
chunks_of [] = []
chunks_of (chunk b bs ∷ qs) = (b ∷ bs) ∷ chunks_of qs
chunks_of (timeout ∷ qs) = chunks_of qs

module _ (codec : Codec) (net : Transport) where
  -- A piece of the loop, and the rest if it goes on
  abbrev pub then_turn :
      Turn × RequestHandler codec net
      → (RequestHandler codec net → Turn × RequestHandler codec net)
      → Turn × RequestHandler codec net
  then_turn (continues, h) next = next h
  then_turn (returns, h) next = (returns, h)
  then_turn (waiting, h) next = (waiting, h)

  unless_blocked_twice :
      (out : Handled codec net × RequestHandler codec net)
      (f g : RequestHandler codec net → Turn × RequestHandler codec net)
      → then_turn (unless_blocked codec net out f) g
        ≡ unless_blocked codec net out (λ h. then_turn (f h) g)
  unfolding unless_blocked
  unless_blocked_twice (answers b, h) f g = refl
  unless_blocked_twice (blocked, h) f g = refl

  pub handle_messages-append :
      (client : Option SocketId) (rs ts : List (Response codec)) (h : RequestHandler codec net)
      → handle_messages codec net client (rs ++ ts) h
        ≡ then_turn (handle_messages codec net client rs h) (handle_messages codec net client ts)
  unfolding handle_messages
  handle_messages-append client [] ts h = refl
  handle_messages-append client (r ∷ rs) ts h =
      ap (unless_blocked codec net _) (fun_ext (handle_messages-append client rs ts))
      ∙ sym (
          unless_blocked_twice _ (handle_messages codec net client rs)
            (handle_messages codec net client ts))

module _ (codec : Codec) (net : Transport) (Value : Type 0) (reg : Registry) where
  abbrev Socket : Type 0
  Socket = ThreadingSocket codec net Value

  -- What serving comes to: the turn and the socket
  abbrev pub outcome : Turn × ClientEntry × Socket → Turn × Socket
  outcome (t, e, s) = (t, s)

  abbrev pub conn_of : ClientEntry → Socket → Option SocketId
  conn_of entry s = some (s.infos entry.info).conn

  served-continues :
      (qs : List Quiet) (entry : ClientEntry) (s : Socket) (rest : List (Response codec))
      (buffer : MessageBuffer) (out : Turn × RequestHandler codec net)
      → ((h : RequestHandler codec net)
          → outcome (
              serve codec net Value reg
                (map arrival_of qs)
                (record entry { buffer = buffer })
                (record s { request_handler = h }))
            ≡ with_handler codec net Value reg s
                (handle_messages codec net (conn_of entry s) rest h))
      → outcome (
          if_continues codec net Value reg
            (out.0, record entry { buffer = buffer }, record s { request_handler = out.1 })
            (λ e s'. serve codec net Value reg (map arrival_of qs) e s'))
        ≡ with_handler codec net Value reg s
            (then_turn codec net out (handle_messages codec net (conn_of entry s) rest))
  unfolding if_continues
  served-continues qs entry s rest buffer (continues, h) ih = ih h
  served-continues qs entry s rest buffer (returns, h) ih = refl
  served-continues qs entry s rest buffer (waiting, h) ih = refl

  nothing_left :
      (entry : ClientEntry) (s : Socket)
      → s.running ≡ true
      → outcome (serve codec net Value reg [] entry s)
        ≡ with_handler codec net Value reg s
            (handle_messages codec net (conn_of entry s) [] s.request_handler)
  unfolding serve handle_messages
  nothing_left entry s on = ap (λ (b : Bool). (if b then continues else returns, s)) on

  serve-arrives :
      (r : RecvResult) (later : List Arrival) (entry : ClientEntry) (s : Socket)
      → s.running ≡ true
      → serve codec net Value reg (arrives r ∷ later) entry s
        ≡ if_continues codec net Value reg
            (process_server_message codec net Value reg r entry s)
            (λ e s'. serve codec net Value reg later e s')
  unfolding serve while_running
  serve-arrives r later entry s on =
      ap
        (λ b. while_running codec net Value reg b entry s (
          if_continues codec net Value reg (process_server_message codec net Value reg r entry s)
            (λ e s'. serve codec net Value reg later e s')))
        on

  pub serve-quiet :
      (qs : List Quiet) (entry : ClientEntry) (s : Socket)
      → s.running ≡ true
      → outcome (serve codec net Value reg (map arrival_of qs) entry s)
        ≡ with_handler codec net Value reg s (
            handle_messages codec net
              (conn_of entry s)
              (feed_all codec reg entry.buffer (chunks_of qs)).0
              s.request_handler)
  unfolding feed_all process_server_message receive_data recv timed_out_status disconnected
      data_or_empty if_continues
  serve-quiet [] entry s on = nothing_left entry s on
  serve-quiet (timeout ∷ qs) entry s on =
      ap outcome (serve-arrives timed_out_result (map arrival_of qs) entry s on)
      ∙ serve-quiet qs entry s on
  serve-quiet (chunk b bs ∷ qs) entry s on =
      let (rs, buffer) = feed codec reg entry.buffer (b ∷ bs) in
      let rest = (feed_all codec reg buffer (chunks_of qs)).0 in
      ap outcome (serve-arrives (recv (ok (b ∷ bs))) (map arrival_of qs) entry s on)
      ∙ served-continues qs entry s rest buffer
          (handle_messages codec net (conn_of entry s) rs s.request_handler)
          (λ h.
            serve-quiet qs (record entry { buffer = buffer }) (record s { request_handler = h }) on)
      ∙ ap (with_handler codec net Value reg s)
          (sym (handle_messages-append codec net (conn_of entry s) rs rest s.request_handler))

  -- A client that sends frames of requests that the server accepts, over a stream that arrives in
  -- chunks of at most `size` bytes, cut anywhere, and time-outs: as long as the server runs, its
  -- thread hands the messages to the request handler one by one, in order, each once, with the
  -- client's socket, and waits for more, or for good if a call of handle blocks; nothing else of
  -- the server's socket changes. The limit and a chunk have to fit the buffer together.
  pub serve-stream :
      (rs : List Request) (qs : List Quiet) (size : ℕ) (entry : ClientEntry) (s : Socket)
      → s.running ≡ true
      → entry.buffer ≡ message_buffer s.max_message_size default_max_buffer_size
      → All (IsDeliverable reg s.max_message_size) rs
      → concat (chunks_of qs) ≡ stream codec rs
      → All (λ c. length c ≤ size) (chunks_of qs)
      → s.max_message_size + size ≤ default_max_buffer_size
      → outcome (serve codec net Value reg (map arrival_of qs) entry s)
        ≡ with_handler codec net Value reg s (
            handle_messages codec net
              (some (s.infos entry.info).conn)
              (map (received codec) rs)
              s.request_handler)
  serve-stream rs qs size entry s on fresh v e small room =
      let all_out =
        ap (λ m. (feed_all codec reg m (chunks_of qs)).0) fresh
        ∙ ap (λ p. p.0)
            (feed_all-stream codec reg s.max_message_size default_max_buffer_size rs (chunks_of qs)
              size v e small room) in
      serve-quiet qs entry s on
      ∙ ap
          (λ ms.
            with_handler codec net Value reg s
              (handle_messages codec net (conn_of entry s) ms s.request_handler))
          all_out
