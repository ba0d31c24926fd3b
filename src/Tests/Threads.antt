-- ===== src/Tests/Threads.antt =====
-- The threading socket core at concrete inputs.
use veltix.Prelude.{
  ℕ, ◌+◌, ◌*◌, ◌≤◌, ◌≡◌, refl, true, false, none, some, List, [], ◌∷◌, map, arith, take, drop,
  concat, eq_nat, eq_string, eq_list,
}
use veltix.Prelude.Dict.{lookup}
use veltix.Prelude.Text.{codes}
use veltix.Internal.Recv.{RecvStatus, disconnected}
use veltix.Network.Wire.{frame, received}
use veltix.Network.MessageBuffer.{default_max_buffer_size, MessageBuffer, message_buffer}
use veltix.Network.MessageBuffer.Framing.{stream}
use veltix.SocketCore.ClientsManager.{ClientEntry, get_client, count}
use veltix.SocketCore.ThreadingSocket.{
  at_most, limit_reached, accepts, ThreadingSocket, accepted, close_client,
}
use veltix.SocketCore.ThreadingSocket.Serving.{
  returns, handle_messages, with_handler, process_server_message, serve,
}
use veltix.SocketCore.ThreadingSocket.Stream.{
  Quiet, chunk, timeout, arrival_of, chunks_of, outcome, serve-stream,
}
use veltix.SocketCore.ThreadingSocket.Limit.{
  passes, accept_returns, user_closes, start, later, Reach-IsWithin,
}
use veltix.SocketCore.ThreadingSocket.Closing.{disconnects_of, close_client-twice}
use veltix.Tests.Samples.{
  plain_codec, answer, loopback, registry, hello, note, hello-IsDeliverable, note-IsDeliverable,
}
use veltix.Tests.Buffer.{two_frames}
use veltix.Tests.Handling.{handler}
use veltix.Tests.Registry.{infos}

abbrev fresh_buffer : MessageBuffer
fresh_buffer = record { buffer = []; max_message_size = 1024; max_buffer_size = 20 * 1024 * 1024 }

-- A running server with one client
abbrev pub one_client : ClientEntry
one_client = record { id = 1; info = 1; buffer = fresh_buffer }

abbrev pub serving_one : ThreadingSocket plain_codec loopback ℕ
serving_one = record {
  running = true;
  sock_open = true;
  n_th = 1;
  client_manager = record { max_message_size = 1024; clients = (1, one_client) ∷ []; id_count = 1 };
  threads = (1, tt) ∷ [];
  max_message_size = 1024;
  request_handler = handler;
  client_allocator = none;
  handshake_meta = none;
  infos = infos;
  next_info = 5;
  closed = [];
}

-- The frames of `hello` and `note` in three chunks, and a time-out
abbrev pub cut_stream : List Quiet
cut_stream =
    chunk 86 (take 2 (drop 1 two_frames))
    ∷ timeout
    ∷ chunk 0 (take 24 (drop 4 two_frames))
    ∷ chunk 2 (drop 29 two_frames)
    ∷ []

fresh_one : one_client.buffer ≡ message_buffer 1024 default_max_buffer_size
unfolding message_buffer
fresh_one = refl

room : 1024 + 30 ≤ default_max_buffer_size
room = omega arith

same_stream : concat (chunks_of cut_stream) ≡ stream plain_codec (hello ∷ note ∷ [])
unfolding frame
same_stream = refl

serve-stream_example :
    outcome plain_codec loopback ℕ registry
      (serve plain_codec loopback ℕ registry (map arrival_of cut_stream) one_client serving_one)
    ≡ with_handler plain_codec loopback ℕ registry serving_one (
        handle_messages plain_codec loopback
          (some 101)
          (received plain_codec hello ∷ received plain_codec note ∷ [])
          handler)
serve-stream_example =
    serve-stream plain_codec loopback ℕ registry (hello ∷ note ∷ []) cut_stream 30 one_client
      serving_one refl fresh_one (hello-IsDeliverable, (note-IsDeliverable, tt)) same_stream
      (omega arith) room

-- The accept thread passes the test with one client of two, a second one is accepted, and the
-- first one is closed.
abbrev two_served : ThreadingSocket plain_codec loopback ℕ
two_served = accepted plain_codec loopback ℕ (accepts 7 (codes "127.0.0.1", 50000)) serving_one

passes_test : limit_reached (at_most 2) (count serving_one.client_manager) ≡ false
unfolding count limit_reached
passes_test = refl

one_of_two : count serving_one.client_manager ≤ 2
unfolding count
one_of_two = omega arith

Reach-IsWithin_example :
    count (close_client plain_codec loopback ℕ 1 two_served).1.client_manager ≤ 2
Reach-IsWithin_example = Reach-IsWithin plain_codec loopback ℕ registry (omega arith) one_of_two (
    later
      (later (later start (passes refl passes_test))
        (accept_returns (accepts 7 (codes "127.0.0.1", 50000))))
      (user_closes 1))

found_one : get_client 1 serving_one.client_manager ≡ some one_client
unfolding get_client lookup
found_one = refl

closed_is_disconnected : disconnected RecvStatus.closed ≡ true
unfolding disconnected
closed_is_disconnected = refl

close_client-twice_example :
    let (answer, s') = close_client plain_codec loopback ℕ 1 serving_one in
    let (t, e, s'') =
      process_server_message plain_codec loopback ℕ registry
        (record { status = RecvStatus.closed; payload = none })
        one_client
        s' in
    (t ≡ returns)
    × (disconnects_of plain_codec loopback ℕ registry s''
        ≡ disconnects_of plain_codec loopback ℕ registry serving_one + 2)
close_client-twice_example =
    close_client-twice plain_codec loopback ℕ registry 1 one_client fresh_buffer
      (record { status = RecvStatus.closed; payload = none }) serving_one found_one
      closed_is_disconnected
