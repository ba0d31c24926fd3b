-- ===== src/Tests/Selector.antt =====
-- The socket core on a selector at concrete inputs.
use veltix.Prelude.{
  ℕ, ◌<◌, ◌≡◌, refl, ◌↔◌, true, false, none, some, [], ◌∷◌, map, arith, take, drop, ok, err, eq_nat,
  eq_string, eq_list,
}
use veltix.Prelude.Dict.{lookup}
use veltix.Prelude.Text.{codes}
use veltix.Prelude.Bytes.{Bytes}
use veltix.Exceptions.{attribute_error}
use veltix.Internal.Recv.{recv}
use veltix.Handler.Handshake.{
  Json, null, array, no_items, item, Peer, get_field, truthy, server_hello, encode, was_sent,
  send_handshake,
}
use veltix.Handler.Handshake.Reception.{Gives, Arrives}
use veltix.SocketCore.ClientsManager.{get_client, has_client_id, count}
use veltix.SocketCore.ThreadingSocket.{at_most, negative, limit_reached}
use veltix.SocketCore.ThreadingSocket.Serving.{serve}
use veltix.SocketCore.ThreadingSocket.Stream.{arrival_of}
use veltix.SocketCore.AsyncSocket.{listen, refuses_more, AsyncSocket}
use veltix.SocketCore.AsyncSocket.Accepting.{takes}
use veltix.SocketCore.AsyncSocket.Events.{listens, reads, selected, selector_loop}
use veltix.SocketCore.AsyncSocket.Failures.{selector_loop-attribute_error}
use veltix.SocketCore.AsyncSocket.Limit.{limit_reached-refuses_more_iff}
use veltix.SocketCore.AsyncSocket.Stream.{round_of, heard, selector_loop-serve}
use veltix.Tests.Samples.{plain_codec, loopback, registry, hello_bytes}
use veltix.Tests.Handling.{handler}
use veltix.Tests.Handshakes.{v1_8_1, dumped, one_by_one}
use veltix.Tests.Registry.{infos}
use veltix.Tests.Threads.{one_client, serving_one, cut_stream}

-- A running server with the same client
abbrev selecting_one : AsyncSocket plain_codec loopback ℕ
selecting_one = record {
  running = true;
  sock_open = true;
  selector_open = true;
  watched_self = some listen;
  watched = (101, 1) ∷ [];
  id_count = 1;
  client_manager = record { max_message_size = 1024; clients = (1, one_client) ∷ []; id_count = 1 };
  max_message_size = 1024;
  request_handler = handler;
  client_allocator = none;
  handshake_meta = none;
  client_buffer = one_client.buffer;
  infos = infos;
  next_info = 5;
  closed = [];
}

-- A peer that answers with the JSON value [null]
abbrev one_null : Json
one_null = array (item null no_items)

abbrev rude : Peer
rude = record {
  World = Bytes;
  sendall = λ b w. (ok tt, w);
  recv = λ n w. (ok (take 1 w), drop 1 w);
  dumps = dumped;
  loads = λ b. ok one_null;
}

one_null-Arrives : Arrives rude (0 ∷ 1 ∷ 91 ∷ []) one_null []
one_null-Arrives = record {
  body = 91 ∷ [];
  between = 91 ∷ [];
  some_body = omega arith;
  header_came =
      Gives.chunk_came 0 [] refl (omega arith)
        (Gives.chunk_came 1 [] refl (omega arith) Gives.all_came);
  body_came = Gives.chunk_came 91 [] refl (omega arith) Gives.all_came;
  reads = refl;
}

rude_sent :
    send_handshake rude (server_hello (codes "1.8.1") 30000) (0 ∷ 1 ∷ 91 ∷ [])
    ≡ (true, 0 ∷ 1 ∷ 91 ∷ [])
unfolding send_handshake server_hello encode was_sent
rude_sent = refl

unlimited : refuses_more (negative 0) (count selecting_one.client_manager) ≡ false
unfolding refuses_more
unlimited = refl

one_null-truthy : truthy one_null ≡ true
unfolding truthy
one_null-truthy = refl

no_get : get_field (codes "v") one_null ≡ err attribute_error
unfolding get_field
no_get = refl

-- The client's own message, in the same batch and behind it, is not read.
selector_loop-attribute_error_example :
    (s' : AsyncSocket plain_codec loopback ℕ) × (selector_loop plain_codec loopback ℕ registry rude
        v1_8_1
        (codes "1.8.1")
        (negative 0)
        (selected (
            listens (takes 107 (codes "127.0.0.1", 50000)) (0 ∷ 1 ∷ 91 ∷ [])
            ∷ reads 1 (recv (ok hello_bytes))
            ∷ [])
          ∷ selected (reads 1 (recv (ok hello_bytes)) ∷ [])
          ∷ [])
        selecting_one
      ≡ (err attribute_error, s'))
    × (s'.running ≡ true)
    × (has_client_id 2 s'.client_manager ≡ true)
    × (s'.closed ≡ [])
    × (s'.watched ≡ (101, 1) ∷ [])
selector_loop-attribute_error_example =
    selector_loop-attribute_error plain_codec loopback ℕ registry rude v1_8_1 (codes "1.8.1")
      (negative 0) 107 (codes "127.0.0.1", 50000) (0 ∷ 1 ∷ 91 ∷ []) (0 ∷ 1 ∷ 91 ∷ []) [] one_null
      selecting_one (reads 1 (recv (ok hello_bytes)) ∷ [])
      (selected (reads 1 (recv (ok hello_bytes)) ∷ []) ∷ []) refl unlimited rude_sent
      one_null-Arrives one_null-truthy no_get

limit_reached-refuses_more_iff_example :
    ((count : ℕ) → limit_reached (at_most 0) count ≡ refuses_more (at_most 0) count) ↔ (0 < 0)
limit_reached-refuses_more_iff_example = limit_reached-refuses_more_iff (at_most 0)

found_same : get_client 1 selecting_one.client_manager ≡ some one_client
unfolding get_client lookup
found_same = refl

selector_loop-serve_example :
    let (turn, e, t) =
      serve plain_codec loopback ℕ registry (map arrival_of cut_stream) one_client serving_one in
    heard plain_codec loopback ℕ registry one_by_one v1_8_1 (codes "1.8.1") (negative 0) (
      selector_loop plain_codec loopback ℕ registry one_by_one v1_8_1
        (codes "1.8.1")
        (negative 0)
        (map
          (round_of plain_codec loopback ℕ registry one_by_one v1_8_1
            (codes "1.8.1")
            (negative 0)
            1)
          cut_stream)
        selecting_one)
    ≡ (ok turn, t.request_handler)
selector_loop-serve_example =
    selector_loop-serve plain_codec loopback ℕ registry one_by_one v1_8_1 (codes "1.8.1")
      (negative 0) cut_stream 1 one_client one_client selecting_one serving_one refl refl found_same
      refl refl refl
