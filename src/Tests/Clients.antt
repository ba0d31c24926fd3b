-- ===== src/Tests/Clients.antt =====
-- Reconnection at a concrete client.
use veltix.Prelude.{
  ℕ, zero, suc, ◌≡◌, refl, true, false, none, some, [], ◌∷◌, ok, eq_nat, eq_string, eq_list,
}
use veltix.Prelude.Dict.{lookup, insert}
use veltix.Internal.Events.{MessageEvent, message_event}
use veltix.Network.Request.{pack_header, request_id_bytes, compile}
use veltix.Network.Sender.{resolve_target, assign_id, try_send, send}
use veltix.Handler.RequestHandler.{request_handler, copy_routes, register_route}
use veltix.Client.Connection.{established, unreachable, meta_or_dict, window_of, id_window}
use veltix.Client.State.{
  error, reconnect_handler, Client, new_sender, close_socket, init_components, set_running,
  set_connected, init_connect, fire_on_disconnect, set_window, with_window, try_connect, disconnect,
}
use veltix.Client.Reconnect.{
  Round, reset, after_connect, after_wait, after_failure, branch, counted, round, continue_with,
  reconnect_loop, on_socket_disconnect,
}
use veltix.Client.Reconnect.Rounds.{attempts}
use veltix.Tests.Samples.{plain_codec, answer, loopback, hello}
use veltix.Network.Wire.{frame, received}
use veltix.Handler.Rules.Dispatch.{Context}
use veltix.Client.Requests.{send_and_wait}
use veltix.Client.Requests.Answer.{IsAnswer, send_and_wait-answers}
use veltix.Network.IdAllocator.{id_allocator}
use veltix.Client.Reconnect.Disconnected.{disconnect-final}
use veltix.Handler.Routes.{register_routes, set_if_given}
use veltix.Prelude.Text.{codes}
use veltix.Handler.Handshake.{Json, number, object, no_fields, field, find_field, get_field, truthy}

-- A client that may retry twice, has a route and an on_recv callback, and lost its connection.
abbrev pub lost : Client plain_codec loopback
lost = record {
  retry = 2;
  is_connected = false;
  connecting = false;
  running = true;
  shutdown_event = false;
  socket = 0;
  next_socket = 1;
  closed = [];
  sender = new_sender plain_codec loopback 0 [];
  request_handler = record {
    is_server = false;
    sender = some (new_sender plain_codec loopback 0 []);
    on_recv = some 5;
    pending_requests = [];
    routes = (200, 40) ∷ [];
    executor = record { running = true; submitted = [] };
    trace = [];
  };
  reconnect = record {
    fail_count = 0;
    stop_retry_flag = false;
    stop_event = false;
    locked = false;
  };
  notified = [];
  trace = [];
}

abbrev pub window_meta : ℕ → Json
window_meta w = object (field (codes "id_window") (number w) no_fields)

-- The first attempt is refused, the second one goes through.
abbrev recovering : ℕ → Round
recovering n = record {
  connection = elim n [ zero ↦ unreachable | suc m ↦ established (some (window_meta 500)) ];
  closes_old = false;
  closes_new = true;
  stop_before = false;
  stop_connecting = false;
  stop_connected = false;
  stop_waiting = false;
}

abbrev exhausted : Client plain_codec loopback
exhausted = record lost { reconnect = record lost.reconnect { fail_count = 2 } }

-- In this run the loop answers True at the second attempt.
recovers :
    (out : Client plain_codec loopback) × (reconnect_loop plain_codec loopback 3 recovering 2 error
        lost
      ≡ some (true, out))
unfolding reconnect_loop round counted reset branch try_connect with_window id_window meta_or_dict
    window_of truthy get_field find_field close_socket after_connect after_failure continue_with
    reconnect_handler init_connect set_window fire_on_disconnect init_components set_running
    set_connected request_handler register_routes register_route set_if_given copy_routes lookup
    insert
recovers = (_, refl)

-- A client whose socket takes what it is given, and the message that answers its request 258
abbrev pub connected : Client plain_codec loopback
connected = record lost { is_connected = true }

abbrev reply : Context plain_codec loopback
reply = record { response = received plain_codec hello; client = none }

hello_sent :
    send plain_codec loopback hello none connected.sender
    ≡ ok (
      true,
      hello,
      record {
        is_client = true;
        conn = some 0;
        id_allocator = some (record { max_ids = 30000; counter = 0 });
        trace = message_event MessageEvent.sent ∷ [];
        world = (0, frame plain_codec hello) ∷ [];
      },
    )
unfolding send resolve_target assign_id try_send compile request_id_bytes pack_header id_allocator
    frame
hello_sent = refl

send_and_wait-answers_example :
    IsAnswer plain_codec loopback 258
      (reply ∷ [])
      true
      (send_and_wait plain_codec loopback hello (reply ∷ []) connected)
send_and_wait-answers_example =
    send_and_wait-answers plain_codec loopback hello hello 258 (reply ∷ []) connected true _ refl
      refl hello_sent

-- `close` of the socket answers False, as AsyncSocket does for one that never connected.
disconnect-final_example :
    let (answer, d) = disconnect plain_codec loopback (ok false) connected in
    (answer ≡ true)
    × (d.running ≡ false)
    × (d.is_connected ≡ false)
    × (on_socket_disconnect plain_codec loopback 3 recovering d ≡ some (false, d))
    × (continue_with plain_codec loopback (λ k. none) error (after_wait plain_codec loopback d)
        ≡ some (false, fire_on_disconnect plain_codec loopback true error d))
    × (out : Client plain_codec loopback) × (reconnect_loop plain_codec loopback 4 recovering 2
          error d
        ≡ some (false, out))
    × (out.is_connected ≡ false)
    × (out.socket ≡ d.socket)
    × (attempts out.trace ≡ attempts d.trace)
disconnect-final_example =
    disconnect-final plain_codec loopback (ok false) connected 3 recovering 2 error (λ k. none)

-- The handshake of the second attempt brings the number 3 as metadata: the loop answers False, with
-- a client that counts as connected.
abbrev misled : ℕ → Round
misled n = record {
  connection = elim n [ zero ↦ unreachable | suc m ↦ established (some (number 3)) ];
  closes_old = true;
  closes_new = true;
  stop_before = false;
  stop_connecting = false;
  stop_connected = false;
  stop_waiting = false;
}

connected_but_false :
    (out : Client plain_codec loopback) × (reconnect_loop plain_codec loopback 3 misled 2 error lost
      ≡ some (false, out))
    × (out.is_connected ≡ true)
unfolding reconnect_loop round counted reset branch try_connect with_window id_window meta_or_dict
    window_of truthy get_field find_field close_socket after_failure continue_with reconnect_handler
    init_connect set_window fire_on_disconnect init_components set_running set_connected
    request_handler register_routes register_route set_if_given copy_routes lookup insert
connected_but_false = (_, refl, refl)
