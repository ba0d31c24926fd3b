-- ===== src/Tests/Sending.antt =====
-- The sender at concrete inputs.
use veltix.Prelude.{
  ◌≡◌, refl, Bool, true, false, none, some, List, [], ◌∷◌, ok, eq_nat, eq_string, eq_list,
}
use veltix.Prelude.Bytes.{Bytes}
use veltix.Internal.Events.{MessageEvent, message_event}
use veltix.Network.Wire.{frame}
use veltix.Network.Sender.{
  SocketId, Transport, base_socket, client_info, Sender, resolve_target, send, build_exclude_set,
  targets, broadcast,
}
use veltix.Network.Sender.Delivery.{NeverRaises, send-ignores_answer}
use veltix.Network.Sender.Broadcast.{kept, Agrees, broadcast-Agrees}
use veltix.Tests.Samples.{plain_codec, loopback, hello, hello-IsSendable, hello_bytes}

abbrev pub server_sender : Sender plain_codec loopback
server_sender = record {
  is_client = false;
  conn = none;
  id_allocator = some (record { max_ids = 30000; counter = 5 });
  trace = [];
  world = [];
}

pub seven-NeverRaises : NeverRaises plain_codec loopback 7
seven-NeverRaises b w = refl

-- Socket 7 answers False.
send-ignores_answer_example :
    send plain_codec loopback hello (some 7) server_sender
    ≡ ok (
      true,
      hello,
      record server_sender {
        trace = message_event MessageEvent.sent ∷ [];
        world = (7, hello_bytes) ∷ [];
      },
    )
unfolding frame resolve_target
send-ignores_answer_example =
    send-ignores_answer plain_codec loopback hello 7 server_sender (some 7) hello-IsSendable refl
      refl seven-NeverRaises

broadcast-Agrees_example :
    (out : Bool × Sender plain_codec loopback) × (broadcast plain_codec loopback hello none
        (some (base_socket 3 ∷ client_info 1 9 ∷ base_socket 4 ∷ []))
        (some (base_socket 4 ∷ []))
        server_sender
      ≡ ok out)
    × Agrees plain_codec loopback
        (frame plain_codec hello)
        (kept plain_codec loopback
          (build_exclude_set plain_codec loopback (some (base_socket 4 ∷ [])))
          (base_socket 3 ∷ client_info 1 9 ∷ base_socket 4 ∷ []))
        (true, server_sender)
        out
unfolding targets
broadcast-Agrees_example =
    broadcast-Agrees plain_codec loopback hello none
      (some (base_socket 3 ∷ client_info 1 9 ∷ base_socket 4 ∷ [])) (some (base_socket 4 ∷ []))
      (base_socket 3 ∷ client_info 1 9 ∷ base_socket 4 ∷ []) server_sender refl hello-IsSendable
      refl

-- Sockets that all answer False
abbrev mute : Transport
mute = record { World = List (SocketId × Bytes); send_bytes = λ k b w. (ok false, (k, b) ∷ w) }

abbrev mute_sender : Sender plain_codec mute
mute_sender = record { is_client = false; conn = none; id_allocator = none; trace = []; world = [] }
